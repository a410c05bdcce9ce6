-- ===== src/Protocol/Roundtrip.antt =====
-- What one end sends, the other end receives.
use agent_torrent.Prelude.{
  ℕ, String, ◌≡◌, ◌⊎◌, inl, inr, refl, true, List, Option, none, some, eq_refl,
}
use agent_torrent.Py.{Value, object, text, Fields, ok, index, get, lookup, is_one_of}
use agent_torrent.Identity.{Bytes, Crypto, identity, seal, payload_of}
use agent_torrent.Identity.Envelope.{CryptoLaws, open_envelope-seal}
use agent_torrent.Protocol.Verify.{line, open_line, summarize, check_remote, check_message, receive}

-- The connection has talked to no one yet, or to this peer.
abbrev pub MayTalkTo : Option String → String → Type 0
MayTalkTo remote sender = (remote ≡ none) ⊎ (remote ≡ some sender)

check_remote-same :
    (remote : Option String) (sender : String)
    → MayTalkTo remote sender
    → check_remote remote sender ≡ ok tt
unfolding check_remote
check_remote-same remote sender (inl e) = rw (e, check_remote) refl
check_remote-same remote sender (inr e) = rw (e, check_remote, eq_refl sender) refl

module _ (c : Crypto) (laws : CryptoLaws c) (seed : Bytes) where
  open_line-seal :
      (ts : ℕ) (msg_type : String) (body : Value)
      → open_line c (line (seal c (identity c seed) ts msg_type body))
        ≡ ok ((identity c seed).peer_id, payload_of c (identity c seed) ts msg_type body)
  unfolding open_line
  open_line-seal ts msg_type body =
      rw (open_envelope-seal c laws seed ts msg_type body, open_line) refl

  check_message-payload :
      (expected : List String) (remote : Option String) (ts : ℕ) (msg_type : String) (d : Fields)
      → is_one_of expected (text msg_type) ≡ true
      → MayTalkTo remote (identity c seed).peer_id
      → let payload = payload_of c (identity c seed) ts msg_type (object d) in
        check_message expected remote (identity c seed).peer_id payload
        ≡ ok ((identity c seed).peer_id, payload)
  unfolding check_message payload_of index get lookup summarize
  check_message-payload expected remote ts msg_type d wanted may =
      rw (check_remote-same remote (identity c seed).peer_id may, wanted) refl

  pub receive-seal :
      (expected : List String) (remote : Option String) (ts : ℕ) (msg_type : String) (d : Fields)
      → is_one_of expected (text msg_type) ≡ true
      → MayTalkTo remote (identity c seed).peer_id
      → receive c expected remote (line (seal c (identity c seed) ts msg_type (object d)))
        ≡ ok ((identity c seed).peer_id, payload_of c (identity c seed) ts msg_type (object d))
  unfolding receive
  receive-seal expected remote ts msg_type d wanted may =
      rw (open_line-seal ts msg_type (object d))
        (check_message-payload expected remote ts msg_type d wanted may)
