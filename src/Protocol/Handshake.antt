-- ===== src/Protocol/Handshake.antt =====
-- The two ends of a handshake on a connection that no error befalls.
use agent_torrent.Prelude.{ℕ, String, ◌≡◌, refl, inl, List, [], ◌∷◌, map, none, some}
use agent_torrent.Py.{Value, object, end, ok, is_one_of}
use agent_torrent.Py.Exec.{continue}
use agent_torrent.Identity.{Bytes, Crypto, identity, seal}
use agent_torrent.Identity.Envelope.{CryptoLaws}
use agent_torrent.Protocol.Verify.{line, summarize}
use agent_torrent.Protocol.{
  Connection, next_read, next_send, deliver, send, recv, set_remote, handshake_inbound,
  handshake_outbound, handshake,
}
use agent_torrent.Protocol.Roundtrip.{receive-seal}

-- A fresh connection over these lines.
abbrev pub clean : (ℕ → ℕ) → List Value → Connection
clean clock lines = record {
  remote_peer_id = none;
  inbox = map line lines;
  sends = [];
  clock = clock;
  outbox = [];
}

-- A connection with this peer that has these lines to read, and on which these have been sent.
abbrev pub talking : String → (ℕ → ℕ) → List Value → List Value → Connection
talking remote clock lines said = record {
  remote_peer_id = some remote;
  inbox = map line lines;
  sends = [];
  clock = clock;
  outbox = said;
}

-- The first message of an end.
abbrev pub greeting : Crypto → Bytes → (ℕ → ℕ) → Value
greeting c seed clock = seal c (identity c seed) (clock 0) handshake (object end)

module _ (c : Crypto) (laws : CryptoLaws c) (seed other : Bytes) (clock other_clock : ℕ → ℕ) where
  pub handshake_inbound-greeting :
      (lines : List Value)
      → handshake_inbound c (identity c seed) (clean clock (greeting c other other_clock ∷ lines))
        ≡ (
          ok (identity c other).peer_id,
          talking (identity c other).peer_id clock lines (greeting c seed clock ∷ []),
        )
  unfolding handshake_inbound recv next_read set_remote send next_send deliver summarize is_one_of
      continue
  handshake_inbound-greeting lines =
      rw
        (receive-seal c laws other (handshake ∷ []) none (other_clock 0) handshake end refl
          (inl refl))
        refl

  pub handshake_outbound-greeting :
      (lines : List Value)
      → handshake_outbound c (identity c seed) (clean clock (greeting c other other_clock ∷ lines))
        ≡ (
          ok (identity c other).peer_id,
          talking (identity c other).peer_id clock lines (greeting c seed clock ∷ []),
        )
  unfolding handshake_outbound recv next_read set_remote send next_send deliver summarize is_one_of
      continue
  handshake_outbound-greeting lines =
      rw
        (receive-seal c laws other (handshake ∷ []) none (other_clock 0) handshake end refl
          (inl refl))
        refl
