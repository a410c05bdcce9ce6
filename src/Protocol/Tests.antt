-- ===== src/Protocol/Tests.antt =====
-- Runs of `recv` on one line.
use agent_torrent.Prelude.{String, ◌≡◌, ◌⊎◌, refl, none, some, Option, [], ◌∷◌, true}
use agent_torrent.Py.{
  Value, object, text, null, Fields, end, ok, err, index, get, is_one_of, unexpected_type,
  attribute_error,
}
use agent_torrent.Py.Raises.{Raises}
use agent_torrent.Identity.{seal, payload_of}
use agent_torrent.Identity.Envelope.{Authentic}
use agent_torrent.Identity.Samples.{toy_crypto, bob}
use agent_torrent.Protocol.{task_offer, task_result}
use agent_torrent.Protocol.Verify.{Read, line, receive}
use agent_torrent.Protocol.Receive.{receive_sound}

abbrev offer_line : Read
offer_line = line (seal toy_crypto bob 5 "TASK_OFFER" (object end))

abbrev payload : Value
payload = payload_of toy_crypto bob 5 "TASK_OFFER" (object end)

received :
    receive toy_crypto (task_offer ∷ []) (some bob.peer_id) offer_line ≡ ok (bob.peer_id, payload)
unfolding receive agent_torrent.Protocol.Verify.open_line agent_torrent.Identity.open_envelope
    agent_torrent.Identity.reraise_malformed agent_torrent.Identity.read_parts index seal
    agent_torrent.Identity.bytes_from_hex agent_torrent.Identity.Hex.from_hex
    agent_torrent.Identity.Hex.hex agent_torrent.Identity.identity
    agent_torrent.Identity.check_parts agent_torrent.Protocol.Verify.check_message get
    agent_torrent.Protocol.Verify.summarize agent_torrent.Protocol.Verify.check_remote is_one_of
    agent_torrent.Identity.canonical_json agent_torrent.Identity.check_signature payload_of
    agent_torrent.Identity.peer_id_from_pubkey agent_torrent.Py.lookup
received = refl

unexpected :
    receive toy_crypto (task_result ∷ []) none offer_line
    ≡ err (unexpected_type (task_result ∷ []) (text "TASK_OFFER"))
unfolding receive agent_torrent.Protocol.Verify.open_line agent_torrent.Identity.open_envelope
    agent_torrent.Identity.reraise_malformed agent_torrent.Identity.read_parts index seal
    agent_torrent.Identity.bytes_from_hex agent_torrent.Identity.Hex.from_hex
    agent_torrent.Identity.Hex.hex agent_torrent.Identity.identity
    agent_torrent.Identity.check_parts agent_torrent.Protocol.Verify.check_message get
    agent_torrent.Protocol.Verify.summarize agent_torrent.Protocol.Verify.check_remote is_one_of
    agent_torrent.Identity.canonical_json agent_torrent.Identity.check_signature payload_of
    agent_torrent.Identity.peer_id_from_pubkey agent_torrent.Py.lookup
unexpected = refl

no_body :
    receive toy_crypto (task_offer ∷ []) none (line (seal toy_crypto bob 5 "TASK_OFFER" null))
    ≡ err attribute_error
unfolding receive agent_torrent.Protocol.Verify.open_line agent_torrent.Identity.open_envelope
    agent_torrent.Identity.reraise_malformed agent_torrent.Identity.read_parts index seal
    agent_torrent.Identity.bytes_from_hex agent_torrent.Identity.Hex.from_hex
    agent_torrent.Identity.Hex.hex agent_torrent.Identity.identity
    agent_torrent.Identity.check_parts agent_torrent.Protocol.Verify.check_message get
    agent_torrent.Protocol.Verify.summarize
no_body = refl

receive_sound_example :
    (v : Value) × (offer_line ≡ line v)
    × Authentic toy_crypto v bob.peer_id payload
    × ((t : Value) × (index "type" payload ≡ ok t) × (is_one_of (task_offer ∷ []) t ≡ true))
    × ((d : Fields) × (get "body" (object end) payload ≡ ok (object d)))
    × ((◌≡◌ {A = Option String} (some bob.peer_id) none) ⊎ (some bob.peer_id ≡ some bob.peer_id))
receive_sound_example =
    receive_sound toy_crypto (task_offer ∷ []) (some bob.peer_id) offer_line bob.peer_id payload
      received
