-- ===== src/Identity/Tests.antt =====
-- Runs of the envelope functions, with the bytes of one letter each.
use agent_torrent.Prelude.{◌≡◌, ◌↔◌, refl, none, some, [], ◌∷◌}
use agent_torrent.Py.{Value, object, end, ok, err, index, malformed_envelope, key_error}
use agent_torrent.Identity.Hex.{from_hex}
use agent_torrent.Identity.{Crypto, Identity, identity, seal, payload_of, open_envelope}
use agent_torrent.Identity.Envelope.{Authentic, open_envelope_iff, open_envelope-seal}
use agent_torrent.Identity.{Bytes}
use agent_torrent.Identity.Samples.{toy_crypto, toy_laws, bob}

from_hex_odd : from_hex "0aF f 20" ≡ none
unfolding from_hex
from_hex_odd = refl

from_hex_spaced : from_hex " 0aFf 20" ≡ some (10 ∷ 255 ∷ 32 ∷ [])
unfolding from_hex
from_hex_spaced = refl

open_empty : open_envelope toy_crypto (object end) ≡ err (malformed_envelope (key_error "payload"))
unfolding open_envelope agent_torrent.Identity.reraise_malformed agent_torrent.Identity.read_parts
    index
open_empty = refl

abbrev sealed : Value
sealed = seal toy_crypto bob 5 "TASK_OFFER" (object end)

abbrev inner : Value
inner = payload_of toy_crypto bob 5 "TASK_OFFER" (object end)

opened_again : open_envelope toy_crypto sealed ≡ ok (bob.peer_id, inner)
opened_again = open_envelope-seal toy_crypto toy_laws (7 ∷ []) 5 "TASK_OFFER" (object end)

open_envelope_iff_example :
    (open_envelope toy_crypto sealed ≡ ok (bob.peer_id, inner))
    ↔ Authentic toy_crypto sealed bob.peer_id inner
open_envelope_iff_example = open_envelope_iff toy_crypto sealed bob.peer_id inner
