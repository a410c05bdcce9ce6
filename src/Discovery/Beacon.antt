-- ===== src/Discovery/Beacon.antt =====
-- The checks of `_handle_beacon`, in their order: what it takes of a datagram, if anything.
use agent_torrent.Prelude.{
  String, Bool, false, ◌&&◌, if◌then◌else◌, Option, none, some, text_eq, ltb, pos,
}
use agent_torrent.Py.{
  Value, object, int, boolean, end, Error, Result, ok, err, value_error, recursion_error,
  is_envelope_error, index, get, get?, is_text_eq, ◌>>=◌,
}
use agent_torrent.Identity.{Crypto, open_envelope}
use agent_torrent.Manifest.{validate_manifest}

-- A datagram that is no JSON text in UTF-8; one that is nested so deep that `json.loads`, or `json.dumps` in
-- `canonical_json`, raises a `RecursionError`; or the value that it holds.
pub data Datagram : Type 0 where
  garbled : Datagram
  too_deep : Datagram
  datagram : Value → Datagram

-- `isinstance(v, int) and 0 < v < 65536`; Python counts `True` as the integer 1.
unfoldable pub is_port : Value → Bool
is_port (int (pos n)) = ltb 0 n && ltb n 65536
is_port (boolean b) = b
is_port _ = false

-- An exception of `open` that the code catches drops the datagram.
unfoldable pub drop_caught : {A : Type 0} → Error → Result (Option A)
drop_caught value_error = ok none
drop_caught e = if is_envelope_error e then ok none else err e

unfoldable pub open_datagram : Crypto → Datagram → Result (Option (String × Value))
unfolding drop_caught
open_datagram c garbled = ok none
open_datagram c too_deep = err recursion_error
open_datagram c (datagram v) = elim (open_envelope c v) [
  | err e ↦ drop_caught e
  | ok message ↦ ok (some message)
]

-- The checks of the manifest: that it is valid, and that it names the sender.
unfoldable pub check_manifest :
    String → Value → Result Value → Result (Option (String × Value × Value))
check_manifest sender tcp_port (err e) = ok none
check_manifest sender tcp_port (ok manifest) = do
  peer_id ← index "peer_id" manifest
  ok (if is_text_eq sender peer_id then some (sender, tcp_port, manifest) else none)

unfoldable pub check_body : String → Value → Result (Option (String × Value × Value))
unfolding is_port
check_body sender payload = do
  body ← get "body" (object end) payload
  tcp_port ← get? "tcp_port" body
  if is_port tcp_port
      then (do
        manifest ← get? "manifest" body
        check_manifest sender tcp_port (validate_manifest manifest))
      else ok none

unfoldable pub check_beacon :
    String → Option (String × Value) → Result (Option (String × Value × Value))
check_beacon own_id none = ok none
check_beacon own_id (some (sender, payload)) = if text_eq sender own_id then ok none else (do
  msg_type ← index "type" payload
  if is_text_eq "BEACON" msg_type then check_body sender payload else ok none)

unfoldable pub accept_beacon : Crypto → String → Datagram → Result (Option (String × Value × Value))
accept_beacon c own_id d = open_datagram c d >>= check_beacon own_id
