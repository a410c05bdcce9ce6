-- ===== src/Protocol/Verify.antt =====
-- The part of `recv` that touches no state: what it makes of one line. Nothing of a message is used
-- before its envelope has been opened.
use agent_torrent.Prelude.{String, List, if◌then◌else◌, Option, none, some, text_eq}
use agent_torrent.Py.{
  Value, object, end, Error, Result, ok, err, index, get, attribute_error, value_error,
  recursion_error, overflow_error, is_one_of, connection_error, timed_out, closed_by_remote,
  unverifiable, sender_changed, unexpected_type, is_envelope_error, ◌>>=◌, ◌>>◌,
}
use agent_torrent.Identity.{Crypto, open_envelope}

-- What a `recv` meets: a timeout that is too large for `settimeout`, or for the sum with the seconds of
-- grace that its caller passes; then, at `readline`, the timeout, an error of the system, the end
-- of the stream, or a line. A line is no JSON text in UTF-8 (one cut at the size limit among them), or
-- is nested so deep that `json.loads`, or `json.dumps` in `canonical_json`, raises a
-- `RecursionError`, or holds a value.
pub data Read : Type 0 where
  too_long : Read
  late : Read
  broken : String → Read
  eof : Read
  garbled : Read
  too_deep : Read
  line : Value → Read

-- `_summarize`, as far as it can raise: it calls `body.get`.
unfoldable pub summarize : Value → Result (Unit {0})
summarize (object d) = ok tt
summarize _ = err attribute_error

-- `except (EnvelopeError, ValueError, UnicodeDecodeError)`
abbrev pub as_unverifiable : Error → Error
as_unverifiable value_error = unverifiable value_error
as_unverifiable e = if is_envelope_error e then unverifiable e else e

unfoldable pub open_line : Crypto → Read → Result (String × Value)
open_line c too_long = err overflow_error
open_line c late = err timed_out
open_line c (broken s) = err (connection_error s)
open_line c eof = err closed_by_remote
open_line c garbled = err (unverifiable value_error)
open_line c too_deep = err recursion_error
open_line c (line v) = elim (open_envelope c v) [
  | ok (sender, payload) ↦ ok (sender, payload)
  | err e ↦ err (as_unverifiable e)
]

-- `sender != self.remote_peer_id`, once that is known
unfoldable pub check_remote : Option String → String → Result (Unit {0})
check_remote none sender = ok tt
check_remote (some known) sender = if text_eq sender known then ok tt else err sender_changed

-- The checks of `recv` on a message that has been opened.
unfoldable pub check_message :
    List String → Option String → String → Value → Result (String × Value)
check_message expected remote sender payload = do
  msg_type ← index "type" payload
  body ← get "body" (object end) payload
  summarize body
  check_remote remote sender
  if is_one_of expected msg_type
      then ok (sender, payload)
      else err (unexpected_type expected msg_type)

-- The result of `recv`, by what `readline` met.
unfoldable pub receive : Crypto → List String → Option String → Read → Result (String × Value)
receive c expected remote read =
    open_line c read >>= λ message. check_message expected remote message.0 message.1
