-- ===== src/Py/Texts.antt =====
-- The texts of the exceptions: those that the program writes, over the texts that Python gives to its
-- own exceptions and values.
use agent_torrent.Prelude.{String, true, false, List, [], ◌∷◌, ◌<>◌, take_text, str_int}
use agent_torrent.Py.Values.{Value, text, boolean, int}
use agent_torrent.Py.Errors.{
  Error, key_error, job_error, manifest_error, ledger_error, malformed_envelope, bad_type_or_sender,
  sender_mismatch, bad_signature, send_failed, connection_error, cannot_connect, timed_out,
  closed_by_remote, sender_changed, unverifiable, unexpected_type, wrong_peer, wrong_job,
}

-- `str(exc)` and `repr(exc)` of an exception that Python raises itself, `repr` of a text, and `str` and
-- `repr` of a value that is no text, integer or Boolean.
pub record PyTexts : Type 0 where
  pub str_raised : Error → String
  pub repr_raised : Error → String
  pub repr_text : String → String
  pub str_other : Value → String
  pub repr_other : Value → String

module _ (py : PyTexts) where
  unfoldable pub str_value : Value → String
  str_value (text s) = s
  str_value (int n) = str_int n
  str_value (boolean true) = "True"
  str_value (boolean false) = "False"
  str_value v = py.str_other v

  unfoldable pub repr_value : Value → String
  unfolding str_value
  repr_value (text s) = py.repr_text s
  repr_value (int n) = str_int n
  repr_value (boolean b) = str_value (boolean b)
  repr_value v = py.repr_other v

  -- `str` of a tuple of texts
  unfoldable pub listed : List String → String
  listed [] = ""
  listed (s ∷ []) = py.repr_text s
  listed (s ∷ t ∷ rest) = py.repr_text s <> (", " <> listed (t ∷ rest))

  unfoldable pub str_tuple : List String → String
  unfolding listed
  str_tuple (s ∷ []) = "(" <> (py.repr_text s <> ",)")
  str_tuple l = "(" <> (listed l <> ")")

  -- `repr(exc)`
  unfoldable pub repr_error : Error → String
  repr_error (key_error k) = "KeyError(" <> (py.repr_text k <> ")")
  repr_error (ledger_error s) = "LedgerError(" <> (py.repr_text s <> ")")
  repr_error e = py.repr_raised e

  -- `str(exc)`
  unfoldable pub str_error : Error → String
  unfolding repr_error str_value str_tuple
  str_error (job_error s) = s
  str_error (manifest_error s) = s
  str_error (ledger_error s) = s
  str_error (malformed_envelope e) = "malformed envelope: " <> repr_error e
  str_error bad_type_or_sender = "malformed envelope: bad type/sender"
  str_error sender_mismatch = "sender id does not match public key hash"
  str_error bad_signature = "bad signature"
  str_error (send_failed s) = "send failed: " <> s
  str_error (connection_error s) = "connection error: " <> s
  str_error (cannot_connect host port s) =
      "cannot connect to " <> (host <> (":" <> (str_value port <> (": " <> s))))
  str_error timed_out = "timed out waiting for message"
  str_error closed_by_remote = "connection closed by remote peer"
  str_error sender_changed = "sender id changed mid-connection"
  str_error (unverifiable e) = "rejected unverifiable message: " <> str_error e
  str_error (unexpected_type expected got) =
      "expected " <> (str_tuple expected <> (", got " <> str_value got))
  str_error (wrong_peer host port id expected) =
      "peer at "
      <> (host
          <> (":"
              <> (str_value port
                  <> (" identified as "
                      <> (take_text 8 id <> (", expected " <> take_text 8 expected))))))
  str_error wrong_job = "TASK_RESULT is for a different job"
  str_error e = py.str_raised e
