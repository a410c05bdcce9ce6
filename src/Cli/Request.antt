-- ===== src/Cli/Request.antt =====
-- `_control_request`: one command to the running peer, over a connection of its own.
use agent_torrent.Prelude.{String, [], ◌∷◌, if◌then◌else◌, Option, none, some}
use agent_torrent.Py.{
  Value, object, text, field, end, Error, Result, ok, err, index, get?, is_text_eq, cannot_connect,
}
use agent_torrent.Py.Exec.{Exec, pure, lift, ◌>>=◌, ◌>>◌}
use agent_torrent.Identity.{Crypto, Identity}
use agent_torrent.Protocol.{
  Connection, Dial, refused, connected, send, recv, handshake_outbound, control, control_result,
}

-- The data of the answer, an exit with a text (`SystemExit`), or another exception.
pub data Reply : Type 0 where
  granted : Value → Reply
  denied : Value → Reply
  not_running : Reply
  escaped : Error → Reply

abbrev pub command_body : String → Value → Value
command_body command args = object (field "command" (text command) (field "args" args end))

-- The body of the answer.
unfoldable pub read_answer : Value → Exec Connection Reply
read_answer payload = do
  body ← lift (index "body" payload)
  status ← lift (get? "status" body)
  if is_text_eq "ok" status
      then (do data_value ← lift (index "data" body); pure (granted data_value))
      else (do error ← lift (get? "error" body); pure (denied error))

unfoldable pub as_reply : Result Reply → Reply
as_reply (ok reply) = reply
as_reply (err e) = escaped e

module _ (c : Crypto) (self : Identity) where
  -- From the end of `connect` on.
  unfoldable pub ask : String → Value → Exec Connection Reply
  unfolding read_answer
  ask command args = do
    handshake_outbound c self
    send c self control (command_body command args)
    (_, payload) ← recv c self (control_result ∷ [])
    read_answer payload

  unfoldable pub ask_at : Dial → Value → String → Value → Reply
  unfolding ask as_reply
  ask_at (refused e) port command args = escaped (cannot_connect "127.0.0.1" port e)
  ask_at (connected conn) port command args = as_reply (ask command args conn).0

-- `runtime` is what the file of the running peer holds, if it exists, and `dial` is what a connection
-- to a port of this machine meets.
unfoldable pub control_request :
    Crypto → Option Value → Result Identity → (Value → Dial) → String → Value → Reply
unfolding ask_at
control_request c none identity dial command args = not_running
control_request c (some runtime) (err e) dial command args = escaped e
control_request c (some runtime) (ok self) dial command args = elim (index "tcp_port" runtime) [
  | err e ↦ escaped e
  | ok port ↦ ask_at c self (dial port) port command args
]
