-- ===== src/Protocol.antt =====
-- agenttorrent/protocol.py: signed messages, one JSON line each, over a connection. The socket is
-- the connection's two scripts: what each `readline` meets and what each `sendall` meets. The log
-- lines are left out, but not the call of `_summarize`, which can raise.
pub mod Verify
pub mod Receive
pub mod Roundtrip
pub mod Handshake
mod Tests
use agent_torrent.Prelude.{
  ℕ, suc, String, Bool, true, false, List, [], ◌∷◌, ◌++◌, if◌then◌else◌, Option, none, some,
  text_eq, length,
}
use agent_torrent.Py.{
  Value, object, Fields, end, Error, Result, ok, err, index, get, attribute_error, value_error,
  is_one_of, send_failed, connection_error, timed_out, closed_by_remote, unverifiable,
  sender_changed, unexpected_type, is_envelope_error, cannot_connect,
}
use agent_torrent.Py.Exec.{Exec, pure, raise, lift, gets, modify, ◌>>=◌, ◌>>◌}
use agent_torrent.Protocol.Verify.{Read, eof, summarize, receive}
use agent_torrent.Identity.{Crypto, Identity, seal, open_envelope}

abbrev pub handshake : String
handshake = "HANDSHAKE"

abbrev pub task_offer : String
task_offer = "TASK_OFFER"

abbrev pub task_accept : String
task_accept = "TASK_ACCEPT"

abbrev pub task_reject : String
task_reject = "TASK_REJECT"

abbrev pub task_result : String
task_result = "TASK_RESULT"

abbrev pub control : String
control = "CONTROL"

abbrev pub control_result : String
control_result = "CONTROL_RESULT"

-- `sends` holds the text of the system's error for each `sendall` that fails; `clock n` is the time
-- at which the message number n is sealed.
pub record Connection : Type 0 where
  pub remote_peer_id : Option String
  pub inbox : List Read
  pub sends : List (Option String)
  pub clock : ℕ → ℕ
  pub outbox : List Value

-- The next entry of a script; a script that has ended brings no error and no line.
unfoldable pub next_send : List (Option String) → Option String
next_send [] = none
next_send (s ∷ sends) = s

unfoldable pub next_read : List Read → Read
next_read [] = eof
next_read (r ∷ inbox) = r

abbrev pub tail {ℓ} : {A : Type ℓ} → List A → List A
tail [] = []
tail (x ∷ xs) = xs

-- `sendall` and the log line after it.
unfoldable pub deliver : Value → Value → Option String → Exec Connection (Unit {0})
unfolding summarize
deliver envelope body (some e) conn = (err (send_failed e), record conn { sends = tail conn.sends })
deliver envelope body none conn =
    (summarize body, record conn { sends = tail conn.sends; outbox = conn.outbox ++ envelope ∷ [] })

module _ (c : Crypto) (self : Identity) where
  unfoldable pub send : String → Value → Exec Connection (Unit {0})
  unfolding next_send deliver
  send msg_type body conn =
      let envelope = seal c self (conn.clock (length conn.outbox)) msg_type body in
      deliver envelope body (next_send conn.sends) conn

  -- `recv`; every caller names the types that it expects.
  unfoldable pub recv : List String → Exec Connection (String × Value)
  unfolding next_read
  recv expected conn = (
    receive c expected conn.remote_peer_id (next_read conn.inbox),
    record conn { inbox = tail conn.inbox },
  )

  unfoldable pub set_remote : String → Exec Connection (Unit {0})
  set_remote sender conn = (ok tt, record conn { remote_peer_id = some sender })

  unfoldable pub handshake_outbound : Exec Connection String
  handshake_outbound = do
    send handshake (object end)
    (sender, _) ← recv (handshake ∷ [])
    set_remote sender
    pure sender

  unfoldable pub handshake_inbound : Exec Connection String
  handshake_inbound = do
    (sender, _) ← recv (handshake ∷ [])
    set_remote sender
    send handshake (object end)
    pure sender

-- What `socket.create_connection` meets: an error of the system, or a fresh connection.
pub data Dial : Type 0 where
  refused : String → Dial
  connected : Connection → Dial
