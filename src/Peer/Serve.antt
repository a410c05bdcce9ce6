-- ===== src/Peer/Serve.antt =====
-- `Peer._serve_connection`: one inbound connection, from the handshake to the end of its thread.
pub mod Course
pub mod Guard
pub mod Lawful
use agent_torrent.Prelude.{String, Bool, true, false, [], ◌∷◌, if◌then◌else◌}
use agent_torrent.Py.{Value, Error, Result, ok, err, index, is_text_eq, is_protocol_error, PyTexts}
use agent_torrent.Py.Exec.{Exec, pure, raise, lift, ◌>>=◌, ◌>>◌, continue}
use agent_torrent.Ledger.{Stamp}
use agent_torrent.Identity.{Crypto, Identity}
use agent_torrent.Protocol.{recv, handshake_inbound, task_offer, control}
use agent_torrent.Executor.{System}
use agent_torrent.Peer.Delegate.{Session}
use agent_torrent.Peer.Worker.{Config, handle_task_offer}
use agent_torrent.Peer.Control.{Served, Turn, reply_with, handle_control}

-- The worker's handler, which has no use for the peer table.
unfoldable pub on_session : {A : Type 0} → Exec Session A → Exec Served A
on_session m s =
    let out = m (record { ledger = s.ledger; conn = s.conn }) in
    (out.0, record s { ledger = (out.1).ledger; conn = (out.1).conn })

-- `except ProtocolError`
unfoldable pub caught : Result (Unit {0}) → Result (Unit {0})
caught (ok _) = ok tt
caught (err e) = if is_protocol_error e then ok tt else err e

module _ (c : Crypto) (self : Identity) (py : PyTexts) (sys : System) (config : Config)
    (turn : Turn) (work_stamp : Stamp) where
  unfoldable pub dispatch : String → Value → Exec Served (Unit {0})
  unfolding on_session
  dispatch remote payload = do
    type ← lift (index "type" payload)
    if is_text_eq control type
        then handle_control c self py turn remote payload
        else on_session (handle_task_offer c self sys config work_stamp remote payload)

  -- The body of the `try`.
  unfoldable pub converse : Exec Served (Unit {0})
  unfolding dispatch reply_with
  converse = do
    remote ← reply_with (handshake_inbound c self)
    (_, payload) ← reply_with (recv c self (task_offer ∷ control ∷ []))
    dispatch remote payload

  unfoldable pub serve_connection : Exec Served (Unit {0})
  unfolding converse caught
  serve_connection s = (caught (converse s).0, (converse s).1)
