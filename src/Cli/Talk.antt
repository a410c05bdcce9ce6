-- ===== src/Cli/Talk.antt =====
-- The command line and the peer that it asks, one end of a connection each.
use agent_torrent.Prelude.{ℕ, String, ◌≡◌, inr, refl, true, List, [], ◌∷◌, some, eq_refl}
use agent_torrent.Py.{
  Value, object, text, Fields, field, end, ok, index, get, lookup, is_one_of, PyTexts,
}
use agent_torrent.Py.Exec.{Exec, continue}
use agent_torrent.Ledger.{Ledger, Stamp}
use agent_torrent.Identity.{Bytes, Crypto, Identity, identity, seal, payload_of}
use agent_torrent.Identity.Envelope.{CryptoLaws}
use agent_torrent.Protocol.Verify.{summarize}
use agent_torrent.Protocol.{
  Connection, next_read, next_send, deliver, send, recv, control, control_result, task_offer,
}
use agent_torrent.Protocol.Handshake.{
  clean, talking, greeting, handshake_inbound-greeting, handshake_outbound-greeting,
}
use agent_torrent.Protocol.Roundtrip.{receive-seal}
use agent_torrent.Discovery.{Discovery}
use agent_torrent.Executor.{System}
use agent_torrent.Peer.Worker.{Config}
use agent_torrent.Peer.Control.{
  Served, Turn, reply_with, is_loopback, answer, answer_after, run_command, handle_control,
}
use agent_torrent.Peer.Serve.{dispatch, converse, serve_connection, caught}
use agent_torrent.Cli.Request.{granted, command_body, ask, read_answer}

module _ (c : Crypto) (seed : Bytes) (clock : ℕ → ℕ) where
  abbrev self : Identity
  self = identity c seed

  -- The messages of the two ends.
  abbrev pub request : String → Fields → Value
  request command args = seal c self (clock 1) control (command_body command (object args))

  abbrev pub granted_line : Value → Value
  granted_line data_value =
      seal c self (clock 1) control_result
        (object (field "status" (text "ok") (field "data" data_value end)))

  -- The connection once its two ends have shaken hands.
  abbrev pub shaken : List Value → Connection
  shaken lines = talking self.peer_id clock lines (greeting c seed clock ∷ [])

module _ (c : Crypto) (laws : CryptoLaws c) (seed : Bytes) (clock other_clock : ℕ → ℕ) where
  -- What the command line makes of the answer.
  pub ask-granted :
      (command : String) (args : Fields) (data_value : Value)
      → let out = ask c (identity c seed) command (object args) (
          clean clock
            (greeting c seed other_clock ∷ granted_line c seed other_clock data_value ∷ [])) in
        (out.0 ≡ ok (granted data_value))
        × ((out.1).outbox ≡ greeting c seed clock ∷ request c seed clock command args ∷ [])
  unfolding ask recv next_read send next_send deliver summarize is_one_of continue read_answer
      payload_of index get lookup
  ask-granted command args data_value =
      rw
        (
          handshake_outbound-greeting c laws seed seed clock other_clock
              (granted_line c seed other_clock data_value ∷ []),
          receive-seal c laws seed (control_result ∷ []) (some (identity c seed).peer_id)
              (other_clock 1) control_result
              (field "status" (text "ok") (field "data" data_value end)) refl (inr refl),
        )
        (refl, refl)

  module _ (py : PyTexts) (sys : System) (config : Config) (turn : Turn) (work_stamp : Stamp)
      (near : is_loopback turn.host ≡ true) where
    -- The peer runs the command on the ledger and the peer table, and its answer is granted.
    pub serve_connection-granted :
        (l l' : Ledger) (d d' : Discovery) (command : String) (args : Fields)
        (m : Exec Served Value) (data_value : Value)
        → run_command c (identity c seed) py turn (text command) (object args)
          ≡ answer_after c (identity c seed) py turn m
        → m (record { ledger = l; discovery = d; conn = shaken c seed clock [] })
          ≡ (ok data_value, record { ledger = l'; discovery = d'; conn = shaken c seed clock [] })
        → (serve_connection c (identity c seed) py sys config turn work_stamp (record {
          ledger = l;
          discovery = d;
          conn =
              clean clock
                (greeting c seed other_clock ∷ request c seed other_clock command args ∷ []);
        }))
          ≡ (
            ok tt,
            record {
              ledger = l';
              discovery = d';
              conn = record (shaken c seed clock []) {
                outbox = greeting c seed clock ∷ granted_line c seed clock data_value ∷ [];
              };
            },
          )
    unfolding serve_connection converse dispatch reply_with recv next_read continue caught index get
        lookup payload_of handle_control is_one_of answer_after answer send next_send deliver
        summarize
    serve_connection-granted l l' d d' command args m data_value is_run done =
        rw
          (
            handshake_inbound-greeting c laws seed seed clock other_clock
                (request c seed other_clock command args ∷ []),
            receive-seal c laws seed (task_offer ∷ control ∷ []) (some (identity c seed).peer_id)
                (other_clock 1) control
                (field "command" (text command) (field "args" (object args) end)) refl (inr refl),
            eq_refl (identity c seed).peer_id,
            near,
            is_run,
            done,
          )
          refl
