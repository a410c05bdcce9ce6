-- ===== src/Cli/Wire.antt =====
-- What a command of the local user brings back over the wire.
use mathlib.Core.Path.{subst}
use agent_torrent.Prelude.{
  ℕ, String, ◌≡◌, refl, sym, ap, ◌∙◌, Bool, true, false, [], ◌∷◌, if◌then◌else◌, some,
}
use agent_torrent.Py.{
  Value, object, array, text, int, Fields, field, end, Result, ok, index, get, truthy, lookup,
  PyTexts,
}
use agent_torrent.Py.Exec.{Exec, continue}
use agent_torrent.Ledger.{Ledger, Stamp, balance}
use agent_torrent.Ledger.Records.{records}
use agent_torrent.Identity.{Bytes, Crypto, identity}
use agent_torrent.Identity.Envelope.{CryptoLaws}
use agent_torrent.Discovery.{Discovery, peers}
use agent_torrent.Executor.{System}
use agent_torrent.Peer.Worker.{Config}
use agent_torrent.Peer.Delegate.{Outcome, failed, rejected, unpaid, completed, delegate}
use agent_torrent.Peer.Delegate.Report.{outcome_dict, refunded}
use agent_torrent.Peer.Control.{
  Served, Turn, is_loopback, peer_dicts, show_peers, show_ledger, run_delegate, delegate_args,
  answer_after, run_command,
}
use agent_torrent.Peer.Serve.{serve_connection}
use agent_torrent.Peer.Node.{runtime_dict}
use agent_torrent.Protocol.{connected}
use agent_torrent.Cli.Request.{Reply, granted, ask, ask_at, as_reply, control_request}
use agent_torrent.Cli.{
  delegate_fields, cmd_delegate, on_control_reply, exit_code, print_result, print_completed,
  print_failed, cut,
}
use agent_torrent.Protocol.Handshake.{clean, greeting}
use agent_torrent.Cli.Talk.{request, shaken, ask-granted, serve_connection-granted}

abbrev pub is_completed : Outcome → Bool
is_completed (completed job_id worker harness simulated runtime output) = true
is_completed _ = false

module _ (py : PyTexts) (data_dir : String) where
  cmd_delegate-exit :
      (as_json : Bool) (outcome : Outcome)
      → (cmd_delegate py data_dir as_json (granted (outcome_dict py outcome))).0
        ≡ ok (if is_completed outcome then 0 else 2)
  unfolding cmd_delegate on_control_reply exit_code print_result print_completed print_failed cut
      truthy outcome_dict refunded index get lookup continue
  cmd_delegate-exit true (failed f) = refl
  cmd_delegate-exit true (rejected job_id worker reason) = refl
  cmd_delegate-exit true (unpaid job_id worker f) = refl
  cmd_delegate-exit true (completed job_id worker harness simulated runtime output) = refl
  cmd_delegate-exit false (failed f) = refl
  cmd_delegate-exit false (rejected job_id worker reason) = refl
  cmd_delegate-exit false (unpaid job_id worker f) = refl
  cmd_delegate-exit false (completed job_id worker harness simulated runtime output) = refl

-- A command line and the peer of the same key and machine, over a connection that no error befalls.
module _ (c : Crypto) (laws : CryptoLaws c) (seed : Bytes) (clock own_clock : ℕ → ℕ) (py : PyTexts)
    (sys : System) (config : Config) (turn : Turn) (work_stamp : Stamp) where
  -- The peer, on the two lines that the command line sends.
  abbrev pub served : Ledger → Discovery → String → Fields → Result (Unit {0}) × Served
  served l d command args =
      serve_connection c (identity c seed) py sys config turn work_stamp (record {
        ledger = l;
        discovery = d;
        conn = clean clock (greeting c seed own_clock ∷ request c seed own_clock command args ∷ []);
      })

  -- The command line, on the lines that the peer has sent.
  abbrev pub asked : Ledger → Discovery → String → Fields → Result Reply
  asked l d command args =
      (ask c (identity c seed) command (object args)
        (clean own_clock (served l d command args).1.conn.outbox)).0

  -- What `_control_request` returns for the running peer, whose file names its port.
  abbrev pub reply_to : Ledger → Discovery → ℕ → ℕ → String → Fields → Reply
  reply_to l d port pid command args =
      control_request c (some (runtime_dict (identity c seed).peer_id port pid))
        (ok (identity c seed))
        (λ _. connected (clean own_clock (served l d command args).1.conn.outbox)) command
        (object args)

  module _ (near : is_loopback turn.host ≡ true) where
    asked-granted :
        (l l' : Ledger) (d d' : Discovery) (command : String) (args : Fields)
        (m : Exec Served Value) (data_value : Value)
        → run_command c (identity c seed) py turn (text command) (object args)
          ≡ answer_after c (identity c seed) py turn m
        → m (record { ledger = l; discovery = d; conn = shaken c seed clock [] })
          ≡ (ok data_value, record { ledger = l'; discovery = d'; conn = shaken c seed clock [] })
        → (asked l d command args ≡ ok (granted data_value))
          × ((served l d command args).1.ledger ≡ l')
    asked-granted l l' d d' command args m data_value is_run done =
        let brought = λ (out : Result (Unit {0}) × Served).
          ((ask c (identity c seed) command (object args) (clean own_clock (out.1).conn.outbox)).0
            ≡ ok (granted data_value))
          × ((out.1).ledger ≡ l') in
        subst brought
          (sym (
            serve_connection-granted c laws seed clock own_clock py sys config turn work_stamp near
              l l' d d' command args m data_value is_run done))
          ((ask-granted c laws seed own_clock clock command args data_value).0, refl)

    pub asked-ledger :
        (l : Ledger) (d : Discovery)
        → asked l d "ledger" end
          ≡ ok (
              granted (
                object
                  (field "balance" (int (balance "self" l)) (field "records" (records l) end))))
    unfolding run_command show_ledger
    asked-ledger l d =
        (asked-granted l l d d "ledger" end (show_ledger c (identity c seed) py turn) _ refl refl).0

    pub asked-peers :
        (l : Ledger) (d : Discovery)
        → asked l d "peers" end ≡ ok (granted (array (peer_dicts (peers turn.now d).0)))
    unfolding run_command show_peers
    asked-peers l d =
        (asked-granted l l d (peers turn.now d).1 "peers" end
          (show_peers c (identity c seed) py turn) _ refl refl).0

    asked-delegate :
        (l l' : Ledger) (d : Discovery) (task required max_tokens max_runtime expected : Value)
        (outcome : Outcome)
        → delegate c
            (identity c seed)
            turn.draws
            turn.dial
            (peers turn.now d).0
            task
            required
            max_tokens
            max_runtime
            expected
            l
          ≡ (ok outcome, l')
        → let args = delegate_fields task required max_tokens max_runtime expected in
          (asked l d "delegate" args ≡ ok (granted (outcome_dict py outcome)))
          × ((served l d "delegate" args).1.ledger ≡ l')
    unfolding run_command delegate_args run_delegate index lookup continue
    asked-delegate l l' d task required max_tokens max_runtime expected outcome done =
        let at : Served = record { ledger = l; discovery = d; conn = shaken c seed clock [] } in
        let d' =
          ((run_delegate c (identity c seed) py turn task required max_tokens max_runtime expected
            at).1
          ).discovery in
        asked-granted l l' d d' "delegate"
          (delegate_fields task required max_tokens max_runtime expected)
          (delegate_args c (identity c seed) py turn
            (object (delegate_fields task required max_tokens max_runtime expected)))
          (outcome_dict py outcome) refl (rw done refl)

    pub reply_to-asked :
        (l : Ledger) (d : Discovery) (port pid : ℕ) (command : String) (args : Fields)
        → reply_to l d port pid command args ≡ as_reply (asked l d command args)
    unfolding control_request ask_at runtime_dict index lookup
    reply_to-asked l d port pid command args = refl

    -- Let the command line and the running peer share their key, on a loopback address and a
    -- connection that no error befalls. If `delegate` returns an outcome, then `_control_request`
    -- returns its dictionary, read from the lines that the peer has sent in answer to the command
    -- line's, the exit code of `cmd_delegate` is 0 if the outcome is a completed job and 2 if it is
    -- another, and the peer's ledger is the one that `delegate` leaves.
    pub mesh_delegate :
        (l l' : Ledger) (d : Discovery) (port pid : ℕ) (data_dir : String) (as_json : Bool)
        (task required max_tokens max_runtime expected : Value) (outcome : Outcome)
        → delegate c
            (identity c seed)
            turn.draws
            turn.dial
            (peers turn.now d).0
            task
            required
            max_tokens
            max_runtime
            expected
            l
          ≡ (ok outcome, l')
        → let args = delegate_fields task required max_tokens max_runtime expected in
          let reply = reply_to l d port pid "delegate" args in
          (reply ≡ granted (outcome_dict py outcome))
          × ((cmd_delegate py data_dir as_json reply).0
              ≡ ok (if is_completed outcome then 0 else 2))
          × ((served l d "delegate" args).1.ledger ≡ l')
    unfolding as_reply
    mesh_delegate l l' d port pid data_dir as_json task required max_tokens max_runtime expected
          outcome done =
        let args = delegate_fields task required max_tokens max_runtime expected in
        let (answered, kept) =
          asked-delegate l l' d task required max_tokens max_runtime expected outcome done in
        let is_granted : reply_to l d port pid "delegate" args ≡ granted (outcome_dict py outcome) =
          reply_to-asked l d port pid "delegate" args ∙ ap as_reply answered in
        (
          is_granted,
          ap (λ r. (cmd_delegate py data_dir as_json r).0) is_granted
              ∙ cmd_delegate-exit py data_dir as_json outcome,
          kept,
        )
