-- ===== src/Peer/Control.antt =====
-- `Peer._handle_control`: the commands of the local user, over a connection.
pub mod Lawful
use agent_torrent.Prelude.{
  ℕ, String, Bool, true, false, ◌&&◌, ◌||◌, not, List, [], ◌∷◌, ◌<>◌, if◌then◌else◌, text_eq,
}
use agent_torrent.Py.{
  Value, Items, object, array, text, int, nil, cons, field, end, Error, Result, ok, err, index, get,
  get?, is_text_eq, key_error, ledger_error, PyTexts, repr_value, repr_error,
}
use agent_torrent.Py.Exec.{Exec, pure, raise, lift, ◌>>=◌, ◌>>◌, continue}
use agent_torrent.Job.{new_job}
use agent_torrent.Ledger.{Ledger, balance, can_offer}
use agent_torrent.Ledger.Records.{records}
use agent_torrent.Identity.{Crypto, Identity}
use agent_torrent.Protocol.{Connection, Dial, send, control_result}
use agent_torrent.Discovery.{PeerInfo, Discovery, to_dict, peers}
use agent_torrent.Peer.Delegate.{Draws, Outcome, delegate}
use agent_torrent.Peer.Delegate.Report.{outcome_dict}

-- What a connection to the peer can change.
pub record Served : Type 0 where
  pub ledger : Ledger
  pub discovery : Discovery
  pub conn : Connection

-- A method of the connection.
unfoldable pub reply_with : {A : Type 0} → Exec Connection A → Exec Served A
reply_with m s = ((m s.conn).0, record s { conn = (m s.conn).1 })

-- What one connection draws from the system: the address's host, the time at which the peer table is
-- read, the values of a delegation, and what a dial to a peer meets.
pub record Turn : Type 0 where
  pub host : String
  pub now : ℕ
  pub draws : Draws
  pub dial : PeerInfo → Dial

unfoldable pub is_loopback : String → Bool
is_loopback host = text_eq host "127.0.0.1" || text_eq host "::1"

unfoldable pub is_ok : {A : Type 0} → Result A → Bool
is_ok (ok a) = true
is_ok (err e) = false

unfoldable pub peer_dicts : List PeerInfo → Items
unfolding to_dict
peer_dicts [] = nil
peer_dicts (p ∷ rest) = cons (to_dict p) (peer_dicts rest)

-- `{"status": "error", "error": error}`
unfoldable pub refusal : String → Value
refusal error = object (field "status" (text "error") (field "error" (text error) end))

module _ (c : Crypto) (self : Identity) (py : PyTexts) (turn : Turn) where
  -- The branch of "peers".
  unfoldable pub show_peers : Exec Served Value
  unfolding peer_dicts
  show_peers s = (
    ok (array (peer_dicts (peers turn.now s.discovery).0)),
    record s { discovery = (peers turn.now s.discovery).1 },
  )

  unfoldable pub show_ledger : Exec Served Value
  show_ledger s = (
    ok (
        object (
          field "balance" (int (balance "self" s.ledger))
            (field "records" (records s.ledger) end))),
    s,
  )

  -- `self.delegate(...)`, which reads the peer table once it has a credit and a valid job.
  unfoldable pub run_delegate : Value → Value → Value → Value → Value → Exec Served Outcome
  unfolding is_ok
  run_delegate task_text required_harness max_tokens max_runtime expected_output s =
      let job =
        new_job turn.draws.job_id task_text required_harness max_tokens max_runtime
          expected_output in
      let listed = peers turn.now s.discovery in
      let out =
        delegate c self turn.draws turn.dial listed.0 task_text required_harness max_tokens
          max_runtime expected_output s.ledger in
      let discovery = if can_offer s.ledger && is_ok job then listed.1 else s.discovery in
      (out.0, record s { ledger = out.1; discovery = discovery })

  unfoldable pub delegate_args : Value → Exec Served Value
  unfolding run_delegate
  delegate_args args = do
    task_text ← lift (index "task_text" args)
    required_harness ← lift (index "required_harness" args)
    max_tokens ← lift (index "max_tokens" args)
    max_runtime ← lift (index "max_runtime_seconds" args)
    expected_output ← lift (index "expected_output" args)
    outcome ← run_delegate task_text required_harness max_tokens max_runtime expected_output
    pure (outcome_dict py outcome)

  unfoldable pub deny : String → Exec Served (Unit {0})
  unfolding reply_with refusal
  deny error = reply_with (send c self control_result (refusal error))

  -- What the `except (KeyError, LedgerError)` makes of the `try`, and the answer.
  unfoldable pub answer : Result Value → Exec Served (Unit {0})
  unfolding deny reply_with
  answer (ok value) =
      reply_with
        (send c self control_result (object (field "status" (text "ok") (field "data" value end))))
  answer (err (key_error k)) = deny (repr_error py (key_error k))
  answer (err (ledger_error e)) = deny (repr_error py (ledger_error e))
  answer (err e) = raise e

  -- The `try` ends with its result, and what it has changed stays.
  unfoldable pub answer_after : Exec Served Value → Exec Served (Unit {0})
  unfolding answer
  answer_after m s = answer (m s).0 (m s).1

  unfoldable pub run_command : Value → Value → Exec Served (Unit {0})
  unfolding answer_after show_peers show_ledger delegate_args deny
  run_command command args =
      if is_text_eq "peers" command
      then answer_after show_peers
      else (if is_text_eq "ledger" command
          then answer_after show_ledger
          else (if is_text_eq "delegate" command
              then answer_after (delegate_args args)
              else deny ("unknown command " <> repr_value py command)))

  unfoldable pub handle_control : String → Value → Exec Served (Unit {0})
  unfolding deny run_command is_loopback
  handle_control sender payload =
      if not (text_eq sender self.peer_id) || not (is_loopback turn.host)
      then deny "control denied"
      else (do
        body ← lift (get "body" (object end) payload)
        command ← lift (get? "command" body)
        args ← lift (get "args" (object end) body)
        run_command command args)
