-- ===== src/Peer/Delegate/Report.antt =====
-- The dictionaries that `delegate` returns.
use agent_torrent.Prelude.{String, true, ◌<>◌, take_text}
use agent_torrent.Py.{
  Value, object, text, boolean, field, end, Fields, PyTexts, str_value, repr_value, str_error,
}
use agent_torrent.Peer.Delegate.{
  Failure, zero_balance, invalid_job, no_candidate, worker_failure, protocol_failure, Outcome,
  failed, rejected, unpaid, completed,
}

module _ (py : PyTexts) where
  unfoldable pub failure_text : Failure → String
  failure_text zero_balance = "ledger balance is zero: refusing to send TASK_OFFER"
  failure_text (invalid_job e) = "invalid job: " <> e
  failure_text (no_candidate required) =
      "no peer in the swarm accepts tasks with harness " <> repr_value py required
  failure_text (worker_failure output) =
      "worker reported failure: " <> take_text 500 (str_value py output)
  failure_text (protocol_failure e) = str_error py e

  -- The end of a dictionary of a job whose credit is back.
  unfoldable pub refunded : String → String → Value → Fields
  refunded job_id worker error =
      field "job_id" (text job_id)
        (field "worker" (text worker) (field "error" error (field "refunded" (boolean true) end)))

  unfoldable pub outcome_dict : Outcome → Value
  unfolding failure_text refunded
  outcome_dict (failed f) =
      object (field "status" (text "failed") (field "error" (text (failure_text f)) end))
  outcome_dict (rejected job_id worker reason) =
      object (field "status" (text "rejected") (refunded job_id worker reason))
  outcome_dict (unpaid job_id worker f) =
      object (field "status" (text "failed") (refunded job_id worker (text (failure_text f))))
  outcome_dict (completed job_id worker harness simulated runtime output) = object (
      field "status" (text "ok") (
        field "job_id" (text job_id) (
          field "worker" (text worker) (
            field "harness" harness (
              field "simulated" simulated
                (field "runtime_seconds" runtime (field "output" output end)))))))
