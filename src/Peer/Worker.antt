-- ===== src/Peer/Worker.antt =====
-- `Peer._handle_task_offer`: the worker. The other end of the connection is a script, as for the
-- requester.
pub mod Answers
pub mod Earns
mod Tests
use agent_torrent.Prelude.{
  ℕ, String, Bool, true, false, not, ◌&&◌, ◌||◌, List, [], ◌∷◌, ◌<>◌, if◌then◌else◌, Option, none,
  some, text_eq, ltb, ℤ, pos, str_int,
}
use agent_torrent.Py.{
  Value, object, text, int, Fields, field, end, lookup, lookup_or_null, is_some, is_text_eq, Error,
  Result, ok, err, index, get, get?, type_error, job_error, ledger_error,
}
use agent_torrent.Py.Exec.{Exec, pure, raise, lift, ◌>>=◌, ◌>>◌, continue}
use agent_torrent.Job.{validate_job}
use agent_torrent.Ledger.{Ledger, Stamp, credit_for_work}
use agent_torrent.Identity.{Crypto, Identity}
use agent_torrent.Protocol.{Connection, send, task_accept, task_reject, task_result}
use agent_torrent.Executor.{System, field_text, execute_job}
use agent_torrent.Peer.Delegate.{Session, talk}

-- What the worker's operator has configured, and the harnesses that it has.
pub record Config : Type 0 where
  pub harnesses : Fields
  pub accepts_tasks : Bool
  pub force_simulate : Bool
  pub max_runtime_seconds : ℕ
  pub env_passthrough : List String

-- The answer to an offer: the body of a TASK_REJECT, or the job to run.
pub data Answer : Type 0 where
  reject : Value → Answer
  accept : Fields → Answer

unfoldable pub reason : String → Fields
reason s = field "reason" (text s) end

-- `job["max_runtime_seconds"] > limit`, for the integer of a validated job
unfoldable pub exceeds : Value → ℕ → Bool
exceeds (int (pos n)) limit = ltb limit n
exceeds _ limit = false

-- The checks on a job that is valid, in their order.
unfoldable pub answer_valid : Config → Fields → Answer
unfolding reason exceeds
answer_valid config job =
    let with_id =
      λ (s : String). object (field "job_id" (lookup_or_null "job_id" job) (reason s)) in
    let required = field_text "required_harness" job in
    let too_long = exceeds (lookup_or_null "max_runtime_seconds" job) config.max_runtime_seconds in
    if not config.accepts_tasks
    then reject (with_id "peer is not accepting tasks")
    else (if not (text_eq required "any")
          && (not (is_some (lookup required config.harnesses)) && not config.force_simulate)
        then reject (with_id ("harness '" <> (required <> "' not available on this peer")))
        else (if too_long
            then reject (
                with_id (
                  "job runtime "
                  <> (field_text "max_runtime_seconds" job
                      <> ("s exceeds this peer's limit of "
                          <> (str_int (pos config.max_runtime_seconds) <> "s")))))
            else accept job))

-- `except JobError`, then the checks, which index the job.
unfoldable pub answer_job : Config → Value → Result Value → Result Answer
unfolding answer_valid reason
answer_job config (object job) (ok v) = ok (answer_valid config job)
answer_job config job (err (job_error e)) =
    ok (reject (object (reason ("invalid job manifest: " <> e))))
answer_job config job (err e) = err e
answer_job config job (ok v) = err type_error

unfoldable pub answer_offer : Config → String → String → Value → Result Answer
unfolding answer_job
answer_offer config own_id requester job =
    if text_eq requester own_id
    then ok (reject (object (reason "cannot delegate to self")))
    else answer_job config job (validate_job job)

-- `except LedgerError`
unfoldable pub quiet : Result (Unit {0}) → Result (Unit {0})
quiet (err (ledger_error e)) = ok tt
quiet r = r

unfoldable pub earn : String → String → Stamp → Exec Session (Unit {0})
unfolding quiet
earn job_id requester stamp s =
    let out = credit_for_work job_id requester stamp s.ledger in
    (quiet out.0, record s { ledger = out.1 })

module _ (c : Crypto) (self : Identity) (sys : System) (config : Config) (stamp : Stamp)
    (requester : String) where
  -- What follows the result: the credit for a job that went well.
  unfoldable pub finish : Fields → Value → Exec Session (Unit {0})
  unfolding earn
  finish job result = do
    status ← lift (index "status" result)
    if is_text_eq "ok" status then earn (field_text "job_id" job) requester stamp else pure tt

  unfoldable pub respond : Answer → Exec Session (Unit {0})
  unfolding finish
  respond (reject body) = talk (send c self task_reject body)
  respond (accept job) = do
    talk (send c self task_accept (object (field "job_id" (lookup_or_null "job_id" job) end)))
    result ←
        lift (execute_job sys config.harnesses config.force_simulate config.env_passthrough job)
    talk (
        send c self task_result
          (object (field "job_id" (lookup_or_null "job_id" job) (field "result" result end))))
    finish job result

  unfoldable pub handle_task_offer : Value → Exec Session (Unit {0})
  unfolding answer_offer respond
  handle_task_offer payload = do
    body ← lift (get "body" (object end) payload)
    job ← lift (get? "job" body)
    answer ← lift (answer_offer config self.peer_id requester job)
    respond answer
