-- ===== src/Peer/Delegate.antt =====
-- `Peer.delegate`: the requester. The remote peer is the script of the connection; the values that
-- the call draws from the system (a job id, the stamps of ledger records) are arguments.
pub mod Candidates
pub mod Ends
pub mod Outcomes
pub mod Closing
pub mod Accounts
pub mod Report
pub mod Runs
mod Tests
use agent_torrent.Prelude.{
  ℕ, String, Bool, true, false, List, [], ◌∷◌, if◌then◌else◌, Option, none, some, text_eq, ltb,
}
use agent_torrent.Py.{
  Value, object, text, boolean, null, Fields, field, end, lookup, is_some, is_text_eq, truthy,
  Error, Result, ok, err, index, get, get?, type_error, job_error, wrong_peer, wrong_job,
  cannot_connect, is_protocol_error,
}
use agent_torrent.Py.Exec.{Exec, pure, raise, lift, ◌>>=◌, ◌>>◌, continue}
use agent_torrent.Job.{new_job}
use agent_torrent.Ledger.{Ledger, Stamp, Method, can_offer, escrow, settle, refund}
use agent_torrent.Identity.{Crypto, Identity}
use agent_torrent.Protocol.{
  Connection, Dial, refused, connected, send, recv, handshake_outbound, task_offer, task_accept,
  task_reject, task_result,
}
use agent_torrent.Discovery.{PeerInfo}
use agent_torrent.Peer.Delegate.Candidates.{candidates, latest}

-- The reasons that the returned dictionaries give in their `error`.
pub data Failure : Type 0 where
  zero_balance : Failure
  invalid_job : String → Failure
  no_candidate : Value → Failure
  worker_failure : Value → Failure
  protocol_failure : Error → Failure

-- The returned dictionaries: `failed` before the escrow; `rejected` and `unpaid` with the job id, the
-- worker and "refunded"; `completed` with the result's harness, simulated, runtime and output.
pub data Outcome : Type 0 where
  failed : Failure → Outcome
  rejected : String → String → Value → Outcome
  unpaid : String → String → Failure → Outcome
  completed : String → String → Value → Value → Value → Value → Outcome

-- What the attempt changes.
pub record Session : Type 0 where
  pub ledger : Ledger
  pub conn : Connection

-- A method of the connection, and one of the ledger.
unfoldable pub talk : {A : Type 0} → Exec Connection A → Exec Session A
talk m s = ((m s.conn).0, record s { conn = (m s.conn).1 })

unfoldable pub post : Method → Exec Session (Unit {0})
post m s = ((m s.ledger).0, record s { ledger = (m s.ledger).1 })

-- The values that the call draws: `uuid.uuid4().hex`, and a stamp for each record.
pub record Draws : Type 0 where
  pub job_id : String
  pub escrow_stamp : Stamp
  pub closing_stamp : Stamp

unfoldable pub match_worker : PeerInfo → Option String → Result (Unit {0})
match_worker worker none = err (wrong_peer worker.host worker.tcp_port "?" worker.peer_id)
match_worker worker (some id) =
    if text_eq id worker.peer_id
    then ok tt
    else err (wrong_peer worker.host worker.tcp_port id worker.peer_id)

module _ (c : Crypto) (self : Identity) (draws : Draws) (worker : PeerInfo) where
  open draws use {job_id, closing_stamp}

  -- `if conn.remote_peer_id != worker.peer_id: raise`
  unfoldable pub check_worker : Exec Session (Unit {0})
  unfolding match_worker
  check_worker s = (match_worker worker s.conn.remote_peer_id, s)

  -- The branch of a TASK_REJECT.
  unfoldable pub on_reject : Value → Exec Session Outcome
  on_reject reply = do
    post (refund job_id closing_stamp)
    body ← lift (index "body" reply)
    reason ← lift (get "reason" (text "rejected without reason") body)
    pure (rejected job_id worker.peer_id reason)

  unfoldable pub on_failure : Value → Exec Session Outcome
  on_failure result = do
    post (refund job_id closing_stamp)
    output ← lift (get? "output" result)
    pure (unpaid job_id worker.peer_id (worker_failure output))

  unfoldable pub on_success : Value → Exec Session Outcome
  on_success result = do
    post (settle job_id worker.peer_id closing_stamp)
    harness ← lift (get? "harness" result)
    simulated ← lift (get "simulated" (boolean false) result)
    runtime ← lift (get? "runtime_seconds" result)
    output ← lift (get "output" (text "") result)
    pure (completed job_id worker.peer_id harness simulated runtime output)

  -- What the requester does with a TASK_RESULT.
  unfoldable pub on_result : Value → Exec Session Outcome
  on_result message = do
    body ← lift (index "body" message)
    result ← lift (get "result" (object end) body)
    id ← lift (get? "job_id" result)
    if is_text_eq job_id id
        then (do
          status ← lift (get? "status" result)
          if is_text_eq "ok" status then on_success result else on_failure result)
        else raise wrong_job

  -- The sum that the second `recv` takes as its timeout, and the `settimeout` of it, can raise an
  -- `OverflowError`: that is the read `too_long` of the connection.
  unfoldable pub on_reply : Value → Exec Session Outcome
  on_reply reply = do
    type ← lift (index "type" reply)
    if is_text_eq task_reject type
        then on_reject reply
        else (do (_, message) ← talk (recv c self (task_result ∷ [])); on_result message)

  -- The body of the `try`, from the end of `connect`.
  unfoldable pub exchange : Value → Exec Session Outcome
  exchange job = do
    check_worker
    talk (send c self task_offer (object (field "job" job end)))
    (_, reply) ← talk (recv c self (task_accept ∷ task_reject ∷ []))
    on_reply reply

  -- The body of the `try`; `connect` raises where the dial or the handshake fails.
  unfoldable pub attempt : Dial → Value → Ledger → Result Outcome × Ledger
  attempt (refused e) job ledger = (err (cannot_connect worker.host worker.tcp_port e), ledger)
  attempt (connected conn) job ledger =
      let ended =
        (talk (handshake_outbound c self) >>= λ _. exchange job)
          (record { ledger = ledger; conn = conn }) in
      (ended.0, (ended.1).ledger)

  -- The dictionary of a failure, after the refund.
  unfoldable pub report : Error → Result (Unit {0}) → Result Outcome
  report e (ok _) = ok (unpaid job_id worker.peer_id (protocol_failure e))
  report e (err e') = err e'

  -- `except ProtocolError`; any other exception goes on to the caller.
  unfoldable pub rescue : Result Outcome → Ledger → Result Outcome × Ledger
  unfolding report
  rescue (ok outcome) ledger = (ok outcome, ledger)
  rescue (err e) ledger =
      let repaid = refund job_id closing_stamp ledger in
      if is_protocol_error e then (report e repaid.0, repaid.1) else (err e, ledger)

  -- What follows the escrow, by its result.
  unfoldable pub after_escrow : Dial → Value → Result (Unit {0}) → Ledger → Result Outcome × Ledger
  unfolding attempt rescue
  after_escrow dial job (err e) ledger = (err e, ledger)
  after_escrow dial job (ok _) ledger =
      let ended = attempt dial job ledger in rescue ended.0 ended.1

  -- From the escrow to the end.
  unfoldable pub offer : Dial → Value → Ledger → Result Outcome × Ledger
  unfolding after_escrow
  offer dial job ledger =
      let held = escrow job_id worker.peer_id draws.escrow_stamp ledger in
      after_escrow dial job held.0 held.1

-- The worker's turn, once the candidates are known.
unfoldable pub delegate_to :
    Crypto
    → Identity
    → Draws
    → (PeerInfo → Dial)
    → Value
    → Value
    → Result (List PeerInfo)
    → Ledger
    → Result Outcome × Ledger
unfolding offer latest
delegate_to c self draws dial required_harness job (err e) ledger = (err e, ledger)
delegate_to c self draws dial required_harness job (ok []) ledger =
    (ok (failed (no_candidate required_harness)), ledger)
delegate_to c self draws dial required_harness job (ok (p ∷ rest)) ledger =
    let worker = latest p rest in offer c self draws worker (dial worker) job ledger

-- `except JobError`
unfoldable pub with_job :
    Result Value → (Value → Ledger → Result Outcome × Ledger) → Ledger → Result Outcome × Ledger
with_job (ok job) go ledger = go job ledger
with_job (err (job_error e)) go ledger = (ok (failed (invalid_job e)), ledger)
with_job (err e) go ledger = (err e, ledger)

-- `delegate`, on the peers that `discovery.peers` returns; `dial` is what a connection to a peer
-- meets.
unfoldable pub delegate :
    Crypto
    → Identity
    → Draws
    → (PeerInfo → Dial)
    → List PeerInfo
    → Value
    → Value
    → Value
    → Value
    → Value
    → Ledger
    → Result Outcome × Ledger
unfolding delegate_to with_job candidates
delegate c self draws dial peers task_text required_harness max_tokens max_runtime expected_output
      ledger =
    let job =
      new_job draws.job_id task_text required_harness max_tokens max_runtime expected_output in
    let go = λ (j : Value) (l : Ledger).
      delegate_to c self draws dial required_harness j (candidates required_harness peers) l in
    if can_offer ledger then with_job job go ledger else (ok (failed zero_balance), ledger)
