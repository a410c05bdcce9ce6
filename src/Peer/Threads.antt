-- ===== src/Peer/Threads.antt =====
-- The threads of one peer, agenttorrent/peer.py: `delegate` in the pieces between which other threads
-- can run. Each call of a method of the ledger is one step under its lock. A delegation calls it at
-- `can_offer`, at `escrow`, and once at most after that: the dialogue with the worker neither reads nor
-- changes the ledger until it ends.
pub mod Tasks
pub mod Safe
pub mod Schedules
pub mod Credit
pub mod Alone
pub mod Lost
pub mod Escrow
pub mod Exact
mod Tests
use agent_torrent.Prelude.{
  ℕ, zero, suc, String, List, [], ◌∷◌, ◌++◌, Option, none, some, if◌then◌else◌,
}
use agent_torrent.Py.{Value, Result, ok, err, job_error}
use agent_torrent.Job.{new_job}
use agent_torrent.Ledger.{Ledger, Stamp, can_offer, escrow, credit_for_work, open_ledger}
use agent_torrent.Identity.{Crypto, Identity}
use agent_torrent.Protocol.{Dial}
use agent_torrent.Discovery.{PeerInfo}
use agent_torrent.Peer.Delegate.Candidates.{candidates, latest}
use agent_torrent.Peer.Delegate.{
  Outcome, failed, zero_balance, invalid_job, no_candidate, Draws, attempt, rescue,
}

-- A call of `delegate`: what it draws, what its connection meets, the peers that the table returns, and
-- its arguments.
pub record Call : Type 0 where
  pub draws : Draws
  pub dial : PeerInfo → Dial
  pub live_peers : List PeerInfo
  pub task_text : Value
  pub required_harness : Value
  pub max_tokens : Value
  pub max_runtime_seconds : Value
  pub expected_output : Value

-- The local variables of a call that has chosen its worker.
pub record Task : Type 0 where
  pub draws : Draws
  pub worker : PeerInfo
  pub dial : Dial
  pub job : Value

-- The first piece of `delegate` returns or raises, or it comes to the call of `escrow`.
pub data Begun : Type 0 where
  returns : Result Outcome → Begun
  chooses : Task → Begun

unfoldable pub choose_worker : Call → Value → Result (List PeerInfo) → Begun
choose_worker call job (err e) = returns (err e)
choose_worker call job (ok []) = returns (ok (failed (no_candidate call.required_harness)))
choose_worker call job (ok (p ∷ rest)) =
    let worker = latest p rest in
    chooses (record { draws = call.draws; worker = worker; dial = call.dial worker; job = job })

unfoldable pub begin_job : Call → Result Value → Begun
unfolding choose_worker
begin_job call (ok job) = choose_worker call job (candidates call.required_harness call.live_peers)
begin_job call (err (job_error e)) = returns (ok (failed (invalid_job e)))
begin_job call (err e) = returns (err e)

unfoldable pub begin : Call → Ledger → Begun
unfolding begin_job
begin call ledger =
    let job =
      new_job call.draws.job_id call.task_text call.required_harness call.max_tokens
        call.max_runtime_seconds call.expected_output in
    if can_offer ledger then begin_job call job else returns (ok (failed zero_balance))

-- The calls that are before `escrow`, and those in the `try`; `finished` is what calls have
-- returned or raised.
pub record Threads : Type 0 where
  pub ledger : Ledger
  pub chosen : List Task
  pub waiting : List Task
  pub finished : List (Result Outcome)

-- The element at a place, and the others.
unfoldable pub past : {A : Type 0} → A → Option (A × List A) → Option (A × List A)
past x none = none
past x (some (y, ys)) = some (y, x ∷ ys)

unfoldable pub pick : {A : Type 0} → ℕ → List A → Option (A × List A)
unfolding past
pick n [] = none
pick zero (x ∷ xs) = some (x, xs)
pick (suc n) (x ∷ xs) = past x (pick n xs)

-- What the scheduler lets run: a new call of `delegate`, or the nth of the calls before `escrow` or in
-- the `try`; the last step of a worker's thread; a restart, which ends all threads.
pub data Piece : Type 0 where
  asks : Call → Piece
  reserves : ℕ → Piece
  closes : ℕ → Piece
  works : String → String → Stamp → Piece
  restarts : Stamp → Piece

unfoldable pub note_begun : Begun → Threads → Threads
note_begun (returns r) threads = record threads { finished = threads.finished ++ r ∷ [] }
note_begun (chooses task) threads = record threads { chosen = threads.chosen ++ task ∷ [] }

-- By the result of `escrow`.
unfoldable pub on_reserved : Task → Result (Unit {0}) → Threads → Threads
on_reserved task (ok _) threads = record threads { waiting = task ∷ threads.waiting }
on_reserved task (err e) threads = record threads { finished = threads.finished ++ err e ∷ [] }

unfoldable pub reserve : Option (Task × List Task) → Threads → Threads
unfolding on_reserved
reserve none threads = threads
reserve (some (task, others)) threads =
    let held =
      escrow task.draws.job_id task.worker.peer_id task.draws.escrow_stamp threads.ledger in
    on_reserved task held.0 (record threads { ledger = held.1; chosen = others })

module _ (c : Crypto) (self : Identity) where
  -- The `try` and its handler.
  unfoldable pub conclude : Task → Ledger → Result Outcome × Ledger
  conclude task ledger =
      let ended = attempt c self task.draws task.worker task.dial task.job ledger in
      rescue c self task.draws task.worker ended.0 ended.1

  unfoldable pub close : Option (Task × List Task) → Threads → Threads
  unfolding conclude
  close none threads = threads
  close (some (task, others)) threads =
      let ended = conclude task threads.ledger in
      record threads {
        ledger = ended.1;
        waiting = others;
        finished = threads.finished ++ ended.0 ∷ [];
      }

  unfoldable pub run_piece : Piece → Threads → Threads
  unfolding begin note_begun pick reserve close
  run_piece (asks call) threads = note_begun (begin call threads.ledger) threads
  run_piece (reserves n) threads = reserve (pick n threads.chosen) threads
  run_piece (closes n) threads = close (pick n threads.waiting) threads
  run_piece (works job_id requester stamp) threads = record threads {
    ledger = (credit_for_work job_id requester stamp threads.ledger).1;
  }
  run_piece (restarts stamp) threads = record threads {
    ledger = open_ledger stamp threads.ledger.file;
    chosen = [];
    waiting = [];
  }

  unfoldable pub schedule : List Piece → Threads → Threads
  unfolding run_piece
  schedule [] threads = threads
  schedule (piece ∷ pieces) threads = schedule pieces (run_piece piece threads)

-- A process at its first start.
unfoldable pub first_start : Stamp → Threads
first_start stamp = record {
  ledger = open_ledger stamp none;
  chosen = [];
  waiting = [];
  finished = [];
}
