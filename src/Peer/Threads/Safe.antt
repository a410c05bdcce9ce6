-- ===== src/Peer/Threads/Safe.antt =====
-- The invariant of the threads, and what begins a call keeps of it.
use agent_torrent.Prelude.{
  ◌≡◌, refl, false, List, [], ◌∷◌, text_eq, if-both, All, All-zip, All-append,
}
use agent_torrent.Py.{Value, Result, ok, err, job_error}
use agent_torrent.Ledger.{Ledger, can_offer}
use agent_torrent.Ledger.Methods.{IsOpen}
use agent_torrent.Ledger.Sound.{Step, Reachable, Reachable-IsSound}
use agent_torrent.Ledger.Pending.{IsApart, Step-IsOpen}
use agent_torrent.Discovery.{PeerInfo}
use agent_torrent.Peer.Delegate.Candidates.{candidates}
use agent_torrent.Peer.Delegate.Runs.{NotEscrow, latest-NotEscrow, candidates-NotEscrow}
use agent_torrent.Peer.Threads.{
  Call, Task, Begun, returns, chooses, Threads, Piece, asks, works, choose_worker, begin_job, begin,
  note_begun,
}
use agent_torrent.Peer.Threads.Tasks.{Distinct}

-- The worker of the call is not named like the escrow account.
abbrev pub IsNamed : Task → Type 0
IsNamed task = text_eq task.worker.peer_id "escrow" ≡ false

-- The job of the call is in escrow.
abbrev pub IsHeld : Ledger → Task → Type 0
IsHeld l task = IsOpen task.draws.job_id l

pub record IsSafe (threads : Threads) : Type 0 where
  pub reachable : Reachable threads.ledger
  pub named_chosen : All IsNamed threads.chosen
  pub named_waiting : All IsNamed threads.waiting
  pub held : All (IsHeld threads.ledger) threads.waiting
  pub distinct : Distinct threads.waiting

-- No peer of the table and no requester is named like the escrow account.
abbrev pub IsOrdinary : Piece → Type 0
IsOrdinary (asks call) = NotEscrow call.live_peers
IsOrdinary (works job_id requester stamp) = text_eq requester "escrow" ≡ false
IsOrdinary _ = Unit {0}

-- A step that closes none of the jobs leaves all of them in escrow.
pub step-held :
    {l l' : Ledger} (tasks : List Task) (step : Step l l')
    → Reachable l
    → All (λ t. IsApart t.draws.job_id step) tasks
    → All (IsHeld l) tasks
    → All (IsHeld l') tasks
step-held {l} {l'} tasks step r =
    All-zip (λ t. IsApart t.draws.job_id step) (IsHeld l) (IsHeld l') tasks
      λ t apart is_open. Step-IsOpen t.draws.job_id step (Reachable-IsSound r) apart is_open

abbrev pub Chooses : Begun → Type 0
Chooses (returns r) = Unit {0}
Chooses (chooses task) = IsNamed task

choose_worker-Chooses :
    (call : Call) (job : Value) (r : Result (List PeerInfo))
    → ((ps : List PeerInfo) → r ≡ ok ps → NotEscrow ps)
    → Chooses (choose_worker call job r)
unfolding choose_worker
choose_worker-Chooses call job (err e) h = tt
choose_worker-Chooses call job (ok []) h = tt
choose_worker-Chooses call job (ok (p ∷ rest)) h = latest-NotEscrow p rest (h (p ∷ rest) refl)

begin_job-Chooses :
    (call : Call) (r : Result Value) → NotEscrow call.live_peers → Chooses (begin_job call r)
unfolding begin_job
begin_job-Chooses call (ok job) h =
    choose_worker-Chooses call job (candidates call.required_harness call.live_peers)
      λ ps e. candidates-NotEscrow call.required_harness call.live_peers ps e h
begin_job-Chooses call (err (job_error e)) h = tt
begin_job-Chooses call (err _) h = tt

pub begin-Chooses : (call : Call) (l : Ledger) → NotEscrow call.live_peers → Chooses (begin call l)
unfolding begin
begin-Chooses call l h = if-both Chooses (can_offer l) (begin_job-Chooses call _ h) tt

pub note_begun-IsSafe :
    (begun : Begun) (threads : Threads)
    → Chooses begun
    → IsSafe threads
    → IsSafe (note_begun begun threads)
unfolding note_begun
note_begun-IsSafe (returns r) threads h s = record {
  reachable = s.reachable;
  named_chosen = s.named_chosen;
  named_waiting = s.named_waiting;
  held = s.held;
  distinct = s.distinct;
}
note_begun-IsSafe (chooses task) threads h s = record {
  reachable = s.reachable;
  named_chosen = All-append IsNamed threads.chosen task s.named_chosen h;
  named_waiting = s.named_waiting;
  held = s.held;
  distinct = s.distinct;
}
