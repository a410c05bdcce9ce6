-- ===== src/Peer/Threads/Credit.antt =====
-- The credits of the calls that wait for their workers at once.
use mathlib.Core.Path.{subst}
use agent_torrent.Prelude.{
  String, ◌≡◌, refl, sym, ap, ◌⊎◌, inl, inr, true, false, List, [], ◌∷◌, ◌++◌, Option, some,
  text_eq, eq_iff, ◌+◌, pos, suc, ◌≤◌, ◌≤ℤ◌, int_laws, All, length, ℕ,
}
use agent_torrent.Py.{Result, ok, err, is_python_error}
use agent_torrent.Ledger.{Ledger, Stamp, balance, opening_balance, settle, refund}
use agent_torrent.Ledger.Balance.{count_all}
use agent_torrent.Ledger.Methods.{
  IsOpen, moved, Posted-balance, settle-Posts, refund-Posts, settle_succeeds_iff,
  refund_succeeds_iff,
}
use agent_torrent.Ledger.Posting.{Posted-of_ok}
use agent_torrent.Ledger.Bounds.{Reachable-IsBounded}
use agent_torrent.Ledger.InEscrow.{AllDistinct, held_within_escrow}
use agent_torrent.Identity.{Crypto, Identity}
use agent_torrent.Peer.Delegate.{Outcome, completed, rejected, unpaid}
use agent_torrent.Peer.Delegate.Ends.{is_repaid, is_paid_to}
use agent_torrent.Peer.Delegate.Closing.{Closing, kept, back, back_broken, spent, attempt-Closing}
use agent_torrent.Peer.Delegate.Accounts.{MovedBy, out_of}
use agent_torrent.Peer.Threads.{
  Task, Threads, Piece, closes, pick, conclude, close, run_piece, schedule, first_start,
}
use agent_torrent.Peer.Threads.Tasks.{Found, pick-All, Distinct}
use agent_torrent.Peer.Threads.Safe.{IsHeld, IsSafe, IsOrdinary}
use agent_torrent.Peer.Threads.Schedules.{schedule-IsSafe, first_start-IsSafe}

-- The jobs of the calls.
abbrev pub job_ids : List Task → List String
job_ids [] = []
job_ids (t ∷ ts) = t.draws.job_id ∷ job_ids ts

All-job_ids :
    (P : String → Type 0) (tasks : List Task)
    → All (λ t. P t.draws.job_id) tasks
    → All P (job_ids tasks)
All-job_ids P [] h = tt
All-job_ids P (t ∷ ts) (h, hs) = (h, All-job_ids P ts hs)

job_ids-AllDistinct : (tasks : List Task) → Distinct tasks → AllDistinct (job_ids tasks)
job_ids-AllDistinct [] d = tt
job_ids-AllDistinct (t ∷ ts) (d, ds) =
    (All-job_ids (λ i. text_eq t.draws.job_id i ≡ false) ts d, job_ids-AllDistinct ts ds)

length-job_ids : (tasks : List Task) → length (job_ids tasks) ≡ length tasks
length-job_ids [] = refl
length-job_ids (t ∷ ts) = ap suc (length-job_ids ts)

waiting_within_escrow :
    (threads : Threads)
    → IsSafe threads
    → pos (length threads.waiting) ≤ℤ balance "escrow" threads.ledger
waiting_within_escrow threads s =
    let held =
      held_within_escrow (job_ids threads.waiting) s.reachable
        (All-job_ids (λ j. IsOpen j threads.ledger) threads.waiting s.held)
        (job_ids-AllDistinct threads.waiting s.distinct) in
    omega (int_laws, held, length-job_ids threads.waiting)

module _ (c : Crypto) (self : Identity) where
  -- Let a new process run the pieces of any number of calls of `delegate` in any order, with
  -- records of work and restarts between them, where no worker and no requester is named `escrow`.
  -- Then every call that waits for its worker has its job in escrow and not closed, no two of them
  -- are for one job, the spendable balance is not negative, and the calls that wait are at most the
  -- credits in escrow and at most the opening balance and one for each record of work done.
  pub schedule-IsCovered :
      (stamp : Stamp) (pieces : List Piece)
      → All IsOrdinary pieces
      → let threads = schedule c self pieces (first_start stamp) in
        let l = threads.ledger in
        All (IsHeld l) threads.waiting
        × Distinct threads.waiting
        × (pos 0 ≤ℤ balance "self" l)
        × (pos (length threads.waiting) ≤ℤ balance "escrow" l)
        × (length threads.waiting ≤ opening_balance + count_all "work" l.records)
  schedule-IsCovered stamp pieces h =
      let s = schedule-IsSafe c self pieces _ h (first_start-IsSafe stamp) in
      let (rich, held, bounded) = Reachable-IsBounded s.reachable in
      let threads = schedule c self pieces (first_start stamp) in
      let within = waiting_within_escrow threads s in
      (s.held, s.distinct, rich, within, omega (int_laws, rich, within, bounded))

-- What the end of a call has done to the accounts, by what it returns: a result has been paid for by
-- the credit in escrow; any other dictionary goes with that credit's return; an exception is one of
-- Python itself, with the ledger as it was or with the credit back.
abbrev pub Charged : Ledger → Result Outcome × Ledger → Type 0
Charged l (ok (completed job worker h s r o), l') = MovedBy (moved "escrow" worker) l l'
Charged l (ok _, l') = MovedBy (moved "escrow" "self") l l'
Charged l (err e, l') =
    (is_python_error e ≡ true) × ((l' ≡ l) ⊎ MovedBy (moved "escrow" "self") l l')

Charged-back :
    (l : Ledger) (o : Outcome) (l' : Ledger)
    → is_repaid o ≡ true
    → MovedBy (moved "escrow" "self") l l'
    → Charged l (ok o, l')
Charged-back l (rejected j w v) l' h m = m
Charged-back l (unpaid j w f) l' h m = m
Charged-back l _ l' h m = absurd (cc)

Charged-spent :
    (l : Ledger) (worker : String) (o : Outcome) (l' : Ledger)
    → is_paid_to worker o ≡ true
    → MovedBy (moved "escrow" worker) l l'
    → Charged l (ok o, l')
Charged-spent l worker (completed j w h s r o) l' e m =
    subst (λ x. MovedBy (moved "escrow" x) l l') (sym ((eq_iff w worker).0 e)) m
Charged-spent l worker _ l' e m = absurd (cc)

module _ (job_id worker : String) (stamp : Stamp) (l : Ledger) (is_open : IsOpen job_id l) where
  pub refund-MovedBy : MovedBy (moved "escrow" "self") l (refund job_id stamp l).1
  refund-MovedBy a = Posted-balance _ _ _ _ a (
      Posted-of_ok _ _ _ _ l _ (refund-Posts job_id stamp l)
        ((refund_succeeds_iff job_id stamp l).1 is_open))

  pub settle-MovedBy : MovedBy (moved "escrow" worker) l (settle job_id worker stamp l).1
  settle-MovedBy a = Posted-balance _ _ _ _ a (
      Posted-of_ok _ _ _ _ l _ (settle-Posts job_id worker stamp l)
        ((settle_succeeds_iff job_id worker stamp l).1 is_open))

  Closing-Charged :
      (out : Result Outcome × Ledger) → Closing job_id worker stamp l out → Charged l out
  Closing-Charged out (kept e r k u) = subst (Charged l) (out_of r u) (k, inl refl)
  Closing-Charged out (back o r h u) =
      subst (Charged l) (out_of r u) (Charged-back l o _ h refund-MovedBy)
  Closing-Charged out (back_broken e r k u) = subst (Charged l) (out_of r u) (k, inr refund-MovedBy)
  Closing-Charged out (spent o r h u) =
      subst (Charged l) (out_of r u) (Charged-spent l worker o _ h settle-MovedBy)

module _ (c : Crypto) (self : Identity) where
  held_of :
      (l : Ledger) (o : Option (Task × List Task)) (task : Task) (others : List Task)
      → o ≡ some (task, others)
      → Found (λ t ts. IsHeld l t × All (IsHeld l) ts) o
      → IsHeld l task
  held_of l o task others e h = (subst (Found (λ t ts. IsHeld l t × All (IsHeld l) ts)) e h).0

  -- After such a schedule let a call that waits come to its end, whatever its worker and the
  -- network do and whatever the other threads have done since its escrow. It leaves the others that
  -- wait, and it returns or raises one result: if it is a completed job, one credit has gone from
  -- escrow to the worker that the result names; if it is any other dictionary, one credit has gone
  -- from escrow back to the spendable balance; and if it is an exception, it is one of Python
  -- itself, and the ledger is as it was or with that credit back. No other balance has changed.
  pub closes-Charged :
      (stamp : Stamp) (pieces : List Piece) (n : ℕ) (task : Task) (others : List Task)
      → All IsOrdinary pieces
      → let threads = schedule c self pieces (first_start stamp) in
        pick n threads.waiting ≡ some (task, others)
        → let after = run_piece c self (closes n) threads in
          (r : Result Outcome) × (after.finished ≡ threads.finished ++ r ∷ [])
          × (after.waiting ≡ others)
          × Charged threads.ledger (r, after.ledger)
  unfolding run_piece close conclude
  closes-Charged stamp pieces n task others h e =
      let s = schedule-IsSafe c self pieces _ h (first_start-IsSafe stamp) in
      let threads = schedule c self pieces (first_start stamp) in
      let is_open =
        held_of threads.ledger _ task others e
          (pick-All (IsHeld threads.ledger) n threads.waiting s.held) in
      rw e (
        (conclude c self task threads.ledger).0,
        refl,
        refl,
        Closing-Charged task.draws.job_id task.worker.peer_id task.draws.closing_stamp
            threads.ledger is_open _
            (attempt-Closing c self task.draws task.worker threads.ledger is_open task.dial
              task.job),
      )
