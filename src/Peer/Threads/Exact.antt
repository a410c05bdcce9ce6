-- ===== src/Peer/Threads/Exact.antt =====
-- That no schedule without a restart loses a credit: what is in escrow is what calls wait for, but for
-- the calls that an exception of Python has ended.
use agent_torrent.Prelude.{
  ℕ, suc, ◌+◌, ◌≤◌, ◌≡◌, refl, ap, ◌∙◌, Bool, true, false, List, [], ◌∷◌, ◌++◌, Option, none, some,
  arith, pos, ◌+ℤ◌, All, length,
}
use agent_torrent.Py.{Result}
use agent_torrent.Ledger.{
  open_ledger, append, sum_deltas, balance_locked, entries_balance, Ledger, Stamp, balance,
}
use agent_torrent.Ledger.Methods.{credit_for_work-Posts}
use agent_torrent.Identity.{Crypto, Identity}
use agent_torrent.Peer.Delegate.{Outcome}
use agent_torrent.Peer.Delegate.Closing.{Closing, kept, back, back_broken, spent, attempt-Closing}
use agent_torrent.Peer.Threads.{
  Task, Threads, Piece, asks, reserves, closes, works, restarts, begin, pick, conclude, close,
  run_piece, schedule, first_start,
}
use agent_torrent.Peer.Threads.Tasks.{Found, pick-All}
use agent_torrent.Peer.Threads.Safe.{IsNamed, IsHeld, IsSafe, IsOrdinary}
use agent_torrent.Peer.Threads.Schedules.{run_piece-IsSafe, first_start-IsSafe}
use agent_torrent.Peer.Threads.Credit.{refund-MovedBy, settle-MovedBy}
use agent_torrent.Peer.Threads.Escrow.{
  count_python, IsExact, pick-length, went_out, more_finished, one_more, note_begun-IsExact,
  reserve-IsExact, work_kept,
}

abbrev pub is_restart : Piece → Bool
is_restart (restarts stamp) = true
is_restart _ = false

first_start-IsExact : (stamp : Stamp) → IsExact (first_start stamp)
unfolding first_start open_ledger append sum_deltas ◌+ℤ◌ balance balance_locked entries_balance
first_start-IsExact stamp = record { lost = 0; escrowed = refl; blamed = omega arith }

module _ (c : Crypto) (self : Identity) where
  -- The call that has come to its end is taken off the list; its credit is where its result says.
  ended-IsExact :
      (task : Task) (others : List Task) (threads : Threads) (out : Result Outcome × Ledger)
      → IsNamed task
      → IsHeld threads.ledger task
      → length threads.waiting ≡ suc (length others)
      → Closing task.draws.job_id task.worker.peer_id task.draws.closing_stamp threads.ledger out
      → IsExact threads
      → IsExact (record threads {
        ledger = out.1;
        waiting = others;
        finished = threads.finished ++ out.0 ∷ [];
      })
  ended-IsExact task others threads out ne is_open fewer closing h =
      let job_id = task.draws.job_id in
      let worker = task.worker.peer_id in
      let stamp = task.draws.closing_stamp in
      let l = threads.ledger in
      let n = length others + h.lost in
      let before : balance "escrow" l ≡ pos (suc n) = h.escrowed ∙ ap pos (omega (arith, fewer)) in
      let later = more_finished h.lost threads.finished out.0 h.blamed in
      elim closing [
        | kept e r python u ↦ record {
          lost = suc h.lost;
          escrowed = ap (balance "escrow") u ∙ before ∙ ap pos (omega arith);
          blamed = one_more h.lost threads.finished out.0 e r python h.blamed;
        }
        | back o r repaid u ↦ record {
          lost = h.lost;
          escrowed =
              ap (balance "escrow") u
              ∙ went_out "self" l _ n refl before (refund-MovedBy job_id worker stamp l is_open);
          blamed = later;
        }
        | back_broken e r python u ↦ record {
          lost = h.lost;
          escrowed =
              ap (balance "escrow") u
              ∙ went_out "self" l _ n refl before (refund-MovedBy job_id worker stamp l is_open);
          blamed = later;
        }
        | spent o r paid u ↦ record {
          lost = h.lost;
          escrowed =
              ap (balance "escrow") u
              ∙ went_out worker l _ n ne before (settle-MovedBy job_id worker stamp l is_open);
          blamed = later;
        }
      ]

  close-IsExact :
      (o : Option (Task × List Task)) (threads : Threads)
      → Found (λ t ts. IsNamed t × All IsNamed ts) o
      → Found (λ t ts. IsHeld threads.ledger t × All (IsHeld threads.ledger) ts) o
      → Found (λ t ts. length threads.waiting ≡ suc (length ts)) o
      → IsExact threads
      → IsExact (close c self o threads)
  unfolding close conclude
  close-IsExact none threads n k f h = h
  close-IsExact (some (task, others)) threads (n, ns) (k, ks) f h =
      ended-IsExact task others threads _ n k f
        (attempt-Closing c self task.draws task.worker threads.ledger k task.dial task.job) h

  run_piece-IsExact :
      (piece : Piece) (threads : Threads)
      → IsOrdinary piece
      → is_restart piece ≡ false
      → IsSafe threads
      → IsExact threads
      → IsExact (run_piece c self piece threads)
  unfolding run_piece
  run_piece-IsExact (asks call) threads o r s h =
      note_begun-IsExact (begin call threads.ledger) threads h
  run_piece-IsExact (reserves n) threads o r s h = reserve-IsExact (pick n threads.chosen) threads h
  run_piece-IsExact (closes n) threads o r s h =
      close-IsExact (pick n threads.waiting) threads
        (pick-All IsNamed n threads.waiting s.named_waiting)
        (pick-All (IsHeld threads.ledger) n threads.waiting s.held) (pick-length n threads.waiting)
        h
  run_piece-IsExact (works job_id requester stamp) threads o r s h = record {
    lost = h.lost;
    escrowed =
        work_kept job_id requester threads.ledger _ o
          (credit_for_work-Posts job_id requester stamp threads.ledger)
        ∙ h.escrowed;
    blamed = h.blamed;
  }
  run_piece-IsExact (restarts stamp) threads o r s h = absurd (cc)

  schedule-IsExact :
      (pieces : List Piece) (threads : Threads)
      → All IsOrdinary pieces
      → All (λ p. is_restart p ≡ false) pieces
      → IsSafe threads
      → IsExact threads
      → IsExact (schedule c self pieces threads)
  unfolding schedule
  schedule-IsExact [] threads o r s h = h
  schedule-IsExact (piece ∷ pieces) threads (o, os) (r, rs) s h =
      schedule-IsExact pieces (run_piece c self piece threads) os rs
        (run_piece-IsSafe c self piece threads o s) (run_piece-IsExact piece threads o r s h)

  -- Let a new process run the pieces of any number of calls of `delegate` in any order, with
  -- records of work but no restart between them, where no worker and no requester is named
  -- `escrow`. Then the credits in escrow are one for each call that waits for its worker, and as
  -- many others as are at most the calls that have ended with an exception of Python itself.
  pub schedule-escrow :
      (stamp : Stamp) (pieces : List Piece)
      → All IsOrdinary pieces
      → All (λ p. is_restart p ≡ false) pieces
      → let threads = schedule c self pieces (first_start stamp) in
        (lost : ℕ) × (balance "escrow" threads.ledger ≡ pos (length threads.waiting + lost))
        × (lost ≤ count_python threads.finished)
  schedule-escrow stamp pieces o r =
      let exact =
        schedule-IsExact pieces (first_start stamp) o r (first_start-IsSafe stamp)
          (first_start-IsExact stamp) in
      (exact.lost, exact.escrowed, exact.blamed)
