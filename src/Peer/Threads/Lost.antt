-- ===== src/Peer/Threads/Lost.antt =====
-- A job in escrow that no call waits for, as a restart leaves it.
use mathlib.Core.Path.{subst}
use agent_torrent.Prelude.{
  ℕ, String, ◌≡◌, refl, sym, ap, inl, inr, false, List, [], ◌∷◌, Option, none, some, text_eq, pos,
  ◌≤ℤ◌, All,
}
use agent_torrent.Py.{Result, ok, err}
use agent_torrent.Ledger.{Ledger, Stamp, escrow, balance}
use agent_torrent.Ledger.Methods.{IsOpen}
use agent_torrent.Ledger.Sound.{escrowed, credited, restarted, Reachable-IsSound}
use agent_torrent.Ledger.Pending.{Step-IsOpen}
use agent_torrent.Ledger.InEscrow.{held_within_escrow}
use agent_torrent.Identity.{Crypto, Identity}
use agent_torrent.Peer.Delegate.Closing.{attempt-Closing}
use agent_torrent.Peer.Delegate.Runs.{Closing-Step}
use agent_torrent.Peer.Threads.{
  Task, Begun, returns, chooses, Threads, Piece, asks, reserves, closes, works, restarts, begin,
  pick, note_begun, on_reserved, reserve, conclude, close, run_piece, schedule, first_start,
}
use agent_torrent.Peer.Threads.Tasks.{Found, pick-All}
use agent_torrent.Peer.Threads.Safe.{IsNamed, IsHeld, IsSafe, IsOrdinary}
use agent_torrent.Peer.Threads.Schedules.{
  escrow-IsOther, run_piece-IsSafe, schedule-IsSafe, first_start-IsSafe,
}

-- The call is for another job.
abbrev Spares : String → Task → Type 0
Spares j task = text_eq task.draws.job_id j ≡ false

record IsLost (j : String) (threads : Threads) : Type 0 where
  is_open : IsOpen j threads.ledger
  unclaimed : All (Spares j) threads.waiting

note_begun-IsLost :
    (j : String) (begun : Begun) (threads : Threads)
    → IsLost j threads
    → IsLost j (note_begun begun threads)
unfolding note_begun
note_begun-IsLost j (returns r) threads h = record { is_open = h.is_open; unclaimed = h.unclaimed }
note_begun-IsLost j (chooses task) threads h = record {
  is_open = h.is_open;
  unclaimed = h.unclaimed;
}

on_reserved-IsLost :
    (j : String) (task : Task) (threads : Threads) (others : List Task)
    (out : Result (Unit {0}) × Ledger)
    → out ≡ escrow task.draws.job_id task.worker.peer_id task.draws.escrow_stamp threads.ledger
    → IsSafe threads
    → IsLost j threads
    → IsLost j (on_reserved task out.0 (record threads { ledger = out.1; chosen = others }))
unfolding on_reserved
on_reserved-IsLost j task threads others (err e, m) q s h =
    let step =
      escrowed task.draws.job_id task.worker.peer_id task.draws.escrow_stamp
        (ap (λ (o : Result (Unit {0}) × Ledger). o.1) q) in
    record {
      is_open = Step-IsOpen j step (Reachable-IsSound s.reachable) tt h.is_open;
      unclaimed = h.unclaimed;
    }
on_reserved-IsLost j task threads others (ok _, m) q s h =
    let step =
      escrowed task.draws.job_id task.worker.peer_id task.draws.escrow_stamp
        (ap (λ (o : Result (Unit {0}) × Ledger). o.1) q) in
    let done = ap (λ (o : Result (Unit {0}) × Ledger). o.0) (sym q) in
    record {
      is_open = Step-IsOpen j step (Reachable-IsSound s.reachable) tt h.is_open;
      unclaimed = (
        escrow-IsOther task.draws.job_id task.worker.peer_id task.draws.escrow_stamp threads.ledger
            j done h.is_open,
        h.unclaimed,
      );
    }

reserve-IsLost :
    (j : String) (o : Option (Task × List Task)) (threads : Threads)
    → IsSafe threads
    → IsLost j threads
    → IsLost j (reserve o threads)
unfolding reserve
reserve-IsLost j none threads s h = h
reserve-IsLost j (some (task, others)) threads s h =
    on_reserved-IsLost j task threads others _ refl s h

module _ (c : Crypto) (self : Identity) where
  close-IsLost :
      (j : String) (o : Option (Task × List Task)) (threads : Threads)
      → Found (λ t ts. IsNamed t × All IsNamed ts) o
      → Found (λ t ts. IsHeld threads.ledger t × All (IsHeld threads.ledger) ts) o
      → Found (λ t ts. Spares j t × All (Spares j) ts) o
      → IsSafe threads
      → IsLost j threads
      → IsLost j (close c self o threads)
  unfolding close conclude
  close-IsLost j none threads n k u s h = h
  close-IsLost j (some (task, others)) threads (n, ns) (k, ks) (u, us) s h =
      let closing =
        attempt-Closing c self task.draws task.worker threads.ledger k task.dial task.job in
      elim (Closing-Step n closing) [
        | inl e ↦ record { is_open = subst (IsOpen j) (sym e) h.is_open; unclaimed = us }
        | inr (step, apart) ↦ record {
          is_open = Step-IsOpen j step (Reachable-IsSound s.reachable) (apart j u) h.is_open;
          unclaimed = us;
        }
      ]

  run_piece-IsLost :
      (j : String) (piece : Piece) (threads : Threads)
      → IsOrdinary piece
      → IsSafe threads
      → IsLost j threads
      → IsLost j (run_piece c self piece threads)
  unfolding run_piece
  run_piece-IsLost j (asks call) threads o s h =
      note_begun-IsLost j (begin call threads.ledger) threads h
  run_piece-IsLost j (reserves n) threads o s h =
      reserve-IsLost j (pick n threads.chosen) threads s h
  run_piece-IsLost j (closes n) threads o s h =
      close-IsLost j (pick n threads.waiting) threads
        (pick-All IsNamed n threads.waiting s.named_waiting)
        (pick-All (IsHeld threads.ledger) n threads.waiting s.held)
        (pick-All (Spares j) n threads.waiting h.unclaimed) s h
  run_piece-IsLost j (works job_id requester stamp) threads o s h = record {
    is_open =
        Step-IsOpen j (credited job_id requester stamp o refl) (Reachable-IsSound s.reachable) tt
          h.is_open;
    unclaimed = h.unclaimed;
  }
  run_piece-IsLost j (restarts stamp) threads o s h = record {
    is_open = Step-IsOpen j (restarted stamp refl) (Reachable-IsSound s.reachable) tt h.is_open;
    unclaimed = tt;
  }

  schedule-IsLost :
      (j : String) (pieces : List Piece) (threads : Threads)
      → All IsOrdinary pieces
      → IsSafe threads
      → IsLost j threads
      → IsLost j (schedule c self pieces threads)
  unfolding schedule
  schedule-IsLost j [] threads o s h = h
  schedule-IsLost j (piece ∷ pieces) threads (o, os) s h =
      schedule-IsLost j pieces (run_piece c self piece threads) os
        (run_piece-IsSafe c self piece threads o s) (run_piece-IsLost j piece threads o s h)

  -- If a process is restarted while a call waits for its worker, then whatever schedule follows,
  -- where no worker and no requester is named `escrow`, the job of that call is still in escrow and
  -- not closed, and at least one credit is in escrow.
  pub restart_strands :
      (stamp again : Stamp) (before after : List Piece) (n : ℕ) (task : Task) (others : List Task)
      → All IsOrdinary before
      → All IsOrdinary after
      → let threads = schedule c self before (first_start stamp) in
        pick n threads.waiting ≡ some (task, others)
        → let l = (schedule c self (restarts again ∷ after) threads).ledger in
          IsOpen task.draws.job_id l × (pos 1 ≤ℤ balance "escrow" l)
  unfolding schedule run_piece
  restart_strands stamp again before after n task others o o' e =
      let j = task.draws.job_id in
      let threads = schedule c self before (first_start stamp) in
      let s = schedule-IsSafe c self before _ o (first_start-IsSafe stamp) in
      let (held, rest) =
        subst (Found (λ t ts. IsHeld threads.ledger t × All (IsHeld threads.ledger) ts)) e
          (pick-All (IsHeld threads.ledger) n threads.waiting s.held) in
      let at_restart : IsLost j (run_piece c self (restarts again) threads) = record {
        is_open = Step-IsOpen j (restarted again refl) (Reachable-IsSound s.reachable) tt held;
        unclaimed = tt;
      } in
      let s' = run_piece-IsSafe c self (restarts again) threads tt s in
      let lost = schedule-IsLost j after _ o' s' at_restart in
      let safe = schedule-IsSafe c self after _ o' s' in
      (lost.is_open, held_within_escrow (j ∷ []) safe.reachable (lost.is_open, tt) (tt, tt))
