-- ===== src/Peer/Threads/Schedules.antt =====
-- That every piece keeps the invariant of the threads.
use mathlib.Core.Path.{subst}
use agent_torrent.Prelude.{
  String, ◌≡◌, refl, sym, ap, inl, inr, false, List, [], ◌∷◌, Option, none, some, Bool-cases,
  text_eq, eq_iff, arith, All, All-map, All-intro,
}
use agent_torrent.Py.{Result, ok, err}
use agent_torrent.Ledger.{Ledger, Stamp, escrow}
use agent_torrent.Ledger.Balance.{count_for, is_empty-count}
use agent_torrent.Ledger.Methods.{IsOpen, escrow_succeeds_iff}
use agent_torrent.Ledger.Accounts.{escrow-IsOpen}
use agent_torrent.Ledger.Sound.{Reachable, opened, next, escrowed, credited, restarted}
use agent_torrent.Ledger.Pending.{IsApart}
use agent_torrent.Identity.{Crypto, Identity}
use agent_torrent.Peer.Delegate.Closing.{attempt-Closing}
use agent_torrent.Peer.Delegate.Runs.{Closing-Step}
use agent_torrent.Peer.Threads.{
  Task, Threads, Piece, asks, reserves, closes, works, restarts, begin, pick, on_reserved, reserve,
  conclude, close, run_piece, schedule, first_start,
}
use agent_torrent.Peer.Threads.Safe.{
  IsNamed, IsHeld, IsSafe, IsOrdinary, step-held, begin-Chooses, note_begun-IsSafe,
}
use agent_torrent.Peer.Threads.Tasks.{Found, pick-All, IsOther, IsOne, pick-Distinct}

-- A job that has gone into escrow is none of those that were there.
pub escrow-IsOther :
    (job_id worker : String) (stamp : Stamp) (l : Ledger) (j : String)
    → (escrow job_id worker stamp l).0 ≡ ok tt
    → IsOpen j l
    → text_eq job_id j ≡ false
escrow-IsOther job_id worker stamp l j done is_open =
    let new = ((escrow_succeeds_iff job_id worker stamp l).0 done).1 in
    elim (Bool-cases (text_eq job_id j)) [
      | inl same ↦
          let unheld =
            subst (λ i. count_for "escrow" i l.records ≡ 0) ((eq_iff job_id j).0 same)
              (is_empty-count "escrow" job_id l.records (rw new)) in
          absurd (omega (arith, unheld, is_open.escrowed))
      | inr other ↦ other
    ]

on_reserved-IsSafe :
    (task : Task) (threads : Threads) (others : List Task) (out : Result (Unit {0}) × Ledger)
    → out ≡ escrow task.draws.job_id task.worker.peer_id task.draws.escrow_stamp threads.ledger
    → IsNamed task
    → All IsNamed others
    → IsSafe threads
    → IsSafe (on_reserved task out.0 (record threads { ledger = out.1; chosen = others }))
unfolding on_reserved
on_reserved-IsSafe task threads others (err e, m) q h hs s =
    let step =
      escrowed task.draws.job_id task.worker.peer_id task.draws.escrow_stamp
        (ap (λ (o : Result (Unit {0}) × Ledger). o.1) q) in
    record {
      reachable = next s.reachable step;
      named_chosen = hs;
      named_waiting = s.named_waiting;
      held =
          step-held threads.waiting step s.reachable (All-intro _ threads.waiting λ t. tt) s.held;
      distinct = s.distinct;
    }
on_reserved-IsSafe task threads others (ok _, m) q h hs s =
    let step =
      escrowed task.draws.job_id task.worker.peer_id task.draws.escrow_stamp
        (ap (λ (o : Result (Unit {0}) × Ledger). o.1) q) in
    let done = ap (λ (o : Result (Unit {0}) × Ledger). o.0) (sym q) in
    record {
      reachable = next s.reachable step;
      named_chosen = hs;
      named_waiting = (h, s.named_waiting);
      held = (
        (subst (IsOpen task.draws.job_id) (sym (ap (λ (o : Result (Unit {0}) × Ledger). o.1) q)) (
            escrow-IsOpen task.draws.job_id task.worker.peer_id task.draws.escrow_stamp
              threads.ledger done)),
        step-held threads.waiting step s.reachable (All-intro _ threads.waiting λ t. tt) s.held,
      );
      distinct = (
        All-map (IsHeld threads.ledger) (IsOther task) threads.waiting
            (λ t.
              escrow-IsOther task.draws.job_id task.worker.peer_id task.draws.escrow_stamp
                threads.ledger t.draws.job_id done)
            s.held,
        s.distinct,
      );
    }

reserve-IsSafe :
    (o : Option (Task × List Task)) (threads : Threads)
    → Found (λ t ts. IsNamed t × All IsNamed ts) o
    → IsSafe threads
    → IsSafe (reserve o threads)
unfolding reserve
reserve-IsSafe none threads h s = s
reserve-IsSafe (some (task, others)) threads (h, hs) s =
    on_reserved-IsSafe task threads others _ refl h hs s

module _ (c : Crypto) (self : Identity) where
  close-IsSafe :
      (o : Option (Task × List Task)) (threads : Threads)
      → Found (λ t ts. IsNamed t × All IsNamed ts) o
      → Found (λ t ts. IsHeld threads.ledger t × All (IsHeld threads.ledger) ts) o
      → Found IsOne o
      → IsSafe threads
      → IsSafe (close c self o threads)
  unfolding close conclude
  close-IsSafe none threads h k d s = s
  close-IsSafe (some (task, others)) threads (h, hs) (k, ks) (d, ds) s =
      let closing =
        attempt-Closing c self task.draws task.worker threads.ledger k task.dial task.job in
      elim (Closing-Step h closing) [
        | inl e ↦ record {
          reachable = subst Reachable (sym e) s.reachable;
          named_chosen = s.named_chosen;
          named_waiting = hs;
          held = subst (λ m. All (IsHeld m) others) (sym e) ks;
          distinct = ds;
        }
        | inr (step, apart) ↦ record {
          reachable = next s.reachable step;
          named_chosen = s.named_chosen;
          named_waiting = hs;
          held =
              step-held others step s.reachable
                (All-map (IsOther task) (λ t. IsApart t.draws.job_id step) others
                  (λ t. apart t.draws.job_id) d)
                ks;
          distinct = ds;
        }
      ]

  pub run_piece-IsSafe :
      (piece : Piece) (threads : Threads)
      → IsOrdinary piece
      → IsSafe threads
      → IsSafe (run_piece c self piece threads)
  unfolding run_piece
  run_piece-IsSafe (asks call) threads h s =
      note_begun-IsSafe (begin call threads.ledger) threads (begin-Chooses call threads.ledger h) s
  run_piece-IsSafe (reserves n) threads h s =
      reserve-IsSafe (pick n threads.chosen) threads
        (pick-All IsNamed n threads.chosen s.named_chosen) s
  run_piece-IsSafe (closes n) threads h s =
      close-IsSafe (pick n threads.waiting) threads
        (pick-All IsNamed n threads.waiting s.named_waiting)
        (pick-All (IsHeld threads.ledger) n threads.waiting s.held)
        (pick-Distinct n threads.waiting s.distinct) s
  run_piece-IsSafe (works job_id requester stamp) threads h s =
      let step = credited job_id requester stamp h refl in
      record {
        reachable = next s.reachable step;
        named_chosen = s.named_chosen;
        named_waiting = s.named_waiting;
        held =
            step-held threads.waiting step s.reachable (All-intro _ threads.waiting λ t. tt) s.held;
        distinct = s.distinct;
      }
  run_piece-IsSafe (restarts stamp) threads h s = record {
    reachable = next s.reachable (restarted stamp refl);
    named_chosen = tt;
    named_waiting = tt;
    held = tt;
    distinct = tt;
  }

  -- X
  pub schedule-IsSafe :
      (pieces : List Piece) (threads : Threads)
      → All IsOrdinary pieces
      → IsSafe threads
      → IsSafe (schedule c self pieces threads)
  unfolding schedule
  schedule-IsSafe [] threads h s = s
  schedule-IsSafe (piece ∷ pieces) threads (h, hs) s =
      schedule-IsSafe pieces (run_piece c self piece threads) hs
        (run_piece-IsSafe piece threads h s)

pub first_start-IsSafe : (stamp : Stamp) → IsSafe (first_start stamp)
unfolding first_start
first_start-IsSafe stamp = record {
  reachable = opened stamp refl;
  named_chosen = tt;
  named_waiting = tt;
  held = tt;
  distinct = tt;
}
