-- ===== src/Ledger/Tests.antt =====
-- Runs of the ledger: one job from its escrow to its settlement.
use agent_torrent.Prelude.{◌≡◌, ◌↔◌, refl, arith, none, [], pos, ◌≤ℤ◌, ◌<>◌, ◌+ℤ◌}
use agent_torrent.Py.{ok, err, ledger_error}
use agent_torrent.Ledger.{
  append, sum_deltas, balance_locked, entries_balance, require_open_escrow, has_kind, is_for,
  Ledger, Stamp, job_price, job_records, balance, open_ledger, escrow, settle, refund,
  credit_for_work,
}
use agent_torrent.Ledger.Balance.{count_for}
use agent_torrent.Ledger.Methods.{IsOpen, succeeds_iff}
use agent_torrent.Ledger.Invariant.{IsSound, closings}
use agent_torrent.Ledger.Sound.{
  Reachable, opened, next, escrowed, settled, credited, Reachable-IsSound,
}
use agent_torrent.Ledger.Final.{Run, here, closed_stays_closed}
use agent_torrent.Ledger.Accounts.{escrow-IsOpen}
use agent_torrent.Ledger.Balance.{count_all}
use agent_torrent.Ledger.Pending.{Others, none_yet, after, open_can_close}
use agent_torrent.Ledger.Bounds.{Reachable-IsBounded}
use agent_torrent.Ledger.{opening_balance}
use agent_torrent.Prelude.{◌+◌}
use agent_torrent.Prelude.{List, ◌++◌}
use agent_torrent.Ledger.{Record}
use agent_torrent.Ledger.Disk.{spoiled, solid, escrows, act}
use agent_torrent.Ledger.Faults.{first, later, failed, DiskRun-IsSound}

abbrev stamp : Stamp
stamp = record { txn_id = "t"; ts = 1 }

abbrev fresh : Ledger
fresh = open_ledger stamp none

abbrev held : Ledger
held = (escrow "job" "worker" stamp fresh).1

abbrev paid : Ledger
paid = (settle "job" "worker" stamp held).1

paid_balances :
    (balance "self" paid ≡ pos 9)
    × (balance "worker" paid ≡ pos 1)
    × (balance "escrow" paid ≡ pos 0)
unfolding balance open_ledger escrow settle append sum_deltas ◌+ℤ◌ balance_locked
    require_open_escrow has_kind job_records entries_balance is_for
paid_balances = (refl, refl, refl)

paid-Reachable : Reachable paid
paid-Reachable =
    next (next (opened stamp refl) (escrowed "job" "worker" stamp refl))
      (settled "job" "worker" stamp refl refl)

Reachable-IsSound_example : IsSound paid
Reachable-IsSound_example = Reachable-IsSound paid-Reachable

paid_closed : closings "job" paid ≡ 1
unfolding open_ledger escrow settle append sum_deltas ◌+ℤ◌ count_for require_open_escrow has_kind
    job_records balance_locked entries_balance is_for
paid_closed = refl

closed_stays_closed_example :
    let closed = err (ledger_error ("escrow for job " <> "job" <> " already closed")) in
    let later = (credit_for_work "other" "worker" stamp paid).1 in
    (settle "job" "worker" stamp later ≡ (closed, later))
    × (refund "job" stamp later ≡ (closed, later))
closed_stays_closed_example =
    closed_stays_closed "job" "worker" stamp (Reachable-IsSound paid-Reachable)
      (omega (arith, paid_closed)) (Run.step here (credited "other" "worker" stamp refl refl))

succeeds_iff_example :
    (((escrow "job" "worker" stamp held).0 ≡ ok tt)
      ↔ ((pos job_price ≤ℤ balance "self" held) × (job_records "job" held.records ≡ [])))
    × (((settle "job" "worker" stamp held).0 ≡ ok tt) ↔ IsOpen "job" held)
    × (((refund "job" stamp held).0 ≡ ok tt) ↔ IsOpen "job" held)
    × (((credit_for_work "job" "worker" stamp held).0 ≡ ok tt)
        ↔ (count_for "work" "job" held.records ≡ 0))
succeeds_iff_example = succeeds_iff "job" "worker" stamp held

held_now : (escrow "job" "worker" stamp fresh).0 ≡ ok tt
unfolding open_ledger escrow append sum_deltas ◌+ℤ◌ balance_locked job_records entries_balance
    is_for
held_now = refl

-- Another thread is credited for a job of the same id, and another job is held.
abbrev busy : Ledger
busy = (escrow "other" "worker" stamp (credit_for_work "job" "peer" stamp held).1).1

meanwhile : Others "job" held busy
meanwhile =
    after (after none_yet (credited "job" "peer" stamp refl refl) tt)
      (escrowed "other" "worker" stamp refl) tt

open_can_close_example :
    ((settle "job" "worker" stamp busy).0 ≡ ok tt) × ((refund "job" stamp busy).0 ≡ ok tt)
open_can_close_example =
    open_can_close "job" "worker" stamp
      (Reachable-IsSound (next (opened stamp refl) (escrowed "job" "worker" stamp refl)))
      (escrow-IsOpen "job" "worker" stamp fresh held_now) meanwhile

Reachable-IsBounded_example :
    (pos 0 ≤ℤ balance "self" paid)
    × (pos 0 ≤ℤ balance "escrow" paid)
    × (balance "self" paid +ℤ balance "escrow" paid
        ≤ℤ pos (opening_balance + count_all "work" paid.records))
Reachable-IsBounded_example = Reachable-IsBounded paid-Reachable

-- An escrow whose write fails is in memory and not in the file.
abbrev unwritten : Ledger
unwritten = (spoiled (act (escrows "job" "worker" stamp)) fresh).1

unwritten_balances :
    (balance "self" unwritten ≡ pos 9)
    × (balance "self" (open_ledger stamp unwritten.file) ≡ pos 10)
unfolding balance balance_locked spoiled act escrow open_ledger append sum_deltas ◌+ℤ◌
    entries_balance job_records is_for
unwritten_balances = (refl, refl)

DiskRun-IsSound_example :
    IsSound (solid unwritten)
    × IsSound (open_ledger stamp unwritten.file)
    × (unsaved : List Record) × (unwritten.records
        ≡ (open_ledger stamp unwritten.file).records ++ unsaved)
DiskRun-IsSound_example =
    DiskRun-IsSound stamp (later (first stamp refl) (failed (escrows "job" "worker" stamp) tt refl))
