-- ===== src/Ledger/Sound.antt =====
-- The invariant of the ledger over every run: methods in any order, with any outcome, and restarts.
use agent_torrent.Prelude.{String, ◌≡◌, refl, ap, sym, ◌∙◌, false, text_eq, arith, ◌+ℤ◌, some, none}
use mathlib.Core.Path.{subst}
use agent_torrent.Py.{Result, ok, err}
use agent_torrent.Ledger.{
  Ledger, Stamp, sum_deltas, entries_balance, balance_locked, is_for, append, balance, escrow,
  settle, refund, credit_for_work, open_ledger,
}
use agent_torrent.Ledger.Balance.{total, count_all, count_for, is_empty-count}
use agent_torrent.Ledger.Methods.{
  Posted, PostsOrRaises, escrow-Posts, settle-Posts, refund-Posts, credit_for_work-Posts,
  escrow_succeeds_iff, settle_succeeds_iff, refund_succeeds_iff,
}
use agent_torrent.Ledger.Invariant.{
  IsSound, settle-IsSound, refund-IsSound, escrow-IsSound, work-IsSound,
}

-- One step of the process: a method by any of its callers, or a restart from the file. A peer id is
-- never the name of the escrow account.
pub data Step (l l' : Ledger) : Type 0 where
  escrowed :
      (job_id worker : String) (stamp : Stamp) → l' ≡ (escrow job_id worker stamp l).1 → Step l l'
  settled :
      (job_id worker : String) (stamp : Stamp)
      → text_eq worker "escrow" ≡ false
      → l' ≡ (settle job_id worker stamp l).1
      → Step l l'
  refunded : (job_id : String) (stamp : Stamp) → l' ≡ (refund job_id stamp l).1 → Step l l'
  credited :
      (job_id requester : String) (stamp : Stamp)
      → text_eq requester "escrow" ≡ false
      → l' ≡ (credit_for_work job_id requester stamp l).1
      → Step l l'
  restarted : (stamp : Stamp) → l' ≡ open_ledger stamp l.file → Step l l'

pub data Reachable : Ledger → Type 0 where
  opened : {l : Ledger} (stamp : Stamp) → l ≡ open_ledger stamp none → Reachable l
  next : {l l' : Ledger} → Reachable l → Step l l' → Reachable l'

-- A method keeps the invariant if its record does, since it raises on an unchanged ledger.
kept :
    (kind job_id src dst : String) (l : Ledger) (out : Result (Unit {0}) × Ledger)
    → PostsOrRaises kind job_id src dst l out
    → IsSound l
    → (out.0 ≡ ok tt → Posted kind job_id src dst l out.1 → IsSound out.1)
    → IsSound out.1
unfolding PostsOrRaises
kept kind job_id src dst l (ok _, l') h s step = step refl h
kept kind job_id src dst l (err _, l') h s step = subst IsSound (sym h) s

-- A restart from a file that holds the records changes nothing.
pub reopened : (stamp : Stamp) (l : Ledger) → l.file ≡ some l.records → open_ledger stamp l.file ≡ l
unfolding open_ledger
reopened stamp l e =
    ap (open_ledger stamp) e ∙ (λ i. record { records = l.records; file = sym e i })

pub Step-IsSound : {l l' : Ledger} → Step l l' → IsSound l → IsSound l'
Step-IsSound {l} (escrowed job_id worker stamp e) s = subst IsSound (sym e) (
    kept _ _ _ _ l _ (escrow-Posts job_id worker stamp l) s λ done p.
      let (rich, new) = (escrow_succeeds_iff job_id worker stamp l).0 done in
      escrow-IsSound p rich (is_empty-count "escrow" job_id l.records (rw new)) s)
Step-IsSound {l} (settled job_id worker stamp other e) s = subst IsSound (sym e) (
    kept _ _ _ _ l _ (settle-Posts job_id worker stamp l) s
      λ done p. settle-IsSound p other ((settle_succeeds_iff job_id worker stamp l).0 done) s)
Step-IsSound {l} (refunded job_id stamp e) s = subst IsSound (sym e) (
    kept _ _ _ _ l _ (refund-Posts job_id stamp l) s
      λ done p. refund-IsSound p ((refund_succeeds_iff job_id stamp l).0 done) s)
Step-IsSound {l} (credited job_id requester stamp other e) s = subst IsSound (sym e) (
    kept _ _ _ _ l _ (credit_for_work-Posts job_id requester stamp l) s
      λ done p. work-IsSound p other s)
Step-IsSound {l} (restarted stamp e) s = subst IsSound (sym (e ∙ reopened stamp l s.persisted)) s

open_ledger-IsSound : (stamp : Stamp) → IsSound (open_ledger stamp none)
unfolding open_ledger append sum_deltas ◌+ℤ◌ total balance balance_locked entries_balance count_all
    count_for is_for
open_ledger-IsSound stamp = record {
  persisted = refl;
  balanced = refl;
  solvent = omega arith;
  reserved = refl;
  closed_once = λ j. omega arith;
  escrowed_once = λ j. omega arith;
}

-- Every ledger that a process can reach from a first start, by any calls of the four methods in any
-- order and by restarts from its file, where no worker or requester is named `escrow`: is what its
-- file holds; sums to zero over all accounts; has a spendable balance that is not negative; holds
-- in escrow one credit for each escrow record that no settlement or refund has closed; and holds
-- for each job at most one escrow, and no more settlements and refunds than escrows.
pub Reachable-IsSound : {l : Ledger} → Reachable l → IsSound l
Reachable-IsSound (opened stamp e) = subst IsSound (sym e) (open_ledger-IsSound stamp)
Reachable-IsSound (next r step) = Step-IsSound step (Reachable-IsSound r)
