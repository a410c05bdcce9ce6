-- ===== src/Ledger/Held.antt =====
-- That the escrow account is never overdrawn.
use mathlib.Core.Path.{subst}
use agent_torrent.Prelude.{
  ◌≡◌, refl, sym, true, List, [], ◌∷◌, ◌++◌, none, arith, ◌≤◌, pos, ◌≤ℤ◌, ◌+ℤ◌, int_laws, ap,
  pos_part, neg_part,
}
use agent_torrent.Ledger.{Record, Ledger, Stamp, balance, open_ledger, append, sum_deltas}
use agent_torrent.Ledger.Balance.{count_all}
use agent_torrent.Ledger.Invariant.{IsSound, all_closings}
use agent_torrent.Ledger.Moves.{step_kept}
use agent_torrent.Ledger.Sound.{Step, Reachable, opened, next, Reachable-IsSound}
use agent_torrent.Ledger.Jobs.{is_named, AllNamed, size, closings_covered}

-- Every ledger that the methods reach names the jobs of its closings.
AllNamed-append :
    (records : List Record) (r : Record)
    → is_named r ≡ true
    → AllNamed records
    → AllNamed (records ++ r ∷ [])
AllNamed-append [] r named others = (named, tt)
AllNamed-append (x ∷ records) r named (first, others) =
    (first, AllNamed-append records r named others)

abbrev pub Named : Ledger → Type 0
Named l = AllNamed l.records

Step-Named : {l l' : Ledger} → IsSound l → Step l l' → Named l → Named l'
Step-Named {l} s step named =
    step_kept Named named
      (λ kind job_id src dst m move p.
        subst AllNamed (sym p.appended) (AllNamed-append l.records p.new (rw p.of_job refl) named))
      s step

open_ledger-Named : (stamp : Stamp) → Named (open_ledger stamp none)
unfolding open_ledger append sum_deltas ◌+ℤ◌
open_ledger-Named stamp = (refl, tt)

pub Reachable-Named : {l : Ledger} → Reachable l → Named l
Reachable-Named (opened stamp e) = subst Named (sym e) (open_ledger-Named stamp)
Reachable-Named (next r step) = Step-Named (Reachable-IsSound r) step (Reachable-Named r)

pub Reachable-closings : {l : Ledger} → Reachable l → all_closings l ≤ count_all "escrow" l.records
Reachable-closings {l} r =
    closings_covered (size l.records) l.records (omega arith) (Reachable-Named r)
      (Reachable-IsSound r).closed_once

-- The escrow account is never overdrawn.
pub Reachable-escrow : {l : Ledger} → Reachable l → pos 0 ≤ℤ balance "escrow" l
Reachable-escrow r =
    let s = Reachable-IsSound r in
    omega (int_laws, ap pos_part s.reserved, ap neg_part s.reserved, Reachable-closings r)
