-- ===== src/Ledger/Bounds.antt =====
-- How much a peer can have to spend or in escrow.
use agent_torrent.Prelude.{
  String, ◌≡◌, refl, sym, text_eq, arith, ◌+◌, if◌then◌else◌, pos, ◌+ℤ◌, ◌≤ℤ◌, int_laws, false,
  none, ◌&&◌, Bool-cases, inl, inr, eq_iff,
}
use mathlib.Core.Path.{subst}
use agent_torrent.Ledger.{
  Ledger, Stamp, balance, open_ledger, opening_balance, append, sum_deltas, balance_locked,
  entries_balance,
}
use agent_torrent.Ledger.Balance.{count_all}
use agent_torrent.Ledger.Methods.{moved, Posted-balance}
use agent_torrent.Ledger.Posting.{Posted-count_all}
use agent_torrent.Ledger.Invariant.{IsSound}
use agent_torrent.Ledger.Moves.{Move, holding, paying, returning, earning, step_kept}
use agent_torrent.Ledger.Sound.{Step, Reachable, opened, next, Reachable-IsSound}
use agent_torrent.Ledger.Held.{Reachable-escrow}

-- The spendable balance and the credits in escrow are covered by the opening balance and the jobs done.
abbrev pub IsCovered : Ledger → Type 0
IsCovered l =
    balance "self" l +ℤ balance "escrow" l ≤ℤ pos (opening_balance + count_all "work" l.records)

within_escrow : moved "self" "escrow" "self" +ℤ moved "self" "escrow" "escrow" ≤ℤ pos 0
unfolding ◌+ℤ◌
within_escrow = ground arith

one_account : (dst : String) → (text_eq dst "self" && text_eq dst "escrow") ≡ false
one_account dst = elim (Bool-cases (text_eq dst "self")) [
  | inl same ↦
      subst (λ x. (text_eq x "self" && text_eq x "escrow") ≡ false)
        (sym ((eq_iff dst "self").0 same)) refl
  | inr other ↦ rw other refl
]

out_of_escrow : (dst : String) → moved "escrow" dst "self" +ℤ moved "escrow" dst "escrow" ≤ℤ pos 0
unfolding ◌+ℤ◌
out_of_escrow dst = ground (arith, one_account dst)

to_self : (src : String) → moved src "self" "self" +ℤ moved src "self" "escrow" ≤ℤ pos 1
unfolding ◌+ℤ◌
to_self src = ground arith

-- No movement brings more to the two accounts than a credit for work.
Move-gain :
    {kind src dst : String}
    → Move kind src dst
    → moved src dst "self" +ℤ moved src dst "escrow" ≤ℤ pos (if text_eq kind "work" then 1 else 0)
Move-gain holding = within_escrow
Move-gain (paying worker) = out_of_escrow worker
Move-gain returning = out_of_escrow "self"
Move-gain (earning requester) = to_self requester

Step-IsCovered : {l l' : Ledger} → IsSound l → Step l l' → IsCovered l → IsCovered l'
Step-IsCovered s step covered =
    step_kept IsCovered covered
      (λ kind job_id src dst m move p.
        rw
          (
            Posted-balance kind job_id src dst "self" p,
            Posted-balance kind job_id src dst "escrow" p,
            Posted-count_all p "work",
          )
          (omega (int_laws, covered, Move-gain move)))
      s step

open_ledger-IsCovered : (stamp : Stamp) → IsCovered (open_ledger stamp none)
unfolding open_ledger append sum_deltas ◌+ℤ◌ balance balance_locked entries_balance count_all
open_ledger-IsCovered stamp = omega arith

Reachable-IsCovered : {l : Ledger} → Reachable l → IsCovered l
Reachable-IsCovered (opened stamp e) = subst IsCovered (sym e) (open_ledger-IsCovered stamp)
Reachable-IsCovered (next r step) =
    Step-IsCovered (Reachable-IsSound r) step (Reachable-IsCovered r)

-- In every ledger that a process can reach, neither the spendable balance nor the escrow account is
-- negative, and their sum is at most the opening balance and one credit for each record of work
-- done.
pub Reachable-IsBounded :
    {l : Ledger}
    → Reachable l
    → (pos 0 ≤ℤ balance "self" l)
      × (pos 0 ≤ℤ balance "escrow" l)
      × (balance "self" l +ℤ balance "escrow" l
          ≤ℤ pos (opening_balance + count_all "work" l.records))
Reachable-IsBounded r = ((Reachable-IsSound r).solvent, Reachable-escrow r, Reachable-IsCovered r)
