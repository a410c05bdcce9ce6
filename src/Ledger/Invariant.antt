-- ===== src/Ledger/Invariant.antt =====
-- The invariant of the ledger, and that each kind of record keeps it.
use agent_torrent.Prelude.{
  ℕ, String, ◌≡◌, refl, ap, ◌∙◌, false, text_eq, arith, ◌+◌, ◌≤◌, if◌then◌else◌, pos, ◌+ℤ◌, ◌≤ℤ◌,
  int_laws, pos_part, neg_part, eq_iff, some, Bool-cases, inl, inr,
}
use mathlib.Core.Path.{subst}
use agent_torrent.Ledger.{Ledger, job_price, balance}
use agent_torrent.Ledger.Balance.{total, count_all, count_for}
use agent_torrent.Ledger.Methods.{Posted, IsOpen, moved, Posted-balance}
use agent_torrent.Ledger.Posting.{
  Posted-total, Posted-count_all, Posted-count_for, Posted-count_for_ne,
}

-- How many escrows of all jobs, or of one, have been settled or refunded.
abbrev pub all_closings : Ledger → ℕ
all_closings l = count_all "settle" l.records + count_all "refund" l.records

abbrev pub closings : String → Ledger → ℕ
closings job_id l = count_for "settle" job_id l.records + count_for "refund" job_id l.records

pub record IsSound (l : Ledger) : Type 0 where
  pub persisted : l.file ≡ some l.records
  pub balanced : total l.records ≡ pos 0
  pub solvent : pos 0 ≤ℤ balance "self" l
  pub reserved : balance "escrow" l +ℤ pos (all_closings l) ≡ pos (count_all "escrow" l.records)
  pub closed_once : (job_id : String) → closings job_id l ≤ count_for "escrow" job_id l.records
  pub escrowed_once : (job_id : String) → count_for "escrow" job_id l.records ≤ 1

-- A credit enters an account: its balance does not fall.
gained : (d a : String) → pos 0 ≤ℤ (if text_eq d a then pos 1 else pos 0)
gained d a = ground arith

-- A record that closes an open job, whoever is credited, keeps the invariant.
module _ {kind job_id dst : String} {l l' : Ledger} (p : Posted kind job_id "escrow" dst l l')
    (other : text_eq dst "escrow" ≡ false) (is_open : IsOpen job_id l) (s : IsSound l) where
  closing-IsSound :
      text_eq kind "escrow" ≡ false
      → all_closings l' ≡ all_closings l + 1
      → ((j : String) → closings j l' ≡ closings j l + (if text_eq job_id j then 1 else 0))
      → IsSound l'
  closing-IsSound kept more at_job = record {
    persisted = p.written;
    balanced = Posted-total p ∙ s.balanced;
    solvent =
        rw (Posted-balance kind job_id "escrow" dst "self" p)
          (omega (int_laws, s.solvent, gained dst "self"));
    reserved =
        rw
          (
            Posted-balance kind job_id "escrow" dst "escrow" p,
            other,
            Posted-count_all p "escrow",
            kept,
            more,
          )
          (omega (int_laws, s.reserved, ap pos_part s.reserved, ap neg_part s.reserved));
    closed_once = λ j. elim (Bool-cases (text_eq job_id j)) [
      | inl same ↦
          let opened_j = subst (λ i. IsOpen i l) ((eq_iff job_id j).0 same) is_open in
          rw (at_job j, Posted-count_for_ne "escrow" j p kept, same)
            (omega (arith, opened_j.escrowed, opened_j.unsettled, opened_j.unrefunded))
      | inr ne ↦
          rw (at_job j, Posted-count_for_ne "escrow" j p kept, ne) (omega (arith, s.closed_once j))
    ];
    escrowed_once = λ j. rw (Posted-count_for_ne "escrow" j p kept) (s.escrowed_once j);
  }

-- The counts that a closing record of either kind moves.
pub settle-IsSound :
    {job_id dst : String} {l l' : Ledger}
    → Posted "settle" job_id "escrow" dst l l'
    → text_eq dst "escrow" ≡ false
    → IsOpen job_id l
    → IsSound l
    → IsSound l'
settle-IsSound {job_id} p other is_open s =
    closing-IsSound p other is_open s refl
      (rw (Posted-count_all p "settle", Posted-count_all p "refund") (omega arith))
      (λ j.
        rw (Posted-count_for p "settle" j, Posted-count_for_ne "refund" j p refl) (ground arith))

pub refund-IsSound :
    {job_id : String} {l l' : Ledger}
    → Posted "refund" job_id "escrow" "self" l l'
    → IsOpen job_id l
    → IsSound l
    → IsSound l'
refund-IsSound {job_id} p is_open s =
    closing-IsSound p refl is_open s refl
      (rw (Posted-count_all p "settle", Posted-count_all p "refund") (omega arith))
      (λ j.
        rw (Posted-count_for p "refund" j, Posted-count_for_ne "settle" j p refl) (ground arith))

pub escrow-IsSound :
    {job_id : String} {l l' : Ledger}
    → Posted "escrow" job_id "self" "escrow" l l'
    → pos job_price ≤ℤ balance "self" l
    → count_for "escrow" job_id l.records ≡ 0
    → IsSound l
    → IsSound l'
escrow-IsSound {job_id} {l} p rich new s = record {
  persisted = p.written;
  balanced = Posted-total p ∙ s.balanced;
  solvent = rw (Posted-balance _ _ _ _ "self" p) (omega (int_laws, rich));
  reserved =
      rw
        (
          Posted-balance _ _ _ _ "escrow" p,
          Posted-count_all p "settle",
          Posted-count_all p "refund",
          Posted-count_all p "escrow",
        )
        (omega (int_laws, ap pos_part s.reserved, ap neg_part s.reserved));
  closed_once = λ j.
      rw
        (
          Posted-count_for_ne "settle" j p refl,
          Posted-count_for_ne "refund" j p refl,
          Posted-count_for p "escrow" j,
        )
        (omega (arith, s.closed_once j));
  escrowed_once = λ j. rw (Posted-count_for p "escrow" j) (elim (Bool-cases (text_eq job_id j)) [
    | inl same ↦
        let none_yet =
          subst (λ i. count_for "escrow" i l.records ≡ 0) ((eq_iff job_id j).0 same) new in
        rw (same, none_yet) (omega arith)
    | inr ne ↦ rw ne (omega (arith, s.escrowed_once j))
  ]);
}

-- The worker's credit; a debit of the account `self` itself is undone by it.
pub moved-gain : (requester : String) → pos 0 ≤ℤ moved requester "self" "self"
unfolding ◌+ℤ◌
moved-gain requester = ground arith

pub work-IsSound :
    {job_id requester : String} {l l' : Ledger}
    → Posted "work" job_id requester "self" l l'
    → text_eq requester "escrow" ≡ false
    → IsSound l
    → IsSound l'
work-IsSound {requester = requester} p other s = record {
  persisted = p.written;
  balanced = Posted-total p ∙ s.balanced;
  solvent =
      rw (Posted-balance _ _ _ _ "self" p) (omega (int_laws, s.solvent, moved-gain requester));
  reserved =
      rw
        (
          Posted-balance _ _ _ _ "escrow" p,
          other,
          Posted-count_all p "settle",
          Posted-count_all p "refund",
          Posted-count_all p "escrow",
        )
        (omega (int_laws, ap pos_part s.reserved, ap neg_part s.reserved));
  closed_once = λ j.
      rw
        (
          Posted-count_for_ne "settle" j p refl,
          Posted-count_for_ne "refund" j p refl,
          Posted-count_for_ne "escrow" j p refl,
        )
        (s.closed_once j);
  escrowed_once = λ j. rw (Posted-count_for_ne "escrow" j p refl) (s.escrowed_once j);
}
