-- ===== src/Ledger/Accounts.antt =====
-- The accounts over the life of one job: an escrow, then its settlement or its refund.
use agent_torrent.Prelude.{String, ◌≡◌, ap, ◌∙◌, arith, ℤ, pos, ◌+ℤ◌, int_laws, eq_refl}
use agent_torrent.Py.{ok}
use agent_torrent.Ledger.{Ledger, Stamp, escrow, settle, refund, balance}
use agent_torrent.Ledger.Balance.{is_empty-count}
use agent_torrent.Ledger.Methods.{
  Posted, IsOpen, moved, Posted-balance, escrow-Posts, settle-Posts, refund-Posts,
  escrow_succeeds_iff, settle_succeeds_iff, refund_succeeds_iff,
}
use agent_torrent.Ledger.Posting.{Posted-of_ok, Posted-count_for}

module _ (job_id worker : String) (stamp : Stamp) (l : Ledger)
    (done : (escrow job_id worker stamp l).0 ≡ ok tt) where
  escrow-Posted : Posted "escrow" job_id "self" "escrow" l (escrow job_id worker stamp l).1
  escrow-Posted = Posted-of_ok _ _ _ _ l _ (escrow-Posts job_id worker stamp l) done

  -- A job is open once its escrow has gone through.
  pub escrow-IsOpen : IsOpen job_id (escrow job_id worker stamp l).1
  escrow-IsOpen =
      let new = ((escrow_succeeds_iff job_id worker stamp l).0 done).1 in
      let p = escrow-Posted in
      record {
        escrowed = rw (Posted-count_for p "escrow" job_id, eq_refl job_id) (omega arith);
        unsettled =
            rw (Posted-count_for p "settle" job_id, eq_refl job_id)
              (omega (arith, is_empty-count "settle" job_id l.records (rw new)));
        unrefunded =
            rw (Posted-count_for p "refund" job_id, eq_refl job_id)
              (omega (arith, is_empty-count "refund" job_id l.records (rw new)));
      }

  pub balance-escrow :
      (a : String)
      → balance a (escrow job_id worker stamp l).1 ≡ balance a l +ℤ moved "self" "escrow" a
  balance-escrow a = Posted-balance _ _ _ _ a escrow-Posted

-- The two movements of a job make one, or cancel.
moved_through :
    (dst a : String) → moved "self" "escrow" a +ℤ moved "escrow" dst a ≡ moved "self" dst a
unfolding ◌+ℤ◌
moved_through dst a = ground arith

moved_back : (a : String) → moved "self" "escrow" a +ℤ moved "escrow" "self" a ≡ pos 0
unfolding ◌+ℤ◌
moved_back a = ground arith

sum_regroup : (x y z : ℤ) → x +ℤ y +ℤ z ≡ x +ℤ (y +ℤ z)
sum_regroup x y z = omega int_laws

sum_zero : (x : ℤ) → x +ℤ pos 0 ≡ x
sum_zero x = omega int_laws

module _ (job_id worker : String) (stamp : Stamp) (l held : Ledger)
    (escrowed : (a : String) → balance a held ≡ balance a l +ℤ moved "self" "escrow" a)
    (is_open : IsOpen job_id held) where
  pub balance-settle :
      (a : String)
      → balance a (settle job_id worker stamp held).1 ≡ balance a l +ℤ moved "self" worker a
  balance-settle a =
      let done = (settle_succeeds_iff job_id worker stamp held).1 is_open in
      let p = Posted-of_ok _ _ _ _ held _ (settle-Posts job_id worker stamp held) done in
      Posted-balance _ _ _ _ a p
      ∙ ap (λ b. b +ℤ moved "escrow" worker a) (escrowed a)
      ∙ sum_regroup (balance a l) (moved "self" "escrow" a) (moved "escrow" worker a)
      ∙ ap (λ m. balance a l +ℤ m) (moved_through worker a)

  pub balance-refund : (a : String) → balance a (refund job_id stamp held).1 ≡ balance a l
  balance-refund a =
      let done = (refund_succeeds_iff job_id stamp held).1 is_open in
      let p = Posted-of_ok _ _ _ _ held _ (refund-Posts job_id stamp held) done in
      Posted-balance _ _ _ _ a p
      ∙ ap (λ b. b +ℤ moved "escrow" "self" a) (escrowed a)
      ∙ sum_regroup (balance a l) (moved "self" "escrow" a) (moved "escrow" "self" a)
      ∙ ap (λ m. balance a l +ℤ m) (moved_back a)
      ∙ sum_zero (balance a l)
