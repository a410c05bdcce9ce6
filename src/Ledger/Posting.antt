-- ===== src/Ledger/Posting.antt =====
-- What one more record adds to the sums and the counts.
use agent_torrent.Prelude.{
  String, ◌≡◌, ap, ◌∙◌, Bool, false, ◌&&◌, text_eq, arith, ◌+◌, if◌then◌else◌, ℤ, pos, ◌+ℤ◌,
  int_laws,
}
use agent_torrent.Py.{Error, Result, ok, err}
use agent_torrent.Ledger.{Ledger, sum_deltas, is_for}
use agent_torrent.Ledger.Balance.{
  total, count_all, count_for, total-append, count_all-append, count_for-append,
}
use agent_torrent.Ledger.Methods.{Posted, PostsOrRaises}

plus_zero : (a : ℤ) → a +ℤ pos 0 ≡ a
plus_zero a = omega int_laws

module _ {kind job_id src dst : String} {l l' : Ledger} (p : Posted kind job_id src dst l l') where
  pub Posted-total : total l'.records ≡ total l.records
  unfolding sum_deltas ◌+ℤ◌
  Posted-total =
      ap total p.appended
      ∙ total-append l.records p.new
      ∙ ap (λ es. total l.records +ℤ sum_deltas es) p.moves
      ∙ plus_zero (total l.records)

  pub Posted-count_all :
      (k : String)
      → count_all k l'.records ≡ count_all k l.records + (if text_eq kind k then 1 else 0)
  Posted-count_all k =
      ap (count_all k) p.appended
      ∙ count_all-append k l.records p.new
      ∙ ap (λ t. count_all k l.records + (if text_eq t k then 1 else 0)) p.of_kind

  of_this_kind :
      (k j : String)
      → (is_for j p.new && text_eq p.new.kind k) ≡ (text_eq job_id j && text_eq kind k)
  unfolding is_for
  of_this_kind k j = rw (p.of_job, p.of_kind)

  pub Posted-count_for :
      (k j : String)
      → count_for k j l'.records
        ≡ count_for k j l.records + (if text_eq job_id j && text_eq kind k then 1 else 0)
  Posted-count_for k j =
      ap (count_for k j) p.appended
      ∙ count_for-append k j l.records p.new
      ∙ ap (λ t. count_for k j l.records + (if t then 1 else 0)) (of_this_kind k j)

pub Posted-of_ok :
    (kind job_id src dst : String) (l : Ledger) (out : Result (Unit {0}) × Ledger)
    → PostsOrRaises kind job_id src dst l out
    → out.0 ≡ ok tt
    → Posted kind job_id src dst l out.1
unfolding PostsOrRaises
Posted-of_ok kind job_id src dst l (ok _, l') h e = h
Posted-of_ok kind job_id src dst l (err _, l') h e = cc

pub unchanged_of_err :
    (kind job_id src dst : String) (l : Ledger) (out : Result (Unit {0}) × Ledger) (e : Error)
    → PostsOrRaises kind job_id src dst l out
    → out.0 ≡ err e
    → out.1 ≡ l
unfolding PostsOrRaises
unchanged_of_err kind job_id src dst l (ok _, l') e h q = cc
unchanged_of_err kind job_id src dst l (err _, l') e h q = h

and_false : (b : Bool) → (b && false) ≡ false
and_false b = ground arith

-- A record of another kind leaves the count for every job.
pub Posted-count_for_ne :
    {kind job_id src dst : String} {l l' : Ledger} (k j : String)
    → Posted kind job_id src dst l l'
    → text_eq kind k ≡ false
    → count_for k j l'.records ≡ count_for k j l.records
Posted-count_for_ne {job_id = job_id} k j p ne =
    rw (Posted-count_for p k j, ne, and_false (text_eq job_id j)) (omega arith)
