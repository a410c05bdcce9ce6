-- ===== src/Ledger/Balance.antt =====
-- Balances and job states of a list of records, and how a new record at its end moves them.
use agent_torrent.Prelude.{
  ℕ, ltb, String, ◌≡◌, refl, true, false, ◌&&◌, List, [], ◌∷◌, ◌++◌, text_eq, arith, ◌+◌,
  if◌then◌else◌, ℤ, pos, ◌+ℤ◌, int_laws,
}
use agent_torrent.Ledger.{
  Record, sum_deltas, entries_balance, balance_locked, is_for, job_records, has_kind, is_empty,
}

-- The sum of every delta in the ledger, over all accounts.
unfoldable pub total : List Record → ℤ
total [] = pos 0
total (r ∷ records) = sum_deltas r.entries +ℤ total records

-- How many records of a kind the ledger holds, and how many of them for one job.
unfoldable pub count_all : String → List Record → ℕ
count_all kind [] = 0
count_all kind (r ∷ records) = (if text_eq r.kind kind then 1 else 0) + count_all kind records

unfoldable pub count_for : String → String → List Record → ℕ
count_for kind job_id [] = 0
count_for kind job_id (r ∷ records) =
    (if is_for job_id r && text_eq r.kind kind then 1 else 0) + count_for kind job_id records

pub balance-append :
    (a : String) (xs : List Record) (r : Record)
    → balance_locked a (xs ++ r ∷ []) ≡ balance_locked a xs +ℤ entries_balance a r.entries
unfolding balance_locked
balance-append a [] r = omega int_laws
balance-append a (x ∷ xs) r = rw (balance-append a xs r) (omega int_laws)

pub total-append :
    (xs : List Record) (r : Record) → total (xs ++ r ∷ []) ≡ total xs +ℤ sum_deltas r.entries
unfolding total
total-append [] r = omega int_laws
total-append (x ∷ xs) r = rw (total-append xs r) (omega int_laws)

pub count_all-append :
    (k : String) (xs : List Record) (r : Record)
    → count_all k (xs ++ r ∷ []) ≡ count_all k xs + (if text_eq r.kind k then 1 else 0)
unfolding count_all
count_all-append k [] r = omega arith
count_all-append k (x ∷ xs) r = omega (arith, count_all-append k xs r)

pub count_for-append :
    (k j : String) (xs : List Record) (r : Record)
    → count_for k j (xs ++ r ∷ [])
      ≡ count_for k j xs + (if is_for j r && text_eq r.kind k then 1 else 0)
unfolding count_for
count_for-append k j [] r = omega arith
count_for-append k j (x ∷ xs) r = omega (arith, count_for-append k j xs r)

-- The test of the code and the count agree.
pub has_kind-count :
    (k j : String) (xs : List Record)
    → has_kind k (job_records j xs) ≡ (if ltb 0 (count_for k j xs) then true else false)
unfolding has_kind job_records count_for
has_kind-count k j [] = refl
has_kind-count k j (x ∷ xs) = ground (arith, has_kind-count k j xs)

-- With no record for the job there is none of any kind.
pub is_empty-count :
    (k j : String) (xs : List Record) → is_empty (job_records j xs) ≡ true → count_for k j xs ≡ 0
unfolding job_records count_for
is_empty-count k j [] h = refl
is_empty-count k j (x ∷ xs) h = ground (arith, is_empty-count k j xs)
