-- ===== src/Ledger/Jobs.antt =====
-- The records of a ledger, job by job: if no job has more closings than escrows, all have not.
use mathlib.Core.Path.{subst}
use mathlib.Core.Option.{some-injective}
use agent_torrent.Prelude.{
  ℕ, zero, suc, String, ◌≡◌, refl, sym, ◌∙◌, Bool, true, false, ◌&&◌, ◌||◌, not, List, [], ◌∷◌,
  Option, none, some, text_eq, eq_iff, eq_refl, arith, ◌+◌, ◌≤◌, if◌then◌else◌, Bool-cases, inl,
  inr, Option-cases, ap,
}
use agent_torrent.Py.{is_some}
use agent_torrent.Ledger.{Record, is_for}
use agent_torrent.Ledger.Balance.{count_all, count_for}

-- A record that closes an escrow names its job.
abbrev pub is_named : Record → Bool
is_named r = is_some r.job_id || (not (text_eq r.kind "settle") && not (text_eq r.kind "refund"))

abbrev pub AllNamed : List Record → Type 0
AllNamed [] = Unit {0}
AllNamed (r ∷ records) = (is_named r ≡ true) × AllNamed records

abbrev pub size : List Record → ℕ
size [] = 0
size (r ∷ records) = suc (size records)

-- The records of the other jobs.
unfoldable pub without : String → List Record → List Record
without job_id [] = []
without job_id (r ∷ records) =
    let rest = without job_id records in if is_for job_id r then rest else r ∷ rest

pub count_all-split :
    (k j : String) (records : List Record)
    → count_all k records ≡ count_for k j records + count_all k (without j records)
unfolding count_all count_for without
count_all-split k j [] = refl
count_all-split k j (r ∷ records) = ground (arith, count_all-split k j records)

size-without : (j : String) (records : List Record) → size (without j records) ≤ size records
unfolding without
size-without j [] = omega arith
size-without j (r ∷ records) = ground (arith, size-without j records)

pub without-AllNamed :
    (j : String) (records : List Record) → AllNamed records → AllNamed (without j records)
unfolding without
without-AllNamed j [] named = tt
without-AllNamed j (r ∷ records) (n, ns) =
    let rest = without-AllNamed j records ns in
    elim (Bool-cases (is_for j r)) [
      | inl same ↦
          subst (λ b. AllNamed (if b then without j records else r ∷ without j records)) (sym same)
            rest
      | inr other ↦
          subst (λ b. AllNamed (if b then without j records else r ∷ without j records)) (sym other)
            (n, rest)
    ]

named_job :
    (o : Option String) (j : String)
    → (elim o [ none ↦ false | some t ↦ text_eq t j ]) ≡ true
    → o ≡ some j
named_job none j h = absurd (cc)
named_job (some t) j h = ap some ((eq_iff t j).0 h)

is_for-job : (j : String) (r : Record) → is_for j r ≡ true → r.job_id ≡ some j
unfolding is_for
is_for-job j r = named_job r.job_id j

-- A record is of one job at most.
is_for-other :
    (i j : String) (r : Record) → text_eq i j ≡ false → is_for j r ≡ true → is_for i r ≡ false
is_for-other i j r ne h = elim (Bool-cases (is_for i r)) [
  | inl both ↦
      let same = some-injective i j (sym (is_for-job i r both) ∙ is_for-job j r h) in
      absurd (ground (arith, (eq_iff i j).1 same, ne))
  | inr other ↦ other
]

count_for-without_self :
    (k j : String) (records : List Record) → count_for k j (without j records) ≡ 0
unfolding count_for without
count_for-without_self k j [] = refl
count_for-without_self k j (r ∷ records) = ground (arith, count_for-without_self k j records)

pub count_for-without_ne :
    (k i j : String) (records : List Record)
    → text_eq i j ≡ false
    → count_for k i (without j records) ≡ count_for k i records
unfolding count_for without
count_for-without_ne k i j [] ne = refl
count_for-without_ne k i j (r ∷ records) ne =
    ground (arith, count_for-without_ne k i j records, is_for-other i j r ne)

-- No job has more closings than escrows.
abbrev pub IsClosedOnce : List Record → Type 0
IsClosedOnce records =
    (j : String)
    → count_for "settle" j records + count_for "refund" j records ≤ count_for "escrow" j records

pub without-IsClosedOnce :
    (j : String) (records : List Record) → IsClosedOnce records → IsClosedOnce (without j records)
without-IsClosedOnce j records once i = elim (Bool-cases (text_eq i j)) [
  | inl same ↦
      subst
        (λ x.
          count_for "settle" x (without j records) + count_for "refund" x (without j records)
          ≤ count_for "escrow" x (without j records))
        (sym ((eq_iff i j).0 same))
        (omega (
          arith,
          count_for-without_self "settle" j records,
          count_for-without_self "refund" j records,
        ))
  | inr ne ↦ omega (
    arith,
    once i,
    count_for-without_ne "settle" i j records ne,
    count_for-without_ne "refund" i j records ne,
    count_for-without_ne "escrow" i j records ne,
  )
]

module _ (r : Record) (records : List Record) (unnamed : r.job_id ≡ none) where
  count_for-unnamed : (k j : String) → count_for k j (r ∷ records) ≡ count_for k j records
  unfolding count_for is_for
  count_for-unnamed k j = rw (unnamed, is_for) (omega arith)

  unnamed-IsClosedOnce : IsClosedOnce (r ∷ records) → IsClosedOnce records
  unnamed-IsClosedOnce once j = omega (
    arith,
    once j,
    count_for-unnamed "settle" j,
    count_for-unnamed "refund" j,
    count_for-unnamed "escrow" j,
  )

  unnamed-kind :
      is_named r ≡ true → (text_eq r.kind "settle" ≡ false) × (text_eq r.kind "refund" ≡ false)
  unnamed-kind named = ground (arith, unnamed)

size-without_named :
    (j : String) (r : Record) (records : List Record)
    → r.job_id ≡ some j
    → size (without j (r ∷ records)) ≤ size records
unfolding without is_for
size-without_named j r records e = rw (e, is_for, eq_refl j) (size-without j records)

-- The fuel is the number of records.
pub closings_covered :
    (n : ℕ) (records : List Record)
    → size records ≤ n
    → AllNamed records
    → IsClosedOnce records
    → count_all "settle" records + count_all "refund" records ≤ count_all "escrow" records
unfolding count_all
closings_covered n [] short named once = omega arith
closings_covered zero (r ∷ records) short named once = absurd (omega arith)
closings_covered (suc n) (r ∷ records) short (named, others) once = elim (Option-cases r.job_id) [
  | inl e ↦
      let rest =
        closings_covered n records (omega arith) others (unnamed-IsClosedOnce r records e once) in
      let (settles, refunds) = unnamed-kind r records e named in
      ground (arith, rest, settles, refunds)
  | inr (j, e) ↦
      let all = r ∷ records in
      let rest =
        closings_covered n (without j all) (omega (arith, size-without_named j r records e))
          (without-AllNamed j all (named, others)) (without-IsClosedOnce j all once) in
      omega (
        arith,
        rest,
        once j,
        count_all-split "settle" j all,
        count_all-split "refund" j all,
        count_all-split "escrow" j all,
      )
]
