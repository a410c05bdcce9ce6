-- ===== src/Peer/Threads/Tasks.antt =====
-- Lists of the calls that wait: what holds of each of them, and that no two are for one job.
use agent_torrent.Prelude.{
  ℕ, zero, suc, ◌≡◌, false, List, [], ◌∷◌, Option, none, some, text_eq, All, text_eq_sym,
}
use agent_torrent.Peer.Threads.{Task, past, pick}

-- What holds of the element that is found, and the others.
abbrev pub Found : {A : Type 0} → (A → List A → Type 0) → Option (A × List A) → Type 0
Found Q none = Unit {0}
Found Q (some (y, ys)) = Q y ys

past-All :
    {A : Type 0} (P : A → Type 0) (x : A) (o : Option (A × List A))
    → P x
    → Found (λ y ys. P y × All P ys) o
    → Found (λ y ys. P y × All P ys) (past x o)
unfolding past
past-All P x none p h = tt
past-All P x (some (y, ys)) p (h, hs) = (h, (p, hs))

pub pick-All :
    {A : Type 0} (P : A → Type 0) (n : ℕ) (xs : List A)
    → All P xs
    → Found (λ y ys. P y × All P ys) (pick n xs)
unfolding pick
pick-All P n [] h = tt
pick-All P zero (x ∷ xs) (h, hs) = (h, hs)
pick-All P (suc n) (x ∷ xs) (h, hs) = past-All P x (pick n xs) h (pick-All P n xs hs)

-- The tasks are for two jobs.
abbrev pub IsOther : Task → Task → Type 0
IsOther t u = text_eq t.draws.job_id u.draws.job_id ≡ false

abbrev pub Distinct : List Task → Type 0
Distinct [] = Unit {0}
Distinct (t ∷ ts) = All (IsOther t) ts × Distinct ts

-- The task that is found, and the others.
abbrev pub IsOne : Task → List Task → Type 0
IsOne t ts = All (IsOther t) ts × Distinct ts

past-Distinct :
    (x : Task) (o : Option (Task × List Task))
    → Found (λ y ys. IsOther x y × All (IsOther x) ys) o
    → Found IsOne o
    → Found IsOne (past x o)
unfolding past
past-Distinct x none h k = tt
past-Distinct x (some (y, ys)) (h, hs) (k, ks) =
    ((text_eq_sym x.draws.job_id y.draws.job_id h, k), (hs, ks))

pub pick-Distinct : (n : ℕ) (ts : List Task) → Distinct ts → Found IsOne (pick n ts)
unfolding pick
pick-Distinct n [] h = tt
pick-Distinct zero (t ∷ ts) h = h
pick-Distinct (suc n) (t ∷ ts) (h, hs) =
    past-Distinct t (pick n ts) (pick-All (IsOther t) n ts h) (pick-Distinct n ts hs)
