-- ===== src/Prelude/Lists.antt =====
-- Lists: their length over the native numbers, and what holds of every element.
use Prim.Native.Nat.{ℕ, suc}
use mathlib.Core.List.{List, [], ◌∷◌, ◌++◌}

abbrev pub length {ℓ} : {A : Type ℓ} → List A → ℕ
length [] = 0
length (x ∷ xs) = suc (length xs)

abbrev pub All : {A : Type 0} → (A → Type 0) → List A → Type 0
All P [] = Unit {0}
All P (x ∷ xs) = P x × All P xs

pub All-map :
    {A : Type 0} (P Q : A → Type 0) (xs : List A) → ((x : A) → P x → Q x) → All P xs → All Q xs
All-map P Q [] f h = tt
All-map P Q (x ∷ xs) f (h, rest) = (f x h, All-map P Q xs f rest)

pub All-zip :
    {A : Type 0} (P Q R : A → Type 0) (xs : List A)
    → ((x : A) → P x → Q x → R x)
    → All P xs
    → All Q xs
    → All R xs
All-zip P Q R [] f h k = tt
All-zip P Q R (x ∷ xs) f (h, hs) (k, ks) = (f x h k, All-zip P Q R xs f hs ks)

pub All-intro : {A : Type 0} (P : A → Type 0) (xs : List A) → ((x : A) → P x) → All P xs
All-intro P [] f = tt
All-intro P (x ∷ xs) f = (f x, All-intro P xs f)

pub All-append :
    {A : Type 0} (P : A → Type 0) (xs : List A) (x : A) → All P xs → P x → All P (xs ++ x ∷ [])
All-append P [] x h p = (p, tt)
All-append P (y ∷ xs) x (h, hs) p = (h, All-append P xs x hs p)
