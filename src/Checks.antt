-- ===== src/Checks.antt =====
-- What the validators of jobs and manifests share: a run of checks that collects problems.
use agent_torrent.Prelude.{
  ℕ, zero, suc, String, ◌≡◌, refl, Bool, true, false, List, [], ◌∷◌, ◌++◌, pos, ◌<◌, arith,
  if◌then◌else◌,
}
use agent_torrent.Py.{Value, int, is_positive}

-- One check of a validator: the problem that it appends, if any.
unfoldable pub problem_unless : Bool → String → List String
problem_unless passed problem = if passed then [] else problem ∷ []

pub positive_int : (v : Value) → is_positive v ≡ true → (n : ℕ) × (v ≡ int (pos n)) × (0 < n)
positive_int (int (pos (suc n))) h = (suc n, refl, omega arith)
positive_int _ h = cc

pub is_positive-pos : (n : ℕ) → 0 < n → is_positive (int (pos n)) ≡ true
is_positive-pos zero h = absurd (omega arith)
is_positive-pos (suc n) h = refl

-- A run of checks appends nothing exactly when its first check passes and the rest append nothing.
pub passed :
    (b : Bool) (s : String) (rest : List String)
    → problem_unless b s ++ rest ≡ []
    → (b ≡ true) × (rest ≡ [])
unfolding problem_unless
passed true s rest h = (refl, h)
passed false s rest h = cc

pub passed_last : (b : Bool) (s : String) → problem_unless b s ≡ [] → b ≡ true
unfolding problem_unless
passed_last true s h = refl
passed_last false s h = cc
