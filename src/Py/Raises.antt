-- ===== src/Py/Raises.antt =====
-- Which exceptions a computation can raise, with a rule for each way to build one.
use mathlib.Core.Path.{subst}
use agent_torrent.Prelude.{◌≡◌}
use agent_torrent.Py.Errors.{Error, Result, ok, err, ◌>>=◌, err-injective}

-- Every exception that the computation can raise satisfies the predicate.
pub record Raises {A : Type 0} (P : Error → Type 0) (r : Result A) : Type 0 where
  pub at : (e : Error) → r ≡ err e → P e

module _ {A B : Type 0} {P : Error → Type 0} where
  pub Raises-bind :
      (r : Result A) (f : A → Result B)
      → Raises P r
      → ((a : A) → Raises P (f a))
      → Raises P (r >>= f)
  Raises-bind (ok a) f h k = k a
  Raises-bind (err x) f h k = record { at = λ e q. h.at e (cc) }

pub Raises-ok : {A : Type 0} {P : Error → Type 0} (a : A) → Raises P (ok a)
Raises-ok a = record { at = λ e h. absurd (cc) }

pub Raises-err : {A : Type 0} {P : Error → Type 0} (e : Error) → P e → Raises {A = A} P (err e)
Raises-err {P = P} e p = record { at = λ x h. subst P (err-injective h) p }
