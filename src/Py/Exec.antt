-- ===== src/Py/Exec.antt =====
-- Methods that change an object and may raise: what was written before a raise stays written, so
-- the object comes back beside the exception too.
use agent_torrent.Py.Errors.{Error, Result, ok, err}

abbrev pub Exec : Type 0 → Type 0 → Type 0
Exec S A = S → Result A × S

module _ {S A : Type 0} where
  abbrev pub pure : A → Exec S A
  pure a s = (ok a, s)

  abbrev pub raise : Error → Exec S A
  raise e s = (err e, s)

  -- A computation that does not touch the object.
  abbrev pub lift : Result A → Exec S A
  lift r s = (r, s)

  abbrev pub gets : (S → A) → Exec S A
  gets f s = (ok (f s), s)

module _ {S : Type 0} where
  abbrev pub modify : (S → S) → Exec S (Unit {0})
  modify f s = (ok tt, f s)

module _ {S A B : Type 0} where
  -- What a block does with the result of its first step.
  unfoldable pub continue : Result A → (A → Exec S B) → Exec S B
  continue (ok a) f s = f a s
  continue (err e) f s = (err e, s)

  infixl 5 ◌>>=◌ ◌>>◌
  abbrev pub ◌>>=◌ : Exec S A → (A → Exec S B) → Exec S B
  ◌>>=◌ m f s = continue (m s).0 f (m s).1

  abbrev pub ◌>>◌ : Exec S A → Exec S B → Exec S B
  m >> k = m >>= λ _. k
