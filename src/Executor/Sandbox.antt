-- ===== src/Executor/Sandbox.antt =====
-- What a harness finds in its environment.
use mathlib.Core.Path.{subst}
use agent_torrent.Prelude.{
  String, ◌≡◌, refl, ap, ◌∙◌, Bool, false, ◌||◌, List, [], ◌∷◌, if◌then◌else◌, Option, none, some,
  text_eq, eq_iff, arith, Option-cases, Bool-cases, inl, inr,
}
use agent_torrent.Executor.{Env, System, set_var, find_var, pass_through, sandbox_env}

abbrev pub is_allowed : String → List String → Bool
is_allowed k [] = false
is_allowed k (name ∷ names) = text_eq name k || is_allowed k names

abbrev pub first_some : Option String → Option String → Option String
first_some (some v) w = some v
first_some none w = w

-- The variables of every sandbox.
abbrev pub fresh_env : System → Env
fresh_env sys =
    ("HOME", sys.workdir) ∷ ("TMPDIR", sys.workdir) ∷ ("PATH", sys.defpath) ∷ ("NO_COLOR", "1") ∷ []

find_var-set_var :
    (j k v : String) (env : Env)
    → find_var j (set_var k v env) ≡ (if text_eq k j then some v else find_var j env)
unfolding find_var set_var
find_var-set_var j k v [] = refl
find_var-set_var j k v ((i, w) ∷ env) =
    ground (arith, eq_iff k j, eq_iff i k, eq_iff i j, find_var-set_var j k v env)

module _ (sys : System) where
  -- What the operator lets through of the worker's own environment.
  abbrev pub granted : String → List String → Option String
  granted k names = if is_allowed k names then sys.environ k else none

  granted-none :
      (k name : String) (names : List String)
      → sys.environ name ≡ none
      → granted k names ≡ granted k (name ∷ names)
  granted-none k name names e = elim (Bool-cases (text_eq name k)) [
    | inl same ↦
        let absent = subst (λ x. sys.environ x ≡ none) ((eq_iff name k).0 same) e in
        rw (same, absent) (ground arith)
    | inr other ↦ rw other refl
  ]

  granted-some :
      (k name : String) (names : List String) (v : String) (env : Env)
      → sys.environ name ≡ some v
      → first_some (granted k names) (find_var k (set_var name v env))
        ≡ first_some (granted k (name ∷ names)) (find_var k env)
  granted-some k name names v env e = elim (Bool-cases (text_eq name k)) [
    | inl same ↦
        let present = subst (λ x. sys.environ x ≡ some v) ((eq_iff name k).0 same) e in
        rw (find_var-set_var k name v env, same, present) (ground arith)
    | inr other ↦ rw (find_var-set_var k name v env, other) refl
  ]

  find_var-pass_through :
      (k : String) (names : List String) (env : Env)
      → find_var k (pass_through sys names env) ≡ first_some (granted k names) (find_var k env)
  unfolding pass_through
  find_var-pass_through k [] env = refl
  find_var-pass_through k (name ∷ names) env = elim (Option-cases (sys.environ name)) [
    | inl e ↦
        rw (e, pass_through)
          (find_var-pass_through k names env
            ∙ ap (λ g. first_some g (find_var k env)) (granted-none k name names e))
    | inr (v, e) ↦
        rw (e, pass_through)
          (find_var-pass_through k names (set_var name v env) ∙ granted-some k name names v env e)
  ]

  -- Under each name the sandbox's environment holds the worker's own value if the operator has
  -- allowed the name and the worker has it, and else what the fresh environment holds (`HOME`,
  -- `TMPDIR`, `PATH` and `NO_COLOR`), if anything.
  pub find_var-sandbox_env :
      (k : String) (names : List String)
      → find_var k (sandbox_env sys names)
        ≡ first_some (granted k names) (find_var k (fresh_env sys))
  unfolding sandbox_env
  find_var-sandbox_env k names = find_var-pass_through k names (fresh_env sys)
