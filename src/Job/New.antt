-- ===== src/Job/New.antt =====
-- When `new_job` makes a job of texts and integers.
use agent_torrent.Prelude.{
  String, ◌≡◌, refl, ap, ◌∙◌, true, false, not, ◌&&◌, Bool, List, [], ◌∷◌, ◌++◌, is_blank, ℤ,
}
use agent_torrent.Checks.{problem_unless}
use agent_torrent.Py.{
  text, int, Result, ok, err, is_one_of, is_positive, lookup, lookup_or_null, ◌>>◌,
}
use agent_torrent.Job.{
  harness_choices, validate_job, new_job, job_problems, missing_fields, is_full_text, raise_listed,
}

-- The call has returned.
abbrev pub returns : {A : Type 0} → Result A → Bool
returns (ok a) = true
returns (err e) = false

abbrev is_nil : List String → Bool
is_nil [] = true
is_nil (x ∷ xs) = false

is_nil-problem_unless :
    (b : Bool) (problem : String) (rest : List String)
    → is_nil (problem_unless b problem ++ rest) ≡ (b && is_nil rest)
unfolding problem_unless
is_nil-problem_unless true problem rest = refl
is_nil-problem_unless false problem rest = refl

is_nil-last : (b : Bool) (problem : String) → is_nil (problem_unless b problem) ≡ b
unfolding problem_unless
is_nil-last true problem = refl
is_nil-last false problem = refl

returns-raise_listed :
    (p sep : String) (parts : List String) {A : Type 0} (v w : A)
    → returns (raise_listed p sep parts >> ok v >> ok w) ≡ is_nil parts
unfolding raise_listed
returns-raise_listed p sep [] v w = refl
returns-raise_listed p sep (x ∷ parts) v w = refl

is_nil-checks :
    (a b c d e f : Bool) (p q r s t u : String)
    → is_nil (
        problem_unless a p
        ++ (problem_unless b q
            ++ (problem_unless c r
                ++ (problem_unless d s ++ (problem_unless e t ++ problem_unless f u)))))
      ≡ (a && (b && (c && (d && (e && f)))))
is_nil-checks a b c d e f p q r s t u =
    rw
      (
        is_nil-problem_unless a p,
        is_nil-problem_unless b q,
        is_nil-problem_unless c r,
        is_nil-problem_unless d s,
        is_nil-problem_unless e t,
        is_nil-last f u,
      )
      refl

-- A job of a known harness is made exactly when its three texts are not blank and its two numbers
-- are positive.
pub new_job-returns :
    (job_id task harness expected : String) (max_tokens max_runtime : ℤ)
    → is_one_of harness_choices (text harness) ≡ true
    → returns (
        new_job job_id
          (text task)
          (text harness)
          (int max_tokens)
          (int max_runtime)
          (text expected))
      ≡ (not (is_blank job_id)
          && (not (is_blank task)
              && (not (is_blank expected)
                  && (is_positive (int max_tokens) && is_positive (int max_runtime)))))
unfolding new_job validate_job missing_fields lookup job_problems is_full_text lookup_or_null
    raise_listed
new_job-returns job_id task harness expected max_tokens max_runtime known =
    returns-raise_listed "" "; " _ _ _
    ∙ is_nil-checks (not (is_blank job_id)) (not (is_blank task)) (not (is_blank expected))
        (is_one_of harness_choices (text harness)) (is_positive (int max_tokens))
        (is_positive (int max_runtime)) _ _ _ _ _ _
    ∙ ap
        (λ (k : Bool).
          not (is_blank job_id)
          && (not (is_blank task)
              && (not (is_blank expected)
                  && (k && (is_positive (int max_tokens) && is_positive (int max_runtime))))))
        known
