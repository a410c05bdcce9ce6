-- ===== src/Job/Validate.antt =====
-- What `validate_job` lets through.
use agent_torrent.Prelude.{
  ℕ, String, ◌≡◌, ◌⊎◌, ap, sym, ◌∙◌, refl, true, false, List, [], ◌∷◌, some, pos, ◌<◌, is_blank,
  arith, Option-cases, inl, inr,
}
use agent_torrent.Checks.{problem_unless, positive_int, is_positive-pos, passed, passed_last}
use agent_torrent.Py.{
  Error, is_one_of, object, job_error, err, >>=-eq-ok, Value, text, int, Fields, lookup,
  lookup_or_null, ok,
}
use agent_torrent.Job.{
  validate_job, job_problems, harness_choices, required_fields, missing_fields, is_full_text,
  raise_listed,
}

-- A job manifest as its typed fields.
pub record Job : Type 0 where
  pub job_id : String
  pub task_text : String
  pub required_harness : String
  pub max_tokens : ℕ
  pub max_runtime_seconds : ℕ
  pub expected_output : String

-- The dictionary `d` holds a manifest that meets every rule, whose fields are those of `j`; `d` may
-- hold other keys.
pub record Describes (d : Fields) (j : Job) : Type 0 where
  pub at_job_id : lookup "job_id" d ≡ some (text j.job_id)
  pub at_task_text : lookup "task_text" d ≡ some (text j.task_text)
  pub at_required_harness : lookup "required_harness" d ≡ some (text j.required_harness)
  pub at_max_tokens : lookup "max_tokens" d ≡ some (int (pos j.max_tokens))
  pub at_max_runtime_seconds :
      lookup "max_runtime_seconds" d ≡ some (int (pos j.max_runtime_seconds))
  pub at_expected_output : lookup "expected_output" d ≡ some (text j.expected_output)
  pub job_id_full : is_blank j.job_id ≡ false
  pub task_text_full : is_blank j.task_text ≡ false
  pub expected_output_full : is_blank j.expected_output ≡ false
  pub harness_known : is_one_of harness_choices (text j.required_harness) ≡ true
  pub max_tokens_positive : 0 < j.max_tokens
  pub max_runtime_positive : 0 < j.max_runtime_seconds

full_text : (v : Value) → is_full_text v ≡ true → (s : String) × (v ≡ text s) × (is_blank s ≡ false)
unfolding is_full_text
full_text (text s) h = (s, refl, ground arith)
full_text _ h = cc

choice_text : (v : Value) → is_one_of harness_choices v ≡ true → (s : String) × (v ≡ text s)
unfolding is_one_of
choice_text (text s) h = (s, refl)
choice_text _ h = cc

found_of_present :
    (k : String) (names : List String) (d : Fields)
    → missing_fields (k ∷ names) d ≡ []
    → (lookup k d ≡ some (lookup_or_null k d)) × (missing_fields names d ≡ [])
unfolding missing_fields lookup_or_null
found_of_present k names d h = elim (Option-cases (lookup k d)) [
  | inl absent ↦ ground arith
  | inr (v, e) ↦ ground arith
]

found_all :
    (d : Fields)
    → missing_fields required_fields d ≡ []
    → let at = λ (k : String). lookup k d ≡ some (lookup_or_null k d) in
      at "job_id"
      × at "task_text"
      × at "required_harness"
      × at "max_tokens"
      × at "max_runtime_seconds"
      × at "expected_output"
found_all d h =
    let a = found_of_present _ _ d h in
    let b = found_of_present _ _ d a.1 in
    let c = found_of_present _ _ d b.1 in
    let e = found_of_present _ _ d c.1 in
    let f = found_of_present _ _ d e.1 in
    let g = found_of_present _ _ d f.1 in (a.0, b.0, c.0, e.0, f.0, g.0)

raise_listed-eq-ok :
    (p sep : String) (parts : List String) {u : Unit {0}}
    → raise_listed p sep parts ≡ ok u
    → parts ≡ []
unfolding raise_listed
raise_listed-eq-ok p sep [] h = refl
raise_listed-eq-ok p sep (x ∷ parts) h = cc

described :
    (d : Fields)
    → missing_fields required_fields d ≡ []
    → job_problems d ≡ []
    → (j : Job) × Describes d j
unfolding job_problems
described d present clean =
    let at = found_all d present in
    let p = passed _ _ _ clean in
    let q = passed _ _ _ p.1 in
    let r = passed _ _ _ q.1 in
    let s = passed _ _ _ r.1 in
    let t = passed _ _ _ s.1 in
    let u = passed_last _ _ t.1 in
    let id = full_text _ p.0 in
    let task = full_text _ q.0 in
    let expected = full_text _ r.0 in
    let harness = choice_text _ s.0 in
    let tokens = positive_int _ t.0 in
    let runtime = positive_int _ u in
    (
      record {
        job_id = id.0;
        task_text = task.0;
        required_harness = harness.0;
        max_tokens = tokens.0;
        max_runtime_seconds = runtime.0;
        expected_output = expected.0;
      },
      record {
        at_job_id = at.0 ∙ ap some id.1;
        at_task_text = at.1 ∙ ap some task.1;
        at_required_harness = at.2 ∙ ap some harness.1;
        at_max_tokens = at.3 ∙ ap some tokens.1;
        at_max_runtime_seconds = at.4 ∙ ap some runtime.1;
        at_expected_output = at.5 ∙ ap some expected.1;
        job_id_full = id.2;
        task_text_full = task.2;
        expected_output_full = expected.2;
        harness_known = ap (is_one_of harness_choices) (sym harness.1) ∙ s.0;
        max_tokens_positive = tokens.2;
        max_runtime_positive = runtime.2;
      },
    )

present :
    (k : String) (names : List String) (d : Fields) {v : Value}
    → lookup k d ≡ some v
    → missing_fields names d ≡ []
    → missing_fields (k ∷ names) d ≡ []
unfolding missing_fields
present k names d e rest = ground arith

none_to_miss : (d : Fields) → missing_fields [] d ≡ []
unfolding missing_fields
none_to_miss d = refl

or_null_of_found :
    (k : String) (d : Fields) {v : Value} → lookup k d ≡ some v → lookup_or_null k d ≡ v
unfolding lookup_or_null
or_null_of_found k d e = rw (e, lookup_or_null)

raise_listed-cases :
    (p sep : String) (parts : List String)
    → (raise_listed p sep parts ≡ ok tt)
      ⊎ ((s : String) × (raise_listed p sep parts ≡ err (job_error s)))
unfolding raise_listed
raise_listed-cases p sep [] = inl refl
raise_listed-cases p sep (x ∷ parts) = inr (_, refl)

module _ {d : Fields} {j : Job} (h : Describes d j) where
  nothing_missing : missing_fields required_fields d ≡ []
  nothing_missing = present _ _ _ h.at_job_id (
      present _ _ _ h.at_task_text (
        present _ _ _ h.at_required_harness (
          present _ _ _ h.at_max_tokens (
            present _ _ _ h.at_max_runtime_seconds
              (present _ _ _ h.at_expected_output (none_to_miss d))))))

  no_problems : job_problems d ≡ []
  unfolding job_problems problem_unless is_full_text
  no_problems = rw (
    or_null_of_found "job_id" d h.at_job_id,
    or_null_of_found "task_text" d h.at_task_text,
    or_null_of_found "expected_output" d h.at_expected_output,
    or_null_of_found "required_harness" d h.at_required_harness,
    or_null_of_found "max_tokens" d h.at_max_tokens,
    or_null_of_found "max_runtime_seconds" d h.at_max_runtime_seconds,
    h.job_id_full,
    h.task_text_full,
    h.expected_output_full,
    h.harness_known,
    is_positive-pos _ h.max_tokens_positive,
    is_positive-pos _ h.max_runtime_positive,
  )

-- The value is a dictionary that holds the fields of a job.
abbrev pub IsJob : Value → Type 0
IsJob v = (d : Fields) × (v ≡ object d) × (j : Job) × Describes d j

pub validate_job_sound : (v w : Value) → validate_job v ≡ ok w → (w ≡ v) × IsJob v
unfolding validate_job
validate_job_sound (object d) w h =
    let first = >>=-eq-ok (raise_listed _ _ (missing_fields required_fields d)) _ h in
    let second = >>=-eq-ok (raise_listed _ _ (job_problems d)) _ first.2 in
    let found =
      described d (raise_listed-eq-ok _ _ _ first.1) (raise_listed-eq-ok _ _ _ second.1) in
    (cc, (d, refl, found.0, found.1))
validate_job_sound _ w h = cc

pub validate_job_complete :
    (d : Fields) (j : Job) → Describes d j → validate_job (object d) ≡ ok (object d)
unfolding validate_job raise_listed
validate_job_complete d j h = rw (nothing_missing h, no_problems h)

validate_job_total :
    (v : Value) → (validate_job v ≡ ok v) ⊎ ((s : String) × (validate_job v ≡ err (job_error s)))
unfolding validate_job
validate_job_total (object d) =
    elim (raise_listed-cases "job manifest missing fields: " ", "
      (missing_fields required_fields d)) [
        | inr (s, e) ↦ inr (s, rw e)
        | inl e ↦ elim (raise_listed-cases "" "; " (job_problems d)) [
          | inr (s, e') ↦ inr (s, rw (e, e'))
          | inl e' ↦ inl (rw (e, e'))
        ]
      ]
validate_job_total _ = inr (_, refl)

refused-IsJob : (v : Value) (e : Error) → validate_job v ≡ err e → ¬ IsJob v
refused-IsJob v e refused (d, is_object, j, h) =
    let accepted = ap validate_job is_object ∙ validate_job_complete d j h in cc

-- On every value, either the value is a dictionary that holds the six fields of a job, each of its
-- type (the texts not blank, the harness one of the choices, and the two numbers positive), and
-- `validate_job` returns it as it is; or it is no such dictionary, and `validate_job` raises a
-- `JobError`.
pub validate_job_decides :
    (v : Value)
    → ((validate_job v ≡ ok v) × IsJob v)
      ⊎ ((s : String) × (validate_job v ≡ err (job_error s)) × ¬ IsJob v)
validate_job_decides v = elim (validate_job_total v) [
  | inl e ↦ inl (e, (validate_job_sound v v e).1)
  | inr (s, e) ↦ inr (s, e, refused-IsJob v _ e)
]
