-- ===== src/Job.antt =====
-- agenttorrent/job.py: the job manifest and its strict validation.
pub mod Validate
pub mod New
pub mod Samples
mod Tests
use mathlib.Core.List.{filter}
use agent_torrent.Prelude.{
  String, Bool, true, false, not, ◌&&◌, ◌||◌, List, [], ◌∷◌, ◌++◌, ◌<>◌, text_eq, join, is_blank,
  if◌then◌else◌, Option, none, some,
}
use agent_torrent.Checks.{problem_unless}
use agent_torrent.Py.{
  is_one_of, Value, object, text, Fields, field, end, lookup, lookup_or_null, is_some, is_positive,
  Error, Result, ok, err, job_error, ◌>>=◌, ◌>>◌,
}

-- `HARNESS_CHOICES`
abbrev pub harness_choices : List String
harness_choices = "claude" ∷ "codex" ∷ "api" ∷ "any" ∷ []

abbrev pub required_fields : List String
required_fields =
    "job_id" ∷ "task_text" ∷ "required_harness" ∷ "max_tokens" ∷ "max_runtime_seconds"
    ∷ "expected_output" ∷ []

-- `[f for f in names if f not in job]`
unfoldable pub missing_fields : List String → Fields → List String
unfolding lookup
missing_fields [] job = []
missing_fields (f ∷ names) job =
    let rest = missing_fields names job in elim (lookup f job) [ none ↦ f ∷ rest | some v ↦ rest ]

-- `isinstance(v, str) and v.strip()`
unfoldable pub is_full_text : Value → Bool
is_full_text (text s) = not (is_blank s)
is_full_text _ = false

unfoldable pub job_problems : Fields → List String
unfolding is_full_text is_one_of problem_unless lookup_or_null
job_problems job =
    let at = λ (k : String). lookup_or_null k job in
    problem_unless (is_full_text (at "job_id")) "job_id must be a non-empty string"
    ++ (problem_unless (is_full_text (at "task_text")) "task_text must be a non-empty string"
        ++ (problem_unless (is_full_text (at "expected_output"))
              "expected_output must be a non-empty string"
            ++ (problem_unless (is_one_of harness_choices (at "required_harness"))
                  "required_harness must be one of ('claude', 'codex', 'api', 'any')"
                ++ (problem_unless (is_positive (at "max_tokens"))
                      "max_tokens must be a positive integer"
                    ++ problem_unless (is_positive (at "max_runtime_seconds"))
                        "max_runtime_seconds must be a positive integer"))))

-- `raise JobError(prefix + sep.join(parts))` if there are any parts.
unfoldable pub raise_listed : String → String → List String → Result (Unit {0})
raise_listed prefix sep [] = ok tt
raise_listed prefix sep (p ∷ parts) = err (job_error (prefix <> join sep (p ∷ parts)))

unfoldable pub validate_job : Value → Result Value
validate_job (object job) = do
  raise_listed "job manifest missing fields: " ", " (missing_fields required_fields job)
  raise_listed "" "; " (job_problems job)
  ok (object job)
validate_job _ = err (job_error "job manifest is not an object")

-- `job_id` is the `uuid.uuid4().hex` that the call draws.
unfoldable pub new_job : String → Value → Value → Value → Value → Value → Result Value
new_job job_id task_text required_harness max_tokens max_runtime_seconds expected_output =
    let job = object (
      field "job_id" (text job_id) (
        field "task_text" task_text (
          field "required_harness" required_harness (
            field "max_tokens" max_tokens (
              field "max_runtime_seconds" max_runtime_seconds
                (field "expected_output" expected_output end)))))) in
    validate_job job >> ok job
