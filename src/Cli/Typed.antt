-- ===== src/Cli/Typed.antt =====
-- What a parsed command line gives to the commands: values of the right types.
use mathlib.Core.Path.{subst}
use agent_torrent.Prelude.{
  String, ◌≡◌, refl, ap, ◌∙◌, inl, inr, Bool, true, false, not, ◌&&◌, List, Option, none, some, ℤ,
  pos, ◌+ℤ◌, is_blank, if◌then◌else◌, Bool-cases,
}
use agent_torrent.Py.{
  Value, Fields, field, end, boolean, int, text, lookup, is_text, is_boolean, is_int, is_one_of,
  is_positive, truthy, Result, ok, err, overflow_error, PyTexts,
}
use agent_torrent.Job.{new_job, harness_choices}
use agent_torrent.Job.New.{returns, new_job-returns}
use agent_torrent.Cli.Request.{Reply}
use agent_torrent.Cli.{delegate_fields, cmd_delegate}
use agent_torrent.Cli.Parser.{
  whole, words, choice, sets, Argument, delegate_arguments, is_taken, Parsed, Conforms,
}
use agent_torrent.Cli.Mesh.{
  attribute, delegate_request, control_timeout, fits_float, printed, delegate_command,
}

pub attribute-ok :
    (k : String) (ns : Fields) (v : Value) → lookup k ns ≡ some v → attribute k ns ≡ ok v
unfolding attribute
attribute-ok k ns v e = rw (e, attribute) refl

-- What holds of a default, if there is one.
abbrev pub of_default : (Value → Bool) → Option Value → Bool
of_default f none = true
of_default f (some v) = f v

-- A test that the default passes and each value that the argument takes.
module _ {ns : Fields} {a : Argument} (p : Parsed ns a) (f : Value → Bool) where
  pub value_passes :
      of_default f a.default ≡ true
      → ((v : Value) → is_taken a.takes v ≡ true → f v ≡ true)
      → f p.value ≡ true
  value_passes d t = elim p.fits [
    | inl e ↦ subst (λ o. of_default f o ≡ true) e d
    | inr taken ↦ t p.value taken
  ]

pub words_texts : (v : Value) → is_taken words v ≡ true → is_text v ≡ true
unfolding is_taken
words_texts (text s) h = refl
words_texts _ h = absurd (cc)

pub whole_ints : (v : Value) → is_taken whole v ≡ true → is_int v ≡ true
unfolding is_taken
whole_ints (int n) h = refl
whole_ints _ h = absurd (cc)

pub sets_booleans : (b : Bool) (v : Value) → is_taken (sets b) v ≡ true → is_boolean v ≡ true
unfolding is_taken
sets_booleans b (boolean c) h = refl
sets_booleans b _ h = absurd (cc)

choices_known :
    (names : List String) (v : Value) → is_taken (choice names) v ≡ true → is_one_of names v ≡ true
unfolding is_taken
choices_known names v h = h

pub text_value : (v : Value) → is_text v ≡ true → (s : String) × (v ≡ text s)
text_value (text s) h = (s, refl)
text_value _ h = absurd (cc)

pub int_value : (v : Value) → is_int v ≡ true → (n : ℤ) × (v ≡ int n)
int_value (int n) h = (n, refl)
int_value _ h = absurd (cc)

choice_value :
    (v : Value)
    → is_one_of harness_choices v ≡ true
    → (s : String) × (v ≡ text s) × (is_one_of harness_choices (text s) ≡ true)
unfolding is_one_of
choice_value (text s) h = (s, refl, h)
choice_value _ h = absurd (cc)

module _ (ns : Fields) (task harness tokens runtime expect : Value)
    (at_task : lookup "task" ns ≡ some task) (at_harness : lookup "harness" ns ≡ some harness)
    (at_tokens : lookup "max_tokens" ns ≡ some tokens)
    (at_runtime : lookup "max_runtime" ns ≡ some runtime)
    (at_expect : lookup "expect" ns ≡ some expect) where
  delegate_request-ok :
      delegate_request ns ≡ ok (delegate_fields task harness tokens runtime expect)
  unfolding delegate_request
  delegate_request-ok =
      rw
        (
          attribute-ok "task" ns task at_task,
          attribute-ok "harness" ns harness at_harness,
          attribute-ok "max_tokens" ns tokens at_tokens,
          attribute-ok "max_runtime" ns runtime at_runtime,
          attribute-ok "expect" ns expect at_expect,
        )
        refl

  delegate_command-ok :
      (py : PyTexts) (whole_text : Value → Result String)
      (ask : String → String → Fields → ℤ → Reply) (data_dir : String) (n : ℤ) (json : Value)
      → runtime ≡ int n
      → lookup "json" ns ≡ some json
      → delegate_command py whole_text ask data_dir ns ≡ (
          if fits_float n
          then ok (
              printed (
                cmd_delegate py data_dir (truthy json) (
                  ask data_dir "delegate"
                    (delegate_fields task harness tokens runtime expect)
                    (pos 30 +ℤ n))))
          else err overflow_error)
  unfolding delegate_command control_timeout
  delegate_command-ok py whole_text ask data_dir n json is_n at_json =
      rw
        (
          delegate_request-ok,
          attribute-ok "max_runtime" ns runtime at_runtime,
          is_n,
          attribute-ok "json" ns json at_json,
        )
        (elim (Bool-cases (fits_float n)) [ inl e ↦ rw e refl | inr e ↦ rw e refl ])

any_known : is_one_of harness_choices (text "any") ≡ true
unfolding is_one_of
any_known = refl

-- What the namespace of `mesh delegate` holds.
pub record Delegation (ns : Fields) : Type 0 where
  pub task : String
  pub harness : String
  pub max_tokens : ℤ
  pub max_runtime : ℤ
  pub expect : String
  pub json : Value
  pub at_task : lookup "task" ns ≡ some (text task)
  pub at_harness : lookup "harness" ns ≡ some (text harness)
  pub at_max_tokens : lookup "max_tokens" ns ≡ some (int max_tokens)
  pub at_max_runtime : lookup "max_runtime" ns ≡ some (int max_runtime)
  pub at_expect : lookup "expect" ns ≡ some (text expect)
  pub at_json : lookup "json" ns ≡ some json
  pub known : is_one_of harness_choices (text harness) ≡ true

-- The arguments of the request that it stands for.
abbrev pub request_of : {ns : Fields} → Delegation ns → Fields
request_of d = field "task_text" (text d.task) (
    field "required_harness" (text d.harness) (
      field "max_tokens" (int d.max_tokens) (
        field "max_runtime_seconds" (int d.max_runtime)
          (field "expected_output" (text d.expect) end))))

pub parsed_Delegation : (ns : Fields) → Conforms ns delegate_arguments → Delegation ns
parsed_Delegation ns (task, (harness, (tokens, (runtime, (expect, (json, _)))))) =
    let (task_text, is_task) = text_value task.value (value_passes task is_text refl words_texts) in
    let (name, is_harness, known) = choice_value harness.value (
      value_passes harness (is_one_of harness_choices) any_known (choices_known harness_choices)) in
    let (token_count, is_tokens) =
      int_value tokens.value (value_passes tokens is_int refl whole_ints) in
    let (seconds, is_seconds) =
      int_value runtime.value (value_passes runtime is_int refl whole_ints) in
    let (wanted, is_wanted) =
      text_value expect.value (value_passes expect is_text refl words_texts) in
    record {
      task = task_text;
      harness = name;
      max_tokens = token_count;
      max_runtime = seconds;
      expect = wanted;
      json = json.value;
      at_task = task.found ∙ ap some is_task;
      at_harness = harness.found ∙ ap some is_harness;
      at_max_tokens = tokens.found ∙ ap some is_tokens;
      at_max_runtime = runtime.found ∙ ap some is_seconds;
      at_expect = expect.found ∙ ap some is_wanted;
      at_json = json.found;
      known = known;
    }

-- The request of a delegation, or the `OverflowError` of a limit that is too large for a float.
pub delegate_command-request_of :
    (py : PyTexts) (whole_text : Value → Result String) (ask : String → String → Fields → ℤ → Reply)
    (data_dir : String) (ns : Fields) (d : Delegation ns)
    → delegate_command py whole_text ask data_dir ns ≡ (
        if fits_float d.max_runtime
        then ok (
            printed (
              cmd_delegate py data_dir
                (truthy d.json)
                (ask data_dir "delegate" (request_of d) (pos 30 +ℤ d.max_runtime))))
        else err overflow_error)
unfolding delegate_fields
delegate_command-request_of py whole_text ask data_dir ns d =
    delegate_command-ok ns (text d.task) (text d.harness) (int d.max_tokens) (int d.max_runtime)
      (text d.expect) d.at_task d.at_harness d.at_max_tokens d.at_max_runtime d.at_expect py
      whole_text ask data_dir d.max_runtime d.json refl d.at_json

-- Let the namespace of `mesh delegate` be as `parse_args` makes it. Then it holds under `task`,
-- `harness` and `expect` texts, the harness one that `job.py` knows, and under `max_tokens` and
-- `max_runtime` integers; if the second integer fits a float, `cmd_delegate` asks the peer for a
-- delegation with each of the five under the name of its own argument, waits for the second integer
-- and thirty seconds more, and shows the reply; if it fits no float, an `OverflowError` is raised
-- and nothing is asked. And for every job id that is not blank `new_job` makes a job of these
-- arguments exactly when task and expected output are not blank and both limits are positive.
pub delegate_command-Typed :
    (py : PyTexts) (whole_text : Value → Result String) (ask : String → String → Fields → ℤ → Reply)
    (data_dir job_id : String) (ns : Fields)
    → Conforms ns delegate_arguments
    → is_blank job_id ≡ false
    → (d : Delegation ns) × (delegate_command py whole_text ask data_dir ns ≡ (
        if fits_float d.max_runtime
        then ok (
            printed (
              cmd_delegate py data_dir
                (truthy d.json)
                (ask data_dir "delegate" (request_of d) (pos 30 +ℤ d.max_runtime))))
        else err overflow_error))
      × (returns (
            new_job job_id
              (text d.task)
              (text d.harness)
              (int d.max_tokens)
              (int d.max_runtime)
              (text d.expect))
          ≡ (not (is_blank d.task)
              && (not (is_blank d.expect)
                  && (is_positive (int d.max_tokens) && is_positive (int d.max_runtime)))))
delegate_command-Typed py whole_text ask data_dir job_id ns parsed full =
    let d = parsed_Delegation ns parsed in
    (
      d,
      delegate_command-request_of py whole_text ask data_dir ns d,
      new_job-returns job_id d.task d.harness d.expect d.max_tokens d.max_runtime d.known
          ∙ ap
              (λ (b : Bool).
                not b
                && (not (is_blank d.task)
                    && (not (is_blank d.expect)
                        && (is_positive (int d.max_tokens) && is_positive (int d.max_runtime)))))
              full,
    )
