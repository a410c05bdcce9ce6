-- ===== src/Executor.antt =====
-- agenttorrent/executor.py: the choice of a harness and its run in a sandbox. The system is the
-- parameter `System`: what it answers for a tool's name, its environment, the fresh directory, and
-- what a subprocess does.
pub mod Sandbox
pub mod Run
pub mod Confined
pub mod Samples
mod Tests
use agent_torrent.Prelude.{
  ℕ, String, Bool, true, false, ◌&&◌, ◌||◌, List, [], ◌∷◌, ◌<>◌, if◌then◌else◌, Option, none, some,
  text_eq, take_text, strip, str_int, ℤ, pos, zero,
}
use agent_torrent.Py.{
  Value, object, text, int, boolean, float, Fields, field, end, lookup, lookup_or_null, is_some,
  Error, Result, ok, err, value_error, assertion_error, ◌>>=◌, ◌>>◌,
}
use agent_torrent.Job.{validate_job}

-- The variables of a process, each name once.
abbrev pub Env : Type 0
Env = List (String × String)

unfoldable pub set_var : String → String → Env → Env
set_var k v [] = (k, v) ∷ []
set_var k v ((j, w) ∷ env) =
    let rest = set_var k v env in if text_eq j k then (j, v) ∷ env else (j, w) ∷ rest

unfoldable pub find_var : String → Env → Option String
find_var k [] = none
find_var k ((j, w) ∷ env) = let rest = find_var k env in if text_eq j k then some w else rest

-- The arguments of `subprocess.run`.
pub record Launch : Type 0 where
  pub command : List String
  pub cwd : String
  pub env : Env
  pub timeout : Value

-- How it ends: an exit code with the texts of the two streams, the timeout, an `OSError`, or an
-- exception that the code does not catch: the `ValueError` of an argument that holds a NUL, the
-- `UnicodeDecodeError` of a stream that is no UTF-8, or the `OverflowError` of a timeout that is too large.
pub data Ran : Type 0 where
  exited : ℤ → String → String → Ran
  killed : Ran
  not_launched : String → Ran
  raised : Error → Ran

pub record System : Type 0 where
  -- `shutil.which`, `sys.executable`, `_API_HARNESS_SCRIPT`
  pub which : String → Option String
  pub python : String
  pub api_script : String
  -- `os.environ`, `os.defpath`, and `tempfile.mkdtemp()`, with the exception that it raises, if any
  pub environ : String → Option String
  pub defpath : String
  pub workdir : String
  pub make_dir : Result (Unit {0})
  -- `time.sleep(min(simulate_delay, v))`, with the delay that the worker is configured with
  pub sleep : Value → Result (Unit {0})
  -- `subprocess.run`, and `round(time.monotonic() - started, 3)` at the end
  pub run : Launch → Ran
  pub runtime : ℕ

-- `str(job[k])`, for the texts and the integers that a validated job holds.
unfoldable pub shown : Value → String
shown (text s) = s
shown (int n) = str_int n
shown _ = ""

unfoldable pub field_text : String → Fields → String
field_text k job = shown (lookup_or_null k job)

-- `_harness_command`
unfoldable pub harness_command : String → String → String → Fields → Result (List String)
harness_command api_script name binary job =
    let task =
      "Expected output: "
      <> (field_text "expected_output" job <> ("\n\n" <> field_text "task_text" job)) in
    let prompt =
      "[advisory limit: at most "
      <> (field_text "max_tokens" job <> (" output tokens]\n" <> task)) in
    if text_eq name "api"
    then ok (
        binary
        ∷ api_script
        ∷ "--max-tokens"
        ∷ field_text "max_tokens" job
        ∷ "--timeout"
        ∷ field_text "max_runtime_seconds" job
        ∷ task
        ∷ [])
    else (if text_eq name "claude"
        then ok (binary ∷ "-p" ∷ prompt ∷ [])
        else (if text_eq name "codex" then ok (binary ∷ "exec" ∷ prompt ∷ []) else err value_error))

module _ (sys : System) where
  -- `_harness_usable`
  unfoldable pub harness_usable : Fields → String → Bool
  harness_usable available name =
      is_some (lookup name available) && (text_eq name "api" || is_some (sys.which name))

  -- The loop over the harnesses, for a job that takes any.
  unfoldable pub first_usable : Fields → List String → Option String
  unfolding harness_usable
  first_usable available [] = none
  first_usable available (name ∷ names) =
      let later = first_usable available names in
      if harness_usable available name then some name else later

  unfoldable pub choose_harness : Fields → Bool → String → Option String
  unfolding first_usable
  choose_harness available force_simulate required =
      if force_simulate
      then none
      else (if text_eq required "any"
          then first_usable available ("claude" ∷ "codex" ∷ "api" ∷ [])
          else (if harness_usable available required then some required else none))

  -- The variables that the operator has allowed, on top of the fresh ones.
  unfoldable pub pass_through : List String → Env → Env
  unfolding set_var
  pass_through [] env = env
  pass_through (name ∷ names) env = elim (sys.environ name) [
    | none ↦ pass_through names env
    | some v ↦ pass_through names (set_var name v env)
  ]

  unfoldable pub sandbox_env : List String → Env
  unfolding pass_through
  sandbox_env env_passthrough = pass_through env_passthrough (
      ("HOME", sys.workdir)
      ∷ ("TMPDIR", sys.workdir)
      ∷ ("PATH", sys.defpath)
      ∷ ("NO_COLOR", "1")
      ∷ [])

  -- `sys.executable if harness == "api" else shutil.which(harness)`, and the assertion
  unfoldable pub binary_of : String → Result String
  binary_of name =
      if text_eq name "api"
      then ok sys.python
      else elim (sys.which name) [ none ↦ err assertion_error | some path ↦ ok path ]

  unfoldable pub result_of : Fields → String → String → String → Bool → Value
  result_of job status output harness simulated = object (
      field "job_id" (lookup_or_null "job_id" job) (
        field "status" (text status) (
          field "output" (text output) (
            field "harness" (text harness) (
              field "simulated" (boolean simulated)
                (field "runtime_seconds" (float sys.runtime) end))))))

  -- The status and the output, by how the subprocess ended.
  unfoldable pub outcome_of : Fields → Ran → Result (String × String)
  outcome_of job (exited (pos zero) out errors) = ok ("ok", out)
  outcome_of job (exited code out errors) =
      ok ("error", "harness exited " <> (str_int code <> (": " <> take_text 2000 (strip errors))))
  outcome_of job killed = ok (
    "error",
    "harness killed after hard timeout of " <> (field_text "max_runtime_seconds" job <> "s"),
  )
  outcome_of job (not_launched e) = ok ("error", "failed to launch harness: " <> e)
  outcome_of job (raised e) = err e

  unfoldable pub launch_of : List String → Fields → List String → Launch
  unfolding sandbox_env
  launch_of env_passthrough job command = record {
    command = command;
    cwd = sys.workdir;
    env = sandbox_env env_passthrough;
    timeout = lookup_or_null "max_runtime_seconds" job;
  }

  -- The run of a harness, from the choice of its binary on.
  unfoldable pub run_harness : List String → Fields → String → Result Value
  unfolding binary_of harness_command outcome_of result_of launch_of
  run_harness env_passthrough job harness = do
    binary ← binary_of harness
    sys.make_dir
    command ← harness_command sys.api_script harness binary job
    ended ← outcome_of job (sys.run (launch_of env_passthrough job command))
    ok (result_of job ended.0 ended.1 harness false)

  unfoldable pub simulated_text : String → String
  simulated_text task_text =
      "[simulated by AgentTorrent: this worker executed no harness CLI]\n\nTask: "
      <> (task_text
          <> "\n\ndef reverse_string(s: str) -> str:\n    \"\"\"Return s reversed, without slicing.\"\"\"\n    out = []\n    for ch in s:\n        out.insert(0, ch)\n    return \"\".join(out)\n\n(If the task above is not the reverse-a-string exercise, treat this as a\nplaceholder result proving the delegation protocol end to end.)\n")

  unfoldable pub execute_chosen : List String → Fields → Option String → Result Value
  unfolding run_harness result_of simulated_text
  execute_chosen env_passthrough job none = do
    sys.sleep (lookup_or_null "max_runtime_seconds" job)
    ok (result_of job "ok" (simulated_text (field_text "task_text" job)) "simulated" true)
  execute_chosen env_passthrough job (some harness) = run_harness env_passthrough job harness

  -- `execute_job`; a value that is no dictionary does not pass the validation.
  unfoldable pub execute_job : Fields → Bool → List String → Fields → Result Value
  unfolding execute_chosen choose_harness
  execute_job available force_simulate env_passthrough job = do
    validate_job (object job)
    execute_chosen env_passthrough job
        (choose_harness available force_simulate (field_text "required_harness" job))
