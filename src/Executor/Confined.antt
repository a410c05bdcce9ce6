-- ===== src/Executor/Confined.antt =====
-- What a job can make the worker launch.
use agent_torrent.Prelude.{
  String, ◌≡◌, ◌⊎◌, inl, inr, refl, sym, ap, ◌∙◌, Bool, true, List, [], ◌∷◌, Option, none, some,
  Option-cases,
}
use agent_torrent.Py.{text, Fields, lookup_or_null, is_one_of, ◌>>◌}
use agent_torrent.Job.Validate.{Job, Describes, validate_job_complete}
use agent_torrent.Executor.{
  Env, set_var, pass_through, Launch, sandbox_env, System, Ran, field_text, harness_usable,
  first_usable, choose_harness, binary_of, result_of, outcome_of, launch_of, run_harness,
  execute_chosen, execute_job,
}
use agent_torrent.Executor.Run.{
  known, result_of_run, run_with, binary_found, command_found, known_cases, choose_harness_sound,
  required_text,
}

-- A launch that stays in the sandbox: the fresh directory, the sandbox's variables, the job's own
-- time limit, and a program that the worker has found.
pub record Confined (sys : System) (allowed : List String) (job : Fields) (l : Launch)
    : Type 0 where
  pub in_workdir : l.cwd ≡ sys.workdir
  pub in_env : l.env ≡ sandbox_env sys allowed
  pub in_time : l.timeout ≡ lookup_or_null "max_runtime_seconds" job
  pub program : String
  pub arguments : List String
  pub command_line : l.command ≡ program ∷ arguments
  pub own_program : (program ≡ sys.python) ⊎ ((name : String) × (sys.which name ≡ some program))

module _ (sys : System) (run' : Launch → Ran) where
  -- The same system, with another subprocess.
  abbrev pub rerun : System
  rerun = record sys { run = run' }

  pass_through-rerun :
      (names : List String) (env : Env) → pass_through sys names env ≡ pass_through rerun names env
  unfolding pass_through
  pass_through-rerun [] env = refl
  pass_through-rerun (name ∷ names) env = elim (Option-cases (sys.environ name)) [
    | inl e ↦ rw (e, pass_through) (pass_through-rerun names env)
    | inr (v, e) ↦ rw (e, pass_through) (pass_through-rerun names (set_var name v env))
  ]

  module _ (allowed : List String) (job : Fields)
      (agree : (l : Launch) → Confined sys allowed job l → sys.run l ≡ run' l) where
    launch-rerun :
        (command : List String)
        → launch_of sys allowed job command ≡ launch_of rerun allowed job command
    unfolding launch_of sandbox_env
    launch-rerun command =
        ap
          (λ e. record {
            command = command;
            cwd = sys.workdir;
            env = e;
            timeout = lookup_or_null "max_runtime_seconds" job;
          })
          (pass_through-rerun allowed _)

    launch-Confined :
        (binary : String) (arguments : List String)
        → (binary ≡ sys.python) ⊎ ((name : String) × (sys.which name ≡ some binary))
        → Confined sys allowed job (launch_of sys allowed job (binary ∷ arguments))
    unfolding launch_of
    launch-Confined binary arguments own = record {
      in_workdir = refl;
      in_env = refl;
      in_time = refl;
      program = binary;
      arguments = arguments;
      command_line = refl;
      own_program = own;
    }

    run_harness-rerun :
        (available : Fields) (h : String)
        → harness_usable sys available h ≡ true
        → is_one_of known (text h) ≡ true
        → run_harness sys allowed job h ≡ run_harness rerun allowed job h
    unfolding binary_of result_of outcome_of
    run_harness-rerun available h usable valid =
        let (b, found, own) = binary_found sys available h usable in
        let (arguments, command) = command_found sys.api_script h b job (known_cases h valid) in
        let same =
          agree (launch_of sys allowed job (b ∷ arguments)) (launch-Confined b arguments own)
          ∙ ap run' (launch-rerun (b ∷ arguments)) in
        run_with sys allowed job h b (b ∷ arguments) found command
        ∙ ap (λ r. sys.make_dir >> result_of_run sys job h r) same
        ∙ sym (run_with rerun allowed job h b (b ∷ arguments) found command)

    execute_chosen-rerun :
        (available : Fields) (chosen : Option String)
        → ((h : String)
            → chosen ≡ some h
            → (harness_usable sys available h ≡ true) × (is_one_of known (text h) ≡ true))
        → execute_chosen sys allowed job chosen ≡ execute_chosen rerun allowed job chosen
    unfolding execute_chosen result_of
    execute_chosen-rerun available none k = refl
    execute_chosen-rerun available (some h) k =
        run_harness-rerun available h (k h refl).0 (k h refl).1

    -- If a job is valid and another subprocess does the same as the system's at every launch that
    -- is confined (in the fresh directory, with the sandbox's variables, the job's own time limit,
    -- and a program that the worker has found itself), then `execute_job` gives the same with
    -- either: nothing else that a subprocess might do can matter.
    pub execute_job-rerun :
        (available : Fields) (force_simulate : Bool) (j : Job)
        → Describes job j
        → execute_job sys available force_simulate allowed job
          ≡ execute_job rerun available force_simulate allowed job
    unfolding execute_job choose_harness first_usable harness_usable
    execute_job-rerun available force_simulate j h = rw (validate_job_complete job j h) (
        execute_chosen-rerun available
          (choose_harness sys available force_simulate (field_text "required_harness" job))
          λ name e.
            let sound =
              choose_harness_sound sys available force_simulate (field_text "required_harness" job)
                name (rw (required_text job j h) h.harness_known) e in
            (sound.1, sound.2))
