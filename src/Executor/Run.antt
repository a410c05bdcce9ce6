-- ===== src/Executor/Run.antt =====
-- What a run of a valid job returns.
use mathlib.Core.Path.{subst}
use agent_torrent.Prelude.{
  String, ◌≡◌, ◌⊎◌, inl, inr, refl, sym, Bool, true, false, List, [], ◌∷◌, Option, none, some,
  text_eq, eq_iff, arith, Option-cases, Bool-cases, pos, zero,
}
use agent_torrent.Py.{
  Value, text, Fields, lookup_or_null, is_one_of, Error, Result, ok, err, ◌>>=◌, ◌>>◌,
}
use agent_torrent.Job.{harness_choices}
use agent_torrent.Job.Validate.{Job, Describes, validate_job_complete}
use agent_torrent.Executor.{
  Launch, System, Ran, exited, raised, shown, field_text, harness_command, harness_usable,
  first_usable, choose_harness, binary_of, result_of, outcome_of, launch_of, run_harness,
  execute_chosen, execute_job,
}

-- The harnesses that the code knows how to call.
abbrev pub known : List String
known = "claude" ∷ "codex" ∷ "api" ∷ []

module _ (sys : System) (available : Fields) where
  first_usable_sound :
      (names : List String) (h : String)
      → first_usable sys available names ≡ some h
      → (harness_usable sys available h ≡ true) × (is_one_of names (text h) ≡ true)
  unfolding first_usable is_one_of
  first_usable_sound [] h e = absurd (cc)
  first_usable_sound (name ∷ names) h e = ground (arith, eq_iff h name, first_usable_sound names h)

  -- A harness that is chosen is usable, known, and the one that the job requires, if it requires one.
  pub choose_harness_sound :
      (force_simulate : Bool) (required h : String)
      → is_one_of harness_choices (text required) ≡ true
      → choose_harness sys available force_simulate required ≡ some h
      → (force_simulate ≡ false)
        × (harness_usable sys available h ≡ true)
        × (is_one_of known (text h) ≡ true)
        × ((required ≡ "any") ⊎ (h ≡ required))
  unfolding choose_harness is_one_of
  choose_harness_sound force_simulate required h valid e =
      ground (arith, eq_iff required "any", first_usable_sound known h)

  pub binary_found :
      (h : String)
      → harness_usable sys available h ≡ true
      → (b : String) × (binary_of sys h ≡ ok b)
        × ((b ≡ sys.python) ⊎ ((name : String) × (sys.which name ≡ some b)))
  unfolding harness_usable binary_of
  binary_found h usable = elim (Bool-cases (text_eq h "api")) [
    | inl api ↦ (sys.python, rw api refl, inl refl)
    | inr other ↦ elim (Option-cases (sys.which h)) [
      | inl e ↦ absurd (ground arith)
      | inr (b, e) ↦ (b, rw (other, e, binary_of) refl, inr (h, e))
    ]
  ]

pub known_cases :
    (h : String) → is_one_of known (text h) ≡ true → (h ≡ "claude") ⊎ ((h ≡ "codex") ⊎ (h ≡ "api"))
unfolding is_one_of
known_cases h valid = ground (arith, eq_iff h "claude", eq_iff h "codex", eq_iff h "api")

pub command_found :
    (script h binary : String) (job : Fields)
    → (h ≡ "claude") ⊎ ((h ≡ "codex") ⊎ (h ≡ "api"))
    → (arguments : List String) × (harness_command script h binary job ≡ ok (binary ∷ arguments))
unfolding harness_command
command_found script h binary job (inl e) =
    subst
      (λ x.
        (arguments : List String) × (harness_command script x binary job ≡ ok (binary ∷ arguments)))
      (sym e) (_, refl)
command_found script h binary job (inr (inl e)) =
    subst
      (λ x.
        (arguments : List String) × (harness_command script x binary job ≡ ok (binary ∷ arguments)))
      (sym e) (_, refl)
command_found script h binary job (inr (inr e)) =
    subst
      (λ x.
        (arguments : List String) × (harness_command script x binary job ≡ ok (binary ∷ arguments)))
      (sym e) (_, refl)

-- The result of a job: its id, one of the two statuses, an output, the harness and whether it was
-- simulated.
pub record Reports (sys : System) (job : Fields) (r : Result Value) : Type 0 where
  pub status : String
  pub output : String
  pub harness : String
  pub simulated : Bool
  pub returned : r ≡ ok (result_of sys job status output harness simulated)
  pub known_status : (status ≡ "ok") ⊎ (status ≡ "error")

-- An exception of the system: of the sleep, of the fresh directory, or of a subprocess.
abbrev pub Fails : System → Fields → Error → Type 0
Fails sys job e =
    (sys.sleep (lookup_or_null "max_runtime_seconds" job) ≡ err e)
    ⊎ ((sys.make_dir ≡ err e) ⊎ ((l : Launch) × (sys.run l ≡ raised e)))

-- It returns a result, or raises an exception of the system.
abbrev pub Finishes : System → Fields → Result Value → Type 0
Finishes sys job r = Reports sys job r ⊎ ((e : Error) × (r ≡ err e) × Fails sys job e)

-- The result of a run, by how the subprocess ended.
abbrev pub result_of_run : System → Fields → String → Ran → Result Value
result_of_run sys job h ran =
    outcome_of sys job ran >>= λ ended. ok (result_of sys job ended.0 ended.1 h false)

-- What the system does is read in one place only: the subprocess.
pub run_with :
    (sys : System) (allowed : List String) (job : Fields) (h binary : String)
    (command : List String)
    → binary_of sys h ≡ ok binary
    → harness_command sys.api_script h binary job ≡ ok command
    → run_harness sys allowed job h
      ≡ (sys.make_dir >> result_of_run sys job h (sys.run (launch_of sys allowed job command)))
unfolding run_harness
run_with sys allowed job h binary command found called = rw (found, called) refl

module _ (sys : System) (allowed : List String) (job : Fields) where
  reported :
      (h : String) (l : Launch) (ran : Ran)
      → sys.run l ≡ ran
      → Finishes sys job (result_of_run sys job h ran)
  unfolding outcome_of
  reported h l (exited (pos zero) out errors) e = inl (record {
    status = _;
    output = _;
    harness = h;
    simulated = false;
    returned = refl;
    known_status = inl refl;
  })
  reported h l (raised x) e = inr (x, refl, inr (inr (l, e)))
  reported h l _ e = inl (record {
    status = _;
    output = _;
    harness = h;
    simulated = false;
    returned = refl;
    known_status = inr refl;
  })

  after_step :
      (step : Result (Unit {0})) (next : Result Value)
      → ((e : Error) → step ≡ err e → Fails sys job e)
      → Finishes sys job next
      → Finishes sys job (step >> next)
  after_step (ok _) next fails finishes = finishes
  after_step (err e) next fails finishes = inr (e, refl, fails e refl)

  run_harness-Finishes :
      (available : Fields) (h : String)
      → harness_usable sys available h ≡ true
      → is_one_of known (text h) ≡ true
      → Finishes sys job (run_harness sys allowed job h)
  run_harness-Finishes available h usable valid =
      let (binary, found, _) = binary_found sys available h usable in
      let (arguments, called) = command_found sys.api_script h binary job (known_cases h valid) in
      let launch = launch_of sys allowed job (binary ∷ arguments) in
      subst (Finishes sys job)
        (sym (run_with sys allowed job h binary (binary ∷ arguments) found called))
        (after_step sys.make_dir _ (λ e failed. inr (inl failed)) (reported h launch _ refl))

  execute_chosen-Finishes :
      (available : Fields) (chosen : Option String)
      → ((h : String)
          → chosen ≡ some h
          → (harness_usable sys available h ≡ true) × (is_one_of known (text h) ≡ true))
      → Finishes sys job (execute_chosen sys allowed job chosen)
  unfolding execute_chosen
  execute_chosen-Finishes available none k =
      after_step (sys.sleep (lookup_or_null "max_runtime_seconds" job)) _ (λ e failed. inl failed)
        (inl (record {
          status = _;
          output = _;
          harness = _;
          simulated = _;
          returned = refl;
          known_status = inl refl;
        }))
  execute_chosen-Finishes available (some h) k =
      run_harness-Finishes available h (k h refl).0 (k h refl).1

pub required_text :
    (d : Fields) (j : Job) → Describes d j → field_text "required_harness" d ≡ j.required_harness
unfolding field_text shown lookup_or_null
required_text d j h = rw (h.at_required_harness, lookup_or_null) refl

-- If a job is valid, `execute_job` returns a result with the job's id and one of the statuses `ok`
-- and `error`, or it raises an exception that the sleep of a simulated run, the making of the fresh
-- directory or a subprocess has raised; it has no exception of its own, whatever harnesses are
-- there.
pub execute_job-Finishes :
    (sys : System) (available : Fields) (force_simulate : Bool) (allowed : List String) (d : Fields)
    (j : Job)
    → Describes d j
    → Finishes sys d (execute_job sys available force_simulate allowed d)
unfolding execute_job
execute_job-Finishes sys available force_simulate allowed d j h = rw (validate_job_complete d j h) (
    execute_chosen-Finishes sys allowed d available _ λ name e.
      let sound =
        choose_harness_sound sys available force_simulate (field_text "required_harness" d) name
          (rw (required_text d j h) h.harness_known) e in
      (sound.1, sound.2))
