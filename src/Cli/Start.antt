-- ===== src/Cli/Start.antt =====
-- The configuration of `mesh start`, from a parsed command line and the file of the data directory.
use agent_torrent.Prelude.{String, ◌≡◌, refl, arith, Bool, true, false, not, ◌||◌, Option, some, ℤ}
use agent_torrent.Py.{
  Value, Fields, field, end, null, boolean, float, array, nil, cons, is_boolean, is_int,
  is_text_list, truthy, Result, ok, PyTexts,
}
use agent_torrent.Peer.Settings.{read_values, load_config, is_given}
use agent_torrent.Peer.Settings.Typed.{has_type, is_number, AllTyped, AllSuit, load_config-AllTyped}
use agent_torrent.Cli.Request.{Reply}
use agent_torrent.Cli.Parser.{
  decimal, repeated, Argument, start_arguments, is_taken, Parsed, Conforms,
}
use agent_torrent.Cli.Mesh.{or_none, true_or_none, start_overrides, started, start_command}
use agent_torrent.Cli.Typed.{attribute-ok, value_passes, whole_ints, sets_booleans}

-- `None`, or a value that passes the test.
abbrev or_null : (Value → Bool) → Value → Bool
or_null f v = not (is_given v) || f v

passes_or_null : (f : Value → Bool) (v : Value) → f v ≡ true → or_null f v ≡ true
passes_or_null f v h = ground arith

decimal_numbers : (v : Value) → is_taken decimal v ≡ true → is_number v ≡ true
unfolding is_taken
decimal_numbers (float t) h = refl
decimal_numbers _ h = absurd (cc)

repeated_texts : (v : Value) → is_taken repeated v ≡ true → is_text_list v ≡ true
unfolding is_taken
repeated_texts (array items) h = h
repeated_texts _ h = absurd (cc)

or_none-texts :
    (v : Value) → or_null is_text_list v ≡ true → or_null is_text_list (or_none v) ≡ true
unfolding or_none truthy
or_none-texts null h = refl
or_none-texts (array nil) h = refl
or_none-texts (array (cons v items)) h = h
or_none-texts _ h = absurd (cc)

true_or_none-boolean :
    (v : Value) → is_boolean v ≡ true → or_null is_boolean (true_or_none v) ≡ true
unfolding true_or_none truthy
true_or_none-boolean (boolean true) h = refl
true_or_none-boolean (boolean false) h = refl
true_or_none-boolean _ h = absurd (cc)

module _ {ns : Fields} {a : Argument} (p : Parsed ns a) where
  fits_or_null :
      (f : Value → Bool)
      → ((v : Value) → is_taken a.takes v ≡ true → f v ≡ true)
      → a.default ≡ some null
      → or_null f p.value ≡ true
  fits_or_null f taken e =
      value_passes p (or_null f) (rw e refl) (λ v h. passes_or_null f v (taken v h))

abbrev overrides_of : Value → Value → Value → Value → Value → Value → Value → Value → Fields
overrides_of tcp_port discovery_port bootstrap accepts simulate delay runtime env =
    field "tcp_port" tcp_port (
      field "discovery_port" discovery_port (
        field "bootstrap_peers" (or_none bootstrap) (
          field "accepts_tasks" accepts (
            field "force_simulate" (true_or_none simulate) (
              field "simulate_delay" delay (
                field "max_runtime_seconds" runtime
                  (field "env_passthrough" (or_none env) end)))))))

abbrev pub overrides_in : (ns : Fields) → Conforms ns start_arguments → Fields
overrides_in ns
      (
        tcp_port,
        (discovery_port, (bootstrap, (accepts, (simulate, (delay, (runtime, (env, _))))))),
      ) =
    overrides_of tcp_port.value discovery_port.value bootstrap.value accepts.value simulate.value
      delay.value runtime.value env.value

pub start_overrides-ok :
    (ns : Fields) (h : Conforms ns start_arguments) → start_overrides ns ≡ ok (overrides_in ns h)
unfolding start_overrides
start_overrides-ok ns
      (
        tcp_port,
        (discovery_port, (bootstrap, (accepts, (simulate, (delay, (runtime, (env, _))))))),
      ) =
    rw
      (
        attribute-ok "tcp_port" ns tcp_port.value tcp_port.found,
        attribute-ok "discovery_port" ns discovery_port.value discovery_port.found,
        attribute-ok "bootstrap_peer" ns bootstrap.value bootstrap.found,
        attribute-ok "accepts_tasks" ns accepts.value accepts.found,
        attribute-ok "force_simulate" ns simulate.value simulate.found,
        attribute-ok "simulate_delay" ns delay.value delay.found,
        attribute-ok "max_runtime" ns runtime.value runtime.found,
        attribute-ok "env_passthrough" ns env.value env.found,
      )
      refl

pub start_command-ok :
    (py : PyTexts) (whole_text : Value → Result String) (ask : String → String → Fields → ℤ → Reply)
    (data_dir : String) (ns : Fields) (h : Conforms ns start_arguments)
    → start_command py whole_text ask data_dir ns ≡ ok (started data_dir (overrides_in ns h))
unfolding start_command
start_command-ok py whole_text ask data_dir ns h = rw (start_overrides-ok ns h) refl

overrides_in-AllSuit : (ns : Fields) (h : Conforms ns start_arguments) → AllSuit (overrides_in ns h)
unfolding has_type
overrides_in-AllSuit ns
      (
        tcp_port,
        (discovery_port, (bootstrap, (accepts, (simulate, (delay, (runtime, (env, _))))))),
      ) =
    (
      fits_or_null tcp_port is_int whole_ints refl,
      (
        fits_or_null discovery_port is_int whole_ints refl,
        (
          or_none-texts bootstrap.value (fits_or_null bootstrap is_text_list repeated_texts refl),
          (
            fits_or_null accepts is_boolean (sets_booleans false) refl,
            (
              true_or_none-boolean simulate.value
                  (value_passes simulate is_boolean refl (sets_booleans true)),
              (
                fits_or_null delay is_number decimal_numbers refl,
                (
                  fits_or_null runtime is_int whole_ints refl,
                  (or_none-texts env.value (fits_or_null env is_text_list repeated_texts refl), tt),
                ),
              ),
            ),
          ),
        ),
      ),
    )

-- Let the namespace of `mesh start` be as `parse_args` makes it, and let each field of the
-- configuration that the file holds, if there is a file, have the type that `PeerConfig` annotates.
-- Then `cmd_start` hands overrides to `PeerConfig.load`, and each field of the configuration that
-- is loaded, which the file holds from then on, has its annotated type.
pub start_command-Typed :
    (py : PyTexts) (whole_text : Value → Result String) (ask : String → String → Fields → ℤ → Reply)
    (data_dir : String) (ns : Fields) (file : Option Fields)
    → Conforms ns start_arguments
    → AllTyped (read_values file)
    → (overrides : Fields) × (start_command py whole_text ask data_dir ns
        ≡ ok (started data_dir overrides))
      × AllTyped (load_config file overrides)
start_command-Typed py whole_text ask data_dir ns file h typed = (
  overrides_in ns h,
  start_command-ok py whole_text ask data_dir ns h,
  load_config-AllTyped file (overrides_in ns h) typed (overrides_in-AllSuit ns h),
)
