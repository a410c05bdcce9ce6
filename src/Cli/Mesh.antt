-- ===== src/Cli/Mesh.antt =====
-- `main` of agenttorrent/cli.py: the command that a namespace names, with what it asks of the peer. `ask`
-- is `_control_request`: it takes the data directory, the command, its arguments and the timeout.
use Prim.Native.Nat.{◌^◌}
use agent_torrent.Prelude.{
  ℕ, ◌+◌, ◌-◌, String, Bool, true, List, none, some, ℤ, pos, pos_part, neg_part, ◌+ℤ◌, ltb,
  if◌then◌else◌,
}
use agent_torrent.Py.{
  Value, Fields, field, end, null, boolean, int, lookup, is_text_eq, truthy, Result, ok, err,
  attribute_error, type_error, overflow_error, PyTexts, ◌>>=◌,
}
use agent_torrent.Cli.Request.{Reply}
use agent_torrent.Cli.{Line, delegate_fields, cmd_delegate, cmd_ledger}
use agent_torrent.Cli.Show.{text_of, cmd_peers}

-- `_CONTROL_TIMEOUT_BASE`, in seconds
abbrev pub control_timeout_base : ℕ
control_timeout_base = 30

-- `ns.k`
unfoldable pub attribute : String → Fields → Result Value
unfolding lookup
attribute k namespace = elim (lookup k namespace) [ none ↦ err attribute_error | some v ↦ ok v ]

-- `v or None`
unfoldable pub or_none : Value → Value
unfolding truthy
or_none v = if truthy v then v else null

-- `True if v else None`
unfoldable pub true_or_none : Value → Value
unfolding truthy
true_or_none v = if truthy v then boolean true else null

-- The overrides that `cmd_start` passes on; `None if v is None else v` is `v`.
unfoldable pub start_overrides : Fields → Result Fields
unfolding attribute or_none true_or_none
start_overrides ns = do
  tcp_port ← attribute "tcp_port" ns
  discovery_port ← attribute "discovery_port" ns
  bootstrap_peer ← attribute "bootstrap_peer" ns
  accepts_tasks ← attribute "accepts_tasks" ns
  force_simulate ← attribute "force_simulate" ns
  simulate_delay ← attribute "simulate_delay" ns
  max_runtime ← attribute "max_runtime" ns
  env_passthrough ← attribute "env_passthrough" ns
  ok (
      field "tcp_port" tcp_port (
        field "discovery_port" discovery_port (
          field "bootstrap_peers" (or_none bootstrap_peer) (
            field "accepts_tasks" accepts_tasks (
              field "force_simulate" (true_or_none force_simulate) (
                field "simulate_delay" simulate_delay (
                  field "max_runtime_seconds" max_runtime
                    (field "env_passthrough" (or_none env_passthrough) end))))))))

-- The arguments of `cmd_delegate`'s request.
unfoldable pub delegate_request : Fields → Result Fields
unfolding attribute
delegate_request ns = do
  task ← attribute "task" ns
  harness ← attribute "harness" ns
  max_tokens ← attribute "max_tokens" ns
  max_runtime ← attribute "max_runtime" ns
  expect ← attribute "expect" ns
  ok (delegate_fields task harness max_tokens max_runtime expect)

-- The least integer that rounds to no float, 2^1024 - 2^970
float_bound : ℕ
float_bound = 2 ^ 1024 - 2 ^ 970

-- The integers that Python can convert to a float
unfoldable pub fits_float : ℤ → Bool
unfolding float_bound
fits_float n = ltb (pos_part n + neg_part n) float_bound

-- `_CONTROL_TIMEOUT_BASE + v`, of an integer; the sum is exact, where Python rounds it to a float.
unfoldable pub control_timeout : Value → Result ℤ
unfolding fits_float
control_timeout (int n) =
    if fits_float n then ok (pos control_timeout_base +ℤ n) else err overflow_error
control_timeout _ = err type_error

-- `cmd_start` hands its overrides to `PeerConfig.load` and runs the peer; the others end with an exit code
-- or an exception.
pub data Ended : Type 0 where
  started : String → Fields → Ended
  printed : Result ℕ × List Line → Ended

module _ (py : PyTexts) (whole : Value → Result String)
    (ask : String → String → Fields → ℤ → Reply) where
  unfoldable pub peers_command : String → Fields → Result Ended
  peers_command data_dir ns =
      let reply = ask data_dir "peers" end (pos control_timeout_base) in
      attribute "json" ns >>= λ json. ok (printed (cmd_peers py data_dir whole (truthy json) reply))

  unfoldable pub ledger_command : String → Fields → Result Ended
  ledger_command data_dir ns =
      let reply = ask data_dir "ledger" end (pos control_timeout_base) in
      attribute "json" ns >>= λ json. ok (printed (cmd_ledger py data_dir (truthy json) reply))

  unfoldable pub delegate_command : String → Fields → Result Ended
  unfolding delegate_request control_timeout
  delegate_command data_dir ns = do
    args ← delegate_request ns
    max_runtime ← attribute "max_runtime" ns
    timeout ← control_timeout max_runtime
    json ← attribute "json" ns
    ok (printed (cmd_delegate py data_dir (truthy json) (ask data_dir "delegate" args timeout)))

  unfoldable pub start_command : String → Fields → Result Ended
  unfolding start_overrides
  start_command data_dir ns = start_overrides ns >>= λ overrides. ok (started data_dir overrides)

  -- `ns.func(ns)`, by the `set_defaults` of the command's subparser
  unfoldable pub command_func : Value → String → Fields → Result Ended
  unfolding start_command peers_command delegate_command ledger_command
  command_func command data_dir ns =
      if is_text_eq "start" command
      then start_command data_dir ns
      else (if is_text_eq "peers" command
          then peers_command data_dir ns
          else (if is_text_eq "delegate" command
              then delegate_command data_dir ns
              else ledger_command data_dir ns))

  -- `main`, on the namespace of its command line
  unfoldable pub mesh_main : Fields → Result Ended
  unfolding command_func
  mesh_main ns = do
    named ← attribute "data_dir" ns
    data_dir ← text_of named
    command ← attribute "command" ns
    command_func command data_dir ns
