-- ===== src/Cli/Namespaces.antt =====
-- Parsed command lines: a start, and a delegation.
use agent_torrent.Prelude.{
  String, ◌≡◌, refl, inl, inr, true, false, not, ◌&&◌, some, ℤ, pos, ◌+ℤ◌, is_blank, if◌then◌else◌,
}
use agent_torrent.Py.{
  Value, Fields, field, end, null, boolean, int, float, array, text, nil, cons, truthy, lookup,
  Result, ok, err, overflow_error, is_positive,
}
use agent_torrent.Job.{new_job}
use agent_torrent.Job.New.{returns}
use agent_torrent.Peer.Samples.{py}
use agent_torrent.Peer.Settings.{load_config, read_values}
use agent_torrent.Peer.Settings.Typed.{AllTyped}
use agent_torrent.Cli.Request.{Reply, not_running}
use agent_torrent.Cli.{cmd_delegate}
use agent_torrent.Cli.Parser.{
  Conforms, start_arguments, delegate_arguments, IsParsed, build_parser, subparser,
}
use Prim.Native.Nat.{◌^◌}
use agent_torrent.Cli.Mesh.{
  fits_float, started, printed, start_command, delegate_command, mesh_main,
}
use agent_torrent.Cli.Typed.{Delegation, request_of, delegate_command-Typed}
use agent_torrent.Cli.Runs.{Runs}
use agent_torrent.Cli.Start.{start_command-Typed}

abbrev digits_of : Value → Result String
digits_of v = ok "0"

abbrev nobody_runs : String → String → Fields → ℤ → Reply
nobody_runs data_dir command args timeout = not_running

-- `mesh delegate reverse --harness codex --json`
abbrev delegate_namespace : Fields
delegate_namespace = field "data_dir" (text "~/.agenttorrent") (
    field "verbose" (boolean false) (
      field "command" (text "delegate") (
        field "task" (text "reverse") (
          field "harness" (text "codex") (
            field "max_tokens" (int (pos 4096)) (
              field "max_runtime" (int (pos 60))
                (field "expect" (text "plain text answer") (field "json" (boolean true) end))))))))

delegate_namespace-Conforms : Conforms delegate_namespace delegate_arguments
unfolding agent_torrent.Py.lookup agent_torrent.Cli.Parser.is_taken
delegate_namespace-Conforms = (
  record { value = text "reverse"; found = refl; fits = inr refl },
  (
    record { value = text "codex"; found = refl; fits = inr refl },
    (
      record { value = int (pos 4096); found = refl; fits = inl refl },
      (
        record { value = int (pos 60); found = refl; fits = inl refl },
        (
          record { value = text "plain text answer"; found = refl; fits = inl refl },
          (record { value = boolean true; found = refl; fits = inr refl }, tt),
        ),
      ),
    ),
  ),
)

id_is_full : is_blank "0a" ≡ false
unfolding is_blank
id_is_full = refl

delegate_command-Typed_example :
    (d : Delegation delegate_namespace) × (delegate_command py digits_of nobody_runs "dir"
        delegate_namespace
      ≡ (if fits_float d.max_runtime
          then ok (
              printed (
                cmd_delegate py "dir"
                  (truthy d.json)
                  (nobody_runs "dir" "delegate" (request_of d) (pos 30 +ℤ d.max_runtime))))
          else err overflow_error))
    × (returns (
          new_job "0a"
            (text d.task)
            (text d.harness)
            (int d.max_tokens)
            (int d.max_runtime)
            (text d.expect))
        ≡ (not (is_blank d.task)
            && (not (is_blank d.expect)
                && (is_positive (int d.max_tokens) && is_positive (int d.max_runtime)))))
delegate_command-Typed_example =
    delegate_command-Typed py digits_of nobody_runs "dir" "0a" delegate_namespace
      delegate_namespace-Conforms id_is_full

-- `mesh start --tcp-port 9001 --bootstrap-peer 10.0.0.9:47474 --force-simulate`
abbrev start_namespace : Fields
start_namespace = field "data_dir" (text "~/.agenttorrent") (
    field "command" (text "start") (
      field "tcp_port" (int (pos 9001)) (
        field "discovery_port" null (
          field "bootstrap_peer" (array (cons (text "10.0.0.9:47474") nil)) (
            field "accepts_tasks" null (
              field "force_simulate" (boolean true) (
                field "simulate_delay" null
                  (field "max_runtime" null (field "env_passthrough" null end)))))))))

start_namespace-Conforms : Conforms start_namespace start_arguments
unfolding agent_torrent.Py.lookup agent_torrent.Cli.Parser.is_taken
start_namespace-Conforms = (
  record { value = int (pos 9001); found = refl; fits = inr refl },
  (
    record { value = null; found = refl; fits = inl refl },
    (
      record { value = array (cons (text "10.0.0.9:47474") nil); found = refl; fits = inr refl },
      (
        record { value = null; found = refl; fits = inl refl },
        (
          record { value = boolean true; found = refl; fits = inr refl },
          (
            record { value = null; found = refl; fits = inl refl },
            (
              record { value = null; found = refl; fits = inl refl },
              (record { value = null; found = refl; fits = inl refl }, tt),
            ),
          ),
        ),
      ),
    ),
  ),
)

start_command-Typed_example :
    (overrides : Fields) × (start_command py digits_of nobody_runs "dir" start_namespace
      ≡ ok (started "dir" overrides))
    × AllTyped (load_config (some (field "simulate_delay" (float 5) end)) overrides)
unfolding read_values agent_torrent.Peer.Settings.Typed.has_type
start_command-Typed_example =
    start_command-Typed py digits_of nobody_runs "dir" start_namespace
      (some (field "simulate_delay" (float 5) end)) start_namespace-Conforms (refl, tt)

main_starts :
    mesh_main py digits_of nobody_runs start_namespace
    ≡ ok (
        started "~/.agenttorrent" (
          field "tcp_port" (int (pos 9001)) (
            field "discovery_port" null (
              field "bootstrap_peers" (array (cons (text "10.0.0.9:47474") nil)) (
                field "accepts_tasks" null (
                  field "force_simulate" (boolean true) (
                    field "simulate_delay" null
                      (field "max_runtime_seconds" null (field "env_passthrough" null end)))))))))
unfolding mesh_main agent_torrent.Cli.Show.text_of
main_starts = refl

delegate_namespace-IsParsed : IsParsed "~/.agenttorrent" delegate_namespace
unfolding agent_torrent.Py.lookup subparser build_parser
delegate_namespace-IsParsed = record {
  globals = (
    record { value = text "~/.agenttorrent"; found = refl; fits = inl refl },
    (record { value = boolean false; found = refl; fits = inl refl }, tt),
  );
  command = "delegate";
  named = refl;
  arguments = delegate_arguments;
  of_command = refl;
  locals = delegate_namespace-Conforms;
}

too_large_for_float : fits_float (pos (10 ^ 400)) ≡ false
unfolding fits_float
too_large_for_float = refl

fits : fits_float (pos 60) ≡ true
unfolding fits_float
fits = refl
