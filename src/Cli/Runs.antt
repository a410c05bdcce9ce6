-- ===== src/Cli/Runs.antt =====
-- That every command line that the parser accepts runs its command.
use agent_torrent.Prelude.{String, ◌≡◌, some, ℤ, pos, ◌+ℤ◌, if◌then◌else◌}
use agent_torrent.Py.{Value, Fields, end, lookup, truthy, Result, ok, err, overflow_error, PyTexts}
use agent_torrent.Cli.Request.{Reply}
use agent_torrent.Cli.Show.{cmd_peers}
use agent_torrent.Cli.{cmd_delegate, cmd_ledger}
use agent_torrent.Cli.Mesh.{Ended, started, printed, fits_float, start_overrides}
use agent_torrent.Cli.Typed.{Delegation, request_of}

-- What each command does with its namespace: a start hands the overrides on; the others ask the peer for what
-- they are named after, and show the reply, as JSON or not by the namespace; and a delegation whose limit is
-- too large for a float asks nothing.
pub data Runs (py : PyTexts) (whole_text : Value → Result String)
    (ask : String → String → Fields → ℤ → Reply) (data_dir : String) (ns : Fields)
    : String → Result Ended → Type 0 where
  starts :
      (overrides : Fields)
      → start_overrides ns ≡ ok overrides
      → Runs py whole_text ask data_dir ns "start" (ok (started data_dir overrides))
  shows_peers :
      (json : Value)
      → lookup "json" ns ≡ some json
      → Runs py whole_text ask data_dir ns "peers" (
          ok (
            printed
              (cmd_peers py data_dir whole_text (truthy json) (ask data_dir "peers" end (pos 30)))))
  delegates :
      (d : Delegation ns)
      → Runs py whole_text ask data_dir ns "delegate" (
          if fits_float d.max_runtime
          then ok (
              printed (
                cmd_delegate py data_dir
                  (truthy d.json)
                  (ask data_dir "delegate" (request_of d) (pos 30 +ℤ d.max_runtime))))
          else err overflow_error)
  shows_ledger :
      (json : Value)
      → lookup "json" ns ≡ some json
      → Runs py whole_text ask data_dir ns "ledger"
          (ok (printed (cmd_ledger py data_dir (truthy json) (ask data_dir "ledger" end (pos 30)))))

module _ (py : PyTexts) (whole_text : Value → Result String)
    (ask : String → String → Fields → ℤ → Reply) (data_dir : String) (ns : Fields) where
  abbrev RunsHere : String → Result Ended → Type 0
  RunsHere = Runs py whole_text ask data_dir ns
