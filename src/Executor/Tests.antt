-- ===== src/Executor/Tests.antt =====
-- Runs of a job on a worker with one command line tool.
use agent_torrent.Prelude.{◌≡◌, refl, [], ◌∷◌, none, false, text_eq, if◌then◌else◌, pos}
use agent_torrent.Py.{text, field, end}
use agent_torrent.Executor.{Launch, Ran, exited, find_var, sandbox_env, execute_job}
use agent_torrent.Executor.Sandbox.{first_some, granted, fresh_env, find_var-sandbox_env}
use agent_torrent.Executor.Run.{Finishes, execute_job-Finishes}
use agent_torrent.Executor.Confined.{Confined, rerun, execute_job-rerun}
use agent_torrent.Executor.Samples.{sys}
use agent_torrent.Job.Samples.{fields, job, fields-Describes}

find_var-sandbox_env_example :
    find_var "TOKEN" (sandbox_env sys ("TOKEN" ∷ []))
    ≡ first_some (granted sys "TOKEN" ("TOKEN" ∷ [])) (find_var "TOKEN" (fresh_env sys))
find_var-sandbox_env_example = find_var-sandbox_env sys "TOKEN" ("TOKEN" ∷ [])

hidden : find_var "SECRET" (sandbox_env sys ("TOKEN" ∷ [])) ≡ none
unfolding find_var sandbox_env
hidden = refl

execute_job-Finishes_example :
    Finishes sys fields (execute_job sys (field "claude" (text "1.0") end) false [] fields)
execute_job-Finishes_example =
    execute_job-Finishes sys (field "claude" (text "1.0") end) false [] fields _ fields-Describes

abbrev failing : Launch → Ran
failing l =
    if text_eq l.cwd "/tmp/agenttorrent-job-1"
    then exited (pos 0) "done" ""
    else exited (pos 1) "" "outside"

agrees : (l : Launch) → Confined sys [] fields l → sys.run l ≡ failing l
agrees l h = rw (h.in_workdir) refl

execute_job-rerun_example :
    execute_job sys (field "claude" (text "1.0") end) false [] fields
    ≡ execute_job (rerun sys failing) (field "claude" (text "1.0") end) false [] fields
execute_job-rerun_example =
    execute_job-rerun sys failing [] fields agrees (field "claude" (text "1.0") end) false job
      fields-Describes
