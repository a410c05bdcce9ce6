-- ===== src/Job/Tests.antt =====
-- Runs of the job validation.
use agent_torrent.Prelude.{String, ◌≡◌, refl, arith, ℤ, pos, ◌⊎◌}
use agent_torrent.Py.{object, text, int, null, ok, err, job_error}
use agent_torrent.Job.{validate_job, new_job}
use agent_torrent.Job.Validate.{IsJob, validate_job_decides}
use agent_torrent.Job.Samples.{fields}

accepted : validate_job (object fields) ≡ ok (object fields)
unfolding validate_job agent_torrent.Job.raise_listed agent_torrent.Job.missing_fields
    agent_torrent.Job.job_problems agent_torrent.Prelude.is_blank
accepted = refl

no_object : validate_job null ≡ err (job_error "job manifest is not an object")
unfolding validate_job
no_object = refl

blank_task :
    new_job "0a" (text " ") (text "any") (int (pos 1)) (int (pos 1)) (text "x")
    ≡ err (job_error "task_text must be a non-empty string")
unfolding new_job validate_job agent_torrent.Job.raise_listed agent_torrent.Job.missing_fields
    agent_torrent.Job.job_problems agent_torrent.Prelude.is_blank agent_torrent.Prelude.join
blank_task = refl

validate_job_decides_example :
    ((validate_job (object fields) ≡ ok (object fields)) × IsJob (object fields))
    ⊎ ((s : String) × (validate_job (object fields) ≡ err (job_error s)) × ¬ IsJob (object fields))
validate_job_decides_example = validate_job_decides (object fields)
