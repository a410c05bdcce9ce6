-- ===== src/Job/Samples.antt =====
-- Test data: a job.
use agent_torrent.Prelude.{String, refl, arith, pos}
use agent_torrent.Py.{text, int, Fields, field, end}
use agent_torrent.Job.Validate.{Job, Describes}

abbrev pub fields : Fields
fields = field "job_id" (text "0a") (
    field "task_text" (text "reverse a string") (
      field "required_harness" (text "any") (
        field "max_tokens" (int (pos 100)) (
          field "max_runtime_seconds" (int (pos 60))
            (field "expected_output" (text "a function") end)))))

abbrev pub job : Job
job = record {
  job_id = "0a";
  task_text = "reverse a string";
  required_harness = "any";
  max_tokens = 100;
  max_runtime_seconds = 60;
  expected_output = "a function";
}

pub fields-Describes : Describes fields job
unfolding agent_torrent.Py.lookup agent_torrent.Prelude.is_blank agent_torrent.Py.is_one_of
fields-Describes = record {
  at_job_id = refl;
  at_task_text = refl;
  at_required_harness = refl;
  at_max_tokens = refl;
  at_max_runtime_seconds = refl;
  at_expected_output = refl;
  job_id_full = refl;
  task_text_full = refl;
  expected_output_full = refl;
  harness_known = refl;
  max_tokens_positive = omega arith;
  max_runtime_positive = omega arith;
}
