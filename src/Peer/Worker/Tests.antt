-- ===== src/Peer/Worker/Tests.antt =====
-- A run of the worker on an offer that it accepts.
use agent_torrent.Prelude.{ℕ, String, ◌≡◌, refl, none, some, List, [], ◌∷◌, true, false, pos, ◌+ℤ◌}
use agent_torrent.Py.{Value, object, text, field, end, ok}
use agent_torrent.Ledger.{Stamp, open_ledger}
use agent_torrent.Identity.Samples.{toy_crypto, alice, bob}
use agent_torrent.Executor.Samples.{sys}
use agent_torrent.Job.Samples.{fields}
use agent_torrent.Peer.Delegate.{Session}
use agent_torrent.Peer.Worker.{Config, accept, answer_offer, handle_task_offer}
use agent_torrent.Peer.Worker.Earns.{Earned, handle_task_offer-Earned}

abbrev stamp : Stamp
stamp = record { txn_id = "t"; ts = 1 }

abbrev config : Config
config = record {
  harnesses = field "claude" (text "1.0") end;
  accepts_tasks = true;
  force_simulate = false;
  max_runtime_seconds = 300;
  env_passthrough = [];
}

abbrev session : Session
session = record {
  ledger = open_ledger stamp none;
  conn = record {
    remote_peer_id = some alice.peer_id;
    inbox = [];
    sends = [];
    clock = λ n. n;
    outbox = [];
  };
}

abbrev message : Value
message = object (field "body" (object (field "job" (object fields) end)) end)

taken : answer_offer config bob.peer_id alice.peer_id (object fields) ≡ ok (accept fields)
unfolding answer_offer agent_torrent.Identity.identity agent_torrent.Job.validate_job
    agent_torrent.Job.raise_listed agent_torrent.Job.missing_fields agent_torrent.Job.job_problems
    agent_torrent.Prelude.is_blank agent_torrent.Executor.field_text agent_torrent.Executor.shown
taken = refl

handle_task_offer-Earned_example :
    Earned config bob.peer_id alice.peer_id stamp message session.ledger
      ((handle_task_offer toy_crypto bob sys config stamp alice.peer_id message session).1).ledger
handle_task_offer-Earned_example =
    handle_task_offer-Earned alice.peer_id stamp toy_crypto bob sys config message session
