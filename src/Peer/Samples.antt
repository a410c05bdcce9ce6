-- ===== src/Peer/Samples.antt =====
-- Test data: the start of a peer, and what its connections draw from the system.
use agent_torrent.Prelude.{String, [], true, false}
use agent_torrent.Py.{text, field, end, PyTexts}
use agent_torrent.Ledger.{Stamp}
use agent_torrent.Protocol.{refused}
use agent_torrent.Peer.Worker.{Config}
use agent_torrent.Peer.Control.{Turn}
use agent_torrent.Peer.Node.{Boot}

abbrev pub stamp : Stamp
stamp = record { txn_id = "t"; ts = 1 }

abbrev pub config : Config
config = record {
  harnesses = field "claude" (text "1.0") end;
  accepts_tasks = true;
  force_simulate = false;
  max_runtime_seconds = 300;
  env_passthrough = [];
}

abbrev pub boot : Boot
boot = record { config = config; tcp_port = 9001; stamp = stamp }

abbrev pub py : PyTexts
py = record {
  str_raised = λ e. "raised";
  repr_raised = λ e. "Raised()";
  repr_text = λ s. s;
  str_other = λ v. "other";
  repr_other = λ v. "other";
}

abbrev pub turn_from : String → Turn
turn_from host = record {
  host = host;
  now = 9;
  draws = record { job_id = "0a"; escrow_stamp = stamp; closing_stamp = stamp };
  dial = λ p. refused "no route";
}
