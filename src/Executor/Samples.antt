-- ===== src/Executor/Samples.antt =====
-- Test data: a system with one command line tool.
use agent_torrent.Prelude.{none, some, text_eq, if◌then◌else◌, pos}
use agent_torrent.Py.{ok}
use agent_torrent.Executor.{System, exited}

abbrev pub sys : System
sys = record {
  which = λ name. if text_eq name "claude" then some "/usr/bin/claude" else none;
  python = "/usr/bin/python";
  api_script = "/opt/api_harness.py";
  environ = λ name. if text_eq name "PATH" then some "/usr/bin" else some "value";
  defpath = "/bin:/usr/bin";
  workdir = "/tmp/agenttorrent-job-1";
  make_dir = ok tt;
  sleep = λ v. ok tt;
  run = λ l. exited (pos 0) "done" "";
  runtime = 1000;
}
