-- ===== src/Peer/Lifecycle/Tests.antt =====
-- A peer that runs until it is interrupted, and a start whose discovery port is taken.
use agent_torrent.Prelude.{◌≡◌, refl, true, false, [], none}
use agent_torrent.Py.{Value, null, ok, err, os_error}
use agent_torrent.Identity.Samples.{alice}
use agent_torrent.Peer.Lifecycle.{
  Process, Startup, unmade, missing, written, cut_short, broken_off, interrupted, start,
  run_forever,
}

abbrev process : Process
process = record {
  identity = alice;
  manifest = null;
  discovery_port = 47474;
  tcp_port = 0;
  server = unmade;
  discovery = none;
  recv_socket = unmade;
  stopped = false;
  discovery_stopped = false;
  threads = [];
  runtime_file = missing;
}

abbrev answers : Startup
answers = record { bind_server = ok 9001; bind_discovery = ok tt; pid = 7; write_file = written }

named_while_up : (start answers process).1.tcp_port ≡ 9001
unfolding start agent_torrent.Py.Exec.continue
named_while_up = refl

gone_at_end : (run_forever answers interrupted true process).1.runtime_file ≡ missing
unfolding run_forever agent_torrent.Py.Exec.continue
gone_at_end = refl

port_taken :
    (run_forever
      (record answers { bind_discovery = err (os_error "in use") })
      interrupted
      true
      process).0
    ≡ err (os_error "in use")
unfolding run_forever agent_torrent.Py.Exec.continue
port_taken = refl

disk_full :
    (run_forever
      (record answers { write_file = broken_off (os_error "disk full") })
      interrupted
      true
      process).1.runtime_file
    ≡ cut_short
unfolding run_forever agent_torrent.Py.Exec.continue
disk_full = refl
