-- ===== src/Peer/Lifecycle.antt =====
-- The life of the process of a peer, `Peer.start`, `Peer.stop` and `Peer.run_forever` of
-- agenttorrent/peer.py with `Discovery.start` and `Discovery.stop` of agenttorrent/discovery.py: its sockets,
-- its threads and the file of the running peer. What the system answers are arguments.
pub mod Clean
mod Tests
use agent_torrent.Prelude.{ℕ, Bool, true, false, List, [], ◌∷◌, ◌++◌, Option, none, some}
use agent_torrent.Py.{Value, Error, Result, ok, err}
use agent_torrent.Py.Exec.{Exec, pure, lift, gets, modify, ◌>>=◌, ◌>>◌, continue}
use agent_torrent.Identity.{Identity}
use agent_torrent.Discovery.{Discovery}
use agent_torrent.Peer.Node.{runtime_dict}

-- A socket that is not made yet, bound to a port, or closed.
pub data Socket : Type 0 where
  unmade : Socket
  bound : ℕ → Socket
  closed : Socket

pub data Thread : Type 0 where
  send_thread recv_thread accept_thread : Thread

-- The file of the running peer: not there, with the text of a value, or cut short.
pub data RuntimeFile : Type 0 where
  missing : RuntimeFile
  holding : Value → RuntimeFile
  cut_short : RuntimeFile

-- The attributes of `Peer` and of its `Discovery` that its life changes, and the file of the running peer.
pub record Process : Type 0 where
  pub identity : Identity
  pub manifest : Value
  pub discovery_port : ℕ
  pub tcp_port : ℕ
  pub server : Socket
  pub discovery : Option Discovery
  pub recv_socket : Socket
  pub stopped : Bool
  pub discovery_stopped : Bool
  pub threads : List Thread
  pub runtime_file : RuntimeFile

-- What `write_text` does: it writes the file, raises before it has opened the file, or raises once the
-- file is there and empty, with a part of the text or none.
pub data Writing : Type 0 where
  written : Writing
  unopened : Error → Writing
  broken_off : Error → Writing

-- What the system answers to a start: the port that the server is bound to and the binding of the
-- discovery port, or an `OSError`, the id of the process, and the writing of the file.
pub record Startup : Type 0 where
  pub bind_server : Result ℕ
  pub bind_discovery : Result (Unit {0})
  pub pid : ℕ
  pub write_file : Writing

-- `Discovery.start`
unfoldable pub start_discovery : Startup → Exec Process (Unit {0})
start_discovery answers = do
  lift answers.bind_discovery
  modify λ p. record p {
    recv_socket = bound p.discovery_port;
    threads = p.threads ++ send_thread ∷ recv_thread ∷ [];
  }

-- `self._server_sock = server`, once it listens, and `self.tcp_port`
unfoldable pub serve_at : ℕ → Process → Process
serve_at port p = record p { server = bound port; tcp_port = port }

-- `self.discovery = Discovery(…)`
unfoldable pub make_discovery : Process → Process
make_discovery p = record p {
  discovery =
      some (record {
        identity = p.identity;
        tcp_port = p.tcp_port;
        manifest = p.manifest;
        table = [];
      });
}

-- `write_text(json.dumps(runtime, indent=2))`
unfoldable pub write_runtime : Writing → Value → Exec Process (Unit {0})
write_runtime written v p = (ok tt, record p { runtime_file = holding v })
write_runtime (unopened e) v p = (err e, p)
write_runtime (broken_off e) v p = (err e, record p { runtime_file = cut_short })

unfoldable pub start : Startup → Exec Process (Unit {0})
unfolding start_discovery serve_at make_discovery write_runtime
start answers = do
  port ← lift answers.bind_server
  modify (serve_at port)
  modify make_discovery
  start_discovery answers
  modify λ p. record p { threads = p.threads ++ accept_thread ∷ [] }
  runtime ← gets λ p. runtime_dict p.identity.peer_id p.tcp_port answers.pid
  write_runtime answers.write_file runtime

-- `if sock is not None: sock.close()`
unfoldable pub close_socket : Socket → Socket
close_socket unmade = unmade
close_socket _ = closed

-- `Discovery.stop`, if there is a discovery
unfoldable pub stop_discovery : Option Discovery → Process → Process
unfolding close_socket
stop_discovery none p = p
stop_discovery (some d) p = record p {
  discovery_stopped = true;
  recv_socket = close_socket p.recv_socket;
}

-- `unlink(missing_ok=True)`, whose `OSError` is passed over
unfoldable pub unlink : Bool → RuntimeFile → RuntimeFile
unlink true file = missing
unlink false file = file

-- `unlinks` says whether the file can be removed.
unfoldable pub stop : Bool → Process → Process
unfolding stop_discovery close_socket unlink
stop unlinks p =
    let silenced = stop_discovery p.discovery (record p { stopped = true }) in
    record silenced {
      server = close_socket silenced.server;
      runtime_file = unlink unlinks silenced.runtime_file;
    }

-- How the wait of `run_forever` ends: by the event, by a `KeyboardInterrupt`, which is caught, or by
-- another exception.
pub data Waited : Type 0 where
  was_set interrupted : Waited
  broke : Error → Waited

unfoldable pub after_wait : Waited → Result (Unit {0})
after_wait (broke e) = err e
after_wait _ = ok tt

unfoldable pub run_forever : Startup → Waited → Bool → Exec Process (Unit {0})
unfolding start stop after_wait
run_forever answers waited unlinks = do
  start answers
  modify (stop unlinks)
  lift (after_wait waited)
