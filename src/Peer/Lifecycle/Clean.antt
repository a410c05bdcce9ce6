-- ===== src/Peer/Lifecycle/Clean.antt =====
-- What a process leaves while it runs and when it has ended.
use agent_torrent.Prelude.{◌≡◌, ◌⊎◌, Bool, true, [], ◌∷◌, some}
use agent_torrent.Py.{Error, ok, err}
use agent_torrent.Peer.Node.{runtime_dict}
use agent_torrent.Peer.Lifecycle.{
  holding, cut_short, broken_off, bound, closed, send_thread, recv_thread, accept_thread, Process,
  Startup, start, unlink, stop, Waited, after_wait, run_forever,
}

-- A process that runs: it listens on the port that the system has given it, its beacons and the file of
-- the running peer name that port, and its three loops have been started.
pub record IsUp (answers : Startup) (p : Process) : Type 0 where
  pub given : answers.bind_server ≡ ok p.tcp_port
  pub listens : p.server ≡ bound p.tcp_port
  pub announces :
      p.discovery
      ≡ some (record {
        identity = p.identity;
        tcp_port = p.tcp_port;
        manifest = p.manifest;
        table = [];
      })
  pub hears : p.recv_socket ≡ bound p.discovery_port
  pub loops : p.threads ≡ send_thread ∷ recv_thread ∷ accept_thread ∷ []
  pub named : p.runtime_file ≡ holding (runtime_dict p.identity.peer_id p.tcp_port answers.pid)

-- A process that has ended: its loops are told to stop, and its sockets are closed.
pub record IsDown (unlinks : Bool) (before p : Process) : Type 0 where
  pub told : p.stopped ≡ true
  pub discovery_told : p.discovery_stopped ≡ true
  pub no_server : p.server ≡ closed
  pub no_socket : p.recv_socket ≡ closed
  pub file : p.runtime_file ≡ unlink unlinks before.runtime_file

abbrev pub Lived : Startup → Waited → Bool → Process → Type 0
Lived answers waited unlinks p =
    let up = start answers p in
    let out = run_forever answers waited unlinks p in
    ((e : Error) × (out ≡ (err e, up.1))
      × (((up.1).runtime_file ≡ p.runtime_file)
          ⊎ ((answers.write_file ≡ broken_off e) × ((up.1).runtime_file ≡ cut_short))))
    ⊎ (IsUp answers up.1
        × (out ≡ (after_wait waited, stop unlinks up.1))
        × IsDown unlinks up.1 out.1)
