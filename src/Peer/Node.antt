-- ===== src/Peer/Node.antt =====
-- One peer over its life, `Peer.__init__`, `Peer.start` and the loops that they start: the connections
-- that its accept loop takes, the datagrams that its receive thread reads, and restarts.
pub mod Refines
pub mod Spending
pub mod Meeting
mod Tests
use agent_torrent.Prelude.{
  ℕ, String, Bool, true, false, ◌&&◌, List, [], ◌∷◌, if◌then◌else◌, Option, pos,
}
use agent_torrent.Py.{Value, object, text, int, field, end, PyTexts}
use agent_torrent.Manifest.{build_manifest}
use agent_torrent.Ledger.{Record, Ledger, Stamp, open_ledger}
use agent_torrent.Identity.{Crypto, Identity}
use agent_torrent.Protocol.{Connection}
use agent_torrent.Discovery.Beacon.{Datagram}
use agent_torrent.Discovery.{Address, Discovery, handle_beacon}
use agent_torrent.Executor.{System}
use agent_torrent.Peer.Worker.{Config}
use agent_torrent.Peer.Control.{Served, Turn, is_ok}
use agent_torrent.Peer.Serve.{serve_connection}

-- `listening` is false once an exception has ended the receive thread.
pub record Peer : Type 0 where
  pub identity : Identity
  pub config : Config
  pub ledger : Ledger
  pub discovery : Discovery
  pub listening : Bool

-- What a start finds: the configuration, with the harnesses that it detects, the port that it is given,
-- and the stamp of an opening record.
pub record Boot : Type 0 where
  pub config : Config
  pub tcp_port : ℕ
  pub stamp : Stamp

-- `__init__` and `start`, on the records that the ledger's file holds.
unfoldable pub start_peer : Identity → Boot → Option (List Record) → Peer
start_peer identity boot file =
    let manifest =
      build_manifest identity.peer_id boot.config.harnesses (pos boot.config.max_runtime_seconds)
        boot.config.accepts_tasks in
    record {
      identity = identity;
      config = boot.config;
      ledger = open_ledger boot.stamp file;
      discovery = record {
        identity = identity;
        tcp_port = boot.tcp_port;
        manifest = manifest;
        table = [];
      };
      listening = true;
    }

-- What `start` writes to the file of the running peer.
unfoldable pub runtime_dict : String → ℕ → ℕ → Value
runtime_dict peer_id tcp_port pid = object (
    field "peer_id" (text peer_id)
      (field "tcp_port" (int (pos tcp_port)) (field "pid" (int (pos pid)) end)))

-- What `accept` meets: the timeout, an `OSError`, or a connection, with what the connection draws from
-- the system.
pub data Accepted : Type 0 where
  none_came : Accepted
  socket_failed : Accepted
  came : Connection → Turn → System → Stamp → Accepted

-- A connection is served to its end, with what it draws from the system and the stamp of a credit.
pub data Event : Type 0 where
  connected : Connection → Turn → System → Stamp → Event
  heard : Datagram → Address → ℕ → Event
  restarted : Boot → Event

module _ (c : Crypto) (py : PyTexts) where
  unfoldable pub serve : Connection → Turn → System → Stamp → Peer → Peer
  serve conn turn sys work_stamp peer =
      let served =
        (serve_connection c peer.identity py sys peer.config turn work_stamp
          (record { ledger = peer.ledger; discovery = peer.discovery; conn = conn })).1 in
      record peer { ledger = served.ledger; discovery = served.discovery }

  -- `_accept_loop`, over what its calls of `accept` meet; each connection that comes is served by a
  -- thread of its own.
  unfoldable pub accept_loop : List Accepted → Peer → Peer
  unfolding serve
  accept_loop [] peer = peer
  accept_loop (none_came ∷ later) peer = accept_loop later peer
  accept_loop (socket_failed ∷ later) peer = peer
  accept_loop (came conn turn sys work_stamp ∷ later) peer =
      accept_loop later (serve conn turn sys work_stamp peer)

  -- One round of the receive thread, if it still runs.
  unfoldable pub hear : Datagram → Address → ℕ → Peer → Peer
  hear received addr now peer =
      let out = handle_beacon c received addr now peer.discovery in
      if peer.listening then record peer { discovery = out.1; listening = is_ok out.0 } else peer

  unfoldable pub on_event : Event → Peer → Peer
  unfolding serve hear start_peer
  on_event (connected conn turn sys work_stamp) peer = serve conn turn sys work_stamp peer
  on_event (heard received addr now) peer = hear received addr now peer
  on_event (restarted boot) peer = start_peer peer.identity boot peer.ledger.file

  unfoldable pub run_events : List Event → Peer → Peer
  unfolding on_event
  run_events [] peer = peer
  run_events (event ∷ events) peer = run_events events (on_event event peer)
