-- ===== src/Peer/Node/Refines.antt =====
-- That a peer's ledger is one that the ledger's methods can reach.
use agent_torrent.Prelude.{◌≡◌, ℕ, refl, List, [], ◌∷◌, none, if-both}
use agent_torrent.Py.{PyTexts}
use agent_torrent.Ledger.{Ledger, Stamp}
use agent_torrent.Ledger.Sound.{Reachable, opened, next, restarted}
use agent_torrent.Ledger.Final.{Run, here}
use agent_torrent.Identity.{Crypto, Identity}
use agent_torrent.Identity.Envelope.{CryptoLaws}
use agent_torrent.Protocol.{Connection}
use agent_torrent.Executor.{System}
use agent_torrent.Discovery.{Address}
use agent_torrent.Discovery.Beacon.{Datagram}
use agent_torrent.Discovery.Origin.{RowsNotEscrow, handle_beacon-RowsNotEscrow}
use agent_torrent.Peer.Control.{Turn}
use agent_torrent.Peer.Serve.Lawful.{serve_connection-Lawful}
use agent_torrent.Peer.Node.{
  Accepted, none_came, socket_failed, came, accept_loop, Peer, Boot, Event, connected, heard,
  Event.restarted as again, start_peer, serve, hear, on_event, run_events,
}

-- The ledger is one that the methods reach, and no row of the peer table is named `escrow`.
pub record IsLawful (peer : Peer) : Type 0 where
  pub reachable : Reachable peer.ledger
  pub rows : RowsNotEscrow peer.discovery.table

Reachable-Run : {l l' : Ledger} → Reachable l → Run l l' → Reachable l'
Reachable-Run r here = r
Reachable-Run r (Run.step run last) = next (Reachable-Run r run) last

pub start_peer-IsLawful :
    (identity : Identity) (boot : Boot) → IsLawful (start_peer identity boot none)
unfolding start_peer
start_peer-IsLawful identity boot = record { reachable = opened boot.stamp refl; rows = tt }

module _ (c : Crypto) (laws : CryptoLaws c) (py : PyTexts) where
  serve-IsLawful :
      (conn : Connection) (turn : Turn) (sys : System) (work_stamp : Stamp) (peer : Peer)
      → IsLawful peer
      → IsLawful (serve c py conn turn sys work_stamp peer)
  unfolding serve
  serve-IsLawful conn turn sys work_stamp peer h =
      let kept =
        serve_connection-Lawful c laws peer.identity py sys peer.config turn work_stamp
          (record { ledger = peer.ledger; discovery = peer.discovery; conn = conn }) h.rows in
      record { reachable = Reachable-Run h.reachable kept.run; rows = kept.rows }

  hear-IsLawful :
      (received : Datagram) (addr : Address) (now : ℕ) (peer : Peer)
      → IsLawful peer
      → IsLawful (hear c py received addr now peer)
  unfolding hear
  hear-IsLawful received addr now peer h =
      if-both IsLawful peer.listening
        (record {
          reachable = h.reachable;
          rows = handle_beacon-RowsNotEscrow c laws received addr now peer.discovery h.rows;
        })
        h

  pub on_event-IsLawful :
      (event : Event) (peer : Peer) → IsLawful peer → IsLawful (on_event c py event peer)
  unfolding on_event start_peer
  on_event-IsLawful (connected conn turn sys work_stamp) peer h =
      serve-IsLawful conn turn sys work_stamp peer h
  on_event-IsLawful (heard received addr now) peer h = hear-IsLawful received addr now peer h
  on_event-IsLawful (again boot) peer h = record {
    reachable = next h.reachable (restarted boot.stamp refl);
    rows = tt;
  }

  run_events-IsLawful :
      (events : List Event) (peer : Peer) → IsLawful peer → IsLawful (run_events c py events peer)
  unfolding run_events
  run_events-IsLawful [] peer h = h
  run_events-IsLawful (event ∷ events) peer h =
      run_events-IsLawful events (on_event c py event peer) (on_event-IsLawful event peer h)

  -- If the hash and the signatures meet their laws, then whatever connections, datagrams and
  -- restarts a new peer meets, its ledger is one that the four methods and restarts of the ledger
  -- can reach, where no worker or requester is named `escrow`.
  pub run_events-Reachable :
      (identity : Identity) (boot : Boot) (events : List Event)
      → Reachable (run_events c py events (start_peer identity boot none)).ledger
  run_events-Reachable identity boot events =
      (run_events-IsLawful events (start_peer identity boot none)
        (start_peer-IsLawful identity boot)).reachable

module _ (c : Crypto) (py : PyTexts) where
  -- The connections that the accept loop takes.
  abbrev pub taken : List Accepted → List Event
  taken [] = []
  taken (none_came ∷ later) = taken later
  taken (socket_failed ∷ later) = []
  taken (came conn turn sys work_stamp ∷ later) = connected conn turn sys work_stamp ∷ taken later

  -- The accept loop is a run of events.
  pub accept_loop-run_events :
      (accepts : List Accepted) (peer : Peer)
      → accept_loop c py accepts peer ≡ run_events c py (taken accepts) peer
  unfolding accept_loop run_events on_event
  accept_loop-run_events [] peer = refl
  accept_loop-run_events (none_came ∷ later) peer = accept_loop-run_events later peer
  accept_loop-run_events (socket_failed ∷ later) peer = refl
  accept_loop-run_events (came conn turn sys work_stamp ∷ later) peer =
      accept_loop-run_events later (serve c py conn turn sys work_stamp peer)
