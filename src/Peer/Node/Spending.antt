-- ===== src/Peer/Node/Spending.antt =====
-- That a peer spends on the command of its own user only.
use mathlib.Core.Path.{subst}
use agent_torrent.Prelude.{
  String, ◌≡◌, inl, inr, refl, sym, true, List, [], ◌∷◌, if-both, ◌≤ℤ◌, arith,
}
use agent_torrent.Py.{PyTexts}
use agent_torrent.Ledger.{balance}
use agent_torrent.Ledger.Sound.{Reachable-IsSound, reopened}
use agent_torrent.Identity.{Crypto, Identity}
use agent_torrent.Identity.Envelope.{CryptoLaws}
use agent_torrent.Peer.Control.{is_loopback}
use agent_torrent.Peer.Serve.Course.{Opens}
use agent_torrent.Peer.Serve.Guard.{serve_connection-Guarded}
use agent_torrent.Peer.Node.{
  Peer, Boot, Event, connected, heard, restarted, start_peer, serve, hear, on_event, run_events,
}
use agent_torrent.Peer.Node.Refines.{IsLawful, on_event-IsLawful}

module _ (c : Crypto) (laws : CryptoLaws c) (py : PyTexts) where
  -- The event is no connection from a loopback address that the peer's own key opens.
  abbrev pub NoCommand : String → Event → Type 0
  NoCommand own_id (connected conn turn sys work_stamp) =
      ¬ (Opens c conn own_id × (is_loopback turn.host ≡ true))
  NoCommand own_id _ = Unit {0}

  abbrev pub NoCommands : String → List Event → Type 0
  NoCommands own_id [] = Unit {0}
  NoCommands own_id (event ∷ events) = NoCommand own_id event × NoCommands own_id events

  on_event-identity :
      (event : Event) (peer : Peer) → (on_event c py event peer).identity ≡ peer.identity
  unfolding on_event serve hear start_peer
  on_event-identity (connected conn turn sys work_stamp) peer = refl
  on_event-identity (heard received addr now) peer =
      if-both (λ (q : Peer). q.identity ≡ peer.identity) peer.listening refl refl
  on_event-identity (restarted boot) peer = refl

  -- A restart reads back the ledger that the file holds.
  start_peer-ledger :
      (boot : Boot) (peer : Peer)
      → IsLawful peer
      → (start_peer peer.identity boot peer.ledger.file).ledger ≡ peer.ledger
  unfolding start_peer
  start_peer-ledger boot peer h =
      reopened boot.stamp peer.ledger (Reachable-IsSound h.reachable).persisted

  on_event-balance :
      (event : Event) (peer : Peer)
      → IsLawful peer
      → NoCommand peer.identity.peer_id event
      → balance "self" peer.ledger ≤ℤ balance "self" (on_event c py event peer).ledger
  unfolding on_event serve hear
  on_event-balance (connected conn turn sys work_stamp) peer h quiet =
      elim (serve_connection-Guarded c peer.identity py sys peer.config turn work_stamp
        (record { ledger = peer.ledger; discovery = peer.discovery; conn = conn })) [
          | inl harmless ↦ harmless.1
          | inr command ↦ absurd (quiet command)
        ]
  on_event-balance (heard received addr now) peer h quiet =
      if-both (λ (q : Peer). balance "self" peer.ledger ≤ℤ balance "self" q.ledger) peer.listening
        (omega arith) (omega arith)
  on_event-balance (restarted boot) peer h quiet = rw (start_peer-ledger boot peer h) (omega arith)

  -- A peer whose ledger its methods can reach, and whose table names no peer `escrow`, can be sent
  -- any datagrams and connections and be restarted at any point: its spendable balance at the end
  -- is no lower than at the start, unless one of the connections comes from a loopback address and
  -- opens with an authentic message of the peer's own key. This is under the laws of the hash and
  -- the signatures.
  pub run_events-balance :
      (events : List Event) (peer : Peer)
      → IsLawful peer
      → NoCommands peer.identity.peer_id events
      → balance "self" peer.ledger ≤ℤ balance "self" (run_events c py events peer).ledger
  unfolding run_events
  run_events-balance [] peer h quiet = omega arith
  run_events-balance (event ∷ events) peer h (quiet, later_quiet) =
      let later = on_event c py event peer in
      let still_quiet =
        subst (λ (i : Identity). NoCommands i.peer_id events) (sym (on_event-identity event peer))
          later_quiet in
      omega (
        arith,
        on_event-balance event peer h quiet,
        run_events-balance events later (on_event-IsLawful c laws py event peer h) still_quiet,
      )
