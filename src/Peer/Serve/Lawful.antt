-- ===== src/Peer/Serve/Lawful.antt =====
-- What an inbound connection does to the ledger and the peer table.
use mathlib.Core.Path.{subst}
use agent_torrent.Prelude.{String, ◌≡◌, inl, inr, refl, sym, text_eq, false}
use agent_torrent.Py.{Value, PyTexts}
use agent_torrent.Ledger.{Stamp}
use agent_torrent.Ledger.Sound.{credited}
use agent_torrent.Ledger.Final.{Run, here}
use agent_torrent.Identity.{Crypto, Identity}
use agent_torrent.Identity.Envelope.{CryptoLaws, open_envelope_iff}
use agent_torrent.Discovery.Origin.{RowsNotEscrow, not_escrow}
use agent_torrent.Executor.{System}
use agent_torrent.Peer.Worker.{Config, handle_task_offer}
use agent_torrent.Peer.Worker.Earns.{handle_task_offer-Earned}
use agent_torrent.Peer.Control.{Served, Turn}
use agent_torrent.Peer.Control.Lawful.{Lawful, Keeps-of_same, Lawful-through, handle_control-Keeps}
use agent_torrent.Peer.Serve.{on_session, serve_connection}
use agent_torrent.Peer.Serve.Course.{Course, quiet, worked, ruled, serve_connection-Course}

module _ (c : Crypto) (laws : CryptoLaws c) (self : Identity) (py : PyTexts) (sys : System)
    (config : Config) (turn : Turn) (work_stamp : Stamp) where
  worked-Lawful :
      (remote : String) (payload : Value) (s : Served)
      → text_eq remote "escrow" ≡ false
      → RowsNotEscrow s.discovery.table
      → Lawful s (on_session (handle_task_offer c self sys config work_stamp remote payload) s).1
  unfolding on_session
  worked-Lawful remote payload s other rows = record {
    run =
        elim (handle_task_offer-Earned remote work_stamp c self sys config payload
          (record { ledger = s.ledger; conn = s.conn })) [
            | inl same ↦ subst (Run s.ledger) (sym same) here
            | inr (d, j, offers, accepts, e) ↦
                Run.step here (credited j.job_id remote work_stamp other e)
          ];
    rows = rows;
    own = refl;
  }

  Course-Lawful :
      (s t : Served)
      → Course c self py sys config turn work_stamp s t
      → RowsNotEscrow s.discovery.table
      → Lawful s t
  Course-Lawful s t (quiet same) rows = Keeps-of_same s t same.ledger same.discovery rows
  Course-Lawful s t (worked remote payload at opens same e) rows =
      let first = Keeps-of_same s at same.ledger same.discovery rows in
      let opened = (open_envelope_iff c opens.envelope remote opens.payload).1 opens.authentic in
      let other = not_escrow c laws opens.envelope remote opens.payload opened in
      subst (Lawful s) (sym e)
        (Lawful-through first (worked-Lawful remote payload at other first.rows))
  Course-Lawful s t (ruled remote payload at opens same e) rows =
      let first = Keeps-of_same s at same.ledger same.discovery rows in
      subst (Lawful s) (sym e)
        (Lawful-through first (handle_control-Keeps c self py turn remote payload at first.rows))

  pub serve_connection-Lawful :
      (s : Served)
      → RowsNotEscrow s.discovery.table
      → Lawful s (serve_connection c self py sys config turn work_stamp s).1
  serve_connection-Lawful s =
      Course-Lawful s (serve_connection c self py sys config turn work_stamp s).1
        (serve_connection-Course c self py sys config turn work_stamp s)
