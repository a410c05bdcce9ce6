-- ===== src/Peer/Deal/Worker.antt =====
-- The worker's end of a delegation.
use agent_torrent.Prelude.{ℕ, ◌≡◌, refl, inr, [], ◌∷◌, some}
use agent_torrent.Py.{
  Value, object, text, Fields, field, end, ok, index, get, lookup, is_one_of, PyTexts,
}
use agent_torrent.Py.Exec.{continue}
use agent_torrent.Ledger.{Ledger, Stamp, credit_for_work}
use agent_torrent.Identity.{Bytes, Crypto, identity, payload_of}
use agent_torrent.Identity.Envelope.{CryptoLaws}
use agent_torrent.Protocol.Verify.{summarize}
use agent_torrent.Protocol.{next_read, next_send, deliver, send, recv, task_offer, control}
use agent_torrent.Protocol.Roundtrip.{receive-seal}
use agent_torrent.Protocol.Handshake.{clean, talking, handshake_inbound-greeting}
use agent_torrent.Discovery.{Discovery}
use agent_torrent.Executor.{System, field_text, execute_job}
use agent_torrent.Peer.Delegate.{talk}
use agent_torrent.Peer.Worker.{
  Config, accept, answer_offer, respond, finish, earn, handle_task_offer,
}
use agent_torrent.Peer.Control.{Turn, reply_with}
use agent_torrent.Peer.Serve.{on_session, dispatch, converse, serve_connection}
use agent_torrent.Peer.Deal.{requester_lines, worker_lines}

module _ (c : Crypto) (laws : CryptoLaws c) (own other : Bytes) (clock other_clock : ℕ → ℕ)
    (py : PyTexts) (sys : System) (config : Config) (turn : Turn) (work_stamp : Stamp) where
  -- The worker takes the job and its harness goes well: it answers with the two messages, and books the
  -- credit.
  pub serve_connection-worked :
      (l : Ledger) (d : Discovery) (job : Fields) (result : Value)
      → answer_offer config (identity c own).peer_id (identity c other).peer_id (object job)
        ≡ ok (accept job)
      → execute_job sys config.harnesses config.force_simulate config.env_passthrough job
        ≡ ok result
      → index "status" result ≡ ok (text "ok")
      → (serve_connection c (identity c own) py sys config turn work_stamp (record {
        ledger = l;
        discovery = d;
        conn = clean clock (requester_lines c other other_clock job);
      })).1
        ≡ record {
          ledger =
              (credit_for_work (field_text "job_id" job) (identity c other).peer_id work_stamp l).1;
          discovery = d;
          conn = talking (identity c other).peer_id clock [] (worker_lines c own clock job result);
        }
  unfolding serve_connection converse dispatch on_session reply_with recv next_read continue index
      get lookup payload_of is_one_of handle_task_offer respond talk send next_send deliver
      summarize finish earn
  serve_connection-worked l d job result takes ran well =
      rw
        (
          handshake_inbound-greeting c laws own other clock other_clock _,
          receive-seal c laws other (task_offer ∷ control ∷ []) (some (identity c other).peer_id)
              (other_clock 1) task_offer (field "job" (object job) end) refl (inr refl),
          takes,
          ran,
          well,
        )
        refl
