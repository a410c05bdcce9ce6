-- ===== src/Peer/Deal/Tests.antt =====
-- One job from end to end.
use agent_torrent.Prelude.{ℕ, String, ◌≡◌, refl, true, false, List, [], ◌∷◌, none, pos, ◌+ℤ◌}
use agent_torrent.Py.{Value, object, text, int, float, boolean, Fields, field, end, ok}
use agent_torrent.Job.{new_job}
use agent_torrent.Job.Samples.{fields}
use agent_torrent.Ledger.{Ledger, balance, can_offer, escrow, credit_for_work, open_ledger}
use agent_torrent.Ledger.Methods.{moved}
use agent_torrent.Identity.Samples.{toy_crypto, toy_laws, alice, bob}
use agent_torrent.Executor.Samples.{sys}
use agent_torrent.Executor.{field_text, execute_job}
use agent_torrent.Manifest.{build_manifest}
use agent_torrent.Protocol.{Dial, connected}
use agent_torrent.Protocol.Handshake.{clean}
use agent_torrent.Discovery.{PeerInfo, Discovery}
use agent_torrent.Peer.Delegate.Candidates.{candidates}
use agent_torrent.Peer.Delegate.{delegate}
use agent_torrent.Peer.Worker.{accept, answer_offer}
use agent_torrent.Peer.Samples.{stamp, config, py, boot, turn_from}
use agent_torrent.Peer.Control.{Served}
use agent_torrent.Peer.Node.{start_peer}
use agent_torrent.Peer.Deal.{requester_lines}
use agent_torrent.Peer.Deal.Requester.{IsDone, done_outcome, conversation}
use agent_torrent.Peer.Deal.Done.{worker_end, job_done}

abbrev fresh : Ledger
fresh = open_ledger stamp none

abbrev tick : ℕ → ℕ
tick n = n

abbrev worker : PeerInfo
worker = record {
  peer_id = bob.peer_id;
  host = "10.0.0.2";
  tcp_port = int (pos 9001);
  manifest = build_manifest bob.peer_id end (pos 300) true;
  last_seen = 5;
}

abbrev table_of_bob : Discovery
table_of_bob = (start_peer bob boot none).discovery

abbrev bob_end : Ledger → Discovery → Fields → Served
bob_end =
    worker_end toy_crypto toy_laws [] (7 ∷ []) tick tick (turn_from "10.0.0.3").draws py sys config
      (turn_from "10.0.0.3") stamp

abbrev dial : PeerInfo → Dial
dial p = connected (clean tick (bob_end fresh table_of_bob fields).conn.outbox)

abbrev result : Fields
result = field "job_id" (text "0a") (
    field "status" (text "ok") (
      field "output" (text "done") (
        field "harness" (text "claude")
          (field "simulated" (boolean false) (field "runtime_seconds" (float 1000) end)))))

made :
    new_job "0a"
      (text "reverse a string")
      (text "any")
      (int (pos 100))
      (int (pos 60))
      (text "a function")
    ≡ ok (object fields)
unfolding new_job agent_torrent.Job.validate_job agent_torrent.Job.raise_listed
    agent_torrent.Job.missing_fields agent_torrent.Job.job_problems agent_torrent.Prelude.is_blank
made = refl

fits : candidates (text "any") (worker ∷ []) ≡ ok (worker ∷ [])
unfolding candidates agent_torrent.Py.index build_manifest
fits = refl

rich : can_offer fresh ≡ true
unfolding can_offer balance agent_torrent.Ledger.balance_locked open_ledger
    agent_torrent.Ledger.append agent_torrent.Ledger.sum_deltas ◌+ℤ◌
    agent_torrent.Ledger.entries_balance
rich = refl

held : (escrow "0a" bob.peer_id stamp fresh).0 ≡ ok tt
unfolding escrow agent_torrent.Ledger.balance_locked open_ledger agent_torrent.Ledger.append
    agent_torrent.Ledger.sum_deltas ◌+ℤ◌ agent_torrent.Ledger.entries_balance
    agent_torrent.Ledger.job_records agent_torrent.Ledger.is_for
held = refl

takes : answer_offer config bob.peer_id alice.peer_id (object fields) ≡ ok (accept fields)
unfolding answer_offer agent_torrent.Identity.identity agent_torrent.Job.validate_job
    agent_torrent.Job.raise_listed agent_torrent.Job.missing_fields agent_torrent.Job.job_problems
    agent_torrent.Prelude.is_blank field_text agent_torrent.Executor.shown
takes = refl

ran :
    execute_job sys config.harnesses config.force_simulate config.env_passthrough fields
    ≡ ok (object result)
unfolding execute_job agent_torrent.Job.validate_job agent_torrent.Job.raise_listed
    agent_torrent.Job.missing_fields agent_torrent.Job.job_problems agent_torrent.Prelude.is_blank
    field_text agent_torrent.Executor.shown
ran = refl

done : IsDone "0a" result
unfolding agent_torrent.Py.lookup
done = record { for_job = refl; went_well = refl }

job_done_example :
    let draws = (turn_from "10.0.0.3").draws in
    let out =
      delegate toy_crypto alice draws dial
        (worker ∷ [])
        (text "reverse a string")
        (text "any")
        (int (pos 100))
        (int (pos 60))
        (text "a function")
        fresh in
    let at = (escrow "0a" bob.peer_id stamp fresh).1 in
    let bob_later = bob_end fresh table_of_bob fields in
    (out.0 ≡ ok (done_outcome "0a" bob.peer_id result))
    × ((a : String) → balance a out.1 ≡ balance a fresh +ℤ moved "self" bob.peer_id a)
    × (bob_later.ledger
        ≡ (credit_for_work (field_text "job_id" fields) alice.peer_id stamp fresh).1)
    × (((conversation toy_crypto toy_laws []
            (7 ∷ [])
            tick
            tick
            draws
            worker
            fields
            (record { ledger = at; conn = clean tick bob_later.conn.outbox })).1
          ).conn.outbox
        ≡ requester_lines toy_crypto [] tick fields)
job_done_example =
    job_done toy_crypto toy_laws [] (7 ∷ []) tick tick (turn_from "10.0.0.3").draws py sys config
      (turn_from "10.0.0.3") stamp worker (worker ∷ []) dial fresh fresh table_of_bob fields result
      (text "reverse a string") (text "any") (int (pos 100)) (int (pos 60)) (text "a function") rich
      made fits refl held refl takes ran done
