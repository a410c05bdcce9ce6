-- ===== src/Peer/Threads/Tests.antt =====
-- Two calls of `delegate` at once, of which one meets a worker that answers and the other none.
use agent_torrent.Prelude.{
  ℕ, String, ◌≡◌, refl, none, some, List, [], ◌∷◌, ◌++◌, true, false, pos, ◌+ℤ◌, ◌≤ℤ◌, ◌≤◌, ◌+◌,
  All, length, text_eq,
}
use agent_torrent.Py.{Value, Result, object, text, int, null, boolean, field, end, ok, err}
use agent_torrent.Job.{new_job}
use agent_torrent.Ledger.{Ledger, Stamp, open_ledger, balance, opening_balance}
use agent_torrent.Ledger.Balance.{count_all}
use agent_torrent.Ledger.Methods.{IsOpen}
use agent_torrent.Identity.{Identity, seal}
use agent_torrent.Identity.Samples.{toy_crypto, alice, bob}
use agent_torrent.Protocol.{Connection, Dial, connected, refused}
use agent_torrent.Protocol.Verify.{Read, line}
use agent_torrent.Manifest.{build_manifest}
use agent_torrent.Discovery.{PeerInfo}
use agent_torrent.Peer.Delegate.{Draws, Outcome, completed, unpaid, delegate}
use agent_torrent.Peer.Samples.{stamp}
use agent_torrent.Peer.Threads.{
  Call, Task, Threads, Piece, asks, reserves, closes, works, restarts, pick, run_piece, schedule,
  first_start,
}
use agent_torrent.Peer.Threads.Tasks.{Distinct}
use agent_torrent.Peer.Threads.Safe.{IsHeld, IsOrdinary}
use agent_torrent.Peer.Threads.Credit.{Charged, schedule-IsCovered, closes-Charged}
use agent_torrent.Peer.Threads.Alone.{idle, ended, schedule-delegate}
use agent_torrent.Peer.Threads.Escrow.{count_python}
use agent_torrent.Peer.Threads.Exact.{schedule-escrow}
use agent_torrent.Peer.Threads.Lost.{restart_strands}

abbrev draws_of : String → Draws
draws_of job_id = record { job_id = job_id; escrow_stamp = stamp; closing_stamp = stamp }

abbrev worker : PeerInfo
worker = record {
  peer_id = bob.peer_id;
  host = "10.0.0.2";
  tcp_port = int (pos 9001);
  manifest = build_manifest bob.peer_id end (pos 300) true;
  last_seen = 5;
}

abbrev said : String → Value → Read
said msg_type body = line (seal toy_crypto bob 5 msg_type body)

abbrev result : Value
result =
    object
      (field "job_id" (text "0a") (field "status" (text "ok") (field "output" (text "done") end)))

abbrev good : Dial
good = connected (record {
  remote_peer_id = none;
  inbox =
      said "HANDSHAKE" (object end)
      ∷ said "TASK_ACCEPT" (object end)
      ∷ said "TASK_RESULT" (object (field "result" result end))
      ∷ [];
  sends = [];
  clock = λ n. n;
  outbox = [];
})

abbrev call_of : String → Dial → Call
call_of job_id dial = record {
  draws = draws_of job_id;
  dial = λ p. dial;
  live_peers = worker ∷ [];
  task_text = text "reverse";
  required_harness = text "any";
  max_tokens = int (pos 9);
  max_runtime_seconds = int (pos 60);
  expected_output = text "code";
}

abbrev both_waiting : List Piece
both_waiting =
    asks (call_of "0a" good)
    ∷ asks (call_of "0b" (refused "no route"))
    ∷ reserves 1
    ∷ reserves 0
    ∷ works "0c" "peer" stamp
    ∷ []

abbrev threads : Threads
threads = schedule toy_crypto alice both_waiting (first_start stamp)

bob_unreserved : text_eq bob.peer_id "escrow" ≡ false
unfolding agent_torrent.Identity.identity
bob_unreserved = refl

ordinary : All IsOrdinary both_waiting
ordinary = ((bob_unreserved, tt), ((bob_unreserved, tt), (tt, (tt, (refl, tt)))))

two_wait : length threads.waiting ≡ 2
unfolding schedule agent_torrent.Ledger.can_offer balance agent_torrent.Ledger.balance_locked
    first_start open_ledger agent_torrent.Ledger.append agent_torrent.Ledger.sum_deltas ◌+ℤ◌
    agent_torrent.Ledger.entries_balance agent_torrent.Job.new_job agent_torrent.Job.validate_job
    agent_torrent.Job.raise_listed agent_torrent.Job.missing_fields agent_torrent.Job.job_problems
    agent_torrent.Prelude.is_blank agent_torrent.Peer.Delegate.Candidates.candidates
    agent_torrent.Py.index build_manifest agent_torrent.Ledger.escrow
    agent_torrent.Ledger.job_records agent_torrent.Ledger.is_for
two_wait = refl

schedule-IsCovered_example :
    All (IsHeld threads.ledger) threads.waiting
    × Distinct threads.waiting
    × (pos 0 ≤ℤ balance "self" threads.ledger)
    × (pos (length threads.waiting) ≤ℤ balance "escrow" threads.ledger)
    × (length threads.waiting ≤ opening_balance + count_all "work" threads.ledger.records)
schedule-IsCovered_example = schedule-IsCovered toy_crypto alice stamp both_waiting ordinary

abbrev job_of : String → Value
job_of job_id =
    elim (new_job job_id (text "reverse") (text "any") (int (pos 9)) (int (pos 60)) (text "code")) [
      | ok job ↦ job
      | err e ↦ null
    ]

abbrev task_of : String → Dial → Task
task_of job_id dial = record {
  draws = draws_of job_id;
  worker = worker;
  dial = dial;
  job = job_of job_id;
}

abbrev first : Task
first = task_of "0a" good

abbrev others : List Task
others = task_of "0b" (refused "no route") ∷ []

first_waits : pick 0 threads.waiting ≡ some (first, others)
unfolding pick schedule agent_torrent.Ledger.can_offer balance agent_torrent.Ledger.balance_locked
    first_start open_ledger agent_torrent.Ledger.append agent_torrent.Ledger.sum_deltas ◌+ℤ◌
    agent_torrent.Ledger.entries_balance new_job agent_torrent.Job.validate_job
    agent_torrent.Job.raise_listed agent_torrent.Job.missing_fields agent_torrent.Job.job_problems
    agent_torrent.Prelude.is_blank agent_torrent.Peer.Delegate.Candidates.candidates
    agent_torrent.Py.index build_manifest agent_torrent.Ledger.escrow
    agent_torrent.Ledger.job_records agent_torrent.Ledger.is_for
    agent_torrent.Peer.Delegate.Candidates.latest
first_waits = refl

closes-Charged_example :
    let after = run_piece toy_crypto alice (closes 0) threads in
    (r : Result Outcome) × (after.finished ≡ threads.finished ++ r ∷ [])
    × (after.waiting ≡ others)
    × Charged threads.ledger (r, after.ledger)
closes-Charged_example =
    closes-Charged toy_crypto alice stamp both_waiting 0 first others ordinary first_waits

both_end :
    let end_state = schedule toy_crypto alice (closes 0 ∷ closes 0 ∷ []) threads in
    (length end_state.finished ≡ 2)
    × (end_state.waiting ≡ [])
    × (balance "escrow" end_state.ledger ≡ pos 0)
    × (balance "self" end_state.ledger ≡ pos 10)
    × (balance bob.peer_id end_state.ledger ≡ pos 1)
unfolding schedule run_piece first_start pick agent_torrent.Peer.Threads.past
    agent_torrent.Peer.Threads.begin agent_torrent.Peer.Threads.begin_job
    agent_torrent.Peer.Threads.choose_worker agent_torrent.Peer.Threads.note_begun
    agent_torrent.Peer.Threads.on_reserved agent_torrent.Peer.Threads.reserve
    agent_torrent.Peer.Threads.conclude agent_torrent.Peer.Threads.close
    agent_torrent.Ledger.credit_for_work seal open_ledger balance
    agent_torrent.Peer.Delegate.delegate_to agent_torrent.Peer.Delegate.with_job
    agent_torrent.Peer.Delegate.offer agent_torrent.Peer.Delegate.after_escrow
    agent_torrent.Peer.Delegate.rescue agent_torrent.Peer.Delegate.attempt
    agent_torrent.Peer.Delegate.exchange agent_torrent.Peer.Delegate.on_reply
    agent_torrent.Peer.Delegate.on_result agent_torrent.Peer.Delegate.on_success
    agent_torrent.Peer.Delegate.on_failure agent_torrent.Peer.Delegate.check_worker
    agent_torrent.Peer.Delegate.match_worker agent_torrent.Peer.Delegate.talk
    agent_torrent.Peer.Delegate.post agent_torrent.Peer.Delegate.Candidates.candidates
    agent_torrent.Peer.Delegate.Candidates.is_candidate
    agent_torrent.Peer.Delegate.Candidates.has_key agent_torrent.Peer.Delegate.Candidates.latest
    new_job agent_torrent.Job.validate_job agent_torrent.Job.job_problems
    agent_torrent.Job.missing_fields agent_torrent.Job.is_full_text agent_torrent.Job.raise_listed
    agent_torrent.Checks.problem_unless agent_torrent.Prelude.is_blank agent_torrent.Py.is_one_of
    agent_torrent.Py.lookup_or_null agent_torrent.Py.lookup agent_torrent.Py.truthy
    agent_torrent.Py.index agent_torrent.Py.get agent_torrent.Py.Exec.continue build_manifest
    agent_torrent.Ledger.escrow agent_torrent.Ledger.settle agent_torrent.Ledger.refund
    agent_torrent.Ledger.can_offer agent_torrent.Ledger.append agent_torrent.Ledger.sum_deltas
    agent_torrent.Ledger.entries_balance agent_torrent.Ledger.balance_locked
    agent_torrent.Ledger.job_records agent_torrent.Ledger.is_for agent_torrent.Ledger.has_kind
    agent_torrent.Ledger.require_open_escrow ◌+ℤ◌ agent_torrent.Identity.identity
    agent_torrent.Identity.peer_id_from_pubkey agent_torrent.Identity.canonical_json
    agent_torrent.Identity.payload_of agent_torrent.Identity.open_envelope
    agent_torrent.Identity.reraise_malformed agent_torrent.Identity.read_parts
    agent_torrent.Identity.bytes_from_hex agent_torrent.Identity.check_parts
    agent_torrent.Identity.check_signature agent_torrent.Identity.Hex.hex
    agent_torrent.Identity.Hex.from_hex agent_torrent.Protocol.send agent_torrent.Protocol.recv
    agent_torrent.Protocol.deliver agent_torrent.Protocol.next_send agent_torrent.Protocol.next_read
    agent_torrent.Protocol.set_remote agent_torrent.Protocol.handshake_outbound
    agent_torrent.Protocol.Verify.receive agent_torrent.Protocol.Verify.open_line
    agent_torrent.Protocol.Verify.check_message agent_torrent.Protocol.Verify.check_remote
    agent_torrent.Protocol.Verify.summarize
both_end = (refl, refl, refl, refl, refl)

abbrev fresh : Ledger
fresh = open_ledger stamp none

runs_alone :
    schedule toy_crypto alice
      (asks (call_of "0a" good) ∷ reserves 0 ∷ closes 0 ∷ [])
      (idle [] fresh)
    ≡ ended [] (
        delegate toy_crypto alice
          (draws_of "0a")
          (λ p. good)
          (worker ∷ [])
          (text "reverse")
          (text "any")
          (int (pos 9))
          (int (pos 60))
          (text "code")
          fresh)
runs_alone = schedule-delegate toy_crypto alice [] (call_of "0a" good) fresh

restart_strands_example :
    let later =
      schedule toy_crypto alice (restarts stamp ∷ asks (call_of "0d" good) ∷ []) threads in
    IsOpen "0a" later.ledger × (pos 1 ≤ℤ balance "escrow" later.ledger)
restart_strands_example =
    restart_strands toy_crypto alice stamp stamp both_waiting (asks (call_of "0d" good) ∷ []) 0
      first others ordinary ((bob_unreserved, tt), tt) first_waits

schedule-escrow_example :
    (lost : ℕ) × (balance "escrow" threads.ledger ≡ pos (length threads.waiting + lost))
    × (lost ≤ count_python threads.finished)
schedule-escrow_example =
    schedule-escrow toy_crypto alice stamp both_waiting ordinary
      (refl, (refl, (refl, (refl, (refl, tt)))))
