-- ===== src/Peer/Delegate/Tests.antt =====
-- Runs of a delegation to a worker that answers, and to one whose answer has no body.
use agent_torrent.Prelude.{ℕ, String, ◌≡◌, refl, none, List, [], ◌∷◌, true, false, pos, ◌+ℤ◌}
use agent_torrent.Py.{Value, object, text, int, null, boolean, field, end, ok, err, attribute_error}
use agent_torrent.Ledger.{Ledger, Stamp, open_ledger, balance}
use agent_torrent.Identity.{Identity, seal}
use agent_torrent.Identity.Samples.{toy_crypto, alice, bob}
use agent_torrent.Protocol.{Connection, Dial, connected}
use agent_torrent.Protocol.Verify.{Read, line}
use agent_torrent.Manifest.{build_manifest}
use agent_torrent.Discovery.{PeerInfo}
use agent_torrent.Peer.Delegate.{Draws, Outcome, completed, delegate}
use agent_torrent.Peer.Delegate.Accounts.{Accounted, delegate-Accounted}

abbrev stamp : Stamp
stamp = record { txn_id = "t"; ts = 1 }

abbrev fresh : Ledger
fresh = open_ledger stamp none

abbrev draws : Draws
draws = record { job_id = "0a"; escrow_stamp = stamp; closing_stamp = stamp }

abbrev worker : PeerInfo
worker = record {
  peer_id = bob.peer_id;
  host = "10.0.0.2";
  tcp_port = int (pos 9001);
  manifest = build_manifest bob.peer_id end (pos 300) true;
  last_seen = 5;
}

abbrev result : Value
result =
    object
      (field "job_id" (text "0a") (field "status" (text "ok") (field "output" (text "done") end)))

abbrev said : String → Value → Read
said msg_type body = line (seal toy_crypto bob 5 msg_type body)

-- A connection on which the worker shakes hands and then says this.
abbrev dial : List Read → PeerInfo → Dial
dial answers p = connected (record {
  remote_peer_id = none;
  inbox = said "HANDSHAKE" (object end) ∷ answers;
  sends = [];
  clock = λ n. n;
  outbox = [];
})

abbrev good : List Read
good =
    said "TASK_ACCEPT" (object end) ∷ said "TASK_RESULT" (object (field "result" result end)) ∷ []

delegate-Accounted_example : Accounted fresh (
    delegate toy_crypto alice draws
      (dial good)
      (worker ∷ [])
      (text "reverse")
      (text "any")
      (int (pos 9))
      (int (pos 60))
      (text "code")
      fresh)
delegate-Accounted_example =
    delegate-Accounted toy_crypto alice draws fresh (dial good) (worker ∷ []) (text "reverse")
      (text "any") (int (pos 9)) (int (pos 60)) (text "code")

paid_run :
    (delegate toy_crypto alice draws
      (dial good)
      (worker ∷ [])
      (text "reverse")
      (text "any")
      (int (pos 9))
      (int (pos 60))
      (text "code")
      fresh).0
    ≡ ok (completed "0a" bob.peer_id null (boolean false) null (text "done"))
unfolding delegate seal open_ledger balance agent_torrent.Peer.Delegate.delegate_to
    agent_torrent.Peer.Delegate.with_job agent_torrent.Peer.Delegate.offer
    agent_torrent.Peer.Delegate.after_escrow agent_torrent.Peer.Delegate.rescue
    agent_torrent.Peer.Delegate.attempt agent_torrent.Peer.Delegate.exchange
    agent_torrent.Peer.Delegate.on_reply agent_torrent.Peer.Delegate.on_result
    agent_torrent.Peer.Delegate.on_success agent_torrent.Peer.Delegate.on_failure
    agent_torrent.Peer.Delegate.check_worker agent_torrent.Peer.Delegate.match_worker
    agent_torrent.Peer.Delegate.talk agent_torrent.Peer.Delegate.post
    agent_torrent.Peer.Delegate.Candidates.candidates
    agent_torrent.Peer.Delegate.Candidates.is_candidate
    agent_torrent.Peer.Delegate.Candidates.has_key agent_torrent.Peer.Delegate.Candidates.latest
    agent_torrent.Job.new_job agent_torrent.Job.validate_job agent_torrent.Job.job_problems
    agent_torrent.Job.missing_fields agent_torrent.Job.is_full_text agent_torrent.Job.raise_listed
    agent_torrent.Checks.problem_unless agent_torrent.Prelude.is_blank agent_torrent.Py.is_one_of
    agent_torrent.Py.lookup_or_null agent_torrent.Py.lookup agent_torrent.Py.truthy
    agent_torrent.Py.index agent_torrent.Py.get agent_torrent.Py.Exec.continue
    agent_torrent.Manifest.build_manifest agent_torrent.Ledger.escrow agent_torrent.Ledger.settle
    agent_torrent.Ledger.refund agent_torrent.Ledger.can_offer agent_torrent.Ledger.append
    agent_torrent.Ledger.sum_deltas agent_torrent.Ledger.entries_balance
    agent_torrent.Ledger.balance_locked agent_torrent.Ledger.job_records agent_torrent.Ledger.is_for
    agent_torrent.Ledger.has_kind agent_torrent.Ledger.require_open_escrow ◌+ℤ◌
    agent_torrent.Identity.identity agent_torrent.Identity.peer_id_from_pubkey
    agent_torrent.Identity.canonical_json agent_torrent.Identity.payload_of
    agent_torrent.Identity.open_envelope agent_torrent.Identity.reraise_malformed
    agent_torrent.Identity.read_parts agent_torrent.Identity.bytes_from_hex
    agent_torrent.Identity.check_parts agent_torrent.Identity.check_signature
    agent_torrent.Identity.Hex.hex agent_torrent.Identity.Hex.from_hex agent_torrent.Protocol.send
    agent_torrent.Protocol.recv agent_torrent.Protocol.deliver agent_torrent.Protocol.next_send
    agent_torrent.Protocol.next_read agent_torrent.Protocol.set_remote
    agent_torrent.Protocol.handshake_outbound agent_torrent.Protocol.Verify.receive
    agent_torrent.Protocol.Verify.open_line agent_torrent.Protocol.Verify.check_message
    agent_torrent.Protocol.Verify.check_remote agent_torrent.Protocol.Verify.summarize
paid_run = refl

-- A result without a body ends the delegation with an exception, and the credit stays in escrow.
abbrev bad : List Read
bad = said "TASK_ACCEPT" (object end) ∷ said "TASK_RESULT" null ∷ []

leaked_run :
    let out =
      delegate toy_crypto alice draws
        (dial bad)
        (worker ∷ [])
        (text "reverse")
        (text "any")
        (int (pos 9))
        (int (pos 60))
        (text "code")
        fresh in
    (out.0 ≡ err attribute_error)
    × (balance "escrow" out.1 ≡ pos 1)
    × (balance "self" out.1 ≡ pos 9)
unfolding delegate seal open_ledger balance agent_torrent.Peer.Delegate.delegate_to
    agent_torrent.Peer.Delegate.with_job agent_torrent.Peer.Delegate.offer
    agent_torrent.Peer.Delegate.after_escrow agent_torrent.Peer.Delegate.rescue
    agent_torrent.Peer.Delegate.attempt agent_torrent.Peer.Delegate.exchange
    agent_torrent.Peer.Delegate.on_reply agent_torrent.Peer.Delegate.on_result
    agent_torrent.Peer.Delegate.on_success agent_torrent.Peer.Delegate.on_failure
    agent_torrent.Peer.Delegate.check_worker agent_torrent.Peer.Delegate.match_worker
    agent_torrent.Peer.Delegate.talk agent_torrent.Peer.Delegate.post
    agent_torrent.Peer.Delegate.Candidates.candidates
    agent_torrent.Peer.Delegate.Candidates.is_candidate
    agent_torrent.Peer.Delegate.Candidates.has_key agent_torrent.Peer.Delegate.Candidates.latest
    agent_torrent.Job.new_job agent_torrent.Job.validate_job agent_torrent.Job.job_problems
    agent_torrent.Job.missing_fields agent_torrent.Job.is_full_text agent_torrent.Job.raise_listed
    agent_torrent.Checks.problem_unless agent_torrent.Prelude.is_blank agent_torrent.Py.is_one_of
    agent_torrent.Py.lookup_or_null agent_torrent.Py.lookup agent_torrent.Py.truthy
    agent_torrent.Py.index agent_torrent.Py.get agent_torrent.Py.Exec.continue
    agent_torrent.Manifest.build_manifest agent_torrent.Ledger.escrow agent_torrent.Ledger.settle
    agent_torrent.Ledger.refund agent_torrent.Ledger.can_offer agent_torrent.Ledger.append
    agent_torrent.Ledger.sum_deltas agent_torrent.Ledger.entries_balance
    agent_torrent.Ledger.balance_locked agent_torrent.Ledger.job_records agent_torrent.Ledger.is_for
    agent_torrent.Ledger.has_kind agent_torrent.Ledger.require_open_escrow ◌+ℤ◌
    agent_torrent.Identity.identity agent_torrent.Identity.peer_id_from_pubkey
    agent_torrent.Identity.canonical_json agent_torrent.Identity.payload_of
    agent_torrent.Identity.open_envelope agent_torrent.Identity.reraise_malformed
    agent_torrent.Identity.read_parts agent_torrent.Identity.bytes_from_hex
    agent_torrent.Identity.check_parts agent_torrent.Identity.check_signature
    agent_torrent.Identity.Hex.hex agent_torrent.Identity.Hex.from_hex agent_torrent.Protocol.send
    agent_torrent.Protocol.recv agent_torrent.Protocol.deliver agent_torrent.Protocol.next_send
    agent_torrent.Protocol.next_read agent_torrent.Protocol.set_remote
    agent_torrent.Protocol.handshake_outbound agent_torrent.Protocol.Verify.receive
    agent_torrent.Protocol.Verify.open_line agent_torrent.Protocol.Verify.check_message
    agent_torrent.Protocol.Verify.check_remote agent_torrent.Protocol.Verify.summarize
leaked_run = (refl, refl, refl)
