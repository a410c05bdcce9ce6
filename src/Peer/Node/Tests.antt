-- ===== src/Peer/Node/Tests.antt =====
-- The life of a peer: a beacon, an offer of another peer, and a restart.
use agent_torrent.Prelude.{
  ℕ, String, ◌≡◌, ◌⊎◌, refl, List, [], ◌∷◌, map, none, true, false, pos, ◌≤ℤ◌, ◌+ℤ◌, false≢true_of,
  text_eq,
}
use agent_torrent.Py.{Value, object, field, end}
use agent_torrent.Ledger.{balance, open_ledger}
use agent_torrent.Ledger.Sound.{Reachable}
use agent_torrent.Identity.{seal}
use agent_torrent.Identity.Samples.{toy_crypto, toy_laws, alice, bob}
use agent_torrent.Executor.Samples.{sys}
use agent_torrent.Job.Samples.{fields}
use agent_torrent.Protocol.{Connection}
use agent_torrent.Discovery.{beacon}
use agent_torrent.Discovery.Beacon.{datagram}
use agent_torrent.Peer.Control.{Served, is_loopback}
use agent_torrent.Peer.Serve.{serve_connection}
use agent_torrent.Peer.Serve.Course.{Opens}
use agent_torrent.Peer.Serve.Guard.{Harmless, serve_connection-Guarded}
use agent_torrent.Peer.Samples.{stamp, boot, config, py, turn_from}
use agent_torrent.Peer.Node.{Peer, Event, connected, heard, restarted, start_peer, run_events}
use agent_torrent.Peer.Node.Meeting.{IsBoot, started_peers_meet}
use agent_torrent.Manifest.{Probe, exited, not_found, detect_harnesses}
use agent_torrent.Discovery.{Address, find, handle_beacon}
use agent_torrent.Discovery.Meet.{row_of}
use agent_torrent.Peer.Node.{hear}
use agent_torrent.Prelude.{some, if◌then◌else◌, arith}
use agent_torrent.Py.{ok}
use agent_torrent.Peer.Node.Refines.{start_peer-IsLawful, run_events-Reachable}
use agent_torrent.Peer.Node.Spending.{NoCommands, run_events-balance}
use agent_torrent.Protocol.Handshake.{clean}

abbrev peer : Peer
peer = start_peer bob boot none

-- What alice says on her connection.
abbrev offering : Connection
offering =
    clean (λ n. n)
      (seal toy_crypto alice 5 "HANDSHAKE" (object end)
        ∷ seal toy_crypto alice 6 "TASK_OFFER" (object (field "job" (object fields) end))
        ∷ [])

abbrev life : List Event
life =
    heard (datagram (beacon toy_crypto 5 (start_peer alice boot none).discovery))
      ("10.0.0.3", 47474) 7
    ∷ connected offering (turn_from "10.0.0.3") sys stamp
    ∷ restarted boot
    ∷ []

far : is_loopback "10.0.0.3" ≡ false
unfolding is_loopback
far = refl

no_commands : NoCommands toy_crypto toy_laws py bob.peer_id life
no_commands = (tt, ((λ command. false≢true_of (is_loopback "10.0.0.3") command.1 far), (tt, tt)))

run_events-balance_example :
    balance "self" peer.ledger ≤ℤ balance "self" (run_events toy_crypto py life peer).ledger
unfolding start_peer
run_events-balance_example =
    run_events-balance toy_crypto toy_laws py life peer (start_peer-IsLawful bob boot) no_commands

run_events-Reachable_example :
    Reachable (run_events toy_crypto py life (start_peer bob boot none)).ledger
run_events-Reachable_example = run_events-Reachable toy_crypto toy_laws py bob boot life

abbrev waiting : Served
waiting = record { ledger = peer.ledger; discovery = peer.discovery; conn = offering }

serve_connection-Guarded_example :
    Harmless waiting
      (serve_connection toy_crypto bob py sys config (turn_from "10.0.0.3") stamp waiting).1
    ⊎ (Opens toy_crypto waiting.conn bob.peer_id × (is_loopback "10.0.0.3" ≡ true))
serve_connection-Guarded_example =
    serve_connection-Guarded toy_crypto bob py sys config (turn_from "10.0.0.3") stamp waiting

-- The credit that the offer has earned is there after the restart.
earned_run : balance "self" (run_events toy_crypto py life peer).ledger ≡ pos 11
unfolding balance run_events serve_connection agent_torrent.Peer.Node.on_event
    agent_torrent.Peer.Node.serve agent_torrent.Peer.Node.hear start_peer open_ledger seal beacon
    agent_torrent.Peer.Serve.converse agent_torrent.Peer.Serve.dispatch
    agent_torrent.Peer.Serve.caught agent_torrent.Peer.Serve.on_session
    agent_torrent.Peer.Control.reply_with agent_torrent.Peer.Control.handle_control
    agent_torrent.Peer.Worker.handle_task_offer agent_torrent.Peer.Worker.respond
    agent_torrent.Peer.Worker.finish agent_torrent.Peer.Worker.earn
    agent_torrent.Peer.Worker.answer_offer agent_torrent.Peer.Worker.answer_job
    agent_torrent.Peer.Worker.answer_valid agent_torrent.Peer.Worker.exceeds
    agent_torrent.Peer.Worker.quiet agent_torrent.Ledger.credit_for_work
    agent_torrent.Protocol.handshake_inbound agent_torrent.Discovery.handle_beacon
    agent_torrent.Discovery.handle_news agent_torrent.Discovery.learn agent_torrent.Discovery.insert
    agent_torrent.Discovery.find agent_torrent.Executor.execute_job
    agent_torrent.Executor.execute_chosen agent_torrent.Executor.run_harness
    agent_torrent.Executor.choose_harness agent_torrent.Executor.harness_usable
    agent_torrent.Executor.first_usable agent_torrent.Executor.harness_command
    agent_torrent.Executor.binary_of agent_torrent.Executor.outcome_of
    agent_torrent.Executor.result_of agent_torrent.Executor.launch_of
    agent_torrent.Executor.field_text agent_torrent.Executor.shown
    agent_torrent.Executor.sandbox_env agent_torrent.Executor.pass_through
    agent_torrent.Executor.set_var agent_torrent.Peer.Delegate.delegate_to
    agent_torrent.Peer.Delegate.with_job agent_torrent.Peer.Delegate.offer
    agent_torrent.Peer.Delegate.after_escrow agent_torrent.Peer.Delegate.rescue
    agent_torrent.Peer.Delegate.attempt agent_torrent.Peer.Delegate.exchange
    agent_torrent.Peer.Delegate.on_reply agent_torrent.Peer.Delegate.on_result
    agent_torrent.Peer.Delegate.on_success agent_torrent.Peer.Delegate.on_failure
    agent_torrent.Peer.Delegate.talk agent_torrent.Peer.Delegate.post agent_torrent.Job.new_job
    agent_torrent.Job.validate_job agent_torrent.Job.job_problems agent_torrent.Job.missing_fields
    agent_torrent.Job.is_full_text agent_torrent.Job.raise_listed
    agent_torrent.Checks.problem_unless agent_torrent.Prelude.is_blank agent_torrent.Py.is_one_of
    agent_torrent.Py.lookup_or_null agent_torrent.Py.lookup agent_torrent.Py.truthy
    agent_torrent.Py.index agent_torrent.Py.get agent_torrent.Py.Exec.continue
    agent_torrent.Manifest.build_manifest agent_torrent.Ledger.escrow agent_torrent.Ledger.settle
    agent_torrent.Ledger.refund agent_torrent.Ledger.can_offer agent_torrent.Ledger.append
    agent_torrent.Ledger.sum_deltas agent_torrent.Ledger.entries_balance
    agent_torrent.Ledger.balance_locked agent_torrent.Ledger.job_records agent_torrent.Ledger.is_for
    agent_torrent.Ledger.has_kind agent_torrent.Ledger.require_open_escrow ◌+ℤ◌
    agent_torrent.Identity.identity agent_torrent.Identity.peer_id_from_pubkey
    agent_torrent.Identity.canonical_json agent_torrent.Identity.payload_of
    agent_torrent.Identity.open_envelope agent_torrent.Identity.reraise_malformed
    agent_torrent.Identity.read_parts agent_torrent.Identity.bytes_from_hex
    agent_torrent.Identity.check_parts agent_torrent.Identity.check_signature
    agent_torrent.Identity.Hex.hex agent_torrent.Identity.Hex.from_hex agent_torrent.Protocol.send
    agent_torrent.Protocol.recv agent_torrent.Protocol.deliver agent_torrent.Protocol.next_send
    agent_torrent.Protocol.next_read agent_torrent.Protocol.set_remote
    agent_torrent.Protocol.handshake_outbound agent_torrent.Protocol.Verify.receive
    agent_torrent.Protocol.Verify.open_line agent_torrent.Protocol.Verify.check_message
    agent_torrent.Protocol.Verify.check_remote agent_torrent.Protocol.Verify.summarize
earned_run = refl

-- The one tool that the start detects.
abbrev probe : String → Probe
probe name = if text_eq name "claude" then exited (pos 0) "1.0" "" else not_found

boot-IsBoot : IsBoot boot
unfolding detect_harnesses agent_torrent.Prelude.is_blank agent_torrent.Prelude.first_line
    agent_torrent.Prelude.strip agent_torrent.Discovery.Beacon.is_port
boot-IsBoot = record {
  probe = probe;
  url = none;
  model = none;
  detected = refl;
  limited = omega arith;
  port = refl;
}

others : text_eq bob.peer_id alice.peer_id ≡ false
unfolding agent_torrent.Identity.identity
others = refl

abbrev from : Address
from = ("10.0.0.2", 47474)

started_peers_meet_example :
    let a = start_peer bob boot none in
    let b = start_peer alice boot none in
    let b_later = hear toy_crypto py (datagram (beacon toy_crypto 5 a.discovery)) from 7 b in
    let answer = beacon toy_crypto 7 b_later.discovery in
    let a_later = hear toy_crypto py (datagram answer) from 9 a in
    ((handle_beacon toy_crypto (datagram (beacon toy_crypto 5 a.discovery)) from 7 b.discovery).0
      ≡ ok ((from, answer) ∷ []))
    × (find bob.peer_id b_later.discovery.table
        ≡ some (row_of toy_crypto toy_laws (7 ∷ []) from 7 a.discovery))
    × (find alice.peer_id a_later.discovery.table
        ≡ some (row_of toy_crypto toy_laws [] from 9 b.discovery))
started_peers_meet_example =
    started_peers_meet toy_crypto toy_laws py (7 ∷ []) [] boot boot none none 5 7 9 from from
      boot-IsBoot boot-IsBoot others
