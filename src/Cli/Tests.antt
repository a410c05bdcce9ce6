-- ===== src/Cli/Tests.antt =====
-- `mesh delegate` with a balance and no other peer, and `mesh ledger` of a new ledger.
use agent_torrent.Prelude.{ℕ, String, ◌≡◌, refl, [], ◌∷◌, true, false, none, pos, if◌then◌else◌}
use agent_torrent.Py.{text, int, ok, end}
use agent_torrent.Ledger.{Ledger, open_ledger}
use agent_torrent.Identity.Samples.{toy_crypto, toy_laws, alice}
use agent_torrent.Executor.Samples.{sys}
use agent_torrent.Discovery.{Discovery, peers}
use agent_torrent.Peer.Samples.{stamp, config, py, boot, turn_from}
use agent_torrent.Peer.Delegate.{failed, no_candidate, delegate}
use agent_torrent.Peer.Delegate.Report.{outcome_dict}
use agent_torrent.Peer.Node.{start_peer}
use agent_torrent.Peer.Control.{is_loopback}
use agent_torrent.Cli.Request.{granted}
use agent_torrent.Cli.{cmd_delegate, cmd_ledger, said, delegate_fields}
use agent_torrent.Cli.Wire.{served, reply_to, mesh_delegate}
use agent_torrent.Cli.Printed.{mesh_ledger}

abbrev alone : Discovery
alone = (start_peer alice boot none).discovery

abbrev fresh : Ledger
fresh = open_ledger stamp none

abbrev tick : ℕ → ℕ
tick n = n

near : is_loopback "127.0.0.1" ≡ true
unfolding is_loopback
near = refl

-- There is no peer that could take the task.
nobody :
    delegate toy_crypto alice
      (turn_from "127.0.0.1").draws
      (turn_from "127.0.0.1").dial
      (peers 9 alone).0
      (text "reverse")
      (text "any")
      (int (pos 9))
      (int (pos 60))
      (text "code")
      fresh
    ≡ (ok (failed (no_candidate (text "any"))), fresh)
unfolding delegate agent_torrent.Ledger.can_offer agent_torrent.Ledger.balance
    agent_torrent.Ledger.balance_locked open_ledger agent_torrent.Ledger.append
    agent_torrent.Ledger.sum_deltas agent_torrent.Prelude.◌+ℤ◌ agent_torrent.Ledger.entries_balance
    agent_torrent.Job.new_job agent_torrent.Job.validate_job agent_torrent.Job.raise_listed
    agent_torrent.Job.missing_fields agent_torrent.Job.job_problems agent_torrent.Prelude.is_blank
    peers start_peer
nobody = refl

mesh_delegate_example :
    let args =
      delegate_fields (text "reverse") (text "any") (int (pos 9)) (int (pos 60)) (text "code") in
    let reply =
      reply_to toy_crypto toy_laws [] tick tick py sys config
        (turn_from "127.0.0.1")
        stamp
        fresh
        alone
        9001
        1234
        "delegate"
        args in
    (reply ≡ granted (outcome_dict py (failed (no_candidate (text "any")))))
    × ((cmd_delegate py "~/.agenttorrent" false reply).0 ≡ ok 2)
    × ((served toy_crypto toy_laws [] tick tick py sys config
          (turn_from "127.0.0.1")
          stamp
          fresh
          alone
          "delegate"
          args).1.ledger
        ≡ fresh)
mesh_delegate_example =
    mesh_delegate toy_crypto toy_laws [] tick tick py sys config (turn_from "127.0.0.1") stamp near
      fresh fresh alone 9001 1234 "~/.agenttorrent" false (text "reverse") (text "any")
      (int (pos 9)) (int (pos 60)) (text "code") (failed (no_candidate (text "any"))) nobody

mesh_ledger_example :
    cmd_ledger py "~/.agenttorrent" false (
      reply_to toy_crypto toy_laws [] tick tick py sys config
        (turn_from "127.0.0.1")
        stamp
        fresh
        alone
        9001
        1234
        "ledger"
        end)
    ≡ (
      ok 0,
      said "balance: 10 credits"
          ∷ said "KIND     JOB        MEMO"
          ∷ said "opening  -          opening balance"
          ∷ [],
    )
unfolding open_ledger agent_torrent.Ledger.balance agent_torrent.Prelude.str_int
    agent_torrent.Cli.pad agent_torrent.Ledger.append agent_torrent.Ledger.balance_locked
    agent_torrent.Ledger.sum_deltas agent_torrent.Prelude.◌+ℤ◌ agent_torrent.Ledger.entries_balance
    agent_torrent.Prelude.take_text cmd_ledger
mesh_ledger_example =
    mesh_ledger toy_crypto toy_laws [] tick tick py sys config (turn_from "127.0.0.1") stamp near
      fresh alone 9001 1234 "~/.agenttorrent"
