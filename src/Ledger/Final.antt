-- ===== src/Ledger/Final.antt =====
-- A closed escrow stays closed, through every later call and restart.
use agent_torrent.Prelude.{String, ◌≡◌, arith, ◌<◌, ◌≤◌, ◌<>◌}
use agent_torrent.Py.{err, ledger_error}
use agent_torrent.Ledger.{Ledger, Stamp, settle, refund, require_open_escrow}
use agent_torrent.Ledger.Balance.{count_for, has_kind-count}
use agent_torrent.Ledger.Posting.{Posted-count_for}
use agent_torrent.Ledger.Invariant.{IsSound, closings}
use agent_torrent.Ledger.Moves.{step_kept}
use agent_torrent.Ledger.Sound.{Step, Step-IsSound}

-- Steps in sequence.
pub data Run (l : Ledger) : Ledger → Type 0 where
  here : Run l l
  step : {m n : Ledger} → Run l m → Step m n → Run l n

pub Step-count_for :
    {l l' : Ledger} (k j : String)
    → IsSound l
    → Step l l'
    → count_for k j l.records ≤ count_for k j l'.records
Step-count_for {l} k j =
    step_kept (λ m. count_for k j l.records ≤ count_for k j m.records) (omega arith)
      λ kind job_id src dst m move p. rw (Posted-count_for p k j) (omega arith)

Run-closings :
    {l l' : Ledger} (j : String)
    → IsSound l
    → Run l l'
    → IsSound l' × (closings j l ≤ closings j l')
Run-closings j s here = (s, omega arith)
Run-closings j s (Run.step r next) =
    let (s', le) = Run-closings j s r in
    (
      Step-IsSound next s',
      omega (arith, le, Step-count_for "settle" j s' next, Step-count_for "refund" j s' next),
    )

already_closed :
    (j : String) (l : Ledger)
    → IsSound l
    → 0 < closings j l
    → require_open_escrow j l.records
      ≡ err (ledger_error ("escrow for job " <> j <> " already closed"))
unfolding require_open_escrow
already_closed j l s h =
    rw
      (
        has_kind-count "escrow" j l.records,
        has_kind-count "settle" j l.records,
        has_kind-count "refund" j l.records,
      )
      (ground (arith, s.closed_once j))

-- If a sound ledger holds a settlement or a refund of a job, then after any calls and restarts
-- every attempt to settle or to refund that job raises that its escrow is already closed, and
-- leaves the ledger as it is.
pub closed_stays_closed :
    {l l' : Ledger} (job_id worker : String) (stamp : Stamp)
    → IsSound l
    → 0 < closings job_id l
    → Run l l'
    → let closed = err (ledger_error ("escrow for job " <> job_id <> " already closed")) in
      (settle job_id worker stamp l' ≡ (closed, l')) × (refund job_id stamp l' ≡ (closed, l'))
unfolding settle refund
closed_stays_closed {l} {l'} job_id worker stamp s h r =
    let (s', le) = Run-closings job_id s r in
    let e = already_closed job_id l' s' (omega (arith, le)) in (rw (e, settle), rw (e, refund))
