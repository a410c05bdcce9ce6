-- ===== src/Ledger/Pending.antt =====
-- An open escrow among the calls of other threads: until its own thread closes it, it can be closed.
use agent_torrent.Prelude.{String, ◌≡◌, ap, ◌∙◌, Bool, false, ◌&&◌, text_eq, arith}
use agent_torrent.Py.{Result, ok, err}
use agent_torrent.Ledger.{Ledger, Stamp, settle, refund}
use agent_torrent.Ledger.Balance.{count_for}
use agent_torrent.Ledger.Methods.{
  IsOpen, PostsOrRaises, escrow-Posts, settle-Posts, refund-Posts, credit_for_work-Posts,
  settle_succeeds_iff, refund_succeeds_iff,
}
use agent_torrent.Ledger.Posting.{Posted-count_for}
use agent_torrent.Ledger.Invariant.{IsSound}
use agent_torrent.Ledger.Sound.{
  Step, escrowed, settled, refunded, credited, restarted, Step-IsSound, reopened,
}
use agent_torrent.Ledger.Final.{Step-count_for}

-- The step settles or refunds no such job; whatever else is allowed.
abbrev pub IsApart : {l l' : Ledger} → String → Step l l' → Type 0
IsApart job_id (settled other worker stamp ne e) = text_eq other job_id ≡ false
IsApart job_id (refunded other stamp e) = text_eq other job_id ≡ false
IsApart job_id _ = Unit {0}

-- Steps in sequence that leave the job alone.
pub data Others (job_id : String) (l : Ledger) : Ledger → Type 0 where
  none_yet : Others job_id l l
  after :
      {m n : Ledger}
      → Others job_id l m
      → (step : Step m n) → IsApart job_id step
      → Others job_id l n

Posts-count_same :
    (kind job_id src dst : String) (l : Ledger) (out : Result (Unit {0}) × Ledger) (k j : String)
    → PostsOrRaises kind job_id src dst l out
    → (text_eq job_id j && text_eq kind k) ≡ false
    → count_for k j (out.1).records ≡ count_for k j l.records
unfolding PostsOrRaises
Posts-count_same kind job_id src dst l (ok _, l') k j p other =
    rw (Posted-count_for p k j, other) (omega arith)
Posts-count_same kind job_id src dst l (err _, l') k j e other = ap (λ m. count_for k j m.records) e

apart : (b c : Bool) → b ≡ false → (b && c) ≡ false
apart b c h = ground arith

and_false : (b : Bool) → (b && false) ≡ false
and_false b = ground arith

-- The closings of the job stay as they are.
Step-closings_same :
    {l l' : Ledger} (j : String) (step : Step l l')
    → IsSound l
    → IsApart j step
    → (count_for "settle" j l'.records ≡ count_for "settle" j l.records)
      × (count_for "refund" j l'.records ≡ count_for "refund" j l.records)
Step-closings_same {l} j (escrowed job_id worker stamp e) s other =
    let posts = escrow-Posts job_id worker stamp l in
    rw e (
      Posts-count_same _ _ _ _ l _ "settle" j posts (and_false (text_eq job_id j)),
      Posts-count_same _ _ _ _ l _ "refund" j posts (and_false (text_eq job_id j)),
    )
Step-closings_same {l} j (settled job_id worker stamp ne e) s other =
    let posts = settle-Posts job_id worker stamp l in
    rw e (
      Posts-count_same _ _ _ _ l _ "settle" j posts (apart (text_eq job_id j) _ other),
      Posts-count_same _ _ _ _ l _ "refund" j posts (and_false (text_eq job_id j)),
    )
Step-closings_same {l} j (refunded job_id stamp e) s other =
    let posts = refund-Posts job_id stamp l in
    rw e (
      Posts-count_same _ _ _ _ l _ "settle" j posts (and_false (text_eq job_id j)),
      Posts-count_same _ _ _ _ l _ "refund" j posts (apart (text_eq job_id j) _ other),
    )
Step-closings_same {l} j (credited job_id requester stamp ne e) s other =
    let posts = credit_for_work-Posts job_id requester stamp l in
    rw e (
      Posts-count_same _ _ _ _ l _ "settle" j posts (and_false (text_eq job_id j)),
      Posts-count_same _ _ _ _ l _ "refund" j posts (and_false (text_eq job_id j)),
    )
Step-closings_same {l} j (restarted stamp e) s other =
    let same = e ∙ reopened stamp l s.persisted in
    (ap (λ m. count_for "settle" j m.records) same, ap (λ m. count_for "refund" j m.records) same)

pub Step-IsOpen :
    {l l' : Ledger} (j : String) (step : Step l l')
    → IsSound l
    → IsApart j step
    → IsOpen j l
    → IsOpen j l'
Step-IsOpen j step s other is_open =
    let (settles, refunds) = Step-closings_same j step s other in
    record {
      escrowed = omega (arith, is_open.escrowed, Step-count_for "escrow" j s step);
      unsettled = settles ∙ is_open.unsettled;
      unrefunded = refunds ∙ is_open.unrefunded;
    }

Others-IsOpen :
    (j : String) {l l' : Ledger} → IsSound l → IsOpen j l → Others j l l' → IsSound l' × IsOpen j l'
Others-IsOpen j s is_open none_yet = (s, is_open)
Others-IsOpen j s is_open (after others step other) =
    let (s', open') = Others-IsOpen j s is_open others in
    (Step-IsSound step s', Step-IsOpen j step s' other open')

-- If a job is in escrow in a sound ledger, then after any calls of other threads and restarts that
-- settle and refund no such job, a settlement and a refund of the job each return without an
-- exception.
pub open_can_close :
    {l l' : Ledger} (job_id worker : String) (stamp : Stamp)
    → IsSound l
    → IsOpen job_id l
    → Others job_id l l'
    → ((settle job_id worker stamp l').0 ≡ ok tt) × ((refund job_id stamp l').0 ≡ ok tt)
open_can_close {l} {l'} job_id worker stamp s is_open others =
    let (s', open') = Others-IsOpen job_id s is_open others in
    (
      (settle_succeeds_iff job_id worker stamp l').1 open',
      (refund_succeeds_iff job_id stamp l').1 open',
    )
