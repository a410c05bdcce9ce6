-- ===== src/Ledger/Moves.antt =====
-- The four movements of a credit, and what any step of the process keeps by them.
use mathlib.Core.Path.{subst}
use agent_torrent.Prelude.{String, sym, ◌∙◌}
use agent_torrent.Py.{Result, ok, err}
use agent_torrent.Ledger.{Ledger}
use agent_torrent.Ledger.Methods.{
  Posted, PostsOrRaises, escrow-Posts, settle-Posts, refund-Posts, credit_for_work-Posts,
}
use agent_torrent.Ledger.Invariant.{IsSound}
use agent_torrent.Ledger.Sound.{Step, escrowed, settled, refunded, credited, restarted, reopened}

-- The kind of a record, with the accounts that it debits and credits.
pub data Move : String → String → String → Type 0 where
  holding : Move "escrow" "self" "escrow"
  paying : (worker : String) → Move "settle" "escrow" worker
  returning : Move "refund" "escrow" "self"
  earning : (requester : String) → Move "work" requester "self"

-- What holds of the ledger, and of every ledger with one more record of a movement, holds after a step.
module _ (P : Ledger → Type 0) {l : Ledger} (before : P l)
    (moved : (kind job_id src dst : String) (l' : Ledger)
      → Move kind src dst
      → Posted kind job_id src dst l l'
      → P l') where
  posts_kept :
      (kind job_id src dst : String) (out : Result (Unit {0}) × Ledger)
      → Move kind src dst
      → PostsOrRaises kind job_id src dst l out
      → P out.1
  unfolding PostsOrRaises
  posts_kept kind job_id src dst (ok _, l') move p = moved kind job_id src dst l' move p
  posts_kept kind job_id src dst (err _, l') move e = subst P (sym e) before

  pub step_kept : {l' : Ledger} → IsSound l → Step l l' → P l'
  step_kept s (escrowed job_id worker stamp e) =
      subst P (sym e) (posts_kept _ _ _ _ _ holding (escrow-Posts job_id worker stamp l))
  step_kept s (settled job_id worker stamp ne e) =
      subst P (sym e) (posts_kept _ _ _ _ _ (paying worker) (settle-Posts job_id worker stamp l))
  step_kept s (refunded job_id stamp e) =
      subst P (sym e) (posts_kept _ _ _ _ _ returning (refund-Posts job_id stamp l))
  step_kept s (credited job_id requester stamp ne e) =
      subst P (sym e)
        (posts_kept _ _ _ _ _ (earning requester) (credit_for_work-Posts job_id requester stamp l))
  step_kept s (restarted stamp e) = subst P (sym (e ∙ reopened stamp l s.persisted)) before
