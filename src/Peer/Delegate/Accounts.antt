-- ===== src/Peer/Delegate/Accounts.antt =====
-- The accounts of the requester after a delegation, whatever the worker, the network and the peer
-- table do.
use mathlib.Core.Path.{subst}
use agent_torrent.Prelude.{
  ◌≡◌, ◌⊎◌, inl, inr, refl, ap, sym, ◌∙◌, true, String, List, [], ◌∷◌, if-both, ℤ, eq_iff, ◌+ℤ◌,
}
use agent_torrent.Py.{Value, Result, ok, err, is_python_error, job_error}
use agent_torrent.Job.{new_job}
use agent_torrent.Ledger.{Ledger, escrow, refund, balance, can_offer}
use agent_torrent.Ledger.Methods.{escrow-Posts, IsOpen, moved}
use agent_torrent.Ledger.Posting.{unchanged_of_err}
use agent_torrent.Ledger.Accounts.{escrow-IsOpen, balance-escrow, balance-settle, balance-refund}
use agent_torrent.Identity.{Crypto, Identity}
use agent_torrent.Protocol.{Dial}
use agent_torrent.Discovery.{PeerInfo}
use agent_torrent.Peer.Delegate.Candidates.{candidates, latest}
use agent_torrent.Peer.Delegate.{
  Outcome, rejected, unpaid, completed, Draws, after_escrow, offer, with_job, delegate_to, delegate,
}
use agent_torrent.Peer.Delegate.Ends.{is_repaid, is_paid_to}
use agent_torrent.Peer.Delegate.Closing.{Closing, kept, back, back_broken, spent, attempt-Closing}

-- Every account has moved as `m` says, from `l` to `l'`.
abbrev pub MovedBy : (String → ℤ) → Ledger → Ledger → Type 0
MovedBy m l l' = (a : String) → balance a l' ≡ balance a l +ℤ m a

abbrev pub Unmoved : Ledger → Ledger → Type 0
Unmoved l l' = (a : String) → balance a l' ≡ balance a l

-- What a delegation that began at `l` has done, by how it ended: a result has been paid for by one
-- credit to the worker that it names; a rejection or a failure has left every balance as it was; and
-- an exception is a ledger's refusal, with nothing changed, or one of Python itself, with the credit
-- back or still in escrow.
abbrev pub Accounted : Ledger → Result Outcome × Ledger → Type 0
Accounted l (ok (completed job worker h s r o), l') = MovedBy (moved "self" worker) l l'
Accounted l (ok _, l') = Unmoved l l'
Accounted l (err e, l') =
    (l' ≡ l) ⊎ ((is_python_error e ≡ true) × (Unmoved l l' ⊎ MovedBy (moved "self" "escrow") l l'))

Accounted-repaid :
    (l : Ledger) (o : Outcome) (l' : Ledger)
    → is_repaid o ≡ true
    → Unmoved l l'
    → Accounted l (ok o, l')
Accounted-repaid l (rejected j w v) l' h u = u
Accounted-repaid l (unpaid j w f) l' h u = u
Accounted-repaid l _ l' h u = absurd (cc)

Accounted-paid :
    (l : Ledger) (worker : String) (o : Outcome) (l' : Ledger)
    → is_paid_to worker o ≡ true
    → MovedBy (moved "self" worker) l l'
    → Accounted l (ok o, l')
Accounted-paid l worker (completed j w h s r o) l' e m =
    subst (λ x. MovedBy (moved "self" x) l l') (sym ((eq_iff w worker).0 e)) m
Accounted-paid l worker _ l' e m = absurd (cc)

-- A job that is refused before the escrow changes nothing.
with_job-Accounted :
    (job : Result Value) (go : Value → Ledger → Result Outcome × Ledger) (l : Ledger)
    → ((j : Value) → Accounted l (go j l))
    → Accounted l (with_job job go l)
unfolding with_job
with_job-Accounted (ok job) go l h = h job
with_job-Accounted (err (job_error e)) go l h = λ a. refl
with_job-Accounted (err _) go l h = inl refl

-- The two parts of an end, read separately.
pub out_of :
    {out : Result Outcome × Ledger} {r : Result Outcome} {m : Ledger}
    → out.0 ≡ r
    → out.1 ≡ m
    → ◌≡◌ {A = Result Outcome × Ledger} (r, m) out
out_of p q i = (sym p i, sym q i)

module _ (draws : Draws) (worker : PeerInfo) (l ledger : Ledger)
    (escrowed : MovedBy (moved "self" "escrow") l ledger)
    (is_open : IsOpen draws.job_id ledger) where
  open draws use {job_id, closing_stamp}

  whole : Unmoved l (refund job_id closing_stamp ledger).1
  whole = balance-refund job_id worker.peer_id closing_stamp l ledger escrowed is_open

  Closing-Accounted :
      (out : Result Outcome × Ledger)
      → Closing job_id worker.peer_id closing_stamp ledger out
      → Accounted l out
  Closing-Accounted out (kept e r k u) = subst (Accounted l) (out_of r u) (inr (k, inr escrowed))
  Closing-Accounted out (back o r h u) =
      subst (Accounted l) (out_of r u) (Accounted-repaid l o _ h whole)
  Closing-Accounted out (back_broken e r k u) =
      subst (Accounted l) (out_of r u) (inr (k, inl whole))
  Closing-Accounted out (spent o r h u) = subst (Accounted l) (out_of r u) (
      Accounted-paid l worker.peer_id o _ h
        (balance-settle job_id worker.peer_id closing_stamp l ledger escrowed is_open))

module _ (c : Crypto) (self : Identity) (draws : Draws) (l : Ledger) where
  -- What follows the escrow, by its result.
  after_escrow-Accounted :
      (worker : PeerInfo) (dial : Dial) (job : Value) (out : Result (Unit {0}) × Ledger)
      → out ≡ escrow draws.job_id worker.peer_id draws.escrow_stamp l
      → Accounted l (after_escrow c self draws worker dial job out.0 out.1)
  unfolding after_escrow
  after_escrow-Accounted worker dial job (err e, ledger) q =
      let refused = ap (λ (o : Result (Unit {0}) × Ledger). o.0) (sym q) in
      let same = ap (λ (o : Result (Unit {0}) × Ledger). o.1) q in
      inl (
        same
        ∙ unchanged_of_err _ _ _ _ l _ e
            (escrow-Posts draws.job_id worker.peer_id draws.escrow_stamp l) refused)
  after_escrow-Accounted worker dial job (ok _, ledger) q =
      let done = ap (λ (o : Result (Unit {0}) × Ledger). o.0) (sym q) in
      let same = ap (λ (o : Result (Unit {0}) × Ledger). o.1) q in
      let is_open =
        subst (IsOpen draws.job_id) (sym same)
          (escrow-IsOpen draws.job_id worker.peer_id draws.escrow_stamp l done) in
      let moves =
        subst (MovedBy (moved "self" "escrow") l) (sym same)
          (balance-escrow draws.job_id worker.peer_id draws.escrow_stamp l done) in
      Closing-Accounted draws worker l ledger moves is_open _
        (attempt-Closing c self draws worker ledger is_open dial job)

  delegate_to-Accounted :
      (dial : PeerInfo → Dial) (required job : Value) (r : Result (List PeerInfo))
      → Accounted l (delegate_to c self draws dial required job r l)
  unfolding delegate_to offer
  delegate_to-Accounted dial required job (err e) = inl refl
  delegate_to-Accounted dial required job (ok []) = λ a. refl
  delegate_to-Accounted dial required job (ok (p ∷ rest)) =
      after_escrow-Accounted (latest p rest) (dial (latest p rest)) job _ refl

  -- Whatever the peer table, the worker and the network do: if `delegate` returns a result, every
  -- account has moved by the payment of one credit from the spendable balance to the worker that
  -- the result names, and by nothing else; if it returns any other dictionary, every balance is as
  -- it was; and if it raises, the ledger is as it was, or the exception is one of Python itself (an
  -- `AttributeError`, a `TypeError`, a `KeyError`, a `RecursionError` or an `OverflowError`) and
  -- the balances are as they were or with the one credit in escrow.
  pub delegate-Accounted :
      (dial : PeerInfo → Dial) (peers : List PeerInfo)
      (task_text required max_tokens max_runtime expected : Value)
      → Accounted l
          (delegate c self draws dial peers task_text required max_tokens max_runtime expected l)
  unfolding delegate
  delegate-Accounted dial peers task_text required max_tokens max_runtime expected =
      let job = new_job draws.job_id task_text required max_tokens max_runtime expected in
      let go = λ (j : Value) (m : Ledger).
        delegate_to c self draws dial required j (candidates required peers) m in
      if-both (Accounted l) (can_offer l)
        (with_job-Accounted job go l
          (λ j. delegate_to-Accounted dial required j (candidates required peers)))
        (λ a. refl)
