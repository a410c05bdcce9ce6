-- ===== src/Peer/Delegate/Closing.antt =====
-- What the `try` of `delegate` and its handler do to the ledger that they find, in which the job is
-- open.
use mathlib.Core.Path.{subst}
use agent_torrent.Prelude.{◌≡◌, inl, inr, refl, sym, ap, ◌∙◌, String, true, false}
use agent_torrent.Py.{
  Value, attribute_error, type_error, recursion_error, overflow_error, key_error, Error, Result, ok,
  err, is_protocol_error, is_python_error,
}
use agent_torrent.Ledger.{Ledger, Stamp, settle, refund}
use agent_torrent.Ledger.Methods.{IsOpen, refund_succeeds_iff}
use agent_torrent.Identity.{Crypto, Identity}
use agent_torrent.Protocol.{Dial}
use agent_torrent.Discovery.{PeerInfo}
use agent_torrent.Peer.Delegate.{Outcome, Draws, report, rescue, attempt}
use agent_torrent.Peer.Delegate.Ends.{
  IsDialogueFailure, Ends, held, repaid, repaid_broken, paid, is_repaid, is_paid_to,
}
use agent_torrent.Peer.Delegate.Outcomes.{attempt-Ends}

-- An exception of Python with the credit still in escrow; a refund, with a dictionary that reports it or
-- an exception of Python; or a settlement, with the result.
pub data Closing (job_id worker : String) (stamp : Stamp) (l : Ledger)
    (out : Result Outcome × Ledger) : Type 0 where
  kept :
      (e : Error)
      → out.0 ≡ err e
      → is_python_error e ≡ true
      → out.1 ≡ l
      → Closing job_id worker stamp l out
  back :
      (o : Outcome)
      → out.0 ≡ ok o
      → is_repaid o ≡ true
      → out.1 ≡ (refund job_id stamp l).1
      → Closing job_id worker stamp l out
  back_broken :
      (e : Error)
      → out.0 ≡ err e
      → is_python_error e ≡ true
      → out.1 ≡ (refund job_id stamp l).1
      → Closing job_id worker stamp l out
  spent :
      (o : Outcome)
      → out.0 ≡ ok o
      → is_paid_to worker o ≡ true
      → out.1 ≡ (settle job_id worker stamp l).1
      → Closing job_id worker stamp l out

python_not_protocol : (e : Error) → is_python_error e ≡ true → is_protocol_error e ≡ false
python_not_protocol attribute_error h = refl
python_not_protocol type_error h = refl
python_not_protocol recursion_error h = refl
python_not_protocol overflow_error h = refl
python_not_protocol (key_error k) h = refl
python_not_protocol _ h = absurd (cc)

module _ (c : Crypto) (self : Identity) (draws : Draws) (worker : PeerInfo) (e : Error)
    (ledger : Ledger) where
  open draws use {job_id, closing_stamp}

  rescue-caught :
      is_protocol_error e ≡ true
      → rescue c self draws worker (err e) ledger ≡ (
        report c self draws worker e (refund job_id closing_stamp ledger).0,
        (refund job_id closing_stamp ledger).1,
      )
  unfolding rescue
  rescue-caught h = rw h refl

  rescue-uncaught :
      is_protocol_error e ≡ false → rescue c self draws worker (err e) ledger ≡ (err e, ledger)
  unfolding rescue
  rescue-uncaught h = rw h refl

module _ (c : Crypto) (self : Identity) (draws : Draws) (worker : PeerInfo) (l : Ledger)
    (is_open : IsOpen draws.job_id l) where
  open draws use {job_id, closing_stamp}

  abbrev Closes : Result Outcome × Ledger → Type 0
  Closes = Closing job_id worker.peer_id closing_stamp l

  rescue-protocol :
      (e : Error) → is_protocol_error e ≡ true → Closes (rescue c self draws worker (err e) l)
  unfolding report
  rescue-protocol e h =
      let caught = rescue-caught c self draws worker e l h in
      let done = (refund_succeeds_iff job_id closing_stamp l).1 is_open in
      back _
        (ap (λ (out : Result Outcome × Ledger). out.0) caught
          ∙ ap (report c self draws worker e) done)
        refl (ap (λ (out : Result Outcome × Ledger). out.1) caught)

  rescue-python :
      (e : Error) (m : Ledger)
      → is_python_error e ≡ true
      → rescue c self draws worker (err e) m ≡ (err e, m)
  rescue-python e m h = rescue-uncaught c self draws worker e m (python_not_protocol e h)

  -- The two parts of an end may be read separately.
  at_end :
      (out : Result Outcome × Ledger) (r : Result Outcome) (m : Ledger)
      → out.0 ≡ r
      → out.1 ≡ m
      → Closes (rescue c self draws worker r m)
      → Closes (rescue c self draws worker out.0 out.1)
  at_end out r m p q =
      subst (λ (o : Result Outcome × Ledger). Closes (rescue c self draws worker o.0 o.1))
        (λ i. (sym p i, sym q i))

  at_python :
      (e : Error) (m : Ledger)
      → is_python_error e ≡ true
      → Closes (err e, m)
      → Closes (rescue c self draws worker (err e) m)
  at_python e m h = subst Closes (sym (rescue-python e m h))

  rescue-Closing :
      (out : Result Outcome × Ledger)
      → Ends job_id worker.peer_id closing_stamp l out
      → Closes (rescue c self draws worker out.0 out.1)
  unfolding rescue IsDialogueFailure
  rescue-Closing out (held e r (inl f) u) = at_end out _ _ r u (rescue-protocol e f)
  rescue-Closing out (held e r (inr k) u) =
      at_end out _ _ r u (at_python e l k (kept e refl k refl))
  rescue-Closing out (repaid o r h u) = at_end out _ _ r u (back o refl h refl)
  rescue-Closing out (repaid_broken e r k u) =
      at_end out _ _ r u (at_python e _ k (back_broken e refl k refl))
  rescue-Closing out (paid o r h u) = at_end out _ _ r u (spent o refl h refl)

  pub attempt-Closing :
      (dial : Dial) (job : Value)
      → let ended = attempt c self draws worker dial job l in
        Closing job_id worker.peer_id closing_stamp l (rescue c self draws worker ended.0 ended.1)
  attempt-Closing dial job = rescue-Closing _ (attempt-Ends c self draws worker l is_open dial job)
