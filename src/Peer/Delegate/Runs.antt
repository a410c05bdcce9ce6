-- ===== src/Peer/Delegate/Runs.antt =====
-- A delegation as a run of the ledger's methods.
use mathlib.Core.Path.{subst}
use agent_torrent.Prelude.{
  String, ◌≡◌, ◌⊎◌, inl, inr, refl, sym, ap, Bool, true, false, List, [], ◌∷◌, if◌then◌else◌,
  text_eq, ltb, Bool-cases, if-both,
}
use agent_torrent.Py.{Value, Result, ok, err, >>=-eq-ok, ok-injective, job_error}
use agent_torrent.Job.{new_job}
use agent_torrent.Ledger.{Ledger, Stamp, escrow, can_offer}
use agent_torrent.Ledger.Methods.{IsOpen}
use agent_torrent.Ledger.Accounts.{escrow-IsOpen}
use agent_torrent.Ledger.Sound.{Step, escrowed, settled, refunded}
use agent_torrent.Ledger.Pending.{IsApart}
use agent_torrent.Ledger.Final.{Run, here}
use agent_torrent.Identity.{Crypto, Identity}
use agent_torrent.Protocol.{Dial}
use agent_torrent.Discovery.{PeerInfo}
use agent_torrent.Peer.Delegate.Candidates.{candidates, is_candidate, latest}
use agent_torrent.Peer.Delegate.{
  Outcome, Draws, after_escrow, offer, with_job, delegate_to, delegate,
}
use agent_torrent.Peer.Delegate.Closing.{Closing, kept, back, back_broken, spent, attempt-Closing}

-- No peer of the list is named like the escrow account.
abbrev pub NotEscrow : List PeerInfo → Type 0
NotEscrow [] = Unit {0}
NotEscrow (p ∷ rest) = (text_eq p.peer_id "escrow" ≡ false) × NotEscrow rest

pub latest-NotEscrow :
    (p : PeerInfo) (rest : List PeerInfo)
    → NotEscrow (p ∷ rest)
    → text_eq (latest p rest).peer_id "escrow" ≡ false
unfolding latest
latest-NotEscrow p [] h = h.0
latest-NotEscrow p (q ∷ rest) h =
    latest-NotEscrow (if ltb p.last_seen q.last_seen then q else p) rest (
      if-both (λ (r : PeerInfo). text_eq r.peer_id "escrow" ≡ false) (ltb p.last_seen q.last_seen)
          h.1.0 h.0,
      h.1.1,
    )

chosen-NotEscrow :
    (fits : Bool) (p : PeerInfo) (rest l : List PeerInfo)
    → ok (if fits then p ∷ rest else rest) ≡ ok l
    → text_eq p.peer_id "escrow" ≡ false
    → NotEscrow rest
    → NotEscrow l
chosen-NotEscrow true p rest l e h k = subst NotEscrow (ok-injective e) (h, k)
chosen-NotEscrow false p rest l e h k = subst NotEscrow (ok-injective e) k

pub candidates-NotEscrow :
    (required : Value) (peers l : List PeerInfo)
    → candidates required peers ≡ ok l
    → NotEscrow peers
    → NotEscrow l
unfolding candidates
candidates-NotEscrow required [] l e h = subst NotEscrow (ok-injective e) tt
candidates-NotEscrow required (p ∷ peers) l e h =
    let fits = >>=-eq-ok (is_candidate required p) _ e in
    let rest = >>=-eq-ok (candidates required peers) _ fits.2 in
    chosen-NotEscrow fits.0 p rest.0 l rest.2 h.0
      (candidates-NotEscrow required peers rest.0 rest.1 h.1)

-- What the end of a delegation does to the ledger: nothing, or a step that closes its own job.
pub Closing-Step :
    {job_id worker : String} {stamp : Stamp} {l : Ledger} {out : Result Outcome × Ledger}
    → text_eq worker "escrow" ≡ false
    → Closing job_id worker stamp l out
    → (out.1 ≡ l)
      ⊎ ((step : Step l out.1) × ((j : String) → text_eq job_id j ≡ false → IsApart j step))
Closing-Step ne (kept e r k u) = inl u
Closing-Step {job_id} {stamp = stamp} ne (back o r h u) = inr (refunded job_id stamp u, λ j h. h)
Closing-Step {job_id} {stamp = stamp} ne (back_broken e r k u) =
    inr (refunded job_id stamp u, λ j h. h)
Closing-Step {job_id} {worker} {stamp} ne (spent o r h u) =
    inr (settled job_id worker stamp ne u, λ j h. h)

Closing-Run :
    {job_id worker : String} {stamp : Stamp} (l : Ledger) {m : Ledger}
    {out : Result Outcome × Ledger}
    → text_eq worker "escrow" ≡ false
    → Run l m
    → Closing job_id worker stamp m out
    → Run l out.1
Closing-Run l ne run closing = elim (Closing-Step ne closing) [
  | inl e ↦ subst (Run l) (sym e) run
  | inr (step, apart) ↦ Run.step run step
]

module _ (c : Crypto) (self : Identity) (draws : Draws) where
  open draws use {job_id, escrow_stamp, closing_stamp}

  offer-Run :
      (worker : PeerInfo) (dial : Dial) (job : Value) (l : Ledger)
      (out : Result (Unit {0}) × Ledger)
      → out ≡ escrow job_id worker.peer_id escrow_stamp l
      → text_eq worker.peer_id "escrow" ≡ false
      → Run l (after_escrow c self draws worker dial job out.0 out.1).1
  unfolding after_escrow
  offer-Run worker dial job l (err e, m) q ne =
      Run.step here (
        escrowed job_id worker.peer_id escrow_stamp
          (ap (λ (o : Result (Unit {0}) × Ledger). o.1) q))
  offer-Run worker dial job l (ok _, m) q ne =
      let done = ap (λ (o : Result (Unit {0}) × Ledger). o.0) (sym q) in
      let same = ap (λ (o : Result (Unit {0}) × Ledger). o.1) q in
      let is_open =
        subst (IsOpen job_id) (sym same)
          (escrow-IsOpen job_id worker.peer_id escrow_stamp l done) in
      Closing-Run l ne (Run.step here (escrowed job_id worker.peer_id escrow_stamp same))
        (attempt-Closing c self draws worker m is_open dial job)

  delegate_to-Run :
      (dial : PeerInfo → Dial) (required job : Value) (r : Result (List PeerInfo)) (l : Ledger)
      → ((ps : List PeerInfo) → r ≡ ok ps → NotEscrow ps)
      → Run l (delegate_to c self draws dial required job r l).1
  unfolding delegate_to offer
  delegate_to-Run dial required job (err e) l h = here
  delegate_to-Run dial required job (ok []) l h = here
  delegate_to-Run dial required job (ok (p ∷ rest)) l h =
      offer-Run (latest p rest) (dial (latest p rest)) job l _ refl
        (latest-NotEscrow p rest (h (p ∷ rest) refl))

  with_job-Run :
      (job : Result Value) (go : Value → Ledger → Result Outcome × Ledger) (l : Ledger)
      → ((j : Value) → Run l (go j l).1)
      → Run l (with_job job go l).1
  unfolding with_job
  with_job-Run (ok job) go l h = h job
  with_job-Run (err (job_error e)) go l h = here
  with_job-Run (err _) go l h = here

  -- A delegation changes the ledger by calls of its methods only, and pays no account named `escrow`.
  pub delegate-Run :
      (dial : PeerInfo → Dial) (peers : List PeerInfo)
      (task_text required max_tokens max_runtime expected : Value) (l : Ledger)
      → NotEscrow peers
      → Run l
          (delegate c self draws dial peers task_text required max_tokens max_runtime expected l).1
  unfolding delegate
  delegate-Run dial peers task_text required max_tokens max_runtime expected l h =
      elim (Bool-cases (can_offer l)) [
        | inr poor ↦ rw poor here
        | inl rich ↦ rw rich (
            with_job-Run (new_job job_id task_text required max_tokens max_runtime expected) _ l
              λ j.
                delegate_to-Run dial required j (candidates required peers) l
                  λ ps e. candidates-NotEscrow required peers ps e h)
      ]
