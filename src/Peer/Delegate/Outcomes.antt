-- ===== src/Peer/Delegate/Outcomes.antt =====
-- The ledger after a delegation, whatever the worker, the network and the peer table do.
use mathlib.Core.Path.{subst}
use agent_torrent.Prelude.{
  ◌≡◌, inl, inr, refl, sym, Bool, true, false, String, Option, some, none, Option-cases,
  if◌then◌else◌, text_eq, if-both, eq_refl,
}
use agent_torrent.Py.Raises.{Raises, Raises-ok, Raises-err}
use agent_torrent.Py.{
  Value, null, object, text, boolean, end, Fields, ok, index, get, get?, lookup, is_text_eq,
}
use agent_torrent.Py.Exec.{Exec, continue}
use agent_torrent.Ledger.{Ledger, refund, settle}
use agent_torrent.Ledger.Methods.{IsOpen, settle_succeeds_iff, refund_succeeds_iff}
use agent_torrent.Identity.{Crypto, Identity}
use agent_torrent.Protocol.{Dial, refused, connected, send, recv, handshake_outbound}
use agent_torrent.Discovery.{PeerInfo}
use agent_torrent.Peer.Delegate.{
  Outcome, completed, Session, Draws, check_worker, match_worker, on_reject, on_failure, on_success,
  on_result, on_reply, exchange, attempt,
}
use agent_torrent.Peer.Delegate.Ends.{
  IsDialogueFailure, Ends, held, index-Raises, get-Raises, recv-Raises, send-Raises, Leads,
  raise-Leads, continue-Leads, handshake_outbound-Raises, talk-Leads, lift-Leads, pure-Repays,
  lift-Repays, refund-Leads, settle-Leads,
}

module _ (c : Crypto) (self : Identity) (draws : Draws) (worker : PeerInfo) (l : Ledger)
    (is_open : IsOpen draws.job_id l) where
  open draws use {job_id, closing_stamp}

  refundable : (refund job_id closing_stamp l).0 ≡ ok tt
  refundable = (refund_succeeds_iff job_id closing_stamp l).1 is_open

  payable : (settle job_id worker.peer_id closing_stamp l).0 ≡ ok tt
  payable = (settle_succeeds_iff job_id worker.peer_id closing_stamp l).1 is_open

  on_reject-Leads :
      (reply : Value)
      → Leads job_id worker.peer_id closing_stamp l (on_reject c self draws worker reply)
  unfolding on_reject
  on_reject-Leads reply = refund-Leads _ _ _ l _ refundable (
      lift-Repays _ _ _ l (index "body" reply) _ (index-Raises "body" reply) λ body.
        lift-Repays _ _ _ l (get "reason" _ body) _ (get-Raises "reason" _ body)
          λ reason. pure-Repays _ _ _ l _ refl)

  on_failure-Leads :
      (result : Value)
      → Leads job_id worker.peer_id closing_stamp l (on_failure c self draws worker result)
  unfolding on_failure
  on_failure-Leads result = refund-Leads _ _ _ l _ refundable (
      lift-Repays _ _ _ l (get? "output" result) _ (get-Raises "output" _ result)
        λ output. pure-Repays _ _ _ l _ refl)

  -- The lookups of the success branch do not raise on a dictionary.
  get-object :
      (k : String) (default : Value) (d : Fields) → (v : Value) × (get k default (object d) ≡ ok v)
  unfolding get
  get-object k default d = elim (Option-cases (lookup k d)) [
    | inl e ↦ (default, rw (e, get) refl)
    | inr (v, e) ↦ (v, rw (e, get) refl)
  ]

  on_success-Leads :
      (d : Fields)
      → Leads job_id worker.peer_id closing_stamp l (on_success c self draws worker (object d))
  unfolding on_success continue
  on_success-Leads d =
      let h = get-object "harness" null d in
      let m = get-object "simulated" (boolean false) d in
      let r = get-object "runtime_seconds" null d in
      let o = get-object "output" (text "") d in
      settle-Leads _ _ _ l _ payable λ s. (
        completed job_id worker.peer_id h.0 m.0 r.0 o.0,
        rw (h.1, m.1, r.1, o.1) refl,
        eq_refl worker.peer_id,
        rw (h.1, m.1, r.1, o.1) refl,
      )

  -- A value whose `get` has returned is a dictionary.
  dict_of_get :
      (k : String) (default v : Value) {w : Value}
      → get k default v ≡ ok w
      → (d : Fields) × (v ≡ object d)
  unfolding get
  dict_of_get k default (object d) h = (d, refl)
  dict_of_get k default _ h = absurd (cc)

  if-Leads :
      (b : Bool) (f g : Exec Session Outcome)
      → Leads job_id worker.peer_id closing_stamp l f
      → Leads job_id worker.peer_id closing_stamp l g
      → Leads job_id worker.peer_id closing_stamp l (if b then f else g)
  if-Leads true f g hf hg = hf
  if-Leads false f g hf hg = hg

  on_result-Leads :
      (message : Value)
      → Leads job_id worker.peer_id closing_stamp l (on_result c self draws worker message)
  unfolding on_result IsDialogueFailure
  on_result-Leads message =
      lift-Leads _ _ _ l (index "body" message) _ (index-Raises "body" message) λ body _.
        lift-Leads _ _ _ l (get "result" (object end) body) _ (get-Raises "result" _ body)
          λ result _.
            lift-Leads _ _ _ l (get? "job_id" result) _ (get-Raises "job_id" _ result) λ id found.
              let (d, is_object) = dict_of_get "job_id" null result found in
              if-Leads (is_text_eq job_id id) _ _
                (lift-Leads _ _ _ l (get? "status" result) _ (get-Raises "status" _ result)
                  λ status _.
                    if-Leads (is_text_eq "ok" status) _ _
                      (subst
                        (λ v.
                          Leads job_id worker.peer_id closing_stamp l
                            (on_success c self draws worker v))
                        (sym is_object) (on_success-Leads d))
                      (on_failure-Leads result))
                (raise-Leads _ _ _ l _ (inl refl))

  on_reply-Leads :
      (reply : Value)
      → Leads job_id worker.peer_id closing_stamp l (on_reply c self draws worker reply)
  unfolding on_reply
  on_reply-Leads reply =
      lift-Leads _ _ _ l (index "type" reply) _ (index-Raises "type" reply) λ type _.
        if-Leads (is_text_eq "TASK_REJECT" type) _ _ (on_reject-Leads reply) (
          talk-Leads _ _ _ l (recv c self _) _ (recv-Raises c self _)
            λ message. on_result-Leads message.1)

  match_worker-Raises :
      (expected : PeerInfo) (id : Option String)
      → Raises IsDialogueFailure (match_worker expected id)
  unfolding match_worker IsDialogueFailure
  match_worker-Raises expected none = Raises-err _ (inl refl)
  match_worker-Raises expected (some id) =
      if-both (Raises IsDialogueFailure) (text_eq id expected.peer_id) (Raises-ok _)
        (Raises-err _ (inl refl))

  exchange-Leads :
      (job : Value) → Leads job_id worker.peer_id closing_stamp l (exchange c self draws worker job)
  unfolding exchange check_worker
  exchange-Leads job s q =
      continue-Leads _ _ _ l (match_worker worker s.conn.remote_peer_id) _
        (match_worker-Raises worker s.conn.remote_peer_id)
        (λ _ _. talk-Leads _ _ _ l (send c self _ _) _ (send-Raises c self _ _) λ _.
          talk-Leads _ _ _ l (recv c self _) _ (recv-Raises c self _)
            λ message. on_reply-Leads message.1)
        s q

  pub attempt-Ends :
      (dial : Dial) (job : Value)
      → Ends job_id worker.peer_id closing_stamp l (attempt c self draws worker dial job l)
  unfolding attempt IsDialogueFailure
  attempt-Ends (refused e) job = held _ refl (inl refl) refl
  attempt-Ends (connected conn) job =
      talk-Leads _ _ _ l (handshake_outbound c self) _ (handshake_outbound-Raises c self)
        (λ _. exchange-Leads job) _ refl
