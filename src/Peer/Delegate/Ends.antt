-- ===== src/Peer/Delegate/Ends.antt =====
-- How the dialogue with a worker can end, and a rule for each way in which the code builds it.
use mathlib.Core.Path.{subst}
use agent_torrent.Prelude.{
  ◌≡◌, ◌⊎◌, inl, inr, refl, ap, sym, ◌∙◌, Bool, true, false, String, List, [], ◌∷◌, Option, some,
  none, Option-cases, text_eq,
}
use agent_torrent.Py.Raises.{Raises, Raises-ok, Raises-err}
use agent_torrent.Py.{
  Value, object, end, Error, Result, ok, err, index, get, lookup, is_protocol_error,
  is_python_error,
}
use agent_torrent.Py.Exec.{Exec, pure, raise, lift, ◌>>=◌, ◌>>◌, continue}
use agent_torrent.Ledger.{Ledger, Stamp, refund, settle}
use agent_torrent.Identity.{Crypto, Identity}
use agent_torrent.Protocol.{
  Connection, deliver, send, recv, handshake_outbound, handshake, set_remote,
}
use agent_torrent.Protocol.Verify.{summarize}
use agent_torrent.Protocol.Verify.{Read}
use agent_torrent.Protocol.Receive.{IsMessageFailure, IsReceiveFailure, receive-Raises}
use agent_torrent.Peer.Delegate.{Outcome, rejected, unpaid, completed, Session, talk, post}

-- A `ProtocolError`, or an exception of Python itself.
unfoldable pub IsDialogueFailure : Error → Type 0
IsDialogueFailure e = (is_protocol_error e ≡ true) ⊎ (is_python_error e ≡ true)

-- The dictionaries that report a refund.
abbrev pub is_repaid : Outcome → Bool
is_repaid (rejected j w v) = true
is_repaid (unpaid j w f) = true
is_repaid _ = false

-- The dictionary of a result, with the worker that is paid for it.
abbrev pub is_paid_to : String → Outcome → Bool
is_paid_to worker (completed j w h s r o) = text_eq w worker
is_paid_to worker _ = false

-- From the ledger `l` that holds the escrow: an exception with the escrow still held; a refund, with
-- a dictionary that reports it or an exception of Python; or a settlement, with the result.
pub data Ends (job_id worker : String) (stamp : Stamp) (l : Ledger) (out : Result Outcome × Ledger)
    : Type 0 where
  held :
      (e : Error) → out.0 ≡ err e → IsDialogueFailure e → out.1 ≡ l → Ends job_id worker stamp l out
  repaid :
      (o : Outcome)
      → out.0 ≡ ok o
      → is_repaid o ≡ true
      → out.1 ≡ (refund job_id stamp l).1
      → Ends job_id worker stamp l out
  repaid_broken :
      (e : Error)
      → out.0 ≡ err e
      → is_python_error e ≡ true
      → out.1 ≡ (refund job_id stamp l).1
      → Ends job_id worker stamp l out
  paid :
      (o : Outcome)
      → out.0 ≡ ok o
      → is_paid_to worker o ≡ true
      → out.1 ≡ (settle job_id worker stamp l).1
      → Ends job_id worker stamp l out

pub index-Raises : (k : String) (v : Value) → Raises (λ e. is_python_error e ≡ true) (index k v)
unfolding index
index-Raises k (object d) = elim (Option-cases (lookup k d)) [
  | inl e ↦ rw (e, index) (Raises-err _ refl)
  | inr (v, e) ↦ rw (e, index) (Raises-ok v)
]
index-Raises k _ = Raises-err _ refl

pub get-Raises :
    (k : String) (default v : Value) → Raises (λ e. is_python_error e ≡ true) (get k default v)
unfolding get
get-Raises k default (object d) = elim (Option-cases (lookup k d)) [
  | inl e ↦ rw (e, get) (Raises-ok default)
  | inr (v, e) ↦ rw (e, get) (Raises-ok v)
]
get-Raises k default _ = Raises-err _ refl

pub of_python :
    {A : Type 0} {r : Result A}
    → Raises (λ e. is_python_error e ≡ true) r
    → Raises IsDialogueFailure r
unfolding IsDialogueFailure
of_python h = record { at = λ e q. inr (h.at e q) }

of_receive : (r : Read) (e : Error) → IsReceiveFailure r e → IsDialogueFailure e
unfolding IsDialogueFailure IsReceiveFailure IsMessageFailure
of_receive r e (inl (inl h)) = inl h
of_receive r e (inl (inr h)) = inr (ap is_python_error h)
of_receive r e (inr (inl (_, h))) = inr (ap is_python_error h)
of_receive r e (inr (inr (_, h))) = inr (ap is_python_error h)

deliver-Raises :
    (envelope body : Value) (e : Option String) (conn : Connection)
    → Raises IsDialogueFailure (deliver envelope body e conn).0
unfolding deliver summarize IsDialogueFailure
deliver-Raises envelope body (some e) conn = Raises-err _ (inl refl)
deliver-Raises envelope (object d) none conn = Raises-ok _
deliver-Raises envelope _ none conn = Raises-err _ (inr refl)

module _ (c : Crypto) (self : Identity) where
  pub recv-Raises :
      (expected : List String) (conn : Connection)
      → Raises IsDialogueFailure (recv c self expected conn).0
  unfolding recv
  recv-Raises expected conn = record {
    at = λ e h. of_receive _ e ((receive-Raises c expected conn.remote_peer_id _).at e h);
  }

  pub send-Raises :
      (msg_type : String) (body : Value) (conn : Connection)
      → Raises IsDialogueFailure (send c self msg_type body conn).0
  unfolding send
  send-Raises msg_type body conn = deliver-Raises _ body _ conn

module _ (job_id worker : String) (stamp : Stamp) (l : Ledger) where
  -- From any session with this ledger the step ends in one of these ways.
  abbrev pub Leads : Exec Session Outcome → Type 0
  Leads f = (s : Session) → s.ledger ≡ l → Ends job_id worker stamp l ((f s).0, ((f s).1).ledger)

  pub raise-Leads : (e : Error) → IsDialogueFailure e → Leads (raise e)
  raise-Leads e h s q = held e refl h q

  pub continue-Leads :
      {A : Type 0} (r : Result A) (f : A → Exec Session Outcome)
      → Raises IsDialogueFailure r
      → ((a : A) → r ≡ ok a → Leads (f a))
      → Leads (continue r f)
  unfolding continue
  continue-Leads (ok a) f h k s q = k a refl s q
  continue-Leads (err e) f h k s q = held e refl (h.at e refl) q

  pub talk-Leads :
      {A : Type 0} (m : Exec Connection A) (f : A → Exec Session Outcome)
      → ((conn : Connection) → Raises IsDialogueFailure (m conn).0)
      → ((a : A) → Leads (f a))
      → Leads (talk m >>= f)
  unfolding talk
  talk-Leads m f h k s q = continue-Leads (m s.conn).0 f (h s.conn) (λ a _. k a) _ q

  pub lift-Leads :
      {A : Type 0} (r : Result A) (f : A → Exec Session Outcome)
      → Raises (λ e. is_python_error e ≡ true) r
      → ((a : A) → r ≡ ok a → Leads (f a))
      → Leads (lift r >>= f)
  lift-Leads r f h k s q = continue-Leads r f (of_python h) k s q

  -- After the refund: no step but lookups and the return of a dictionary that reports it.
  abbrev pub Repays : Exec Session Outcome → Type 0
  Repays f =
      (s : Session)
      → s.ledger ≡ (refund job_id stamp l).1
      → Ends job_id worker stamp l ((f s).0, ((f s).1).ledger)

  pub pure-Repays : (o : Outcome) → is_repaid o ≡ true → Repays (pure o)
  pure-Repays o h s q = repaid o refl h q

  pub lift-Repays :
      {A : Type 0} (r : Result A) (f : A → Exec Session Outcome)
      → Raises (λ e. is_python_error e ≡ true) r
      → ((a : A) → Repays (f a))
      → Repays (lift r >>= f)
  unfolding continue
  lift-Repays (ok a) f h k s q = k a s q
  lift-Repays (err e) f h k s q = repaid_broken e refl (h.at e refl) q

  -- A refund or a settlement that goes through on `l`, and what follows it.
  pub refund-Leads :
      (f : Exec Session Outcome)
      → (refund job_id stamp l).0 ≡ ok tt
      → Repays f
      → Leads (post (refund job_id stamp) >> f)
  unfolding post continue
  refund-Leads f done k s q =
      let s' : Session = record s { ledger = (refund job_id stamp s.ledger).1 } in
      subst
        (λ r.
          Ends job_id worker stamp l
            ((continue r (λ _. f) s').0, ((continue r (λ _. f) s').1).ledger))
        (sym (ap (λ m. (refund job_id stamp m).0) q ∙ done))
        (k s' (ap (λ m. (refund job_id stamp m).1) q))

  pub settle-Leads :
      (f : Exec Session Outcome)
      → (settle job_id worker stamp l).0 ≡ ok tt
      → ((s : Session)
          → (o : Outcome) × ((f s).0 ≡ ok o)
            × (is_paid_to worker o ≡ true)
            × (((f s).1).ledger ≡ s.ledger))
      → Leads (post (settle job_id worker stamp) >> f)
  unfolding post continue
  settle-Leads f done k s q =
      let s' : Session = record s { ledger = (settle job_id worker stamp s.ledger).1 } in
      let (o, returned, complete, kept) = k s' in
      subst
        (λ r.
          Ends job_id worker stamp l
            ((continue r (λ _. f) s').0, ((continue r (λ _. f) s').1).ledger))
        (sym (ap (λ m. (settle job_id worker stamp m).0) q ∙ done))
        (paid o returned complete (kept ∙ ap (λ m. (settle job_id worker stamp m).1) q))

-- The exceptions of a block of connection methods.
continue-Raises :
    {A B : Type 0} {P : Error → Type 0} (r : Result A) (f : A → Exec Connection B)
    (conn : Connection)
    → Raises P r
    → ((a : A) (conn' : Connection) → Raises P (f a conn').0)
    → Raises P (continue r f conn).0
unfolding continue
continue-Raises (ok a) f conn h k = k a conn
continue-Raises (err e) f conn h k = Raises-err e (h.at e refl)

pub handshake_outbound-Raises :
    (c : Crypto) (self : Identity) (conn : Connection)
    → Raises IsDialogueFailure (handshake_outbound c self conn).0
unfolding handshake_outbound set_remote continue
handshake_outbound-Raises c self conn =
    continue-Raises (send c self handshake (object end) conn).0 _ _ (send-Raises c self _ _ conn)
      λ _ conn'.
        continue-Raises (recv c self (handshake ∷ []) conn').0 _ _ (recv-Raises c self _ conn')
          λ message conn''. Raises-ok _
