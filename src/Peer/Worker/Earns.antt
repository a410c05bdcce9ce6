-- ===== src/Peer/Worker/Earns.antt =====
-- When the worker's ledger changes, and by what.
use agent_torrent.Prelude.{
  String, ◌≡◌, ◌⊎◌, inl, inr, refl, ap, ◌∙◌, Bool, true, false, if◌then◌else◌,
}
use agent_torrent.Py.{
  Value, object, Fields, end, is_text_eq, Error, Result, ok, err, index, get, get?,
}
use agent_torrent.Py.Exec.{Exec, ◌>>=◌, continue}
use agent_torrent.Job.Validate.{Job}
use agent_torrent.Ledger.{Ledger, Stamp, credit_for_work}
use agent_torrent.Identity.{Crypto, Identity}
use agent_torrent.Protocol.{Connection, send}
use agent_torrent.Executor.{System, field_text, execute_job}
use agent_torrent.Peer.Delegate.{Session, talk}
use agent_torrent.Peer.Worker.{
  Config, Answer, reject, accept, answer_offer, earn, finish, respond, handle_task_offer,
}
use agent_torrent.Peer.Worker.Answers.{Accepts, id_value, answer_offer_sound}

-- The message offers the job `d`.
abbrev pub Offers : Value → Fields → Type 0
Offers payload d =
    (body : Value) × (get "body" (object end) payload ≡ ok body) × (get? "job" body ≡ ok (object d))

-- From the ledger `l` to `l'`: nothing, or the credit for the job of the message, which has been
-- accepted.
abbrev pub Earned : Config → String → String → Stamp → Value → Ledger → Ledger → Type 0
Earned config own_id requester stamp payload l l' =
    (l' ≡ l)
    ⊎ ((d : Fields) × (j : Job) × Offers payload d
        × Accepts config own_id requester d j
        × (l' ≡ (credit_for_work j.job_id requester stamp l).1))

through :
    {A : Type 0} (P : Result (Unit {0}) × Session → Type 0) (r : Result A)
    (f : A → Exec Session (Unit {0})) (s : Session)
    → ((e : Error) → P (err e, s))
    → ((a : A) → r ≡ ok a → P (f a s))
    → P (continue r f s)
unfolding continue
through P (ok a) f s h k = k a refl
through P (err e) f s h k = h e

module _ (requester : String) (stamp : Stamp) where
  -- The step leaves the ledger alone, or adds the credit for this job.
  abbrev Earns : String → Exec Session (Unit {0}) → Type 0
  Earns job_id f =
      (s : Session)
      → (((f s).1).ledger ≡ s.ledger)
        ⊎ (((f s).1).ledger ≡ (credit_for_work job_id requester stamp s.ledger).1)

  continue-Earns :
      {A : Type 0} (job_id : String) (r : Result A) (f : A → Exec Session (Unit {0}))
      → ((a : A) → Earns job_id (f a))
      → Earns job_id (continue r f)
  unfolding continue
  continue-Earns job_id (ok a) f k s = k a s
  continue-Earns job_id (err e) f k s = inl refl

  talk-Earns :
      {A : Type 0} (job_id : String) (m : Exec Connection A) (f : A → Exec Session (Unit {0}))
      → ((a : A) → Earns job_id (f a))
      → Earns job_id (talk m >>= f)
  unfolding talk
  talk-Earns job_id m f k s = continue-Earns job_id (m s.conn).0 f k _

  if-Earns :
      (job_id : String) (b : Bool) (f g : Exec Session (Unit {0}))
      → Earns job_id f
      → Earns job_id g
      → Earns job_id (if b then f else g)
  if-Earns job_id true f g hf hg = hf
  if-Earns job_id false f g hf hg = hg

  module _ (c : Crypto) (self : Identity) (sys : System) (config : Config) where
    finish-Earns :
        (job : Fields) (result : Value)
        → Earns (field_text "job_id" job) (finish c self sys config stamp requester job result)
    unfolding finish earn
    finish-Earns job result =
        continue-Earns _ (index "status" result) _
          λ status. if-Earns _ (is_text_eq "ok" status) _ _ (λ s. inr refl) (λ s. inl refl)

    respond_reject :
        (body : Value) (s : Session)
        → ((respond c self sys config stamp requester (reject body) s).1).ledger ≡ s.ledger
    unfolding respond talk
    respond_reject body s = refl

    respond-Earns :
        (job : Fields)
        → Earns (field_text "job_id" job) (respond c self sys config stamp requester (accept job))
    unfolding respond
    respond-Earns job = talk-Earns _ (send c self _ _) _ λ _.
        continue-Earns _
          (execute_job sys config.harnesses config.force_simulate config.env_passthrough job) _
          λ result. talk-Earns _ (send c self _ _) _ λ _. finish-Earns job result

    respond_answer :
        (payload : Value) (s : Session) (a : Result Answer)
        → ((d : Fields)
            → a ≡ ok (accept d)
            → Offers payload d × (j : Job) × Accepts config self.peer_id requester d j)
        → Earned config self.peer_id requester stamp payload s.ledger
            ((continue a (respond c self sys config stamp requester) s).1).ledger
    unfolding continue
    respond_answer payload s (err e) k = inl refl
    respond_answer payload s (ok (reject body)) k = inl (respond_reject body s)
    respond_answer payload s (ok (accept d)) k =
        let (offers, j, accepts) = k d refl in
        elim (respond-Earns d s) [
          | inl e ↦ inl e
          | inr e ↦ inr (
            d,
            j,
            offers,
            accepts,
            e
                ∙ ap (λ i. (credit_for_work i requester stamp s.ledger).1)
                    (id_value d j accepts.valid),
          )
        ]

    -- However the connection and the harness behave, `_handle_task_offer` leaves the ledger as it
    -- is or does to it just what `credit_for_work` does for the offered job and its requester; in
    -- the second case the message offers a dictionary that describes a valid job, the requester is
    -- another peer, the worker accepts tasks, and the job's runtime is within the worker's limit.
    pub handle_task_offer-Earned :
        (payload : Value) (s : Session)
        → Earned config self.peer_id requester stamp payload s.ledger
            ((handle_task_offer c self sys config stamp requester payload s).1).ledger
    unfolding handle_task_offer
    handle_task_offer-Earned payload s =
        let P = λ (o : Result (Unit {0}) × Session).
          Earned config self.peer_id requester stamp payload s.ledger (o.1).ledger in
        through P (get "body" (object end) payload) _ s (λ e. inl refl)
          λ body is_body.
            through P (get? "job" body) _ s (λ e. inl refl)
              λ job is_job.
                respond_answer payload s (answer_offer config self.peer_id requester job) λ d h.
                  let sound = answer_offer_sound config self.peer_id requester job d h in
                  ((body, is_body, is_job ∙ ap ok sound.0), sound.1, sound.2)
