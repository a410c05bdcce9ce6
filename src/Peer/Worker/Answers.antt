-- ===== src/Peer/Worker/Answers.antt =====
-- What the worker's checks establish of a job that they accept.
use mathlib.Core.Path.{subst}
use agent_torrent.Prelude.{
  ℕ, String, ◌≡◌, refl, sym, ap, ◌∙◌, Bool, true, false, if◌then◌else◌, text_eq, arith, pos, ◌≤◌,
}
use agent_torrent.Py.{
  Value, object, int, Fields, end, lookup_or_null, Result, ok, err, job_error, ok-injective,
}
use agent_torrent.Job.{validate_job}
use agent_torrent.Job.Validate.{Job, Describes, validate_job_sound}
use agent_torrent.Executor.{field_text, shown}
use agent_torrent.Peer.Worker.{
  Config, Answer, reject, accept, exceeds, answer_valid, answer_job, answer_offer,
}

-- What holds of a job that is accepted.
pub record Accepts (config : Config) (own_id requester : String) (d : Fields) (j : Job)
    : Type 0 where
  pub other : text_eq requester own_id ≡ false
  pub valid : Describes d j
  pub willing : config.accepts_tasks ≡ true
  pub in_time : j.max_runtime_seconds ≤ config.max_runtime_seconds

answer_valid_sound :
    (config : Config) (job d : Fields)
    → answer_valid config job ≡ accept d
    → (d ≡ job)
      × (config.accepts_tasks ≡ true)
      × (exceeds (lookup_or_null "max_runtime_seconds" job) config.max_runtime_seconds ≡ false)
unfolding answer_valid
answer_valid_sound config job d h = (ground arith, ground arith, ground arith)

accepted : (a : Answer) (d : Fields) → ◌≡◌ {A = Result Answer} (ok a) (ok (accept d)) → a ≡ accept d
accepted a d h = ok-injective h

-- A guard that refuses has let the offer through.
passed_unless :
    (b : Bool) (body : Value) (r : Result Answer) (d : Fields)
    → (if b then ok (reject body) else r) ≡ ok (accept d)
    → (b ≡ false) × (r ≡ ok (accept d))
passed_unless true body r d h = absurd (cc)
passed_unless false body r d h = (refl, h)

answer_job_sound :
    (config : Config) (v : Value) (r : Result Value) (d : Fields)
    → answer_job config v r ≡ ok (accept d)
    → (v ≡ object d)
      × ((w : Value) × (r ≡ ok w))
      × (config.accepts_tasks ≡ true)
      × (exceeds (lookup_or_null "max_runtime_seconds" d) config.max_runtime_seconds ≡ false)
unfolding answer_job
answer_job_sound config (object job) (ok w) d h =
    let sound = answer_valid_sound config job d (accepted (answer_valid config job) d h) in
    (
      ap object (sym sound.0),
      (w, refl),
      sound.1,
      ap (λ x. exceeds (lookup_or_null "max_runtime_seconds" x) config.max_runtime_seconds) sound.0
          ∙ sound.2,
    )
answer_job_sound config (object job) (err (job_error e)) d h = absurd (cc)
answer_job_sound config (object job) (err _) d h = absurd (cc)
answer_job_sound config _ (ok w) d h = absurd (cc)
answer_job_sound config _ (err (job_error e)) d h = absurd (cc)
answer_job_sound config _ (err _) d h = absurd (cc)

abbrev fields_of : Value → Fields
fields_of (object d) = d
fields_of _ = end

runtime_value :
    (d : Fields) (j : Job)
    → Describes d j
    → lookup_or_null "max_runtime_seconds" d ≡ int (pos j.max_runtime_seconds)
unfolding lookup_or_null
runtime_value d j h = rw (h.at_max_runtime_seconds, lookup_or_null) refl

pub id_value : (d : Fields) (j : Job) → Describes d j → field_text "job_id" d ≡ j.job_id
unfolding field_text shown lookup_or_null
id_value d j h = rw (h.at_job_id, lookup_or_null) refl

within : (n limit : ℕ) → exceeds (int (pos n)) limit ≡ false → n ≤ limit
unfolding exceeds
within n limit h = ground arith

pub answer_offer_sound :
    (config : Config) (own_id requester : String) (v : Value) (d : Fields)
    → answer_offer config own_id requester v ≡ ok (accept d)
    → (v ≡ object d) × (j : Job) × Accepts config own_id requester d j
unfolding answer_offer
answer_offer_sound config own_id requester v d h =
    let guard =
      passed_unless (text_eq requester own_id) _ (answer_job config v (validate_job v)) d h in
    let sound = answer_job_sound config v (validate_job v) d guard.1 in
    let (same, (x, is_x, j, describes)) =
      validate_job_sound (object d) (sound.1.0) (ap validate_job (sym sound.0) ∙ sound.1.1) in
    let valid = subst (λ y. Describes y j) (sym (ap fields_of is_x)) describes in
    (
      sound.0,
      j,
      record {
        other = guard.0;
        valid = valid;
        willing = sound.2;
        in_time = within j.max_runtime_seconds config.max_runtime_seconds (
            ap (λ w. exceeds w config.max_runtime_seconds) (sym (runtime_value d j valid))
            ∙ sound.3);
      },
    )
