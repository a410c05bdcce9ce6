-- ===== src/Py/Errors.antt =====
-- The exceptions of the program, one constructor for each `raise` (with the values that its text
-- shows), and those of Python that the code can meet. A function that may raise returns a `Result`.
use agent_torrent.Prelude.{String, ◌≡◌, refl, ap, ◌⊎◌, inl, inr, Bool, true, false, List}
use agent_torrent.Py.Values.{Value}

pub data Error : Type 0 where
  -- Python's own
  attribute_error type_error value_error assertion_error recursion_error overflow_error : Error
  key_error os_error : String → Error
  -- `JobError`, `ManifestError` and `LedgerError`, by their texts
  job_error manifest_error ledger_error : String → Error
  -- `EnvelopeError`
  malformed_envelope : Error → Error
  bad_type_or_sender sender_mismatch bad_signature : Error
  -- `ProtocolError`; a text is that of the system's own error
  send_failed connection_error : String → Error
  cannot_connect : String → Value → String → Error
  timed_out closed_by_remote sender_changed : Error
  unverifiable : Error → Error
  unexpected_type : List String → Value → Error
  wrong_peer : String → Value → String → String → Error
  wrong_job : Error

pub data Result {ℓ} (A : Type ℓ) : Type ℓ where
  ok : A → Result A
  err : Error → Result A

-- `except EnvelopeError`
abbrev pub is_envelope_error : Error → Bool
is_envelope_error (malformed_envelope e) = true
is_envelope_error bad_type_or_sender = true
is_envelope_error sender_mismatch = true
is_envelope_error bad_signature = true
is_envelope_error _ = false

-- `except ProtocolError`
abbrev pub is_protocol_error : Error → Bool
is_protocol_error (send_failed s) = true
is_protocol_error (connection_error s) = true
is_protocol_error (cannot_connect host port s) = true
is_protocol_error timed_out = true
is_protocol_error closed_by_remote = true
is_protocol_error sender_changed = true
is_protocol_error (unverifiable e) = true
is_protocol_error (unexpected_type l got) = true
is_protocol_error (wrong_peer host port s expected) = true
is_protocol_error wrong_job = true
is_protocol_error _ = false

-- An exception of Python itself, which no `except` of the program names.
abbrev pub is_python_error : Error → Bool
is_python_error attribute_error = true
is_python_error type_error = true
is_python_error recursion_error = true
is_python_error overflow_error = true
is_python_error (key_error k) = true
is_python_error _ = false

-- A block goes on with the value of its first step, or stops at its exception.
module _ {ℓ κ} {X : Type ℓ} {Y : Type κ} where
  infixl 5 ◌>>=◌ ◌>>◌
  abbrev pub ◌>>=◌ : Result X → (X → Result Y) → Result Y
  ◌>>=◌ (err stopped) next = err stopped
  ◌>>=◌ (ok value) next = next value

  abbrev pub ◌>>◌ : Result X → Result Y → Result Y
  first >> second = first >>= λ ignored. second

-- A block that has returned: what its first step returned, and that the rest returned.
pub >>=-eq-ok {ℓ κ} :
    {X : Type ℓ} {Y : Type κ} (first : Result X) (next : X → Result Y) {y : Y}
    → (first >>= next) ≡ ok y
    → (x : X) × (first ≡ ok x) × (next x ≡ ok y)
>>=-eq-ok (err stopped) next returned = cc
>>=-eq-ok (ok value) next returned = (value, refl, returned)

pub Result-cases {ℓ} :
    {A : Type ℓ} (r : Result A) → ((a : A) × (r ≡ ok a)) ⊎ ((e : Error) × (r ≡ err e))
Result-cases (ok a) = inl (a, refl)
Result-cases (err e) = inr (e, refl)

pub ok-injective {ℓ} : {A : Type ℓ} {a b : A} → ok a ≡ ok b → a ≡ b
ok-injective {a = a} h = ap (λ r. elim r [ ok x ↦ x | err e ↦ a ]) h

pub err-injective {ℓ} : {A : Type ℓ} {d e : Error} → ◌≡◌ {A = Result A} (err d) (err e) → d ≡ e
err-injective {d = d} h = ap (λ r. elim r [ ok x ↦ d | err e ↦ e ]) h
