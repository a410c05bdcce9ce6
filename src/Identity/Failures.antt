-- ===== src/Identity/Failures.antt =====
-- The exceptions that `open` can raise.
use agent_torrent.Prelude.{if-both, text_eq, Option-cases, ◌≡◌, ◌⊎◌, inl, inr, refl, true, String}
use agent_torrent.Py.Raises.{Raises, Raises-ok, Raises-err, Raises-bind}
use agent_torrent.Py.{
  Value, object, text, Error, Result, ok, err, index, lookup, is_envelope_error, value_error,
  bad_signature, key_error, type_error,
}
use agent_torrent.Identity.Hex.{from_hex}
use agent_torrent.Identity.{
  canonical_json, peer_id_from_pubkey, Crypto, Verdict, Parts, read_parts, bytes_from_hex,
  reraise_malformed, as_malformed, check_parts, check_signature, open_envelope,
}

-- What the `except` of `open` catches.
pub data IsLookupFailure : Error → Type 0 where
  of_key : (k : String) → IsLookupFailure (key_error k)
  of_type : IsLookupFailure type_error
  of_value : IsLookupFailure value_error

index-Raises : (k : String) (v : Value) → Raises IsLookupFailure (index k v)
unfolding index
index-Raises k (object d) = elim (Option-cases (lookup k d)) [
  | inl e ↦ rw (e, index) (Raises-err _ (of_key k))
  | inr (v, e) ↦ rw (e, index) (Raises-ok v)
]
index-Raises k _ = Raises-err _ of_type

bytes_from_hex-Raises : (v : Value) → Raises IsLookupFailure (bytes_from_hex v)
unfolding bytes_from_hex
bytes_from_hex-Raises (text s) = elim (Option-cases (from_hex s)) [
  | inl e ↦ rw (e, bytes_from_hex) (Raises-err _ of_value)
  | inr (b, e) ↦ rw (e, bytes_from_hex) (Raises-ok b)
]
bytes_from_hex-Raises _ = Raises-err _ of_type

read_parts-Raises : (v : Value) → Raises IsLookupFailure (read_parts v)
unfolding read_parts
read_parts-Raises v = Raises-bind (index "payload" v) _ (index-Raises _ v) λ payload.
    Raises-bind (index "pubkey" v) _ (index-Raises _ v) λ key.
      Raises-bind (bytes_from_hex key) _ (bytes_from_hex-Raises key) λ pubkey.
        Raises-bind (index "sig" v) _ (index-Raises _ v) λ sig_value.
          Raises-bind (bytes_from_hex sig_value) _ (bytes_from_hex-Raises sig_value) λ sig.
            Raises-bind (index "sender" payload) _ (index-Raises _ payload) λ sender.
              Raises-bind (index "type" payload) _ (index-Raises _ payload) λ type. Raises-ok _

-- What the callers of `open` catch.
unfoldable pub IsRefusal : Error → Type 0
IsRefusal e = (is_envelope_error e ≡ true) ⊎ (e ≡ value_error)

malformed-IsRefusal : (e : Error) → IsLookupFailure e → IsRefusal (as_malformed e)
unfolding IsRefusal
malformed-IsRefusal _ (of_key k) = inl refl
malformed-IsRefusal _ of_type = inl refl
malformed-IsRefusal _ of_value = inl refl

reraise-Raises :
    {A : Type 0} (r : Result A) → Raises IsLookupFailure r → Raises IsRefusal (reraise_malformed r)
unfolding reraise_malformed
reraise-Raises (ok a) h = Raises-ok a
reraise-Raises (err e) h = Raises-err _ (malformed-IsRefusal e (h.at e refl))

verdicts :
    (verdict : Verdict) (parts : Parts) (s : String)
    → Raises {A = String × Value} IsRefusal (elim verdict [
      | Verdict.valid ↦ ok (s, parts.payload)
      | Verdict.invalid ↦ err bad_signature
      | Verdict.bad_length ↦ err value_error
    ])
unfolding IsRefusal
verdicts Verdict.valid parts s = Raises-ok _
verdicts Verdict.invalid parts s = Raises-err _ (inl refl)
verdicts Verdict.bad_length parts s = Raises-err _ (inr refl)

module _ (c : Crypto) where
  check_signature-Raises :
      (parts : Parts) (s : String) → Raises IsRefusal (check_signature c parts s)
  unfolding check_signature IsRefusal
  check_signature-Raises parts s =
      verdicts (c.verify parts.pubkey (canonical_json c parts.payload) parts.sig) parts s

  check_parts-Raises : (t s : Value) (parts : Parts) → Raises IsRefusal (check_parts c t s parts)
  unfolding check_parts IsRefusal
  check_parts-Raises (text t) (text s) parts =
      if-both (Raises IsRefusal) (text_eq (peer_id_from_pubkey c parts.pubkey) s)
        (check_signature-Raises parts s) (Raises-err _ (inl refl))
  check_parts-Raises _ _ parts = Raises-err _ (inl refl)

  -- Whatever value arrives that `json.dumps` encodes, `open` raises nothing but an `EnvelopeError`
  -- or a `ValueError`.
  pub open_envelope-Raises : (v : Value) → Raises IsRefusal (open_envelope c v)
  unfolding open_envelope
  open_envelope-Raises v =
      Raises-bind (reraise_malformed (read_parts v)) _
        (reraise-Raises (read_parts v) (read_parts-Raises v))
        λ parts. check_parts-Raises parts.msg_type parts.claimed_sender parts
