-- ===== src/Identity/Envelope.antt =====
-- What `open` accepts, and that it accepts what `seal` makes.
use Prim.Native.String.{count}
use agent_torrent.Prelude.{
  ℕ, String, ◌≡◌, ◌≢◌, ◌↔◌, refl, ap, sym, ◌∙◌, arith, some, eq_iff, eq_refl,
}
use agent_torrent.Py.{Value, text, Result, ok, err, index, >>=-eq-ok, lookup, ok-injective}
use agent_torrent.Identity.Hex.{hex, from_hex, from_hex-hex, AllBytes}
use agent_torrent.Identity.{
  Bytes, Verdict, Crypto, canonical_json, peer_id_from_pubkey, identity, payload_of, seal, Parts,
  read_parts, bytes_from_hex, reraise_malformed, check_parts, check_signature, open_envelope,
}

module _ (c : Crypto) where
  -- The envelope `v` carries the payload `p`, signed by the key whose hash is the payload's sender.
  pub record Authentic (v : Value) (sender : String) (p : Value) : Type 0 where
    pub key_text : String
    pub sig_text : String
    pub pubkey : Bytes
    pub sig : Bytes
    pub msg_type : String
    pub has_payload : index "payload" v ≡ ok p
    pub has_key : index "pubkey" v ≡ ok (text key_text)
    pub has_sig : index "sig" v ≡ ok (text sig_text)
    pub key_bytes : from_hex key_text ≡ some pubkey
    pub sig_bytes : from_hex sig_text ≡ some sig
    pub has_sender : index "sender" p ≡ ok (text sender)
    pub has_type : index "type" p ≡ ok (text msg_type)
    pub hashed : c.sha1_hex pubkey ≡ sender
    pub signed : c.verify pubkey (c.dumps p) sig ≡ Verdict.valid

-- Documented behaviour of the libraries: a signature verifies under the key that made it, keys and
-- signatures are bytes, and a SHA-1 hex digest has forty characters.
pub record CryptoLaws (c : Crypto) : Type 0 where
  pub verify-sign :
      (seed message : Bytes)
      → c.verify (c.public_key seed) message (c.sign seed message) ≡ Verdict.valid
  pub public_key-bytes : (seed : Bytes) → AllBytes (c.public_key seed)
  pub sign-bytes : (seed message : Bytes) → AllBytes (c.sign seed message)
  pub digest_length : (pubkey : Bytes) → count (c.sha1_hex pubkey) ≡ 40

reraise-eq-ok : {A : Type 0} (r : Result A) {a : A} → reraise_malformed r ≡ ok a → r ≡ ok a
unfolding reraise_malformed
reraise-eq-ok (ok a) h = h
reraise-eq-ok (err e) h = cc

bytes_from_hex-eq-ok :
    (v : Value) {b : Bytes}
    → bytes_from_hex v ≡ ok b
    → (s : String) × (v ≡ text s) × (from_hex s ≡ some b)
unfolding bytes_from_hex
bytes_from_hex-eq-ok (text s) h = (s, refl, ground arith)
bytes_from_hex-eq-ok _ h = cc

bytes_from_hex-found :
    (s : String) {b : Bytes} → from_hex s ≡ some b → bytes_from_hex (text s) ≡ ok b
unfolding bytes_from_hex
bytes_from_hex-found s e = rw (e, bytes_from_hex)

module _ (c : Crypto) where
  check_signature-eq-ok :
      (parts : Parts) (sender s : String) (p : Value)
      → check_signature c parts sender ≡ ok (s, p)
      → (s ≡ sender)
        × (p ≡ parts.payload)
        × (c.verify parts.pubkey (c.dumps parts.payload) parts.sig ≡ Verdict.valid)
  unfolding check_signature canonical_json
  check_signature-eq-ok parts sender s p h = ground arith

  check_parts-eq-ok :
      (t claimed : Value) (parts : Parts) (s : String) (p : Value)
      → check_parts c t claimed parts ≡ ok (s, p)
      → (m : String) × (t ≡ text m)
        × (claimed ≡ text s)
        × (c.sha1_hex parts.pubkey ≡ s)
        × (p ≡ parts.payload)
        × (c.verify parts.pubkey (c.dumps parts.payload) parts.sig ≡ Verdict.valid)
  unfolding check_parts peer_id_from_pubkey
  check_parts-eq-ok (text m) (text sender) parts s p h =
      let e = (eq_iff (c.sha1_hex parts.pubkey) sender).0 in
      (
        m,
        refl,
        ground (arith, e, check_signature-eq-ok parts sender s p),
        ground (arith, e, check_signature-eq-ok parts sender s p),
        ground (arith, e, check_signature-eq-ok parts sender s p),
        ground (arith, e, check_signature-eq-ok parts sender s p),
      )
  check_parts-eq-ok _ _ parts s p h = cc

  read_parts-eq-ok :
      (v : Value) (parts : Parts)
      → read_parts v ≡ ok parts
      → (index "payload" v ≡ ok parts.payload)
        × ((s : String) × (index "pubkey" v ≡ ok (text s)) × (from_hex s ≡ some parts.pubkey))
        × ((s : String) × (index "sig" v ≡ ok (text s)) × (from_hex s ≡ some parts.sig))
        × (index "sender" parts.payload ≡ ok parts.claimed_sender)
        × (index "type" parts.payload ≡ ok parts.msg_type)
  unfolding read_parts
  read_parts-eq-ok v parts h =
      let payload = >>=-eq-ok (index "payload" v) _ h in
      let key = >>=-eq-ok (index "pubkey" v) _ payload.2 in
      let pubkey = >>=-eq-ok (bytes_from_hex key.0) _ key.2 in
      let sig_value = >>=-eq-ok (index "sig" v) _ pubkey.2 in
      let sig = >>=-eq-ok (bytes_from_hex sig_value.0) _ sig_value.2 in
      let sender = >>=-eq-ok (index "sender" payload.0) _ sig.2 in
      let type = >>=-eq-ok (index "type" payload.0) _ sender.2 in
      let same = ok-injective type.2 in
      let k = bytes_from_hex-eq-ok key.0 pubkey.1 in
      let s = bytes_from_hex-eq-ok sig_value.0 sig.1 in
      let p = ap (λ (r : Parts). r.payload) same in
      (
        payload.1 ∙ ap ok p,
        (k.0, key.1 ∙ ap ok k.1, k.2 ∙ ap some (ap (λ (r : Parts). r.pubkey) same)),
        (s.0, sig_value.1 ∙ ap ok s.1, s.2 ∙ ap some (ap (λ (r : Parts). r.sig) same)),
        ap (index "sender") (sym p) ∙ sender.1 ∙ ap ok (ap (λ (r : Parts). r.claimed_sender) same),
        ap (index "type") (sym p) ∙ type.1 ∙ ap ok (ap (λ (r : Parts). r.msg_type) same),
      )

  open_sound :
      (v : Value) (sender : String) (p : Value)
      → open_envelope c v ≡ ok (sender, p)
      → Authentic c v sender p
  unfolding open_envelope
  open_sound v sender p h =
      let parts = >>=-eq-ok (reraise_malformed (read_parts v)) _ h in
      let read = read_parts-eq-ok v parts.0 (reraise-eq-ok (read_parts v) parts.1) in
      let checked = check_parts-eq-ok _ _ parts.0 sender p parts.2 in
      record {
        key_text = read.1.0;
        sig_text = read.2.0;
        pubkey = (parts.0).pubkey;
        sig = (parts.0).sig;
        msg_type = checked.0;
        has_payload = read.0 ∙ ap ok (sym checked.4);
        has_key = read.1.1;
        has_sig = read.2.1;
        key_bytes = read.1.2;
        sig_bytes = read.2.2;
        has_sender = ap (index "sender") checked.4 ∙ read.3 ∙ ap ok checked.2;
        has_type = ap (index "type") checked.4 ∙ read.4 ∙ ap ok checked.1;
        hashed = checked.3;
        signed =
            ap (λ q. c.verify (parts.0).pubkey (c.dumps q) (parts.0).sig) checked.4 ∙ checked.5;
      }

  open_complete :
      (v : Value) (sender : String) (p : Value)
      → Authentic c v sender p
      → open_envelope c v ≡ ok (sender, p)
  unfolding open_envelope read_parts reraise_malformed check_parts check_signature canonical_json
      peer_id_from_pubkey
  open_complete v sender p a =
      rw
        (
          a.has_payload,
          a.has_key,
          bytes_from_hex-found _ a.key_bytes,
          a.has_sig,
          bytes_from_hex-found _ a.sig_bytes,
          a.has_sender,
          a.has_type,
          a.hashed,
          eq_refl sender,
          a.signed,
          check_signature,
        )
        refl

  -- An envelope is opened, to a sender and a payload, exactly when it is authentic: it carries that
  -- payload, a key and a signature in hex, the payload's sender is the hash of that key and its
  -- type is a text, and the signature over the whole payload verifies under that key.
  pub open_envelope_iff :
      (v : Value) (sender : String) (p : Value)
      → (open_envelope c v ≡ ok (sender, p)) ↔ Authentic c v sender p
  open_envelope_iff v sender p = (open_sound v sender p, open_complete v sender p)

module _ (c : Crypto) (laws : CryptoLaws c) where
  -- If the hash and the signatures meet their laws, `open` accepts the envelope that `seal` makes
  -- of any type, time and body, and returns the sealing peer's id and the payload that was sealed.
  pub open_envelope-seal :
      (seed : Bytes) (ts : ℕ) (msg_type : String) (body : Value)
      → let self = identity c seed in
        open_envelope c (seal c self ts msg_type body)
        ≡ ok (self.peer_id, payload_of c self ts msg_type body)
  unfolding seal payload_of identity canonical_json index lookup peer_id_from_pubkey
  open_envelope-seal seed ts msg_type body = (open_envelope_iff c _ _ _).1 (record {
    key_text = hex (c.public_key seed);
    sig_text = _;
    pubkey = c.public_key seed;
    sig = _;
    msg_type = msg_type;
    has_payload = refl;
    has_key = refl;
    has_sig = refl;
    key_bytes = from_hex-hex _ (laws.public_key-bytes seed);
    sig_bytes = from_hex-hex _ (laws.sign-bytes seed _);
    has_sender = refl;
    has_type = refl;
    hashed = refl;
    signed = laws.verify-sign seed _;
  })

  -- If the hash and the signatures meet their laws and an envelope opens, its sender is not the
  -- name of one of the ledger's accounts `self`, `escrow` and `genesis`.
  pub sender_not_reserved :
      (v : Value) (sender : String) (p : Value)
      → open_envelope c v ≡ ok (sender, p)
      → (sender ≢ "self") × (sender ≢ "escrow") × (sender ≢ "genesis")
  sender_not_reserved v sender p h =
      let a = (open_envelope_iff c v sender p).0 h in
      let n = ap count (sym a.hashed) ∙ laws.digest_length a.pubkey in
      (
        (λ e. omega (arith, sym n ∙ ap count e)),
        (λ e. omega (arith, sym n ∙ ap count e)),
        (λ e. omega (arith, sym n ∙ ap count e)),
      )
