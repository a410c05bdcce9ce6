-- ===== src/Identity.antt =====
-- agenttorrent/identity.py: peer ids and signed envelopes. The hash, the signatures and the bytes
-- of `json.dumps` are not the program's: they are the parameter `Crypto`. Bytes are numbers.
pub mod Hex
pub mod Envelope
pub mod Failures
pub mod KeyFile
pub mod Samples
mod Tests
use agent_torrent.Prelude.{
  ℕ, String, Bool, true, false, List, [], ◌∷◌, if◌then◌else◌, Option, none, some, ℤ, pos, text_eq,
  take_text,
}
use agent_torrent.Py.{
  Value, object, text, int, float, Fields, field, end, Error, Result, ok, err, index, type_error,
  value_error, key_error, malformed_envelope, bad_type_or_sender, sender_mismatch, bad_signature,
  is_text, ◌>>=◌, ◌>>◌,
}
use agent_torrent.Identity.Hex.{hex, from_hex}

abbrev pub Bytes : Type 0
Bytes = List ℕ

-- What `VerifyKey(pubkey).verify(message, sig)` does: it returns, it raises `BadSignatureError`, or
-- it raises a `ValueError`, for a key or a signature of the wrong length.
pub data Verdict : Type 0 where
  valid invalid bad_length : Verdict

pub record Crypto : Type 0 where
  -- `hashlib.sha1(pubkey).hexdigest()`
  pub sha1_hex : Bytes → String
  -- `SigningKey(seed).verify_key` and `SigningKey(seed).sign(message).signature`
  pub public_key : Bytes → Bytes
  pub sign : Bytes → Bytes → Bytes
  -- `VerifyKey(pubkey).verify(message, sig)`
  pub verify : Bytes → Bytes → Bytes → Verdict
  -- `json.dumps(payload, sort_keys=True, separators=(",", ":")).encode()`, of a payload that it encodes;
  -- a line or a datagram that is nested too deep for it is a case of its own where it is read
  pub dumps : Value → Bytes

module _ (c : Crypto) where
  unfoldable pub canonical_json : Value → Bytes
  canonical_json payload = c.dumps payload

  unfoldable pub peer_id_from_pubkey : Bytes → String
  peer_id_from_pubkey pubkey = c.sha1_hex pubkey

-- The key pair; the public key and the id are computed from it once.
pub record Identity : Type 0 where
  pub signing_key : Bytes
  pub pubkey : Bytes
  pub peer_id : String

-- `except (KeyError, TypeError, ValueError)`
abbrev pub as_malformed : Error → Error
as_malformed (key_error k) = malformed_envelope (key_error k)
as_malformed type_error = malformed_envelope type_error
as_malformed value_error = malformed_envelope value_error
as_malformed e = e

unfoldable pub reraise_malformed {ℓ} : {A : Type ℓ} → Result A → Result A
reraise_malformed (ok a) = ok a
reraise_malformed (err e) = err (as_malformed e)

-- `bytes.fromhex(v)`
unfoldable pub bytes_from_hex : Value → Result Bytes
bytes_from_hex (text s) = elim (from_hex s) [ none ↦ err value_error | some bytes ↦ ok bytes ]
bytes_from_hex _ = err type_error

-- The fields that `open` reads before it checks anything.
pub record Parts : Type 0 where
  pub payload : Value
  pub pubkey : Bytes
  pub sig : Bytes
  pub claimed_sender : Value
  pub msg_type : Value

unfoldable pub read_parts : Value → Result Parts
read_parts envelope = do
  payload ← index "payload" envelope
  key_hex ← index "pubkey" envelope
  pubkey ← bytes_from_hex key_hex
  sig_hex ← index "sig" envelope
  sig ← bytes_from_hex sig_hex
  claimed_sender ← index "sender" payload
  msg_type ← index "type" payload
  ok (record {
    payload = payload;
    pubkey = pubkey;
    sig = sig;
    claimed_sender = claimed_sender;
    msg_type = msg_type;
  })

module _ (c : Crypto) where
  -- `Identity.__init__`
  unfoldable pub identity : Bytes → Identity
  unfolding peer_id_from_pubkey
  identity signing_key = record {
    signing_key = signing_key;
    pubkey = c.public_key signing_key;
    peer_id = peer_id_from_pubkey c (c.public_key signing_key);
  }

  -- `ts` is what `time.time()` returns.
  unfoldable pub payload_of : Identity → ℕ → String → Value → Value
  payload_of self ts msg_type body = object (
      field "type" (text msg_type)
        (field "sender" (text self.peer_id) (field "ts" (float ts) (field "body" body end))))

  unfoldable pub seal : Identity → ℕ → String → Value → Value
  unfolding payload_of canonical_json
  seal self ts msg_type body =
      let payload = payload_of self ts msg_type body in
      object (
        field "v" (int (pos 1)) (
          field "payload" payload (
            field "pubkey" (text (hex self.pubkey))
              (field "sig" (text (hex (c.sign self.signing_key (canonical_json c payload)))) end))))

  -- The signature check, on the sender that the hash has confirmed.
  unfoldable pub check_signature : Parts → String → Result (String × Value)
  unfolding canonical_json
  check_signature parts sender =
      elim (c.verify parts.pubkey (canonical_json c parts.payload) parts.sig) [
        | Verdict.valid ↦ ok (sender, parts.payload)
        | Verdict.invalid ↦ err bad_signature
        | Verdict.bad_length ↦ err value_error
      ]

  -- The checks of `open`, on the type, the claimed sender and the parts that it has read.
  unfoldable pub check_parts : Value → Value → Parts → Result (String × Value)
  unfolding check_signature peer_id_from_pubkey
  check_parts (text msg_type) (text sender) parts =
      if text_eq (peer_id_from_pubkey c parts.pubkey) sender
      then check_signature parts sender
      else err sender_mismatch
  check_parts _ _ parts = err bad_type_or_sender

  unfoldable pub open_envelope : Value → Result (String × Value)
  open_envelope envelope = do
    parts ← reraise_malformed (read_parts envelope)
    check_parts parts.msg_type parts.claimed_sender parts
