-- ===== src/Identity/Samples.antt =====
-- Test data: a hash and a signature scheme that meet their laws, and two peers.
use Prim.Native.String.{count}
use agent_torrent.Prelude.{String, [], ◌∷◌, ◌≡◌, refl, arith}
use agent_torrent.Identity.Hex.{AllBytes}
use agent_torrent.Identity.{Bytes, Verdict, Crypto, Identity, identity}
use agent_torrent.Identity.Envelope.{CryptoLaws}

abbrev pub toy_hash : Bytes → String
toy_hash [] = "aaaaaaaaaaaaaaaaaaaaaaaaaaaaaaaaaaaaaaaa"
toy_hash _ = "bbbbbbbbbbbbbbbbbbbbbbbbbbbbbbbbbbbbbbbb"

abbrev pub toy_key : Bytes → Bytes
toy_key [] = []
toy_key _ = 1 ∷ []

abbrev pub toy_verdict : Bytes → Verdict
toy_verdict [] = Verdict.bad_length
toy_verdict (b ∷ []) = Verdict.valid
toy_verdict _ = Verdict.invalid

abbrev pub toy_crypto : Crypto
toy_crypto = record {
  sha1_hex = toy_hash;
  public_key = toy_key;
  sign = λ seed message. 2 ∷ [];
  verify = λ pubkey message sig. toy_verdict sig;
  dumps = λ v. [];
}

pub toy_hash-length : (k : Bytes) → count (toy_hash k) ≡ 40
toy_hash-length [] = refl
toy_hash-length (b ∷ k) = refl

pub toy_key-AllBytes : (seed : Bytes) → AllBytes (toy_key seed)
toy_key-AllBytes [] = tt
toy_key-AllBytes (b ∷ seed) = (omega arith, tt)

abbrev pub toy_laws : CryptoLaws toy_crypto
toy_laws = record {
  verify-sign = λ seed message. refl;
  public_key-bytes = toy_key-AllBytes;
  sign-bytes = λ seed message. (omega arith, tt);
  digest_length = toy_hash-length;
}

abbrev pub alice : Identity
alice = identity toy_crypto []

abbrev pub bob : Identity
bob = identity toy_crypto (7 ∷ [])
