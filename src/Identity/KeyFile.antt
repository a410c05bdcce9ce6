-- ===== src/Identity/KeyFile.antt =====
-- `Identity.load_or_create`: the key file of a data directory. `is_seed` says of which bytes the
-- library makes a signing key; of any others it raises a `ValueError`.
use agent_torrent.Prelude.{◌≡◌, refl, Bool, true, List, [], ◌∷◌, if◌then◌else◌, Option, none, some}
use agent_torrent.Py.{Result, ok, err, value_error}
use agent_torrent.Identity.{Bytes, Crypto, Identity, identity}

module _ (c : Crypto) (is_seed : Bytes → Bool) where
  -- `SigningKey(…)`, then the constructor.
  unfoldable pub from_seed : Bytes → Result Identity
  from_seed seed = if is_seed seed then ok (identity c seed) else err value_error

  -- `generated` are the bytes of the key that `SigningKey.generate()` returns, if it is called. The key
  -- file comes back beside the identity.
  unfoldable pub load_or_create : Bytes → Option Bytes → Result Identity × Option Bytes
  unfolding from_seed
  load_or_create generated (some seed) = (from_seed seed, some seed)
  load_or_create generated none = (ok (identity c generated), some generated)

  -- The key file after a row of starts.
  abbrev pub after_starts : List Bytes → Option Bytes → Option Bytes
  after_starts [] file = file
  after_starts (generated ∷ later) file = after_starts later (load_or_create generated file).1

  after_starts-some :
      (starts : List Bytes) (seed : Bytes) → after_starts starts (some seed) ≡ some seed
  unfolding load_or_create
  after_starts-some [] seed = refl
  after_starts-some (generated ∷ starts) seed = after_starts-some starts seed

  -- If the first start of a data directory makes a key that the library takes, then every later
  -- start, after any others, returns the identity of the first and leaves the key file as it is.
  pub load_or_create-again :
      (first : Bytes) (starts : List Bytes) (last : Bytes)
      → is_seed first ≡ true
      → (load_or_create last (after_starts starts (load_or_create first none).1))
        ≡ ((load_or_create first none).0, some first)
  unfolding load_or_create from_seed
  load_or_create-again first starts last seeded = rw (after_starts-some starts first, seeded) refl
