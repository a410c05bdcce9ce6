-- ===== src/Peer/Settings/Typed.antt =====
-- The types of a configuration's fields, as `PeerConfig` of agenttorrent/peer.py annotates them.
use mathlib.Core.Path.{subst}
use mathlib.Core.Option.{some-injective}
use agent_torrent.Prelude.{
  String, ◌≡◌, refl, Bool, true, false, not, ◌||◌, if◌then◌else◌, Option, some, text_eq, eq_iff,
  Bool-cases, inl, inr, arith, Option-cases,
}
use agent_torrent.Py.{
  Value, int, float, Fields, end, field, lookup, is_boolean, is_int, is_text_list,
}
use agent_torrent.Peer.Settings.{
  default_config, set_value, is_given, override, read_values, fill, load_config,
}

abbrev pub is_number : Value → Bool
is_number (int n) = true
is_number (float t) = true
is_number _ = false

-- Whether the value is of the field's annotated type; a name that is no field has none.
unfoldable pub has_type : String → Value → Bool
has_type k v =
    if text_eq k "tcp_port" || (text_eq k "discovery_port" || text_eq k "max_runtime_seconds")
    then is_int v
    else (if text_eq k "accepts_tasks" || text_eq k "force_simulate"
        then is_boolean v
        else (if text_eq k "simulate_delay"
            then is_number v
            else (if text_eq k "bootstrap_peers" || text_eq k "env_passthrough"
                then is_text_list v
                else true)))

-- Every field of the dictionary has its type.
abbrev pub AllTyped : Fields → Type 0
AllTyped end = Unit {0}
AllTyped (field k v rest) = (has_type k v ≡ true) × AllTyped rest

-- Every value of the dictionary is `None` or has its field's type.
abbrev pub AllSuit : Fields → Type 0
AllSuit end = Unit {0}
AllSuit (field k v rest) = ((not (is_given v) || has_type k v) ≡ true) × AllSuit rest

set_value-AllTyped :
    (k : String) (v : Value) (values : Fields)
    → has_type k v ≡ true
    → AllTyped values
    → AllTyped (set_value k v values)
unfolding set_value
set_value-AllTyped k v end h typed = (h, tt)
set_value-AllTyped k v (field j u rest) h (t, typed) = elim (Bool-cases (text_eq j k)) [
  | inl same ↦ rw same (rw ((eq_iff j k).0 same) h, typed)
  | inr other ↦ rw other (t, set_value-AllTyped k v rest h typed)
]

given_suits :
    (k : String) (v : Value)
    → (not (is_given v) || has_type k v) ≡ true
    → is_given v ≡ true
    → has_type k v ≡ true
given_suits k v h g = ground arith

override-AllTyped :
    (overrides values : Fields)
    → AllSuit overrides
    → AllTyped values
    → AllTyped (override overrides values)
unfolding override
override-AllTyped end values suits typed = typed
override-AllTyped (field k v rest) values (s, suits) typed =
    override-AllTyped rest (if is_given v then set_value k v values else values) suits
      (elim (Bool-cases (is_given v)) [
        | inl g ↦ rw g (set_value-AllTyped k v values (given_suits k v s g) typed)
        | inr n ↦ rw n typed
      ])

first_found :
    (k j : String) (u v : Value) (later : Option Value) (b : Bool)
    → text_eq j k ≡ b
    → has_type j u ≡ true
    → (later ≡ some v → has_type k v ≡ true)
    → (if b then some u else later) ≡ some v
    → has_type k v ≡ true
first_found k j u v later true same t h e =
    subst (λ i. has_type i v ≡ true) ((eq_iff j k).0 same)
      (subst (λ w. has_type j w ≡ true) (some-injective u v e) t)
first_found k j u v later false other t h e = h e

lookup-AllTyped :
    (k : String) (values : Fields) (v : Value)
    → AllTyped values
    → lookup k values ≡ some v
    → has_type k v ≡ true
unfolding lookup
lookup-AllTyped k end v typed e = absurd (cc)
lookup-AllTyped k (field j u rest) v (t, typed) e =
    first_found k j u v (lookup k rest) (text_eq j k) refl t (lookup-AllTyped k rest v typed) e

fill-AllTyped :
    (defaults values : Fields)
    → AllTyped defaults
    → AllTyped values
    → AllTyped (fill defaults values)
unfolding fill
fill-AllTyped end values d typed = tt
fill-AllTyped (field k default rest) values (d, ds) typed = (
  elim (Option-cases (lookup k values)) [
    | inl e ↦ rw e d
    | inr (v, e) ↦ rw e (lookup-AllTyped k values v typed e)
  ],
  fill-AllTyped rest values ds typed,
)

default_config-AllTyped : AllTyped default_config
unfolding has_type
default_config-AllTyped = (refl, (refl, (refl, (refl, (refl, (refl, (refl, (refl, tt))))))))

pub load_config-AllTyped :
    (file : Option Fields) (overrides : Fields)
    → AllTyped (read_values file)
    → AllSuit overrides
    → AllTyped (load_config file overrides)
unfolding load_config
load_config-AllTyped file overrides typed suits =
    fill-AllTyped default_config (override overrides (read_values file)) default_config-AllTyped
      (override-AllTyped overrides (read_values file) suits typed)
