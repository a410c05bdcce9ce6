-- ===== src/Peer/Settings/Lookup.antt =====
-- What a configuration holds under each of its fields.
use agent_torrent.Prelude.{
  String, ◌≡◌, refl, ap, ◌∙◌, Bool, true, false, if◌then◌else◌, Option, none, some, text_eq, eq_iff,
  arith, Bool-cases, inl, inr, Option-cases,
}
use agent_torrent.Py.{Value, Fields, end, field, lookup}
use agent_torrent.Peer.Settings.{
  default_config, set_value, is_given, override, read_values, fill, load_config,
}

-- The last value other than `None` that the overrides give to a key.
unfoldable pub given : String → Fields → Option Value
given k end = none
given k (field j v rest) = elim (given k rest) [
  | some w ↦ some w
  | none ↦ if text_eq j k then (if is_given v then some v else none) else none
]

-- The first of two values that is there.
abbrev pub or_else : Option Value → Option Value → Option Value
or_else (some v) w = some v
or_else none w = w

lookup-set_value :
    (k j : String) (v : Value) (values : Fields)
    → lookup k (set_value j v values) ≡ (if text_eq j k then some v else lookup k values)
unfolding lookup set_value
lookup-set_value k j v end = refl
lookup-set_value k j v (field i u rest) =
    ground (arith, lookup-set_value k j v rest, eq_iff i j, eq_iff j k, eq_iff i k)

lookup-step :
    (k j : String) (v : Value) (values : Fields) (b : Bool)
    → lookup k (if b then set_value j v values else values)
      ≡ (if b then (if text_eq j k then some v else lookup k values) else lookup k values)
lookup-step k j v values true = lookup-set_value k j v values
lookup-step k j v values false = refl

later_wins :
    (later old : Option Value) (v : Value) (b same : Bool)
    → or_else later (if b then (if same then some v else old) else old)
      ≡ or_else
          (elim later [
            | some w ↦ some w
            | none ↦ if same then (if b then some v else none) else none
          ])
          old
later_wins (some w) old v b same = refl
later_wins none old v true true = refl
later_wins none old v true false = refl
later_wins none old v false true = refl
later_wins none old v false false = refl

lookup-override :
    (k : String) (overrides values : Fields)
    → lookup k (override overrides values) ≡ or_else (given k overrides) (lookup k values)
unfolding override given
lookup-override k end values = refl
lookup-override k (field j v rest) values =
    lookup-override k rest (if is_given v then set_value j v values else values)
    ∙ ap (or_else (given k rest)) (lookup-step k j v values (is_given v))
    ∙ later_wins (given k rest) (lookup k values) v (is_given v) (text_eq j k)

-- What a field of that default holds, if it is a field, when this value is given.
abbrev pub for_field : Option Value → Option Value → Option Value
for_field none v = none
for_field (some default) v = or_else v (some default)

for_field-first :
    (k j : String) (default : Value) (rest values : Fields)
    → lookup k (fill rest values) ≡ for_field (lookup k rest) (lookup k values)
    → (if text_eq j k
        then some (elim (lookup j values) [ none ↦ default | some v ↦ v ])
        else lookup k (fill rest values))
      ≡ for_field (if text_eq j k then some default else lookup k rest) (lookup k values)
for_field-first k j default rest values same = elim (Bool-cases (text_eq j k)) [
  | inl e ↦
      rw (e, (eq_iff j k).0 e)
        (elim (Option-cases (lookup k values)) [ inl u ↦ rw u refl | inr (v, u) ↦ rw u refl ])
  | inr ne ↦ rw ne same
]

lookup-fill :
    (k : String) (defaults values : Fields)
    → lookup k (fill defaults values) ≡ for_field (lookup k defaults) (lookup k values)
unfolding lookup fill
lookup-fill k end values = refl
lookup-fill k (field j default rest) values =
    for_field-first k j default rest values (lookup-fill k rest values)

-- Under the name of each of its fields the configuration holds the last value other than `None`
-- that the overrides give to that name, or else what the file holds, or else the default; it holds
-- nothing under any other name.
pub lookup-load_config :
    (k : String) (file : Option Fields) (overrides : Fields)
    → lookup k (load_config file overrides)
      ≡ for_field
          (lookup k default_config)
          (or_else (given k overrides) (lookup k (read_values file)))
unfolding load_config
lookup-load_config k file overrides =
    lookup-fill k default_config (override overrides (read_values file))
    ∙ ap (for_field (lookup k default_config)) (lookup-override k overrides (read_values file))

fill-again :
    (values : Fields)
    → fill default_config (fill default_config values) ≡ fill default_config values
unfolding fill lookup
fill-again values = refl

pub load_config-again :
    (file : Option Fields) (overrides : Fields)
    → load_config (some (load_config file overrides)) end ≡ load_config file overrides
unfolding load_config override read_values
load_config-again file overrides = fill-again (override overrides (read_values file))
