-- ===== src/Peer/Settings.antt =====
-- `PeerConfig.load`: the configuration from the file of the data directory, what the command line
-- overrides, and the defaults. A configuration is the dictionary of its fields.
pub mod Lookup
pub mod Typed
mod Tests
use agent_torrent.Prelude.{
  String, Bool, true, false, if◌then◌else◌, Option, none, some, text_eq, pos,
}
use agent_torrent.Py.{Value, null, int, boolean, float, array, nil, Fields, end, field, lookup}

-- The fields of `PeerConfig` and their defaults.
abbrev pub default_config : Fields
default_config = field "tcp_port" (int (pos 0)) (
    field "discovery_port" (int (pos 47474)) (
      field "bootstrap_peers" (array nil) (
        field "max_runtime_seconds" (int (pos 300)) (
          field "accepts_tasks" (boolean true) (
            field "force_simulate" (boolean false) (
              field "simulate_delay" (float 1000000) (field "env_passthrough" (array nil) end)))))))

-- `values[key] = value`
unfoldable pub set_value : String → Value → Fields → Fields
set_value k v end = field k v end
set_value k v (field j u rest) =
    let after = set_value k v rest in if text_eq j k then field j v rest else field j u after

-- `if value is not None`
abbrev pub is_given : Value → Bool
is_given null = false
is_given v = true

-- The loop over the overrides.
unfoldable pub override : Fields → Fields → Fields
unfolding set_value
override end values = values
override (field k v rest) values =
    override rest (if is_given v then set_value k v values else values)

-- `values.update(json.loads(…))` on an empty dictionary; the file holds a dictionary, if it exists.
unfoldable pub read_values : Option Fields → Fields
read_values none = end
read_values (some values) = values

-- `cls(**{k: v …})`, as the dictionary of its fields: each known field in its order, with the value that
-- is given or else its default.
unfoldable pub fill : Fields → Fields → Fields
fill end values = end
fill (field k default rest) values =
    field k (elim (lookup k values) [ none ↦ default | some v ↦ v ]) (fill rest values)

-- The configuration, which is also what the file then holds.
unfoldable pub load_config : Option Fields → Fields → Fields
unfolding override read_values fill
load_config file overrides = fill default_config (override overrides (read_values file))
