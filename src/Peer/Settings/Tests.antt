-- ===== src/Peer/Settings/Tests.antt =====
-- A configuration from a file and the options of a start.
use agent_torrent.Prelude.{◌≡◌, refl, true, false, none, some, pos, Option}
use agent_torrent.Py.{null, array, cons, nil, text, Fields, boolean, int, field, end, lookup}
use agent_torrent.Peer.Settings.{default_config, read_values, load_config}
use agent_torrent.Peer.Settings.Lookup.{given, or_else, for_field, lookup-load_config}

-- What `mesh start --tcp-port 9001 --bootstrap-peer 10.0.0.9:47474 --no-accept-tasks` overrides.
abbrev overrides : Fields
overrides = field "tcp_port" (int (pos 9001)) (
    field "discovery_port" null (
      field "bootstrap_peers" (array (cons (text "10.0.0.9:47474") nil))
        (field "accepts_tasks" (boolean false) end)))

abbrev config_file : Option Fields
config_file = some (
    field "tcp_port" (int (pos 1))
      (field "unknown" (boolean true) (field "max_runtime_seconds" (int (pos 60)) end)))

lookup-load_config_example :
    lookup "tcp_port" (load_config config_file overrides)
    ≡ for_field
        (lookup "tcp_port" default_config)
        (or_else (given "tcp_port" overrides) (lookup "tcp_port" (read_values config_file)))
lookup-load_config_example = lookup-load_config "tcp_port" config_file overrides

port_overridden : lookup "tcp_port" (load_config config_file overrides) ≡ some (int (pos 9001))
unfolding lookup load_config
port_overridden = refl

limit_from_file :
    lookup "max_runtime_seconds" (load_config config_file overrides) ≡ some (int (pos 60))
unfolding lookup load_config
limit_from_file = refl

unknown_dropped : lookup "unknown" (load_config config_file overrides) ≡ none
unfolding lookup load_config
unknown_dropped = refl
