-- ===== src/Cli/Parser.antt =====
-- `build_parser` of agenttorrent/cli.py, as the table of its arguments. What `parse_args` makes of a
-- command line is a namespace, the dictionary of its attributes, of which the documentation of argparse
-- says the following: it has an attribute for each argument, which is the argument's default or a
-- value of the argument's type, and one of its choices if it has any.
use agent_torrent.Prelude.{
  String, ◌≡◌, ◌⊎◌, Bool, true, false, not, List, [], ◌∷◌, Option, none, some, pos, text_eq,
  if◌then◌else◌,
}
use agent_torrent.Py.{
  Value, Fields, null, boolean, int, float, text, array, are_texts, lookup, is_one_of,
}

-- What an argument takes: `type=int`, `type=float`, a text, a text of the `choices`, a list of texts by
-- `action="append"`, or the constant of `store_true` and `store_const`.
pub data Takes : Type 0 where
  whole decimal words repeated : Takes
  choice : List String → Takes
  sets : Bool → Takes

-- A positional argument has no default.
pub record Argument : Type 0 where
  pub dest : String
  pub takes : Takes
  pub default : Option Value

abbrev pub option : String → Takes → Value → Argument
option dest takes default = record { dest = dest; takes = takes; default = some default }

-- The arguments before the command; `home` is `str(DEFAULT_DATA_DIR)`.
abbrev pub global_arguments : String → List Argument
global_arguments home =
    option "data_dir" words (text home) ∷ option "verbose" (sets true) (boolean false) ∷ []

abbrev pub start_arguments : List Argument
start_arguments =
    option "tcp_port" whole null
    ∷ option "discovery_port" whole null
    ∷ option "bootstrap_peer" repeated null
    ∷ option "accepts_tasks" (sets false) null
    ∷ option "force_simulate" (sets true) (boolean false)
    ∷ option "simulate_delay" decimal null
    ∷ option "max_runtime" whole null
    ∷ option "env_passthrough" repeated null
    ∷ []

abbrev pub json_argument : Argument
json_argument = option "json" (sets true) (boolean false)

abbrev pub delegate_arguments : List Argument
delegate_arguments =
    record { dest = "task"; takes = words; default = none }
    ∷ option "harness" (choice ("claude" ∷ "codex" ∷ "api" ∷ "any" ∷ [])) (text "any")
    ∷ option "max_tokens" whole (int (pos 4096))
    ∷ option "max_runtime" whole (int (pos 60))
    ∷ option "expect" words (text "plain text answer")
    ∷ json_argument
    ∷ []

-- The subparsers, by the command's name.
unfoldable pub build_parser : List (String × List Argument)
build_parser =
    ("start", start_arguments)
    ∷ ("peers", json_argument ∷ [])
    ∷ ("delegate", delegate_arguments)
    ∷ ("ledger", json_argument ∷ [])
    ∷ []

abbrev pub same_bool : Bool → Bool → Bool
same_bool true b = b
same_bool false b = not b

-- The value is one that the argument takes.
unfoldable pub is_taken : Takes → Value → Bool
unfolding is_one_of
is_taken whole (int n) = true
is_taken decimal (float t) = true
is_taken words (text s) = true
is_taken repeated (array items) = are_texts items
is_taken (choice names) v = is_one_of names v
is_taken (sets b) (boolean c) = same_bool b c
is_taken _ _ = false

-- The attribute of one argument.
pub record Parsed (namespace : Fields) (a : Argument) : Type 0 where
  pub value : Value
  pub found : lookup a.dest namespace ≡ some value
  pub fits : (a.default ≡ some value) ⊎ (is_taken a.takes value ≡ true)

-- The namespace has the attributes of all these arguments.
abbrev pub Conforms : Fields → List Argument → Type 0
Conforms namespace [] = Unit {0}
Conforms namespace (a ∷ rest) = Parsed namespace a × Conforms namespace rest

-- The arguments of the subparser of a command.
unfoldable pub subparser : String → List (String × List Argument) → Option (List Argument)
subparser command [] = none
subparser command ((name, arguments) ∷ rest) =
    let later = subparser command rest in if text_eq command name then some arguments else later

-- The namespace of a command line that `parse_args` accepts.
pub record IsParsed (home : String) (namespace : Fields) : Type 0 where
  pub globals : Conforms namespace (global_arguments home)
  pub command : String
  pub named : lookup "command" namespace ≡ some (text command)
  pub arguments : List Argument
  pub of_command : subparser command build_parser ≡ some arguments
  pub locals : Conforms namespace arguments
