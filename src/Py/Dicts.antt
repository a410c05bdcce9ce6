-- ===== src/Py/Dicts.antt =====
-- Indexing and `get` on a value that need not be a dictionary.
use agent_torrent.Prelude.{String, none, some}
use agent_torrent.Py.Values.{Value, object, null, lookup}
use agent_torrent.Py.Errors.{Result, ok, err, attribute_error, type_error, key_error}

-- `d[key]`: a dictionary raises `KeyError`, a list or a text takes no text as its index, and any
-- other value cannot be indexed.
unfoldable pub index : String → Value → Result Value
unfolding lookup
index k (object d) = elim (lookup k d) [ none ↦ err (key_error k) | some v ↦ ok v ]
index k _ = err type_error

-- `d.get(key, default)`: only a dictionary has the method.
unfoldable pub get : String → Value → Value → Result Value
unfolding lookup
get k default (object d) = elim (lookup k d) [ none ↦ ok default | some v ↦ ok v ]
get k default _ = err attribute_error

-- `d.get(key)`
abbrev pub get? : String → Value → Result Value
get? k = get k null
