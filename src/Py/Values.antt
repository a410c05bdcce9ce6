-- ===== src/Py/Values.antt =====
-- The values that `json.loads` returns and `json.dumps` takes. A dictionary is the list of its
-- items in insertion order; its keys are texts, since it comes from JSON.
use agent_torrent.Prelude.{
  List, [], ◌∷◌, ◌||◌, String, Bool, true, false, ◌&&◌, Option, none, some, ℤ, pos, suc, zero, ℕ,
  text_eq, if◌then◌else◌,
}

-- The code carries floats and never inspects one: `float n` stands for a time of n microseconds.
mutual
  pub data Value : Type 0 where
    null : Value
    boolean : Bool → Value
    int : ℤ → Value
    float : ℕ → Value
    text : String → Value
    array : Items → Value
    object : Fields → Value

  pub data Items : Type 0 where
    nil : Items
    cons : Value → Items → Items

  pub data Fields : Type 0 where
    end : Fields
    field : String → Value → Fields → Fields

-- `key in d` and `d[key]` at once.
unfoldable pub lookup : String → Fields → Option Value
lookup k end = none
lookup k (field j v rest) = if text_eq j k then some v else lookup k rest

abbrev pub is_some {ℓ} : {A : Type ℓ} → Option A → Bool
is_some none = false
is_some (some a) = true

-- The value under a key, `None` where there is none.
unfoldable pub lookup_or_null : String → Fields → Value
unfolding lookup
lookup_or_null k d = elim (lookup k d) [ none ↦ null | some v ↦ v ]

-- `isinstance(v, str)`
abbrev pub is_text : Value → Bool
is_text (text s) = true
is_text _ = false

-- `isinstance(v, dict)`
abbrev pub is_dict : Value → Bool
is_dict (object d) = true
is_dict _ = false

-- `isinstance(v, bool)`
abbrev pub is_boolean : Value → Bool
is_boolean (boolean b) = true
is_boolean _ = false

-- `isinstance(v, int) and not isinstance(v, bool) and v > 0`
abbrev pub is_positive : Value → Bool
is_positive (int (pos (suc n))) = true
is_positive _ = false

-- `v == s` for a text `s`: no other value is equal to a text.
abbrev pub is_text_eq : String → Value → Bool
is_text_eq s (text t) = text_eq t s
is_text_eq s _ = false

-- A list that holds texts only.
abbrev pub are_texts : Items → Bool
are_texts nil = true
are_texts (cons (text s) rest) = are_texts rest
are_texts (cons v rest) = false

abbrev pub is_text_list : Value → Bool
is_text_list (array items) = are_texts items
is_text_list _ = false

abbrev pub is_int : Value → Bool
is_int (int n) = true
is_int _ = false

-- `all(isinstance(v, str) for v in d.values())`
unfoldable pub all_texts : Fields → Bool
all_texts end = true
all_texts (field k v rest) = is_text v && all_texts rest

-- `bool(v)`: what a condition makes of a value.
unfoldable pub truthy : Value → Bool
truthy null = false
truthy (boolean b) = b
truthy (int (pos zero)) = false
truthy (float zero) = false
truthy (text s) = if text_eq s "" then false else true
truthy (array nil) = false
truthy (object end) = false
truthy _ = true

-- `v in names`
unfoldable pub is_one_of : List String → Value → Bool
is_one_of [] v = false
is_one_of (c ∷ names) (text s) = text_eq s c || is_one_of names (text s)
is_one_of (c ∷ names) v = false
