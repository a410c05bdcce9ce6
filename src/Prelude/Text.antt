-- ===== src/Prelude/Text.antt =====
-- The texts of Python as native strings: prefixes, `join`, `strip`, decimal numbers.
use Prim.Native.Nat.{ℕ, zero, suc, ◌+◌, ◌/◌, ◌%◌}
use Prim.Native.Char.{code}
use Prim.Native.String.{String, ◌++◌ as append}
use mathlib.Core.Path.{◌≡◌, sym}
use mathlib.Core.Logic.{inl, inr}
use native.Mathlib.Omega.{arith}
use text.Mathlib.TextEquality.{eq_iff}
use mathlib.Core.Bool.{Bool, true, false, ◌&&◌, ◌||◌}
use mathlib.Core.List.{List, [], ◌∷◌}
use text.Mathlib.Text.{◌==◌ as eq}
use agent_torrent.Prelude.Tests.{leb, ◌==◌, if◌then◌else◌, Bool-cases}
use agent_torrent.Prelude.Int.{ℤ, pos, negsuc}

-- `s == t`
abbrev pub text_eq : String → String → Bool
text_eq s t = eq s t

infixr 66 ◌<>◌
abbrev pub ◌<>◌ : String → String → String
◌<>◌ = append

-- `s[:n]`
unfoldable pub take_text : ℕ → String → String
take_text zero s = ""
take_text (suc n) String.[] = ""
take_text (suc n) (String.◌∷◌ c s) = String.◌∷◌ c (take_text n s)

-- `sep.join(parts)`
unfoldable pub join : String → List String → String
join sep [] = ""
join sep (s ∷ []) = s
join sep (s ∷ t ∷ rest) = s <> sep <> join sep (t ∷ rest)

-- The characters that `str.strip` removes.
is_space : ℕ → Bool
is_space c =
    (leb 9 c && leb c 13)
    || (leb 28 c && leb c 32)
    || c == 133
    || c == 160
    || c == 5760
    || (leb 8192 c && leb c 8202)
    || c == 8232
    || c == 8233
    || c == 8239
    || c == 8287
    || c == 12288

-- `not s.strip()`
unfoldable pub is_blank : String → Bool
unfolding is_space
is_blank String.[] = true
is_blank (String.◌∷◌ c s) = is_space (code c) && is_blank s

-- `s.rstrip()`
unfoldable pub rstrip : String → String
unfolding is_blank
rstrip String.[] = ""
rstrip (String.◌∷◌ c s) =
    let rest = rstrip s in if is_blank (String.◌∷◌ c s) then "" else String.◌∷◌ c rest

-- `s.strip()`
unfoldable pub strip : String → String
unfolding is_space rstrip
strip String.[] = ""
strip (String.◌∷◌ c s) =
    let rest = strip s in if is_space (code c) then rest else rstrip (String.◌∷◌ c s)

-- The characters at which `str.splitlines` ends a line.
is_line_break : ℕ → Bool
is_line_break c =
    (leb 10 c && leb c 13) || (leb 28 c && leb c 30) || c == 133 || c == 8232 || c == 8233

-- `s.splitlines()[0]` of a text that is not empty
unfoldable pub first_line : String → String
unfolding is_line_break
first_line String.[] = ""
first_line (String.◌∷◌ c s) =
    let rest = first_line s in if is_line_break (code c) then "" else String.◌∷◌ c rest

digit : ℕ → String
digit n =
    if n == 0
    then "0"
    else if n == 1
    then "1"
    else if n == 2
    then "2"
    else if n == 3
    then "3"
    else if n == 4
    then "4"
    else if n == 5
    then "5"
    else if n == 6
    then "6"
    else if n == 7
    then "7"
    else if n == 8
    then "8"
    else "9"

-- The fuel `n + 1` is enough, since a number has at most that many digits.
str_digits : ℕ → ℕ → String → String
unfolding digit
str_digits zero n rest = rest
str_digits (suc fuel) n rest =
    let more = str_digits fuel (n / 10) (digit (n % 10) <> rest) in
    if leb n 9 then digit n <> rest else more

-- `str(n)` of an integer
unfoldable pub str_int : ℤ → String
unfolding str_digits
str_int (pos n) = str_digits (n + 1) n ""
str_int (negsuc n) = "-" <> str_digits (n + 2) (n + 1) ""

pub text_eq_sym : (a b : String) → text_eq a b ≡ false → text_eq b a ≡ false
text_eq_sym a b h = elim (Bool-cases (text_eq b a)) [
  | inl same ↦ absurd (ground (arith, (eq_iff a b).1 (sym ((eq_iff b a).0 same)), h))
  | inr other ↦ other
]
