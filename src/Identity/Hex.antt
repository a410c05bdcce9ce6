-- ===== src/Identity/Hex.antt =====
-- `bytes.hex` and `bytes.fromhex`.
use Prim.Native.Char.{Char, code}
use agent_torrent.Prelude.{
  ℕ, zero, suc, ◌+◌, ◌-◌, ◌*◌, ◌/◌, ◌%◌, ◌<◌, String, ◌≡◌, refl, ap, Bool, false, ◌&&◌, ◌||◌,
  Option, none, some, leb, ◌==◌, arith, if◌then◌else◌, List, [], ◌∷◌,
}

-- The digit of a number below 16.
hex_digit : ℕ → Char
hex_digit n =
    if n == 0
    then "0"
    else if n == 1
    then "1"
    else if n == 2
    then "2"
    else if n == 3
    then "3"
    else if n == 4
    then "4"
    else if n == 5
    then "5"
    else if n == 6
    then "6"
    else if n == 7
    then "7"
    else if n == 8
    then "8"
    else if n == 9
    then "9"
    else if n == 10
    then "a"
    else if n == 11
    then "b"
    else if n == 12
    then "c"
    else if n == 13
    then "d"
    else if n == 14
    then "e"
    else "f"

-- The number of a digit, of either case.
hex_value : ℕ → Option ℕ
hex_value c =
    if leb 48 c && leb c 57
    then some (c - 48)
    else if leb 65 c && leb c 70
    then some (c - 55)
    else if leb 97 c && leb c 102
    then some (c - 87)
    else none

is_ascii_space : ℕ → Bool
is_ascii_space c = (leb 9 c && leb c 13) || c == 32

-- Two digits and the bytes after them.
pair_of : Option ℕ → Option ℕ → Option (List ℕ) → Option (List ℕ)
pair_of (some hi) (some lo) (some rest) = some ((16 * hi + lo) ∷ rest)
pair_of _ _ _ = none

-- `b.hex()`
unfoldable pub hex : List ℕ → String
unfolding hex_digit
hex [] = ""
hex (b ∷ bytes) = String.◌∷◌ (hex_digit (b / 16)) (String.◌∷◌ (hex_digit (b % 16)) (hex bytes))

-- `bytes.fromhex(s)`: spaces may stand before a pair of digits; anything else raises.
unfoldable pub from_hex : String → Option (List ℕ)
unfolding hex_value is_ascii_space pair_of
from_hex String.[] = some []
from_hex (String.◌∷◌ c String.[]) = if is_ascii_space (code c) then some [] else none
from_hex (String.◌∷◌ c (String.◌∷◌ d s)) =
    let skipped = from_hex (String.◌∷◌ d s) in
    let rest = from_hex s in
    if is_ascii_space (code c)
    then skipped
    else pair_of (hex_value (code c)) (hex_value (code d)) rest

-- A list of bytes.
abbrev pub AllBytes : List ℕ → Type 0
AllBytes [] = Unit {0}
AllBytes (b ∷ bytes) = (b < 256) × AllBytes bytes

hex_value-hex_digit :
    (n : ℕ)
    → n < 16
    → (hex_value (code (hex_digit n)) ≡ some n) × (is_ascii_space (code (hex_digit n)) ≡ false)
unfolding hex_value hex_digit is_ascii_space
hex_value-hex_digit zero h = (refl, refl)
hex_value-hex_digit (suc zero) h = (refl, refl)
hex_value-hex_digit (suc (suc zero)) h = (refl, refl)
hex_value-hex_digit (suc (suc (suc zero))) h = (refl, refl)
hex_value-hex_digit (suc (suc (suc (suc zero)))) h = (refl, refl)
hex_value-hex_digit (suc (suc (suc (suc (suc zero))))) h = (refl, refl)
hex_value-hex_digit (suc (suc (suc (suc (suc (suc zero)))))) h = (refl, refl)
hex_value-hex_digit (suc (suc (suc (suc (suc (suc (suc zero))))))) h = (refl, refl)
hex_value-hex_digit (suc (suc (suc (suc (suc (suc (suc (suc zero)))))))) h = (refl, refl)
hex_value-hex_digit (suc (suc (suc (suc (suc (suc (suc (suc (suc zero))))))))) h = (refl, refl)
hex_value-hex_digit (suc (suc (suc (suc (suc (suc (suc (suc (suc (suc zero)))))))))) h =
    (refl, refl)
hex_value-hex_digit (suc (suc (suc (suc (suc (suc (suc (suc (suc (suc (suc zero))))))))))) h =
    (refl, refl)
hex_value-hex_digit (suc (suc (suc (suc (suc (suc (suc (suc (suc (suc (suc (suc zero)))))))))))) h =
    (refl, refl)
hex_value-hex_digit
      (suc (suc (suc (suc (suc (suc (suc (suc (suc (suc (suc (suc (suc zero))))))))))))) h =
    (refl, refl)
hex_value-hex_digit
      (suc (suc (suc (suc (suc (suc (suc (suc (suc (suc (suc (suc (suc (suc zero)))))))))))))) h =
    (refl, refl)
hex_value-hex_digit
      (suc (suc (suc (suc (suc (suc (suc (suc (suc (suc (suc (suc (suc (suc (suc zero)))))))))))))))
      h =
    (refl, refl)
hex_value-hex_digit
      (suc
        (suc (suc (suc (suc (suc (suc (suc (suc (suc (suc (suc (suc (suc (suc (suc n))))))))))))))))
      h =
    absurd (omega arith)

-- If every number of a list is below 256, `from_hex` reads back what `hex` prints of the list.
pub from_hex-hex : (bytes : List ℕ) → AllBytes bytes → from_hex (hex bytes) ≡ some bytes
unfolding from_hex hex pair_of
from_hex-hex [] h = refl
from_hex-hex (b ∷ bytes) h =
    let hi = hex_value-hex_digit (b / 16) (omega arith) in
    let lo = hex_value-hex_digit (b % 16) (omega arith) in
    rw (hi.1, hi.0, lo.0, from_hex-hex bytes h.1) (ap (λ n. some (n ∷ bytes)) (omega arith))
