-- ===== src/Common/Hex.antt =====
-- Hexadecimal digits and bytes (`{:02x}`, `to_digit(16)`, `u8::from_str_radix(_, 16)`).
use Prim.Native.Nat.{ℕ, ◌+◌, ◌-◌, ◌*◌, ◌/◌, ◌%◌, ◌<◌}
use mathlib.Core.Path.{◌≡◌, ap}
use mathlib.Core.Bool.{false, ◌&&◌}
use mathlib.Core.List.{List, [], ◌∷◌}
use mathlib.Core.Option.{Option, none, some}
use native.Mathlib.Omega.{arith}
use bip110_crawler.Common.Tests.{leb, ltb, ◌==◌, if◌then◌else◌}

-- `{:02x}` of a byte, digit by digit.
unfoldable pub hex_digit : ℕ → ℕ
hex_digit n = if ltb n 10 then b'0' + n else b'a' + (n - 10)

unfoldable pub hex_byte : ℕ → List ℕ
unfolding hex_digit
hex_byte b = hex_digit (b / 16) ∷ hex_digit (b % 16) ∷ []

-- `char::to_digit(16)`
unfoldable pub to_digit_16 : ℕ → Option ℕ
to_digit_16 c =
    if leb b'0' c && leb c b'9'
    then some (c - b'0')
    else if leb b'a' c && leb c b'f'
    then some (c - b'a' + 10)
    else if leb b'A' c && leb c b'F'
    then some (c - b'A' + 10)
    else none

-- `u8::from_str_radix(s, 16)` on two characters: a leading `+` is accepted.
unfoldable pub from_hex_2 : ℕ → ℕ → Option ℕ
unfolding to_digit_16
from_hex_2 c d = if c == b'+' then to_digit_16 d else elim (to_digit_16 c) [
  | none ↦ none
  | some hi ↦ elim (to_digit_16 d) [ none ↦ none | some lo ↦ some (hi * 16 + lo) ]
]

pub to_digit_16-hex_digit : (n : ℕ) → n < 16 → to_digit_16 (hex_digit n) ≡ some n
unfolding to_digit_16 hex_digit
to_digit_16-hex_digit n h = ground arith

hex_digit-ne-plus : (n : ℕ) → (hex_digit n == b'+') ≡ false
unfolding hex_digit
hex_digit-ne-plus n = ground arith

-- The two digits of a byte are read back as the byte.
pub from_hex_2-hex_byte :
    (b : ℕ) → b < 256 → from_hex_2 (hex_digit (b / 16)) (hex_digit (b % 16)) ≡ some b
unfolding from_hex_2
from_hex_2-hex_byte b h =
    rw
      (
        hex_digit-ne-plus (b / 16),
        to_digit_16-hex_digit (b / 16) (omega arith),
        to_digit_16-hex_digit (b % 16) (omega arith),
      )
      (ap some (omega arith))
