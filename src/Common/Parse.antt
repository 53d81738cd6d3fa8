-- ===== src/Common/Parse.antt =====
-- The numbers that `str::parse` reads: digits behind an optional sign, within the width of the type.
use Prim.Native.Nat.{ℕ, zero, suc, ◌^◌}
use mathlib.Core.Bool.{Bool, true, ◌&&◌}
use mathlib.Core.List.{[], ◌∷◌}
use mathlib.Core.Option.{Option, none, some}
use bip110_crawler.Common.Tests.{ltb, leb, ◌==◌, if◌then◌else◌}
use bip110_crawler.Common.Strings.{Text, is_ascii_digit, decimal}
use bip110_crawler.Common.Int.{ℤ, pos, negsuc}

unfoldable pub all_digits : Text → Bool
all_digits [] = true
all_digits (c ∷ s) = is_ascii_digit c && all_digits s

-- The digits of a number: at least one.
unfoldable pub digits_value : Text → Option ℕ
unfolding all_digits
digits_value [] = none
digits_value (c ∷ s) = if all_digits (c ∷ s) then some (decimal 0 (c ∷ s)) else none

-- `from_str` of an unsigned type of `w` bits: a `+` may stand first.
unfoldable pub parse_unsigned : ℕ → Text → Option ℕ
unfolding digits_value
parse_unsigned w [] = none
parse_unsigned w (c ∷ s) = elim (digits_value (if c == b'+' then s else c ∷ s)) [
  | none ↦ none
  | some n ↦ if ltb n (2 ^ w) then some n else none
]

-- On the 64-bit targets.
unfoldable pub parse_usize : Text → Option ℕ
unfolding parse_unsigned
parse_usize s = parse_unsigned 64 s

unfoldable pub parse_u16 : Text → Option ℕ
unfolding parse_unsigned
parse_u16 s = parse_unsigned 16 s

unfoldable pub negated : ℕ → ℤ
negated zero = pos 0
negated (suc n) = negsuc n

-- `i64::from_str`: a sign may stand first, and the value is an i64.
unfoldable pub parse_i64 : Text → Option ℤ
unfolding digits_value negated
parse_i64 [] = none
parse_i64 (c ∷ s) =
    if c == b'-'
    then elim (digits_value s) [
      | none ↦ none
      | some n ↦ if leb n (2 ^ 63) then some (negated n) else none
    ]
    else elim (digits_value (if c == b'+' then s else c ∷ s)) [
      | none ↦ none
      | some n ↦ if ltb n (2 ^ 63) then some (pos n) else none
    ]
