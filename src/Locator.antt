-- ===== src/Locator.antt =====
-- The block locator (src/main.rs: `build_locator`), and a block's hash from its display form
-- (src/rpc.rs: `block_hash_at`).
pub mod Displayed
pub mod Spacing
pub mod RoundTrip
use bip110_crawler.Common.{
  ℕ, zero, suc, ◌+◌, ◌*◌, Bool, true, false, not, List, [], ◌∷◌, ◌++◌, Option, none, some,
  if◌then◌else◌, ltb, ◌==◌, length, Text, Bytes, ℤ, pos, ◌-ℤ◌, ltb_ℤ, from_hex_2,
}
use mathlib.Core.List.{reverse}

-- LOCATOR_START_LAG
abbrev pub locator_start_lag : ℤ
locator_start_lag = pos 12

-- The `while` loop, with how many heights may still be pushed.
unfoldable pub locator_loop : ℕ → ℤ → ℕ → ℕ → List ℤ
locator_loop zero h step n = []
locator_loop (suc left) h step n =
    let step' = if ltb 10 (n + 1) then step * 2 else step in
    let rest = locator_loop left (h -ℤ pos step') step' (n + 1) in
    if ltb_ℤ (pos 0) h then h ∷ rest else []

unfoldable pub locator_heights : ℤ → List ℤ
unfolding locator_loop
locator_heights tip = locator_loop 24 (tip -ℤ locator_start_lag) 1 0

-- The bytes of a hexadecimal text; none if a pair is not hexadecimal.
unfoldable pub parse_pairs : Text → Option Bytes
parse_pairs (c ∷ d ∷ s) = elim (from_hex_2 c d) [
  | none ↦ none
  | some b ↦ elim (parse_pairs s) [ none ↦ none | some bs ↦ some (b ∷ bs) ]
]
parse_pairs _ = some []

-- `block_hash_at`, from the reply to `getblockhash`, if it is a text: 64 digits, read in reverse.
unfoldable pub block_hash_at : Option Text → Option Bytes
unfolding parse_pairs
block_hash_at none = none
block_hash_at (some s) =
    if not (length s == 64)
    then none
    else elim (parse_pairs s) [ none ↦ none | some bs ↦ some (reverse bs) ]

-- `reply` is what the node answers for a height; a height without a hash is left out.
module _ (reply : ℤ → Option Text) where
  unfoldable pub locate : List ℤ → List (Bytes × ℤ)
  unfolding block_hash_at
  locate [] = []
  locate (h ∷ heights) = elim (block_hash_at (reply h)) [
    | none ↦ locate heights
    | some hash ↦ (hash, h) ∷ locate heights
  ]

  unfoldable pub build_locator : ℤ → List (Bytes × ℤ)
  unfolding locate locator_heights
  build_locator tip = locate (locator_heights tip)
