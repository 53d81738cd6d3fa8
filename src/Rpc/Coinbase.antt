-- ===== src/Rpc/Coinbase.antt =====
-- The pool tag of a coinbase (src/rpc.rs: `parse_coinbase_tag`, `clean_tag`). Every text here is
-- ASCII, so that bytes and characters are the same.
pub mod Tag
use bip110_crawler.Common.{
  ℕ, ◌+◌, Bool, true, false, not, ◌&&◌, ◌||◌, List, [], ◌∷◌, ◌++◌, Option, none, some,
  if◌then◌else◌, ltb, leb, ◌==◌, length, take, drop, get_elem?, list_eq, skip_while, is_whitespace,
  Text, codes, Bytes, from_hex_2,
}
use mathlib.Core.List.{reverse}
use bip110_crawler.Crawler.Tasks.{is_empty}

-- The bytes of a hexadecimal text, but for pairs that are not hexadecimal.
unfoldable pub hex_pairs : Text → Bytes
hex_pairs (c ∷ d ∷ s) = elim (from_hex_2 c d) [ none ↦ hex_pairs s | some b ↦ b ∷ hex_pairs s ]
hex_pairs _ = []

unfoldable pub is_printable : ℕ → Bool
is_printable b = leb 0x20 b && ltb b 0x7f

-- The printable runs, with `cur` the run that is being read.
unfoldable pub runs_of : Bytes → Text → List Text
unfolding is_printable is_empty
runs_of [] cur = if is_empty cur then [] else cur ∷ []
runs_of (b ∷ bytes) cur =
    let longer = runs_of bytes (cur ++ b ∷ []) in
    let anew = runs_of bytes [] in
    if is_printable b then longer else if is_empty cur then anew else cur ∷ anew

-- The first longest run with its index, from index `i` on.
unfoldable pub best_run : List Text → ℕ → ℕ × Text → ℕ × Text
best_run [] i best = best
best_run (r ∷ runs) i best =
    best_run runs (i + 1) (if ltb (length best.1) (length r) then (i, r) else best)

-- `split('/')`, with `cur` what stands before the next slash.
unfoldable pub split_slash : Text → Text → List Text
split_slash [] cur = cur ∷ []
split_slash (c ∷ s) cur =
    let ended = split_slash s [] in
    let more = split_slash s (cur ++ c ∷ []) in if c == b'/' then cur ∷ ended else more

is_wrapper : ℕ → Bool
is_wrapper c = is_whitespace c || c == b'<' || c == b'>'

-- `trim_matches`
unfoldable pub clean_tag : Text → Text
unfolding is_wrapper
clean_tag s = reverse (skip_while is_wrapper (reverse (skip_while is_wrapper s)))

unfoldable pub segments_of : List Text → List Text
segments_of [] = []
segments_of (s ∷ parts) =
    if is_empty (clean_tag s) then segments_of parts else clean_tag s ∷ segments_of parts

-- `position(|s| s.len() >= 3).unwrap_or(0)`, with the index and whether there is one.
position_from : ℕ → List Text → ℕ
position_from i [] = 0
position_from i (s ∷ segments) = if leb 3 (length s) then i else position_from (i + 1) segments

abbrev ascii_lower : Text → Text
ascii_lower [] = []
ascii_lower (c ∷ s) = (if leb b'A' c && leb c b'Z' then c + 32 else c) ∷ ascii_lower s

-- `eq_ignore_ascii_case`
abbrev same_letters : Text → Text → Bool
same_letters a b = list_eq (ascii_lower a) (ascii_lower b)

-- `find(|s| s.len() >= 4)`
unfoldable pub find_long : List Text → Option Text
find_long [] = none
find_long (s ∷ segments) = if leb 4 (length s) then some s else find_long segments

-- The first other run of at least four characters, cleaned.
unfoldable pub other_run : ℕ → List Text → ℕ → Option Text
other_run best_idx [] i = none
other_run best_idx (r ∷ runs) i =
    if not (i == best_idx) && leb 4 (length (clean_tag r))
    then some (clean_tag r)
    else other_run best_idx runs (i + 1)

unfoldable pub pool_of : Text → List Text → Text
unfolding position_from
pool_of best segments =
    take 32
      (elim (get_elem? segments (position_from 0 segments)) [ none ↦ clean_tag best | some s ↦ s ])

unfoldable pub miner_of : Text → List Text → List Text → ℕ → Option Text
unfolding position_from
miner_of pool segments runs best_idx =
    if same_letters pool (codes "OCEAN.XYZ") || same_letters pool (codes "OCEAN")
    then (elim (find_long (drop (position_from 0 segments + 1) segments)) [
      | some s ↦ some s
      | none ↦ other_run best_idx runs 0
    ])
    else none

-- ` · `
abbrev pub separator : Text
separator = 0x20 ∷ 0xB7 ∷ 0x20 ∷ []

unfoldable pub join_tag : Text → Option Text → Text
join_tag pool none = pool
join_tag pool (some m) =
    if not (is_empty m) && not (same_letters m pool) then pool ++ (separator ++ take 32 m) else pool

unfoldable pub tag_of : List Text → Text
unfolding pool_of miner_of join_tag segments_of
tag_of [] = []
tag_of (r ∷ runs) =
    let best = best_run (r ∷ runs) 0 (0, r) in
    let segments = segments_of (split_slash best.1 []) in
    let pool = pool_of best.1 segments in join_tag pool (miner_of pool segments (r ∷ runs) best.0)

unfoldable pub parse_coinbase_tag : Text → Text
unfolding tag_of
parse_coinbase_tag sig_hex = tag_of (runs_of (hex_pairs sig_hex) [])
