-- ===== src/Serve/Query.antt =====
-- The query string (src/serve.rs: parse_query, pct_decode), by its bytes. The lossy UTF-8 decoder of
-- the standard library is a parameter.
pub mod Decodes
use bip110_crawler.Common.{
  ℕ, ◌+◌, ◌*◌, ◌%◌, List, [], ◌∷◌, Option, none, some, if◌then◌else◌, ◌==◌, Text, Bytes,
  to_digit_16, store,
}

unfoldable pub hex_pair : ℕ → ℕ → Option ℕ
unfolding to_digit_16
hex_pair c d = elim (to_digit_16 c) [
  | none ↦ none
  | some hi ↦ elim (to_digit_16 d) [ none ↦ none | some lo ↦ some ((hi * 16 + lo) % 256) ]
]

unfoldable pub plain : ℕ → ℕ
plain c = if c == b'+' then b' ' else c

-- The bytes that `pct_decode` collects; an escape needs two bytes behind the `%`.
unfoldable pub pct_bytes : Bytes → Bytes
unfolding plain hex_pair
pct_bytes (c ∷ d ∷ e ∷ s) =
    let next = pct_bytes (d ∷ e ∷ s) in
    let behind = pct_bytes s in
    if c == b'%'
    then elim (hex_pair d e) [ none ↦ c ∷ next | some b ↦ b ∷ behind ]
    else plain c ∷ next
pct_bytes (c ∷ s) = plain c ∷ pct_bytes s
pct_bytes [] = []

-- `split`: the part before the first separator, and the others.
unfoldable pub split_on : ℕ → Bytes → Bytes × List Bytes
split_on sep [] = ([], [])
split_on sep (c ∷ s) =
    let (part, parts) = split_on sep s in if c == sep then ([], part ∷ parts) else (c ∷ part, parts)

unfoldable pub split_once : ℕ → Bytes → Option (Bytes × Bytes)
split_once sep [] = none
split_once sep (c ∷ s) =
    if c == sep
    then some ([], s)
    else elim (split_once sep s) [ none ↦ none | some (k, v) ↦ some (c ∷ k, v) ]

module _ (from_utf8_lossy : Bytes → Text) where
  unfoldable pub pct_decode : Bytes → Text
  unfolding pct_bytes
  pct_decode s = from_utf8_lossy (pct_bytes s)

  unfoldable pub add_pair : Bytes → List (Text × Text) → List (Text × Text)
  unfolding split_once pct_decode
  add_pair [] m = m
  add_pair (c ∷ pair) m = elim (split_once b'=' (c ∷ pair)) [
    | some (k, v) ↦ store (pct_decode k) (pct_decode v) m
    | none ↦ store (pct_decode (c ∷ pair)) [] m
  ]

  unfoldable pub add_pairs : List Bytes → List (Text × Text) → List (Text × Text)
  add_pairs [] m = m
  add_pairs (pair ∷ pairs) m = add_pairs pairs (add_pair pair m)

  unfoldable pub parse_query : Bytes → List (Text × Text)
  unfolding add_pairs split_on
  parse_query q = let (pair, pairs) = split_on b'&' q in add_pairs (pair ∷ pairs) []
