-- ===== src/Locator/Displayed.antt =====
-- What hash a text displays, and how `block_hash_at` finds it (src/rpc.rs).
use bip110_crawler.Common.{
  ℕ, zero, suc, ◌+◌, ◌≡◌, refl, sym, ap, ◌∙◌, [], ◌∷◌, ◌++◌, Option, none, some, length, Text,
  Bytes, from_hex_2, Bool-cases, Option-cases, inl, inr, ◌⊎◌, ◌==◌, arith,
}
use mathlib.Core.List.{reverse, reverse-cons}
use bip110_crawler.Locator.{parse_pairs, block_hash_at}

-- The digits of a text, pair by pair from the last byte of the hash to its first.
abbrev pub Spells : Text → Bytes → Type 0
Spells [] hash = hash ≡ []
Spells (c ∷ []) hash = ⊥
Spells (c ∷ d ∷ s) hash =
    (b : ℕ) × (front : Bytes) × (from_hex_2 c d ≡ some b)
    × Spells s front
    × (hash ≡ front ++ b ∷ [])

-- A node's answer displays a hash: 64 digits, which spell it.
abbrev pub Displays : Option Text → Bytes → Type 0
Displays none hash = ⊥
Displays (some s) hash = (length s ≡ 64) × Spells s hash

parse_pairs-Spells :
    (k : ℕ) (s : Text) (bs : Bytes)
    → length s ≡ k + k
    → parse_pairs s ≡ some bs
    → Spells s (reverse bs)
unfolding parse_pairs
parse_pairs-Spells k [] bs e h = let none_left : [] ≡ bs = cc h in ap reverse (sym none_left)
parse_pairs-Spells k (c ∷ []) bs e h = absurd (omega arith)
parse_pairs-Spells zero (c ∷ d ∷ s) bs e h = absurd (omega arith)
parse_pairs-Spells (suc k) (c ∷ d ∷ s) bs e h = elim (Option-cases (from_hex_2 c d)) [
  | inl q ↦ absurd (cc (rw (q, parse_pairs) at h))
  | inr (b, q) ↦ elim (Option-cases (parse_pairs s)) [
    | inl r ↦ absurd (cc (rw (q, parse_pairs, r) at h))
    | inr (front, r) ↦
        let whole : b ∷ front ≡ bs = cc (rw (q, parse_pairs, r) at h) in
        (
          b,
          reverse front,
          q,
          parse_pairs-Spells k s front (omega arith) r,
          sym (ap reverse whole) ∙ reverse-cons b front,
        )
  ]
]

Spells-parse_pairs :
    (s : Text) (hash : Bytes)
    → Spells s hash
    → (bs : Bytes) × (parse_pairs s ≡ some bs) × (reverse bs ≡ hash)
unfolding parse_pairs
Spells-parse_pairs [] hash h = ([], refl, sym h)
Spells-parse_pairs (c ∷ []) hash h = absurd h
Spells-parse_pairs (c ∷ d ∷ s) hash (b, front, q, spelled, e) =
    let (bs, r, back) = Spells-parse_pairs s front spelled in
    (b ∷ bs, rw (q, parse_pairs, r) refl, reverse-cons b bs ∙ ap (λ f. f ++ b ∷ []) back ∙ sym e)

-- The hash that an answer displays is found, and no hash is found where none is displayed.
pub block_hash_at-Displays :
    (o : Option Text)
    → ((hash : Bytes) × (block_hash_at o ≡ some hash) × Displays o hash)
      ⊎ ((block_hash_at o ≡ none) × ((hash : Bytes) → ¬ Displays o hash))
unfolding block_hash_at
block_hash_at-Displays none = inr (refl, λ hash h. h)
block_hash_at-Displays (some s) = elim (Bool-cases (length s == 64)) [
  | inr e ↦ inr (rw (e, block_hash_at) refl, λ hash h. absurd (ground (arith, e, h.0)))
  | inl e ↦
      let wide : length s ≡ 64 = ground (arith, e) in
      elim (Option-cases (parse_pairs s)) [
        | inl r ↦ inr (
          rw (e, block_hash_at, r) refl,
          λ hash h. let (bs, found, back) = Spells-parse_pairs s hash h.1 in absurd (cc (found, r)),
        )
        | inr (bs, r) ↦
            inl
              (reverse bs, rw (e, block_hash_at, r) refl, (wide, parse_pairs-Spells 32 s bs wide r))
      ]
]
