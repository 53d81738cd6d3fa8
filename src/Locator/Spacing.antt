-- ===== src/Locator/Spacing.antt =====
-- The locator descends from below the tip, and its hashes are the displayed ones (src/main.rs).
use bip110_crawler.Common.{
  ℕ, zero, suc, ◌+◌, ◌*◌, ◌≤◌, ◌≡◌, List, [], ◌∷◌, Option, if◌then◌else◌, ltb, length, Text, Bytes,
  ℤ, pos, ◌-ℤ◌, -ℤ_parts, ◌≤ℤ◌, ltb_ℤ, Bool-cases, Option-cases, inl, inr, arith, eq_of_parts, refl,
  sym, ap, subst, ◌∙◌,
}
use bip110_crawler.Locator.Displayed.{Displays, block_hash_at-Displays}
use bip110_crawler.Locator.{locator_loop, locator_heights, block_hash_at, locate, build_locator}

-- Heights that strictly descend, all of them positive and at most `top`.
abbrev pub Descends : ℤ → List ℤ → Type 0
Descends top [] = Unit
Descends top (h ∷ heights) = (h ≤ℤ top) × (pos 1 ≤ℤ h) × Descends (h -ℤ pos 1) heights

Descends-weaken : (a b : ℤ) (hs : List ℤ) → a ≤ℤ b → Descends a hs → Descends b hs
Descends-weaken a b [] l d = tt
Descends-weaken a b (h ∷ hs) l d = (omega (arith, d.0), d.1, d.2)

locator_loop-Descends :
    (left : ℕ) (h : ℤ) (step n : ℕ) → 1 ≤ step → Descends h (locator_loop left h step n)
unfolding locator_loop
locator_loop-Descends zero h step n s = tt
locator_loop-Descends (suc left) h step n s = elim (Bool-cases (ltb_ℤ (pos 0) h)) [
  | inr e ↦ rw (e, locator_loop) tt
  | inl e ↦
      let step' = if ltb 10 (n + 1) then step * 2 else step in
      let wide : 1 ≤ step' = ground arith in
      rw (e, locator_loop)
        (
          omega arith,
          ground arith,
          Descends-weaken (h -ℤ pos step') (h -ℤ pos 1) _
              (omega (arith, -ℤ_parts h (pos step'), -ℤ_parts h (pos 1)))
              (locator_loop-Descends left (h -ℤ pos step') step' (n + 1) wide),
        )
]

length-locator_loop : (left : ℕ) (h : ℤ) (step n : ℕ) → length (locator_loop left h step n) ≤ left
unfolding locator_loop
length-locator_loop zero h step n = omega arith
length-locator_loop (suc left) h step n = elim (Bool-cases (ltb_ℤ (pos 0) h)) [
  | inr e ↦ rw (e, locator_loop) (omega arith)
  | inl e ↦
      rw (e, locator_loop)
        (omega (
          arith,
          length-locator_loop left (h -ℤ pos (if ltb 10 (n + 1) then step * 2 else step))
              (if ltb 10 (n + 1) then step * 2 else step) (n + 1),
        ))
]

abbrev pub heights_of : List (Bytes × ℤ) → List ℤ
heights_of [] = []
heights_of ((hash, h) ∷ locator) = h ∷ heights_of locator

-- How far below the newest entry the entries stand.
abbrev pub offsets : List ℕ
offsets =
    0 ∷ 1 ∷ 2 ∷ 3 ∷ 4 ∷ 5 ∷ 6 ∷ 7 ∷ 8 ∷ 9 ∷ 10 ∷ 12 ∷ 16 ∷ 24 ∷ 40 ∷ 72 ∷ 136 ∷ 264 ∷ 520 ∷ 1032
    ∷ 2056 ∷ 4104 ∷ 8200 ∷ 16392 ∷ []

-- The heights at the offsets, down to the last positive one.
abbrev pub positive_heights : ℤ → List ℕ → List ℤ
positive_heights top [] = []
positive_heights top (o ∷ os) =
    if ltb_ℤ (pos 0) (top -ℤ pos o) then (top -ℤ pos o) ∷ positive_heights top os else []

loop_offsets : ℕ → ℕ → ℕ → ℕ → List ℕ
loop_offsets zero o step n = []
loop_offsets (suc left) o step n =
    let step' = if ltb 10 (n + 1) then step * 2 else step in
    o ∷ loop_offsets left (o + step') step' (n + 1)

further : (top : ℤ) (o step : ℕ) → (top -ℤ pos o) -ℤ pos step ≡ top -ℤ pos (o + step)
further top o step = eq_of_parts _ _ (
    omega (
      arith,
      -ℤ_parts (top -ℤ pos o) (pos step),
      -ℤ_parts top (pos o),
      -ℤ_parts top (pos (o + step)),
    ))

locator_loop-offsets :
    (left : ℕ) (top : ℤ) (o step n : ℕ)
    → locator_loop left (top -ℤ pos o) step n ≡ positive_heights top (loop_offsets left o step n)
unfolding locator_loop loop_offsets
locator_loop-offsets zero top o step n = refl
locator_loop-offsets (suc left) top o step n =
    let step' = if ltb 10 (n + 1) then step * 2 else step in
    ap (λ rest. if ltb_ℤ (pos 0) (top -ℤ pos o) then (top -ℤ pos o) ∷ rest else [])
      (ap (λ h. locator_loop left h step' (n + 1)) (further top o step')
        ∙ locator_loop-offsets left top (o + step') step' (n + 1))

top_minus_zero : (top : ℤ) → top -ℤ pos 0 ≡ top
top_minus_zero top = eq_of_parts _ _ (omega (arith, -ℤ_parts top (pos 0)))

locator_heights-positive_heights :
    (tip : ℤ) → locator_heights tip ≡ positive_heights (tip -ℤ pos 12) offsets
unfolding locator_heights loop_offsets
locator_heights-positive_heights tip =
    ap (λ h. locator_loop 24 h 1 0) (sym (top_minus_zero (tip -ℤ pos 12)))
    ∙ locator_loop-offsets 24 (tip -ℤ pos 12) 0 1 0

-- A locator over the heights: each height whose answer displays a hash has an entry with it, in order,
-- and each other height has none.
pub data Located (reply : ℤ → Option Text) : List ℤ → List (Bytes × ℤ) → Type 0 where
  end : Located reply [] []
  found :
      (h : ℤ) (hash : Bytes) (hs : List ℤ) (locator : List (Bytes × ℤ))
      → Displays (reply h) hash
      → Located reply hs locator
      → Located reply (h ∷ hs) ((hash, h) ∷ locator)
  skipped :
      (h : ℤ) (hs : List ℤ) (locator : List (Bytes × ℤ))
      → ((hash : Bytes) → ¬ Displays (reply h) hash)
      → Located reply hs locator
      → Located reply (h ∷ hs) locator

locate-Located : (reply : ℤ → Option Text) (hs : List ℤ) → Located reply hs (locate reply hs)
unfolding locate
locate-Located reply [] = end
locate-Located reply (h ∷ hs) = elim (block_hash_at-Displays (reply h)) [
  | inl (hash, e, displayed) ↦
      rw (e, locate) (found h hash hs _ displayed (locate-Located reply hs))
  | inr (e, hidden) ↦ rw (e, locate) (skipped h hs _ hidden (locate-Located reply hs))
]

locate-Descends :
    (reply : ℤ → Option Text) (top : ℤ) (hs : List ℤ)
    → Descends top hs
    → Descends top (heights_of (locate reply hs))
unfolding locate
locate-Descends reply top [] d = tt
locate-Descends reply top (h ∷ hs) d = elim (Option-cases (block_hash_at (reply h))) [
  | inl e ↦
      rw (e, locate)
        (Descends-weaken (h -ℤ pos 1) top _ (omega (arith, d.0, -ℤ_parts h (pos 1)))
          (locate-Descends reply (h -ℤ pos 1) hs d.2))
  | inr (hash, e) ↦ rw (e, locate) (d.0, d.1, locate-Descends reply (h -ℤ pos 1) hs d.2)
]

length-locate : (reply : ℤ → Option Text) (hs : List ℤ) → length (locate reply hs) ≤ length hs
unfolding locate
length-locate reply [] = omega arith
length-locate reply (h ∷ hs) = elim (Option-cases (block_hash_at (reply h))) [
  | inl e ↦ rw (e, locate) (omega (arith, length-locate reply hs))
  | inr (hash, e) ↦ rw (e, locate) (omega (arith, length-locate reply hs))
]

-- The heights asked for stand 12 below the tip, then 1 to 10 lower, then 12, 16, 24, 40 and so on lower, the
-- step doubling, 24 heights at most and only down to height 1. Each whose answer displays a hash, in 64
-- digits with its last byte first, has an entry with that hash, in that order; the others have none. So
-- the locator has at most 24 entries, and their heights strictly descend.
pub build_locator-Descends :
    (reply : ℤ → Option Text) (tip : ℤ)
    → Located reply (positive_heights (tip -ℤ pos 12) offsets) (build_locator reply tip)
      × (length (build_locator reply tip) ≤ 24)
      × Descends (tip -ℤ pos 12) (heights_of (build_locator reply tip))
unfolding build_locator locator_heights
build_locator-Descends reply tip = (
  subst (λ hs. Located reply hs (build_locator reply tip)) (locator_heights-positive_heights tip)
      (locate-Located reply (locator_heights tip)),
  omega (
    arith,
    length-locate reply (locator_heights tip),
    length-locator_loop 24 (tip -ℤ pos 12) 1 0,
  ),
  locate-Descends reply _ (locator_heights tip)
      (locator_loop-Descends 24 (tip -ℤ pos 12) 1 0 (omega arith)),
)
