-- ===== src/Common/Slices.antt =====
-- `data.get(pos..end)` on a byte slice, and what a cursor sees of it.
use Prim.Native.Nat.{ℕ, ◌+◌, ◌-◌, ◌≤◌, ◌<◌}
use mathlib.Core.Path.{◌≡◌, refl, sym, ap, ◌∙◌, subst}
use mathlib.Core.Bool.{◌&&◌}
use mathlib.Core.Logic.{inl, inr}
use mathlib.Core.List.{List, [], ◌∷◌, ◌++◌, append_assoc}
use mathlib.Core.Option.{Option, none, some, some-injective}
use native.Mathlib.Omega.{arith}
use bip110_crawler.Common.Tests.{leb, le→leb, lt→leb, leb→le, Bool-cases, if◌then◌else◌}
use bip110_crawler.Common.Lists.{
  length, get_elem?, take, drop, length-append, take-append, drop-append, length-take, length-drop,
  All, All-take, All-drop,
}

-- `none` where the end lies past the slice or before the start.
unfoldable pub slice {ℓ} : {A : Type ℓ} → List A → ℕ → ℕ → Option (List A)
slice data_ s e =
    if leb s e && leb e (length data_) then some (take (e - s) (drop s data_)) else none

-- A cursor at `pos` in `whole` still has `rest` before it.
pub record At {ℓ} {A : Type ℓ} (whole : List A) (pos : ℕ) (rest : List A) : Type ℓ where
  pub before : List A
  pub splits : whole ≡ before ++ rest
  pub counts : length before ≡ pos

module _ {ℓ} {A : Type ℓ} where
  pub At-start : (whole : List A) → At whole 0 whole
  At-start whole = record { before = []; splits = refl; counts = refl }

  pub At-next :
      {whole : List A} {pos : ℕ} (xs rest : List A)
      → At whole pos (xs ++ rest)
      → At whole (pos + length xs) rest
  At-next xs rest h = record {
    before = h.before ++ xs;
    splits = h.splits ∙ sym (append_assoc h.before xs rest);
    counts = length-append h.before xs ∙ ap (λ (n : ℕ). n + length xs) h.counts;
  }

  get_elem?-middle :
      (pre : List A) (x : A) (rest : List A) → get_elem? (pre ++ x ∷ rest) (length pre) ≡ some x
  get_elem?-middle [] x rest = refl
  get_elem?-middle (y ∷ pre) x rest = get_elem?-middle pre x rest

  pub get_elem?-At :
      {whole : List A} {pos : ℕ} {x : A} {rest : List A}
      → At whole pos (x ∷ rest)
      → get_elem? whole pos ≡ some x
  get_elem?-At {x} {rest} h = rw (h.splits, ← h.counts) (get_elem?-middle h.before x rest)

  slice-middle :
      (pre xs rest : List A)
      → slice (pre ++ (xs ++ rest)) (length pre) (length pre + length xs) ≡ some xs
  unfolding slice
  slice-middle pre xs rest =
      let fits : length pre + length xs ≤ length (pre ++ (xs ++ rest)) =
        omega (arith, length-append pre (xs ++ rest), length-append xs rest) in
      let width : length pre + length xs - length pre ≡ length xs = omega arith in
      rw (le→leb (length pre) (length pre + length xs) (omega arith), le→leb _ _ fits, width)
        (rw (drop-append pre (xs ++ rest), take-append xs rest) refl)

  pub slice-At :
      {whole : List A} {pos : ℕ} (xs rest : List A)
      → At whole pos (xs ++ rest)
      → slice whole pos (pos + length xs) ≡ some xs
  slice-At xs rest h = rw (h.splits, ← h.counts) (slice-middle h.before xs rest)

-- A slice that is found lies inside the list, has the width asked for, and holds its elements.
pub slice-found {ℓ κ} :
    {A : Type ℓ} (P : A → Type κ) (xs : List A) (s e : ℕ) (out : List A)
    → slice xs s e ≡ some out
    → All P xs
    → (s ≤ e) × (e ≤ length xs) × (length out ≡ e - s) × All P out
unfolding slice
slice-found P xs s e out q h = elim (Bool-cases (leb s e)) [
  | inr a ↦ absurd (cc (rw a at q))
  | inl a ↦ elim (Bool-cases (leb e (length xs))) [
    | inr b ↦ absurd (cc (rw (a, b) at q))
    | inl b ↦
        let got : take (e - s) (drop s xs) ≡ out = some-injective _ _ (rw (a, b) at q) in
        (
          leb→le s e a,
          leb→le e (length xs) b,
          rw (← got) (
              omega (
                arith,
                length-take (e - s) (drop s xs),
                length-drop s xs,
                leb→le s e a,
                leb→le e (length xs) b,
              )),
          subst (All P) got (All-take P (e - s) (drop s xs) (All-drop P s xs h)),
        )
  ]
]

-- A slice that wants more than what is left is not there.
pub slice_short {ℓ} :
    {A : Type ℓ} {whole : List A} {pos : ℕ} (n : ℕ) (rest : List A)
    → At whole pos rest
    → length rest < n
    → slice whole pos (pos + n) ≡ none
unfolding slice
slice_short {whole} {pos} n rest h short =
    rw (le→leb pos (pos + n) (omega arith), lt→leb (pos + n) (length whole) past) refl
  where
    past : length whole < pos + n
    past = omega (arith, length-append h.before rest, ap length h.splits, h.counts)
