-- ===== src/Common/Maps.antt =====
-- Maps as lists of entries, of which the first with a key counts, the order of texts, and stable
-- sorting.
use Prim.Native.Nat.{ℕ, suc}
use mathlib.Core.Path.{◌≡◌, refl, ap, ◌∙◌}
use mathlib.Core.Logic.{inl, inr}
use mathlib.Core.Bool.{Bool, true, false, ◌&&◌, ◌||◌}
use mathlib.Core.List.{List, [], ◌∷◌, reverse, reverse-append}
use mathlib.Core.Option.{Option, none, some}
use native.Mathlib.Omega.{arith}
use bip110_crawler.Common.Tests.{ltb, ◌==◌, if◌then◌else◌, Bool-cases}
use bip110_crawler.Common.Sorting.{count, count-append}
use bip110_crawler.Common.Strings.{Text, list_eq, list_eq_refl, list_eq→eq}

module _ {ℓ} {V : Type ℓ} where
  unfoldable pub lookup : Text → List (Text × V) → Option V
  lookup key [] = none
  lookup key ((k, v) ∷ m) = if list_eq k key then some v else lookup key m

  unfoldable pub store : Text → V → List (Text × V) → List (Text × V)
  store key v [] = (key, v) ∷ []
  store key v ((k, w) ∷ m) = if list_eq k key then (k, v) ∷ m else (k, w) ∷ store key v m

-- `entry(key).or_default() += n` on counts.
unfoldable pub count_up : Text → List (Text × ℕ) → List (Text × ℕ)
count_up key [] = (key, 1) ∷ []
count_up key ((k, n) ∷ m) = if list_eq k key then (k, suc n) ∷ m else (k, n) ∷ count_up key m

-- The order of texts by their code points, which is that of their UTF-8 bytes.
unfoldable pub text_leb : Text → Text → Bool
text_leb [] t = true
text_leb (c ∷ s) [] = false
text_leb (c ∷ s) (d ∷ t) = ltb c d || (c == d) && text_leb s t

pub list_eq-differ : (a b c : Text) → list_eq a b ≡ true → list_eq a c ≡ false → list_eq b c ≡ false
list_eq-differ a b c e o = elim (Bool-cases (list_eq b c)) [
  | inl q ↦ absurd (cc (o, list_eq_refl a, list_eq→eq a b e ∙ list_eq→eq b c q))
  | inr q ↦ q
]

pub list_eq_comm : (a b : Text) → list_eq a b ≡ list_eq b a
unfolding list_eq
list_eq_comm [] [] = refl
list_eq_comm [] (d ∷ b) = refl
list_eq_comm (c ∷ a) [] = refl
list_eq_comm (c ∷ a) (d ∷ b) = ground (arith, list_eq_comm a b)

module _ {ℓ} {A : Type ℓ} where
  unfoldable pub filter : (A → Bool) → List A → List A
  filter p [] = []
  filter p (x ∷ xs) = if p x then x ∷ filter p xs else filter p xs

  unfoldable pub insert_with : (A → A → Bool) → A → List A → List A
  insert_with le x [] = x ∷ []
  insert_with le x (y ∷ ys) = if le x y then x ∷ y ∷ ys else y ∷ insert_with le x ys

  -- `sort_by`, which keeps the order of elements that compare as equal.
  unfoldable pub sort_with : (A → A → Bool) → List A → List A
  unfolding insert_with
  sort_with le [] = []
  sort_with le (x ∷ xs) = insert_with le x (sort_with le xs)

-- Sorting and reversing keep how often each kind of element stands in the list.
module _ {ℓ} {A : Type ℓ} (p : A → Bool) (le : A → A → Bool) where
  count-insert_with : (x : A) (ys : List A) → count p (insert_with le x ys) ≡ count p (x ∷ ys)
  unfolding count insert_with
  count-insert_with x [] = refl
  count-insert_with x (y ∷ ys) = elim (Bool-cases (le x y)) [
    | inl e ↦ rw (e, insert_with) refl
    | inr e ↦ rw (e, insert_with) (omega (arith, count-insert_with x ys))
  ]

  pub count-sort_with : (xs : List A) → count p (sort_with le xs) ≡ count p xs
  unfolding count sort_with
  count-sort_with [] = refl
  count-sort_with (x ∷ xs) =
      count-insert_with x (sort_with le xs) ∙ omega (arith, count-sort_with xs)

pub count-reverse {ℓ} :
    {A : Type ℓ} (p : A → Bool) (xs : List A) → count p (reverse xs) ≡ count p xs
unfolding count
count-reverse p [] = refl
count-reverse p (x ∷ xs) =
    ap (count p) (reverse-append (x ∷ []) xs)
    ∙ omega (arith, count-append p (reverse xs) (x ∷ []), count-reverse p xs)
