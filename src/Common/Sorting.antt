-- ===== src/Common/Sorting.antt =====
-- Counting, and the slice sorts of the standard library as insertion sort: the elements are
-- numbers, of which equal ones cannot be told apart, so every sort gives the same list.
use Prim.Native.Nat.{ℕ, zero, suc, ◌+◌, ◌≤◌, ◌<◌}
use mathlib.Core.Path.{◌≡◌, refl, ◌∙◌, subst}
use mathlib.Core.Bool.{Bool, true, false}
use mathlib.Core.List.{List, [], ◌∷◌, ◌++◌}
use mathlib.Core.Option.{some, some-injective}
use mathlib.Core.Logic.{inl, inr}
use native.Mathlib.Omega.{arith}
use bip110_crawler.Common.Tests.{if◌then◌else◌, leb, ltb, Bool-cases}
use bip110_crawler.Common.Lists.{All, length, get_elem?}

-- `iter().filter(p).count()`
unfoldable pub count {ℓ} : {A : Type ℓ} → (A → Bool) → List A → ℕ
count p [] = 0
count p (x ∷ xs) = (if p x then 1 else 0) + count p xs

pub count-append {ℓ} :
    {A : Type ℓ} (p : A → Bool) (xs ys : List A) → count p (xs ++ ys) ≡ count p xs + count p ys
unfolding count
count-append p [] ys = omega arith
count-append p (x ∷ xs) ys = omega (arith, count-append p xs ys)

insert_by : (ℕ → ℕ → Bool) → ℕ → List ℕ → List ℕ
insert_by le x [] = x ∷ []
insert_by le x (y ∷ ys) = if le x y then x ∷ y ∷ ys else y ∷ insert_by le x ys

unfoldable pub sort_by : (ℕ → ℕ → Bool) → List ℕ → List ℕ
unfolding insert_by
sort_by le [] = []
sort_by le (x ∷ xs) = insert_by le x (sort_by le xs)

count-insert_by :
    (p : ℕ → Bool) (le : ℕ → ℕ → Bool) (x : ℕ) (ys : List ℕ)
    → count p (insert_by le x ys) ≡ count p (x ∷ ys)
unfolding count insert_by
count-insert_by p le x [] = refl
count-insert_by p le x (y ∷ ys) = elim (Bool-cases (le x y)) [
  | inl e ↦ rw (e, insert_by) refl
  | inr e ↦ rw (e, insert_by) (omega (arith, count-insert_by p le x ys))
]

-- A sort keeps how often each kind of element stands in the list.
pub count-sort_by :
    (p : ℕ → Bool) (le : ℕ → ℕ → Bool) (xs : List ℕ) → count p (sort_by le xs) ≡ count p xs
unfolding count sort_by
count-sort_by p le [] = refl
count-sort_by p le (x ∷ xs) =
    count-insert_by p le x (sort_by le xs) ∙ omega (arith, count-sort_by p le xs)

length-insert_by :
    (le : ℕ → ℕ → Bool) (x : ℕ) (ys : List ℕ) → length (insert_by le x ys) ≡ suc (length ys)
unfolding insert_by
length-insert_by le x [] = refl
length-insert_by le x (y ∷ ys) = ground (arith, length-insert_by le x ys)

pub length-sort_by : (le : ℕ → ℕ → Bool) (xs : List ℕ) → length (sort_by le xs) ≡ length xs
unfolding sort_by
length-sort_by le [] = refl
length-sort_by le (x ∷ xs) =
    omega (arith, length-insert_by le x (sort_by le xs), length-sort_by le xs)

abbrev pub Sorted : (ℕ → ℕ → Bool) → List ℕ → Type 0
Sorted le [] = Unit
Sorted le (x ∷ xs) = All (λ y. le x y ≡ true) xs × Sorted le xs

module _ (le : ℕ → ℕ → Bool) (total : (a b : ℕ) → le a b ≡ false → le b a ≡ true)
    (le_trans : (a b c : ℕ) → le a b ≡ true → le b c ≡ true → le a c ≡ true) where
  below-insert_by :
      (z x : ℕ) (ys : List ℕ)
      → le z x ≡ true
      → All (λ y. le z y ≡ true) ys
      → All (λ y. le z y ≡ true) (insert_by le x ys)
  unfolding insert_by
  below-insert_by z x [] e a = (e, tt)
  below-insert_by z x (y ∷ ys) e a = elim (Bool-cases (le x y)) [
    | inl h ↦ rw (h, insert_by) (e, a)
    | inr h ↦ rw (h, insert_by) (a.0, below-insert_by z x ys e a.1)
  ]

  below_trans :
      (x y : ℕ) (ys : List ℕ)
      → le x y ≡ true
      → All (λ z. le y z ≡ true) ys
      → All (λ z. le x z ≡ true) ys
  below_trans x y [] e a = tt
  below_trans x y (z ∷ ys) e a = (le_trans x y z e a.0, below_trans x y ys e a.1)

  insert_by-Sorted : (x : ℕ) (ys : List ℕ) → Sorted le ys → Sorted le (insert_by le x ys)
  unfolding insert_by
  insert_by-Sorted x [] s = (tt, tt)
  insert_by-Sorted x (y ∷ ys) s = elim (Bool-cases (le x y)) [
    | inl h ↦ rw (h, insert_by) ((h, below_trans x y ys h s.0), s)
    | inr h ↦
        rw (h, insert_by) (below-insert_by y x ys (total x y h) s.0, insert_by-Sorted x ys s.1)
  ]

  pub sort_by-Sorted : (xs : List ℕ) → Sorted le (sort_by le xs)
  unfolding sort_by
  sort_by-Sorted [] = tt
  sort_by-Sorted (x ∷ xs) = insert_by-Sorted x (sort_by le xs) (sort_by-Sorted xs)

-- `sort_unstable` on numbers, and the same in descending order.
abbrev pub sort_unstable : List ℕ → List ℕ
sort_unstable xs = sort_by leb xs

abbrev pub geb : ℕ → ℕ → Bool
geb a b = leb b a

abbrev pub sort_descending : List ℕ → List ℕ
sort_descending xs = sort_by geb xs

pub sort_unstable-Sorted : (xs : List ℕ) → Sorted leb (sort_unstable xs)
sort_unstable-Sorted = sort_by-Sorted leb (λ a b h. ground arith) (λ a b c h k. ground arith)

pub sort_descending-Sorted : (xs : List ℕ) → Sorted geb (sort_descending xs)
sort_descending-Sorted = sort_by-Sorted geb (λ a b h. ground arith) (λ a b c h k. ground arith)

count-none : (m : ℕ) (xs : List ℕ) → All (λ y. leb m y ≡ true) xs → count (λ y. ltb y m) xs ≡ 0
unfolding count
count-none m [] a = refl
count-none m (x ∷ xs) a = ground (arith, count-none m xs a.1, a.0)

All-get : (P : ℕ → Type 0) (xs : List ℕ) (i m : ℕ) → All P xs → get_elem? xs i ≡ some m → P m
All-get P [] i m a e = absurd (cc)
All-get P (x ∷ xs) zero m a e = subst P (some-injective _ _ e) a.0
All-get P (x ∷ xs) (suc i) m a e = All-get P xs i m a.1 e

-- In an ascending list, at most `i` entries lie below the entry at `i`, and more than `i` do not lie
-- above it.
pub Sorted-rank :
    (xs : List ℕ) (i m : ℕ)
    → Sorted leb xs
    → get_elem? xs i ≡ some m
    → (count (λ y. ltb y m) xs ≤ i) × (i < count (λ y. leb y m) xs)
unfolding count
Sorted-rank [] i m s e = absurd (cc)
Sorted-rank (x ∷ xs) zero m s e =
    let q : x ≡ m = some-injective _ _ e in
    subst (λ n. (count (λ y. ltb y n) (x ∷ xs) ≤ 0) × (0 < count (λ y. leb y n) (x ∷ xs))) q
      (ground (arith, count-none x xs s.0))
Sorted-rank (x ∷ xs) (suc i) m s e =
    let (l, u) = Sorted-rank xs i m s.1 e in
    ground (arith, All-get (λ y. leb x y ≡ true) xs i m s.0 e)
