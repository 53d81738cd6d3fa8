-- ===== src/Common/Search.antt =====
-- Where a text is found in a text, and how a text splits at a test.
use Prim.Native.Nat.{ℕ, suc}
use mathlib.Core.Path.{◌≡◌, refl, ap, ◌∙◌, subst}
use mathlib.Core.Bool.{Bool, true, false}
use mathlib.Core.Logic.{inl, inr}
use mathlib.Core.List.{List, [], ◌∷◌, ◌++◌}
use mathlib.Core.Option.{some, some-injective}
use native.Mathlib.Omega.{arith}
use bip110_crawler.Common.Tests.{◌==◌, ==_iff, Bool-cases, Option-cases}
use bip110_crawler.Common.Lists.{length, take, All}
use bip110_crawler.Common.Strings.{
  Text, starts_with, starts_with-append, find, contains, take_while, skip_while,
}

pub starts_with-split : (p s : Text) → starts_with p s ≡ true → (post : Text) × (s ≡ p ++ post)
unfolding starts_with
starts_with-split [] s h = (s, refl)
starts_with-split (c ∷ p) [] h = absurd (cc)
starts_with-split (c ∷ p) (d ∷ s) h =
    let both : ((c == d) ≡ true) × (starts_with p s ≡ true) = ground arith in
    let (post, e) = starts_with-split p s both.1 in (post, rw (e, (==_iff c d).0 both.0) refl)

-- No suffix of `pre ++ rest` that begins in `pre` begins with `p`.
abbrev pub NoEarlier : Text → Text → Text → Type 0
NoEarlier p [] rest = Unit {0}
NoEarlier p (c ∷ pre) rest = (starts_with p ((c ∷ pre) ++ rest) ≡ false) × NoEarlier p pre rest

-- The first occurrence of `p` in `s`, behind `before`.
pub record First (p s : Text) (at : ℕ) : Type 0 where
  pub before : Text
  pub after : Text
  pub splits : s ≡ before ++ (p ++ after)
  pub counts : length before ≡ at
  pub no_earlier : NoEarlier p before (p ++ after)

pub find-First :
    (p before after : Text)
    → NoEarlier p before (p ++ after)
    → find p (before ++ (p ++ after)) ≡ some (length before)
unfolding find
find-First [] [] [] n = unfold starts_with in refl
find-First [] [] (d ∷ after) n = unfold starts_with in refl
find-First (c ∷ p) [] after n = rw (starts_with-append (c ∷ p) after) refl
find-First p (d ∷ before) after n = rw (n.0, find-First p before after n.1, find) refl

pub First-find : (p s : Text) (at : ℕ) → find p s ≡ some at → First p s at
unfolding find
First-find p [] at e = elim (Bool-cases (starts_with p [])) [
  | inl q ↦
      let (post, r) = starts_with-split p [] q in
      record {
        before = [];
        after = post;
        splits = r;
        counts = some-injective _ _ (rw q at e);
        no_earlier = tt;
      }
  | inr q ↦ absurd (cc (rw q at e))
]
First-find p (d ∷ s) at e = elim (Bool-cases (starts_with p (d ∷ s))) [
  | inl q ↦
      let (post, r) = starts_with-split p (d ∷ s) q in
      record {
        before = [];
        after = post;
        splits = r;
        counts = some-injective _ _ (rw q at e);
        no_earlier = tt;
      }
  | inr q ↦ elim (Option-cases (find p s)) [
    | inl none_ ↦ absurd (cc (rw (q, none_, find) at e))
    | inr (i, there) ↦
        let f = First-find p s i there in
        record {
          before = d ∷ f.before;
          after = f.after;
          splits = ap (λ r. d ∷ r) f.splits;
          counts = ap suc f.counts ∙ some-injective _ _ (rw (q, there, find) at e);
          no_earlier = (subst (λ r. starts_with p (d ∷ r) ≡ false) f.splits q, f.no_earlier);
        }
  ]
]

-- A text contains `p` only where `p` stands in its middle.
pub contains-split :
    (p s : Text)
    → contains p s ≡ true
    → (before : Text) × (after : Text) × (s ≡ before ++ (p ++ after))
unfolding contains
contains-split p [] h = let (post, e) = starts_with-split p [] h in ([], post, e)
contains-split p (d ∷ s) h = elim (Bool-cases (starts_with p (d ∷ s))) [
  | inl q ↦ let (post, e) = starts_with-split p (d ∷ s) q in ([], post, e)
  | inr q ↦ let (b, a, e) = contains-split p s (rw q at h) in (d ∷ b, a, ap (λ r. d ∷ r) e)
]

module _ (p : ℕ → Bool) where
  pub skip_while-append :
      (xs : List ℕ) (y : ℕ) (ys : List ℕ)
      → All (λ x. p x ≡ true) xs
      → p y ≡ false
      → skip_while p (xs ++ y ∷ ys) ≡ y ∷ ys
  unfolding skip_while
  skip_while-append [] y ys h e = rw e
  skip_while-append (x ∷ xs) y ys h e = rw (h.0, skip_while-append xs y ys h.1 e)

  pub take_while-skip_while : (xs : List ℕ) → xs ≡ take_while p xs ++ skip_while p xs
  unfolding take_while skip_while
  take_while-skip_while [] = refl
  take_while-skip_while (x ∷ xs) = elim (Bool-cases (p x)) [
    | inl e ↦ rw e (ap (λ r. x ∷ r) (take_while-skip_while xs))
    | inr e ↦ rw e refl
  ]

  pub take_while-All : (xs : List ℕ) → All (λ x. p x ≡ true) (take_while p xs)
  unfolding take_while
  take_while-All [] = tt
  take_while-All (x ∷ xs) = elim (Bool-cases (p x)) [
    | inl e ↦ rw e (e, take_while-All xs)
    | inr e ↦ rw e tt
  ]

  -- The first `length xs` elements of the run are `xs`, if all of them pass.
  pub take-take_while :
      (xs ys : List ℕ) → All (λ x. p x ≡ true) xs → take (length xs) (take_while p (xs ++ ys)) ≡ xs
  unfolding take_while
  take-take_while [] ys h = refl
  take-take_while (x ∷ xs) ys h = rw (h.0, take-take_while xs ys h.1)
