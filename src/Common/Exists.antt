-- ===== src/Common/Exists.antt =====
-- `iter().any(p)`, and a predicate on some element.
use mathlib.Core.Path.{◌≡◌, refl}
use mathlib.Core.Bool.{Bool, true, false, ◌||◌}
use mathlib.Core.List.{List, [], ◌∷◌}
use mathlib.Core.Logic.{inl, inr}
use native.Mathlib.Omega.{arith}
use bip110_crawler.Common.Tests.{Bool-cases}

unfoldable pub any {ℓ} : {A : Type ℓ} → (A → Bool) → List A → Bool
any p [] = false
any p (x ∷ xs) = p x || any p xs

pub data Any {ℓ} {A : Type ℓ} (P : A → Type 0) : List A → Type ℓ where
  first : {x : A} {xs : List A} → P x → Any P (x ∷ xs)
  later : {x : A} {xs : List A} → Any P xs → Any P (x ∷ xs)

pub any→Any {ℓ} :
    {A : Type ℓ} (P : A → Type 0) (p : A → Bool)
    → ((a : A) → p a ≡ true → P a)
    → (xs : List A) → any p xs ≡ true
    → Any P xs
unfolding any
any→Any P p h [] e = absurd (cc)
any→Any P p h (x ∷ xs) e = elim (Bool-cases (p x)) [
  | inl y ↦ first (h x y)
  | inr n ↦ later (any→Any P p h xs (rw n at e))
]

pub Any→any {ℓ} :
    {A : Type ℓ} (P : A → Type 0) (p : A → Bool)
    → ((a : A) → P a → p a ≡ true)
    → {xs : List A} → Any P xs
    → any p xs ≡ true
unfolding any
Any→any P p h (first {x} q) = rw (h x q) refl
Any→any P p h (later {x} {xs} q) = ground (arith, Any→any P p h q)

pub or_assoc : (a b c : Bool) → ((a || b) || c) ≡ (a || (b || c))
or_assoc true b c = refl
or_assoc false b c = refl
