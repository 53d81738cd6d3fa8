-- ===== src/Common/Strings.antt =====
-- Texts as lists of code points, and comparisons of lists of numbers.
use Prim.Native.Nat.{ℕ, suc, ◌+◌, ◌-◌, ◌*◌}
use Prim.Native.Char.{code}
use Prim.Native.String.{String}
use mathlib.Core.Path.{◌≡◌, refl}
use mathlib.Core.Bool.{Bool, true, false, ◌&&◌, ◌||◌}
use mathlib.Core.List.{List, [], ◌∷◌, ◌++◌, reverse}
use mathlib.Core.Option.{Option, none, some}
use native.Mathlib.Omega.{arith}
use bip110_crawler.Common.Tests.{◌==◌, ==_refl, if◌then◌else◌, leb, ltb}
use bip110_crawler.Common.Lists.{All}

abbrev pub Text : Type 0
Text = List ℕ

-- The code points of a literal.
abbrev pub codes : String → Text
codes String.[] = []
codes (String.◌∷◌ c s) = code c ∷ codes s

-- `==` on texts and byte slices.
unfoldable pub list_eq : List ℕ → List ℕ → Bool
list_eq [] [] = true
list_eq (x ∷ xs) (y ∷ ys) = (x == y) && list_eq xs ys
list_eq _ _ = false

pub list_eq_refl : (xs : List ℕ) → list_eq xs xs ≡ true
unfolding list_eq
list_eq_refl [] = refl
list_eq_refl (x ∷ xs) = rw (==_refl x) (list_eq_refl xs)

pub list_eq→eq : (xs ys : List ℕ) → list_eq xs ys ≡ true → xs ≡ ys
unfolding list_eq
list_eq→eq [] [] h = refl
list_eq→eq [] (y ∷ ys) h = cc
list_eq→eq (x ∷ xs) [] h = cc
list_eq→eq (x ∷ xs) (y ∷ ys) h = ground (arith, list_eq→eq xs ys)

-- `take_while` and `skip_while`.
unfoldable pub take_while : (ℕ → Bool) → List ℕ → List ℕ
take_while p [] = []
take_while p (x ∷ xs) = if p x then x ∷ take_while p xs else []

unfoldable pub skip_while : (ℕ → Bool) → List ℕ → List ℕ
skip_while p [] = []
skip_while p (x ∷ xs) = if p x then skip_while p xs else x ∷ xs

pub take_while-append :
    (p : ℕ → Bool) (xs : List ℕ) (y : ℕ) (ys : List ℕ)
    → All (λ x. p x ≡ true) xs
    → p y ≡ false
    → take_while p (xs ++ y ∷ ys) ≡ xs
unfolding take_while
take_while-append p [] y ys h e = rw e
take_while-append p (x ∷ xs) y ys h e = rw (h.0, take_while-append p xs y ys h.1 e)

pub take_while-all : (p : ℕ → Bool) (xs : List ℕ) → All (λ x. p x ≡ true) xs → take_while p xs ≡ xs
unfolding take_while
take_while-all p [] h = refl
take_while-all p (x ∷ xs) h = rw (h.0, take_while-all p xs h.1)

-- `starts_with`, `contains` and `find` for a text in a text.
unfoldable pub starts_with : Text → Text → Bool
starts_with [] s = true
starts_with (c ∷ p) [] = false
starts_with (c ∷ p) (d ∷ s) = (c == d) && starts_with p s

unfoldable pub ends_with : Text → Text → Bool
unfolding starts_with
ends_with suffix s = starts_with (reverse suffix) (reverse s)

unfoldable pub find : Text → Text → Option ℕ
find p [] = if starts_with p [] then some 0 else none
find p (d ∷ s) =
    if starts_with p (d ∷ s)
    then some 0
    else elim (find p s) [ none ↦ none | some i ↦ some (suc i) ]

unfoldable pub contains : Text → Text → Bool
contains p [] = starts_with p []
contains p (d ∷ s) = starts_with p (d ∷ s) || contains p s

pub starts_with-append : (p s : Text) → starts_with p (p ++ s) ≡ true
unfolding starts_with
starts_with-append [] s = refl
starts_with-append (c ∷ p) s = rw (==_refl c) (starts_with-append p s)

-- A text contains whatever stands in its middle.
pub contains-middle : (pre p s : Text) → contains p (pre ++ p ++ s) ≡ true
unfolding contains
contains-middle [] [] [] = unfold starts_with in refl
contains-middle [] [] (d ∷ s) = unfold starts_with in refl
contains-middle [] (c ∷ p) s = rw (starts_with-append (c ∷ p) s)
contains-middle (d ∷ pre) p s = ground (arith, contains-middle pre p s)

-- `str::trim`, over the Unicode property White_Space.
unfoldable pub is_whitespace : ℕ → Bool
is_whitespace c =
    leb 9 c && leb c 13
    || c == 32
    || c == 0x85
    || c == 0xA0
    || c == 0x1680
    || leb 0x2000 c && leb c 0x200A
    || c == 0x2028
    || c == 0x2029
    || c == 0x202F
    || c == 0x205F
    || c == 0x3000

unfoldable pub trim : Text → Text
unfolding is_whitespace
trim s = reverse (skip_while is_whitespace (reverse (skip_while is_whitespace s)))

unfoldable pub is_ascii_digit : ℕ → Bool
is_ascii_digit c = leb b'0' c && leb c b'9'

-- `str::to_lowercase`: A to Z is written out, and what Unicode makes of a character beyond ASCII is
-- a table of the standard library, given as `lower_other` (the rule for a final sigma aside).
unfoldable pub to_lowercase : (ℕ → Text) → Text → Text
to_lowercase lower_other [] = []
to_lowercase lower_other (c ∷ s) =
    (if leb b'A' c && leb c b'Z'
      then (c + 32) ∷ []
      else if ltb c 128
      then c ∷ []
      else lower_other c)
    ++ to_lowercase lower_other s

-- The number that a text of decimal digits spells.
unfoldable pub decimal : ℕ → Text → ℕ
decimal acc [] = acc
decimal acc (c ∷ s) = decimal (acc * 10 + (c - b'0')) s
