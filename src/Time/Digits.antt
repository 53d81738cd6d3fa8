-- ===== src/Time/Digits.antt =====
-- The fields of a time stamp compare as numbers: each has a fixed width (src/time.rs).
use bip110_crawler.Common.{
  ℕ, suc, ◌+◌, ◌/◌, ◌%◌, ◌≤◌, ◌<◌, ◌≡◌, refl, inl, inr, [], ◌∷◌, ◌++◌, if◌then◌else◌, ltb, ◌==◌,
  ltb→lt, lt→ltb, le→ltb, Text, text_leb, arith, Bool-cases,
}
use bip110_crawler.Time.{digits, padded}

-- The digit of a number below ten.
abbrev pub digit : ℕ → ℕ
digit n = b'0' + n

pub digits-small : (fuel n : ℕ) → n < 10 → digits (suc fuel) n ≡ digit n ∷ []
unfolding digits
digits-small fuel n h = rw (lt→ltb n 10 h) refl

pub digits-step :
    (fuel n : ℕ) → 10 ≤ n → digits (suc fuel) n ≡ digits fuel (n / 10) ++ digit (n % 10) ∷ []
unfolding digits
digits-step fuel n h = rw (le→ltb n 10 h) refl

pub padded_2 : (n : ℕ) → n < 100 → padded 2 n ≡ digit (n / 10) ∷ digit (n % 10) ∷ []
unfolding padded
padded_2 n h = elim (Bool-cases (ltb n 10)) [
  | inl small ↦
      let lt : n < 10 = ltb→lt n 10 small in
      let high : n / 10 ≡ 0 = omega arith in
      let low : n % 10 ≡ n = omega arith in rw (digits-small 19 n lt, high, low) refl
  | inr large ↦
      let ge : 10 ≤ n = ground (arith, large) in
      let high : n / 10 < 10 = omega arith in
      rw (digits-step 19 n ge, digits-small 18 (n / 10) high) refl
]

pub padded_4 :
    (n : ℕ)
    → 1000 ≤ n
    → n < 10000
    → padded 4 n
      ≡ digit (n / 10 / 10 / 10)
        ∷ digit (n / 10 / 10 % 10)
        ∷ digit (n / 10 % 10)
        ∷ digit (n % 10)
        ∷ []
unfolding padded
padded_4 n l h =
    rw
      (
        digits-step 19 n (omega arith),
        digits-step 18 (n / 10) (omega arith),
        digits-step 17 (n / 10 / 10) (omega arith),
        digits-small 16 (n / 10 / 10 / 10) (omega arith),
      )
      refl

text_leb-cons :
    (a b : ℕ) (s t : Text)
    → text_leb (digit a ∷ s) (digit b ∷ t) ≡ (if a == b then text_leb s t else ltb a b)
unfolding text_leb
text_leb-cons a b s t = ground arith

-- Two fields of the same width in front of two texts.
pub text_leb-padded_2 :
    (a b : ℕ) (s t : Text)
    → a < 100
    → b < 100
    → text_leb (padded 2 a ++ s) (padded 2 b ++ t) ≡ (if a == b then text_leb s t else ltb a b)
text_leb-padded_2 a b s t h k =
    rw
      (
        padded_2 a h,
        padded_2 b k,
        text_leb-cons (a / 10) (b / 10) (digit (a % 10) ∷ s) (digit (b % 10) ∷ t),
        text_leb-cons (a % 10) (b % 10) s t,
      )
      (ground arith)

pub text_leb-padded_4 :
    (a b : ℕ) (s t : Text)
    → 1000 ≤ a
    → a < 10000
    → 1000 ≤ b
    → b < 10000
    → text_leb (padded 4 a ++ s) (padded 4 b ++ t) ≡ (if a == b then text_leb s t else ltb a b)
text_leb-padded_4 a b s t la ha lb hb =
    rw
      (
        padded_4 a la ha,
        padded_4 b lb hb,
        text_leb-cons (a / 10 / 10 / 10) (b / 10 / 10 / 10)
            (digit (a / 10 / 10 % 10) ∷ digit (a / 10 % 10) ∷ digit (a % 10) ∷ s)
            (digit (b / 10 / 10 % 10) ∷ digit (b / 10 % 10) ∷ digit (b % 10) ∷ t),
        text_leb-cons (a / 10 / 10 % 10) (b / 10 / 10 % 10)
            (digit (a / 10 % 10) ∷ digit (a % 10) ∷ s) (digit (b / 10 % 10) ∷ digit (b % 10) ∷ t),
        text_leb-cons (a / 10 % 10) (b / 10 % 10) (digit (a % 10) ∷ s) (digit (b % 10) ∷ t),
        text_leb-cons (a % 10) (b % 10) s t,
      )
      (ground arith)
