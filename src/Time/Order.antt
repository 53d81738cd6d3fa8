-- ===== src/Time/Order.antt =====
-- Time stamps compare as texts the way their times compare (src/time.rs).
use bip110_crawler.Common.{
  ℕ, ◌/◌, ◌%◌, ◌≤◌, ◌<◌, ◌≡◌, refl, ap, ◌∙◌, sym, inl, inr, Bool, true, false, ◌∷◌, ◌++◌,
  if◌then◌else◌, ltb, leb, ◌==◌, ==_refl, ltb→lt, lt→leb, le→leb, Text, codes, text_leb, arith,
  Bool-cases,
}
use bip110_crawler.Time.{Date, civil, padded, iso_from_unix}
use bip110_crawler.Time.Digits.{text_leb-padded_2, text_leb-padded_4}
use bip110_crawler.Time.Calendar.{civil-IsDate}
use bip110_crawler.Time.Dates.{Before, civil-Before, year-civil-from, year-civil-to}

-- What the texts of two stamps compare, field by field.
pick : ℕ → ℕ → Bool → Bool
pick a b rest = if a == b then rest else ltb a b

date_leb : Date → Date → Bool → Bool
date_leb d e rest = pick d.year e.year (pick d.month e.month (pick d.day e.day rest))

time_leb : ℕ → ℕ → Bool
time_leb r q =
    pick (r / 3600) (q / 3600) (pick (r % 3600 / 60) (q % 3600 / 60) (pick (r % 60) (q % 60) true))

time_leb-leb : (r q : ℕ) → time_leb r q ≡ leb r q
unfolding time_leb pick
time_leb-leb r q = ground arith

date_leb-Before : (d e : Date) (rest : Bool) → Before d e → date_leb d e rest ≡ true
unfolding date_leb pick
date_leb-Before d e rest h = ground (arith, h)

date_leb-After : (d e : Date) (rest : Bool) → Before e d → date_leb d e rest ≡ false
unfolding date_leb pick
date_leb-After d e rest h = ground (arith, h)

date_leb-same : (d : Date) (rest : Bool) → date_leb d d rest ≡ rest
unfolding date_leb pick
date_leb-same d rest = rw (==_refl d.year, ==_refl d.month, ==_refl d.day) refl

day-civil : (days : ℕ) → (civil days).day ≤ 31
unfolding civil
day-civil days = omega arith

text_leb-same : (c : ℕ) (s t : Text) → text_leb (c ∷ s) (c ∷ t) ≡ text_leb s t
unfolding text_leb
text_leb-same c s t = ground arith

text_leb-time :
    (r q : ℕ)
    → r < 86400
    → q < 86400
    → text_leb
        (padded 2 (r / 3600)
          ++ (codes ":"
              ++ (padded 2 (r % 3600 / 60) ++ (codes ":" ++ (padded 2 (r % 60) ++ codes "Z")))))
        (padded 2 (q / 3600)
          ++ (codes ":"
              ++ (padded 2 (q % 3600 / 60) ++ (codes ":" ++ (padded 2 (q % 60) ++ codes "Z")))))
      ≡ time_leb r q
unfolding time_leb pick
text_leb-time r q h k =
    let sec = λ (x : ℕ). padded 2 (x % 60) ++ codes "Z" in
    let min = λ (x : ℕ). padded 2 (x % 3600 / 60) ++ (codes ":" ++ sec x) in
    rw
      (
        text_leb-padded_2 (r / 3600) (q / 3600) (codes ":" ++ min r) (codes ":" ++ min q)
            (omega arith) (omega arith),
        text_leb-same b':' (min r) (min q),
        text_leb-padded_2 (r % 3600 / 60) (q % 3600 / 60) (codes ":" ++ sec r) (codes ":" ++ sec q)
            (omega arith) (omega arith),
        text_leb-same b':' (sec r) (sec q),
        text_leb-padded_2 (r % 60) (q % 60) (codes "Z") (codes "Z") (omega arith) (omega arith),
      )
      (unfold text_leb in refl)

module _ (m n : ℕ) (h : m < 2932897) (k : n < 2932897) (s t : Text) where
  text_leb-date :
      text_leb
        (padded 4 (civil m).year
          ++ (codes "-"
              ++ (padded 2 (civil m).month ++ (codes "-" ++ (padded 2 (civil m).day ++ s)))))
        (padded 4 (civil n).year
          ++ (codes "-"
              ++ (padded 2 (civil n).month ++ (codes "-" ++ (padded 2 (civil n).day ++ t)))))
      ≡ date_leb (civil m) (civil n) (text_leb s t)
  unfolding date_leb pick
  text_leb-date =
      let (_, im) = civil-IsDate m in
      let (_, jn) = civil-IsDate n in
      let day = λ (d : Date) (x : Text). padded 2 d.day ++ x in
      let month = λ (d : Date) (x : Text). padded 2 d.month ++ (codes "-" ++ day d x) in
      rw
        (
          text_leb-padded_4 (civil m).year (civil n).year (codes "-" ++ month (civil m) s)
              (codes "-" ++ month (civil n) t) (year-civil-from m) (year-civil-to m h)
              (year-civil-from n) (year-civil-to n k),
          text_leb-same b'-' (month (civil m) s) (month (civil n) t),
          text_leb-padded_2 (civil m).month (civil n).month (codes "-" ++ day (civil m) s)
              (codes "-" ++ day (civil n) t) (omega (arith, im.month_to))
              (omega (arith, jn.month_to)),
          text_leb-same b'-' (day (civil m) s) (day (civil n) t),
          text_leb-padded_2 (civil m).day (civil n).day s t (omega (arith, day-civil m))
              (omega (arith, day-civil n)),
        )
        refl

-- 253,402,300,800 is the first second of the year 10,000.
abbrev pub year_10000 : ℕ
year_10000 = 253402300800

date_leb-leb :
    (a b : ℕ)
    → date_leb (civil (a / 86400)) (civil (b / 86400)) (leb (a % 86400) (b % 86400)) ≡ leb a b
date_leb-leb a b =
    let m = a / 86400 in
    let n = b / 86400 in
    let rest = leb (a % 86400) (b % 86400) in
    elim (Bool-cases (ltb m n)) [
      | inl before ↦
          date_leb-Before (civil m) (civil n) rest (civil-Before m n (ltb→lt m n before))
          ∙ sym (le→leb a b (ground (arith, before)))
      | inr not_before ↦ elim (Bool-cases (ltb n m)) [
        | inl after ↦
            date_leb-After (civil m) (civil n) rest (civil-Before n m (ltb→lt n m after))
            ∙ sym (lt→leb a b (ground (arith, after)))
        | inr not_after ↦
            let same : m ≡ n = ground (arith, not_before, not_after) in
            ap (λ x. date_leb (civil m) (civil x) rest) (sym same)
            ∙ date_leb-same (civil m) rest
            ∙ ground (arith, same)
      ]
    ]

-- Until the year 10,000, the text of one stamp is at most that of another, byte by byte, exactly when
-- its time is: what the freshness cutoffs of the SQL queries rely on.
pub iso_from_unix-order :
    (a b : ℕ)
    → a < year_10000
    → b < year_10000
    → text_leb (iso_from_unix a) (iso_from_unix b) ≡ leb a b
unfolding iso_from_unix
iso_from_unix-order a b h k =
    let time = λ (r : ℕ).
      padded 2 (r / 3600)
      ++ (codes ":"
          ++ (padded 2 (r % 3600 / 60) ++ (codes ":" ++ (padded 2 (r % 60) ++ codes "Z")))) in
    text_leb-date (a / 86400) (b / 86400) (omega arith) (omega arith)
      (codes "T" ++ time (a % 86400)) (codes "T" ++ time (b % 86400))
    ∙ ap (date_leb (civil (a / 86400)) (civil (b / 86400))) (
        text_leb-same b'T' (time (a % 86400)) (time (b % 86400))
        ∙ text_leb-time (a % 86400) (b % 86400) (omega arith) (omega arith)
        ∙ time_leb-leb (a % 86400) (b % 86400))
    ∙ date_leb-leb a b
