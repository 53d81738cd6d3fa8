-- ===== src/Time/Dates.antt =====
-- Later days have later dates (src/time.rs).
use bip110_crawler.Common.{
  ℕ, zero, suc, ◌+◌, ◌-◌, ◌≤◌, ◌<◌, ◌≡◌, ◌⊎◌, ap, ◌∙◌, subst, inl, inr, if◌then◌else◌, ltb, leb,
  ◌==◌, arith, Bool-cases,
}
use bip110_crawler.Time.{Date, civil}
use bip110_crawler.Time.Calendar.{
  leap_day, days_before, month_length, year_start, ordinal, IsDate, civil-IsDate,
}

-- The days of a year before a month, and those of the month, with `l` leap days.
month_start : ℕ → ℕ → ℕ
month_start l m = days_before m + (if leb 3 m then l else 0)

month_days : ℕ → ℕ → ℕ
month_days l m = month_length m + (if m == 2 then l else 0)

month_next : (l m : ℕ) → 1 ≤ m → m ≤ 11 → month_start l m + month_days l m ≡ month_start l (suc m)
unfolding month_start month_days
month_next l zero h k = absurd (omega arith)
month_next l (suc zero) h k = omega arith
month_next l (suc (suc zero)) h k = omega arith
month_next l (suc (suc (suc zero))) h k = omega arith
month_next l (suc (suc (suc (suc zero)))) h k = omega arith
month_next l (suc (suc (suc (suc (suc zero))))) h k = omega arith
month_next l (suc (suc (suc (suc (suc (suc zero)))))) h k = omega arith
month_next l (suc (suc (suc (suc (suc (suc (suc zero))))))) h k = omega arith
month_next l (suc (suc (suc (suc (suc (suc (suc (suc zero)))))))) h k = omega arith
month_next l (suc (suc (suc (suc (suc (suc (suc (suc (suc zero))))))))) h k = omega arith
month_next l (suc (suc (suc (suc (suc (suc (suc (suc (suc (suc zero)))))))))) h k = omega arith
month_next l (suc (suc (suc (suc (suc (suc (suc (suc (suc (suc (suc zero))))))))))) h k =
    omega arith
month_next l (suc (suc (suc (suc (suc (suc (suc (suc (suc (suc (suc (suc n)))))))))))) h k =
    absurd (omega arith)

month_order :
    (l m k : ℕ) → 1 ≤ m → m < k → k ≤ 12 → month_start l m + month_days l m ≤ month_start l k
month_order l m zero h lt k12 = absurd (omega arith)
month_order l m (suc k) h lt k12 = elim (Bool-cases (ltb m k)) [
  | inl before ↦ omega (
    arith,
    month_order l m k h (ground (arith, before)) (omega arith),
    month_next l k (ground (arith, before)) (omega arith),
  )
  | inr last ↦
      let same : m ≡ k = ground (arith, last) in
      subst (λ x. month_start l m + month_days l m ≤ month_start l (suc x)) same
        (omega (arith, month_next l m h (omega arith)))
]

december : (l : ℕ) → month_start l 12 + month_days l 12 ≡ 365 + l
unfolding month_start month_days
december l = omega arith

year_end : (l m : ℕ) → 1 ≤ m → m ≤ 12 → month_start l m + month_days l m ≤ 365 + l
year_end l m h k = elim (Bool-cases (ltb m 12)) [
  | inl before ↦
      omega (arith, month_order l m 12 h (ground (arith, before)) (omega arith), december l)
  | inr last ↦
      let same : 12 ≡ m = ground (arith, last) in
      subst (λ x. month_start l x + month_days l x ≤ 365 + l) same (omega (arith, december l))
]

ordinal_lem :
    (d : Date) → ordinal d ≡ year_start d.year + month_start (leap_day d.year) d.month + (d.day - 1)
unfolding month_start
ordinal_lem d = omega arith

day_in_month : (d : Date) → IsDate d → (1 ≤ d.day) × (d.day ≤ month_days (leap_day d.year) d.month)
unfolding month_days
day_in_month d i = (i.day_from, i.day_to)

year_next : (y : ℕ) → 1 ≤ y → year_start (y + 1) ≡ year_start y + 365 + leap_day y
year_next y h = ground arith

year_mono : (y z : ℕ) → y ≤ z → year_start y ≤ year_start z
year_mono y z h = omega arith

pub ordinal-lt-year_start : (d : Date) → IsDate d → 1 ≤ d.year → ordinal d < year_start (d.year + 1)
ordinal-lt-year_start d i h = omega (
  arith,
  ordinal_lem d,
  day_in_month d i,
  year_end (leap_day d.year) d.month i.month_from i.month_to,
  year_next d.year h,
)

-- An earlier date.
abbrev pub Before : Date → Date → Type 0
Before d e =
    (d.year < e.year)
    ⊎ ((d.year ≡ e.year) × ((d.month < e.month) ⊎ ((d.month ≡ e.month) × (d.day < e.day))))

Before-ordinal :
    (d e : Date) → IsDate d → IsDate e → 1 ≤ d.year → Before d e → ordinal d < ordinal e
Before-ordinal d e i j h (inl years) =
    omega (
      arith,
      ordinal-lt-year_start d i h,
      year_mono (d.year + 1) e.year (omega arith),
      ordinal_lem e,
    )
Before-ordinal d e i j h (inr (same, inl months)) =
    let start : month_start (leap_day d.year) e.month ≡ month_start (leap_day e.year) e.month =
      ap (λ y. month_start (leap_day y) e.month) same in
    omega (
      arith,
      ordinal_lem d,
      ordinal_lem e,
      start,
      ap year_start same,
      day_in_month d i,
      month_order (leap_day d.year) d.month e.month i.month_from months j.month_to,
    )
Before-ordinal d e i j h (inr (same, inr (also, days))) =
    let start : month_start (leap_day d.year) d.month ≡ month_start (leap_day e.year) e.month =
      ap (λ y. month_start (leap_day y) d.month) same
      ∙ ap (λ m. month_start (leap_day e.year) m) also in
    omega (arith, ordinal_lem d, ordinal_lem e, start, ap year_start same, day_in_month d i, days)

later_or_same :
    (d e : Date)
    → Before d e ⊎ (Before e d ⊎ ((d.year ≡ e.year) × (d.month ≡ e.month) × (d.day ≡ e.day)))
later_or_same d e = ground arith

module _ (days : ℕ) where
  pub year-civil-from : 1000 ≤ (civil days).year
  unfolding civil
  year-civil-from = ground arith

  pub year-civil-to : days < 2932897 → (civil days).year < 10000
  year-civil-to h =
      let (count, date) = civil-IsDate days in
      elim (Bool-cases (ltb (civil days).year 10000)) [
        | inl y ↦ ground (arith, y)
        | inr late ↦ absurd (
            omega (
              arith,
              year_mono 10000 (civil days).year (ground (arith, late)),
              ordinal_lem (civil days),
              count,
            ))
      ]

-- The dates of days are in the order of the days.
pub civil-Before : (m n : ℕ) → m < n → Before (civil m) (civil n)
civil-Before m n h =
    let (count, date) = civil-IsDate m in
    let (count', date') = civil-IsDate n in
    elim (later_or_same (civil m) (civil n)) [
      | inl before ↦ before
      | inr (inl after) ↦ absurd (
          omega (
            arith,
            Before-ordinal (civil n) (civil m) date' date (omega (arith, year-civil-from n)) after,
            count,
            count',
          ))
      | inr (inr (y, mo, d)) ↦
          let same : civil m ≡ civil n = λ i. record { year = y i; month = mo i; day = d i } in
          absurd (omega (arith, ap ordinal same, count, count'))
    ]
