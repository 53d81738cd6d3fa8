-- ===== src/Time/Calendar.antt =====
-- The civil date is the one that the Gregorian calendar counts (src/time.rs).
use bip110_crawler.Common.{
  ℕ, zero, suc, ◌+◌, ◌-◌, ◌*◌, ◌/◌, ◌%◌, ◌≤◌, ◌<◌, ◌≡◌, refl, subst, Bool, true, false, not, ◌&&◌,
  ◌||◌, [], ◌∷◌, if◌then◌else◌, ltb, leb, ◌==◌, get_or, Bool-cases, inl, inr, arith,
}
use bip110_crawler.Time.{year_of_era, day_of_year, Date, civil}

-- The calendar: leap years, the days of the months, and the days before them.
abbrev pub is_leap : ℕ → Bool
is_leap y = y % 4 == 0 && not (y % 100 == 0) || y % 400 == 0

abbrev pub leap_day : ℕ → ℕ
leap_day y = if is_leap y then 1 else 0

abbrev pub days_before : ℕ → ℕ
days_before m =
    get_or (0 ∷ 0 ∷ 31 ∷ 59 ∷ 90 ∷ 120 ∷ 151 ∷ 181 ∷ 212 ∷ 243 ∷ 273 ∷ 304 ∷ 334 ∷ []) m 0

abbrev pub month_length : ℕ → ℕ
month_length m = get_or (0 ∷ 31 ∷ 28 ∷ 31 ∷ 30 ∷ 31 ∷ 30 ∷ 31 ∷ 31 ∷ 30 ∷ 31 ∷ 30 ∷ 31 ∷ []) m 0

-- The days from 1 January of the year 1 to a date.
abbrev pub year_start : ℕ → ℕ
year_start y = 365 * (y - 1) + (y - 1) / 4 - (y - 1) / 100 + (y - 1) / 400

abbrev pub ordinal : Date → ℕ
ordinal d =
    year_start d.year
    + days_before d.month
    + (if leb 3 d.month then leap_day d.year else 0)
    + (d.day - 1)

-- A day of the calendar.
pub record IsDate (d : Date) : Type 0 where
  pub month_from : 1 ≤ d.month
  pub month_to : d.month ≤ 12
  pub day_from : 1 ≤ d.day
  pub day_to : d.day ≤ month_length d.month + (if d.month == 2 then leap_day d.year else 0)

year_low :
    (doe : ℕ)
    → doe < 146097
    → 365 * year_of_era doe + year_of_era doe / 4 - year_of_era doe / 100 ≤ doe
unfolding year_of_era
year_low doe h = omega arith

year_high :
    (doe : ℕ)
    → doe < 146097
    → doe
      < 365 * (year_of_era doe + 1)
        + (year_of_era doe + 1) / 4
        - (year_of_era doe + 1) / 100
        + (year_of_era doe + 1) / 400
unfolding year_of_era
year_high doe h = omega arith

year_bound : (doe : ℕ) → doe < 146097 → year_of_era doe < 400
unfolding year_of_era
year_bound doe h = omega arith

-- The months from March on, as the source counts them.
march_on :
    (mp : ℕ)
    → mp < 10
    → (days_before (mp + 3) ≡ 59 + (153 * mp + 2) / 5)
      × ((153 * mp + 2) / 5 + month_length (mp + 3) ≡ (153 * (mp + 1) + 2) / 5)
march_on zero h = (refl, refl)
march_on (suc zero) h = (refl, refl)
march_on (suc (suc zero)) h = (refl, refl)
march_on (suc (suc (suc zero))) h = (refl, refl)
march_on (suc (suc (suc (suc zero)))) h = (refl, refl)
march_on (suc (suc (suc (suc (suc zero))))) h = (refl, refl)
march_on (suc (suc (suc (suc (suc (suc zero)))))) h = (refl, refl)
march_on (suc (suc (suc (suc (suc (suc (suc zero))))))) h = (refl, refl)
march_on (suc (suc (suc (suc (suc (suc (suc (suc zero)))))))) h = (refl, refl)
march_on (suc (suc (suc (suc (suc (suc (suc (suc (suc zero))))))))) h = (refl, refl)
march_on (suc (suc (suc (suc (suc (suc (suc (suc (suc (suc n)))))))))) h = absurd (omega arith)

module _ (doe era : ℕ) (h : doe < 146097) (late : 1 ≤ era) where
  abbrev yoe : ℕ
  yoe = year_of_era doe

  abbrev doy : ℕ
  doy = day_of_year doe

  doy_lem : doy + (365 * yoe + yoe / 4 - yoe / 100) ≡ doe
  unfolding day_of_year
  doy_lem = omega (arith, year_low doe h)

  -- The last day of the year from March is there only before a leap day's year ends.
  doy_bound : doy ≤ 364 + leap_day (yoe + era * 400 + 1)
  doy_bound = ground (arith, doy_lem, year_high doe h, year_bound doe h)

  abbrev mp : ℕ
  mp = (5 * doy + 2) / 153

  mp_bound : mp < 12
  mp_bound = omega (arith, doy_bound, leap_le (yoe + era * 400 + 1))
    where
      leap_le : (y : ℕ) → leap_day y ≤ 1
      leap_le y = ground arith

  -- The days up to the year that begins in March, in the calendar's count: from March on, and in
  -- the next year.
  march_year :
      era * 146097 + doe
      ≡ 306 + year_start (yoe + era * 400) + leap_day (yoe + era * 400) + 59 + doy
  march_year = ground (arith, doy_lem, year_bound doe h)

  next_year : 306 ≤ doy → era * 146097 + doe ≡ year_start (yoe + era * 400 + 1) + doy
  next_year j = omega (arith, doy_lem, year_bound doe h)

  abbrev in_month : ℕ → Date
  in_month m = record {
    year = if leb m 2 then yoe + era * 400 + 1 else yoe + era * 400;
    month = m;
    day = doy - (153 * mp + 2) / 5 + 1;
  }

  Counted : Date → Type 0
  Counted d = (306 + ordinal d ≡ era * 146097 + doe) × IsDate d

  from_march :
      mp < 10
      → Counted
          (record { year = yoe + era * 400; month = mp + 3; day = doy - (153 * mp + 2) / 5 + 1 })
  unfolding Counted
  from_march s =
      let (before, len) = march_on mp s in
      let shift : leb 3 (mp + 3) ≡ true = ground arith in
      let later : (mp + 3 == 2) ≡ false = ground arith in
      (
        rw (shift) (omega (arith, march_year, before)),
        record {
          month_from = omega arith;
          month_to = omega arith;
          day_from = omega arith;
          day_to = rw later (omega (arith, len));
        },
      )

  in_january :
      mp ≡ 10
      → Counted
          (record { year = yoe + era * 400 + 1; month = 1; day = doy - (153 * mp + 2) / 5 + 1 })
  unfolding Counted
  in_january q = (
    omega (arith, q, next_year (omega (arith, q))),
    record {
      month_from = omega arith;
      month_to = omega arith;
      day_from = omega arith;
      day_to = omega (arith, q);
    },
  )

  in_february :
      mp ≡ 11
      → Counted
          (record { year = yoe + era * 400 + 1; month = 2; day = doy - (153 * mp + 2) / 5 + 1 })
  unfolding Counted
  in_february q = (
    omega (arith, q, next_year (omega (arith, q))),
    record {
      month_from = omega arith;
      month_to = omega arith;
      day_from = omega arith;
      day_to = omega (arith, q, doy_bound);
    },
  )

  abbrev source_month : ℕ
  source_month = if ltb mp 10 then mp + 3 else mp - 9

  counted : Counted (in_month source_month)
  counted = elim (Bool-cases (ltb mp 10)) [
    | inl s ↦
        let low : leb (mp + 3) 2 ≡ false = ground arith in
        let march : Counted (in_month (mp + 3)) = rw low (from_march (ground arith)) in
        subst (λ (m : ℕ). Counted (in_month m)) (ground arith) march
    | inr n ↦ elim (Bool-cases (mp == 10)) [
      | inl q ↦ subst (λ (m : ℕ). Counted (in_month m)) (ground arith) (in_january (ground arith))
      | inr q ↦
          subst (λ (m : ℕ). Counted (in_month m)) (ground (arith, mp_bound))
            (in_february (ground (arith, mp_bound)))
    ]
  ]

cancel : (o a b : ℕ) → 306 + o ≡ a → a ≡ b + 719468 → o ≡ b + 719162
cancel o a b e q = omega arith

-- The date of every day since 1970-01-01 is a day of the Gregorian calendar, and as many days after
-- 1 January of the year 1 as the calendar counts: 719,162 more than the days since the epoch.
pub civil-IsDate : (days : ℕ) → (ordinal (civil days) ≡ days + 719162) × IsDate (civil days)
unfolding civil Counted
civil-IsDate days =
    let z = days + 719468 in
    let era = z / 146097 in
    let doe = z - era * 146097 in
    let (count, date) = counted doe era (omega arith) (omega arith) in
    (cancel (ordinal (civil days)) (era * 146097 + doe) days count (omega arith), date)
