-- ===== src/Time.antt =====
-- Time stamps (src/time.rs). The days since the epoch are not negative, so the source's i64 are
-- numbers here. The clock is given.
pub mod Calendar
pub mod Digits
pub mod Dates
pub mod Order
use bip110_crawler.Common.{
  ℕ, zero, suc, ◌+◌, ◌-◌, ◌*◌, ◌/◌, ◌%◌, [], ◌∷◌, ◌++◌, if◌then◌else◌, ltb, leb, length, replicate,
  Text, codes,
}

-- The civil date of a number of days since 1970-01-01, as year, month and day.
unfoldable pub year_of_era : ℕ → ℕ
year_of_era doe = (doe - doe / 1460 + doe / 36524 - doe / 146096) / 365

unfoldable pub day_of_year : ℕ → ℕ
unfolding year_of_era
day_of_year doe = let yoe = year_of_era doe in doe - (365 * yoe + yoe / 4 - yoe / 100)

pub record Date : Type 0 where
  pub year : ℕ
  pub month : ℕ
  pub day : ℕ

unfoldable pub civil : ℕ → Date
unfolding year_of_era day_of_year
civil days =
    let z = days + 719468 in
    let era = z / 146097 in
    let doe = z - era * 146097 in
    let y = year_of_era doe + era * 400 in
    let doy = day_of_year doe in
    let mp = (5 * doy + 2) / 153 in
    let m = if ltb mp 10 then mp + 3 else mp - 9 in
    record { year = if leb m 2 then y + 1 else y; month = m; day = doy - (153 * mp + 2) / 5 + 1 }

-- The decimal digits of a number below 10^20, which every u64 is.
unfoldable pub digits : ℕ → ℕ → Text
digits zero n = []
digits (suc fuel) n =
    let high = digits fuel (n / 10) in
    if ltb n 10 then (b'0' + n) ∷ [] else high ++ (b'0' + n % 10) ∷ []

-- `{n:0w}`: as many zeros in front as the width lacks.
unfoldable pub padded : ℕ → ℕ → Text
unfolding digits
padded w n = replicate (w - length (digits 20 n)) b'0' ++ digits 20 n

unfoldable pub iso_from_unix : ℕ → Text
unfolding padded civil
iso_from_unix secs =
    let date = civil (secs / 86400) in
    let rem = secs % 86400 in
    padded 4 date.year
    ++ (codes "-"
        ++ (padded 2 date.month
            ++ (codes "-"
                ++ (padded 2 date.day
                    ++ (codes "T"
                        ++ (padded 2 (rem / 3600)
                            ++ (codes ":"
                                ++ (padded 2 (rem % 3600 / 60)
                                    ++ (codes ":" ++ (padded 2 (rem % 60) ++ codes "Z"))))))))))

-- `now_iso` and `iso_secs_ago`, at the time `now`.
unfoldable pub now_iso : ℕ → Text
unfolding iso_from_unix
now_iso now = iso_from_unix now

unfoldable pub iso_secs_ago : ℕ → ℕ → Text
unfolding iso_from_unix
iso_secs_ago now secs = iso_from_unix (now - secs)
