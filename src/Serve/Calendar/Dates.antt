-- ===== src/Serve/Calendar/Dates.antt =====
-- A date and its day since the epoch determine each other.
use grenat.Prelude.{
  ℕ, ◌+◌, ◌-◌, ◌*◌, ◌/◌, ◌%◌, ◌≤◌, ◌<◌, ◌≡◌, refl, ◌∙◌, true, ltb, leb, if◌then◌else◌, arith,
}
use grenat.Serve.Calendar.{
  is_leap, days_in_month, year_of_era, day_of_year, march_month, civil, days_from_civil,
}

year_of_era-bound : (doe : ℕ) → doe < 146_097 → year_of_era doe < 400
unfolding year_of_era
year_of_era-bound doe h = omega arith

-- The years of an era before a day's year end no later than the day.
days_before :
    (doe : ℕ) → doe < 146_097 → let yoe = year_of_era doe in 365 * yoe + yoe / 4 - yoe / 100 ≤ doe
unfolding year_of_era
days_before doe h = omega arith

day_of_year-bound : (doe : ℕ) → doe < 146_097 → day_of_year doe (year_of_era doe) ≤ 365
unfolding year_of_era day_of_year
day_of_year-bound doe h = omega arith

month_day : (doy : ℕ) → doy ≤ 365 → (march_month doy ≤ 11) × ((153 * march_month doy + 2) / 5 ≤ doy)
unfolding march_month
month_day doy h = (omega arith, omega arith)

-- The day of an era from its year and the day of that year.
abbrev day_of_era : ℕ → ℕ → ℕ
day_of_era yoe doy = yoe * 365 + yoe / 4 - yoe / 100 + doy

day_of_era-day_of_year :
    (doe : ℕ)
    → doe < 146_097
    → day_of_era (year_of_era doe) (day_of_year doe (year_of_era doe)) ≡ doe
unfolding day_of_year
day_of_era-day_of_year doe h = omega (arith, days_before doe h)

era_year :
    (era yoe : ℕ) → yoe < 400 → ((yoe + era * 400) / 400 ≡ era) × ((yoe + era * 400) % 400 ≡ yoe)
era_year era yoe h = (omega arith, omega arith)

date_back :
    (era yoe doy mp : ℕ)
    → yoe < 400
    → mp ≤ 11
    → (153 * mp + 2) / 5 ≤ doy
    → let month = if ltb mp 10 then mp + 3 else mp - 9 in
      let year = yoe + era * 400 + (if leb month 2 then 1 else 0) in
      days_from_civil year month (doy - (153 * mp + 2) / 5 + 1)
      ≡ era * 146_097 + day_of_era yoe doy - 719_468
unfolding days_from_civil
date_back era yoe doy mp h k l = let (e, f) = era_year era yoe h in ground (arith, e, f)

-- Every day from the epoch on reads back from its date.
pub days_from_civil-civil :
    (days : ℕ) → let c = civil (days * 86_400) in days_from_civil c.year c.month c.day ≡ days
unfolding civil
days_from_civil-civil days =
    let z : ℕ = days + 719_468 in
    let doe : ℕ = z % 146_097 in
    let yoe : ℕ = year_of_era doe in
    let doy : ℕ = day_of_year doe yoe in
    let small : doe < 146_097 = omega arith in
    let back = day_of_era-day_of_year doe small in
    let (m, d) = month_day doy (day_of_year-bound doe small) in
    let same : (days * 86_400) / 86_400 ≡ days = omega arith in
    rw same (
      date_back (z / 146_097) yoe doy (march_month doy) (year_of_era-bound doe small) m d
      ∙ omega (arith, back))

-- A day of an era is the last of a year of 366 days only in a leap year, which ends in February.
leap_end :
    (doe : ℕ)
    → doe < 146_097
    → day_of_year doe (year_of_era doe) ≡ 365
    → is_leap (year_of_era doe + 1) ≡ true
unfolding year_of_era day_of_year is_leap
leap_end doe h e = ground arith

-- A month of the year and a day that it has.
abbrev pub IsDate : (year month day : ℕ) → Type 0
IsDate year month day = (1 ≤ month) × (month ≤ 12) × (1 ≤ day) × (day ≤ days_in_month year month)

is_leap-era : (era year : ℕ) → is_leap (year + era * 400) ≡ is_leap year
unfolding is_leap
is_leap-era era year =
    let e : (year + era * 400) % 4 ≡ year % 4 = omega arith in
    let f : (year + era * 400) % 100 ≡ year % 100 = omega arith in
    let g : (year + era * 400) % 400 ≡ year % 400 = omega arith in rw (e, f, g) refl

march_month-IsDate :
    (era yoe doy : ℕ)
    → doy ≤ 365
    → (doy ≡ 365 → is_leap (yoe + 1) ≡ true)
    → let mp = march_month doy in
      let month = if ltb mp 10 then mp + 3 else mp - 9 in
      let year = yoe + era * 400 + (if leb month 2 then 1 else 0) in
      IsDate year month (doy - (153 * mp + 2) / 5 + 1)
unfolding march_month days_in_month
march_month-IsDate era yoe doy h leap =
    let shift : yoe + era * 400 + 1 ≡ (yoe + 1) + era * 400 = omega arith in
    (ground arith, ground arith, omega arith, ground (arith, is_leap-era era (yoe + 1), shift))

-- Every second from the epoch on has a date that exists, an hour, a minute and a day of the week.
pub civil-IsDate :
    (t : ℕ)
    → let c = civil t in
      IsDate c.year c.month c.day × (c.hour < 24) × (c.minute < 60) × (c.weekday < 7)
unfolding civil
civil-IsDate t =
    let z : ℕ = t / 86_400 + 719_468 in
    let doe : ℕ = z % 146_097 in
    let yoe : ℕ = year_of_era doe in
    let small : doe < 146_097 = omega arith in
    (
      march_month-IsDate (z / 146_097) yoe (day_of_year doe yoe) (day_of_year-bound doe small)
          (leap_end doe small),
      omega arith,
      omega arith,
      omega arith,
    )

-- The year and the day of an era determine each other.
year_of_era-day_of_era :
    (yoe doy : ℕ)
    → yoe < 400
    → doy ≤ 365
    → (doy ≡ 365 → is_leap (yoe + 1) ≡ true)
    → (day_of_era yoe doy < 146_097) × (year_of_era (day_of_era yoe doy) ≡ yoe)
unfolding year_of_era is_leap
year_of_era-day_of_era yoe doy h k leap = (ground arith, ground arith)

-- The year that starts in March, its months, and the day of it, as `days_from_civil` has them.
abbrev march_year : (year month : ℕ) → ℕ
march_year year month = if leb month 2 then year - 1 else year

abbrev month_from_march : ℕ → ℕ
month_from_march month = if ltb 2 month then month - 3 else month + 9

abbrev doy_of : (month day : ℕ) → ℕ
doy_of month day = (153 * month_from_march month + 2) / 5 + day - 1

doy_of-bounds :
    (year month day : ℕ)
    → IsDate year month day
    → (doy_of month day ≤ 365) × (march_month (doy_of month day) ≡ month_from_march month)
unfolding march_month days_in_month
doy_of-bounds year month day (a, b, c, d) = (ground arith, ground arith)

doy_of-leap :
    (year month day : ℕ)
    → IsDate year month day
    → 1 ≤ year
    → doy_of month day ≡ 365
    → is_leap (march_year year month % 400 + 1) ≡ true
unfolding days_in_month is_leap
doy_of-leap year month day (a, b, c, d) y e = ground arith

days_from_civil-era :
    (year month day : ℕ)
    → 1970 ≤ year
    → 1 ≤ month
    → 1 ≤ day
    → let y = march_year year month in
      days_from_civil year month day + 719_468
      ≡ y / 400 * 146_097 + day_of_era (y % 400) (doy_of month day)
unfolding days_from_civil
days_from_civil-era year month day h k l = ground arith

same_fields :
    (year month day era yoe : ℕ)
    → 1 ≤ year
    → 1 ≤ month
    → month ≤ 12
    → 1 ≤ day
    → era ≡ march_year year month / 400
    → yoe ≡ march_year year month % 400
    → let mp = month_from_march month in
      let m = if ltb mp 10 then mp + 3 else mp - 9 in
      (yoe + era * 400 + (if leb m 2 then 1 else 0) ≡ year)
      × (m ≡ month)
      × (doy_of month day - (153 * mp + 2) / 5 + 1 ≡ day)
same_fields year month day era yoe y a b c e f = (ground arith, ground arith, omega arith)

-- Every date from 1970 on reads back from its day since the epoch.
pub civil-days_from_civil :
    (year month day : ℕ)
    → IsDate year month day
    → 1970 ≤ year
    → let c = civil (days_from_civil year month day * 86_400) in
      (c.year ≡ year) × (c.month ≡ month) × (c.day ≡ day)
unfolding civil day_of_year
civil-days_from_civil year month day date h =
    let (a, b, c, d) = date in
    let days : ℕ = days_from_civil year month day in
    let y : ℕ = march_year year month in
    let doy : ℕ = doy_of month day in
    let era_day = days_from_civil-era year month day h a c in
    let (bound, mp) = doy_of-bounds year month day date in
    let leap = doy_of-leap year month day date (omega arith) in
    let (small, yoe) = year_of_era-day_of_era (y % 400) doy (omega arith) bound leap in
    let back : (days * 86_400) / 86_400 ≡ days = omega arith in
    let era : (days + 719_468) / 146_097 ≡ y / 400 = omega (arith, era_day, small) in
    let doe : (days + 719_468) % 146_097 ≡ day_of_era (y % 400) doy =
      omega (arith, era_day, small) in
    let rest : day_of_era (y % 400) doy - (365 * (y % 400) + y % 400 / 4 - y % 400 / 100) ≡ doy =
      omega arith in
    let (p, q, r) = same_fields year month day (y / 400) (y % 400) (omega arith) a b c refl refl in
    (
      rw (back, era, doe, yoe, rest, mp) p,
      rw (back, doe, yoe, rest, mp) q,
      rw (back, doe, yoe, rest, mp) r,
    )
