-- ===== src/Serve/Calendar.antt =====
-- crates/grenat_serve/src/calendar.rs: the proleptic Gregorian calendar, from 1970 on. Days and seconds
-- are counted from the epoch.
use grenat.Prelude.{
  ℕ, ◌+◌, ◌-◌, ◌*◌, ◌/◌, ◌%◌, Bool, true, false, not, ◌&&◌, ◌||◌, ltb, leb, ◌==◌, if◌then◌else◌,
}
pub mod Dates

pub record Civil : Type 0 where
  pub year : ℕ
  pub month : ℕ
  pub day : ℕ
  pub hour : ℕ
  pub minute : ℕ
  pub weekday : ℕ

-- Of a day of an era of 400 years: the year of the era, and the day of that year, which starts in March.
unfoldable pub year_of_era : ℕ → ℕ
year_of_era doe = (doe - doe / 1460 + doe / 36524 - doe / 146096) / 365

unfoldable pub day_of_year : ℕ → ℕ → ℕ
day_of_year doe yoe = doe - (365 * yoe + yoe / 4 - yoe / 100)

-- `mp`, the month from March on.
unfoldable pub march_month : ℕ → ℕ
march_month doy = (5 * doy + 2) / 153

unfoldable pub civil : ℕ → Civil
civil t =
    let days = t / 86_400 in
    let seconds = t % 86_400 in
    let z = days + 719_468 in
    let era = z / 146_097 in
    let doe = z % 146_097 in
    let yoe = year_of_era doe in
    let doy = day_of_year doe yoe in
    let mp = march_month doy in
    let month = if ltb mp 10 then mp + 3 else mp - 9 in
    record {
      year = yoe + era * 400 + (if leb month 2 then 1 else 0);
      month = month;
      day = doy - (153 * mp + 2) / 5 + 1;
      hour = seconds / 3600;
      minute = seconds % 3600 / 60;
      weekday = (days + 4) % 7;
    }

-- For a date from 1970 on.
unfoldable pub days_from_civil : (year month day : ℕ) → ℕ
days_from_civil year month day =
    let y = if leb month 2 then year - 1 else year in
    let era = y / 400 in
    let yoe = y % 400 in
    let doy = (153 * (if ltb 2 month then month - 3 else month + 9) + 2) / 5 + day - 1 in
    let doe = yoe * 365 + yoe / 4 - yoe / 100 + doy in era * 146_097 + doe - 719_468

unfoldable pub is_leap : ℕ → Bool
is_leap year = year % 4 == 0 && (not (year % 100 == 0) || year % 400 == 0)

unfoldable pub days_in_month : (year month : ℕ) → ℕ
unfolding is_leap
days_in_month year month =
    if month == 1
      || month == 3
      || month == 5
      || month == 7
      || month == 8
      || month == 10
      || month == 12
    then 31
    else if month == 4 || month == 6 || month == 9 || month == 11
    then 30
    else if month == 2
    then (if is_leap year then 29 else 28)
    else 0
