-- ===== src/Serve/Tests.antt =====
-- Runs of the calendar and of schedules, and the theorems at inputs that meet their hypotheses.
use grenat.Prelude.{
  ℕ, zero, suc, ◌+◌, ◌*◌, ◌/◌, ◌<◌, ◌≡◌, refl, Bool, true, false, List, [], ◌∷◌, some, arith,
}
use grenat.Prelude.Text.{codes}
use grenat.Serve.Calendar.{
  civil, days_from_civil, days_in_month, year_of_era, day_of_year, march_month,
}
use grenat.Serve.Calendar.Dates.{IsDate, days_from_civil-civil, civil-days_from_civil, civil-IsDate}
use grenat.Serve.Cron.{Cron, next, tries, next_within, skip, day_ok, allows}
use grenat.Serve.Cron.Next.{Finds, next-Finds}
use grenat.Serve.Cron.Parse.{field, weekday_field}
use grenat.Serve.Cron.Parse.Fields.{Inside, Reads, field-Reads}

days_from_civil-civil_example :
    let c = civil (20_000 * 86_400) in days_from_civil c.year c.month c.day ≡ 20_000
days_from_civil-civil_example = days_from_civil-civil 20_000

abbrev leap_day : ℕ
leap_day = days_from_civil 2000 2 29

civil-days_from_civil_example :
    let c = civil (leap_day * 86_400) in (c.year ≡ 2000) × (c.month ≡ 2) × (c.day ≡ 29)
unfolding days_in_month
civil-days_from_civil_example =
    civil-days_from_civil 2000 2 29 (omega arith, omega arith, omega arith, omega arith)
      (omega arith)

leap_day_number : leap_day ≡ 11_016
unfolding days_from_civil
leap_day_number = refl

civil-IsDate_example :
    let c = civil 951_782_400 in
    IsDate c.year c.month c.day × (c.hour < 24) × (c.minute < 60) × (c.weekday < 7)
civil-IsDate_example = civil-IsDate 951_782_400

abbrev every_minute : Cron
every_minute = record {
  minutes = true ∷ false ∷ [];
  hours = true ∷ [];
  days = false ∷ true ∷ true ∷ [];
  months = false ∷ true ∷ [];
  weekdays = true ∷ true ∷ true ∷ true ∷ true ∷ true ∷ true ∷ [];
  either_day = false;
}

next-Finds_example : Finds every_minute tries ((90 / 60 + 1) * 60) (next every_minute 90)
next-Finds_example = next-Finds every_minute 90

abbrev only : ℕ → ℕ → List Bool
only zero v = []
only (suc n) zero = true ∷ only n n
only (suc n) (suc v) = false ∷ only n v

abbrev all : ℕ → List Bool
all zero = []
all (suc n) = true ∷ all n

abbrev nine_thirty : Cron
nine_thirty = record {
  minutes = only 60 30;
  hours = only 24 9;
  days = all 32;
  months = all 13;
  weekdays = all 7;
  either_day = false;
}

field-Reads_example :
    Inside (Reads weekday_field (codes "mon-fri/2,7")) (field weekday_field (codes "mon-fri/2,7"))
field-Reads_example =
    field-Reads weekday_field (codes "mon-fri/2,7") (omega arith, (λ k. omega arith), omega arith)

-- `30 9 * * *`
morning : next nine_thirty 0 ≡ some 34_200
unfolding next next_within skip day_ok allows civil year_of_era day_of_year march_month
morning = refl
