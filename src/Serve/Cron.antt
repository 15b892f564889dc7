-- ===== src/Serve/Cron.antt =====
-- `Cron` and `Cron::next` of crates/grenat_serve/src/cron.rs, for times from the epoch on.
use grenat.Prelude.{
  ℕ, zero, suc, ◌+◌, ◌*◌, ◌/◌, Bool, true, false, not, ◌&&◌, ◌||◌, List, [], ◌∷◌, Option, none,
  some, if◌then◌else◌,
}
use grenat.Serve.Calendar.{Civil, civil}
pub mod Next
pub mod Parse

pub record Cron : Type 0 where
  pub minutes : List Bool
  pub hours : List Bool
  pub days : List Bool
  pub months : List Bool
  pub weekdays : List Bool
  pub either_day : Bool

-- `allowed[value]`: past the end, where the code would panic, nothing is allowed.
unfoldable pub allows : List Bool → ℕ → Bool
allows [] value = false
allows (b ∷ allowed) zero = b
allows (b ∷ allowed) (suc value) = allows allowed value

unfoldable pub day_ok : Cron → Civil → Bool
unfolding allows
day_ok c now =
    if c.either_day
    then allows c.days now.day || allows c.weekdays now.weekday
    else allows c.days now.day && allows c.weekdays now.weekday

-- The body of the loop: the time to go on at, or none where `t` is the answer.
unfoldable pub skip : Cron → ℕ → Option ℕ
skip c t =
    let now = civil t in
    if not (allows c.months now.month) || not (day_ok c now)
    then some ((t / 86_400 + 1) * 86_400)
    else if not (allows c.hours now.hour)
    then some ((t / 3600 + 1) * 3600)
    else if not (allows c.minutes now.minute)
    then some (t + 60)
    else none

unfoldable pub next_within : Cron → ℕ → ℕ → Option ℕ
next_within c zero t = none
next_within c (suc fuel) t = elim (skip c t) [
  | none ↦ some t
  | some later ↦ next_within c fuel later
]

abbrev pub tries : ℕ
tries = 4 * 366 * 24 * 60

unfoldable pub next : Cron → ℕ → Option ℕ
unfolding next_within
next c after = next_within c tries ((after / 60 + 1) * 60)
