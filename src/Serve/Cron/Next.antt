-- ===== src/Serve/Cron/Next.antt =====
-- `Cron::next` gives the first minute after a time that the schedule matches.
use grenat.Prelude.{
  ℕ, zero, suc, ◌+◌, ◌*◌, ◌/◌, ◌%◌, ◌≤◌, ◌<◌, ◌≡◌, refl, Bool, true, false, ◌&&◌, Option, none,
  some, arith, inl, inr, Option-cases, Bool-cases, ltb, subst, sym,
}
use grenat.Serve.Calendar.{civil}
use grenat.Serve.Cron.{Cron, allows, day_ok, skip, next_within, tries, next}

-- What a schedule says of a minute: its month, its day, its hour and itself are allowed.
unfoldable pub is_due : Cron → ℕ → Bool
is_due c t =
    let now = civil t in
    allows c.months now.month
    && day_ok c now
    && allows c.hours now.hour
    && allows c.minutes now.minute

-- No whole minute from `from` on and before `to` is due.
abbrev pub NoneDue : Cron → (from to : ℕ) → Type 0
NoneDue c from to = (u : ℕ) → from ≤ u → u < to → u % 60 ≡ 0 → is_due c u ≡ false

same_day :
    (c : Cron) (t u : ℕ)
    → u / 86_400 ≡ t / 86_400
    → (allows c.months (civil u).month ≡ allows c.months (civil t).month)
      × (day_ok c (civil u) ≡ day_ok c (civil t))
unfolding civil day_ok
same_day c t u e = (rw e refl, rw e refl)

same_hour : (t u : ℕ) → u / 3600 ≡ t / 3600 → (civil u).hour ≡ (civil t).hour
unfolding civil
same_hour t u e = omega arith

-- A step from a whole minute leads to a later one, and none between them is due; or there is none,
-- and the minute itself is due.
abbrev Steps : Cron → ℕ → Option ℕ → Type 0
Steps c t none = is_due c t ≡ true
Steps c t (some later) = (t + 60 ≤ later) × (later % 60 ≡ 0) × NoneDue c t later

NoneDue-day :
    (c : Cron) (t : ℕ)
    → (allows c.months (civil t).month && day_ok c (civil t)) ≡ false
    → NoneDue c t ((t / 86_400 + 1) * 86_400)
unfolding is_due
NoneDue-day c t h u l k z =
    let (month, day) = same_day c t u (omega arith) in rw (month, day) (ground arith)

NoneDue-hour :
    (c : Cron) (t : ℕ) → allows c.hours (civil t).hour ≡ false → NoneDue c t ((t / 3600 + 1) * 3600)
unfolding is_due
NoneDue-hour c t h u l k z = rw (same_hour t u (omega arith), h) (ground arith)

NoneDue-minute :
    (c : Cron) (t : ℕ)
    → t % 60 ≡ 0
    → allows c.minutes (civil t).minute ≡ false
    → NoneDue c t (t + 60)
unfolding is_due
NoneDue-minute c t m h u l k z = let same : u ≡ t = omega arith in rw (same, h) (ground arith)

skip-Steps : (c : Cron) (t : ℕ) → t % 60 ≡ 0 → Steps c t (skip c t)
unfolding skip is_due
skip-Steps c t z = elim (Bool-cases (allows c.months (civil t).month && day_ok c (civil t))) [
  | inr off ↦
      let e : skip c t ≡ some ((t / 86_400 + 1) * 86_400) = ground arith in
      rw e (omega arith, omega arith, NoneDue-day c t off)
  | inl on ↦ elim (Bool-cases (allows c.hours (civil t).hour)) [
    | inr off ↦
        let e : skip c t ≡ some ((t / 3600 + 1) * 3600) = ground arith in
        rw e (omega arith, omega arith, NoneDue-hour c t off)
    | inl hour ↦ elim (Bool-cases (allows c.minutes (civil t).minute)) [
      | inr off ↦
          let e : skip c t ≡ some (t + 60) = ground arith in
          rw e (omega arith, omega arith, NoneDue-minute c t z off)
      | inl minute ↦ let e : skip c t ≡ none = ground arith in rw e (ground arith)
    ]
  ]
]

-- What a search from `from` of a number of tries comes to.
abbrev pub Finds : Cron → (tries from : ℕ) → Option ℕ → Type 0
Finds c n from none = NoneDue c from (from + 60 * n)
Finds c n from (some t) = (from ≤ t) × (t % 60 ≡ 0) × (is_due c t ≡ true) × NoneDue c from t

Finds-later :
    (c : Cron) (n t later : ℕ) (r : Option ℕ)
    → t + 60 ≤ later
    → NoneDue c t later
    → Finds c n later r
    → Finds c (suc n) t r
Finds-later c n t later none h off f = λ u l k z. elim (Bool-cases (ltb u later)) [
  | inl before ↦ off u l (ground arith) z
  | inr after ↦ f u (ground arith) (omega arith) z
]
Finds-later c n t later (some r) h off (g, z, due, rest) = (
  omega arith,
  z,
  due,
  λ u l k z'. elim (Bool-cases (ltb u later)) [
    | inl before ↦ off u l (ground arith) z'
    | inr after ↦ rest u (ground arith) k z'
  ],
)

next_within-found : (c : Cron) (n t : ℕ) → skip c t ≡ none → next_within c (suc n) t ≡ some t
unfolding next_within
next_within-found c n t e = ground (arith, e)

next_within-skipped :
    (c : Cron) (n t later : ℕ)
    → skip c t ≡ some later
    → next_within c (suc n) t ≡ next_within c n later
unfolding next_within
next_within-skipped c n t later e = ground (arith, e)

next_within-Finds : (c : Cron) (n t : ℕ) → t % 60 ≡ 0 → Finds c n t (next_within c n t)
unfolding next_within
next_within-Finds c zero t z = λ u l k z'. absurd (omega arith)
next_within-Finds c (suc n) t z = elim (Option-cases (skip c t)) [
  | inl e ↦
      let steps : Steps c t none = subst (Steps c t) e (skip-Steps c t z) in
      subst (Finds c (suc n) t) (sym (next_within-found c n t e))
        (omega arith, z, steps, λ u l k z'. absurd (omega arith))
  | inr (later, e) ↦
      let (far, whole, off) : Steps c t (some later) = subst (Steps c t) e (skip-Steps c t z) in
      subst (Finds c (suc n) t) (sym (next_within-skipped c n t later e)) (
        Finds-later c n t later (next_within c n later) far off (next_within-Finds c n later whole))
]

-- `next` gives the first whole minute after `after` that is due: it is due, and none between is. It gives
-- none only when no whole minute of the 1464 days that follow the minute of `after` is due.
pub next-Finds : (c : Cron) (after : ℕ) → Finds c tries ((after / 60 + 1) * 60) (next c after)
unfolding next
next-Finds c after = next_within-Finds c tries ((after / 60 + 1) * 60) (omega arith)
