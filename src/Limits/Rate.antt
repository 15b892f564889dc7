-- ===== src/Limits/Rate.antt =====
-- crates/grenat_limits/src/rate.rs: so many calls per period. Periods are counts of nanoseconds,
-- floating point numbers a parameter.
use grenat.Prelude.{
  ℕ, ◌/◌, ◌^◌, ◌≤◌, ◌<◌, ◌≡◌, Bool, true, false, ◌||◌, not, if◌then◌else◌, ltb, arith,
}
use grenat.Prelude.Int.{ℤ, pos, negsuc}
use grenat.Prelude.Results.{Result, ok, err, ◌>>=◌}

pub record Rate : Type 0 where
  pub count : ℕ
  pub period : ℕ

-- The four refusals of `Rate::new`, in the order of its tests.
pub data RateError : Type 0 where
  too_few too_many not_positive too_long : RateError

-- `f64` and `Duration::from_secs_f64`, which rounds to a nanosecond and keeps the order.
pub record Floats : Type 1 where
  pub F64 : Type 0
  pub zero_secs : F64
  pub year_secs : F64
  pub is_finite : F64 → Bool
  pub f64_le : F64 → F64 → Bool
  pub f64_gt : F64 → F64 → Bool
  pub from_secs_f64 : F64 → ℕ
  pub from_secs_mono :
      (x y : F64)
      → is_finite x ≡ true
      → f64_le x zero_secs ≡ false
      → f64_gt x y ≡ false
      → from_secs_f64 x ≤ from_secs_f64 y

-- `u32::try_from`.
u32_try_from : ℤ → Result RateError ℕ
u32_try_from (pos n) = if ltb n (2 ^ 32) then ok n else err too_many
u32_try_from (negsuc n) = err too_many

below_one : ℤ → Bool
below_one (pos n) = ltb n 1
below_one (negsuc n) = true

module _ (f : Floats) where
  open f use {F64, zero_secs, year_secs, is_finite, f64_le, f64_gt, from_secs_f64}

  checked_period : ℕ → F64 → Result RateError Rate
  checked_period count seconds =
      if not (is_finite seconds) || f64_le seconds zero_secs
      then err not_positive
      else if f64_gt seconds year_secs
      then err too_long
      else ok (record { count = count; period = from_secs_f64 seconds })

  unfoldable pub new : ℤ → F64 → Result RateError Rate
  unfolding u32_try_from below_one checked_period
  new count seconds =
      if below_one count
      then err too_few
      else (u32_try_from count >>= λ n. checked_period n seconds)

unfoldable pub interval : Rate → ℕ
interval r = r.period / r.count

-- A rate that `new` returns allows between one and 2^32 - 1 calls in a period of a year at most.
new-bounds :
    (f : Floats) (count : ℤ) (seconds : f.F64) (r : Rate)
    → new f count seconds ≡ ok r
    → (1 ≤ r.count) × (r.count < 2 ^ 32) × (r.period ≤ f.from_secs_f64 f.year_secs)
unfolding new
new-bounds f (pos n) seconds r h = ground (arith, f.from_secs_mono seconds f.year_secs)
new-bounds f (negsuc n) seconds r h = ground arith
