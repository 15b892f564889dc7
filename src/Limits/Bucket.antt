-- ===== src/Limits/Bucket.antt =====
-- crates/grenat_limits/src/bucket.rs: a token bucket, kept as the instant it is next empty.
-- Instants and durations are counts of nanoseconds; instant 0 is the earliest the clock can tell.
use grenat.Prelude.{
  ℕ, ◌+◌, ◌-◌, ◌*◌, max, Bool, false, Option, none, some, leb, ◌==◌, if◌then◌else◌,
}
use grenat.Limits.Rate
use grenat.Limits.Rate.{Rate}
pub mod Ledger
pub mod Waits

-- A call's booking: when it may go, and what it booked.
pub record Turn : Type 0 where
  pub at : ℕ
  pub before : ℕ
  pub after : ℕ

pub record Bucket : Type 0 where
  pub interval : ℕ
  pub burst : ℕ
  pub next : Option ℕ

unfoldable pub new : Rate → Bucket
new rate =
    let interval = Rate.interval rate in
    record { interval = interval; burst = interval * (rate.count - 1); next = none }

-- `Option::unwrap_or`, `map_or`.
abbrev pub unwrap_or : Option ℕ → ℕ → ℕ
unwrap_or none d = d
unwrap_or (some a) d = a

-- `Instant::checked_sub`.
abbrev pub checked_sub : ℕ → ℕ → Option ℕ
checked_sub a b = if leb b a then some (a - b) else none

-- `map_or(now, |earliest| earliest.max(now))`.
abbrev pub no_earlier : ℕ → Option ℕ → ℕ
no_earlier now none = now
no_earlier now (some earliest) = max earliest now

unfoldable pub reserve : Bucket → ℕ → Turn × Bucket
reserve b now =
    let next : ℕ = max (unwrap_or b.next now) now in
    let at : ℕ = no_earlier now (checked_sub next b.burst) in
    let after : ℕ = next + b.interval in
    (record { at = at; before = next; after = after }, record b { next = some after })

-- `self.next == Some(turn.after)`.
abbrev pub is_next : Option ℕ → ℕ → Bool
is_next none t = false
is_next (some n) t = n == t

unfoldable pub refund : Bucket → Turn → Bucket
refund b turn = if is_next b.next turn.after then record b { next = some turn.before } else b
