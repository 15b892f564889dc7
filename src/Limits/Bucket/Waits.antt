-- ===== src/Limits/Bucket/Waits.antt =====
-- How long one bucket makes its calls wait: in which order, after how many at once, and what a
-- refund gives back.
use grenat.Prelude.{ℕ, zero, suc, ◌+◌, ◌-◌, ◌*◌, ◌≤◌, ◌<◌, ◌≡◌, refl, arith}
use grenat.Limits.Rate
use grenat.Limits.Rate.{Rate}
use grenat.Limits.Bucket.{Bucket, Turn, new, reserve, refund, unwrap_or}

-- A call asked no earlier than another goes no earlier, and neither goes before it asked.
pub reserve_order :
    (b : Bucket) (now later : ℕ)
    → now ≤ later
    → let (first, b') = reserve b now in (now ≤ first.at) × (first.at ≤ (reserve b' later).0.at)
unfolding reserve
reserve_order b now later h = ground arith

-- A turn refunded before another is booked leaves no trace: whatever is asked later gets the turn
-- that it would have got.
reserve-refund :
    (b : Bucket) (now later : ℕ)
    → now ≤ later
    → let (turn, b') = reserve b now in reserve (refund b' turn) later ≡ reserve b later
unfolding reserve refund
reserve-refund b now later h = ground arith

-- A turn given back, or one booked before others, is given back no second time.
pub refund_twice :
    (b : Bucket) (turn : Turn)
    → turn.before < turn.after
    → refund (refund b turn) turn ≡ refund b turn
unfolding refund
refund_twice b turn h = ground arith

-- The bucket after `k` calls asked at once.
unfoldable pub after_calls : ℕ → Bucket → ℕ → Bucket
after_calls zero b now = b
after_calls (suc k) b now = (reserve (after_calls k b now) now).1

-- Where the next call starts from once `k` were asked at `now` of a full bucket.
after_calls-next :
    (r : Rate) (now k : ℕ)
    → (unwrap_or (after_calls k (new r) now).next now ≡ now + k * Rate.interval r)
      × ((after_calls k (new r) now).interval ≡ Rate.interval r)
      × ((after_calls k (new r) now).burst ≡ Rate.interval r * (r.count - 1))
unfolding after_calls new reserve
after_calls-next r now zero = (omega arith, refl, refl)
after_calls-next r now (suc k) = ground (arith, after_calls-next r now k)

turn_at :
    (b : Bucket) (now base : ℕ)
    → unwrap_or b.next now ≡ base
    → now ≤ base
    → (reserve b now).0.at ≡ now + (base - now - b.burst)
unfolding reserve
turn_at b now base e h = ground arith

-- The turn of the call after `k` others, all asked at once of a full bucket.
turn_after_calls :
    (r : Rate) (now k : ℕ)
    → (reserve (after_calls k (new r) now) now).0.at
      ≡ now + (k * Rate.interval r - Rate.interval r * (r.count - 1))
turn_after_calls r now k =
    let (e, _, u) = after_calls-next r now k in
    let h = turn_at (after_calls k (new r) now) now (now + k * Rate.interval r) e (omega arith) in
    ground arith

within_burst : (i c k : ℕ) → k < c → k * i ≤ i * (c - 1)
within_burst i zero k h = elim h [ ]
within_burst i (suc c) k h = let e : suc c - 1 ≡ c = omega arith in rw e (grind arith)

past_burst : (i c k : ℕ) → 1 ≤ c → (c + k) * i - i * (c - 1) ≡ (k + 1) * i
past_burst i zero k h = absurd (omega arith)
past_burst i (suc c) k h = let e : suc c - 1 ≡ c = omega arith in rw e (omega arith)

-- Of calls asked at once of a full bucket, the first `count` go at once and the `k`-th after them
-- waits `k + 1` intervals.
pub full_bucket_waits :
    (r : Rate) (now k : ℕ)
    → 1 ≤ r.count
    → (k < r.count → (reserve (after_calls k (new r) now) now).0.at ≡ now)
      × ((reserve (after_calls (r.count + k) (new r) now) now).0.at
          ≡ now + (k + 1) * Rate.interval r)
full_bucket_waits r now k h = (
  λ p. omega (arith, turn_after_calls r now k, within_burst (Rate.interval r) r.count k p),
  omega (arith, turn_after_calls r now (r.count + k), past_burst (Rate.interval r) r.count k h),
)
