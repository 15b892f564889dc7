-- ===== src/Limits/Tests.antt =====
-- Runs of the rate limits, and the theorems at inputs that meet their hypotheses.
use grenat.Prelude.{
  ℕ, ◌+◌, ◌*◌, ◌-◌, ◌≤◌, ◌<◌, ◌≡◌, refl, true, false, List, [], ◌∷◌, none, some, max, arith, leb,
  ltb,
}
use grenat.Limits.Rate
use grenat.Limits.Rate.{Rate, Floats}
use grenat.Limits.Bucket
use grenat.Limits.Bucket.{Bucket, Turn, reserve, refund}
use grenat.Limits.Bucket.Ledger
use grenat.Limits.Bucket.Ledger.{book, cancel, rate_kept}
use grenat.Limits.Bucket.Waits.{after_calls, full_bucket_waits}
use grenat.Limits.Slots
use grenat.Limits.Slots.Order
use grenat.Limits.Slots.Order.{leaves, IsFair, sweep}
use grenat.Limits.Limiter
use grenat.Limits.Limiter.{Limiter, Phase, starting, pausing}
use grenat.Limits.Limiter.Calls
use grenat.Limits.Limiter.Calls.{call, moves, total, holds, limit_kept, nothing_leaks}
use grenat.Limits.Limiter.Times.{alone, goes_at, alone_goes, goes_in_turn, begins, steps, Reaches}

nanos_mono : (x y : ℕ) → ltb y x ≡ false → x * 1_000_000_000 ≤ y * 1_000_000_000
nanos_mono x y h = ground arith

-- Whole seconds in place of floating point numbers.
abbrev whole_seconds : Floats
whole_seconds = record {
  F64 = ℕ;
  zero_secs = 0;
  year_secs = 366 * 86_400;
  is_finite = λ _. true;
  f64_le = leb;
  f64_gt = λ a b. ltb b a;
  from_secs_f64 = λ a. a * 1_000_000_000;
  from_secs_mono = λ x y _ _ h. nanos_mono x y h;
}

-- Two calls in ten nanoseconds.
abbrev two_per_ten : Rate
two_per_ten = record { count = 2; period = 10 }

-- The bucket's tests: a burst, then one call to an interval.
burst_then_intervals :
    (Ledger.run (Ledger.start two_per_ten) (book 0 ∷ book 0 ∷ book 0 ∷ [])).outstanding
    ≡ record { at = 5; before = 10; after = 15 }
      ∷ record { at = 0; before = 5; after = 10 }
      ∷ record { at = 0; before = 0; after = 5 }
      ∷ []
unfolding Ledger.run Ledger.start Bucket.new Rate.interval reserve
burst_then_intervals = refl

rate_kept_example : 0 + 1 * Rate.interval two_per_ten ≤ 5
unfolding Ledger.run Ledger.start Bucket.new Rate.interval reserve
rate_kept_example =
    rate_kept two_per_ten (book 0 ∷ book 0 ∷ book 0 ∷ []) 0 1
      (record { at = 5; before = 10; after = 15 }) (record { at = 0; before = 0; after = 5 }) refl
      refl

abbrev full : Bucket
full = record { interval = 5; burst = 5; next = none }

full_bucket_waits_example :
    (1 < 2 → (reserve (after_calls 1 (Bucket.new two_per_ten) 7) 7).0.at ≡ 7)
    × ((reserve (after_calls (2 + 1) (Bucket.new two_per_ten) 7) 7).0.at
        ≡ 7 + (1 + 1) * Rate.interval two_per_ten)
full_bucket_waits_example = full_bucket_waits two_per_ten 7 1 (omega arith)

-- Two of three queued calls find a slot.
abbrev three_queued : Order.History
three_queued = record {
  slots = record { max = 2; in_flight = 0; queue = 0 ∷ 1 ∷ 2 ∷ []; next_ticket = 3 };
  entered = [];
}

three_queued-IsFair : IsFair three_queued
three_queued-IsFair = omega arith

-- Two calls at a limiter for one: the first is let in, the second goes on queueing.
abbrev two_calls : List Calls.Event
two_calls = call ∷ call ∷ moves 0 5 true ∷ moves 1 6 true ∷ moves 0 7 true ∷ moves 1 8 true ∷ []

limit_kept_example :
    let y = Calls.run (Calls.start (some two_per_ten) (some 1)) two_calls in
    (Limiter.in_flight y.limiter ≡ total holds y.calls) × (Limiter.in_flight y.limiter ≤ max 1 1)
limit_kept_example = limit_kept (some two_per_ten) 1 two_calls

-- One call goes and ends, another is cancelled as it queues.
abbrev one_cancelled : List Calls.Event
one_cancelled =
    call
    ∷ moves 0 1 true
    ∷ moves 0 2 true
    ∷ call
    ∷ moves 0 3 true
    ∷ moves 0 4 true
    ∷ moves 0 5 false
    ∷ moves 1 6 true
    ∷ moves 1 7 true
    ∷ moves 1 8 true
    ∷ moves 1 9 true
    ∷ []

abbrev idle : Slots.Slots
idle = record { max = 1; in_flight = 0; queue = []; next_ticket = 2 }

nothing_leaks_example : (idle.in_flight ≡ 0) × (idle.queue ≡ [])
unfolding Calls.run Calls.start Limiter.new Limiter.advance Slots.new Slots.try_enter Slots.enqueue
    Slots.leave Slots.release
nothing_leaks_example = nothing_leaks none 1 one_cancelled idle refl (refl, (refl, tt))

abbrev one_rate : Limiter
one_rate = record {
  rate = some two_per_ten;
  concurrent = none;
  state = record {
    bucket = some (record { interval = 5; burst = 5; next = some 20 });
    slots = none;
    paused = some 12;
  };
}

abbrev booked : Turn
booked = record { at = 15; before = 20; after = 25 }

Reaches-pausing : Reaches 15 (pausing 3 false (some booked))
unfolding Limiter.advance reserve
Reaches-pausing =
    steps one_rate 15 true _
      (steps one_rate 4 true (Phase.timing 3 false booked)
        (steps one_rate 3 true (Phase.booking 3 false) (begins 0) (omega arith) refl) (omega arith)
        refl)
      (omega arith) refl

goes_in_turn_example : (15 ≤ 16) × (◌≡◌ {A = ℕ} 16 16)
unfolding Limiter.advance
goes_in_turn_example =
    goes_in_turn one_rate 15 16 3 true false (some booked) Reaches-pausing (omega arith) refl

alone_goes_example :
    alone 11 one_rate 3 starting ≡ some (goes_at one_rate 3, goes_at one_rate 3 - 3)
alone_goes_example = alone_goes one_rate 3 tt

goes_at_turn : alone 11 one_rate 3 starting ≡ some (15, 12)
unfolding alone reserve Limiter.advance Limiter.nap
goes_at_turn = refl
