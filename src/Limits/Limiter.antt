-- ===== src/Limits/Limiter.antt =====
-- crates/grenat_limits/src/limiter.rs: a rate, a concurrency limit or both, and a pause, shared by
-- every task. `acquire` is cut where it takes the lock, reads the clock or sleeps: `advance` is one
-- such step of one call, and any calls may take theirs in between.
use grenat.Prelude.{ℕ, ◌-◌, Bool, true, false, Option, none, some, max, leb, ltb, if◌then◌else◌}
use grenat.Limits.Rate.{Rate}
use grenat.Limits.Bucket
use grenat.Limits.Bucket.{Bucket, Turn}
use grenat.Limits.Slots
use grenat.Limits.Slots.{Slots}
pub mod Calls
pub mod Times

pub record State : Type 0 where
  pub bucket : Option Bucket
  pub slots : Option Slots
  pub paused : Option ℕ

pub record Limiter : Type 0 where
  pub rate : Option Rate
  pub concurrent : Option ℕ
  pub state : State

abbrev pub map_option : {A B : Type 0} → (A → B) → Option A → Option B
map_option f none = none
map_option f (some a) = some (f a)

fresh : Option Rate → Option ℕ → State
fresh rate concurrent = record {
  bucket = map_option Bucket.new rate;
  slots = map_option Slots.new concurrent;
  paused = none;
}

unfoldable pub new : Option Rate → Option ℕ → Limiter
unfolding fresh
new rate concurrent = record { rate = rate; concurrent = concurrent; state = fresh rate concurrent }

-- What is left of a pause at `now`, if any.
unfoldable pub paused_for : State → ℕ → Option ℕ
paused_for s now = elim s.paused [
  | none ↦ none
  | some p ↦ if ltb now p then some (p - now) else none
]

-- `p.max(until)` where there is a pause `p`.
abbrev pub later_of : Option ℕ → ℕ → ℕ
later_of none until = until
later_of (some p) until = max p until

unfoldable pub pause_until : Limiter → ℕ → Limiter
pause_until l until =
    let s = l.state in record l { state = record s { paused = some (later_of s.paused until) } }

unfoldable pub refill : Limiter → Limiter
refill l =
    let s = l.state in
    record l { state = record s { bucket = map_option Bucket.new l.rate; paused = none } }

unfoldable pub in_flight : Limiter → ℕ
in_flight l = elim l.state.slots [ none ↦ 0 | some s ↦ s.in_flight ]

unfoldable pub with_slots : Limiter → Slots → Limiter
with_slots l slots = let s = l.state in record l { state = record s { slots = some slots } }

unfoldable pub with_bucket : Limiter → Bucket → Limiter
with_bucket l bucket = let s = l.state in record l { state = record s { bucket = some bucket } }

unfoldable pub release : Limiter → Limiter
unfolding with_slots
release l = elim l.state.slots [ none ↦ l | some s ↦ with_slots l (Slots.release s) ]

-- Where a call of `acquire` stands, with its local variables: `slot` tells whether its permit holds
-- a slot. `slept` stands for the return of a sleep.
pub data Phase : Type 0 where
  starting : Phase
  queued queue_slept : (started ticket : ℕ) → Phase
  booking : (started : ℕ) (slot : Bool) → Phase
  timing turn_slept : (started : ℕ) (slot : Bool) (turn : Turn) → Phase
  pausing pause_slept : (started : ℕ) (slot : Bool) (turn : Option Turn) → Phase
  measuring : (started : ℕ) (slot : Bool) → Phase
  granted : (waited : ℕ) (slot : Bool) → Phase
  failing : (slot : Bool) → Phase
  finished cancelled : Phase

-- `self.state().slots.as_mut().map(Slots::enqueue)`.
enter_queue : Limiter → ℕ → Limiter × Phase
unfolding with_slots
enter_queue l now = elim l.state.slots [
  | none ↦ (l, booking now false)
  | some s ↦ let (ticket, s') = Slots.enqueue s in (with_slots l s', queued now ticket)
]

look : Limiter → ℕ → ℕ → Limiter × Phase
unfolding with_slots
look l started ticket = elim l.state.slots [
  | none ↦ (l, queue_slept started ticket)
  | some s ↦
      let (let_in, s') = Slots.try_enter s ticket in
      (with_slots l s', if let_in then booking started true else queue_slept started ticket)
]

leave_queue : Limiter → ℕ → Limiter
unfolding with_slots
leave_queue l ticket = elim l.state.slots [
  | none ↦ l
  | some s ↦ with_slots l (Slots.leave s ticket)
]

book : Limiter → ℕ → ℕ → Bool → Limiter × Phase
unfolding with_bucket
book l now started slot = elim l.state.bucket [
  | none ↦ (l, pausing started slot none)
  | some b ↦
      let (turn, b') = Bucket.reserve b (later_of l.state.paused now) in
      (with_bucket l b', timing started slot turn)
]

give_back : Limiter → Option Turn → Limiter
unfolding with_bucket
give_back l none = l
give_back l (some turn) = elim l.state.bucket [
  | none ↦ l
  | some b ↦ with_bucket l (Bucket.refund b turn)
]

-- The drop of a permit.
drop_permit : Limiter → Bool → Limiter
unfolding release
drop_permit l slot = if slot then release l else l

-- One step at `now`; `woken` is false where the caller's sleep returned an error.
unfoldable pub advance : Limiter → ℕ → Bool → Phase → Limiter × Phase
unfolding enter_queue look leave_queue book give_back drop_permit paused_for
advance l now woken starting = enter_queue l now
advance l now woken (queued started ticket) = look l started ticket
advance l now woken (queue_slept started ticket) =
    if woken then (l, queued started ticket) else (leave_queue l ticket, cancelled)
advance l now woken (booking started slot) = book l now started slot
advance l now woken (timing started slot turn) =
    (l, if leb turn.at now then pausing started slot (some turn) else turn_slept started slot turn)
advance l now woken (turn_slept started slot turn) =
    if woken then (l, timing started slot turn) else (give_back l (some turn), failing slot)
advance l now woken (pausing started slot turn) = elim (paused_for l.state now) [
  | none ↦ (l, measuring started slot)
  | some left ↦ (l, pause_slept started slot turn)
]
advance l now woken (pause_slept started slot turn) =
    if woken then (l, pausing started slot turn) else (give_back l turn, failing slot)
advance l now woken (measuring started slot) = (l, granted (now - started) slot)
advance l now woken (granted waited slot) = (drop_permit l slot, finished)
advance l now woken (failing slot) = (drop_permit l slot, cancelled)
advance l now woken finished = (l, finished)
advance l now woken cancelled = (l, cancelled)

-- `SLOT_POLL`, 10 ms.
abbrev pub slot_poll : ℕ
slot_poll = 10_000_000

-- How long a call asks to sleep that goes to sleep at `now`; a call that is awake does not sleep.
unfoldable pub nap : Limiter → ℕ → Phase → ℕ
unfolding paused_for
nap l now (queue_slept started ticket) = slot_poll
nap l now (turn_slept started slot turn) = turn.at - now
nap l now (pause_slept started slot turn) = elim (paused_for l.state now) [
  | none ↦ 0
  | some left ↦ left
]
nap l now _ = 0
