-- ===== src/Limits/Limiter/Times.antt =====
-- When a call of `acquire` is let go: after its turn and any pause, whatever other calls do; and, by
-- itself, exactly then.
use grenat.Prelude.{
  ℕ, zero, suc, ◌+◌, ◌-◌, ◌≤◌, ◌<◌, ◌≡◌, refl, Bool, true, false, Option, none, some, [], max, inl,
  inr, Option-cases, arith,
}
use native.Mathlib.Decide.{dec_lt}
use grenat.Limits.Bucket
use grenat.Limits.Bucket.{Bucket, Turn}
use grenat.Limits.Bucket.Waits.{reserve_order}
use grenat.Limits.Slots
use grenat.Limits.Slots.{Slots}
use grenat.Limits.Slots.Queue.{free_slot_enters}
use grenat.Limits.Limiter.{
  Limiter, Phase, advance, nap, starting, queued, booking, timing, pausing, pause_slept, measuring,
  granted, enter_queue, later_of, with_slots, with_bucket,
}

-- A call's own steps at a clock that does not go back, the limiter as other calls leave it.
pub data Reaches : ℕ → Phase → Type 0 where
  begins : (now : ℕ) → Reaches now starting
  steps :
      {clock : ℕ} {p : Phase} (l : Limiter) (now : ℕ) (woken : Bool) (p' : Phase)
      → Reaches clock p
      → clock ≤ now
      → p' ≡ (advance l now woken p).1
      → Reaches now p'

abbrev turn_at : Option Turn → ℕ
turn_at none = 0
turn_at (some turn) = turn.at

-- The turn that a call has waited for, as far as it remembers one.
abbrev pub due : Phase → ℕ
due (pausing _ _ turn) = turn_at turn
due (pause_slept _ _ turn) = turn_at turn
due _ = 0

advance-due :
    (l : Limiter) (now : ℕ) (woken : Bool) (p : Phase)
    → due (advance l now woken p).1 ≤ max now (due p)
unfolding advance
advance-due l now woken starting = elim (Option-cases l.state.slots) [
  | inl e ↦ rw (e, enter_queue) (omega arith)
  | inr (s, e) ↦ rw (e, enter_queue) (omega arith)
]
advance-due l now woken (queued started ticket) = ground arith
advance-due l now woken (booking started slot) = ground arith
advance-due l now woken _ = ground arith

Reaches-due : {clock : ℕ} {p : Phase} → Reaches clock p → due p ≤ clock
Reaches-due (begins now) = omega arith
Reaches-due (steps {clock} {p} l now woken p' r h e) =
    rw e (omega (arith, advance-due l now woken p, Reaches-due r))

-- A call that looks for pauses at `now` and finds none left goes past the pause that holds then, and
-- past its own turn, whatever other calls did to the limiter since it booked.
pub goes_in_turn :
    (l : Limiter) (clock now started : ℕ) (woken slot : Bool) (turn : Option Turn)
    → Reaches clock (pausing started slot turn)
    → clock ≤ now
    → (advance l now woken (pausing started slot turn)).1 ≡ measuring started slot
    → (turn_at turn ≤ now) × (later_of l.state.paused now ≡ now)
unfolding advance
goes_in_turn l clock now started woken slot turn r h e = ground (arith, Reaches-due r)

grant_of : Phase → Option ℕ
grant_of (granted waited slot) = some waited
grant_of _ = none

-- One call alone, its sleeps as long as it asks: when it is let go, and how long it says it waited.
unfoldable pub alone : ℕ → Limiter → ℕ → Phase → Option (ℕ × ℕ)
unfolding grant_of
alone zero l now p = none
alone (suc fuel) l now p = elim (grant_of p) [
  | some waited ↦ some (now, waited)
  | none ↦ let (l', p') = advance l now true p in alone fuel l' (now + nap l' now p') p'
]

alone-pausing :
    (f : ℕ) (l : Limiter) (now started : ℕ) (slot : Bool) (turn : Option Turn)
    → let t = later_of l.state.paused now in
      alone (suc (suc (suc (suc (suc f))))) l now (pausing started slot turn)
      ≡ some (t, t - started)
unfolding alone advance nap
alone-pausing f l now started slot turn = ground arith

module _ (f : ℕ) (l : Limiter) (now started : ℕ) (slot : Bool) (turn : Turn) where
  alone-turn_come :
      turn.at ≤ now
      → alone (suc f) l now (timing started slot turn)
        ≡ alone f l now (pausing started slot (some turn))
  unfolding alone advance nap
  alone-turn_come h = ground arith

  alone-turn_slept :
      now < turn.at
      → alone (suc (suc f)) l now (timing started slot turn)
        ≡ alone f l turn.at (timing started slot turn)
  unfolding alone advance nap
  alone-turn_slept h = ground arith

alone-timing :
    (f : ℕ) (l : Limiter) (now started : ℕ) (slot : Bool) (turn : Turn)
    → now ≤ turn.at
    → later_of l.state.paused turn.at ≡ turn.at
    → alone (suc (suc (suc (suc (suc (suc (suc (suc f)))))))) l now (timing started slot turn)
      ≡ some (turn.at, turn.at - started)
alone-timing f l now started slot turn h e = elim (dec_lt now turn.at) [
  | yes later ↦ rw (alone-turn_slept _ l now started slot turn later) (
      rw (alone-turn_come _ l turn.at started slot turn (omega arith))
        (rw e at (alone-pausing f l turn.at started slot (some turn))))
  | no come ↦
      let same : now ≡ turn.at = omega arith in
      rw (alone-turn_come _ l now started slot turn (omega arith))
        (ground (arith, alone-pausing (suc (suc f)) l now started slot (some turn)))
]

-- When a call asked at `now` goes: at its turn, booked past the pause, or at the end of the pause.
unfoldable pub goes_at : Limiter → ℕ → ℕ
goes_at l now = elim l.state.bucket [
  | none ↦ later_of l.state.paused now
  | some b ↦ (Bucket.reserve b (later_of l.state.paused now)).0.at
]

module _ (f : ℕ) (l : Limiter) (now started : ℕ) (slot : Bool) where
  alone-no_rate :
      l.state.bucket ≡ none
      → alone (suc f) l now (booking started slot) ≡ alone f l now (pausing started slot none)
  unfolding alone advance nap
  alone-no_rate e = ground arith

  alone-booked :
      (b : Bucket)
      → l.state.bucket ≡ some b
      → let (turn, b') = Bucket.reserve b (later_of l.state.paused now) in
        alone (suc f) l now (booking started slot)
        ≡ alone f (with_bucket l b') now (timing started slot turn)
  unfolding alone advance nap
  alone-booked b e = ground arith

-- A booked turn is not before the end of the pause.
booked_past_pause :
    (b : Bucket) (paused : Option ℕ) (now : ℕ)
    → let turn = (Bucket.reserve b (later_of paused now)).0 in
      (now ≤ turn.at) × (later_of paused turn.at ≡ turn.at)
booked_past_pause b none now = omega (arith, reserve_order b now now (omega arith))
booked_past_pause b (some p) now =
    omega (arith, reserve_order b (max p now) (max p now) (omega arith))

alone-booking :
    (f : ℕ) (l : Limiter) (now started : ℕ) (slot : Bool)
    → alone (suc (suc (suc (suc (suc (suc (suc (suc (suc f))))))))) l now (booking started slot)
      ≡ some (goes_at l now, goes_at l now - started)
unfolding goes_at with_bucket
alone-booking f l now started slot = elim (Option-cases l.state.bucket) [
  | inl e ↦
      rw (alone-no_rate _ l now started slot e)
        (simp (e, goes_at) (alone-pausing (suc (suc (suc f))) l now started slot none))
  | inr (b, e) ↦
      let (h, past) = booked_past_pause b l.state.paused now in
      rw (alone-booked _ l now started slot b e)
        (simp (e, goes_at) (alone-timing f (with_bucket l _) now started slot _ h past))
]

-- Whether a call would be let in at once: no concurrency limit, or a free slot and nobody queued.
abbrev pub IsFree : Option Slots → Type 0
IsFree none = Unit
IsFree (some s) = (s.queue ≡ []) × (s.in_flight < s.max)

module _ (f : ℕ) (l : Limiter) (now : ℕ) where
  alone-unlimited :
      l.state.slots ≡ none → alone (suc f) l now starting ≡ alone f l now (booking now false)
  unfolding alone advance nap
  alone-unlimited e = ground arith

  alone-queued :
      (s : Slots)
      → l.state.slots ≡ some s
      → let (ticket, s') = Slots.enqueue s in
        alone (suc f) l now starting ≡ alone f (with_slots l s') now (queued now ticket)
  unfolding alone advance nap
  alone-queued s e = ground arith

  alone-let_in :
      (s : Slots) (started ticket : ℕ)
      → (Slots.try_enter s ticket).0 ≡ true
      → alone (suc f) (with_slots l s) now (queued started ticket)
        ≡ alone f
            (with_slots (with_slots l s) (Slots.try_enter s ticket).1)
            now
            (booking started true)
  unfolding alone advance nap with_slots
  alone-let_in s started ticket e = ground arith

goes_at-with_slots :
    (l : Limiter) (s : Slots) (now : ℕ) → goes_at (with_slots l s) now ≡ goes_at l now
unfolding goes_at with_slots
goes_at-with_slots l s now = refl

-- A call alone at a limiter with a free slot is let go, after ten steps at most, exactly at its turn
-- and after the pause, and counts the time up to then as waited.
pub alone_goes :
    (l : Limiter) (now : ℕ)
    → IsFree l.state.slots
    → alone 11 l now starting ≡ some (goes_at l now, goes_at l now - now)
alone_goes l now h = free_goes l.state.slots refl h
  where
    free_goes :
        (o : Option Slots)
        → l.state.slots ≡ o
        → IsFree o
        → alone 11 l now starting ≡ some (goes_at l now, goes_at l now - now)
    free_goes none e h = rw (alone-unlimited 10 l now e) (alone-booking 1 l now now false)
    free_goes (some s) e h =
        let (ticket, s') = Slots.enqueue s in
        let l' = with_slots (with_slots l s') (Slots.try_enter s' ticket).1 in
        rw (alone-queued 10 l now s e) (
          rw (alone-let_in 9 l now s' now ticket (free_slot_enters s h.0 h.1))
            (rw (goes_at-with_slots, goes_at-with_slots) at (alone-booking 0 l' now now true)))
