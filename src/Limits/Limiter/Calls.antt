-- ===== src/Limits/Limiter/Calls.antt =====
-- Any number of calls of `acquire` at one limiter, interleaved: who holds a slot, who queues.
use grenat.Prelude.{
  ℕ, zero, suc, max, ◌+◌, ◌-◌, ◌≤◌, ◌≡◌, refl, ◌∙◌, Bool, true, false, List, [], ◌∷◌, Option, none,
  some, get_elem?, set, ◌==◌, inl, inr, Option-cases, Bool-cases, arith,
}
use grenat.Limits.Rate.{Rate}
use grenat.Limits.Bucket.{Turn}
use grenat.Limits.Slots
use grenat.Limits.Slots.{Slots, enqueue, try_enter, leave}
use grenat.Limits.Slots.Queue.{
  bit, occurs, occurs-enqueue, occurs-try_enter, occurs-leave, occurs-release,
}
use grenat.Limits.Limiter.{
  Limiter, Phase, new, fresh, advance, pause_until, refill, in_flight, with_slots, with_bucket,
  release, starting, queued, queue_slept, booking, timing, turn_slept, pausing, pause_slept,
  measuring, granted, failing, finished, cancelled, enter_queue, look, leave_queue, book, give_back,
  drop_permit, paused_for,
}

pub record System : Type 0 where
  pub limiter : Limiter
  pub calls : List Phase

-- A new call, a step of the `k`-th call, a server's pause, a refill between two tests.
pub data Event : Type 0 where
  call refilled : Event
  moves : (k now : ℕ) (woken : Bool) → Event
  pauses : (until : ℕ) → Event

unfoldable pub step : System → Event → System
step y call = record y { calls = starting ∷ y.calls }
step y refilled = record y { limiter = refill y.limiter }
step y (pauses until) = record y { limiter = pause_until y.limiter until }
step y (moves k now woken) = elim (get_elem? y.calls k) [
  | none ↦ y
  | some phase ↦
      let (l, phase') = advance y.limiter now woken phase in
      record { limiter = l; calls = set y.calls k phase' }
]

unfoldable pub run : System → List Event → System
unfolding step
run y [] = y
run y (e ∷ es) = run (step y e) es

unfoldable pub start : Option Rate → Option ℕ → System
start rate concurrent = record { limiter = new rate concurrent; calls = [] }

-- Whether a call holds a slot, as 1 or 0.
abbrev pub holds : Phase → ℕ
holds (booking _ slot) = bit slot
holds (timing _ slot _) = bit slot
holds (turn_slept _ slot _) = bit slot
holds (pausing _ slot _) = bit slot
holds (pause_slept _ slot _) = bit slot
holds (measuring _ slot) = bit slot
holds (granted _ slot) = bit slot
holds (failing slot) = bit slot
holds _ = 0

-- Whether a call queues with the ticket `t`.
abbrev pub awaits : ℕ → Phase → ℕ
awaits t (queued _ ticket) = bit (ticket == t)
awaits t (queue_slept _ ticket) = bit (ticket == t)
awaits t _ = 0

abbrev pub total : (Phase → ℕ) → List Phase → ℕ
total f [] = 0
total f (p ∷ ps) = f p + total f ps

total-set :
    (f : Phase → ℕ) (ps : List Phase) (k : ℕ) (p p' : Phase)
    → get_elem? ps k ≡ some p
    → total f (set ps k p') + f p ≡ total f ps + f p'
total-set f [] k p p' e = ground arith
total-set f (q ∷ ps) zero p p' e = ground arith
total-set f (q ∷ ps) (suc k) p p' e = omega (arith, total-set f ps k p p' e)

module _ (m t : ℕ) where
  -- Each slot in flight is a call's, and each queued ticket `t` too.
  abbrev SoundAt : Option Slots → List Phase → Type 0
  SoundAt none ps = (total holds ps ≡ 0) × (total (awaits t) ps ≡ 0)
  SoundAt (some s) ps =
      (s.in_flight ≡ total holds ps)
      × (s.in_flight ≤ m)
      × (s.max ≡ m)
      × (occurs t s.queue ≤ total (awaits t) ps)

  SoundAt-set :
      (o : Option Slots) (ps : List Phase) (k : ℕ) (p p' : Phase)
      → get_elem? ps k ≡ some p
      → holds p ≡ holds p'
      → awaits t p ≡ awaits t p'
      → SoundAt o ps
      → SoundAt o (set ps k p')
  SoundAt-set none ps k p p' e h a v =
      omega (arith, total-set holds ps k p p' e, total-set (awaits t) ps k p p' e)
  SoundAt-set (some s) ps k p p' e h a v =
      omega (arith, total-set holds ps k p p' e, total-set (awaits t) ps k p p' e)

  SoundAt-moved :
      (s s' : Slots) (ps : List Phase) (k : ℕ) (p p' : Phase)
      → get_elem? ps k ≡ some p
      → SoundAt (some s) ps
      → s'.in_flight + holds p ≡ s.in_flight + holds p'
      → s'.in_flight ≤ m
      → s'.max ≡ s.max
      → occurs t s'.queue ≤ occurs t s.queue + awaits t p' - awaits t p
      → SoundAt (some s') (set ps k p')
  SoundAt-moved s s' ps k p p' e v h b c q =
      omega (arith, total-set holds ps k p p' e, total-set (awaits t) ps k p p' e)

  module _ (l : Limiter) (now : ℕ) (woken : Bool) (ps : List Phase) (k : ℕ) where
    abbrev Keeps : Option Slots → Phase → Type 0
    Keeps o p =
        l.state.slots ≡ o
        → get_elem? ps k ≡ some p
        → SoundAt o ps
        → let (l', p') = advance l now woken p in SoundAt l'.state.slots (set ps k p')

    starting-Sound : (o : Option Slots) → Keeps o starting
    unfolding advance with_slots
    starting-Sound none e g v =
        rw (e, enter_queue, e) (SoundAt-set none ps k starting (booking now false) g refl refl v)
    starting-Sound (some s) e g v =
        let h = occurs-enqueue t s in
        rw (e, enter_queue)
          (SoundAt-moved s (enqueue s).1 ps k starting (queued now (enqueue s).0) g v
            (omega (arith, h)) (omega (arith, h)) (omega (arith, h)) (omega (arith, h)))

    queued-Sound : (o : Option Slots) (started ticket : ℕ) → Keeps o (queued started ticket)
    unfolding advance with_slots
    queued-Sound none started ticket e g v =
        rw (e, look, e)
          (SoundAt-set none ps k (queued started ticket) (queue_slept started ticket) g refl refl v)
    queued-Sound (some s) started ticket e g v =
        let h = occurs-try_enter t ticket s in
        rw (e, look)
          (SoundAt-moved s (try_enter s ticket).1 ps k (queued started ticket) _ g v
            (ground (arith, h)) (ground (arith, h)) h.3 (ground (arith, h)))

    slept-Sound : (o : Option Slots) (started ticket : ℕ) → Keeps o (queue_slept started ticket)
    unfolding advance with_slots
    slept-Sound none started ticket e g v = elim (Bool-cases woken) [
      | inl w ↦
          rw (w, e)
            (SoundAt-set none ps k (queue_slept started ticket) (queued started ticket) g refl refl
              v)
      | inr w ↦
          rw (w, e, leave_queue, e)
            (omega
              (arith, total-set holds ps k _ cancelled g, total-set (awaits t) ps k _ cancelled g))
    ]
    slept-Sound (some s) started ticket e g v = elim (Bool-cases woken) [
      | inl w ↦
          rw (w, e)
            (SoundAt-set (some s) ps k (queue_slept started ticket) (queued started ticket) g refl
              refl v)
      | inr w ↦
          let h = occurs-leave t ticket s in
          rw (w, e, leave_queue)
            (SoundAt-moved s (leave s ticket) ps k (queue_slept started ticket) cancelled g v
              (omega (arith, h)) (omega (arith, h)) h.2 (omega (arith, h)))
    ]

    -- The steps that keep the slots: they stay `o`, and the call holds a slot as before.
    kept-Sound :
        (o o' : Option Slots) (p p' : Phase)
        → o' ≡ o
        → holds p ≡ holds p'
        → awaits t p ≡ awaits t p'
        → get_elem? ps k ≡ some p
        → SoundAt o ps
        → SoundAt o' (set ps k p')
    kept-Sound o o' p p' e h a g v = rw e (SoundAt-set o ps k p p' g h a v)

    booking-Sound : (o : Option Slots) (started : ℕ) (slot : Bool) → Keeps o (booking started slot)
    unfolding advance with_bucket
    booking-Sound o started slot e g v = elim (Option-cases l.state.bucket) [
      | inl b ↦ rw (b, book) (kept-Sound o _ _ _ e refl refl g v)
      | inr (b, h) ↦ rw (h, book) (kept-Sound o _ _ _ e refl refl g v)
    ]

    dropped-Sound :
        (o : Option Slots) (p p' : Phase) (slot : Bool)
        → holds p ≡ bit slot
        → holds p' ≡ 0
        → awaits t p ≡ 0
        → awaits t p' ≡ 0
        → l.state.slots ≡ o
        → get_elem? ps k ≡ some p
        → SoundAt o ps
        → SoundAt (drop_permit l slot).state.slots (set ps k p')
    unfolding drop_permit with_slots release
    dropped-Sound o p p' false hp hp' ap ap' e g v =
        kept-Sound o _ p p' e (omega arith) (omega arith) g v
    dropped-Sound none p p' true hp hp' ap ap' e g v =
        absurd (omega (arith, total-set holds ps k p p' g))
    dropped-Sound (some s) p p' true hp hp' ap ap' e g v =
        rw (e, release)
          (SoundAt-moved s (Slots.release s) ps k p p' g v
            (omega (arith, occurs-release s, total-set holds ps k p p' g))
            (omega (arith, occurs-release s)) (occurs-release s).2
            (ground (arith, occurs-release s)))

    give_back-slots : (turn : Option Turn) → (give_back l turn).state.slots ≡ l.state.slots
    unfolding give_back
    give_back-slots none = refl
    give_back-slots (some turn) = elim (Option-cases l.state.bucket) [
      | inl e ↦ rw (e, give_back)
      | inr (b, e) ↦ rw (e, give_back)
    ]

    phase-Sound : (o : Option Slots) (p : Phase) → Keeps o p
    unfolding advance
    phase-Sound o starting e g v = starting-Sound o e g v
    phase-Sound o (queued started ticket) e g v = queued-Sound o started ticket e g v
    phase-Sound o (queue_slept started ticket) e g v = slept-Sound o started ticket e g v
    phase-Sound o (booking started slot) e g v = booking-Sound o started slot e g v
    phase-Sound o (timing started slot turn) e g v =
        kept-Sound o _ _ _ e (ground arith) (ground arith) g v
    phase-Sound o (turn_slept started slot turn) e g v = elim (Bool-cases woken) [
      | inl w ↦ rw w (kept-Sound o _ _ (timing started slot turn) e refl refl g v)
      | inr w ↦
          rw w (kept-Sound o _ _ (failing slot) (give_back-slots (some turn) ∙ e) refl refl g v)
    ]
    phase-Sound o (pausing started slot turn) e g v = elim (Option-cases (paused_for l.state now)) [
      | inl h ↦ rw (h, advance) (kept-Sound o _ _ (measuring started slot) e refl refl g v)
      | inr (left, h) ↦
          rw (h, advance) (kept-Sound o _ _ (pause_slept started slot turn) e refl refl g v)
    ]
    phase-Sound o (pause_slept started slot turn) e g v = elim (Bool-cases woken) [
      | inl w ↦ rw w (kept-Sound o _ _ (pausing started slot turn) e refl refl g v)
      | inr w ↦ rw w (kept-Sound o _ _ (failing slot) (give_back-slots turn ∙ e) refl refl g v)
    ]
    phase-Sound o (measuring started slot) e g v =
        kept-Sound o _ _ (granted (now - started) slot) e refl refl g v
    phase-Sound o (granted waited slot) e g v =
        dropped-Sound o _ finished slot refl refl refl refl e g v
    phase-Sound o (failing slot) e g v = dropped-Sound o _ cancelled slot refl refl refl refl e g v
    phase-Sound o finished e g v = kept-Sound o _ _ finished e refl refl g v
    phase-Sound o cancelled e g v = kept-Sound o _ _ cancelled e refl refl g v

call-Sound :
    (m t : ℕ) (o : Option Slots) (ps : List Phase)
    → SoundAt m t o ps
    → SoundAt m t o (starting ∷ ps)
call-Sound m t none ps v = omega arith
call-Sound m t (some s) ps v = omega arith

-- At most `m` slots are in flight, each held by a call; each queued ticket is awaited by a call.
abbrev pub IsSound : ℕ → System → Type 0
IsSound m y = (t : ℕ) → SoundAt m t y.limiter.state.slots y.calls

step-IsSound : (m : ℕ) (y : System) (e : Event) → IsSound m y → IsSound m (step y e)
unfolding step refill pause_until
step-IsSound m y call v t = call-Sound m t y.limiter.state.slots y.calls (v t)
step-IsSound m y refilled v t = v t
step-IsSound m y (pauses until) v t = v t
step-IsSound m y (moves k now woken) v t = elim (Option-cases (get_elem? y.calls k)) [
  | inl e ↦ rw (e, step) (v t)
  | inr (p, e) ↦ rw (e, step) (phase-Sound m t y.limiter now woken y.calls k _ p refl e (v t))
]

run-IsSound : (m : ℕ) (y : System) (es : List Event) → IsSound m y → IsSound m (run y es)
unfolding run
run-IsSound m y [] v = v
run-IsSound m y (e ∷ es) v = run-IsSound m (step y e) es (step-IsSound m y e v)

start-IsSound : (rate : Option Rate) (n : ℕ) → IsSound (max n 1) (start rate (some n))
unfolding start new fresh Slots.new
start-IsSound rate n t = (refl, omega arith, refl, omega arith)

-- However the calls of `acquire` interleave, with pauses and refills in between, the slots in flight
-- are those that calls hold, and at most `n` (one, for a limit of 0).
pub limit_kept :
    (rate : Option Rate) (n : ℕ) (es : List Event)
    → let y = run (start rate (some n)) es in
      (in_flight y.limiter ≡ total holds y.calls) × (in_flight y.limiter ≤ max n 1)
unfolding in_flight
limit_kept rate n es =
    let y = run (start rate (some n)) es in
    at_slots y.limiter.state.slots y.calls
      (run-IsSound (max n 1) (start rate (some n)) es (start-IsSound rate n) 0)
  where
    at_slots :
        (o : Option Slots) (ps : List Phase)
        → SoundAt (max n 1) 0 o ps
        → ((elim o [ none ↦ 0 | some s ↦ s.in_flight ]) ≡ total holds ps)
          × ((elim o [ none ↦ 0 | some s ↦ s.in_flight ]) ≤ max n 1)
    at_slots none ps v = (omega arith, omega arith)
    at_slots (some s) ps v = (v.0, v.1)

abbrev pub is_over : Phase → Bool
is_over finished = true
is_over cancelled = true
is_over _ = false

abbrev pub AllOver : List Phase → Type 0
AllOver [] = Unit
AllOver (p ∷ ps) = (is_over p ≡ true) × AllOver ps

over-idle : (t : ℕ) (p : Phase) → is_over p ≡ true → (holds p ≡ 0) × (awaits t p ≡ 0)
over-idle t finished h = (refl, refl)
over-idle t cancelled h = (refl, refl)
over-idle t _ h = cc

AllOver-total :
    (t : ℕ) (ps : List Phase) → AllOver ps → (total holds ps ≡ 0) × (total (awaits t) ps ≡ 0)
AllOver-total t [] h = (refl, refl)
AllOver-total t (p ∷ ps) h = omega (arith, over-idle t p h.0, AllOver-total t ps h.1)

nobody_queued : (q : List ℕ) → ((t : ℕ) → occurs t q ≡ 0) → q ≡ []
nobody_queued [] h = refl
nobody_queued (t ∷ q) h = ground (arith, h t)

-- Once every call has finished or been cancelled, at whatever point, all slots are free and no
-- ticket is left in the queue.
pub nothing_leaks :
    (rate : Option Rate) (n : ℕ) (es : List Event) (s : Slots)
    → let y = run (start rate (some n)) es in
      y.limiter.state.slots ≡ some s → AllOver y.calls → (s.in_flight ≡ 0) × (s.queue ≡ [])
nothing_leaks rate n es s e over =
    let y = run (start rate (some n)) es in
    let v = run-IsSound (max n 1) (start rate (some n)) es (start-IsSound rate n) in
    let at_some : (t : ℕ) → SoundAt (max n 1) t (some s) y.calls = λ t. rw e at (v t) in
    (
      omega (arith, at_some 0, AllOver-total 0 y.calls over),
      nobody_queued s.queue (λ t. omega (arith, at_some t, AllOver-total t y.calls over)),
    )
