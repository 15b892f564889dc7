-- ===== src/Limits/Slots/Order.antt =====
-- Who is let in: over any history of calls, at most `max` at once, in the order of their tickets.
use grenat.Prelude.{
  ℕ, zero, suc, ◌+◌, ◌-◌, ◌≤◌, ◌<◌, ◌≡◌, refl, List, [], ◌∷◌, ◌++◌, arith, drop, min, max, length,
  if◌then◌else◌,
}
use grenat.Limits.Slots.{Slots, new, enqueue, try_enter, without, leave, release}

pub data Event : Type 0 where
  enqueues releases : Event
  tries leaves : ℕ → Event

-- The slots, and the tickets let in so far, the last one first.
pub record History : Type 0 where
  pub slots : Slots
  pub entered : List ℕ

unfoldable pub step : History → Event → History
step h enqueues = record h { slots = (enqueue h.slots).1 }
step h releases = record h { slots = release h.slots }
step h (leaves t) = record h { slots = leave h.slots t }
step h (tries t) =
    let (let_in, slots) = try_enter h.slots t in
    record { slots = slots; entered = if let_in then t ∷ h.entered else h.entered }

unfoldable pub run : History → List Event → History
unfolding step
run h [] = h
run h (e ∷ es) = run (step h e) es

-- Tickets from `lo` on, each smaller than the next, all below `hi`.
abbrev pub Ascending : ℕ → ℕ → List ℕ → Type 0
Ascending lo hi [] = lo ≤ hi
Ascending lo hi (t ∷ ts) = (lo ≤ t) × Ascending (suc t) hi ts

-- Each ticket larger than the next.
abbrev pub Descending : List ℕ → Type 0
Descending [] = Unit
Descending (t ∷ []) = Unit
Descending (t ∷ u ∷ ts) = (u < t) × Descending (u ∷ ts)

-- The first ticket that may still come.
abbrev above : List ℕ → ℕ
above [] = 0
above (t ∷ ts) = suc t

pub record IsFair (h : History) : Type 0 where
  pub within : h.slots.in_flight ≤ h.slots.max
  pub some_slot : 1 ≤ h.slots.max
  pub queued : Ascending (above h.entered) h.slots.next_ticket h.slots.queue
  pub in_order : Descending h.entered

Ascending-le : (lo hi : ℕ) (ts : List ℕ) → Ascending lo hi ts → lo ≤ hi
Ascending-le lo hi [] a = a
Ascending-le lo hi (t ∷ ts) a = omega (arith, Ascending-le (suc t) hi ts a.1)

Ascending-append :
    (lo hi : ℕ) (ts : List ℕ) → Ascending lo hi ts → Ascending lo (hi + 1) (ts ++ hi ∷ [])
Ascending-append lo hi [] a = (a, omega arith)
Ascending-append lo hi (t ∷ ts) a = (a.0, Ascending-append (suc t) hi ts a.1)

Ascending-mono : (lo lo' hi : ℕ) (ts : List ℕ) → lo ≤ lo' → Ascending lo' hi ts → Ascending lo hi ts
Ascending-mono lo lo' hi [] h a = omega arith
Ascending-mono lo lo' hi (t ∷ ts) h a = (omega arith, a.1)

Ascending-without :
    (lo hi x : ℕ) (ts : List ℕ) → Ascending lo hi ts → Ascending lo hi (without x ts)
unfolding without
Ascending-without lo hi x [] a = a
Ascending-without lo hi x (t ∷ ts) a =
    ground
      (arith, Ascending-without (suc t) hi x ts a.1, Ascending-mono lo (suc t) hi (without x ts))

Descending-cons : (u : ℕ) (ts : List ℕ) → above ts ≤ u → Descending ts → Descending (u ∷ ts)
Descending-cons u [] h d = tt
Descending-cons u (t ∷ ts) h d = (h, d)

enter-IsFair :
    (h : History) (t : ℕ) (q : List ℕ) → h.slots.queue ≡ q → IsFair h → IsFair (step h (tries t))
unfolding step try_enter
enter-IsFair h t [] e v = ground (arith, v.queued, v.in_order)
enter-IsFair h t (u ∷ q) e v = ground (arith, v.queued, v.in_order, Descending-cons u h.entered)

step-IsFair : (h : History) (e : Event) → IsFair h → IsFair (step h e)
unfolding step enqueue leave release
step-IsFair h enqueues v = record {
  within = v.within;
  some_slot = v.some_slot;
  queued = Ascending-append _ _ h.slots.queue v.queued;
  in_order = v.in_order;
}
step-IsFair h releases v = record {
  within = omega arith;
  some_slot = v.some_slot;
  queued = v.queued;
  in_order = v.in_order;
}
step-IsFair h (tries t) v = enter-IsFair h t h.slots.queue refl v
step-IsFair h (leaves t) v = record {
  within = v.within;
  some_slot = v.some_slot;
  queued = Ascending-without _ _ t h.slots.queue v.queued;
  in_order = v.in_order;
}

-- Every operation keeps the calls in flight within the limit, the queue in the order of its tickets
-- behind those let in, and those let in ordered.
pub run-IsFair : (h : History) (es : List Event) → IsFair h → IsFair (run h es)
unfolding run
run-IsFair h [] v = v
run-IsFair h (enqueues ∷ es) v = run-IsFair (step h enqueues) es (step-IsFair h enqueues v)
run-IsFair h (releases ∷ es) v = run-IsFair (step h releases) es (step-IsFair h releases v)
run-IsFair h (tries t ∷ es) v = run-IsFair (step h (tries t)) es (step-IsFair h (tries t) v)
run-IsFair h (leaves t ∷ es) v = run-IsFair (step h (leaves t)) es (step-IsFair h (leaves t) v)

unfoldable pub start : ℕ → History
start n = record { slots = new n; entered = [] }

-- Every queued call looks once, in the order of the queue.
unfoldable pub sweep : History → List ℕ → History
sweep h [] = h
sweep h (t ∷ ts) = sweep (step h (tries t)) ts

sweep_full : (h : History) (ts : List ℕ) → h.slots.max ≤ h.slots.in_flight → sweep h ts ≡ h
unfolding sweep step try_enter
sweep_full h [] full = refl
sweep_full h (t ∷ ts) full =
    let e : step h (tries t) ≡ h = ground arith in rw e (sweep_full h ts full)

first_out :
    (h : History) (t : ℕ) (q : List ℕ)
    → h.slots.queue ≡ t ∷ q
    → h.slots.in_flight < h.slots.max
    → ((step h (tries t)).slots.queue ≡ q)
      × ((step h (tries t)).slots.in_flight ≡ h.slots.in_flight + 1)
      × ((step h (tries t)).slots.max ≡ h.slots.max)
unfolding step try_enter
first_out h t q e f = (ground arith, ground arith, ground arith)

sweep_free :
    (n : ℕ) (h : History) (q : List ℕ)
    → h.slots.queue ≡ q
    → h.slots.in_flight + n ≡ h.slots.max
    → ((sweep h q).slots.queue ≡ drop n q)
      × ((sweep h q).slots.in_flight ≡ h.slots.in_flight + min n (length q))
unfolding sweep
sweep_free zero h q e f = rw (sweep_full h q (omega arith)) (e, omega arith)
sweep_free (suc n) h [] e f = (e, omega arith)
sweep_free (suc n) h (t ∷ q) e f =
    let (q', n') =
      sweep_free n (step h (tries t)) q (first_out h t q e (omega arith)).0
        (ground (arith, first_out h t q e)) in
    (q', ground (arith, first_out h t q e))

-- When the queued calls look in turn, the free slots go to the first of the queue, one each, until
-- no slot is free or nobody waits.
sweep_serves_first :
    (h : History)
    → IsFair h
    → let free = h.slots.max - h.slots.in_flight in
      let h' = sweep h h.slots.queue in
      (h'.slots.queue ≡ drop free h.slots.queue)
      × (h'.slots.in_flight ≡ h.slots.in_flight + min free (length h.slots.queue))
sweep_serves_first h v =
    let w = v.within in
    sweep_free (h.slots.max - h.slots.in_flight) h h.slots.queue refl (omega arith)
