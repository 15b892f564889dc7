-- ===== src/Limits/Slots/Queue.antt =====
-- How often a ticket stands in the queue, and what each operation of the slots makes of it.
use grenat.Prelude.{
  ℕ, ◌+◌, ◌-◌, ◌≤◌, ◌<◌, ◌≡◌, refl, Bool, true, ◌&&◌, List, [], ◌∷◌, ◌++◌, ◌==◌, if◌then◌else◌,
  arith,
}
use grenat.Limits.Slots.{Slots, enqueue, try_enter, leave, release, without, is_front, pop_front}

-- A Boolean as 1 or 0.
abbrev pub bit : Bool → ℕ
bit b = if b then 1 else 0

abbrev pub occurs : ℕ → List ℕ → ℕ
occurs t [] = 0
occurs t (u ∷ us) = bit (u == t) + occurs t us

occurs-append : (t u : ℕ) (us : List ℕ) → occurs t (us ++ u ∷ []) ≡ occurs t us + bit (u == t)
occurs-append t u [] = omega arith
occurs-append t u (v ∷ us) = omega (arith, occurs-append t u us)

occurs-without : (t u : ℕ) (us : List ℕ) → occurs t (without u us) ≤ occurs t us - bit (u == t)
unfolding without
occurs-without t u [] = ground arith
occurs-without t u (v ∷ us) = ground (arith, occurs-without t u us)

occurs-pop_front :
    (t u : ℕ) (us : List ℕ)
    → is_front us u ≡ Bool.true
    → occurs t (pop_front us) + bit (u == t) ≡ occurs t us
unfolding is_front pop_front
occurs-pop_front t u [] h = ground arith
occurs-pop_front t u (v ∷ us) h = ground arith

-- Joining the queue adds the new ticket, once.
pub occurs-enqueue :
    (t : ℕ) (s : Slots)
    → let (ticket, s') = enqueue s in
      (occurs t s'.queue ≡ occurs t s.queue + bit (ticket == t))
      × (s'.in_flight ≡ s.in_flight)
      × (s'.max ≡ s.max)
unfolding enqueue
occurs-enqueue t s = (occurs-append t s.next_ticket s.queue, refl, refl)

-- Letting a ticket in takes it off the queue and takes a free slot.
pub occurs-try_enter :
    (t ticket : ℕ) (s : Slots)
    → let (let_in, s') = try_enter s ticket in
      (occurs t s'.queue + bit (let_in && ticket == t) ≡ occurs t s.queue)
      × (s'.in_flight ≡ s.in_flight + bit let_in)
      × (s'.in_flight ≤ s.max + (s.in_flight - s.max))
      × (s'.max ≡ s.max)
unfolding try_enter
occurs-try_enter t ticket s = ground (arith, occurs-pop_front t ticket s.queue)

-- Leaving takes the ticket off the queue.
pub occurs-leave :
    (t ticket : ℕ) (s : Slots)
    → let s' = leave s ticket in
      (occurs t s'.queue ≤ occurs t s.queue - bit (ticket == t))
      × (s'.in_flight ≡ s.in_flight)
      × (s'.max ≡ s.max)
unfolding leave
occurs-leave t ticket s = (occurs-without t ticket s.queue, refl, refl)

pub occurs-release :
    (s : Slots)
    → let s' = release s in
      (s'.queue ≡ s.queue) × (s'.in_flight ≡ s.in_flight - 1) × (s'.max ≡ s.max)
unfolding release
occurs-release s = (refl, refl, refl)

-- A call that queues when a slot is free and nobody queues is let in when it looks.
pub free_slot_enters :
    (s : Slots)
    → s.queue ≡ []
    → s.in_flight < s.max
    → let (ticket, s') = enqueue s in (try_enter s' ticket).0 ≡ true
unfolding enqueue try_enter is_front
free_slot_enters s q h = ground arith
