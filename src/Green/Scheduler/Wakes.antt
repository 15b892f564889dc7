-- ===== src/Green/Scheduler/Wakes.antt =====
-- A task runs on one worker at a time, and no wake-up is lost.
use grenat.Prelude.{
  subst, ℕ, ◌≤◌, ◌≡◌, ◌≢◌, refl, ap, ◌∙◌, Bool, true, false, List, [], ◌∷◌, ◌++◌, some, ◌==◌, ◌⊎◌,
  inl, inr, arith, Bool-cases,
}
use grenat.Green.Put.{put, put-other}
use grenat.Green.Scheduler.{
  TaskState, absent, queued, running, parked, notified, done, Thread, free, waking, seen, pushing,
  taken, resumed, parking, requeuing, finishing, System, stores,
}
use grenat.Green.Scheduler.Owners.{owner, is_live, copies}
use grenat.Green.Scheduler.{
  start, is_running, is_parked, is_absent, load, exchange, advance, Outcome, takes, spawns, Event,
  moves, takes_task, wakes_task, spawns_task, step, run, is_free,
}
use grenat.Green.Scheduler.Calls.{calls_wake, is_settled, step-GoesOn}
use grenat.Green.Scheduler.Runs.{start-Sound, run-Sound}

-- After any steps, a task that a thread has, to run it or to put it back in the queue, is had by no other
-- thread and does not stand in the queue.
pub one_owner :
    (es : List Event) (i j k : ℕ)
    → (i == j) ≡ false
    → let y = run start es in
      owner (y.threads i) ≡ some k → (owner (y.threads j) ≢ some k) × (copies k y.queue ≡ 0)
one_owner es i j k apart e =
    let y = run start es in
    let v = run-Sound start es start-Sound in
    (
      λ f. ground (arith, v.one i j k e f),
      elim (Bool-cases (copies k y.queue == 0)) [
        | inl h ↦ ground arith
        | inr h ↦ absurd (v.unowned i k (ground arith) e)
      ],
    )

-- The task is in the queue, or woken while it ran.
abbrev pub is_woken : TaskState → Bool
is_woken queued = true
is_woken notified = true
is_woken _ = false

is_woken-live : (s : TaskState) → is_woken s ≡ true → is_live s ≡ true
is_woken-live queued h = refl
is_woken-live notified h = refl
is_woken-live _ h = absurd (ground arith)

woken_unparked : (s : TaskState) → is_woken s ≡ true → is_parked s ≡ false
woken_unparked queued h = refl
woken_unparked notified h = refl
woken_unparked _ h = absurd (ground arith)

woken_not_running : (s : TaskState) → is_woken s ≡ true → is_running s ≡ false
woken_not_running queued h = refl
woken_not_running notified h = refl
woken_not_running _ h = absurd (ground arith)

module _ (y : System) (k : ℕ) (w : is_woken (y.states k) ≡ true) where
  stored_unparked :
      (i j : ℕ) (p : Thread) (s' : TaskState)
      → is_parked s' ≡ false
      → is_parked ((stores y i p j s').states k) ≡ false
  stored_unparked i j p s' h = elim (Bool-cases (k == j)) [
    | inl same ↦ let now : put y.states j s' k ≡ s' = rw same refl in ap is_parked now ∙ h
    | inr apart ↦ ap is_parked (put-other y.states j s' k apart) ∙ woken_unparked (y.states k) w
  ]

  still : is_parked (y.states k) ≡ false
  still = woken_unparked (y.states k) w

  exchange-unparked :
      (i j : ℕ) (s : TaskState) → is_parked ((exchange y i j s (y.states j)).states k) ≡ false
  unfolding exchange
  exchange-unparked i j parked = elim (Bool-cases (is_parked (y.states j))) [
    | inl h ↦ rw (h, exchange) (stored_unparked i j (pushing j) queued refl)
    | inr h ↦ rw (h, exchange) still
  ]
  exchange-unparked i j running = elim (Bool-cases (is_running (y.states j))) [
    | inl h ↦ rw (h, exchange) (stored_unparked i j free notified refl)
    | inr h ↦ rw (h, exchange) still
  ]
  exchange-unparked i j _ = still

  load-unparked : (i j : ℕ) (s : TaskState) → is_parked ((load y i j s).states k) ≡ false
  unfolding load
  load-unparked i j parked = still
  load-unparked i j _ = still

  advance-unparked :
      (i : ℕ) (out : Outcome) (o : Thread) → is_parked ((advance y i out o).states k) ≡ false
  unfolding advance
  advance-unparked i out free = still
  advance-unparked i out (waking j) = load-unparked i j (y.states j)
  advance-unparked i out (seen j s) = exchange-unparked i j s
  advance-unparked i out (pushing j) = still
  advance-unparked i out (taken j) = stored_unparked i j (resumed j) running refl
  advance-unparked i out (resumed j) = still
  advance-unparked i out (parking j) = elim (Bool-cases (is_running (y.states j))) [
    | inl h ↦ rw (h, advance) (parked_other i j h)
    | inr h ↦ rw (h, advance) still
  ]
    where
      parked_other :
          (i j : ℕ) → is_running (y.states j) ≡ true → is_parked (put y.states j parked k) ≡ false
      parked_other i j h = elim (Bool-cases (k == j)) [
        | inl same ↦
            let its : k ≡ j = ground arith in
            absurd (
              ground
                (arith, h, woken_not_running (y.states k) w, ap (λ n. is_running (y.states n)) its))
        | inr apart ↦ ap is_parked (put-other y.states j parked k apart) ∙ still
      ]
  advance-unparked i out (requeuing j) = stored_unparked i j (pushing j) queued refl
  advance-unparked i out (finishing j) = stored_unparked i j free done refl

  takes-unparked : (i : ℕ) (q : List ℕ) → y.queue ≡ q → is_parked ((takes y i).states k) ≡ false
  unfolding takes
  takes-unparked i [] e = rw (e, takes) still
  takes-unparked i (j ∷ rest) e = rw (e, takes) still

  spawns-unparked : (i j : ℕ) → is_parked ((spawns y i j).states k) ≡ false
  unfolding spawns
  spawns-unparked i j = elim (Bool-cases (is_absent (y.states j))) [
    | inl h ↦ rw (h, spawns) (stored_unparked i j (pushing j) queued refl)
    | inr h ↦ rw (h, spawns) still
  ]

  step-unparked : (e : Event) → is_parked ((step y e).states k) ≡ false
  unfolding step
  step-unparked (moves i out) = advance-unparked i out (y.threads i)
  step-unparked (takes_task i) = elim (Bool-cases (is_free (y.threads i))) [
    | inl h ↦ rw (h, step) (takes-unparked i y.queue refl)
    | inr h ↦ rw (h, step) still
  ]
  step-unparked (wakes_task i j) = elim (Bool-cases (is_free (y.threads i))) [
    | inl h ↦ rw (h, step) still
    | inr h ↦ rw (h, step) still
  ]
  step-unparked (spawns_task i j) = elim (Bool-cases (is_free (y.threads i))) [
    | inl h ↦ rw (h, step) (spawns-unparked i j)
    | inr h ↦ rw (h, step) still
  ]

-- A task that is queued, or that was woken while it ran, stands in the queue or is had by a thread, and no
-- step of any thread parks it.
abbrev pub IsKept : System → ℕ → Type 0
IsKept y k =
    ((1 ≤ copies k y.queue) ⊎ ((i : ℕ) × (owner (y.threads i) ≡ some k)))
    × ((e : Event) → is_parked ((step y e).states k) ≡ false)

woken-IsKept :
    (es : List Event) (k : ℕ) → is_woken ((run start es).states k) ≡ true → IsKept (run start es) k
woken-IsKept es k w =
    let y = run start es in
    (
      (run-Sound start es start-Sound).kept k (is_woken-live (y.states k) w),
      λ e. step-unparked y k w e,
    )

abbrev pub is_over : TaskState → Bool
is_over absent = true
is_over done = true
is_over _ = false

settled-cases : (s : TaskState) → is_settled s ≡ true → (is_over s ≡ true) ⊎ (is_woken s ≡ true)
settled-cases absent h = inl refl
settled-cases done h = inl refl
settled-cases queued h = inr refl
settled-cases notified h = inr refl
settled-cases running h = absurd (ground arith)
settled-cases parked h = absurd (ground arith)

run-snoc : (y : System) (es : List Event) (e : Event) → run y (es ++ e ∷ []) ≡ step (run y es) e
unfolding run
run-snoc y [] e = refl
run-snoc y (f ∷ es) e = run-snoc (step y f) es e

-- After any steps, where the next step ends a call of `wake` for a task, the task is not spawned or is over, or
-- it is queued or noted as woken while it runs; then it stands in the queue or is had by a thread that runs
-- it or puts it back, and no further step of any thread parks it.
pub no_wake_lost :
    (es : List Event) (e : Event) (i k : ℕ)
    → let y = run start es in
      calls_wake (y.threads i) ≡ some k
      → calls_wake ((step y e).threads i) ≢ some k
      → (is_over ((step y e).states k) ≡ true)
        ⊎ ((is_woken ((step y e).states k) ≡ true) × IsKept (step y e) k)
no_wake_lost es e i k calls ends =
    let y = run start es in
    elim (step-GoesOn y i k calls e) [
      | inl on ↦ absurd (ends on)
      | inr quiet ↦ elim (settled-cases ((step y e).states k) quiet) [
        | inl over ↦ inl over
        | inr woken ↦ inr (
          woken,
          subst (λ z. is_woken (z.states k) ≡ true → IsKept z k) (run-snoc start es e)
              (woken-IsKept (es ++ e ∷ []) k) woken,
        )
      ]
    ]
