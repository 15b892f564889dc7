-- ===== src/Green/Scheduler/Calls.antt =====
-- A call of `wake`: how it ends.
use mathlib.Core.Option.{some-injective}
use grenat.Prelude.{
  Option, subst, sym, ℕ, ◌≡◌, refl, ap, ◌∙◌, Bool, true, false, List, [], ◌∷◌, none, some, ◌==◌,
  ◌⊎◌, inl, inr, arith, Bool-cases,
}
use grenat.Green.Put.{put_self, put-other}
use grenat.Green.Scheduler.{
  TaskState, queued, running, parked, notified, done, Thread, free, waking, seen, pushing, taken,
  resumed, parking, requeuing, finishing, System, stores, goes, absent, after,
}
use grenat.Green.Scheduler.{
  is_running, is_parked, is_absent, load, exchange, advance, Outcome, takes, spawns, Event, moves,
  takes_task, wakes_task, spawns_task, step, is_free,
}

-- The task that a thread is in a call of `wake` for.
abbrev pub calls_wake : Thread → Option ℕ
calls_wake (waking k) = some k
calls_wake (seen k state) = some k
calls_wake _ = none

-- The task is neither parked nor running without a wake-up noted: it is not spawned, over, in the queue, or
-- woken while it ran.
abbrev pub is_settled : TaskState → Bool
is_settled running = false
is_settled parked = false
is_settled _ = true

module _ (y : System) (i k : ℕ) where
  -- The thread's call goes on after the step, or it has settled the task.
  abbrev pub GoesOn : System → Type 0
  GoesOn y' = (calls_wake (y'.threads i) ≡ some k) ⊎ (is_settled (y'.states k) ≡ true)

  still_calls : (p : Thread) → calls_wake p ≡ some k → GoesOn (goes y i p)
  still_calls p e = inl (ap calls_wake (put_self y.threads i p) ∙ e)

  settled : (p : Thread) (s : TaskState) → is_settled s ≡ true → GoesOn (stores y i p k s)
  settled p s e = inr (ap is_settled (put_self y.states k s) ∙ e)

  load-GoesOn : (s : TaskState) → y.states k ≡ s → GoesOn (load y i k s)
  unfolding load
  load-GoesOn parked at = still_calls (seen k parked) refl
  load-GoesOn running at = still_calls (seen k running) refl
  load-GoesOn absent at = inr (ap is_settled at)
  load-GoesOn queued at = inr (ap is_settled at)
  load-GoesOn notified at = inr (ap is_settled at)
  load-GoesOn done at = inr (ap is_settled at)

  exchange-GoesOn : (s : TaskState) → GoesOn (exchange y i k s (y.states k))
  unfolding exchange
  exchange-GoesOn parked = elim (Bool-cases (is_parked (y.states k))) [
    | inl h ↦ rw (h, exchange) (settled (pushing k) queued refl)
    | inr h ↦ rw (h, exchange) (still_calls (waking k) refl)
  ]
  exchange-GoesOn running = elim (Bool-cases (is_running (y.states k))) [
    | inl h ↦ rw (h, exchange) (settled free notified refl)
    | inr h ↦ rw (h, exchange) (still_calls (waking k) refl)
  ]
  exchange-GoesOn _ = still_calls (waking k) refl

  advance-GoesOn : (out : Outcome) (o : Thread) → calls_wake o ≡ some k → GoesOn (advance y i out o)
  unfolding advance
  advance-GoesOn out (waking j) e =
      subst (λ n. GoesOn (load y i n (y.states n))) (sym (some-injective j k e))
        (load-GoesOn (y.states k) refl)
  advance-GoesOn out (seen j s) e =
      subst (λ n. GoesOn (exchange y i n s (y.states n))) (sym (some-injective j k e))
        (exchange-GoesOn s)
  advance-GoesOn out _ e = absurd (ground arith)

  exchange-others :
      (j n : ℕ) (s : TaskState)
      → (i == j) ≡ false
      → (exchange y j n s (y.states n)).threads i ≡ y.threads i
  unfolding exchange
  exchange-others j n parked apart = elim (Bool-cases (is_parked (y.states n))) [
    | inl h ↦ rw (h, exchange) (put-other y.threads j (pushing n) i apart)
    | inr h ↦ rw (h, exchange) (put-other y.threads j (waking n) i apart)
  ]
  exchange-others j n running apart = elim (Bool-cases (is_running (y.states n))) [
    | inl h ↦ rw (h, exchange) (put-other y.threads j free i apart)
    | inr h ↦ rw (h, exchange) (put-other y.threads j (waking n) i apart)
  ]
  exchange-others j n _ apart = put-other y.threads j (waking n) i apart

  load-others :
      (j n : ℕ) (s : TaskState) → (i == j) ≡ false → (load y j n s).threads i ≡ y.threads i
  unfolding load
  load-others j n parked apart = put-other y.threads j (seen n parked) i apart
  load-others j n running apart = put-other y.threads j (seen n running) i apart
  load-others j n _ apart = put-other y.threads j free i apart

  -- A thread's step leaves the others where they are.
  advance-others :
      (j : ℕ) (out : Outcome) (o : Thread)
      → (i == j) ≡ false
      → (advance y j out o).threads i ≡ y.threads i
  unfolding advance
  advance-others j out free apart = refl
  advance-others j out (waking n) apart = load-others j n (y.states n) apart
  advance-others j out (seen n s) apart = exchange-others j n s apart
  advance-others j out (pushing n) apart = put-other y.threads j free i apart
  advance-others j out (taken n) apart = put-other y.threads j (resumed n) i apart
  advance-others j out (resumed n) apart = put-other y.threads j (after out n) i apart
  advance-others j out (parking n) apart = elim (Bool-cases (is_running (y.states n))) [
    | inl h ↦ rw (h, advance) (put-other y.threads j free i apart)
    | inr h ↦ rw (h, advance) (put-other y.threads j (requeuing n) i apart)
  ]
  advance-others j out (requeuing n) apart = put-other y.threads j (pushing n) i apart
  advance-others j out (finishing n) apart = put-other y.threads j free i apart

  calls-busy : (p : Thread) → calls_wake p ≡ some k → is_free p ≡ false
  calls-busy (waking j) e = refl
  calls-busy (seen j s) e = refl
  calls-busy _ e = absurd (ground arith)

  module _ (calls : calls_wake (y.threads i) ≡ some k) where
    -- A thread that is free is another one.
    free-apart : (j : ℕ) → is_free (y.threads j) ≡ true → (i == j) ≡ false
    free-apart j h = elim (Bool-cases (i == j)) [
      | inl same ↦
          let its : i ≡ j = ground arith in
          absurd
            (ground (arith, calls-busy (y.threads i) calls, ap (λ n. is_free (y.threads n)) its, h))
      | inr apart ↦ apart
    ]

    takes-others :
        (j : ℕ) (q : List ℕ) → y.queue ≡ q → (i == j) ≡ false → (takes y j).threads i ≡ y.threads i
    unfolding takes
    takes-others j [] e apart = rw (e, takes) refl
    takes-others j (n ∷ rest) e apart = rw (e, takes) (put-other y.threads j (taken n) i apart)

    spawns-others : (j n : ℕ) → (i == j) ≡ false → (spawns y j n).threads i ≡ y.threads i
    unfolding spawns
    spawns-others j n apart = elim (Bool-cases (is_absent (y.states n))) [
      | inl h ↦ rw (h, spawns) (put-other y.threads j (pushing n) i apart)
      | inr h ↦ rw (h, spawns) refl
    ]

    -- Whatever the step, the call goes on or has settled the task.
    pub step-GoesOn : (e : Event) → GoesOn (step y e)
    unfolding step
    step-GoesOn (moves j out) = elim (Bool-cases (i == j)) [
      | inl same ↦
          let its : i ≡ j = ground arith in
          subst (λ n. GoesOn (advance y n out (y.threads n))) its
            (advance-GoesOn out (y.threads i) calls)
      | inr apart ↦ inl (ap calls_wake (advance-others j out (y.threads j) apart) ∙ calls)
    ]
    step-GoesOn (takes_task j) = elim (Bool-cases (is_free (y.threads j))) [
      | inl h ↦
          rw (h, step) (inl (ap calls_wake (takes-others j y.queue refl (free-apart j h)) ∙ calls))
      | inr h ↦ rw (h, step) (inl calls)
    ]
    step-GoesOn (wakes_task j n) = elim (Bool-cases (is_free (y.threads j))) [
      | inl h ↦
          rw (h, step)
            (inl (ap calls_wake (put-other y.threads j (waking n) i (free-apart j h)) ∙ calls))
      | inr h ↦ rw (h, step) (inl calls)
    ]
    step-GoesOn (spawns_task j n) = elim (Bool-cases (is_free (y.threads j))) [
      | inl h ↦ rw (h, step) (inl (ap calls_wake (spawns-others j n (free-apart j h)) ∙ calls))
      | inr h ↦ rw (h, step) (inl calls)
    ]
