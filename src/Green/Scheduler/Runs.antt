-- ===== src/Green/Scheduler/Runs.antt =====
-- What the scheduler promises, whatever its threads do and in whatever order.
use grenat.Prelude.{
  ℕ, ◌≡◌, refl, sym, ap, ◌∙◌, true, false, List, [], ◌∷◌, none, some, ◌==◌, inl, inr, arith,
  Bool-cases,
}
use grenat.Green.Put.{put, put-other}
use grenat.Green.Scheduler.{
  TaskState, absent, queued, running, parked, notified, done, Thread, free, waking, seen, pushing,
  taken, resumed, parking, requeuing, finishing, System, stores, goes,
}
use grenat.Green.Scheduler.Owners.{
  owner, is_live, is_queued, is_run, fits, copies, Sound, fits-notified, stay-Sound,
}
use grenat.Green.Scheduler.{
  start, is_running, is_parked, is_absent, load, exchange, advance, after, Outcome, yields, parks,
  returns, takes, spawns, Event, moves, takes_task, wakes_task, spawns_task, step, run, is_free,
}
use grenat.Green.Scheduler.Steps.{own-Sound, drop-Sound, get-Sound}
use grenat.Green.Scheduler.Queue.{take-Sound, push-Sound}

goes-Sound :
    (y : System) (i : ℕ) (o p : Thread)
    → y.threads i ≡ o
    → owner p ≡ owner o
    → ((k : ℕ) → owner p ≡ some k → fits p (y.states k) ≡ true)
    → Sound y
    → Sound (goes y i p)
goes-Sound y i o p at same mine v =
    stay-Sound y i o p at y.states same (λ k l. l) v.waits mine (λ j k other e. v.fit j k e) v

-- The fit of a thread that is at `o`, with the task `k`.
fit_at :
    (y : System) (i k : ℕ) (o : Thread)
    → y.threads i ≡ o
    → owner o ≡ some k
    → Sound y
    → fits o (y.states k) ≡ true
fit_at y i k o at has v = sym (ap (λ t. fits t (y.states k)) at) ∙ v.fit i k (ap owner at ∙ has)

load-Sound :
    (y : System) (i k : ℕ) (s : TaskState) → y.threads i ≡ waking k → Sound y → Sound (load y i k s)
unfolding load
load-Sound y i k parked at v = goes-Sound y i (waking k) (seen k parked) at refl (λ j e. refl) v
load-Sound y i k running at v = goes-Sound y i (waking k) (seen k running) at refl (λ j e. refl) v
load-Sound y i k _ at v = goes-Sound y i (waking k) free at refl (λ j e. refl) v

parked_dead : (s : TaskState) → is_parked s ≡ true → is_live s ≡ false
parked_dead parked h = refl
parked_dead _ h = absurd (ground arith)

absent_dead : (s : TaskState) → is_absent s ≡ true → is_live s ≡ false
absent_dead absent h = refl
absent_dead _ h = absurd (ground arith)

running_is : (s : TaskState) → is_running s ≡ true → s ≡ running
running_is running h = refl
running_is _ h = absurd (ground arith)

-- A wake-up of a running task leaves it with its owner.
notify-Sound :
    (y : System) (i k : ℕ) (o : Thread)
    → y.threads i ≡ o
    → owner o ≡ none
    → is_running (y.states k) ≡ true
    → Sound y
    → Sound (stores y i free k notified)
notify-Sound y i k o at unheld runs v =
    let was : y.states k ≡ running = running_is (y.states k) runs in
    stay-Sound y i o free at (put y.states k notified) (sym unheld)
      (λ j l. elim (Bool-cases (j == k)) [
        | inl same ↦
            let its : j ≡ k = ground arith in ap (λ n. is_live (y.states n)) its ∙ ap is_live was
        | inr apart ↦ sym (ap is_live (put-other y.states k notified j apart)) ∙ l
      ])
      (λ j q. elim (Bool-cases (j == k)) [
        | inl same ↦
            let its : j ≡ k = ground arith in
            absurd
              (ground (arith, v.waits j q, ap (λ n. is_queued (y.states n)) its, ap is_queued was))
        | inr apart ↦ ap is_queued (put-other y.states k notified j apart) ∙ v.waits j q
      ])
      (λ j e. refl)
      (λ j n other e. elim (Bool-cases (n == k)) [
        | inl same ↦
            let its : n ≡ k = ground arith in
            let now : put y.states k notified n ≡ notified = rw same refl in
            let fit =
              sym (ap (λ st. fits (y.threads j) st) (ap y.states its ∙ was)) ∙ v.fit j n e in
            ap (λ st. fits (y.threads j) st) now ∙ fits-notified (y.threads j) fit
        | inr apart ↦
            ap (λ st. fits (y.threads j) st) (put-other y.states k notified n apart) ∙ v.fit j n e
      ])
      v

exchange-Sound :
    (y : System) (i k : ℕ) (s : TaskState)
    → y.threads i ≡ seen k s
    → Sound y
    → Sound (exchange y i k s (y.states k))
unfolding exchange
exchange-Sound y i k parked at v = elim (Bool-cases (is_parked (y.states k))) [
  | inl h ↦
      rw (h, exchange)
        (get-Sound y i (seen k parked) (pushing k) at k queued v refl refl
          (parked_dead (y.states k) h) refl refl)
  | inr h ↦ rw (h, exchange) (goes-Sound y i (seen k parked) (waking k) at refl (λ j e. refl) v)
]
exchange-Sound y i k running at v = elim (Bool-cases (is_running (y.states k))) [
  | inl h ↦ rw (h, exchange) (notify-Sound y i k (seen k running) at refl h v)
  | inr h ↦ rw (h, exchange) (goes-Sound y i (seen k running) (waking k) at refl (λ j e. refl) v)
]
exchange-Sound y i k absent at v = goes-Sound y i (seen k absent) (waking k) at refl (λ j e. refl) v
exchange-Sound y i k queued at v = goes-Sound y i (seen k queued) (waking k) at refl (λ j e. refl) v
exchange-Sound y i k notified at v =
    goes-Sound y i (seen k notified) (waking k) at refl (λ j e. refl) v
exchange-Sound y i k done at v = goes-Sound y i (seen k done) (waking k) at refl (λ j e. refl) v

after-Sound :
    (y : System) (i k : ℕ) (outcome : Outcome)
    → y.threads i ≡ resumed k
    → Sound y
    → Sound (goes y i (after outcome k))
after-Sound y i k outcome at v =
    let fit = λ (n : ℕ) (e : some k ≡ some n). fit_at y i n (resumed k) at e v in go outcome fit
  where
    go :
        (out : Outcome)
        → ((n : ℕ) → some k ≡ some n → is_run (y.states n) ≡ true)
        → Sound (goes y i (after out k))
    go yields fit = goes-Sound y i (resumed k) (requeuing k) at refl fit v
    go parks fit = goes-Sound y i (resumed k) (parking k) at refl fit v
    go returns fit = goes-Sound y i (resumed k) (finishing k) at refl fit v

advance-Sound :
    (y : System) (i : ℕ) (outcome : Outcome) (o : Thread)
    → y.threads i ≡ o
    → Sound y
    → Sound (advance y i outcome o)
unfolding advance
advance-Sound y i outcome free at v = v
advance-Sound y i outcome (waking k) at v = load-Sound y i k (y.states k) at v
advance-Sound y i outcome (seen k s) at v = exchange-Sound y i k s at v
advance-Sound y i outcome (pushing k) at v = push-Sound y i k at v
advance-Sound y i outcome (taken k) at v =
    own-Sound y i (taken k) (resumed k) at k running v refl refl refl
advance-Sound y i outcome (resumed k) at v = after-Sound y i k outcome at v
advance-Sound y i outcome (parking k) at v = elim (Bool-cases (is_running (y.states k))) [
  | inl h ↦ rw (h, advance) (drop-Sound y i (parking k) free at k parked v refl refl refl)
  | inr h ↦
      rw (h, advance)
        (goes-Sound y i (parking k) (requeuing k) at refl (λ n e. fit_at y i n (parking k) at e v)
          v)
]
advance-Sound y i outcome (requeuing k) at v =
    own-Sound y i (requeuing k) (pushing k) at k queued v refl refl refl
advance-Sound y i outcome (finishing k) at v =
    drop-Sound y i (finishing k) free at k done v refl refl refl

free_is : (t : Thread) → is_free t ≡ true → t ≡ free
free_is free h = refl
free_is _ h = absurd (ground arith)

takes-Sound : (y : System) (i : ℕ) → y.threads i ≡ free → Sound y → Sound (takes y i)
unfolding takes
takes-Sound y i at v = go y.queue refl
  where
    go : (q : List ℕ) → y.queue ≡ q → Sound (takes y i)
    go [] e = rw (e, takes) v
    go (k ∷ rest) e = rw (e, takes) (take-Sound y i k rest at e v)

spawns-Sound : (y : System) (i k : ℕ) → y.threads i ≡ free → Sound y → Sound (spawns y i k)
unfolding spawns
spawns-Sound y i k at v = elim (Bool-cases (is_absent (y.states k))) [
  | inl h ↦
      rw (h, spawns)
        (get-Sound y i free (pushing k) at k queued v refl refl (absent_dead (y.states k) h) refl
          refl)
  | inr h ↦ rw (h, spawns) v
]

step-Sound : (y : System) (e : Event) → Sound y → Sound (step y e)
unfolding step
step-Sound y (moves i outcome) v = advance-Sound y i outcome (y.threads i) refl v
step-Sound y (takes_task i) v = elim (Bool-cases (is_free (y.threads i))) [
  | inl h ↦ rw (h, step) (takes-Sound y i (free_is (y.threads i) h) v)
  | inr h ↦ rw (h, step) v
]
step-Sound y (wakes_task i k) v = elim (Bool-cases (is_free (y.threads i))) [
  | inl h ↦
      rw (h, step) (goes-Sound y i free (waking k) (free_is (y.threads i) h) refl (λ j e. refl) v)
  | inr h ↦ rw (h, step) v
]
step-Sound y (spawns_task i k) v = elim (Bool-cases (is_free (y.threads i))) [
  | inl h ↦ rw (h, step) (spawns-Sound y i k (free_is (y.threads i) h) v)
  | inr h ↦ rw (h, step) v
]

pub start-Sound : Sound start
unfolding copies
start-Sound = record {
  one = λ i j k e f. absurd (ground arith);
  fit = λ i k e. refl;
  once = λ k. omega arith;
  waits = λ k q. absurd (omega arith);
  unowned = λ i k q e. ground arith;
  kept = λ k l. absurd (ground arith);
}

pub run-Sound : (y : System) (es : List Event) → Sound y → Sound (run y es)
unfolding run
run-Sound y [] v = v
run-Sound y (e ∷ es) v = run-Sound (step y e) es (step-Sound y e v)
