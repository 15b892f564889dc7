-- ===== src/Green/Scheduler/Owners.antt =====
-- Who has a task: a thread that is to run it, runs it or is to put it back; or the queue.
use grenat.Prelude.{
  ℕ, ◌+◌, ◌≤◌, ◌≡◌, ◌≢◌, refl, sym, ap, ◌∙◌, Bool, true, false, List, [], ◌∷◌, ◌++◌, Option, none,
  some, ◌==◌, ◌⊎◌, inl, inr, if◌then◌else◌, arith, Bool-cases,
}
use grenat.Green.Put.{put, put_self, put-other, put-same}
use grenat.Green.Scheduler.{
  TaskState, queued, running, notified, Thread, free, pushing, taken, resumed, parking, requeuing,
  finishing, System,
}

abbrev pub owner : Thread → Option ℕ
owner (pushing k) = some k
owner (taken k) = some k
owner (resumed k) = some k
owner (parking k) = some k
owner (requeuing k) = some k
owner (finishing k) = some k
owner _ = none

-- The task is to run, or runs.
abbrev pub is_live : TaskState → Bool
is_live queued = true
is_live running = true
is_live notified = true
is_live _ = false

abbrev pub is_queued : TaskState → Bool
is_queued queued = true
is_queued _ = false

abbrev pub is_run : TaskState → Bool
is_run running = true
is_run notified = true
is_run _ = false

-- A task's state is the one that its owner gives it.
abbrev pub fits : Thread → TaskState → Bool
fits (pushing k) state = is_queued state
fits (taken k) state = is_queued state
fits (resumed k) state = is_run state
fits (parking k) state = is_run state
fits (requeuing k) state = is_run state
fits (finishing k) state = is_run state
fits _ state = true

unfoldable pub copies : ℕ → List ℕ → ℕ
copies k [] = 0
copies k (j ∷ js) = if j == k then 1 + copies k js else copies k js

pub copies-append :
    (k j : ℕ) (js : List ℕ) → copies k (js ++ j ∷ []) ≡ copies k js + (if j == k then 1 else 0)
unfolding copies
copies-append k j [] = ground arith
copies-append k j (i ∷ js) = ground (arith, copies-append k j js)

pub copies-cons :
    (k j : ℕ) (js : List ℕ) → copies k (j ∷ js) ≡ copies k js + (if j == k then 1 else 0)
unfolding copies
copies-cons k j js = ground arith

-- Every task that is to run has one owner, or stands in the queue once.
pub record Sound (y : System) : Type 0 where
  pub one : (i j k : ℕ) → owner (y.threads i) ≡ some k → owner (y.threads j) ≡ some k → i ≡ j
  pub fit : (i k : ℕ) → owner (y.threads i) ≡ some k → fits (y.threads i) (y.states k) ≡ true
  pub once : (k : ℕ) → copies k y.queue ≤ 1
  pub waits : (k : ℕ) → 1 ≤ copies k y.queue → is_queued (y.states k) ≡ true
  pub unowned : (i k : ℕ) → 1 ≤ copies k y.queue → owner (y.threads i) ≢ some k
  pub kept :
      (k : ℕ)
      → is_live (y.states k) ≡ true
      → (1 ≤ copies k y.queue) ⊎ ((i : ℕ) × (owner (y.threads i) ≡ some k))

pub is_queued-live : (state : TaskState) → is_queued state ≡ true → is_live state ≡ true
is_queued-live queued h = refl
is_queued-live _ h = absurd (ground arith)

is_run-live : (state : TaskState) → is_run state ≡ true → is_live state ≡ true
is_run-live running h = refl
is_run-live notified h = refl
is_run-live _ h = absurd (ground arith)

pub fits-live :
    (t : Thread) (k : ℕ) (state : TaskState)
    → owner t ≡ some k
    → fits t state ≡ true
    → is_live state ≡ true
fits-live (pushing j) k state e h = is_queued-live state h
fits-live (taken j) k state e h = is_queued-live state h
fits-live (resumed j) k state e h = is_run-live state h
fits-live (parking j) k state e h = is_run-live state h
fits-live (requeuing j) k state e h = is_run-live state h
fits-live (finishing j) k state e h = is_run-live state h
fits-live _ k state e h = absurd (ground arith)

pub fits-notified : (t : Thread) → fits t running ≡ true → fits t notified ≡ true
fits-notified free h = h
fits-notified _ h = h

module _ (y : System) (i : ℕ) (o p : Thread) (at : y.threads i ≡ o) where
  -- Who owns after the move: the thread that moves, or one that did before.
  pub moved_owner :
      (j k : ℕ)
      → owner (put y.threads i p j) ≡ some k
      → ((j ≡ i) × (owner p ≡ some k)) ⊎ (((j == i) ≡ false) × (owner (y.threads j) ≡ some k))
  moved_owner j k e = elim (Bool-cases (j == i)) [
    | inl same ↦
        let its : j ≡ i = ground arith in
        let now : put y.threads i p j ≡ p = rw same refl in inl (its, sym (ap owner now) ∙ e)
    | inr other ↦ inr (other, sym (ap owner (put-other y.threads i p j other)) ∙ e)
  ]

  pub kept_owner :
      (j k : ℕ)
      → (j == i) ≡ false
      → owner (y.threads j) ≡ some k
      → owner (put y.threads i p j) ≡ some k
  kept_owner j k other e = ap owner (put-other y.threads i p j other) ∙ e

  pub fit_moved :
      (states' : ℕ → TaskState)
      → ((k : ℕ) → owner p ≡ some k → fits p (states' k) ≡ true)
      → ((j k : ℕ)
          → (j == i) ≡ false
          → owner (y.threads j) ≡ some k
          → fits (y.threads j) (states' k) ≡ true)
      → (j k : ℕ) → owner (put y.threads i p j) ≡ some k
      → fits (put y.threads i p j) (states' k) ≡ true
  fit_moved states' mine others j k e = elim (moved_owner j k e) [
    | inl (its, had) ↦
        ap (λ n. fits (put y.threads i p n) (states' k)) its
        ∙ ap (λ t. fits t (states' k)) (put_self y.threads i p)
        ∙ mine k had
    | inr (other, had) ↦
        ap (λ t. fits t (states' k)) (put-other y.threads i p j other) ∙ others j k other had
  ]

  -- The thread keeps what it owns.
  pub stay-Sound :
      (states' : ℕ → TaskState)
      → owner p ≡ owner o
      → ((k : ℕ) → is_live (states' k) ≡ true → is_live (y.states k) ≡ true)
      → ((k : ℕ) → 1 ≤ copies k y.queue → is_queued (states' k) ≡ true)
      → ((k : ℕ) → owner p ≡ some k → fits p (states' k) ≡ true)
      → ((j k : ℕ)
          → (j == i) ≡ false
          → owner (y.threads j) ≡ some k
          → fits (y.threads j) (states' k) ≡ true)
      → Sound y
      → Sound (record y { states = states'; threads = put y.threads i p })
  stay-Sound states' same live queue mine others v =
      let owners = put-same owner y.threads i p (same ∙ ap owner (sym at)) in
      record {
        one = λ a b k e f. v.one a b k (sym (owners a) ∙ e) (sym (owners b) ∙ f);
        fit = fit_moved states' mine others;
        once = v.once;
        waits = queue;
        unowned = λ j k q e. v.unowned j k q (sym (owners j) ∙ e);
        kept = λ k l. elim (v.kept k (live k l)) [
          | inl q ↦ inl q
          | inr (j, e) ↦ inr (j, owners j ∙ e)
        ];
      }
