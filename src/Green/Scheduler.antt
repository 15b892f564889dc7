-- ===== src/Green/Scheduler.antt =====
-- The states of tasks and the run queue, of crates/grenat_green/src/task.rs and scheduler.rs: `Task::wake`,
-- `Shared::push`, `Shared::spawn`, and the loop of the workers, `work`. Each atomic access, and each use of
-- the queue, is one step of a thread. A task that calls `wake` or `spawn` while it runs counts as a thread
-- of its own for that call. The condition variable of idle workers, the count of live tasks by which they
-- stop, and the stacks of the tasks are not modelled.
use grenat.Prelude.{ℕ, Bool, true, false, List, [], ◌∷◌, ◌++◌, Option, none, some, if◌then◌else◌}
use grenat.Green.Put.{put}
pub mod Owners
pub mod Steps
pub mod Queue
pub mod Runs
pub mod Calls
pub mod Wakes
mod Tests

-- `absent` is a task that is not spawned yet.
pub data TaskState : Type 0 where
  absent queued running parked notified done : TaskState

-- Why a coroutine gives its worker back, or that it is over.
pub data Outcome : Type 0 where
  yields parks returns : Outcome

-- Where a thread is: outside; in the loop of `wake`, before the load or with what it has loaded; before
-- `push`; in `work`: with a task it has taken, running it, or with the task's outcome.
pub data Thread : Type 0 where
  free : Thread
  waking pushing taken resumed parking requeuing finishing : ℕ → Thread
  seen : ℕ → TaskState → Thread

pub record System : Type 0 where
  pub queue : List ℕ
  pub states : ℕ → TaskState
  pub threads : ℕ → Thread

abbrev pub start : System
start = record { queue = []; states = λ k. absent; threads = λ i. free }

abbrev pub is_running : TaskState → Bool
is_running running = true
is_running _ = false

abbrev pub is_parked : TaskState → Bool
is_parked parked = true
is_parked _ = false

abbrev pub is_absent : TaskState → Bool
is_absent absent = true
is_absent _ = false

-- The thread `i` goes on at `thread`.
abbrev pub goes : System → (i : ℕ) → (thread : Thread) → System
goes y i thread = record y { threads = put y.threads i thread }

-- The state of the task `k` is stored, and the thread goes on.
abbrev pub stores : System → (i : ℕ) → Thread → (k : ℕ) → TaskState → System
stores y i thread k state = record y {
  states = put y.states k state;
  threads = put y.threads i thread;
}

-- The match of `wake` on the state that is loaded.
unfoldable pub load : System → (i k : ℕ) → TaskState → System
load y i k parked = goes y i (seen k parked)
load y i k running = goes y i (seen k running)
load y i k _ = goes y i free

-- The exchange that `wake` tries, for the state that was loaded and the state as it is: where it fails, the
-- loop goes round again. No state but these two is exchanged.
unfoldable pub exchange : System → (i k : ℕ) → (loaded state : TaskState) → System
exchange y i k parked state =
    if is_parked state then stores y i (pushing k) k queued else goes y i (waking k)
exchange y i k running state =
    if is_running state then stores y i free k notified else goes y i (waking k)
exchange y i k _ state = goes y i (waking k)

abbrev pub after : Outcome → ℕ → Thread
after yields k = requeuing k
after parks k = parking k
after returns k = finishing k

-- What the thread `i`, which is at `thread`, does next; a coroutine that runs ends as the outcome says.
unfoldable pub advance : System → (i : ℕ) → Outcome → Thread → System
unfolding load exchange
advance y i outcome free = y
advance y i outcome (waking k) = load y i k (y.states k)
advance y i outcome (seen k state) = exchange y i k state (y.states k)
advance y i outcome (pushing k) = record y {
  queue = y.queue ++ k ∷ [];
  threads = put y.threads i free;
}
advance y i outcome (taken k) = stores y i (resumed k) k running
advance y i outcome (resumed k) = goes y i (after outcome k)
advance y i outcome (parking k) =
    if is_running (y.states k) then stores y i free k parked else goes y i (requeuing k)
advance y i outcome (requeuing k) = stores y i (pushing k) k queued
advance y i outcome (finishing k) = stores y i free k done

abbrev is_free : Thread → Bool
is_free free = true
is_free _ = false

-- A thread that is free takes a task, wakes one or spawns one.
unfoldable pub takes : System → (i : ℕ) → System
takes y i = elim y.queue [
  | [] ↦ y
  | k ∷ rest ↦ record y { queue = rest; threads = put y.threads i (taken k) }
]

unfoldable pub spawns : System → (i k : ℕ) → System
spawns y i k = if is_absent (y.states k) then stores y i (pushing k) k queued else y

pub data Event : Type 0 where
  moves : (i : ℕ) → Outcome → Event
  takes_task : (i : ℕ) → Event
  wakes_task spawns_task : (i k : ℕ) → Event

unfoldable pub step : System → Event → System
unfolding advance takes spawns
step y (moves i outcome) = advance y i outcome (y.threads i)
step y (takes_task i) = if is_free (y.threads i) then takes y i else y
step y (wakes_task i k) = if is_free (y.threads i) then goes y i (waking k) else y
step y (spawns_task i k) = if is_free (y.threads i) then spawns y i k else y

unfoldable pub run : System → List Event → System
run y [] = y
run y (e ∷ es) = run (step y e) es
