-- ===== src/Green/Sync.antt =====
-- crates/grenat_green/src/sync.rs: a lock and a condition variable of any number of tasks. Each critical
-- section of the code is one step; a task is where it is between two of them. A wake-up marks a task that
-- waits; a task that parks may go on without one, as `park` allows. Tickets do not wrap.
use grenat.Prelude.{
  ℕ, ◌+◌, Bool, true, false, List, [], ◌∷◌, ◌++◌, Option, none, some, ◌==◌, if◌then◌else◌,
}
use grenat.Green.Put.{put}
use grenat.Green.Waiters.{Waiters, remove}
pub mod Moves
pub mod Sound
pub mod Steps
pub mod Runs
pub mod Wakes
mod Tests

pub record LockState : Type 0 where
  pub locked : Bool
  pub waiters : Waiters
  pub next_ticket : ℕ

-- The condition variable's waiters, and the last ticket.
pub record CondState : Type 0 where
  pub cond_waiters : Waiters
  pub last_ticket : ℕ

-- Where a task is: outside of both; at the start of the loop of `lock`; parked there, or about to be, with
-- or without a wake-up; woken; with the lock; in `wait` before it gives the lock up; parked there; woken.
pub data Phase : Type 0 where
  idle attempting holding : Phase
  waiting registered cond_waiting : (ticket : ℕ) → (notified : Bool) → Phase
  woken cond_woken : (ticket : ℕ) → Phase

pub record System : Type 0 where
  pub lock : LockState
  pub cond : CondState
  pub phases : ℕ → Phase

abbrev pub start : System
start = record {
  lock = record { locked = false; waiters = []; next_ticket = 0 };
  cond = record { cond_waiters = []; last_ticket = 0 };
  phases = λ k. idle;
}

-- One round of the loop of `lock`: the lock, or else a ticket.
unfoldable pub try_lock : LockState → (me : ℕ) → LockState × Option ℕ
try_lock state me =
    if state.locked
    then (
      record state {
        waiters = state.waiters ++ (state.next_ticket, me) ∷ [];
        next_ticket = state.next_ticket + 1;
      },
      some state.next_ticket,
    )
    else (record state { locked = true }, none)

abbrev pub first_task : Waiters → Option ℕ
first_task [] = none
first_task ((ticket, task) ∷ ws) = some task

abbrev pub others : Waiters → Waiters
others [] = []
others (w ∷ ws) = ws

-- The task that is to be woken, if one waits.
unfoldable pub unlock : LockState → LockState × Option ℕ
unlock state =
    (record state { locked = false; waiters = others state.waiters }, first_task state.waiters)

-- What `wait` does before it gives the lock up.
unfoldable pub register : CondState → (me : ℕ) → CondState × ℕ
register state me =
    let ticket = state.last_ticket + 1 in
    (
      record { cond_waiters = state.cond_waiters ++ (ticket, me) ∷ []; last_ticket = ticket },
      ticket,
    )

abbrev pub wake : Phase → Phase
wake (waiting ticket n) = waiting ticket true
wake (registered ticket n) = registered ticket true
wake (cond_waiting ticket n) = cond_waiting ticket true
wake phase = phase

abbrev pub wake_some : (ℕ → Phase) → Option ℕ → ℕ → Phase
wake_some phases none = phases
wake_some phases (some k) = put phases k (wake (phases k))

abbrev pub wake_all : (ℕ → Phase) → Waiters → ℕ → Phase
wake_all phases [] = phases
wake_all phases ((ticket, k) ∷ ws) = wake_all (put phases k (wake (phases k))) ws

unfoldable pub notify_all : System → System
notify_all y = record y {
  cond = record y.cond { cond_waiters = [] };
  phases = wake_all y.phases y.cond.cond_waiters;
}

-- The guard is dropped: `next` is where the task `k` goes on.
unfoldable pub release : System → ℕ → (next : Phase) → System
unfolding unlock
release y k next =
    let (lock, task) = unlock y.lock in
    record y { lock = lock; phases = wake_some (put y.phases k next) task }

unfoldable pub attempt : System → ℕ → System
unfolding try_lock
attempt y k =
    let (lock, got) = try_lock y.lock k in
    record y {
      lock = lock;
      phases = put y.phases k (elim got [ none ↦ holding | some t ↦ waiting t false ]);
    }

-- What the task `k`, which is at `phase`, does next.
unfoldable pub advance : System → ℕ → Phase → System
advance y k attempting = attempt y k
advance y k (waiting ticket n) = record y { phases = put y.phases k (woken ticket) }
advance y k (woken ticket) = record y {
  lock = record y.lock { waiters = remove y.lock.waiters ticket };
  phases = put y.phases k attempting;
}
advance y k (registered ticket n) = release y k (cond_waiting ticket n)
advance y k (cond_waiting ticket n) = record y { phases = put y.phases k (cond_woken ticket) }
advance y k (cond_woken ticket) = record y {
  cond = record y.cond { cond_waiters = remove y.cond.cond_waiters ticket };
  phases = put y.phases k attempting;
}
advance y k phase = y

-- What a task that is at `phase` is called to do.
pub data Call : Type 0 where
  to_lock to_unlock to_wait : Call

unfoldable pub called : System → ℕ → Call → Phase → System
unfolding register
called y k to_lock idle = record y { phases = put y.phases k attempting }
called y k to_unlock holding = release y k idle
called y k to_wait holding =
    let (cond, ticket) = register y.cond k in
    record y { cond = cond; phases = put y.phases k (registered ticket false) }
called y k call phase = y

pub data Event : Type 0 where
  moves : (k : ℕ) → Event
  calls : (k : ℕ) → Call → Event
  notifies : Event

unfoldable pub step : System → Event → System
step y (moves k) = advance y k (y.phases k)
step y (calls k call) = called y k call (y.phases k)
step y notifies = notify_all y

unfoldable pub run : System → List Event → System
run y [] = y
run y (e ∷ es) = run (step y e) es
