-- ===== src/Green/Sync/Tests.antt =====
-- Tasks at a lock and a condition variable, and the theorems at these runs.
use grenat.Prelude.{ℕ, ◌≡◌, refl, true, false, List, [], ◌∷◌, ◌⊎◌, some}
use grenat.Green.Sync.{
  start, step, run, Event, moves, calls, notifies, to_lock, to_unlock, to_wait, advance, called,
  attempt, try_lock, register, release, unlock,
}
use grenat.Green.Sync.Moves.{is_holding, is_bound, lock_asleep, cond_asleep}
use grenat.Green.Sync.Wakes.{lock_excludes, no_sleeper_forgotten, notify_all_wakes}

-- The task 0 has the lock, and the task 1 is parked.
abbrev contended : List Event
contended = calls 0 to_lock ∷ moves 0 ∷ calls 1 to_lock ∷ moves 1 ∷ []

contended-holder : is_holding ((run start contended).phases 0) ≡ true
unfolding run step called advance attempt try_lock
contended-holder = refl

contended-asleep : lock_asleep ((run start contended).phases 1) ≡ some 0
unfolding run step called advance attempt try_lock
contended-asleep = refl

-- The task 0 gives the lock up, and the task 1 is woken and takes it.
abbrev passed_on : List Event
passed_on =
    calls 0 to_lock
    ∷ moves 0
    ∷ calls 1 to_lock
    ∷ moves 1
    ∷ calls 0 to_unlock
    ∷ moves 1
    ∷ moves 1
    ∷ moves 1
    ∷ []

passed_on-holder : is_holding ((run start passed_on).phases 1) ≡ true
unfolding run step called advance attempt try_lock release unlock
passed_on-holder = refl

-- The task 0 waits for a notification.
abbrev sleeping : List Event
sleeping = calls 0 to_lock ∷ moves 0 ∷ calls 0 to_wait ∷ moves 0 ∷ []

sleeping-asleep : cond_asleep ((run start sleeping).phases 0) ≡ some 1
unfolding run step called advance attempt try_lock register release unlock
sleeping-asleep = refl

lock_excludes_example : is_holding ((run start contended).phases 1) ≡ false
lock_excludes_example = lock_excludes contended 0 1 refl contended-holder

no_sleeper_forgotten_example :
    ((j : ℕ) × (is_holding ((run start contended).phases j) ≡ true))
    ⊎ ((j : ℕ) × (is_bound ((run start contended).phases j) ≡ true))
no_sleeper_forgotten_example = no_sleeper_forgotten contended 1 0 contended-asleep

notify_all_wakes_example : ¬ (cond_asleep ((step (run start sleeping) notifies).phases 0) ≡ some 1)
notify_all_wakes_example = notify_all_wakes sleeping 0 1
