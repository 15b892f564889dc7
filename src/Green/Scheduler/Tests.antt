-- ===== src/Green/Scheduler/Tests.antt =====
-- Tasks on two workers, and the theorems at these runs.
use grenat.Prelude.{◌≡◌, ◌≢◌, refl, arith, true, List, [], ◌∷◌, ◌⊎◌, some}
use grenat.Green.Scheduler.{
  start, step, run, Event, moves, takes_task, wakes_task, spawns_task, parks, advance, takes,
  spawns, load, exchange,
}
use grenat.Green.Scheduler.Owners.{owner, copies}
use grenat.Green.Scheduler.Wakes.{one_owner, is_woken, is_over, IsKept, no_wake_lost}
use grenat.Green.Scheduler.Calls.{calls_wake}

-- The task 7 is spawned and runs on the worker 1.
abbrev runs : List Event
runs = spawns_task 0 7 ∷ moves 0 parks ∷ takes_task 1 ∷ moves 1 parks ∷ []

runs-owner : owner ((run start runs).threads 1) ≡ some 7
unfolding run step advance takes spawns
runs-owner = refl

-- The thread 2 finds it running, it parks before the exchange, and the thread 2 finds it parked.
abbrev raced : List Event
raced =
    spawns_task 0 7
    ∷ moves 0 parks
    ∷ takes_task 1
    ∷ moves 1 parks
    ∷ moves 1 parks
    ∷ wakes_task 2 7
    ∷ moves 2 parks
    ∷ moves 1 parks
    ∷ moves 2 parks
    ∷ moves 2 parks
    ∷ []

raced-calls : calls_wake ((run start raced).threads 2) ≡ some 7
unfolding run step advance takes spawns load exchange
raced-calls = refl

raced-ends : calls_wake ((step (run start raced) (moves 2 parks)).threads 2) ≢ some 7
unfolding run step advance takes spawns load exchange
raced-ends e = ground arith

raced-woken : is_woken ((step (run start raced) (moves 2 parks)).states 7) ≡ true
unfolding run step advance takes spawns load exchange
raced-woken = refl

one_owner_example :
    (owner ((run start runs).threads 2) ≢ some 7) × (copies 7 (run start runs).queue ≡ 0)
one_owner_example = one_owner runs 1 2 7 refl runs-owner

no_wake_lost_example :
    (is_over ((step (run start raced) (moves 2 parks)).states 7) ≡ true)
    ⊎ ((is_woken ((step (run start raced) (moves 2 parks)).states 7) ≡ true)
        × IsKept (step (run start raced) (moves 2 parks)) 7)
no_wake_lost_example = no_wake_lost raced (moves 2 parks) 2 7 raced-calls raced-ends
