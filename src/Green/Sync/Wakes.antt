-- ===== src/Green/Sync/Wakes.antt =====
-- What the lock and the condition variable promise, whatever tasks do and in whatever order.
use grenat.Prelude.{ℕ, ◌≡◌, ap, true, false, List, ◌⊎◌, inl, inr, some, arith, ◌==◌, Bool-cases}
use grenat.Green.Waiters.{listed}
use grenat.Green.Sync.{start, step, run, Event, notifies, notify_all}
use grenat.Green.Sync.Moves.{
  is_holding, is_bound, lock_asleep, cond_asleep, cond_asleep-wake, wake_all_asleep,
}
use grenat.Green.Sync.Runs.{start-Sound, run-Sound}

-- After any steps of any tasks, where one holds the lock no other does.
pub lock_excludes :
    (es : List Event) (j k : ℕ)
    → (j == k) ≡ false
    → let y = run start es in is_holding (y.phases j) ≡ true → is_holding (y.phases k) ≡ false
lock_excludes es j k apart holds = elim (Bool-cases (is_holding ((run start es).phases k))) [
  | inl both ↦ absurd (ground (arith, (run-Sound start es start-Sound).holds.one j k holds both))
  | inr free ↦ free
]

-- After any steps of any tasks, where one waits for the lock that no wake-up has come to, another holds the
-- lock or is to try for it, without a wake-up to wait for.
pub no_sleeper_forgotten :
    (es : List Event) (k t : ℕ)
    → let y = run start es in
      lock_asleep (y.phases k) ≡ some t
      → ((j : ℕ) × (is_holding (y.phases j) ≡ true)) ⊎ ((j : ℕ) × (is_bound (y.phases j) ≡ true))
unfolding listed
no_sleeper_forgotten es k t asleep =
    let y = run start es in
    let v = run-Sound start es start-Sound in
    elim (Bool-cases y.lock.locked) [
      | inl locked ↦ inl (v.holds.holder locked)
      | inr free ↦ elim (v.awaited free) [
        | inl empty ↦
            let there = v.lock_listed.is_listed k t asleep in
            absurd (ground (arith, ap (λ ws. listed t k ws) empty, there))
        | inr bound ↦ inr bound
      ]
    ]

-- After any steps of any tasks, a notification wakes every task that has called `wait` and not been woken.
pub notify_all_wakes :
    (es : List Event) (k t : ℕ) → ¬ (cond_asleep ((step (run start es) notifies).phases k) ≡ some t)
unfolding step notify_all
notify_all_wakes es k t e =
    let y = run start es in
    let (slept, missing) =
      wake_all_asleep cond_asleep cond_asleep-wake y.phases y.cond.cond_waiters k t e in
    ground (arith, (run-Sound start es start-Sound).cond_listed.is_listed k t slept, missing)
