-- ===== src/Green/Sync/Runs.antt =====
-- What holds at the start is kept by any run.
use grenat.Prelude.{ℕ, ◌+◌, ◌≡◌, refl, Bool, true, false, List, [], ◌∷◌, inl, inr, some, arith}
use grenat.Green.Waiters.{keep-AreListed, clear-AreListed, no_tickets-AreListed}
use grenat.Green.Sync.{
  System, start, Phase, idle, attempting, holding, waiting, registered, cond_waiting, woken,
  cond_woken, advance, called, notify_all, step, run, Event, moves, calls, notifies, Call, to_lock,
  to_unlock, to_wait,
}
use grenat.Green.Sync.Moves.{
  wake_all-same, is_holding, lock_ticket, lock_asleep, cond_ticket, cond_asleep, is_holding-wake,
  lock_ticket-wake, cond_ticket-wake, lock_asleep-wake, cond_asleep-wake, wake_all_asleep,
  wake_all-bound,
}
use grenat.Green.Sync.Sound.{Sound, Holds-same}
use grenat.Green.Sync.Steps.{
  plain-Sound, woken-Sound, cond_woken-Sound, attempting-Sound, to_wait-Sound, release-Sound,
}

notify_all-Sound : (y : System) → Sound y → Sound (notify_all y)
unfolding notify_all
notify_all-Sound y v =
    let ws = y.cond.cond_waiters in
    let f = y.phases in
    record {
      holds = Holds-same y.lock.locked f _ (wake_all-same is_holding is_holding-wake f ws) v.holds;
      lock_listed =
          keep-AreListed y.lock.waiters y.lock.next_ticket _ _ _ _
            (wake_all-same lock_ticket lock_ticket-wake f ws)
            (λ k t e. (wake_all_asleep lock_asleep lock_asleep-wake f ws k t e).0) v.lock_listed;
      cond_listed =
          clear-AreListed ws (y.cond.last_ticket + 1) _ _ _ _
            (wake_all-same cond_ticket cond_ticket-wake f ws)
            (wake_all_asleep cond_asleep cond_asleep-wake f ws) v.cond_listed;
      awaited = λ free. elim (v.awaited free) [
        | inl e ↦ inl e
        | inr (k, e) ↦ inr (k, wake_all-bound f ws k e)
      ];
    }

called-Sound :
    (y : System) (k : ℕ) (call : Call) (o : Phase)
    → y.phases k ≡ o
    → Sound y
    → Sound (called y k call o)
unfolding called
called-Sound y k to_lock idle at v =
    plain-Sound y k idle at v attempting refl refl refl refl refl (λ h. refl)
called-Sound y k to_lock _ at v = v
called-Sound y k to_unlock holding at v =
    release-Sound y k holding at v idle refl refl refl refl refl (λ t e. e)
called-Sound y k to_unlock _ at v = v
called-Sound y k to_wait holding at v = to_wait-Sound y k holding at v refl
called-Sound y k to_wait _ at v = v

cond_asleep-registered :
    (t u : ℕ) (n : Bool)
    → cond_asleep (cond_waiting t n) ≡ some u
    → cond_asleep (registered t n) ≡ some u
cond_asleep-registered t u false e = e
cond_asleep-registered t u true e = e

advance-Sound : (y : System) (k : ℕ) (o : Phase) → y.phases k ≡ o → Sound y → Sound (advance y k o)
unfolding advance
advance-Sound y k attempting at v = attempting-Sound y k attempting at v refl
advance-Sound y k (waiting t n) at v =
    plain-Sound y k (waiting t n) at v (woken t) refl refl refl refl refl (λ h. refl)
advance-Sound y k (woken t) at v = woken-Sound y k (woken t) at v t refl
advance-Sound y k (registered t n) at v =
    release-Sound y k (registered t n) at v (cond_waiting t n) refl refl refl refl refl
      (λ u e. cond_asleep-registered t u n e)
advance-Sound y k (cond_waiting t n) at v =
    plain-Sound y k (cond_waiting t n) at v (cond_woken t) refl refl refl refl refl (λ h. h)
advance-Sound y k (cond_woken t) at v = cond_woken-Sound y k (cond_woken t) at v t refl
advance-Sound y k idle at v = v
advance-Sound y k holding at v = v

step-Sound : (y : System) (e : Event) → Sound y → Sound (step y e)
unfolding step
step-Sound y (moves k) v = advance-Sound y k (y.phases k) refl v
step-Sound y (calls k call) v = called-Sound y k call (y.phases k) refl v
step-Sound y notifies v = notify_all-Sound y v

pub start-Sound : Sound start
start-Sound = record {
  holds = record {
    held = λ k e. absurd (ground arith);
    one = λ j k e f. absurd (ground arith);
    holder = λ e. absurd (ground arith);
  };
  lock_listed = no_tickets-AreListed 0;
  cond_listed = no_tickets-AreListed 1;
  awaited = λ e. inl refl;
}

pub run-Sound : (y : System) (es : List Event) → Sound y → Sound (run y es)
unfolding run
run-Sound y [] v = v
run-Sound y (e ∷ es) v = run-Sound (step y e) es (step-Sound y e v)
