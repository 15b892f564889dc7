-- ===== src/Green/Sync/Steps.antt =====
-- Every step of a task keeps what holds.
use grenat.Prelude.{
  ℕ, ◌+◌, ◌≡◌, refl, sym, ap, ◌∙◌, true, false, [], ◌∷◌, inl, inr, none, some, arith, Bool-cases,
}
use grenat.Green.Put.{put, put_self, put-other, put-same}
use grenat.Green.Waiters.{
  Waiters, AreListed, keep-AreListed, push-AreListed, remove-AreListed, pop-AreListed, listed-head,
}
use grenat.Green.Sync.{
  System, Phase, idle, attempting, holding, waiting, registered, cond_waiting, woken, cond_woken,
  wake, wake_some, attempt, release, advance, called, to_wait,
}
use grenat.Green.Sync.Moves.{
  wake_some-same, is_holding, is_bound, lock_ticket, lock_asleep, cond_ticket, cond_asleep,
  is_holding-wake, lock_ticket-wake, cond_ticket-wake, lock_asleep-wake, cond_asleep-wake,
  lock_ticket-bound, put-wake_asleep,
}
use grenat.Green.Sync.{others, first_task}
use grenat.Green.Sync.Sound.{
  Holds, Sound, Holds-same, Holds-take, Holds-free, same_as, still_bound, lock_kept, cond_kept,
}

module _ (y : System) (k : ℕ) (o : Phase) (at : y.phases k ≡ o) (v : Sound y) where
  -- A move that neither changes the lists nor lets a task sleep.
  pub plain-Sound :
      (p : Phase)
      → is_holding p ≡ is_holding o
      → lock_ticket p ≡ lock_ticket o
      → cond_ticket p ≡ cond_ticket o
      → lock_asleep p ≡ none
      → cond_asleep p ≡ none
      → (is_bound o ≡ true → is_bound p ≡ true)
      → Sound (record y { phases = put y.phases k p })
  plain-Sound p h lt ct la ca b = record {
    holds =
        Holds-same y.lock.locked y.phases _
          (put-same is_holding y.phases k p (same_as y k o at v is_holding p h)) v.holds;
    lock_listed = lock_kept y k o at v p lt (λ t e. absurd (ground (arith, la, e)));
    cond_listed = cond_kept y k o at v p ct (λ t e. absurd (ground (arith, ca, e)));
    awaited = λ free. elim (v.awaited free) [
      | inl e ↦ inl e
      | inr e ↦ inr (still_bound y k o at v p b e)
    ];
  }

  -- The task takes its ticket off the lock's list.
  pub woken-Sound : (t : ℕ) → o ≡ woken t → Sound (advance y k (woken t))
  unfolding advance
  woken-Sound t same =
      let at' = at ∙ same in
      record {
        holds =
            Holds-same y.lock.locked y.phases _
              (put-same is_holding y.phases k attempting (sym (ap is_holding at'))) v.holds;
        lock_listed =
            remove-AreListed y.lock.waiters y.lock.next_ticket _ _ _ _ k t (ap lock_ticket at')
              (ap lock_ticket (put_self y.phases k attempting))
              (λ j e. (
                ap lock_ticket (put-other y.phases k attempting j e),
                ap lock_asleep (put-other y.phases k attempting j e),
              ))
              (ap lock_asleep (put_self y.phases k attempting)) v.lock_listed;
        cond_listed = cond_kept y k (woken t) at' v attempting refl (λ u e. e);
        awaited = λ free. inr (k, ap is_bound (put_self y.phases k attempting));
      }

  -- The task takes its ticket off the condition variable's list.
  pub cond_woken-Sound : (t : ℕ) → o ≡ cond_woken t → Sound (advance y k (cond_woken t))
  unfolding advance
  cond_woken-Sound t same =
      let at' = at ∙ same in
      record {
        holds =
            Holds-same y.lock.locked y.phases _
              (put-same is_holding y.phases k attempting (sym (ap is_holding at'))) v.holds;
        lock_listed = lock_kept y k (cond_woken t) at' v attempting refl (λ u e. e);
        cond_listed =
            remove-AreListed y.cond.cond_waiters (y.cond.last_ticket + 1) _ _ _ _ k t
              (ap cond_ticket at') (ap cond_ticket (put_self y.phases k attempting))
              (λ j e. (
                ap cond_ticket (put-other y.phases k attempting j e),
                ap cond_asleep (put-other y.phases k attempting j e),
              ))
              (ap cond_asleep (put_self y.phases k attempting)) v.cond_listed;
        awaited = λ free. inr (k, ap is_bound (put_self y.phases k attempting));
      }

  pub attempting-Sound : o ≡ attempting → Sound (attempt y k)
  unfolding attempt
  attempting-Sound same =
      let at' = at ∙ same in
      let next = y.lock.next_ticket in
      elim (Bool-cases y.lock.locked) [
        | inl locked ↦
            let p = waiting next false in
            rw (locked, attempt)
              (record {
                holds =
                    Holds-same true y.phases _
                      (put-same is_holding y.phases k p (sym (ap is_holding at')))
                      (rw (← locked) v.holds);
                lock_listed =
                    push-AreListed y.lock.waiters next _ _ _ _ k (next + 1) (omega arith)
                      (ap lock_ticket at') (ap lock_ticket (put_self y.phases k p))
                      (λ j e. (
                        ap lock_ticket (put-other y.phases k p j e),
                        ap lock_asleep (put-other y.phases k p j e),
                      ))
                      (λ t e. ground (arith, ap lock_asleep (put_self y.phases k p), e))
                      v.lock_listed;
                cond_listed = cond_kept y k attempting at' v p refl (λ u e. e);
                awaited = λ free. absurd (ground (arith, free, locked));
              })
        | inr free_now ↦
            rw (free_now, attempt)
              (record {
                holds = Holds-take y.phases k holding refl (rw (← free_now) v.holds);
                lock_listed = lock_kept y k attempting at' v holding refl (λ u e. e);
                cond_listed = cond_kept y k attempting at' v holding refl (λ u e. e);
                awaited = λ free. absurd (ground arith);
              })
      ]

  pub to_wait-Sound : o ≡ holding → Sound (called y k to_wait holding)
  unfolding called
  to_wait-Sound same =
      let at' = at ∙ same in
      let next = y.cond.last_ticket + 1 in
      let p = registered next false in
      record {
        holds =
            Holds-same y.lock.locked y.phases _
              (put-same is_holding y.phases k p (sym (ap is_holding at'))) v.holds;
        lock_listed = lock_kept y k holding at' v p refl (λ u e. e);
        cond_listed =
            push-AreListed y.cond.cond_waiters next _ _ _ _ k (next + 1) (omega arith)
              (ap cond_ticket at') (ap cond_ticket (put_self y.phases k p))
              (λ j e. (
                ap cond_ticket (put-other y.phases k p j e),
                ap cond_asleep (put-other y.phases k p j e),
              ))
              (λ t e. ground (arith, ap cond_asleep (put_self y.phases k p), e)) v.cond_listed;
        awaited = λ free. elim (v.awaited free) [
          | inl e ↦ inl e
          | inr e ↦ inr (still_bound y k holding at' v p (λ h. absurd (ground arith)) e)
        ];
      }

  -- The lock is given up, and the first task that waits for it is woken.
  pub release-Sound :
      (p : Phase)
      → is_holding o ≡ true
      → is_holding p ≡ false
      → lock_ticket o ≡ none
      → lock_ticket p ≡ none
      → cond_ticket p ≡ cond_ticket o
      → ((t : ℕ) → cond_asleep p ≡ some t → cond_asleep o ≡ some t)
      → Sound (release y k p)
  unfolding release
  release-Sound p had gone lo lp cp ca =
      let free = Holds-free y.lock.locked y.phases k p (ap is_holding at ∙ had) gone v.holds in
      let ls =
        lock_kept y k o at v p (lp ∙ sym lo) (λ t e. absurd (ground (arith, no_sleep p lp t e))) in
      let cs = cond_kept y k o at v p cp ca in freed (put y.phases k p) y.lock.waiters free ls cs
    where
      no_sleep : (q : Phase) → lock_ticket q ≡ none → (t : ℕ) → ¬ (lock_asleep q ≡ some t)
      no_sleep (waiting u n) e t f = ground arith
      no_sleep idle e t f = ground arith
      no_sleep attempting e t f = ground arith
      no_sleep holding e t f = ground arith
      no_sleep (registered u n) e t f = ground arith
      no_sleep (cond_waiting u n) e t f = ground arith
      no_sleep (woken u) e t f = ground arith
      no_sleep (cond_woken u) e t f = ground arith

      freed :
          (f : ℕ → Phase) (ws : Waiters)
          → Holds false f
          → AreListed ws y.lock.next_ticket (λ j. lock_ticket (f j)) (λ j. lock_asleep (f j))
          → AreListed y.cond.cond_waiters
              (y.cond.last_ticket + 1)
              (λ j. cond_ticket (f j))
              (λ j. cond_asleep (f j))
          → Sound (record y {
            lock = record y.lock { locked = false; waiters = others ws };
            phases = wake_some f (first_task ws);
          })
      freed f [] h ls cs = record {
        holds = h;
        lock_listed = ls;
        cond_listed = cs;
        awaited = λ e. inl refl;
      }
      freed f ((u, me) ∷ ws) h ls cs =
          let f' = wake_some f (some me) in
          record {
            holds = Holds-same false f f' (wake_some-same is_holding is_holding-wake f (some me)) h;
            lock_listed =
                pop-AreListed ((u, me) ∷ ws) y.lock.next_ticket _ _ _ _ u me ws refl
                  (wake_some-same lock_ticket lock_ticket-wake f (some me))
                  (put-wake_asleep lock_asleep lock_asleep-wake f me)
                  (ap lock_asleep (put_self f me (wake (f me))) ∙ lock_asleep-wake (f me)) ls;
            cond_listed =
                keep-AreListed y.cond.cond_waiters (y.cond.last_ticket + 1) _ _ _ _
                  (wake_some-same cond_ticket cond_ticket-wake f (some me))
                  (put-wake_asleep cond_asleep cond_asleep-wake f me) cs;
            awaited = λ e. inr (
              me,
              ap is_bound (put_self f me (wake (f me)))
                  ∙ lock_ticket-bound (f me) u (ls.owned me u (listed-head u me ws)),
            );
          }
