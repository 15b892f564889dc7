-- ===== src/Green/Sync/Sound.antt =====
-- What holds of the lock and the condition variable after any steps of any tasks.
use grenat.Prelude.{
  ℕ, ◌+◌, ◌≡◌, refl, sym, ap, ◌∙◌, Bool, true, false, [], ◌⊎◌, inl, inr, Option, some, ◌==◌, arith,
  Bool-cases,
}
use grenat.Green.Put.{put, put_self, put-other, put-same}
use grenat.Green.Waiters.{Waiters, AreListed, keep-AreListed}
use grenat.Green.Sync.{System, Phase}
use grenat.Green.Sync.Moves.{
  is_holding, is_bound, lock_ticket, lock_asleep, cond_ticket, cond_asleep,
}

-- At most one task holds the lock, and it is locked where one does.
pub record Holds (locked : Bool) (f : ℕ → Phase) : Type 0 where
  pub held : (k : ℕ) → is_holding (f k) ≡ true → locked ≡ true
  pub one : (j k : ℕ) → is_holding (f j) ≡ true → is_holding (f k) ≡ true → j ≡ k
  pub holder : locked ≡ true → (k : ℕ) × (is_holding (f k) ≡ true)

-- A free lock that tasks wait for is one that some task is to try for.
abbrev pub IsAwaited : Bool → Waiters → (ℕ → Phase) → Type 0
IsAwaited locked ws f = locked ≡ false → (ws ≡ []) ⊎ ((k : ℕ) × (is_bound (f k) ≡ true))

pub record Sound (y : System) : Type 0 where
  pub holds : Holds y.lock.locked y.phases
  pub lock_listed :
      AreListed y.lock.waiters y.lock.next_ticket
        (λ k. lock_ticket (y.phases k))
        (λ k. lock_asleep (y.phases k))
  pub cond_listed :
      AreListed y.cond.cond_waiters
        (y.cond.last_ticket + 1)
        (λ k. cond_ticket (y.phases k))
        (λ k. cond_asleep (y.phases k))
  pub awaited : IsAwaited y.lock.locked y.lock.waiters y.phases

pub Holds-same :
    (locked : Bool) (f f' : ℕ → Phase)
    → ((k : ℕ) → is_holding (f' k) ≡ is_holding (f k))
    → Holds locked f
    → Holds locked f'
Holds-same locked f f' same h = record {
  held = λ k e. h.held k (sym (same k) ∙ e);
  one = λ j k e g. h.one j k (sym (same j) ∙ e) (sym (same k) ∙ g);
  holder = λ l. let (k, e) = h.holder l in (k, same k ∙ e);
}

pub Holds-take :
    (f : ℕ → Phase) (k : ℕ) (p : Phase)
    → is_holding p ≡ true
    → Holds false f
    → Holds true (put f k p)
Holds-take f k p h v = record {
  held = λ j e. refl;
  one = λ i j e g. mine i e ∙ sym (mine j g);
  holder = λ l. (k, ap is_holding (put_self f k p) ∙ h);
}
  where
    mine : (j : ℕ) → is_holding (put f k p j) ≡ true → j ≡ k
    mine j e = elim (Bool-cases (j == k)) [
      | inl same ↦ ground arith
      | inr other ↦
          absurd (ground (arith, v.held j (sym (ap is_holding (put-other f k p j other)) ∙ e)))
    ]

pub Holds-free :
    (locked : Bool) (f : ℕ → Phase) (k : ℕ) (p : Phase)
    → is_holding (f k) ≡ true
    → is_holding p ≡ false
    → Holds locked f
    → Holds false (put f k p)
Holds-free locked f k p had gone v = record {
  held = λ j e. absurd (nobody j e);
  one = λ i j e g. absurd (nobody i e);
  holder = λ l. absurd (ground arith);
}
  where
    nobody : (j : ℕ) → ¬ (is_holding (put f k p j) ≡ true)
    nobody j e = elim (Bool-cases (j == k)) [
      | inl same ↦
          let its : is_holding (put f k p j) ≡ is_holding p = rw same refl in
          ground (arith, its, gone, e)
      | inr other ↦
          ground (arith, v.one j k (sym (ap is_holding (put-other f k p j other)) ∙ e) had)
    ]

module _ (y : System) (k : ℕ) (o : Phase) (at : y.phases k ≡ o) (v : Sound y) where
  -- A value of the phase that the move keeps.
  pub same_as {ℓ} : {A : Type ℓ} (g : Phase → A) (p : Phase) → g p ≡ g o → g p ≡ g (y.phases k)
  same_as g p e = e ∙ ap g (sym at)

  -- A value of a phase that sleeps after the move slept before.
  pub slept :
      (g : Phase → Option ℕ) (p : Phase)
      → ((t : ℕ) → g p ≡ some t → g o ≡ some t)
      → (j t : ℕ) → g (put y.phases k p j) ≡ some t
      → g (y.phases j) ≡ some t
  slept g p h j t e = elim (Bool-cases (j == k)) [
    | inl same ↦
        let its : j ≡ k = ground arith in
        let now : g (put y.phases k p j) ≡ g p = rw same refl in
        ap (λ i. g (y.phases i)) its ∙ ap g at ∙ h t (sym now ∙ e)
    | inr other ↦ sym (ap g (put-other y.phases k p j other)) ∙ e
  ]

  pub still_bound :
      (p : Phase)
      → (is_bound o ≡ true → is_bound p ≡ true)
      → ((j : ℕ) × (is_bound (y.phases j) ≡ true))
      → (j : ℕ) × (is_bound (put y.phases k p j) ≡ true)
  still_bound p h (j, e) = elim (Bool-cases (j == k)) [
    | inl same ↦
        let its : j ≡ k = ground arith in
        let was = ap is_bound (sym at) ∙ ap (λ i. is_bound (y.phases i)) (sym its) ∙ e in
        (k, ap is_bound (put_self y.phases k p) ∙ h was)
    | inr other ↦ (j, ap is_bound (put-other y.phases k p j other) ∙ e)
  ]

  -- The lock's list where the move is none of its own.
  pub lock_kept :
      (p : Phase)
      → lock_ticket p ≡ lock_ticket o
      → ((t : ℕ) → lock_asleep p ≡ some t → lock_asleep o ≡ some t)
      → AreListed y.lock.waiters y.lock.next_ticket
          (λ j. lock_ticket (put y.phases k p j))
          (λ j. lock_asleep (put y.phases k p j))
  lock_kept p e s =
      keep-AreListed y.lock.waiters y.lock.next_ticket _ _ _ _
        (put-same lock_ticket y.phases k p (same_as lock_ticket p e)) (slept lock_asleep p s)
        v.lock_listed

  pub cond_kept :
      (p : Phase)
      → cond_ticket p ≡ cond_ticket o
      → ((t : ℕ) → cond_asleep p ≡ some t → cond_asleep o ≡ some t)
      → AreListed y.cond.cond_waiters
          (y.cond.last_ticket + 1)
          (λ j. cond_ticket (put y.phases k p j))
          (λ j. cond_asleep (put y.phases k p j))
  cond_kept p e s =
      keep-AreListed y.cond.cond_waiters (y.cond.last_ticket + 1) _ _ _ _
        (put-same cond_ticket y.phases k p (same_as cond_ticket p e)) (slept cond_asleep p s)
        v.cond_listed
