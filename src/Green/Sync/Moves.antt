-- ===== src/Green/Sync/Moves.antt =====
-- What a move of one task, and a wake-up, leave of the others.
use grenat.Prelude.{
  ℕ, ◌≡◌, refl, sym, ap, ◌∙◌, Bool, true, false, [], ◌∷◌, Option, none, some, ◌==◌, arith,
  Bool-cases, inl, inr,
}
use grenat.Green.Put.{put, put_self, put-other, put-same}
use grenat.Green.Waiters.{Waiters, listed}
use grenat.Green.Sync.{
  Phase, idle, attempting, holding, waiting, registered, cond_waiting, woken, cond_woken, wake,
  wake_some, wake_all,
}

pub wake_some-same {ℓ} :
    {A : Type ℓ} (g : Phase → A)
    → ((p : Phase) → g (wake p) ≡ g p)
    → (f : ℕ → Phase) (o : Option ℕ) (j : ℕ) → g (wake_some f o j) ≡ g (f j)
wake_some-same g h f none j = refl
wake_some-same g h f (some k) j = put-same g f k (wake (f k)) (h (f k)) j

pub wake_all-same {ℓ} :
    {A : Type ℓ} (g : Phase → A)
    → ((p : Phase) → g (wake p) ≡ g p)
    → (f : ℕ → Phase) (ws : Waiters) (j : ℕ) → g (wake_all f ws j) ≡ g (f j)
wake_all-same g h f [] j = refl
wake_all-same g h f ((t, k) ∷ ws) j =
    wake_all-same g h (put f k (wake (f k))) ws j ∙ put-same g f k (wake (f k)) (h (f k)) j

-- The task has the lock.
abbrev pub is_holding : Phase → Bool
is_holding holding = true
is_holding (registered t n) = true
is_holding _ = false

-- The task is to try for the lock, whatever the others do.
abbrev pub is_bound : Phase → Bool
is_bound attempting = true
is_bound (waiting t n) = n
is_bound (woken t) = true
is_bound _ = false

abbrev pub lock_ticket : Phase → Option ℕ
lock_ticket (waiting t n) = some t
lock_ticket (woken t) = some t
lock_ticket _ = none

-- The ticket of a task that waits for the lock, without a wake-up.
abbrev pub lock_asleep : Phase → Option ℕ
lock_asleep (waiting t false) = some t
lock_asleep _ = none

abbrev pub cond_ticket : Phase → Option ℕ
cond_ticket (registered t n) = some t
cond_ticket (cond_waiting t n) = some t
cond_ticket (cond_woken t) = some t
cond_ticket _ = none

-- The ticket of a task that waits for a notification, without one.
abbrev pub cond_asleep : Phase → Option ℕ
cond_asleep (registered t false) = some t
cond_asleep (cond_waiting t false) = some t
cond_asleep _ = none

-- What a wake-up keeps.
pub is_holding-wake : (p : Phase) → is_holding (wake p) ≡ is_holding p
is_holding-wake idle = refl
is_holding-wake _ = refl

pub lock_ticket-wake : (p : Phase) → lock_ticket (wake p) ≡ lock_ticket p
lock_ticket-wake idle = refl
lock_ticket-wake _ = refl

pub cond_ticket-wake : (p : Phase) → cond_ticket (wake p) ≡ cond_ticket p
cond_ticket-wake idle = refl
cond_ticket-wake _ = refl

is_bound-wake : (p : Phase) → is_bound p ≡ true → is_bound (wake p) ≡ true
is_bound-wake attempting h = refl
is_bound-wake (waiting t n) h = refl
is_bound-wake (woken t) h = refl
is_bound-wake idle h = h
is_bound-wake holding h = h
is_bound-wake (registered t n) h = h
is_bound-wake (cond_waiting t n) h = h
is_bound-wake (cond_woken t) h = h

-- Who is woken does not sleep, and is to try for the lock where it waits for it.
pub lock_asleep-wake : (p : Phase) → lock_asleep (wake p) ≡ none
lock_asleep-wake idle = refl
lock_asleep-wake _ = refl

pub cond_asleep-wake : (p : Phase) → cond_asleep (wake p) ≡ none
cond_asleep-wake idle = refl
cond_asleep-wake _ = refl

pub lock_ticket-bound : (p : Phase) (t : ℕ) → lock_ticket p ≡ some t → is_bound (wake p) ≡ true
lock_ticket-bound (waiting u n) t h = refl
lock_ticket-bound (woken u) t h = refl
lock_ticket-bound idle t h = absurd (ground arith)
lock_ticket-bound attempting t h = absurd (ground arith)
lock_ticket-bound holding t h = absurd (ground arith)
lock_ticket-bound (registered u n) t h = absurd (ground arith)
lock_ticket-bound (cond_waiting u n) t h = absurd (ground arith)
lock_ticket-bound (cond_woken u) t h = absurd (ground arith)

-- A sleeper that a wake-up leaves asleep was asleep before it.
pub put-wake_asleep :
    (g : Phase → Option ℕ)
    → ((p : Phase) → g (wake p) ≡ none)
    → (f : ℕ → Phase) (k j t : ℕ) → g (put f k (wake (f k)) j) ≡ some t
    → g (f j) ≡ some t
put-wake_asleep g h f k j t e = elim (Bool-cases (j == k)) [
  | inl same ↦
      let now : g (put f k (wake (f k)) j) ≡ g (wake (f k)) = rw same refl in
      absurd (ground (arith, h (f k), now, e))
  | inr other ↦ sym (ap g (put-other f k (wake (f k)) j other)) ∙ e
]

-- After all the waiters of a list are woken, none that sleeps is in the list.
pub wake_all_asleep :
    (g : Phase → Option ℕ)
    → ((p : Phase) → g (wake p) ≡ none)
    → (f : ℕ → Phase) (ws : Waiters) (j t : ℕ) → g (wake_all f ws j) ≡ some t
    → (g (f j) ≡ some t) × (listed t j ws ≡ false)
unfolding listed
wake_all_asleep g h f [] j t e = (e, refl)
wake_all_asleep g h f ((u, k) ∷ ws) j t e =
    let (slept, missing) = wake_all_asleep g h (put f k (wake (f k))) ws j t e in
    elim (Bool-cases (k == j)) [
      | inl same ↦
          let its : k ≡ j = ground arith in
          let awake : g (put f k (wake (f k)) j) ≡ none =
            ap (λ i. g (put f k (wake (f k)) i)) (sym its)
            ∙ ap g (put_self f k (wake (f k)))
            ∙ h (f k) in
          absurd (ground (arith, awake, slept))
      | inr other ↦ (put-wake_asleep g h f k j t slept, ground arith)
    ]

pub wake_all-bound :
    (f : ℕ → Phase) (ws : Waiters) (k : ℕ)
    → is_bound (f k) ≡ true
    → is_bound (wake_all f ws k) ≡ true
wake_all-bound f [] k e = e
wake_all-bound f ((u, j) ∷ ws) k e =
    wake_all-bound (put f j (wake (f j))) ws k (elim (Bool-cases (k == j)) [
      | inl same ↦
          let its : k ≡ j = ground arith in
          rw same (is_bound-wake (f j) (ap (λ i. is_bound (f i)) (sym its) ∙ e))
      | inr other ↦ rw other e
    ])
