-- ===== src/Green/Waiters.antt =====
-- The waiters of a lock or of a condition variable: tickets with the task that each wakes.
use grenat.Prelude.{
  ℕ, ◌+◌, ◌≤◌, ◌<◌, ◌≡◌, refl, ap, sym, ◌∙◌, Bool, true, false, not, ◌&&◌, ◌||◌, List, [], ◌∷◌,
  ◌++◌, Option, none, some, ◌==◌, if◌then◌else◌, arith, Bool-cases, inl, inr, ◌⊎◌,
}

abbrev pub Waiters : Type 0
Waiters = List (ℕ × ℕ)

-- `retain(|(t, _)| *t != ticket)`.
unfoldable pub remove : Waiters → (ticket : ℕ) → Waiters
remove [] ticket = []
remove ((t, task) ∷ ws) ticket =
    let rest = remove ws ticket in if t == ticket then rest else (t, task) ∷ rest

-- The task `k` waits with the ticket `t`.
unfoldable pub listed : (t k : ℕ) → Waiters → Bool
listed t k [] = false
listed t k ((u, task) ∷ ws) = (u == t && task == k) || listed t k ws

-- Each task's ticket is its own and below `b`; one that sleeps is in the list, and the list holds tickets
-- that tasks have.
pub record AreListed (ws : Waiters) (b : ℕ) (ticket asleep : ℕ → Option ℕ) : Type 0 where
  pub below : (k t : ℕ) → ticket k ≡ some t → t < b
  pub distinct : (j k t : ℕ) → ticket j ≡ some t → ticket k ≡ some t → j ≡ k
  pub has_ticket : (k t : ℕ) → asleep k ≡ some t → ticket k ≡ some t
  pub is_listed : (k t : ℕ) → asleep k ≡ some t → listed t k ws ≡ true
  pub owned : (k t : ℕ) → listed t k ws ≡ true → ticket k ≡ some t

pub listed-head : (t k : ℕ) (ws : Waiters) → listed t k ((t, k) ∷ ws) ≡ true
unfolding listed
listed-head t k ws = ground arith

pub no_tickets-AreListed : (b : ℕ) → AreListed [] b (λ k. none) (λ k. none)
unfolding listed
no_tickets-AreListed b = record {
  below = λ k t e. absurd (ground arith);
  distinct = λ j k t e f. absurd (ground arith);
  has_ticket = λ k t e. absurd (ground arith);
  is_listed = λ k t e. absurd (ground arith);
  owned = λ k t e. absurd (ground arith);
}

listed-append :
    (t k u j : ℕ) (ws : Waiters)
    → listed t k (ws ++ (u, j) ∷ []) ≡ (listed t k ws || (u == t && j == k))
unfolding listed
listed-append t k u j [] = ground arith
listed-append t k u j ((v, i) ∷ ws) = ground (arith, listed-append t k u j ws)

listed-remove :
    (t k u : ℕ) (ws : Waiters) → listed t k (remove ws u) ≡ (listed t k ws && not (u == t))
unfolding listed remove
listed-remove t k u [] = refl
listed-remove t k u ((v, i) ∷ ws) = ground (arith, listed-remove t k u ws)

module _ (ws : Waiters) (b : ℕ) (ticket asleep ticket' asleep' : ℕ → Option ℕ) where
  -- Tasks that only wake up keep what is listed.
  pub keep-AreListed :
      ((k : ℕ) → ticket' k ≡ ticket k)
      → ((k t : ℕ) → asleep' k ≡ some t → asleep k ≡ some t)
      → AreListed ws b ticket asleep
      → AreListed ws b ticket' asleep'
  keep-AreListed same wakes a = record {
    below = λ k t e. a.below k t (sym (same k) ∙ e);
    distinct = λ j k t e f. a.distinct j k t (sym (same j) ∙ e) (sym (same k) ∙ f);
    has_ticket = λ k t e. same k ∙ a.has_ticket k t (wakes k t e);
    is_listed = λ k t e. a.is_listed k t (wakes k t e);
    owned = λ k t e. same k ∙ a.owned k t e;
  }

  -- Every task of the list is awake.
  pub clear-AreListed :
      ((k : ℕ) → ticket' k ≡ ticket k)
      → ((k t : ℕ) → asleep' k ≡ some t → (asleep k ≡ some t) × (listed t k ws ≡ false))
      → AreListed ws b ticket asleep
      → AreListed [] b ticket' asleep'
  unfolding listed
  clear-AreListed same wakes a = record {
    below = λ k t e. a.below k t (sym (same k) ∙ e);
    distinct = λ j k t e f. a.distinct j k t (sym (same j) ∙ e) (sym (same k) ∙ f);
    has_ticket = λ k t e. same k ∙ a.has_ticket k t (wakes k t e).0;
    is_listed = λ k t e.
        let (slept, missing) = wakes k t e in
        absurd (ground (arith, a.is_listed k t slept, missing));
    owned = λ k t e. absurd (ground arith);
  }

  -- The first task of the list is awake, and is taken off.
  pub pop-AreListed :
      (u me : ℕ) (rest : Waiters)
      → ws ≡ (u, me) ∷ rest
      → ((k : ℕ) → ticket' k ≡ ticket k)
      → ((k t : ℕ) → asleep' k ≡ some t → asleep k ≡ some t)
      → asleep' me ≡ none
      → AreListed ws b ticket asleep
      → AreListed rest b ticket' asleep'
  unfolding listed
  pop-AreListed u me rest all same wakes awake a = record {
    below = λ k t e. a.below k t (sym (same k) ∙ e);
    distinct = λ j k t e f. a.distinct j k t (sym (same j) ∙ e) (sym (same k) ∙ f);
    has_ticket = λ k t e. same k ∙ a.has_ticket k t (wakes k t e);
    is_listed = λ k t e.
        let there = ap (λ vs. listed t k vs) (sym all) ∙ a.is_listed k t (wakes k t e) in
        elim (Bool-cases (me == k)) [
          | inl h ↦
              let its : me ≡ k = ground arith in absurd (ground (arith, awake, ap asleep' its))
          | inr h ↦ ground (arith, there)
        ];
    owned = λ k t e. same k ∙ a.owned k t (ap (λ vs. listed t k vs) all ∙ ground arith);
  }

  -- A task `me` that had no ticket gets the ticket `b`.
  pub push-AreListed :
      (me b' : ℕ)
      → b + 1 ≤ b'
      → ticket me ≡ none
      → ticket' me ≡ some b
      → ((k : ℕ) → (k == me) ≡ false → (ticket' k ≡ ticket k) × (asleep' k ≡ asleep k))
      → ((t : ℕ) → asleep' me ≡ some t → b ≡ t)
      → AreListed ws b ticket asleep
      → AreListed (ws ++ (b, me) ∷ []) b' ticket' asleep'
  push-AreListed me b' up free mine others sleeps a = record {
    below = λ k t e. elim (mine_or k) [
      | inl same ↦ let taken : b ≡ t = ground (arith, mine, ap ticket' same) in omega arith
      | inr h ↦ omega (arith, a.below k t (sym (others k h).0 ∙ e))
    ];
    distinct = λ j k t e f. elim (mine_or j) [
      | inl same ↦ elim (mine_or k) [
        | inl same' ↦ same ∙ sym same'
        | inr h ↦
            let taken : b ≡ t = ground (arith, mine, ap ticket' same) in
            absurd (omega (arith, a.below k t (sym (others k h).0 ∙ f)))
      ]
      | inr g ↦ elim (mine_or k) [
        | inl same' ↦
            let taken : b ≡ t = ground (arith, mine, ap ticket' same') in
            absurd (omega (arith, a.below j t (sym (others j g).0 ∙ e)))
        | inr h ↦ a.distinct j k t (sym (others j g).0 ∙ e) (sym (others k h).0 ∙ f)
      ]
    ];
    has_ticket = λ k t e. elim (mine_or k) [
      | inl same ↦
          ap ticket' same ∙ mine ∙ ap (λ (n : ℕ). some n) (sleeps t (sym (ap asleep' same) ∙ e))
      | inr h ↦ (others k h).0 ∙ a.has_ticket k t (sym (others k h).1 ∙ e)
    ];
    is_listed = λ k t e. elim (mine_or k) [
      | inl same ↦
          let taken : b ≡ t = sleeps t (sym (ap asleep' same) ∙ e) in
          ground (arith, listed-append t k b me ws)
      | inr h ↦ ground (arith, listed-append t k b me ws, a.is_listed k t (sym (others k h).1 ∙ e))
    ];
    owned = λ k t e. elim (mine_or k) [
      | inl same ↦ elim (Bool-cases (listed t k ws)) [
        | inl l ↦ absurd (ground (arith, a.owned k t l, free, ap ticket same))
        | inr l ↦
            let taken : b ≡ t = ground (arith, listed-append t k b me ws) in
            ap ticket' same ∙ mine ∙ ap (λ (n : ℕ). some n) taken
      ]
      | inr h ↦
          let there : listed t k ws ≡ true = ground (arith, listed-append t k b me ws) in
          (others k h).0 ∙ a.owned k t there
    ];
  }
    where
      mine_or : (k : ℕ) → (k ≡ me) ⊎ ((k == me) ≡ false)
      mine_or k = elim (Bool-cases (k == me)) [ inl e ↦ inl (ground arith) | inr e ↦ inr e ]

  -- The task `me` gives its ticket back.
  pub remove-AreListed :
      (me u : ℕ)
      → ticket me ≡ some u
      → ticket' me ≡ none
      → ((k : ℕ) → (k == me) ≡ false → (ticket' k ≡ ticket k) × (asleep' k ≡ asleep k))
      → asleep' me ≡ none
      → AreListed ws b ticket asleep
      → AreListed (remove ws u) b ticket' asleep'
  remove-AreListed me u had gone others sleeps a = record {
    below = λ k t e. elim (Bool-cases (k == me)) [
      | inl h ↦ absurd (ground (arith, gone, at_me k h ticket'))
      | inr h ↦ a.below k t (sym (others k h).0 ∙ e)
    ];
    distinct = λ j k t e f. elim (Bool-cases (j == me)) [
      | inl h ↦ absurd (ground (arith, gone, at_me j h ticket'))
      | inr g ↦ elim (Bool-cases (k == me)) [
        | inl h ↦ absurd (ground (arith, gone, at_me k h ticket'))
        | inr h ↦ a.distinct j k t (sym (others j g).0 ∙ e) (sym (others k h).0 ∙ f)
      ]
    ];
    has_ticket = λ k t e. elim (Bool-cases (k == me)) [
      | inl h ↦ absurd (ground (arith, sleeps, at_me k h asleep'))
      | inr h ↦ (others k h).0 ∙ a.has_ticket k t (sym (others k h).1 ∙ e)
    ];
    is_listed = λ k t e. elim (Bool-cases (k == me)) [
      | inl h ↦ absurd (ground (arith, sleeps, at_me k h asleep'))
      | inr h ↦
          let e' = sym (others k h).1 ∙ e in
          elim (Bool-cases (u == t)) [
            | inl same ↦
                let its : ticket k ≡ some u =
                  a.has_ticket k t e' ∙ ap (λ (n : ℕ). some n) (ground arith) in
                absurd (ground (arith, a.distinct k me u its had))
            | inr other ↦ ground (arith, listed-remove t k u ws, a.is_listed k t e')
          ]
    ];
    owned = λ k t e.
        let there : listed t k ws ≡ true = ground (arith, listed-remove t k u ws) in
        elim (Bool-cases (k == me)) [
          | inl h ↦
              let same : some t ≡ some u = sym (a.owned k t there) ∙ at_me k h ticket ∙ had in
              absurd (ground (arith, listed-remove t k u ws))
          | inr h ↦ (others k h).0 ∙ a.owned k t there
        ];
  }
    where
      at_me : (k : ℕ) → (k == me) ≡ true → (f : ℕ → Option ℕ) → f k ≡ f me
      at_me k h f = let same : k ≡ me = ground arith in ap f same
