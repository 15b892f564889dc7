-- ===== src/Green/Scheduler/Steps.antt =====
-- A thread that gives a task up, gets one, or has one in turn with the queue.
use grenat.Prelude.{
  ℕ, ◌≤◌, ◌≡◌, ◌≢◌, refl, sym, ap, ◌∙◌, true, false, none, some, ◌==◌, inl, inr, arith, Bool-cases,
}
use grenat.Green.Put.{put, put_self, put-other}
use grenat.Green.Scheduler.{TaskState, Thread, System, stores}
use grenat.Green.Scheduler.Owners.{
  owner, is_live, is_queued, fits, copies, Sound, fits-live, moved_owner, kept_owner, fit_moved,
  stay-Sound, is_queued-live,
}

module _ (y : System) (i : ℕ) (o p : Thread) (at : y.threads i ≡ o) (k : ℕ) (s' : TaskState)
    (v : Sound y) where
  -- Another thread's task keeps its state where this one's changes.
  other_fits :
      owner o ≡ some k
      → (j k' : ℕ) → (j == i) ≡ false
      → owner (y.threads j) ≡ some k'
      → fits (y.threads j) (put y.states k s' k') ≡ true
  other_fits had j k' other e = elim (Bool-cases (k' == k)) [
    | inl same ↦
        let its : k' ≡ k = ground arith in
        let both = v.one j i k (e ∙ ap (λ (n : ℕ). some n) its) (ap owner at ∙ had) in
        absurd (ground arith)
    | inr apart ↦ ap (λ st. fits (y.threads j) st) (put-other y.states k s' k' apart) ∙ v.fit j k' e
  ]

  -- A task in the queue keeps its state where an owned one changes.
  queue_waits :
      owner o ≡ some k → (k' : ℕ) → 1 ≤ copies k' y.queue → is_queued (put y.states k s' k') ≡ true
  queue_waits had k' q = elim (Bool-cases (k' == k)) [
    | inl same ↦
        let its : k' ≡ k = ground arith in
        absurd (v.unowned i k' q (ap owner at ∙ had ∙ ap (λ (n : ℕ). some n) (sym its)))
    | inr apart ↦ ap is_queued (put-other y.states k s' k' apart) ∙ v.waits k' q
  ]

  -- The state of the task that the thread has changes with where the thread is.
  pub own-Sound : owner o ≡ some k → owner p ≡ some k → fits p s' ≡ true → Sound (stores y i p k s')
  own-Sound had has fit =
      stay-Sound y i o p at (put y.states k s') (has ∙ sym had)
        (λ k' l. elim (Bool-cases (k' == k)) [
          | inl same ↦
              let its : k ≡ k' = ground arith in
              let e : owner (y.threads i) ≡ some k' =
                ap owner at ∙ had ∙ ap (λ (n : ℕ). some n) its in
              fits-live (y.threads i) k' (y.states k') e (v.fit i k' e)
          | inr apart ↦ sym (ap is_live (put-other y.states k s' k' apart)) ∙ l
        ])
        (queue_waits had)
        (λ k' e.
          let its : k ≡ k' = ground (arith, has, e) in
          ap (λ n. fits p (put y.states k s' n)) (sym its)
          ∙ ap (fits p) (put_self y.states k s')
          ∙ fit)
        (other_fits had) v

  -- The thread gives the task up, which is no more to run.
  pub drop-Sound :
      owner o ≡ some k → owner p ≡ none → is_live s' ≡ false → Sound (stores y i p k s')
  drop-Sound had gone dead = record {
    one = λ a b k' e f. elim (moved_owner y i o p at a k' e) [
      | inl (its, had') ↦ absurd (ground (arith, gone, had'))
      | inr (g, e') ↦ elim (moved_owner y i o p at b k' f) [
        | inl (its, had') ↦ absurd (ground (arith, gone, had'))
        | inr (h, f') ↦ v.one a b k' e' f'
      ]
    ];
    fit =
        fit_moved y i o p at (put y.states k s') (λ k' e. absurd (ground (arith, gone, e)))
          (other_fits had);
    once = v.once;
    waits = queue_waits had;
    unowned = λ j k' q e. elim (moved_owner y i o p at j k' e) [
      | inl (its, had') ↦ absurd (ground (arith, gone, had'))
      | inr (g, e') ↦ v.unowned j k' q e'
    ];
    kept = λ k' l. elim (Bool-cases (k' == k)) [
      | inl same ↦
          let now : put y.states k s' k' ≡ s' = rw same refl in
          absurd (ground (arith, ap is_live now, l, dead))
      | inr apart ↦ elim (v.kept k' (sym (ap is_live (put-other y.states k s' k' apart)) ∙ l)) [
        | inl q ↦ inl q
        | inr (j, e) ↦ elim (Bool-cases (j == i)) [
          | inl its ↦
              let mine : j ≡ i = ground arith in
              let same = sym e ∙ ap (λ n. owner (y.threads n)) mine ∙ ap owner at ∙ had in
              absurd (ground (arith, same))
          | inr other ↦ inr (j, kept_owner y i o p at j k' other e)
        ]
      ]
    ];
  }

  -- The thread gets a task that none has.
  pub get-Sound :
      owner o ≡ none
      → owner p ≡ some k
      → is_live (y.states k) ≡ false
      → is_queued s' ≡ true
      → fits p s' ≡ true
      → Sound (stores y i p k s')
  get-Sound unheld has dead live fit = record {
    one = λ a b k' e f. elim (moved_owner y i o p at a k' e) [
      | inl (its, had) ↦ elim (moved_owner y i o p at b k' f) [
        | inl (its', had') ↦ its ∙ sym its'
        | inr (h, f') ↦ absurd (nobody b k' f' (ground (arith, has, had)))
      ]
      | inr (g, e') ↦ elim (moved_owner y i o p at b k' f) [
        | inl (its', had') ↦ absurd (nobody a k' e' (ground (arith, has, had')))
        | inr (h, f') ↦ v.one a b k' e' f'
      ]
    ];
    fit =
        fit_moved y i o p at (put y.states k s')
          (λ k' e.
            let its : k ≡ k' = ground (arith, has, e) in
            ap (λ n. fits p (put y.states k s' n)) (sym its)
            ∙ ap (fits p) (put_self y.states k s')
            ∙ fit)
          (λ j k' other e. elim (Bool-cases (k' == k)) [
            | inl same ↦ absurd (nobody j k' e (ground arith))
            | inr apart ↦
                ap (λ st. fits (y.threads j) st) (put-other y.states k s' k' apart) ∙ v.fit j k' e
          ]);
    once = v.once;
    waits = λ k' q. elim (Bool-cases (k' == k)) [
      | inl same ↦ let now : put y.states k s' k' ≡ s' = rw same refl in ap is_queued now ∙ live
      | inr apart ↦ ap is_queued (put-other y.states k s' k' apart) ∙ v.waits k' q
    ];
    unowned = λ j k' q e. elim (moved_owner y i o p at j k' e) [
      | inl (its, had) ↦ let mine : k ≡ k' = ground (arith, has, had) in not_queued k' q mine
      | inr (g, e') ↦ v.unowned j k' q e'
    ];
    kept = λ k' l. elim (Bool-cases (k' == k)) [
      | inl same ↦
          let its : k ≡ k' = ground arith in
          inr (i, ap owner (put_self y.threads i p) ∙ has ∙ ap (λ (n : ℕ). some n) its)
      | inr apart ↦ elim (v.kept k' (sym (ap is_live (put-other y.states k s' k' apart)) ∙ l)) [
        | inl q ↦ inl q
        | inr (j, e) ↦ elim (Bool-cases (j == i)) [
          | inl its ↦
              let mine : j ≡ i = ground arith in
              let same = sym e ∙ ap (λ n. owner (y.threads n)) mine ∙ ap owner at ∙ unheld in
              absurd (ground (arith, same))
          | inr other ↦ inr (j, kept_owner y i o p at j k' other e)
        ]
      ]
    ];
  }
    where
      nobody : (j k' : ℕ) → owner (y.threads j) ≡ some k' → k ≢ k'
      nobody j k' e its =
          let alive = fits-live (y.threads j) k' (y.states k') e (v.fit j k' e) in
          ground (arith, alive, dead, ap (λ n. is_live (y.states n)) its)

      not_queued : (k' : ℕ) → 1 ≤ copies k' y.queue → k ≢ k'
      not_queued k' q its =
          let waits = v.waits k' q in
          ground
            (arith, is_queued-live (y.states k') waits, dead, ap (λ n. is_live (y.states n)) its)
