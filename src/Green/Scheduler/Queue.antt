-- ===== src/Green/Scheduler/Queue.antt =====
-- What holds is kept where a task is taken from the queue, or put in.
use grenat.Prelude.{
  ℕ, ◌+◌, ◌≤◌, ◌≡◌, sym, ap, ◌∙◌, List, [], ◌∷◌, ◌++◌, some, ◌==◌, inl, inr, if◌then◌else◌, arith,
  Bool-cases,
}
use grenat.Green.Put.{put, put_self}
use grenat.Green.Scheduler.{Thread, free, pushing, taken, System}
use grenat.Green.Scheduler.Owners.{
  owner, fits, copies, copies-append, copies-cons, Sound, moved_owner, kept_owner, fit_moved,
}

-- A free thread takes the first task of the queue.
pub take-Sound :
    (y : System) (i k : ℕ) (rest : List ℕ)
    → y.threads i ≡ free
    → y.queue ≡ k ∷ rest
    → Sound y
    → Sound (record y { queue = rest; threads = put y.threads i (taken k) })
take-Sound y i k rest at e v = record {
  one = λ a b k' f g. elim (moved_owner y i free p at a k' f) [
    | inl (its, had) ↦ elim (moved_owner y i free p at b k' g) [
      | inl (its', had') ↦ its ∙ sym its'
      | inr (other, g') ↦ absurd (v.unowned b k' (first k' had) g')
    ]
    | inr (other, f') ↦ elim (moved_owner y i free p at b k' g) [
      | inl (its', had') ↦ absurd (v.unowned a k' (first k' had') f')
      | inr (other', g') ↦ v.one a b k' f' g'
    ]
  ];
  fit =
      fit_moved y i free p at y.states (λ k' had. v.waits k' (first k' had))
        (λ j k' other f. v.fit j k' f);
  once = λ k'. omega (arith, count k', v.once k');
  waits = λ k' q. v.waits k' (omega (arith, count k'));
  unowned = λ j k' q f. elim (moved_owner y i free p at j k' f) [
    | inl (its, had) ↦ let same : k ≡ k' = ground arith in ground (arith, count k', v.once k')
    | inr (other, f') ↦ v.unowned j k' (omega (arith, count k')) f'
  ];
  kept = λ k' l. elim (v.kept k' l) [
    | inl q ↦ elim (Bool-cases (k == k')) [
      | inl same ↦
          inr (i, ap owner (put_self y.threads i p) ∙ ap (λ (n : ℕ). some n) (ground arith))
      | inr other ↦ inl (ground (arith, count k'))
    ]
    | inr (j, f) ↦ elim (Bool-cases (j == i)) [
      | inl its ↦
          let mine : j ≡ i = ground arith in
          let same = sym f ∙ ap (λ n. owner (y.threads n)) mine ∙ ap owner at in
          absurd (ground (arith, same))
      | inr other ↦ inr (j, kept_owner y i free p at j k' other f)
    ]
  ];
}
  where
    p : Thread
    p = taken k

    count : (k' : ℕ) → copies k' y.queue ≡ copies k' rest + (if k == k' then 1 else 0)
    count k' = ap (copies k') e ∙ copies-cons k' k rest

    first : (k' : ℕ) → owner p ≡ some k' → 1 ≤ copies k' y.queue
    first k' had = ground (arith, count k')

-- A thread puts its task at the end of the queue.
pub push-Sound :
    (y : System) (i k : ℕ)
    → y.threads i ≡ pushing k
    → Sound y
    → Sound (record y { queue = y.queue ++ k ∷ []; threads = put y.threads i free })
push-Sound y i k at v = record {
  one = λ a b k' f g. elim (moved_owner y i (pushing k) free at a k' f) [
    | inl (its, had) ↦ absurd (ground arith)
    | inr (other, f') ↦ elim (moved_owner y i (pushing k) free at b k' g) [
      | inl (its', had') ↦ absurd (ground arith)
      | inr (other', g') ↦ v.one a b k' f' g'
    ]
  ];
  fit =
      fit_moved y i (pushing k) free at y.states (λ k' had. absurd (ground arith))
        (λ j k' other f. v.fit j k' f);
  once = λ k'. elim (Bool-cases (k == k')) [
    | inl same ↦ let its : k ≡ k' = ground arith in ground (arith, count k', empty k' its)
    | inr other ↦ ground (arith, count k', v.once k')
  ];
  waits = λ k' q. elim (Bool-cases (k == k')) [
    | inl same ↦
        let its : k ≡ k' = ground arith in
        ap (λ t. fits t (y.states k')) (sym at) ∙ v.fit i k' (mine k' its)
    | inr other ↦ v.waits k' (ground (arith, count k'))
  ];
  unowned = λ j k' q f. elim (moved_owner y i (pushing k) free at j k' f) [
    | inl (its, had) ↦ ground arith
    | inr (other, f') ↦ elim (Bool-cases (k == k')) [
      | inl same ↦ let both = v.one j i k' f' (mine k' (ground arith)) in ground arith
      | inr apart ↦ v.unowned j k' (ground (arith, count k')) f'
    ]
  ];
  kept = λ k' l. elim (v.kept k' l) [
    | inl q ↦ inl (omega (arith, count k'))
    | inr (j, f) ↦ elim (Bool-cases (j == i)) [
      | inl its ↦
          let there : j ≡ i = ground arith in
          let same : some k' ≡ some k = sym f ∙ ap (λ n. owner (y.threads n)) there ∙ ap owner at in
          inl (ground (arith, count k'))
      | inr other ↦ inr (j, kept_owner y i (pushing k) free at j k' other f)
    ]
  ];
}
  where
    count :
        (k' : ℕ) → copies k' (y.queue ++ k ∷ []) ≡ copies k' y.queue + (if k == k' then 1 else 0)
    count k' = copies-append k' k y.queue

    mine : (k' : ℕ) → k ≡ k' → owner (y.threads i) ≡ some k'
    mine k' its = ap owner at ∙ ap (λ (n : ℕ). some n) its

    -- What a thread owns is not in the queue.
    empty : (k' : ℕ) → k ≡ k' → copies k' y.queue ≡ 0
    empty k' its = elim (Bool-cases (copies k' y.queue == 0)) [
      | inl none_there ↦ ground arith
      | inr some_there ↦ absurd (v.unowned i k' (ground arith) (mine k' its))
    ]
