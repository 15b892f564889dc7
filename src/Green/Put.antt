-- ===== src/Green/Put.antt =====
-- A function of tasks or threads with one of its values replaced.
use grenat.Prelude.{ℕ, ◌≡◌, refl, ap, ◌∙◌, false, ◌==◌, if◌then◌else◌, arith, Bool-cases, inl, inr}

module _ {ℓ} {A : Type ℓ} where
  abbrev pub put : (ℕ → A) → ℕ → A → ℕ → A
  put f k a j = if j == k then a else f j

module _ {ℓ} {A : Type ℓ} where
  pub put_self : (f : ℕ → A) (k : ℕ) (a : A) → put f k a k ≡ a
  put_self f k a = elim (Bool-cases (k == k)) [ inl e ↦ rw e refl | inr e ↦ absurd (ground arith) ]

  pub put-other : (f : ℕ → A) (k : ℕ) (a : A) (j : ℕ) → (j == k) ≡ false → put f k a j ≡ f j
  put-other f k a j e = rw e refl

  -- What does not change with one value changes with none.
  pub put-same {κ} :
      {B : Type κ} (g : A → B) (f : ℕ → A) (k : ℕ) (a : A)
      → g a ≡ g (f k)
      → (j : ℕ) → g (put f k a j) ≡ g (f j)
  put-same g f k a h j = elim (Bool-cases (j == k)) [
    | inl e ↦ let same : k ≡ j = ground arith in rw e (h ∙ ap (λ i. g (f i)) same)
    | inr e ↦ rw e refl
  ]
