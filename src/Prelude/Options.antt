-- ===== src/Prelude/Options.antt =====
-- `Option` for runs on fuel, where `none` says that the fuel is at its end: the chain of two runs, and
-- a postcondition that the run also ends.
use grenat.Prelude.{◌≡◌, refl, Bool, true, false, Option, none, some, if◌then◌else◌}

infixl 5 ◌>>=◌
abbrev pub ◌>>=◌ {ℓ κ} : {A : Type ℓ} {B : Type κ} → Option A → (A → Option B) → Option B
none >>= f = none
some a >>= f = f a

-- The run ends, and `P` holds of its value.
pub data Returns {ℓ κ} {A : Type ℓ} (P : A → Type κ) : Option A → Type (ℓ ⊔ κ) where
  returns : {a : A} → P a → Returns P (some a)

module _ {ℓ κ} {A : Type ℓ} {P : A → Type κ} where
  pub Returns-value : {o : Option A} → Returns P o → (a : A) × (o ≡ some a) × P a
  Returns-value (returns {a} h) = (a, refl, h)

  pub Returns-map {μ} :
      {Q : A → Type μ} {o : Option A} → Returns P o → ((a : A) → P a → Q a) → Returns Q o
  Returns-map (returns {a} h) k = returns (k a h)

  pub Returns-if :
      (b : Bool) {x y : Option A}
      → (b ≡ true → Returns P x)
      → (b ≡ false → Returns P y)
      → Returns P (if b then x else y)
  Returns-if true h k = h refl
  Returns-if false h k = k refl

  pub Returns-bind {ℓ' κ'} :
      {B : Type ℓ'} {Q : B → Type κ'} {o : Option A} {f : A → Option B}
      → Returns P o
      → ((a : A) → P a → Returns Q (f a))
      → Returns Q (o >>= f)
  Returns-bind (returns {a} h) k = k a h
