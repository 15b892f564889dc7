-- ===== src/Ssh/KnownHosts/Answers.antt =====
-- Answers that count lines by what holds of them, as the loop of `lookup` finds them one by one.
use grenat.Prelude.{
  ℕ, suc, zero, ◌+◌, ◌<◌, ◌≡◌, refl, sym, ap, ◌∙◌, Bool, true, false, ◌||◌, Option, none, some,
  arith, Bool-cases, ◌⊎◌, inl, inr,
}
use grenat.Ssh.KnownHosts.{Lookup, known, unknown, changed, revoked}

abbrev pub NoLine : (ℕ → Bool) → Type 0
NoLine f = (j : ℕ) → f j ≡ false

-- The first of the lines from `index` on of which `f` is true has the number `n`, counted from 1.
abbrev pub IsFirst : (ℕ → Bool) → (index n : ℕ) → Type 0
IsFirst f index n = (k : ℕ) × (n ≡ index + k + 1) × (f k ≡ true) × ((j : ℕ) → j < k → f j ≡ false)

cons-NoLine : (f : ℕ → Bool) → f 0 ≡ false → NoLine (λ j. f (suc j)) → NoLine f
cons-NoLine f e h zero = e
cons-NoLine f e h (suc j) = h j

cons-IsFirst :
    (f : ℕ → Bool) (index n : ℕ)
    → f 0 ≡ false
    → IsFirst (λ j. f (suc j)) (index + 1) n
    → IsFirst f index n
cons-IsFirst f index n e (k, at, found, before) = (suc k, omega arith, found, earlier)
  where
    earlier : (j : ℕ) → j < suc k → f j ≡ false
    earlier zero h = e
    earlier (suc j) h = before j (omega arith)

-- What an answer says, where `found` is what the lines before `index` have given.
abbrev pub IsAnswer :
    (revokes agrees differs : ℕ → Bool) → (index : ℕ) → Bool × Option ℕ → Lookup → Type 0
IsAnswer revokes agrees differs index found (revoked n) = IsFirst revokes index n
IsAnswer revokes agrees differs index found known =
    NoLine revokes × ((found.0 ≡ true) ⊎ ((k : ℕ) × (agrees k ≡ true)))
IsAnswer revokes agrees differs index found (changed n) =
    NoLine revokes
    × NoLine agrees
    × (found.0 ≡ false)
    × ((found.1 ≡ some n) ⊎ ((found.1 ≡ none) × IsFirst differs index n))
IsAnswer revokes agrees differs index found unknown =
    NoLine revokes × NoLine agrees × (found.0 ≡ false) × (found.1 ≡ none) × NoLine differs

-- The first line there is, if no earlier one was found.
abbrev pub first_found : Option ℕ → Bool → ℕ → Option ℕ
first_found none true n = some n
first_found o b n = o

module _ (revokes agrees differs : ℕ → Bool) (index : ℕ) (found : Bool × Option ℕ)
    (free : revokes 0 ≡ false) where
  went_to :
      (o' o : Option ℕ) (d : Bool)
      → o' ≡ first_found found.1 (differs 0) (index + 1)
      → found.1 ≡ o
      → differs 0 ≡ d
      → o' ≡ first_found o d (index + 1)
  went_to o' o d f at now =
      f
      ∙ ap (λ x. first_found x (differs 0) (index + 1)) at
      ∙ ap (λ x. first_found o x (index + 1)) now

  pub cons-IsAnswer :
      (found' : Bool × Option ℕ)
      → found'.0 ≡ (found.0 || agrees 0)
      → found'.1 ≡ first_found found.1 (differs 0) (index + 1)
      → (d : Lookup)
      → IsAnswer
          (λ j. revokes (suc j))
          (λ j. agrees (suc j))
          (λ j. differs (suc j))
          (index + 1)
          found'
          d
      → IsAnswer revokes agrees differs index found d
  cons-IsAnswer found' e f (revoked n) h = cons-IsFirst revokes index n free h
  cons-IsAnswer found' e f known (h, how) = (
    cons-NoLine revokes free h,
    elim how [
      | inl before ↦ elim (Bool-cases (agrees 0)) [
        | inl here ↦ inr (0, here)
        | inr h ↦ inl (ground (arith, e, h, before))
      ]
      | inr (k, later) ↦ inr (suc k, later)
    ],
  )
  cons-IsAnswer found' e f (changed n) (h, g, b, how) = (
    cons-NoLine revokes free h,
    cons-NoLine agrees (ground (arith, e, b)) g,
    ground (arith, e, b),
    where_changed found.1 (differs 0) refl refl how,
  )
    where
      where_changed :
          (o : Option ℕ) (d : Bool)
          → found.1 ≡ o
          → differs 0 ≡ d
          → (found'.1 ≡ some n) ⊎ ((found'.1 ≡ none) × IsFirst (λ j. differs (suc j)) (index + 1) n)
          → (found.1 ≡ some n) ⊎ ((found.1 ≡ none) × IsFirst differs index n)
      where_changed (some m) d at now how = elim how [
        | inl there ↦ inl (at ∙ sym (went_to found'.1 (some m) d f at now) ∙ there)
        | inr (nowhere, first) ↦
            absurd (ground (arith, went_to found'.1 (some m) d f at now, nowhere))
      ]
      where_changed none true at now how = elim how [
        | inl there ↦
            let here : index + 1 ≡ n = ground (arith, went_to found'.1 none true f at now, there) in
            inr (at, (0, omega arith, now, λ j h. absurd (omega arith)))
        | inr (nowhere, first) ↦
            absurd (ground (arith, went_to found'.1 none true f at now, nowhere))
      ]
      where_changed none false at now how = elim how [
        | inl there ↦ absurd (ground (arith, went_to found'.1 none false f at now, there))
        | inr (nowhere, first) ↦ inr (at, cons-IsFirst differs index n now first)
      ]
  cons-IsAnswer found' e f unknown (h, g, b, c, d) =
      let here : differs 0 ≡ false = nothing_here found.1 (differs 0) refl refl in
      (
        cons-NoLine revokes free h,
        cons-NoLine agrees (ground (arith, e, b)) g,
        ground (arith, e, b),
        nothing_found found.1 refl,
        cons-NoLine differs here d,
      )
    where
      nothing_here : (o : Option ℕ) (d : Bool) → found.1 ≡ o → differs 0 ≡ d → d ≡ false
      nothing_here o false at now = refl
      nothing_here (some m) true at now =
          absurd (ground (arith, went_to found'.1 (some m) true f at now, c))
      nothing_here none true at now =
          absurd (ground (arith, went_to found'.1 none true f at now, c))

      nothing_found : (o : Option ℕ) → found.1 ≡ o → found.1 ≡ none
      nothing_found none at = at
      nothing_found (some m) at =
          absurd (ground (arith, went_to found'.1 (some m) (differs 0) f at refl, c))
