-- ===== src/Watch/Glob/Names.antt =====
-- `matches_name` decides what a segment means, though it goes back to the last `*` only.
use grenat.Prelude.{
  ℕ, zero, suc, ◌+◌, ◌*◌, ◌≤◌, ◌<◌, ◌≡◌, refl, ◌↔◌, ◌≢◌, ◌⊎◌, inl, inr, true, List, [], ◌∷◌, none,
  some, length, Bool-cases, if◌then◌else◌, arith,
}
use grenat.Watch.Glob.{Token, any, Name, Star, fits, all_any, rest, retry, match_loop, matches_name}

-- What a segment means, with no order of search: a `*` stands for any characters, another token for
-- one that fits it.
pub data Matches : List Token → Name → Type 0 where
  nothing : Matches [] []
  leave : {p : List Token} {s : Name} → Matches p s → Matches (any ∷ p) s
  take : {c : ℕ} {p : List Token} {s : Name} → Matches (any ∷ p) s → Matches (any ∷ p) (c ∷ s)
  fit :
      {token : Token} {c : ℕ} {p : List Token} {s : Name}
      → fits token c ≡ true
      → Matches p s
      → Matches (token ∷ p) (c ∷ s)

all_any-Matches : (p : List Token) → all_any p ≡ true → Matches p []
unfolding all_any
all_any-Matches [] h = nothing
all_any-Matches (any ∷ p) h = leave (all_any-Matches p h)
all_any-Matches (_ ∷ p) h = cc

Matches-all_any : {p : List Token} → Matches p [] → all_any p ≡ true
unfolding all_any
Matches-all_any nothing = refl
Matches-all_any (leave d) = Matches-all_any d

at_end : {p : List Token} → Matches (any ∷ p) [] → Matches p []
at_end (leave d) = d

star_twice : {p : List Token} {s : Name} → Matches (any ∷ any ∷ p) s → Matches (any ∷ p) s
unfolding fits
star_twice (leave d) = d
star_twice (take d) = take (star_twice d)
star_twice (fit h d) = cc

empty_inv : {token : Token} {p : List Token} → token ≢ any → Matches (token ∷ p) [] → ⊥
empty_inv ordinary (leave d) = ordinary refl

fit_inv :
    {token : Token} {c : ℕ} {p : List Token} {s : Name}
    → token ≢ any
    → Matches (token ∷ p) (c ∷ s)
    → (fits token c ≡ true) × Matches p s
fit_inv ordinary (fit h d) = (h, d)
fit_inv ordinary (leave d) = absurd (ordinary refl)
fit_inv ordinary (take d) = absurd (ordinary refl)

-- After a star, a token that fits somewhere leaves the rest to match further on.
past_token :
    {token : Token} {p : List Token} (s : Name) {c : ℕ}
    → token ≢ any
    → Matches (any ∷ token ∷ p) (c ∷ s)
    → Matches (any ∷ p) s
unfolding fits
past_token s ordinary (leave d) = leave (fit_inv ordinary d).1
past_token [] ordinary (take d) = absurd (empty_inv ordinary (at_end d))
past_token (c' ∷ s) ordinary (take d) = take (past_token s ordinary d)
past_token s ordinary (fit h d) = cc

one_more : {p : List Token} (s : Name) → Matches (any ∷ p) (rest s) → Matches (any ∷ p) s
one_more [] d = d
one_more (c ∷ s) d = take d

star_cases :
    {p : List Token} {s : Name} → Matches (any ∷ p) s → Matches p s ⊎ Matches (any ∷ p) (rest s)
unfolding fits
star_cases (leave d) = inl d
star_cases (take d) = inr d
star_cases (fit h d) = cc

-- Every character more for the star.
abbrev Later : Star → Type 0
Later none = ⊥
Later (some (p, s)) = Matches (any ∷ p) (rest s)

-- The steps that are left at most, for tokens shorter than `k`.
abbrev cost : ℕ → Name → Star → ℕ
cost k n none = (length n + 1) * k
cost k n (some (p, s)) = length s * k

-- A star that is tried again covers what any earlier star could still match.
abbrev Saved : ℕ → List Token → Name → Star → Type 0
Saved k t n none = Unit
Saved k t n (some (p, s)) =
    (Matches (any ∷ p) (rest s) → Matches (any ∷ t) n) × (length n ≤ length s) × (length p < k)

record Inv (k fuel : ℕ) (t : List Token) (n : Name) (star : Star) : Type 0 where
  shorter : length t < k
  saved : Saved k t n star
  enough : cost k n star + length t < fuel

-- The loop says whether the tokens match from here, or a later try of the star would.
abbrev Decides : ℕ → List Token → Name → Star → Type 0
Decides fuel t n star = (match_loop fuel t n star ≡ true) ↔ (Matches t n ⊎ Later star)

module _ (k : ℕ) where
  retry-Decides :
      (fuel c : ℕ) (t : List Token) (n : Name) (star : Star)
      → ((t' : List Token) (n' : Name) (star' : Star)
          → Inv k fuel t' n' star'
          → Decides fuel t' n' star')
      → Inv k (suc fuel) t (c ∷ n) star
      → ¬ Matches t (c ∷ n)
      → (retry (match_loop fuel) star ≡ true) ↔ (Matches t (c ∷ n) ⊎ Later star)
  unfolding retry
  retry-Decides fuel c t n none ih i mismatch =
      (λ e. cc, elim [ inl d ↦ absurd (mismatch d) | inr d ↦ absurd d ])
  retry-Decides fuel c t n (some (p, [])) ih i mismatch = absurd (omega arith)
  retry-Decides fuel c t n (some (p, x ∷ s)) ih i mismatch =
      let again = ih p s (some (p, s)) (record {
        shorter = i.saved.2;
        saved = (one_more s, omega arith, i.saved.2);
        enough = omega arith;
      }) in
      (
        λ e. elim (again.0 e) [ inl d ↦ inr (leave d) | inr d ↦ inr (one_more s d) ],
        elim [ inl d ↦ absurd (mismatch d) | inr d ↦ again.1 (star_cases d) ],
      )

  Inv-star :
      (fuel c : ℕ) (t : List Token) (n : Name) (star : Star)
      → Inv k (suc fuel) (any ∷ t) (c ∷ n) star
      → Inv k fuel t (c ∷ n) (some (t, c ∷ n))
  Inv-star fuel c t n none i = record {
    shorter = omega arith;
    saved = (take, omega arith, omega arith);
    enough = omega arith;
  }
  Inv-star fuel c t n (some (p, s)) i = record {
    shorter = omega arith;
    saved = (take, omega arith, omega arith);
    enough = grind arith;
  }

  Inv-fit :
      (fuel c : ℕ) (token : Token) (t : List Token) (n : Name) (star : Star)
      → token ≢ any
      → Inv k (suc fuel) (token ∷ t) (c ∷ n) star
      → Inv k fuel t n star
  Inv-fit fuel c token t n none ordinary i = record {
    shorter = omega arith;
    saved = tt;
    enough = omega arith;
  }
  Inv-fit fuel c token t n (some (p, s)) ordinary i = record {
    shorter = omega arith;
    saved = (λ d. past_token n ordinary (i.saved.0 d), omega arith, omega arith);
    enough = omega arith;
  }

  -- One round at a token other than `*`.
  fit-Decides :
      (fuel c : ℕ) (token : Token) (t : List Token) (n : Name) (star : Star)
      → token ≢ any
      → ((t' : List Token) (n' : Name) (star' : Star)
          → Inv k fuel t' n' star'
          → Decides fuel t' n' star')
      → Inv k (suc fuel) (token ∷ t) (c ∷ n) star
      → ((if fits token c then match_loop fuel t n star else retry (match_loop fuel) star) ≡ true)
        ↔ (Matches (token ∷ t) (c ∷ n) ⊎ Later star)
  fit-Decides fuel c token t n star ordinary ih i = elim (Bool-cases (fits token c)) [
    | inl h ↦
        let onward = ih t n star (Inv-fit fuel c token t n star ordinary i) in
        rw h (
          λ e. elim (onward.0 e) [ inl d ↦ inl (fit h d) | inr d ↦ inr d ],
          elim [ inl d ↦ onward.1 (inl (fit_inv ordinary d).1) | inr d ↦ onward.1 (inr d) ],
        )
    | inr h ↦
        rw h (
          retry-Decides fuel c (token ∷ t) n star ih i
            (λ d. ground (arith, (fit_inv ordinary d).0)))
  ]

  later_now :
      (t : List Token) (n : Name) (star : Star)
      → Saved k t n star
      → Later star
      → Matches (any ∷ t) n
  later_now t n none v d = absurd d
  later_now t n (some (p, s)) v d = v.0 d

  end-Decides :
      (t : List Token) (fuel : ℕ) (star : Star)
      → Saved k t [] star
      → (all_any t ≡ true) ↔ (Matches t [] ⊎ Later star)
  end-Decides t fuel none v =
      (λ e. inl (all_any-Matches t e), elim [ inl d ↦ Matches-all_any d | inr d ↦ absurd d ])
  end-Decides t fuel (some (p, s)) v = (
    λ e. inl (all_any-Matches t e),
    elim [ inl d ↦ Matches-all_any d | inr d ↦ Matches-all_any (at_end (v.0 d)) ],
  )

  loop-Decides :
      (fuel : ℕ) (t : List Token) (n : Name) (star : Star)
      → Inv k fuel t n star
      → Decides fuel t n star
  unfolding match_loop
  loop-Decides zero t n star i = absurd (omega arith)
  loop-Decides (suc fuel) t [] star i = end-Decides t fuel star i.saved
  loop-Decides (suc fuel) [] (c ∷ n) star i =
      retry-Decides fuel c [] n star (loop-Decides fuel) i (λ d. elim d [ ])
  loop-Decides (suc fuel) (any ∷ t) (c ∷ n) star i =
      let again = loop-Decides fuel t (c ∷ n) (some (t, c ∷ n)) (Inv-star fuel c t n star i) in
      (
        λ e. elim (again.0 e) [ inl d ↦ inl (leave d) | inr d ↦ inl (take d) ],
        elim [
          | inl d ↦ again.1 (star_cases d)
          | inr d ↦ again.1 (star_cases (star_twice (later_now (any ∷ t) (c ∷ n) star i.saved d)))
        ],
      )
  loop-Decides (suc fuel) (token ∷ t) (c ∷ n) star i =
      fit-Decides fuel c token t n star (λ e. cc) (loop-Decides fuel) i

-- `matches_name` answers true exactly on the names that the segment's tokens match.
pub matches_name_iff :
    (tokens : List Token) (text : Name) → (matches_name tokens text ≡ true) ↔ Matches tokens text
unfolding matches_name
matches_name_iff tokens text =
    let h =
      loop-Decides (length tokens + 1) _ tokens text none
        (record { shorter = omega arith; saved = tt; enough = omega arith }) in
    (λ e. elim (h.0 e) [ inl d ↦ d | inr d ↦ absurd d ], λ d. h.1 (inl d))
