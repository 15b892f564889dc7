-- ===== src/Ssh/HostPattern/Fields.antt =====
-- Which names the host field of a line of known_hosts stands for.
use mathlib.Core.Option.{some-injective}
use mathlib.Core.List.{Memᴰ}
use mathlib.Core.List.Memᴰ.{head, tail, not-nil}
use grenat.Prelude.{
  ◌≡◌, ◌↔◌, refl, sym, ap, ◌∙◌, Bool, true, false, ◌||◌, List, [], ◌∷◌, Option, none, some, arith,
  Bool-cases, Option-cases, ◌⊎◌, inl, inr,
}
use grenat.Prelude.Text.{Text, strip_prefix}
use grenat.Ssh.HostPattern.{
  HostPatterns, patterns, hashed_name, Mac, to_ascii_lowercase, glob, matches_any, hashed_matches,
  matches,
}
use grenat.Ssh.HostPattern.Globs.{IsOf, glob_iff}

-- A pattern that starts with `!`, without it; its letters are taken in lower case.
abbrev negated_part : Text → Option Text
negated_part p = strip_prefix (b'!' ∷ []) (to_ascii_lowercase p)

abbrev Permits : Text → Text → Type 0
Permits name p = (negated_part p ≡ none) × IsOf (to_ascii_lowercase p) name

abbrev Forbids : Text → Text → Type 0
Forbids name p = (q : Text) × (negated_part p ≡ some q) × IsOf q name

-- A pattern of the list stands for the name, and no negation does.
abbrev IsListed : List Text → Text → Type 0
IsListed ps name =
    ((p : Text) × Memᴰ p ps × Permits name p) × ((p : Text) → Memᴰ p ps → ¬ Forbids name p)

abbrev IsLeft : Bool → List Text → Text → Type 0
IsLeft matched ps name =
    ((matched ≡ true) ⊎ ((p : Text) × Memᴰ p ps × Permits name p))
    × ((p : Text) → Memᴰ p ps → ¬ Forbids name p)

module _ (matched : Bool) (p : Text) (ps : List Text) (name : Text) where
  -- The pattern is no negation.
  permit-IsLeft :
      negated_part p ≡ none
      → (IsLeft (matched || glob (to_ascii_lowercase p) name) ps name
          ↔ IsLeft matched (p ∷ ps) name)
  permit-IsLeft plain = (
    λ (found, none_left). (
      elim found [
        | inl m ↦ elim (Bool-cases matched) [
          | inl before ↦ inl before
          | inr not_before ↦ inr (
            p,
            head refl,
            (plain, (glob_iff (to_ascii_lowercase p) name).0 (ground (arith, m, not_before))),
          )
        ]
        | inr (q, in_ps, permits) ↦ inr (q, tail in_ps, permits)
      ],
      λ q at f. next none_left q at f,
    ),
    λ (found, none_at). (
      elim found [ inl m ↦ inl (ground (arith, m)) | inr (q, at, permits) ↦ later q at permits ],
      λ q in_ps f. none_at q (tail in_ps) f,
    ),
  )
    where
      next :
          ((q : Text) → Memᴰ q ps → ¬ Forbids name q)
          → (q : Text) → Memᴰ q (p ∷ ps)
          → ¬ Forbids name q
      next none_left q (head e) (r, at, fits) = ground (arith, plain, at, ap negated_part e)
      next none_left q (tail in_ps) f = none_left q in_ps f

      later :
          (q : Text)
          → Memᴰ q (p ∷ ps)
          → Permits name q
          → ((matched || glob (to_ascii_lowercase p) name) ≡ true)
            ⊎ ((q : Text) × Memᴰ q ps × Permits name q)
      later q (head e) (free, fits) =
          let found = (glob_iff (to_ascii_lowercase q) name).1 fits in
          inl (ground (arith, found, ap (λ r. glob (to_ascii_lowercase r) name) e))
      later q (tail in_ps) permits = inr (q, in_ps, permits)

  -- The pattern is a negation that does not stand for the name.
  negated_part-IsLeft :
      (q : Text)
      → negated_part p ≡ some q
      → glob q name ≡ false
      → (IsLeft matched ps name ↔ IsLeft matched (p ∷ ps) name)
  negated_part-IsLeft q neg misses = (
    λ (found, none_left). (
      elim found [ inl m ↦ inl m | inr (r, in_ps, permits) ↦ inr (r, tail in_ps, permits) ],
      λ r at f. next none_left r at f,
    ),
    λ (found, none_at). (
      elim found [ inl m ↦ inl m | inr (r, at, permits) ↦ inr (later r at permits) ],
      λ r in_ps f. none_at r (tail in_ps) f,
    ),
  )
    where
      next :
          ((r : Text) → Memᴰ r ps → ¬ Forbids name r)
          → (r : Text) → Memᴰ r (p ∷ ps)
          → ¬ Forbids name r
      next none_left r (head e) (q', at, fits) =
          let same : some q ≡ some q' = sym neg ∙ ap negated_part (sym e) ∙ at in
          let found = (glob_iff q' name).1 fits in
          let its : q' ≡ q = ground (arith, same) in
          ground (arith, misses, found, ap (λ r. glob r name) its)
      next none_left r (tail in_ps) f = none_left r in_ps f

      later :
          (r : Text) → Memᴰ r (p ∷ ps) → Permits name r → (r : Text) × Memᴰ r ps × Permits name r
      later r (head e) (free, fits) = absurd (ground (arith, neg, free, ap negated_part e))
      later r (tail in_ps) permits = (r, in_ps, permits)

module _ (name : Text) where
  matches_any_iff :
      (matched : Bool) (ps : List Text)
      → (matches_any matched ps name ≡ true) ↔ IsLeft matched ps name
  unfolding matches_any
  matches_any_iff matched [] = (
    λ e. (inl e, λ p at f. not-nil at),
    λ (found, none_at). elim found [ inl m ↦ m | inr (p, at, f) ↦ absurd (not-nil at) ],
  )
  matches_any_iff matched (p ∷ ps) = elim (Option-cases (negated_part p)) [
    | inl plain ↦
        let (to, from) = matches_any_iff (matched || glob (to_ascii_lowercase p) name) ps in
        let (on, back) = permit-IsLeft matched p ps name plain in
        rw (plain, matches_any) (λ e. on (to e), λ l. from (back l))
    | inr (q, neg) ↦ elim (Bool-cases (glob q name)) [
      | inl hits ↦
          rw (neg, hits, matches_any)
            (
              λ e. absurd (ground arith),
              λ (found, none_at). absurd (none_at p (head refl) (q, neg, (glob_iff q name).0 hits)),
            )
      | inr misses ↦
          let (to, from) = matches_any_iff matched ps in
          let (on, back) = negated_part-IsLeft matched p ps name q neg misses in
          rw (neg, misses, matches_any) (λ e. on (to e), λ l. from (back l))
    ]
  ]

-- The field stands for the name: it lists the name, or its hash is the name's.
abbrev pub IsHost : Mac → HostPatterns → Text → Type 0
IsHost mac (hashed_name salt hash) name =
    (keyed : mac.Keyed) × (mac.new_from_slice salt ≡ some keyed)
    × (mac.verify_slice keyed name hash ≡ true)
IsHost mac (patterns ps) name = IsListed ps name

-- A host field matches a name exactly where one of its patterns stands for the name and none of its
-- negations does, wherever they stand in the list, or where its hash is the name's; `*` stands for any
-- text, `?` for any one byte, and a pattern's letters are taken in lower case.
pub matches_iff :
    (mac : Mac) (field : HostPatterns) (name : Text)
    → (matches mac field name ≡ true) ↔ IsHost mac field name
unfolding matches hashed_matches
matches_iff mac (patterns ps) name =
    let (to, from) = matches_any_iff name false ps in
    (
      λ e.
          let (found, none_at) = to e in
          (elim found [ inl f ↦ absurd (ground arith) | inr p ↦ p ], none_at),
      λ (found, none_at). from (inr found, none_at),
    )
matches_iff mac (hashed_name salt hash) name = elim (Option-cases (mac.new_from_slice salt)) [
  | inl bad ↦
      rw (bad, hashed_matches) (λ e. absurd (ground arith), λ (k, e, v). absurd (ground arith))
  | inr (keyed, good) ↦
      rw (good, hashed_matches)
        (
          λ e. (keyed, refl, e),
          λ (k, e, v). ap (λ x. mac.verify_slice x name hash) (some-injective keyed k e) ∙ v,
        )
]
