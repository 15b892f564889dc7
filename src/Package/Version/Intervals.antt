-- ===== src/Package/Version/Intervals.antt =====
-- The order of versions, what a requirement allows, and the highest version allowed, of
-- crates/grenat_package/src/version.rs.
use grenat.Prelude.{
  ◌≡◌, refl, true, false, List, [], ◌∷◌, Option, none, some, arith, Bool-cases, inl, inr, ◌⊎◌,
}
use grenat.Package.Version.{
  Version, lt, le, same, Op, op_eq, op_gt, op_ge, op_lt, op_le, pessimistic, Requirement,
  next_release, holds, all_hold, matches, all_match, later_max, highest_from, highest,
}

-- `b` lies between `a` and `c`.
abbrev pub Between : Version → Version → Version → Type 0
Between a b c = (le a b ≡ true) × (le b c ≡ true)

le_trans : (a b c : Version) → le a b ≡ true → le b c ≡ true → le a c ≡ true
unfolding le lt
le_trans a b c h k = ground arith

le-lt_trans : (a b c : Version) → le a b ≡ true → lt b c ≡ true → lt a c ≡ true
unfolding le lt
le-lt_trans a b c h k = ground arith

lt-le_trans : (a b c : Version) → lt a b ≡ true → le b c ≡ true → lt a c ≡ true
unfolding le lt
lt-le_trans a b c h k = ground arith

lt-le : (a b : Version) → lt a b ≡ true → le a b ≡ true
unfolding le lt
lt-le a b h = ground arith

le_refl : (a : Version) → le a a ≡ true
unfolding le lt
le_refl a = ground arith

same-Between :
    (a b c r : Version) → Between a b c → same a r ≡ true → same c r ≡ true → same b r ≡ true
unfolding le lt same
same-Between a b c r (h, k) p q = ground arith

holds-Between :
    (op : Op) (r a b c : Version)
    → Between a b c
    → holds op r a ≡ true
    → holds op r c ≡ true
    → holds op r b ≡ true
unfolding holds
holds-Between op_eq r a b c d h k = same-Between a b c r d h k
holds-Between op_gt r a b c d h k = lt-le_trans r a b h d.0
holds-Between op_ge r a b c d h k = le_trans r a b h d.0
holds-Between op_lt r a b c d h k = le-lt_trans b c r d.1 k
holds-Between op_le r a b c d h k = le_trans b c r d.1 k
holds-Between (pessimistic parts) r a b c d h k =
    ground (arith, le_trans r a b, le-lt_trans b c (next_release parts r), d)

all_hold-Between :
    (conditions : List (Op × Version)) (a b c : Version)
    → Between a b c
    → all_hold conditions a ≡ true
    → all_hold conditions c ≡ true
    → all_hold conditions b ≡ true
unfolding all_hold
all_hold-Between [] a b c d h k = refl
all_hold-Between ((op, r) ∷ conditions) a b c d h k =
    ground (arith, holds-Between op r a b c d, all_hold-Between conditions a b c d)

-- The versions that a requirement allows have no gap: one between two allowed versions is allowed.
matches-Between :
    (r : Requirement) (a b c : Version)
    → Between a b c
    → matches r a ≡ true
    → matches r c ≡ true
    → matches r b ≡ true
unfolding matches
matches-Between r a b c d h k = all_hold-Between r.conditions a b c d h k

-- Where `v` stands in a list of versions.
abbrev pub Among : Version → List Version → Type 0
Among v [] = ⊥
Among v (w ∷ ws) = (v ≡ w) ⊎ Among v ws

-- No version of the list that the requirements allow is above `v`.
abbrev pub Tops : Version → List Version → List Requirement → Type 0
Tops v [] rs = Unit
Tops v (w ∷ ws) rs = (all_match rs w ≡ true → le w v ≡ true) × Tops v ws rs

-- The best of those seen and those to come.
abbrev Best : Option Version → List Version → List Requirement → Option Version → Type 0
Best none vs rs none = (v : Version) → Among v vs → all_match rs v ≡ false
Best (some b) vs rs none = ⊥
Best none vs rs (some m) = Among m vs × (all_match rs m ≡ true) × Tops m vs rs
Best (some b) vs rs (some m) =
    ((m ≡ b) ⊎ (Among m vs × (all_match rs m ≡ true))) × (le b m ≡ true) × Tops m vs rs

not_lt-le : (v b : Version) → lt v b ≡ false → le b v ≡ true
unfolding le
not_lt-le v b h = rw h refl

Among-later :
    (m v : Version) (vs : List Version) (rs : List Requirement)
    → (m ≡ v) ⊎ (Among m vs × (all_match rs m ≡ true))
    → all_match rs v ≡ true
    → Among m (v ∷ vs) × (all_match rs m ≡ true)
Among-later m v vs rs (inl e) h = (inl e, rw e h)
Among-later m v vs rs (inr (a, k)) h = (inr a, k)

Best-first :
    (v : Version) (vs : List Version) (rs : List Requirement) (r : Option Version)
    → all_match rs v ≡ true
    → Best (some v) vs rs r
    → Best none (v ∷ vs) rs r
Best-first v vs rs none h b = absurd b
Best-first v vs rs (some m) h (a, l, tops) =
    let (a', k) = Among-later m v vs rs a h in (a', k, ((λ _. l), tops))

Best-none :
    (v : Version) (vs : List Version) (rs : List Requirement) (r : Option Version)
    → all_match rs v ≡ false
    → Best none vs rs r
    → Best none (v ∷ vs) rs r
Best-none v vs rs none h b = λ w a. elim a [ inl e ↦ rw e h | inr later ↦ b w later ]
Best-none v vs rs (some m) h (a, k, tops) = (inr a, k, ((λ e. ground arith), tops))

Best-later :
    (b v : Version) (vs : List Version) (rs : List Requirement) (r : Option Version)
    → all_match rs v ≡ true
    → le b v ≡ true
    → Best (some v) vs rs r
    → Best (some b) (v ∷ vs) rs r
Best-later b v vs rs none h k t = t
Best-later b v vs rs (some m) h k (a, l, tops) =
    (inr (Among-later m v vs rs a h), le_trans b v m k l, ((λ _. l), tops))

Best-kept :
    (b v : Version) (vs : List Version) (rs : List Requirement) (r : Option Version)
    → (all_match rs v ≡ true → le v b ≡ true)
    → Best (some b) vs rs r
    → Best (some b) (v ∷ vs) rs r
Best-kept b v vs rs none h t = t
Best-kept b v vs rs (some m) h (inl e, l, tops) = (inl e, l, ((λ k. le_trans v b m (h k) l), tops))
Best-kept b v vs rs (some m) h (inr (a, e), l, tops) =
    (inr (inr a, e), l, ((λ k. le_trans v b m (h k) l), tops))

highest_from-Best :
    (best : Option Version) (vs : List Version) (rs : List Requirement)
    → Best best vs rs (highest_from best vs rs)
unfolding highest_from later_max
highest_from-Best none [] rs = λ v m. absurd m
highest_from-Best (some b) [] rs = (inl refl, le_refl b, tt)
highest_from-Best none (v ∷ vs) rs = elim (Bool-cases (all_match rs v)) [
  | inl e ↦ rw e (Best-first v vs rs _ e (highest_from-Best (some v) vs rs))
  | inr e ↦ rw e (Best-none v vs rs _ e (highest_from-Best none vs rs))
]
highest_from-Best (some b) (v ∷ vs) rs = elim (Bool-cases (all_match rs v)) [
  | inl e ↦ elim (Bool-cases (lt v b)) [
    | inl below ↦
        rw (e, below)
          (Best-kept b v vs rs _ (λ _. lt-le v b below) (highest_from-Best (some b) vs rs))
    | inr above ↦
        rw (e, above)
          (Best-later b v vs rs _ e (not_lt-le v b above) (highest_from-Best (some v) vs rs))
  ]
  | inr e ↦ rw e (Best-kept b v vs rs _ (λ k. ground arith) (highest_from-Best (some b) vs rs))
]

-- What `highest` promises: one of the versions, allowed, and below no other that is, or none when no
-- version is allowed.
abbrev pub IsHighest : List Version → List Requirement → Option Version → Type 0
IsHighest vs rs none = (v : Version) → Among v vs → all_match rs v ≡ false
IsHighest vs rs (some m) = Among m vs × (all_match rs m ≡ true) × Tops m vs rs

of_Best :
    (vs : List Version) (rs : List Requirement) (r : Option Version)
    → Best none vs rs r
    → IsHighest vs rs r
of_Best vs rs none b = b
of_Best vs rs (some m) b = b

-- `highest` gives one of the versions that every requirement allows and above which no other such
-- version lies, and none only when the requirements allow none of them.
pub highest-IsHighest :
    (vs : List Version) (rs : List Requirement) → IsHighest vs rs (highest vs rs)
unfolding highest
highest-IsHighest vs rs = of_Best vs rs (highest_from none vs rs) (highest_from-Best none vs rs)
