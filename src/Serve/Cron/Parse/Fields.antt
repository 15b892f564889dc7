-- ===== src/Serve/Cron/Parse/Fields.antt =====
-- Which values a field of a schedule allows.
use grenat.Prelude.{
  ℕ, zero, suc, ◌+◌, ◌-◌, ◌≤◌, ◌<◌, ◌≡◌, refl, ◌∙◌, ap, Bool, true, false, ◌||◌, List, [], ◌∷◌,
  Option, none, some, length, ltb, if◌then◌else◌, arith, Option-cases, inl, inr,
}
use grenat.Prelude.Text.{Text, text_eq, codes, split_on}
use grenat.Prelude.Results.{Result, ok, err, ◌>>=◌}
use grenat.Serve.Cron.{allows}
use grenat.Serve.Cron.Parse.{
  CronError, split_once, Field, name_position, value, range_step, range_of, allow_steps, part_range,
  allow_parts, all_false, field,
}
use grenat.Serve.Cron.Parse.Steps.{in_steps, allow_steps-length, allows-allow_steps}

-- Whether the range and the step of a part take in a value.
unfoldable pub covers : Field → Text → ℕ → Bool
unfolding in_steps
covers f part u = elim (part_range f part) [
  | err e ↦ false
  | ok (lo, hi, step) ↦ in_steps lo hi step u
]

unfoldable pub any_covers : Field → List Text → ℕ → Bool
any_covers f [] u = false
any_covers f (p ∷ parts) u = covers f p u || any_covers f parts u

-- A field's names stand for values of the field.
abbrev pub NamesInside : Field → Type 0
NamesInside f =
    (f.lowest ≤ f.highest)
    × (0 < length f.names → f.lowest ≤ f.first_name)
    × (length f.names + f.first_name ≤ f.highest + 1)

-- A result of which `P` holds, where there is one.
abbrev pub Inside {ℓ} : {A : Type ℓ} → (A → Type 0) → Result CronError A → Type 0
Inside P (ok a) = P a
Inside P (err e) = Unit

pub Inside-bind {ℓ κ} :
    {A : Type ℓ} {B : Type κ} (P : A → Type 0) (Q : B → Type 0) (r : Result CronError A)
    (next : A → Result CronError B)
    → Inside P r
    → ((a : A) → P a → Inside Q (next a))
    → Inside Q (r >>= next)
Inside-bind P Q (err e) next h k = tt
Inside-bind P Q (ok a) next h k = k a h

Inside-known {ℓ κ} :
    {A : Type ℓ} {B : Type κ} (P : A → Type 0) (Q : B → Type 0) (r : Result CronError A)
    (next : A → Result CronError B)
    → Inside P r
    → ((a : A) → r ≡ ok a → P a → Inside Q (next a))
    → Inside Q (r >>= next)
Inside-known P Q (err e) next h k = tt
Inside-known P Q (ok a) next h k = k a refl h

pub Inside-map {ℓ} :
    {A : Type ℓ} (P Q : A → Type 0) (r : Result CronError A)
    → Inside P r
    → ((a : A) → P a → Q a)
    → Inside Q r
Inside-map P Q (err e) h k = tt
Inside-map P Q (ok a) h k = k a h

Inside-if {ℓ} :
    {A : Type ℓ} (P : A → Type 0) (b : Bool) (x y : Result CronError A)
    → Inside P x
    → Inside P y
    → Inside P (if b then x else y)
Inside-if P true x y h k = h
Inside-if P false x y h k = k

Inside-option {ℓ κ} :
    {A : Type ℓ} {B : Type κ} (P : B → Type 0) (o : Option A) (x : Result CronError B)
    (y : A → Result CronError B)
    → Inside P x
    → ((a : A) → Inside P (y a))
    → Inside P (elim o [ none ↦ x | some a ↦ y a ])
Inside-option P none x y h k = h
Inside-option P (some a) x y h k = k a

name_position-bound :
    (names : List Text) (s : Text) (i : ℕ) → name_position names s ≡ some i → i < length names
unfolding name_position
name_position-bound [] s i e = absurd (ground arith)
name_position-bound (n ∷ names) s i e = elim (Option-cases (name_position names s)) [
  | inl none_later ↦ ground arith
  | inr (j, later) ↦ ground (arith, name_position-bound names s j later)
]

-- A value of the field.
abbrev InField : Field → ℕ → Type 0
InField f n = (f.lowest ≤ n) × (n ≤ f.highest)

value-InField : (f : Field) (s : Text) → NamesInside f → Inside (InField f) (value f s)
unfolding value
value-InField f s (a, b, c) = elim (Option-cases (name_position f.names s)) [
  | inl e ↦ ground arith
  | inr (i, e) ↦ ground (arith, name_position-bound f.names s i e)
]

range_step-some : (part : Text) → Inside (λ (range, step). 1 ≤ step) (range_step part)
unfolding range_step
range_step-some part = ground arith

abbrev RangeIn : Field → ℕ × ℕ → Type 0
RangeIn f (lo, hi) = InField f lo × InField f hi

range_of-RangeIn :
    (f : Field) (r : Text) (step : ℕ) → NamesInside f → Inside (RangeIn f) (range_of f r step)
unfolding range_of
range_of-RangeIn f r step h =
    Inside-if (RangeIn f) (text_eq r (codes "*")) (ok (f.lowest, f.highest)) _ (ground arith) (
      Inside-option (RangeIn f) (split_once b'-' r) _ _
        (Inside-bind (InField f) (RangeIn f) (value f r)
          (λ lo. ok (lo, if ltb 1 step then f.highest else lo)) (value-InField f r h)
          (λ lo l. ground arith))
        (λ (a, b). Inside-bind (InField f) (RangeIn f) (value f a) _ (value-InField f a h) λ lo l.
          Inside-bind (InField f) (RangeIn f) (value f b) (λ hi. ok (lo, hi)) (value-InField f b h)
            (λ hi m. (l, m))))

abbrev StepsIn : Field → ℕ × ℕ × ℕ → Type 0
StepsIn f (lo, hi, step) = (f.lowest ≤ lo) × (lo ≤ hi) × (hi ≤ f.highest) × (1 ≤ step)

part_range-StepsIn :
    (f : Field) (part : Text) → NamesInside f → Inside (StepsIn f) (part_range f part)
unfolding part_range
part_range-StepsIn f part h =
    Inside-bind _ (StepsIn f) (range_step part) _ (range_step-some part) λ (range, step) k.
      Inside-bind (RangeIn f) (StepsIn f) (range_of f range step) _
        (range_of-RangeIn f range step h) λ (lo, hi) l. ground arith

-- The values that the parts before allow, and the parts.
abbrev Allows : Field → List Text → List Bool → List Bool → Type 0
Allows f parts a out =
    (length out ≡ length a) × ((u : ℕ) → allows out u ≡ (allows a u || any_covers f parts u))

covers-ok :
    (f : Field) (p : Text) (lo hi step u : ℕ)
    → part_range f p ≡ ok (lo, hi, step)
    → covers f p u ≡ in_steps lo hi step u
unfolding covers
covers-ok f p lo hi step u e = rw (e, covers) refl

allow_parts-Allows :
    (f : Field) (parts : List Text) (a : List Bool)
    → NamesInside f
    → length a ≡ f.highest + 1
    → Inside (Allows f parts a) (allow_parts f parts a)
unfolding allow_parts any_covers
allow_parts-Allows f [] a h l = (refl, λ u. ground arith)
allow_parts-Allows f (p ∷ parts) a h l =
    Inside-known (StepsIn f) (Allows f (p ∷ parts) a) (part_range f p) _ (part_range-StepsIn f p h)
      λ (lo, hi, step) e (_, _, k, m).
        let a' = allow_steps (hi + 1 - lo) lo hi step a in
        let kept = allow_steps-length (hi + 1 - lo) lo hi step a in
        let this = λ (u : ℕ).
          allows-allow_steps (hi + 1 - lo) lo hi step a u (omega arith) m (omega (arith, l)) in
        Inside-map (Allows f parts a') (Allows f (p ∷ parts) a) (allow_parts f parts a')
          (allow_parts-Allows f parts a' h (kept ∙ l))
          λ out (n, g). (n ∙ kept, λ u. ground (arith, g u, this u, covers-ok f p lo hi step u e))

all_false-length : (n : ℕ) → length (all_false n) ≡ n
unfolding all_false
all_false-length zero = refl
all_false-length (suc n) = ap suc (all_false-length n)

allows-all_false : (n u : ℕ) → allows (all_false n) u ≡ false
unfolding all_false allows
allows-all_false zero u = refl
allows-all_false (suc n) zero = refl
allows-all_false (suc n) (suc u) = allows-all_false n u

-- What a field's text says: a place for each value up to the highest, and a value is allowed when one of
-- the parts between commas covers it.
abbrev pub Reads : Field → Text → List Bool → Type 0
Reads f text out =
    (length out ≡ f.highest + 1) × ((u : ℕ) → allows out u ≡ any_covers f (split_on b',' text) u)

-- A field that is read has a place for each value up to the highest, and allows exactly the values that
-- one of its parts covers: those from the start of the part's range to its end, by the part's step.
pub field-Reads : (f : Field) (text : Text) → NamesInside f → Inside (Reads f text) (field f text)
unfolding field
field-Reads f text h =
    let start = all_false (f.highest + 1) in
    let parts = split_on b',' text in
    Inside-map (Allows f parts start) (Reads f text) (allow_parts f parts start)
      (allow_parts-Allows f parts start h (all_false-length (f.highest + 1)))
      λ out (n, g). (
        n ∙ all_false-length (f.highest + 1),
        λ u. ground (arith, g u, allows-all_false (f.highest + 1) u),
      )
