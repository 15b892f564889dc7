-- ===== src/Serve/Cron/Parse/Steps.antt =====
-- The values that the loop over a range of a field allows.
use native.Mathlib.Nat.{mod-eq_of_lt, add-mod_right}
use grenat.Prelude.{
  ℕ, zero, suc, ◌+◌, ◌-◌, ◌%◌, ◌≤◌, ◌<◌, ◌≡◌, refl, ◌∙◌, sym, ap, Bool, false, ◌&&◌, ◌||◌, List, [],
  ◌∷◌, length, leb, ◌==◌, arith, Bool-cases, inl, inr,
}
use grenat.Serve.Cron.{allows}
use grenat.Serve.Cron.Parse.{allow, allow_steps}

pub allow-length : (a : List Bool) (v : ℕ) → length (allow a v) ≡ length a
unfolding allow
allow-length [] v = refl
allow-length (b ∷ a) zero = refl
allow-length (b ∷ a) (suc v) = ap suc (allow-length a v)

allows-allow :
    (a : List Bool) (v u : ℕ) → v < length a → allows (allow a v) u ≡ (allows a u || u == v)
unfolding allow allows
allows-allow [] v u h = absurd (omega arith)
allows-allow (b ∷ a) zero zero h = ground arith
allows-allow (b ∷ a) zero (suc u) h = ground arith
allows-allow (b ∷ a) (suc v) zero h = ground arith
allows-allow (b ∷ a) (suc v) (suc u) h = ground (arith, allows-allow a v u)

-- The values from `lo` to `hi`, a number of steps from `lo`.
unfoldable pub in_steps : (lo hi step u : ℕ) → Bool
in_steps lo hi step u = leb lo u && leb u hi && (u - lo) % step == 0

step_back : (v step u : ℕ) → v + step ≤ u → (u - v) % step ≡ (u - (v + step)) % step
step_back v step u h =
    let e : (u - (v + step)) + step ≡ u - v = omega arith in
    ap (λ d. d % step) (sym e) ∙ add-mod_right (u - (v + step)) step

step_near : (v step u : ℕ) → v ≤ u → u < v + step → (u - v) % step ≡ u - v
step_near v step u h k = mod-eq_of_lt (omega arith)

in_steps-next :
    (v hi step u : ℕ)
    → 1 ≤ step
    → v ≤ hi
    → in_steps v hi step u ≡ (u == v || in_steps (v + step) hi step u)
unfolding in_steps
in_steps-next v hi step u h k = elim (Bool-cases (leb (v + step) u)) [
  | inl far ↦ ground (arith, step_back v step u)
  | inr near ↦ ground (arith, step_near v step u)
]

in_steps-none : (v hi step u : ℕ) → hi < v → in_steps v hi step u ≡ false
unfolding in_steps
in_steps-none v hi step u h = ground arith

pub allow_steps-length :
    (fuel v hi step : ℕ) (a : List Bool) → length (allow_steps fuel v hi step a) ≡ length a
unfolding allow_steps
allow_steps-length zero v hi step a = refl
allow_steps-length (suc fuel) v hi step a =
    ground (arith, allow_steps-length fuel (v + step) hi step (allow a v), allow-length a v)

pub allows-allow_steps :
    (fuel v hi step : ℕ) (a : List Bool) (u : ℕ)
    → hi < v + fuel
    → 1 ≤ step
    → hi < length a
    → allows (allow_steps fuel v hi step a) u ≡ (allows a u || in_steps v hi step u)
unfolding allow_steps
allows-allow_steps zero v hi step a u f h k =
    rw (in_steps-none v hi step u (omega arith)) (ground arith)
allows-allow_steps (suc fuel) v hi step a u f h k = elim (Bool-cases (leb v hi)) [
  | inl more ↦
      let length_kept = allow-length a v in
      let again =
        allows-allow_steps fuel (v + step) hi step (allow a v) u (ground arith) h
          (omega (arith, length_kept)) in
      let next = in_steps-next v hi step u h (ground arith) in
      rw more (again ∙ ground (arith, next, allows-allow a v u))
  | inr over ↦ rw (over, in_steps-none v hi step u (ground arith)) (ground arith)
]
