-- ===== src/Prelude/Decimal.antt =====
-- Decimal digits of a number, as `Display` writes it, and their value.
use grenat.Prelude.{
  ℕ, zero, suc, ◌+◌, ◌*◌, ◌/◌, ◌%◌, ◌<◌, ◌≡◌, refl, true, false, [], ◌∷◌, ltb, if◌then◌else◌, arith,
  Bool-cases, inl, inr, ◌∙◌, ap,
}
use grenat.Prelude.Text.{Text, is_digit, all_digits, digits_value, is_empty}

-- The digits of `n` before those of `out`.
unfoldable pub print_fuel : ℕ → ℕ → Text → Text
print_fuel zero n out = out
print_fuel (suc fuel) n out =
    let more = print_fuel fuel (n / 10) ((n % 10 + b'0') ∷ out) in
    if ltb n 10 then (n + b'0') ∷ out else more

unfoldable pub print : ℕ → Text
unfolding print_fuel
print n = print_fuel (n + 1) n []

div10 : (n : ℕ) → (n / 10) * 10 + n % 10 ≡ n
div10 n = omega arith

-- Reading goes on after the digits with the number multiplied out.
print_fuel-value :
    (fuel n : ℕ) (out : Text)
    → n < fuel
    → digits_value 0 (print_fuel fuel n out) ≡ digits_value n out
unfolding print_fuel digits_value
print_fuel-value zero n out h = absurd (omega arith)
print_fuel-value (suc fuel) n out h = elim (Bool-cases (ltb n 10)) [
  | inl small ↦ rw small (ap (λ k. digits_value k out) (omega arith))
  | inr large ↦ rw large (
      print_fuel-value fuel (n / 10) ((n % 10 + b'0') ∷ out) (ground arith)
      ∙ ap (λ k. digits_value k out) (omega arith))
]

print_fuel-all_digits :
    (fuel n : ℕ) (out : Text)
    → n < fuel
    → all_digits out ≡ true
    → all_digits (print_fuel fuel n out) ≡ true
unfolding print_fuel all_digits is_digit
print_fuel-all_digits zero n out h d = absurd (omega arith)
print_fuel-all_digits (suc fuel) n out h d = elim (Bool-cases (ltb n 10)) [
  | inl small ↦ rw small (ground arith)
  | inr large ↦
      rw large
        (print_fuel-all_digits fuel (n / 10) ((n % 10 + b'0') ∷ out) (ground arith) (ground arith))
]

print_fuel-some : (fuel n : ℕ) (out : Text) → n < fuel → is_empty (print_fuel fuel n out) ≡ false
unfolding print_fuel
print_fuel-some zero n out h = absurd (omega arith)
print_fuel-some (suc fuel) n out h = elim (Bool-cases (ltb n 10)) [
  | inl small ↦ rw small refl
  | inr large ↦ rw large (print_fuel-some fuel (n / 10) ((n % 10 + b'0') ∷ out) (ground arith))
]

pub print-all_digits : (n : ℕ) → all_digits (print n) ≡ true
unfolding print all_digits
print-all_digits n = print_fuel-all_digits (n + 1) n [] (omega arith) refl

pub print-some : (n : ℕ) → is_empty (print n) ≡ false
unfolding print
print-some n = print_fuel-some (n + 1) n [] (omega arith)

pub print-value : (n : ℕ) → digits_value 0 (print n) ≡ n
unfolding print digits_value
print-value n = print_fuel-value (n + 1) n [] (omega arith)
