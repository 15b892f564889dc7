-- ===== src/Lexer/Scan/Numbers.antt =====
-- Where numbers leave the machine, and what their digits say.
use grenat.Prelude.{
  ℕ, ◌+◌, ◌^◌, ◌≤◌, ◌<◌, ◌≡◌, refl, sym, ◌∙◌, ap, Bool, true, false, ◌&&◌, ◌||◌, Option, some, ◌==◌,
  if◌then◌else◌, arith, Bool-cases, Option-cases, inl, inr, subst,
}
use grenat.Prelude.Text.{Text, parse_below, is_digit, codes, starts_with}
use grenat.Lexer.Token.{TokenKind, int, float, invalid_hexadecimal, out_of_range}
use grenat.Lexer.Source.{width, bytes, from, nth, run_of, slice}
use grenat.Lexer.Source.Bounds.{nth-from, bytes-from, run_of-some, starts_with-bytes}
use grenat.Lexer.Scan.{Unicode, Lexer, rest, peek, peek_at, is_char, is_some_and, bump}
use grenat.Lexer.Scan.Words.{
  hexadecimal, skip_digits, fraction, exponent, decimal, number, number_kind, is_hexdigit,
  hex_below, without_underscores, i64_bound,
}
use grenat.Lexer.Scan.Tokens.{Spells}
use grenat.Lexer.Scan.Sound.{At, weaken, move, error-At, bump-At, run-bound}
use grenat.Lexer.Scan.Moves.{IsPlain, At-if, At-option, push_plain}

number_kind-IsPlain :
    (u : Unicode) (is_float : Bool) (s : Text) (a b : ℕ) (k : TokenKind)
    → number_kind u is_float (without_underscores (slice s a b)) ≡ some k
    → IsPlain s a b k
unfolding Spells
number_kind-IsPlain u true s a b k e =
    let text = without_underscores (slice s a b) in
    elim (Option-cases (u.parse_f64 text)) [
      | inl n ↦ absurd (ground arith)
      | inr (bits, f) ↦
          let same : float bits ≡ k = ground arith in subst (IsPlain s a b) same (refl, tt)
    ]
number_kind-IsPlain u false s a b k e =
    let text = without_underscores (slice s a b) in
    elim (Option-cases (parse_below i64_bound text)) [
      | inl n ↦ absurd (ground arith)
      | inr (n, f) ↦ let same : int n ≡ k = ground arith in subst (IsPlain s a b) same (refl, inl f)
    ]

module _ (s : Text) (r : Option ℕ) (small : bytes s < 2 ^ 32) where
  run_on :
      (test : ℕ → Bool) (q o p : ℕ) (lx : Lexer)
      → At s r o lx
      → q ≤ p
      → p ≤ bytes s
      → At s r q (record lx { pos = p + run_of test (from p lx.src) })
  run_on test q o p lx a l h =
      weaken s r q _ _ (omega arith) (move s r o _ lx a (run-bound s r test o p lx h a))

  hexadecimal-past :
      (q : ℕ) (lx : Lexer)
      → At s r q lx
      → starts_with (codes "0x") (rest lx) ≡ true
      → At s r (lx.pos + 1) (hexadecimal lx)
  unfolding hexadecimal rest bytes width Spells
  hexadecimal-past q lx a e =
      let two = starts_with-bytes (codes "0x") (rest lx) e in
      let bound : lx.pos + 2 ≤ bytes s =
        omega (arith, two, bytes-from lx.pos lx.src, ap bytes a.same_src, a.in_src) in
      let taken =
        run_on (λ c. is_hexdigit c || c == b'_') (lx.pos + 1) q (lx.pos + 2) lx a (omega arith)
          bound in
      let end = lx.pos + 2 + run_of (λ c. is_hexdigit c || c == b'_') (from (lx.pos + 2) lx.src) in
      let digits = slice lx.src (lx.pos + 2) end in
      At-option s r small (lx.pos + 1) (hex_below i64_bound (without_underscores digits))
        (λ _.
          error-At s r (lx.pos + 1) lx.pos end invalid_hexadecimal _ small taken a.in_src
            taken.in_src)
        (λ n e.
          push_plain s r small (lx.pos + 1) lx.pos (int n) (record lx { pos = end }) taken
            (omega (arith, taken.from_start)) refl (inr e))

  skip_digits-At : (q : ℕ) (lx : Lexer) → At s r q lx → At s r q (skip_digits lx)
  unfolding skip_digits rest
  skip_digits-At q lx a = run_on _ q q lx.pos lx a a.from_start a.in_src

  skip_digits-past :
      (q : ℕ) (lx : Lexer) (c : ℕ)
      → At s r q lx
      → peek lx ≡ some c
      → is_digit c ≡ true
      → At s r (lx.pos + 1) (skip_digits lx)
  unfolding skip_digits rest peek
  skip_digits-past q lx c a e h =
      let test = λ (c : ℕ). is_digit c || c == b'_' in
      let bound = run-bound s r test q lx.pos lx a.in_src a in
      let more = run_of-some test (from lx.pos lx.src) c e (ground arith) in
      weaken s r (lx.pos + 1) _ _ (omega (arith, more)) (move s r q _ lx a bound)

  fraction-At : (q : ℕ) (lx : Lexer) → At s r q lx → At s r q (fraction lx).0
  unfolding fraction
  fraction-At q lx a =
      let more = skip_digits-At q (bump lx) (bump-At s r q lx a) in ground (arith, a, more)

  digit_there :
      (lx : Lexer) (q k : ℕ)
      → At s r q lx
      → is_some_and is_digit (peek_at lx k) ≡ true
      → lx.pos + k ≤ bytes s
  unfolding peek_at rest
  digit_there lx q k a h = elim (Option-cases (nth k (from lx.pos lx.src))) [
    | inl n ↦ absurd (ground arith)
    | inr (c, e) ↦ omega (arith, nth-from k lx.pos lx.src c e, ap bytes a.same_src)
  ]

  exponent-At : (q : ℕ) (lx : Lexer) → At s r q lx → At s r q (exponent lx).0
  unfolding exponent
  exponent-At q lx a =
      let signed = is_char b'+' (peek_at lx 1) || is_char b'-' (peek_at lx 1) in
      let digit_at : ℕ = if signed then 2 else 1 in
      let test =
        (is_char b'e' (peek lx) || is_char b'E' (peek lx))
        && is_some_and is_digit (peek_at lx digit_at) in
      elim (Bool-cases test) [
        | inl on ↦
            let there =
              move s r q (lx.pos + digit_at) lx a
                (digit_there lx q digit_at a (ground (arith, on))) in
            let taken = skip_digits-At q _ (weaken s r q _ _ (omega (arith, a.from_start)) there) in
            rw (on, exponent) taken
        | inr off ↦ rw (off, exponent) a
      ]

  decimal-past :
      (u : Unicode) (q : ℕ) (lx : Lexer) (c : ℕ)
      → At s r q lx
      → peek lx ≡ some c
      → is_digit c ≡ true
      → At s r (lx.pos + 1) (decimal u lx)
  unfolding decimal
  decimal-past u q lx c a e h =
      let whole = fraction-At (lx.pos + 1) _ (skip_digits-past q lx c a e h) in
      let taken = exponent-At (lx.pos + 1) _ whole in
      let fractional = fraction (skip_digits lx) in
      let end = exponent fractional.0 in
      let text = without_underscores (slice lx.src lx.pos end.0.pos) in
      At-option s r small (lx.pos + 1) (number_kind u (fractional.1 || end.1) text)
        (λ _.
          error-At s r (lx.pos + 1) lx.pos end.0.pos out_of_range end.0 small taken a.in_src
            taken.in_src)
        (λ k f.
          let (n, w) = number_kind-IsPlain u (fractional.1 || end.1) lx.src lx.pos end.0.pos k f in
          push_plain s r small (lx.pos + 1) lx.pos k end.0 taken (omega (arith, taken.from_start)) n
            (subst (λ t. Spells t lx.pos end.0.pos k) (a.same_src ∙ sym taken.same_src) w))

  pub number-past :
      (u : Unicode) (q : ℕ) (lx : Lexer) (c : ℕ)
      → At s r q lx
      → peek lx ≡ some c
      → is_digit c ≡ true
      → At s r (lx.pos + 1) (number u lx)
  unfolding number
  number-past u q lx c a e h =
      At-if s r small (lx.pos + 1) (starts_with (codes "0x") (rest lx))
        (λ f. hexadecimal-past q lx a f) (λ _. decimal-past u q lx c a e h)
