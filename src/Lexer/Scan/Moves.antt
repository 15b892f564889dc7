-- ===== src/Lexer/Scan/Moves.antt =====
-- Each part of the machine that reads a word, a number or punctuation goes past the character it starts
-- at, stays in the source, and leaves sound tokens.
use grenat.Prelude.{
  ℕ, ◌+◌, ◌^◌, ◌≤◌, ◌<◌, ◌≡◌, refl, sym, ap, Bool, true, false, not, ◌&&◌, List, [], ◌∷◌, Option,
  none, some, ◌==◌, if◌then◌else◌, arith, Option-cases, inl, inr,
}
use grenat.Prelude.Text.{Text}
use grenat.Lexer.Keywords.{lookup}
use grenat.Lexer.Keywords.Readings.{lookup_iff}
use grenat.Lexer.Token.{
  TokenKind, label, symbol, ivar, is_newline, no_ivar_name, colon, colon_colon,
}
use grenat.Lexer.Source.{bytes, from, slice}
use grenat.Lexer.Source.Bounds.{bytes-from, run_of-some, starts_with-bytes}
use grenat.Lexer.Scan.{
  Unicode, is_ident_start, is_ident_continue, is_alphanumeric, Lexer, rest, peek, peek_at, is_char,
  is_some_and, bump, eat, push,
}
use grenat.Lexer.Scan.Words.{
  take_ident_chars, take_predicate_suffix, word_kind, word_end, push_word, word, at_macro,
  line_indent, instance_variable, operator_among, operators, operator_symbol, symbol_or_colon,
  colons,
}
use grenat.Lexer.Scan.Tokens.{Spells}
use grenat.Lexer.Scan.Sound.{
  At, weaken, move, error-At, push-At, bump-past, bump-At, eat-At, run-bound,
}

-- No line's end.
pub plain : (k : TokenKind) {P : Type 0} → is_newline k ≡ false → is_newline k ≡ true → P
plain k e f = absurd (ground arith)

-- A token that ends no line, with its text in the source.
abbrev pub IsPlain : Text → (a b : ℕ) → TokenKind → Type 0
IsPlain s a b k = (is_newline k ≡ false) × Spells s a b k

word_kind-IsPlain :
    (is_const : Bool) (s : Text) (a b : ℕ) → IsPlain s a b (word_kind is_const (slice s a b))
unfolding word_kind Spells
word_kind-IsPlain true s a b = (refl, refl)
word_kind-IsPlain false s a b = elim (Option-cases (lookup (slice s a b))) [
  | inl n ↦ rw (n, word_kind) (refl, (n, refl))
  | inr (k, e) ↦ rw (e, word_kind) (refl, sym ((lookup_iff (slice s a b) k).0 e))
]

module _ (s : Text) (r : Option ℕ) (small : bytes s < 2 ^ 32) where
  pub At-if :
      (q : ℕ) (b : Bool) {x y : Lexer}
      → (b ≡ true → At s r q x)
      → (b ≡ false → At s r q y)
      → At s r q (if b then x else y)
  At-if q true h k = h refl
  At-if q false h k = k refl

  pub At-option {ℓ} :
      {A : Type ℓ} (q : ℕ) (o : Option A) {x : Lexer} {y : A → Lexer}
      → (o ≡ none → At s r q x)
      → ((a : A) → o ≡ some a → At s r q (y a))
      → At s r q (elim o [ none ↦ x | some a ↦ y a ])
  At-option q none h k = h refl
  At-option q (some a) h k = k a refl

  -- A machine with another indentation for a macro stands where it stood.
  indented :
      (q : ℕ) (lx : Lexer) (indent : Option ℕ)
      → At s r q lx
      → At s r q (record lx { macro_indent = indent })
  indented q lx indent a = record {
    same_src = a.same_src;
    from_start = a.from_start;
    in_src = a.in_src;
    same_resume = a.same_resume;
    tokens_sound = a.tokens_sound;
    errors_in = a.errors_in;
    comments_in = a.comments_in;
  }

  -- Where a token of another kind than a line's end ends, the machine goes on.
  pub push_plain :
      (q start : ℕ) (k : TokenKind) (lx : Lexer)
      → At s r q lx
      → start ≤ lx.pos
      → is_newline k ≡ false
      → Spells lx.src start lx.pos k
      → At s r q (push lx k start lx.pos)
  push_plain q start k lx a h n w = push-At s r q start lx.pos k lx small a h a.in_src (plain k n) w

  pub take_ident_chars-At :
      (u : Unicode) (q : ℕ) (lx : Lexer) → At s r q lx → At s r q (take_ident_chars u lx)
  unfolding take_ident_chars rest
  take_ident_chars-At u q lx a =
      let bound =
        run-bound s r (is_ident_continue u) q lx.pos lx
          (omega (arith, a.in_src, ap bytes a.same_src)) a in
      weaken s r q _ _ (omega (arith, a.from_start)) (move s r q _ lx a bound)

  take_ident_chars-past :
      (u : Unicode) (q : ℕ) (lx : Lexer) (c : ℕ)
      → At s r q lx
      → peek lx ≡ some c
      → is_ident_continue u c ≡ true
      → At s r (lx.pos + 1) (take_ident_chars u lx)
  unfolding take_ident_chars rest peek
  take_ident_chars-past u q lx c a e h =
      let bound =
        run-bound s r (is_ident_continue u) q lx.pos lx
          (omega (arith, a.in_src, ap bytes a.same_src)) a in
      let more = run_of-some (is_ident_continue u) (from lx.pos lx.src) c e h in
      weaken s r (lx.pos + 1) _ _ (omega (arith, more)) (move s r q _ lx a bound)

  take_predicate_suffix-At :
      (q : ℕ) (lx : Lexer) → At s r q lx → At s r q (take_predicate_suffix lx)
  unfolding take_predicate_suffix
  take_predicate_suffix-At q lx a = ground (arith, a, bump-At s r q lx a)

  push_word-At :
      (u : Unicode) (q start : ℕ) (is_const : Bool) (lx : Lexer)
      → At s r q lx
      → start ≤ q
      → At s r q (push_word u lx start is_const)
  unfolding push_word Spells
  push_word-At u q start is_const lx a h =
      let text = slice lx.src start lx.pos in
      let indent =
        if at_macro u lx text then some (line_indent lx.src start) else lx.macro_indent in
      let (n, w) = word_kind-IsPlain is_const lx.src start lx.pos in
      At-if q (not is_const && is_char b':' (peek lx) && not (is_char b':' (peek_at lx 1)))
        (λ _.
          let b = bump-At s r q lx a in
          push_plain q start (label text) (bump lx) b (omega (arith, b.from_start)) refl tt)
        (λ _.
          push_plain q start (word_kind is_const text) (record lx { macro_indent = indent })
            (indented q lx indent a) (omega (arith, a.from_start)) n w)

  pub word-past :
      (u : Unicode) (q : ℕ) (lx : Lexer) (c : ℕ)
      → At s r q lx
      → peek lx ≡ some c
      → is_ident_start u c ≡ true
      → At s r (lx.pos + 1) (word u lx)
  unfolding word word_end is_ident_start is_ident_continue is_alphanumeric
  word-past u q lx c a e h =
      let continues : is_ident_continue u c ≡ true = ground arith in
      let is_const = is_some_and (λ c. u.is_uppercase c) (peek lx) in
      let taken = take_ident_chars-past u q lx c a e continues in
      push_word-At u (lx.pos + 1) lx.pos is_const (word_end u lx is_const)
        (At-if (lx.pos + 1) _ (λ _. take_predicate_suffix-At (lx.pos + 1) _ taken) (λ _. taken))
        (omega arith)

  pub instance_variable-past :
      (u : Unicode) (q : ℕ) (lx : Lexer) (c : ℕ)
      → At s r q lx
      → peek lx ≡ some c
      → At s r (lx.pos + 1) (instance_variable u lx)
  unfolding instance_variable Spells
  instance_variable-past u q lx c a e =
      let b = bump-past s r q lx c a e in
      let t = take_ident_chars-At u (lx.pos + 1) (bump lx) b in
      let taken = take_ident_chars u (bump lx) in
      At-if (lx.pos + 1) (taken.pos == (bump lx).pos)
        (λ _.
          error-At s r (lx.pos + 1) lx.pos taken.pos no_ivar_name taken small t a.in_src t.in_src)
        (λ _.
          push_plain (lx.pos + 1) lx.pos (ivar (slice lx.src (bump lx).pos taken.pos)) taken t
            (omega (arith, t.from_start)) refl tt)

  operator-bytes :
      (ops : List Text) (text op : Text) → operator_among ops text ≡ some op → bytes op ≤ bytes text
  unfolding operator_among
  operator-bytes [] text op e = absurd (ground arith)
  operator-bytes (o ∷ ops) text op e =
      ground (arith, starts_with-bytes o text, operator-bytes ops text op)

  symbol_or_colon-At :
      (u : Unicode) (q start : ℕ) (at_term : Bool) (lx : Lexer)
      → At s r q lx
      → start ≤ q
      → At s r q (symbol_or_colon u lx start at_term)
  unfolding symbol_or_colon operator_symbol rest Spells
  symbol_or_colon-At u q start at_term lx a h =
      let name = take_predicate_suffix-At q _ (take_ident_chars-At u q lx a) in
      At-if q (is_some_and (is_ident_start u) (peek lx) && at_term)
        (λ _. push_plain q start (symbol _) _ name (omega (arith, name.from_start)) refl tt)
        (λ _.
          At-option q (operator_symbol lx)
            (λ _. push_plain q start colon lx a (omega (arith, a.from_start)) refl tt)
            (λ op e.
              let short = operator-bytes operators (rest lx) op e in
              let bound : lx.pos + bytes op ≤ bytes s =
                omega (arith, short, bytes-from lx.pos lx.src, ap bytes a.same_src, a.in_src) in
              let there =
                weaken s r q _ _ (omega (arith, a.from_start))
                  (move s r q (lx.pos + bytes op) lx a bound) in
              At-if q at_term
                (λ _.
                  push_plain q start (symbol op) (record lx { pos = lx.pos + bytes op }) there
                    (omega (arith, a.from_start)) refl tt)
                (λ _. push_plain q start colon lx a (omega (arith, a.from_start)) refl tt)))

  pub colons-past :
      (u : Unicode) (q : ℕ) (lx : Lexer) (c : ℕ)
      → At s r q lx
      → peek lx ≡ some c
      → At s r (lx.pos + 1) (colons u lx)
  unfolding colons Spells
  colons-past u q lx c a e =
      let b = eat-At s r (lx.pos + 1) b':' (bump lx) (bump-past s r q lx c a e) in
      let after = (eat (bump lx) b':').0 in
      At-if (lx.pos + 1) (eat (bump lx) b':').1
        (λ _.
          push_plain (lx.pos + 1) lx.pos colon_colon after b (omega (arith, b.from_start)) refl tt)
        (λ _. symbol_or_colon-At u (lx.pos + 1) lx.pos _ after b (omega arith))
