-- ===== src/Lexer/Scan/Lines.antt =====
-- Punctuation, comments, blanks and the ends of lines: where they leave the machine.
use grenat.Prelude.{
  ℕ, zero, suc, ◌+◌, ◌^◌, ◌≤◌, ◌<◌, ◌≡◌, refl, ap, Bool, true, false, not, ◌&&◌, [], ◌∷◌, Option,
  none, some, leb, arith, Option-cases, inl, inr, subst,
}
use grenat.Prelude.Text.{Text}
use grenat.Lexer.Token.{
  TokenKind, str, ident, const, kw, int, newline, macro_body, is_newline, unexpected_character,
  macro_without_end,
}
use grenat.Lexer.Source.{bytes, from, slice, line_end}
use grenat.Lexer.Source.Bounds.{
  width_pos, bytes-from, find_or-bounds, find_or-past, line_end-bounds, slice-to_end,
}
use grenat.Lexer.Scan.{
  Lexer, rest, peek, bump, last_kind, starts_line, blanks, skip_blanks, push_newline, macro_end,
  read_macro, resume, take_macro, end_line, comment,
}
use grenat.Lexer.Scan.Punct.{next_is, second_is, kind_at, punctuation, depth_after}
use grenat.Lexer.Scan.Tokens.{CommentsIn-append, new-SpanIn, Spells}
use grenat.Lexer.Scan.Sound.{At, weaken, move, error-At, push-At, bump-past}
use grenat.Lexer.Scan.Moves.{At-if, At-option, push_plain, plain}

-- Its text is given by its kind.
abbrev is_mark : TokenKind → Bool
is_mark (ident text) = false
is_mark (const text) = false
is_mark (macro_body text) = false
is_mark (kw k) = false
is_mark (int n) = false
is_mark (str parts) = false
is_mark _ = true

-- What a punctuation's arm gives: some characters that follow, and a plain kind.
abbrev fits_in : ℕ → Option (TokenKind × ℕ) → Bool
fits_in n none = true
fits_in n (some (k, eaten)) = leb eaten n && not (is_newline k) && is_mark k

next_is-bytes : (c : ℕ) (text : Text) → next_is c text ≡ true → 1 ≤ bytes text
unfolding bytes
next_is-bytes c [] h = absurd (ground arith)
next_is-bytes c (d ∷ text) h = omega (arith, width_pos d)

second_is-bytes : (c : ℕ) (text : Text) → second_is c text ≡ true → 2 ≤ bytes text
unfolding bytes
second_is-bytes c [] h = absurd (ground arith)
second_is-bytes c (d ∷ []) h = absurd (ground arith)
second_is-bytes c (d ∷ e ∷ text) h = omega (arith, width_pos d, width_pos e)

kind_at-fits_in : (c : ℕ) (text : Text) → fits_in (bytes text) (kind_at c text) ≡ true
unfolding kind_at
kind_at-fits_in c text = ground (
  arith,
  next_is-bytes b'.' text,
  next_is-bytes b'&' text,
  next_is-bytes b'|' text,
  next_is-bytes b'=' text,
  next_is-bytes b'~' text,
  next_is-bytes b'>' text,
  next_is-bytes b'<' text,
  next_is-bytes b'*' text,
  second_is-bytes b'.' text,
  second_is-bytes b'=' text,
  second_is-bytes b'>' text,
)

mark-Spells : (s : Text) (a b : ℕ) (k : TokenKind) → is_mark k ≡ true → Spells s a b k
unfolding Spells
mark-Spells s a b (str parts) e = absurd (ground arith)
mark-Spells s a b (ident text) e = absurd (ground arith)
mark-Spells s a b (const text) e = absurd (ground arith)
mark-Spells s a b (macro_body text) e = absurd (ground arith)
mark-Spells s a b (kw k) e = absurd (ground arith)
mark-Spells s a b (int n) e = absurd (ground arith)
mark-Spells s a b _ e = tt

fit_parts :
    (n : ℕ) (k : TokenKind) (eaten : ℕ)
    → fits_in n (some (k, eaten)) ≡ true
    → (eaten ≤ n) × (is_newline k ≡ false) × (is_mark k ≡ true)
fit_parts n k eaten h = (ground arith, ground arith, ground arith)

module _ (s : Text) (r : Option ℕ) (small : bytes s < 2 ^ 32) where
  pub punctuation-past :
      (q : ℕ) (lx : Lexer) (c : ℕ)
      → At s r q lx
      → peek lx ≡ some c
      → At s r (lx.pos + 1) (punctuation lx c)
  unfolding punctuation rest
  punctuation-past q lx c a e =
      let b = bump-past s r q lx c a e in
      let after = bump lx in
      At-option s r small (lx.pos + 1) (kind_at c (rest after))
        (λ _.
          error-At s r (lx.pos + 1) lx.pos after.pos (unexpected_character c) after small b a.in_src
            b.in_src)
        (λ (k, eaten) f.
          let (few, n, w) = fit_parts (bytes (rest after)) k eaten (
            subst (λ o. fits_in (bytes (rest after)) o ≡ true) f
              (kind_at-fits_in c (rest after))) in
          let end = after.pos + eaten in
          let bound : end ≤ bytes s =
            omega (arith, few, bytes-from after.pos after.src, ap bytes b.same_src, b.in_src) in
          let there : At s r (lx.pos + 1) (record after {
            pos = end;
            brace_depth = depth_after lx.in_interp k lx.brace_depth;
          }) =
            record {
              same_src = b.same_src;
              from_start = omega (arith, b.from_start);
              in_src = bound;
              same_resume = b.same_resume;
              tokens_sound = b.tokens_sound;
              errors_in = b.errors_in;
              comments_in = b.comments_in;
            } in
          push_plain s r small (lx.pos + 1) lx.pos k _ there (omega (arith, b.from_start)) n
            (mark-Spells after.src lx.pos end k w))

  blanks-bytes : (text : Text) → blanks text ≤ bytes text
  unfolding blanks bytes
  blanks-bytes [] = omega arith
  blanks-bytes (c ∷ []) = ground (arith, width_pos c)
  blanks-bytes (c ∷ d ∷ text) =
      ground (arith, width_pos c, width_pos d, blanks-bytes (d ∷ text), blanks-bytes text)

  pub skip_blanks-At : (q : ℕ) (lx : Lexer) → At s r q lx → At s r q (skip_blanks lx).0
  unfolding skip_blanks rest
  skip_blanks-At q lx a =
      let bound : lx.pos + blanks (rest lx) ≤ bytes s =
        omega (
          arith,
          blanks-bytes (rest lx),
          bytes-from lx.pos lx.src,
          ap bytes a.same_src,
          a.in_src,
        ) in
      weaken s r q _ _ (omega (arith, a.from_start)) (move s r q _ lx a bound)

  pub comment-past :
      (q : ℕ) (lx : Lexer) → At s r q lx → peek lx ≡ some b'#' → At s r (lx.pos + 1) (comment lx)
  unfolding comment peek rest
  comment-past q lx a e =
      let (low, high) =
        find_or-bounds b'\n' lx.src lx.pos (omega (arith, a.in_src, ap bytes a.same_src)) in
      record {
        same_src = a.same_src;
        from_start = find_or-past b'\n' lx.src lx.pos b'#' e refl;
        in_src = omega (arith, high, ap bytes a.same_src);
        same_resume = a.same_resume;
        tokens_sound = a.tokens_sound;
        errors_in = a.errors_in;
        comments_in =
            CommentsIn-append s lx.comments _ a.comments_in
              (new-SpanIn s lx.pos _ small low (omega (arith, high, ap bytes a.same_src)));
      }

  no_token : (q : ℕ) (lx : Lexer) → At s r q lx → At s r q (record lx { line_has_token = false })
  no_token q lx a = record {
    same_src = a.same_src;
    from_start = a.from_start;
    in_src = a.in_src;
    same_resume = a.same_resume;
    tokens_sound = a.tokens_sound;
    errors_in = a.errors_in;
    comments_in = a.comments_in;
  }

  pub push_newline-At :
      (q start : ℕ) (lx : Lexer)
      → At s r q lx
      → start + 1 ≤ bytes s
      → At s r q (push_newline lx start)
  unfolding push_newline Spells
  push_newline-At q start lx a h = no_token q _ (
      At-if s r small q (starts_line (last_kind lx.tokens)) (λ _. a)
        (λ e. push-At s r q start (start + 1) newline lx small a (omega arith) h (λ _. e) tt))

  -- A macro's body ends where a line starts, in the source.
  macro_end-bounds :
      (src : Text) (fuel line indent at : ℕ)
      → macro_end src fuel line indent ≡ some at
      → (line ≤ at) × (at ≤ bytes src)
  unfolding macro_end
  macro_end-bounds src zero line indent at e = absurd (ground arith)
  macro_end-bounds src (suc fuel) line indent at e =
      ground (
        arith,
        line_end-bounds src line,
        macro_end-bounds src fuel (line_end src line + 1) indent at,
      )

  -- One more round than the bytes that are left finds nothing else.
  macro_end_fuel :
      (src : Text) (fuel line indent : ℕ)
      → bytes src < fuel + line
      → macro_end src (suc fuel) line indent ≡ macro_end src fuel line indent
  unfolding macro_end
  macro_end_fuel src zero line indent h = ground arith
  macro_end_fuel src (suc fuel) line indent h =
      ground
        (arith, line_end-bounds src line, macro_end_fuel src fuel (line_end src line + 1) indent)

  pub read_macro-At : (q indent : ℕ) (lx : Lexer) → At s r q lx → At s r q (read_macro lx indent)
  unfolding read_macro Spells
  read_macro-At q indent lx a =
      let start = lx.pos in
      let n = bytes lx.src in
      let same : n ≡ bytes s = ap bytes a.same_src in
      elim (Option-cases (macro_end lx.src (n + 1) start indent)) [
        | inl e ↦
            let body = macro_body (from start lx.src) in
            let pushed =
              push-At s r q start n body lx small a (omega (arith, a.in_src, same))
                (omega (arith, same)) (plain body refl) (slice-to_end lx.src start) in
            let failed =
              error-At s r q start n macro_without_end _ small pushed a.in_src
                (omega (arith, same)) in
            rw (e, read_macro)
              (weaken s r q n _ (omega (arith, a.from_start, a.in_src, same))
                (move s r q n _ failed (omega (arith, same))))
        | inr (line, e) ↦
            let (low, high) = macro_end-bounds lx.src (n + 1) start indent line e in
            let body = macro_body (slice lx.src start line) in
            let pushed =
              push-At s r q start line body lx small a low (omega (arith, high, same))
                (plain body refl) refl in
            rw (e, read_macro)
              (weaken s r q line _ (omega (arith, a.from_start, low))
                (move s r q line _ pushed (omega (arith, high, same))))
      ]

-- Where the machine goes on at the next line's end: where it stands, or after a heredoc.
abbrev pub base : Option ℕ → ℕ → ℕ
base none pos = pos
base (some at) pos = at

pub base_mono : (r : Option ℕ) (a b : ℕ) → a ≤ b → base r a ≤ base r b
base_mono none a b h = h
base_mono (some at) a b h = omega arith

module _ (s : Text) (small : bytes s < 2 ^ 32) where
  resume-At :
      (r : Option ℕ) (q : ℕ) (lx : Lexer)
      → At s r q lx
      → base r 0 ≤ bytes s
      → At s none (base r q) (resume lx)
  unfolding resume
  resume-At none q lx a h = rw (a.same_resume, resume) a
  resume-At (some at) q lx a h =
      rw (a.same_resume, resume)
        (record {
          same_src = a.same_src;
          from_start = omega arith;
          in_src = h;
          same_resume = refl;
          tokens_sound = a.tokens_sound;
          errors_in = a.errors_in;
          comments_in = a.comments_in;
        })

  take_macro-At : (q : ℕ) (lx : Lexer) → At s none q lx → At s none q (take_macro lx)
  unfolding take_macro
  take_macro-At q lx a = elim (Option-cases lx.macro_indent) [
    | inl e ↦ rw (e, take_macro) a
    | inr (indent, e) ↦
        rw (e, take_macro)
          (read_macro-At s none small q indent (record lx { macro_indent = none })
            (record {
              same_src = a.same_src;
              from_start = a.from_start;
              in_src = a.in_src;
              same_resume = a.same_resume;
              tokens_sound = a.tokens_sound;
              errors_in = a.errors_in;
              comments_in = a.comments_in;
            }))
  ]

  pub end_line-At :
      (r : Option ℕ) (q start : ℕ) (lx : Lexer)
      → At s r q lx
      → start + 1 ≤ bytes s
      → base r 0 ≤ bytes s
      → At s none (base r q) (end_line lx start)
  unfolding end_line
  end_line-At r q start lx a h k =
      take_macro-At (base r q) _
        (resume-At r q (push_newline lx start) (push_newline-At s r small q start lx a h) k)
