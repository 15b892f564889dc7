-- ===== src/Lexer/Strings/Steps.antt =====
-- Reading a string ends, in the source and with sound tokens before it.
use grenat.Prelude.{
  ℕ, zero, suc, ◌+◌, ◌^◌, ◌≤◌, ◌<◌, ◌≡◌, ap, Bool, true, false, ◌&&◌, List, [], ◌∷◌, ◌++◌, Option,
  some, ◌==◌, arith, Bool-cases, Option-cases, inl, inr,
}
use grenat.Prelude.Options.{Returns, returns, Returns-bind, Returns-if}
use grenat.Prelude.Text.{Text}
use grenat.Lexer.Token.{StrPart, LexError, unterminated_string, unterminated_interpolation}
use grenat.Lexer.Source.{bytes, from, nth, line_end}
use grenat.Lexer.Source.Bounds.{width_pos, nth-from, line_end-bounds}
use grenat.Lexer.Scan.{Lexer, fresh, rest, peek, peek_at, is_char}
use grenat.Lexer.Strings.Escapes.{escape-past}
use grenat.Lexer.Strings.Parts.{PartsSound, PartsSound-append, flush-PartsSound}
use grenat.Lexer.Scan.Joins.{join_continuations-Sound}
use grenat.Lexer.Scan.Moves.{plain}
use grenat.Lexer.Keywords.{new}
use grenat.Lexer.Token.{Token, eof, interp, join_continuations}
use grenat.Prelude.{refl, none}
use grenat.Lexer.Scan.Tokens.{Sound, Sound-append, Spells, new-SpanIn, ErrorsIn, ErrorsIn-append}
use grenat.Lexer.Scan.Sound.{At, weaken, move, error-At, bump-past}
use grenat.Lexer.Strings.{
  Term, is_over, is_quote, Reading, flush, close_interpolation, interpolation, string_char,
  string_step, string_loop, string_parts,
}

-- A machine that stands in the source, at `q` or later.
pub record Stands (s : Text) (q : ℕ) (lx : Lexer) : Type 0 where
  pub same_src : lx.src ≡ s
  pub from_start : q ≤ lx.pos
  pub in_src : lx.pos ≤ bytes s
  pub errors_in : ErrorsIn s lx.errors
  pub tokens_sound : Sound s none lx.tokens

module _ (s : Text) (r : Option ℕ) (small : bytes s < 2 ^ 32) where
  -- A character that is there ends in the source.
  char-bound : (lx : Lexer) → is_char b'}' (peek lx) ≡ true → lx.pos + 1 ≤ bytes lx.src
  unfolding peek rest
  char-bound lx h = elim (Option-cases (nth 0 (from lx.pos lx.src))) [
    | inl n ↦ absurd (ground arith)
    | inr (c, e) ↦ omega (arith, nth-from 0 lx.pos lx.src c e, width_pos c)
  ]

  second_there :
      (lx : Lexer)
      → lx.pos ≤ bytes s
      → lx.src ≡ s
      → is_char b'{' (peek_at lx 1) ≡ true
      → lx.pos + 2 ≤ bytes s
  unfolding peek_at rest
  second_there lx h same e = elim (Option-cases (nth 1 (from lx.pos lx.src))) [
    | inl n ↦ absurd (ground arith)
    | inr (c, f) ↦ omega (arith, nth-from 1 lx.pos lx.src c f, width_pos c, ap bytes same)
  ]

  with_errors :
      (q : ℕ) (lx : Lexer) (errors : List LexError)
      → At s r q lx
      → ErrorsIn s errors
      → At s r q (record lx { errors = errors })
  with_errors q lx errors a h = record {
    same_src = a.same_src;
    from_start = a.from_start;
    in_src = a.in_src;
    same_resume = a.same_resume;
    tokens_sound = a.tokens_sound;
    errors_in = h;
    comments_in = a.comments_in;
  }

  -- The tokens of an interpolation that ends in the source.
  interp-PartsSound :
      (open_at : ℕ) (done : Lexer) (parts : List StrPart)
      → PartsSound s parts
      → Stands s (open_at + 1) done
      → done.pos + 1 ≤ bytes s
      → let eof_token : Token = record {
        kind = eof;
        span = new done.pos done.pos;
        space_before = false;
      } in
        PartsSound s (
          parts
          ++ interp (join_continuations done.tokens ++ eof_token ∷ []) (new open_at (done.pos + 1))
            ∷ [])
  unfolding Spells
  interp-PartsSound open_at done parts h d bound =
      let joined = join_continuations-Sound s none done.tokens d.tokens_sound in
      let here = new-SpanIn s done.pos done.pos small (omega arith) (omega arith) in
      let whole = new-SpanIn s open_at (done.pos + 1) small (omega (arith, d.from_start)) bound in
      let tokens = Sound-append s none (join_continuations done.tokens) _ joined (record {
        start_end = here.0;
        within = here.1;
        one_newline = plain eof refl;
        spelled = tt;
      }) in
      PartsSound-append s parts _ h ((whole, tokens), tt)

  close_interpolation-At :
      (q : ℕ) (lx done : Lexer) (parts : List StrPart)
      → At s r q lx
      → PartsSound s parts
      → Stands s (lx.pos + 1) done
      → let (lx', parts', more) = close_interpolation lx parts done lx.pos in
        At s r q lx' × PartsSound s parts' × (more ≡ true → lx.pos < lx'.pos)
  unfolding close_interpolation
  close_interpolation-At q lx done parts a h d = elim (Bool-cases (is_char b'}' (peek done))) [
    | inl on ↦
        let bound : done.pos + 1 ≤ bytes s =
          omega (arith, char-bound done on, ap bytes d.same_src) in
        rw (on, close_interpolation)
          (
            weaken s r q _ _ (omega (arith, a.from_start, d.from_start)) (
                move s r q (done.pos + 1) _
                  (with_errors q lx (lx.errors ++ done.errors) a
                    (ErrorsIn-append s lx.errors done.errors a.errors_in d.errors_in))
                  bound),
            interp-PartsSound lx.pos done parts h d bound,
            λ _. omega (arith, d.from_start),
          )
    | inr off ↦
        let (low, high) =
          line_end-bounds lx.src lx.pos (omega (arith, a.in_src, ap bytes a.same_src)) in
        let end = line_end lx.src lx.pos in
        rw (off, close_interpolation)
          (
            weaken s r q _ _ (omega (arith, a.from_start, low)) (
                move s r q end _
                  (error-At s r q lx.pos end unterminated_interpolation lx small a a.in_src
                    (omega (arith, high, ap bytes a.same_src)))
                  (omega (arith, high, ap bytes a.same_src))),
            h,
            λ f. absurd (ground arith),
          )
  ]

  -- Where a sub-machine that starts at `p` or later ends.
  module _ (sub : Lexer → Option Lexer) (p : ℕ)
      (sub_ends : (src : Text) (o : ℕ)
        → src ≡ s
        → p ≤ o
        → o ≤ bytes s
        → Returns (Stands s o) (sub (fresh src o true))) where
    -- What a step of a string leaves: the machine in the source, past where it was if there may be more.
    abbrev Stepped : (q before : ℕ) → Reading × Bool → Type 0
    Stepped q before (rd, more) =
        At s r q rd.lexer × PartsSound s rd.parts × (more ≡ true → before < rd.lexer.pos)

    abbrev Interpolated : (q before : ℕ) → Lexer × List StrPart × Bool → Type 0
    Interpolated q before (lx, parts, more) =
        At s r q lx × PartsSound s parts × (more ≡ true → before < lx.pos)

    interpolation-ends :
        (q : ℕ) (lx : Lexer) (parts : List StrPart)
        → At s r q lx
        → PartsSound s parts
        → p ≤ lx.pos
        → is_char b'{' (peek_at lx 1) ≡ true
        → Returns (Interpolated q lx.pos) (interpolation sub lx parts)
    unfolding interpolation
    interpolation-ends q lx parts a k h e =
        let ends =
          sub_ends lx.src (lx.pos + 2) a.same_src (omega arith)
            (second_there lx a.in_src a.same_src e) in
        Returns-bind ends λ done d. returns {a = close_interpolation lx parts done lx.pos} (
          close_interpolation-At q lx done parts a k (record {
            same_src = d.same_src;
            from_start = omega (arith, d.from_start);
            in_src = d.in_src;
            errors_in = d.errors_in;
            tokens_sound = d.tokens_sound;
          }))

    string_char-ends :
        (term : Term) (interpolate : Bool) (q : ℕ) (rd : Reading) (c : ℕ)
        → At s r q rd.lexer
        → PartsSound s rd.parts
        → p ≤ q
        → peek rd.lexer ≡ some c
        → Returns (Stepped q rd.lexer.pos) (string_char sub term interpolate rd c)
    unfolding string_char
    string_char-ends term interpolate q rd c a k h e =
        let lx = rd.lexer in
        let b = bump-past s r q lx c a e in
        let b' = weaken s r q _ _ (omega (arith, a.from_start)) b in
        let x = escape-past s r small q lx rd.buf interpolate c a e in
        let P = Stepped q lx.pos in
        Returns-if {P = P} (is_quote term c) (λ _. returns (b', k, λ (f : false ≡ true). cc))
          λ _.
            Returns-if {P = P} (c == b'\\')
              (λ _. returns (
                weaken s r q _ _ (omega (arith, a.from_start)) x,
                k,
                λ (f : true ≡ true). omega (arith, x.from_start),
              ))
              λ _.
                Returns-if {P = P} (interpolate && c == b'#' && is_char b'{' (peek_at lx 1))
                  (λ on.
                    Returns-bind
                      (interpolation-ends q lx (flush rd.parts rd.buf) a
                        (flush-PartsSound s rd.parts rd.buf k) (omega (arith, a.from_start))
                        (ground arith))
                      (λ (lx', ps, more) (a', k', m). returns (a', k', m)))
                  (λ _. returns (b', k, λ (f : true ≡ true). omega (arith, b.from_start)))

    string_step-ends :
        (term : Term) (interpolate : Bool) (q open_at : ℕ) (rd : Reading)
        → At s r q rd.lexer
        → PartsSound s rd.parts
        → p ≤ q
        → open_at ≤ bytes s
        → q ≤ line_end s open_at
        → Returns (Stepped q rd.lexer.pos) (string_step sub term interpolate open_at rd)
    unfolding string_step
    string_step-ends term interpolate q open_at rd a k h o l =
        let lx = rd.lexer in
        Returns-if {P = Stepped q lx.pos} (is_over term lx.pos)
          (λ _. returns (a, k, λ (f : false ≡ true). cc))
          λ _. elim (Option-cases (peek lx)) [
            | inl n ↦
                let failed =
                  error-At s r q open_at lx.pos unterminated_string lx small a o a.in_src in
                let (low, high) =
                  line_end-bounds lx.src open_at (omega (arith, o, ap bytes a.same_src)) in
                let there =
                  move s r q (line_end lx.src open_at) _ failed
                    (omega (arith, high, ap bytes a.same_src)) in
                rw n (
                  returns (
                    weaken s r q _ _ (omega (arith, l, ap (λ t. line_end t open_at) a.same_src))
                        there,
                    k,
                    λ (f : false ≡ true). cc,
                  ))
            | inr (c, e) ↦ rw e (string_char-ends term interpolate q rd c a k h e)
          ]

    string_loop-ends :
        (fuel : ℕ) (term : Term) (interpolate : Bool) (q open_at : ℕ) (rd : Reading)
        → bytes s < fuel + rd.lexer.pos
        → At s r q rd.lexer
        → PartsSound s rd.parts
        → p ≤ q
        → open_at ≤ bytes s
        → q ≤ line_end s open_at
        → Returns
            (λ rd'. At s r q rd'.lexer × PartsSound s rd'.parts)
            (string_loop sub fuel term interpolate open_at rd)
    unfolding string_loop
    string_loop-ends zero term interpolate q open_at rd m a k h o l =
        absurd (omega (arith, a.in_src))
    string_loop-ends (suc fuel) term interpolate q open_at rd m a k h o l =
        Returns-bind (string_step-ends term interpolate q open_at rd a k h o l)
          λ (rd', more) (a', k', forward). elim (Bool-cases more) [
            | inl on ↦ rw on (
                string_loop-ends fuel term interpolate q open_at rd' (omega (arith, forward on)) a'
                  k' h o l)
            | inr off ↦ rw off (returns (a', k'))
          ]

    -- Reading a string ends where the machine still stands in the source.
    pub string_parts-ends :
        (term : Term) (interpolate : Bool) (q open_at : ℕ) (lx : Lexer)
        → At s r q lx
        → p ≤ q
        → open_at ≤ bytes s
        → q ≤ line_end s open_at
        → Returns
            (λ (lx', parts). At s r q lx' × PartsSound s parts)
            (string_parts sub term interpolate open_at lx)
    unfolding string_parts
    string_parts-ends term interpolate q open_at lx a h o l =
        Returns-bind
          (string_loop-ends (bytes lx.src + 1) term interpolate q open_at
            (record { lexer = lx; parts = []; buf = [] }) (omega (arith, ap bytes a.same_src)) a tt
            h o l)
          (λ rd (b, k). returns (b, flush-PartsSound s rd.parts rd.buf k))
