-- ===== src/Lexer/Run/Rounds.antt =====
-- Each round of the loop leaves less to do.
use grenat.Prelude.{
  ℕ, ◌+◌, ◌^◌, ◌≤◌, ◌<◌, ◌≡◌, refl, ap, Bool, true, false, ◌&&◌, Option, none, some, ◌==◌,
  if◌then◌else◌, arith, Option-cases, inl, inr,
}
use grenat.Prelude.Options.{◌>>=◌, Returns, returns, Returns-bind, Returns-if, Returns-map}
use grenat.Prelude.Text.{Text, is_digit}
use grenat.Lexer.Token.{str, pack}
use grenat.Lexer.Source.{bytes, line_end}
use grenat.Lexer.Source.Bounds.{find_or-past}
use grenat.Lexer.Scan.{Unicode, is_ident_start, Lexer, fresh, peek, rest, bump, end_line}
use grenat.Lexer.Scan.Sound.{At, weaken, here, bump-past}
use grenat.Lexer.Scan.Numbers.{number-past}
use grenat.Lexer.Scan.Moves.{push_plain, word-past, instance_variable-past, colons-past}
use grenat.Lexer.Scan.Lines.{
  base, base_mono, punctuation-past, skip_blanks-At, comment-past, push_newline-At, end_line-At,
}
use grenat.Lexer.Strings.{quote}
use grenat.Lexer.Strings.Parts.{str-Spells}
use grenat.Lexer.Strings.Steps.{Stands, string_parts-ends}
use grenat.Lexer.Strings.Heredocs.{at_heredoc, heredoc}
use grenat.Lexer.Strings.Heredocs.Bodies.{heredoc-Resumes}
use grenat.Lexer.Run.{Next, goes_on, is_done, scan_plain, quoted, scan_char, at_token, run_step}
use grenat.Lexer.Run.Measure.{measure, measure_down, measure_low, measure_heredoc, measure_newline}

module _ (s : Text) (small : bytes s < 2 ^ 32) (q : ℕ) where
  -- A machine of a run from `q`, where it may resume, and what is left to it.
  pub record Left (budget : ℕ) (lx : Lexer) : Type 0 where
    pub resume : Option ℕ
    pub at : At s resume q lx
    pub past : q + 1 ≤ base resume (q + 1)
    pub in_src : base resume 0 ≤ bytes s
    pub less : measure (bytes s) resume lx.pos < budget

  abbrev pub AfterStep : ℕ → Next → Type 0
  AfterStep budget (goes_on lx) = Left budget lx
  AfterStep budget (is_done lx) = (r : Option ℕ) × At s r q lx

  pub AfterStep-low :
      (next : Next) (b budget : ℕ) → b ≤ budget → AfterStep b next → AfterStep budget next
  AfterStep-low (is_done lx) b budget h a = a
  AfterStep-low (goes_on lx) b budget h l = record {
    resume = l.resume;
    at = l.at;
    past = l.past;
    in_src = l.in_src;
    less = omega (arith, l.less);
  }

  Left-if :
      {budget : ℕ} (b : Bool) {x y : Lexer}
      → (b ≡ true → Left budget x)
      → (b ≡ false → Left budget y)
      → Left budget (if b then x else y)
  Left-if true h k = h refl
  Left-if false h k = k refl

  module _ (r : Option ℕ) (past : q + 1 ≤ base r (q + 1)) (in_src : base r 0 ≤ bytes s) where
    past_pos : (pos : ℕ) → q ≤ pos → q + 1 ≤ base r (pos + 1)
    past_pos pos h = omega (arith, base_mono r (q + 1) (pos + 1) (omega arith))

    forward :
        (pos : ℕ) (lx : Lexer) → q ≤ pos → At s r (pos + 1) lx → Left (measure (bytes s) r pos) lx
    forward pos lx h a = record {
      resume = r;
      at = weaken s r q (pos + 1) lx (omega arith) a;
      past = past;
      in_src = in_src;
      less = measure_down (bytes s) r pos lx.pos (omega (arith, a.from_start)) a.in_src;
    }

    newline-Left :
        (start : ℕ) (lx : Lexer)
        → q ≤ start
        → At s r (start + 1) lx
        → start + 1 ≤ bytes s
        → Left (measure (bytes s) r start) (end_line lx start)
    newline-Left start lx h b there =
        let nl = end_line-At s small r (start + 1) start lx b there in_src in
        record {
          resume = none;
          at = weaken s none q (base r (start + 1)) _ (omega (arith, past_pos start h)) nl;
          past = omega arith;
          in_src = omega arith;
          less = measure_newline (bytes s) r start _ nl.from_start nl.in_src (omega arith);
        }

    scan_plain-Left :
        (u : Unicode) (lx : Lexer) (c : ℕ)
        → At s r q lx
        → peek lx ≡ some c
        → Left (measure (bytes s) r lx.pos) (scan_plain u lx c)
    unfolding scan_plain
    scan_plain-Left u lx c a e =
        let start = lx.pos in
        let b = bump-past s r q lx c a e in
        let there : start + 1 ≤ bytes s = omega (arith, b.from_start, b.in_src) in
        let go = λ (lx' : Lexer) (h : At s r (start + 1) lx'). forward start lx' a.from_start h in
        Left-if (c == b'\n') (λ _. newline-Left start (bump lx) a.from_start b there)
          λ _.
            Left-if (c == b';')
              (λ _. go _ (push_newline-At s r small (start + 1) start (bump lx) b there))
              λ _.
                Left-if (c == b'#')
                  (λ (h : (c == b'#') ≡ true). go _ (comment-past s r small q lx a (ground arith)))
                  λ _.
                    Left-if (c == b'@') (λ _. go _ (instance_variable-past s r small u q lx c a e))
                      λ _.
                        Left-if (c == b':') (λ _. go _ (colons-past s r small u q lx c a e))
                          λ _.
                            Left-if (is_digit c) (λ d. go _ (number-past s r small u q lx c a e d))
                              λ _.
                                Left-if (is_ident_start u c)
                                  (λ w. go _ (word-past s r small u q lx c a e w))
                                  λ _. go _ (punctuation-past s r small q lx c a e)

    module _ (u : Unicode) (sub : Lexer → Option Lexer)
        (sub_ends : (src : Text) (o : ℕ)
          → src ≡ s
          → q + 1 ≤ o
          → o ≤ bytes s
          → Returns (Stands s o) (sub (fresh src o true))) where
      -- The line that a character is in ends past it, where it ends none itself.
      line_goes_on :
          (lx : Lexer) (c : ℕ)
          → lx.src ≡ s
          → peek lx ≡ some c
          → (c == b'\n') ≡ false
          → lx.pos + 1 ≤ line_end s lx.pos
      unfolding peek rest line_end
      line_goes_on lx c same e h =
          omega (arith, find_or-past b'\n' lx.src lx.pos c e h, ap (λ t. line_end t lx.pos) same)

      quoted-At :
          (interpolate : Bool) (lx : Lexer) (c : ℕ)
          → At s r q lx
          → peek lx ≡ some c
          → (c == b'\n') ≡ false
          → Returns (At s r (lx.pos + 1)) (quoted u sub interpolate lx c)
      unfolding quoted
      quoted-At interpolate lx c a e h =
          let b = bump-past s r q lx c a e in
          Returns-bind
            (string_parts-ends s r small sub (q + 1) sub_ends (quote c) interpolate (lx.pos + 1)
              lx.pos (bump lx) b (omega (arith, a.from_start)) a.in_src
              (line_goes_on lx c a.same_src e h))
            λ (lx', parts) (l, sound). returns (
              push_plain s r small (lx.pos + 1) lx.pos (str (pack parts)) lx' l
                (omega (arith, l.from_start)) refl
                (str-Spells s lx'.src lx.pos lx'.pos parts l.same_src sound))

      string-ends :
          (interpolate : Bool) (lx : Lexer) (c : ℕ)
          → At s r q lx
          → peek lx ≡ some c
          → (c == b'\n') ≡ false
          → Returns
              (AfterStep (measure (bytes s) r lx.pos))
              (do lx' ← quoted u sub interpolate lx c; some (goes_on lx'))
      string-ends interpolate lx c a e h =
          Returns-bind (quoted-At interpolate lx c a e h)
            (λ lx' b. returns {a = goes_on lx'} (forward lx.pos lx' a.from_start b))

      heredoc-ends :
          (lx : Lexer) (c : ℕ)
          → At s r q lx
          → peek lx ≡ some c
          → (c == b'\n') ≡ false
          → at_heredoc lx ≡ true
          → Returns
              (AfterStep (measure (bytes s) r lx.pos))
              (do lx' ← heredoc sub u lx; some (goes_on lx'))
      heredoc-ends lx c a e h on =
          Returns-bind
            (heredoc-Resumes s r small sub (q + 1) sub_ends u q lx a (omega arith)
              (omega (arith, a.from_start)) (past_pos lx.pos a.from_start) on in_src
              (line_goes_on lx c a.same_src e h))
            λ lx' (at, b, v, w). returns {a = goes_on lx'} (record {
              resume = some at;
              at = weaken s (some at) q (lx.pos + 1) lx' (omega (arith, a.from_start)) b;
              past = omega (arith, past_pos lx.pos a.from_start);
              in_src = w;
              less =
                  measure_heredoc (bytes s) r at lx.pos lx'.pos v w (omega (arith, b.from_start))
                    b.in_src;
            })

      scan_char-ends :
          (lx : Lexer) (c : ℕ)
          → At s r q lx
          → peek lx ≡ some c
          → Returns (AfterStep (measure (bytes s) r lx.pos)) (scan_char u sub lx c)
      unfolding scan_char
      scan_char-ends lx c a e =
          let P = AfterStep (measure (bytes s) r lx.pos) in
          Returns-if {P = P} (c == b'"')
            (λ (h : (c == b'"') ≡ true). string-ends true lx c a e (ground arith))
            λ _.
              Returns-if {P = P} (c == b'\'')
                (λ (h : (c == b'\'') ≡ true). string-ends false lx c a e (ground arith))
                λ _.
                  Returns-if {P = P} (c == b'<' && at_heredoc lx)
                    (λ (h : (c == b'<' && at_heredoc lx) ≡ true).
                      heredoc-ends lx c a e (ground arith) (ground arith))
                    λ _.
                      Returns-if {P = P} (c == b'}' && lx.in_interp && lx.brace_depth == 0)
                        (λ _. returns (r, a)) λ _. returns (scan_plain-Left u lx c a e)

      at_token-At : (lx : Lexer) → At s r q lx → At s r lx.pos (at_token u sub lx)
      unfolding at_token
      at_token-At lx a =
          let b = skip_blanks-At s r small lx.pos lx (here s r q lx a) in
          record {
            same_src = b.same_src;
            from_start = b.from_start;
            in_src = b.in_src;
            same_resume = b.same_resume;
            tokens_sound = b.tokens_sound;
            errors_in = b.errors_in;
            comments_in = b.comments_in;
          }

      pub run_step-ends :
          (lx : Lexer)
          → At s r q lx
          → Returns (AfterStep (measure (bytes s) r lx.pos)) (run_step u sub lx)
      unfolding run_step
      run_step-ends lx a =
          let ready = at_token u sub lx in
          let b = at_token-At lx a in
          let b' = weaken s r q lx.pos ready a.from_start b in
          elim (Option-cases (peek ready)) [
            | inl n ↦ rw (n, run_step) (returns (r, b'))
            | inr (c, e) ↦
                let low = measure_low (bytes s) r lx.pos ready.pos b.from_start in
                rw (e, run_step)
                  (Returns-map (scan_char-ends ready c b' e) (λ next after.
                    AfterStep-low next (measure (bytes s) r ready.pos) (measure (bytes s) r lx.pos)
                      low after))
          ]
