-- ===== src/Lexer/Scan/Sound.antt =====
-- Where the machine stands whatever it has read: in the source, with sound tokens.
use grenat.Prelude.{
  ℕ, ◌+◌, ◌^◌, ◌≤◌, ◌<◌, ◌≡◌, ◌%◌, ap, subst, Bool, true, false, Option, none, some, arith,
  Option-cases, inl, inr,
}
use grenat.Prelude.Text.{Text}
use grenat.Lexer.Keywords.{new, new}
use grenat.Lexer.Token.{TokenKind, Message, is_newline}
use grenat.Lexer.Source.{width, bytes, from, run_of}
use grenat.Lexer.Source.Bounds.{width_pos, nth-from, bytes-from, run_of-bytes}
use grenat.Lexer.Scan.{Lexer, rest, peek, bump, eat, error, push, last_kind, starts_line}
use grenat.Lexer.Scan.Tokens.{
  Spells, Sound, Sound-append, last_after-none, ErrorsIn, CommentsIn, ErrorsIn-append, Spells-at,
}

-- The machine stands in the source `s`, at `q` or later, with `r` to resume at.
pub record At (s : Text) (r : Option ℕ) (q : ℕ) (lx : Lexer) : Type 0 where
  pub same_src : lx.src ≡ s
  pub from_start : q ≤ lx.pos
  pub in_src : lx.pos ≤ bytes s
  pub same_resume : lx.heredoc_resume ≡ r
  pub tokens_sound : Sound s none lx.tokens
  pub errors_in : ErrorsIn s lx.errors
  pub comments_in : CommentsIn s lx.comments

module _ (s : Text) (r : Option ℕ) where
  pub weaken : (q p : ℕ) (lx : Lexer) → q ≤ p → At s r p lx → At s r q lx
  weaken q p lx h a = record {
    same_src = a.same_src;
    from_start = omega arith;
    in_src = a.in_src;
    same_resume = a.same_resume;
    tokens_sound = a.tokens_sound;
    errors_in = a.errors_in;
    comments_in = a.comments_in;
  }

  -- From where the machine stands.
  pub here : (q : ℕ) (lx : Lexer) → At s r q lx → At s r lx.pos lx
  here q lx a = record {
    same_src = a.same_src;
    from_start = omega arith;
    in_src = a.in_src;
    same_resume = a.same_resume;
    tokens_sound = a.tokens_sound;
    errors_in = a.errors_in;
    comments_in = a.comments_in;
  }

  pub move : (q p : ℕ) (lx : Lexer) → At s r q lx → p ≤ bytes s → At s r p (record lx { pos = p })
  move q p lx a h = record {
    same_src = a.same_src;
    from_start = omega arith;
    in_src = h;
    same_resume = a.same_resume;
    tokens_sound = a.tokens_sound;
    errors_in = a.errors_in;
    comments_in = a.comments_in;
  }

  pub error-At :
      (q start end : ℕ) (m : Message) (lx : Lexer)
      → bytes s < 2 ^ 32
      → At s r q lx
      → start ≤ bytes s
      → end ≤ bytes s
      → At s r q (error lx start end m)
  unfolding error new
  error-At q start end m lx small a h l = record {
    same_src = a.same_src;
    from_start = a.from_start;
    in_src = a.in_src;
    same_resume = a.same_resume;
    tokens_sound = a.tokens_sound;
    errors_in = ErrorsIn-append s lx.errors _ a.errors_in ((omega arith, omega arith), tt);
    comments_in = a.comments_in;
  }

  pub push-At :
      (q start end : ℕ) (k : TokenKind) (lx : Lexer)
      → bytes s < 2 ^ 32
      → At s r q lx
      → start ≤ end
      → end ≤ bytes s
      → (is_newline k ≡ true → starts_line (last_kind lx.tokens) ≡ false)
      → Spells lx.src start end k
      → At s r q (push lx k start end)
  unfolding push new
  push-At q start end k lx small a h l one spelled = record {
    same_src = a.same_src;
    from_start = a.from_start;
    in_src = a.in_src;
    same_resume = a.same_resume;
    tokens_sound = Sound-append s none lx.tokens _ a.tokens_sound (record {
      start_end = omega arith;
      within = omega arith;
      one_newline = rw (last_after-none lx.tokens) one;
      spelled =
          let at_start : start ≡ start % 2 ^ 32 = omega arith in
          let at_end : end ≡ end % 2 ^ 32 = omega arith in
          Spells-at s k at_start at_end (subst (λ t. Spells t start end k) a.same_src spelled);
    });
    errors_in = a.errors_in;
    comments_in = a.comments_in;
  }

  pub peek-bound :
      (q : ℕ) (lx : Lexer) (c : ℕ) → At s r q lx → peek lx ≡ some c → lx.pos + width c ≤ bytes s
  unfolding peek rest
  peek-bound q lx c a e = omega (arith, nth-from 0 lx.pos lx.src c e, ap bytes a.same_src)

  bump-pos : (lx : Lexer) (c : ℕ) → peek lx ≡ some c → (bump lx).pos ≡ lx.pos + width c
  unfolding bump bytes
  bump-pos lx c e = rw e (omega arith)

  -- `bump` goes past the character that it takes.
  pub bump-past :
      (q : ℕ) (lx : Lexer) (c : ℕ) → At s r q lx → peek lx ≡ some c → At s r (lx.pos + 1) (bump lx)
  unfolding bump bytes
  bump-past q lx c a e =
      let bound = peek-bound q lx c a e in
      let p = bump-pos lx c e in
      record {
        same_src = a.same_src;
        from_start = omega (arith, p, width_pos c);
        in_src = omega (arith, p, bound);
        same_resume = a.same_resume;
        tokens_sound = a.tokens_sound;
        errors_in = a.errors_in;
        comments_in = a.comments_in;
      }

  pub bump-At : (q : ℕ) (lx : Lexer) → At s r q lx → At s r q (bump lx)
  unfolding bump
  bump-At q lx a = elim (Option-cases (peek lx)) [
    | inl n ↦ record {
      same_src = a.same_src;
      from_start = ground arith;
      in_src = ground (arith, a.in_src);
      same_resume = a.same_resume;
      tokens_sound = a.tokens_sound;
      errors_in = a.errors_in;
      comments_in = a.comments_in;
    }
    | inr (c, e) ↦
        weaken q (lx.pos + 1) (bump lx) (omega (arith, a.from_start)) (bump-past q lx c a e)
  ]

  pub eat-At : (q c : ℕ) (lx : Lexer) → At s r q lx → At s r q (eat lx c).0
  unfolding eat
  eat-At q c lx a = ground (arith, a, bump-At q lx a)

  -- The end of a run of characters from the machine's place.
  pub run-bound :
      (test : ℕ → Bool) (q p : ℕ) (lx : Lexer)
      → p ≤ bytes s
      → At s r q lx
      → p + run_of test (from p lx.src) ≤ bytes s
  run-bound test q p lx h a =
      omega (arith, run_of-bytes test (from p lx.src), bytes-from p lx.src, ap bytes a.same_src)
