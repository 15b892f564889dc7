-- ===== src/Lexer/Strings/Heredocs/Bodies.antt =====
-- Reading a heredoc ends: the machine goes on after its opener, and is to resume after its body.
use grenat.Prelude.{
  ℕ, zero, suc, ◌+◌, ◌^◌, ◌≤◌, ◌<◌, ◌≡◌, refl, ap, Bool, true, false, not, ◌||◌, List, [], ◌∷◌,
  ◌++◌, Option, none, some, min, ltb, ◌==◌, arith, Bool-cases, Option-cases, inl, inr, subst,
}
use grenat.Prelude.Options.{◌>>=◌, Returns, returns, Returns-bind, Returns-if, Returns-value}
use grenat.Prelude.Text.{Text, starts_with, codes, trim, text_eq}
use grenat.Lexer.Token.{str, StrPart, unclosed_heredoc_name, unterminated_heredoc, pack}
use grenat.Lexer.Source.{width, bytes, from, slice, find, line_end}
use grenat.Lexer.Source.Bounds.{
  bytes-from, find-bytes, line_end-bounds, run_of-bytes, starts_with-bytes, slice-bytes,
}
use grenat.Lexer.Scan.{Unicode, Lexer, fresh, rest, eat, push}
use grenat.Lexer.Scan.Words.{take_ident_chars}
use grenat.Lexer.Strings.Parts.{PartsSound, PartsSound-append, join_parts-PartsSound, str-Spells}
use grenat.Lexer.Token.{lit}
use grenat.Lexer.Scan.Sound.{At, weaken, move, error-At, eat-At}
use grenat.Lexer.Scan.Moves.{At-if, take_ident_chars-At, push_plain}
use grenat.Lexer.Scan.Lines.{base, base_mono}
use grenat.Lexer.Strings.{end_at}
use grenat.Lexer.Strings.Steps.{Stands, string_parts-ends}
use grenat.Lexer.Strings.Heredocs.{
  at_heredoc, body_lines, leading_ws, indent_of, heredoc_name, body_start, read_lines, heredoc,
}

-- The lines of a body, from `low` on.
abbrev LinesIn : ℕ → ℕ → List (ℕ × ℕ) → Type 0
LinesIn n low [] = Unit {0}
LinesIn n low ((s, e) ∷ lines) = (low ≤ s) × (s ≤ e) × (e ≤ n) × LinesIn n low lines

abbrev ResumesIn : ℕ → ℕ → Option ℕ → Type 0
ResumesIn n low none = Unit {0}
ResumesIn n low (some at) = (low ≤ at) × (at ≤ n)

-- What is found of a body: its lines, and where to go on.
abbrev BodyIn : ℕ → ℕ → List (ℕ × ℕ) × Option ℕ → Type 0
BodyIn n low (lines, resume) = LinesIn n low lines × ResumesIn n low resume

LinesIn-low :
    (n low high : ℕ) (lines : List (ℕ × ℕ))
    → low ≤ high
    → LinesIn n high lines
    → LinesIn n low lines
LinesIn-low n low high [] h t = tt
LinesIn-low n low high ((s, e) ∷ lines) h (a, b, c, more) =
    (omega arith, b, c, LinesIn-low n low high lines h more)

ResumesIn-low :
    (n low high : ℕ) (resume : Option ℕ)
    → low ≤ high
    → ResumesIn n high resume
    → ResumesIn n low resume
ResumesIn-low n low high none h t = tt
ResumesIn-low n low high (some at) h (a, b) = (omega arith, b)

body_lines-ends :
    (src id : Text) (fuel line_start : ℕ)
    → bytes src + 1 < fuel + line_start
    → line_start ≤ bytes src + 1
    → Returns (BodyIn (bytes src) line_start) (body_lines src id fuel line_start)
unfolding body_lines
body_lines-ends src id zero line_start h k = absurd (omega arith)
body_lines-ends src id (suc fuel) line_start h k =
    let n = bytes src in
    let end = line_end src line_start in
    let P = BodyIn n line_start in
    Returns-if {P = P} (not (ltb line_start n)) (λ _. returns (tt, tt))
      λ (inside : not (ltb line_start n) ≡ false).
        let (low, high) = line_end-bounds src line_start (ground arith) in
        Returns-if {P = P} (text_eq (trim (slice src line_start end)) id)
          (λ _. returns (tt, (ground arith, omega arith)))
          λ _.
            let (found, e, (lines, at)) =
              Returns-value (body_lines-ends src id fuel (end + 1) (omega arith) (omega arith)) in
            rw e (
              returns (
                (
                  omega arith,
                  low,
                  high,
                  LinesIn-low n line_start (end + 1) found.0 (omega arith) lines,
                ),
                ResumesIn-low n line_start (end + 1) found.1 (omega arith) at,
              ))

-- A body starts in the source, past the opener, and no earlier than where another heredoc's ends.
body_start-bounds :
    (s : Text) (r : Option ℕ) (q : ℕ) (lx : Lexer)
    → At s r q lx
    → base r 0 ≤ bytes s
    → (base r lx.pos ≤ body_start lx) × (body_start lx ≤ bytes s)
unfolding body_start rest
body_start-bounds s none q lx a h = elim (Option-cases (find b'\n' (from lx.pos lx.src))) [
  | inl e ↦ ground (arith, a.same_resume, e, a.in_src, ap bytes a.same_src)
  | inr (i, e) ↦
      let inside = find-bytes b'\n' (from lx.pos lx.src) i e in
      ground (arith, a.same_resume, e, inside, bytes-from lx.pos lx.src, ap bytes a.same_src)
]
body_start-bounds s (some at) q lx a h = ground (arith, a.same_resume)

module _ (s : Text) (r : Option ℕ) (small : bytes s < 2 ^ 32) where
  heredoc_name-At :
      (u : Unicode) (q : ℕ) (lx : Lexer)
      → At s r q lx
      → lx.pos + 3 ≤ bytes s
      → At s r (lx.pos + 3) (heredoc_name u lx).0
  unfolding heredoc_name
  heredoc_name-At u q lx a h =
      let start = lx.pos in
      let moved = move s r q (start + 3) lx a h in
      let opened = (eat (record lx { pos = start + 3 }) b'\'').0 in
      let raw = (eat (record lx { pos = start + 3 }) b'\'').1 in
      let taken =
        take_ident_chars-At s r small u (start + 3) opened (eat-At s r (start + 3) b'\'' _ moved) in
      elim (Bool-cases raw) [
        | inl on ↦
            let closed = eat-At s r (start + 3) b'\'' _ taken in
            rw (on, heredoc_name)
              (At-if s r small (start + 3) (eat (take_ident_chars u opened) b'\'').1 (λ _. closed)
                (λ _.
                  error-At s r (start + 3) start _ unclosed_heredoc_name _ small closed a.in_src
                    closed.in_src))
        | inr off ↦ rw (off, heredoc_name) taken
      ]

  opener-bound : (q : ℕ) (lx : Lexer) → At s r q lx → at_heredoc lx ≡ true → lx.pos + 3 ≤ bytes s
  unfolding at_heredoc rest bytes width
  opener-bound q lx a e = ground (
    arith,
    a,
    starts_with-bytes (codes "<<~") (from lx.pos lx.src),
    starts_with-bytes (codes "<<-") (from lx.pos lx.src),
    bytes-from lx.pos lx.src,
    ap bytes a.same_src,
  )

  module _ (sub : Lexer → Option Lexer) (p : ℕ)
      (sub_ends : (src : Text) (o : ℕ)
        → src ≡ s
        → p ≤ o
        → o ≤ bytes s
        → Returns (Stands s o) (sub (fresh src o true))) where
    read_lines-ends :
        (raw : Bool) (q start indent low : ℕ) (lines : List (ℕ × ℕ)) (parts : List StrPart)
        (lx : Lexer)
        → At s r q lx
        → PartsSound s parts
        → p ≤ q
        → q ≤ low
        → start ≤ bytes s
        → q ≤ line_end s start
        → LinesIn (bytes s) low lines
        → Returns
            (λ (lx', ps). At s r q lx' × PartsSound s ps)
            (read_lines sub raw start indent lines parts lx)
    unfolding read_lines
    read_lines-ends raw q start indent low [] parts lx a ps h k l m t = returns (a, ps)
    read_lines-ends raw q start indent low ((b, e) ∷ lines) parts lx a ps h k l m (c, d, f, more) =
        let line = slice lx.src b e in
        let pos = b + min (leading_ws line) indent in
        let bound : pos ≤ bytes s = omega (
          arith,
          run_of-bytes (λ c. c == b' ' || c == b'\t') line,
          slice-bytes lx.src b e,
          ap bytes a.same_src,
        ) in
        let there =
          weaken s r q pos (record lx { pos = pos }) (omega arith) (move s r q pos lx a bound) in
        Returns-bind
          (string_parts-ends s r small sub p sub_ends (end_at e) (not raw) q start
            (record lx { pos = pos }) there h l m)
          λ (lx', qs) (a', line).
            read_lines-ends raw q start indent low lines _ lx' a'
              (join_parts-PartsSound s parts (qs ++ lit (codes "\n") ∷ []) ps
                (PartsSound-append s qs _ line (tt, tt)))
              h k l m more

    -- What reading a heredoc leaves: the machine past where it stood, with a place to resume at.
    abbrev Resumes : (pos : ℕ) → Lexer → Type 0
    Resumes pos lx =
        (at : ℕ) × At s (some at) (pos + 1) lx × (base r (pos + 1) ≤ at) × (at ≤ bytes s)

    -- The end of `heredoc`, where the body's lines are found.
    finish-Resumes :
        (raw : Bool) (start indent at opener_end : ℕ) (lines : List (ℕ × ℕ)) (low q : ℕ)
        (lx : Lexer)
        → At s r q lx
        → opener_end ≤ bytes s
        → start + 1 ≤ opener_end
        → start ≤ bytes s
        → p ≤ low
        → p ≤ q
        → p ≤ line_end s start
        → LinesIn (bytes s) low lines
        → base r (start + 1) ≤ at
        → at ≤ bytes s
        → Returns (Resumes start) (do
          (read, parts) ← read_lines sub raw start indent lines [] lx
          some (
              push
                (record read { pos = opener_end; heredoc_resume = some at })
                (str (pack parts))
                start
                opener_end))
    finish-Resumes raw start indent at opener_end lines low q lx a h k l m pq n t v w =
        Returns-bind
          (read_lines-ends raw p start indent low lines [] lx (weaken s r p q lx pq a) tt
            (omega arith) m l n t)
          λ (read, parts) (b, sound). returns (
            at,
            push_plain s (some at) small (start + 1) start (str (pack parts))
                (record read { pos = opener_end; heredoc_resume = some at })
                (record {
                  same_src = b.same_src;
                  from_start = k;
                  in_src = h;
                  same_resume = refl;
                  tokens_sound = b.tokens_sound;
                  errors_in = b.errors_in;
                  comments_in = b.comments_in;
                })
                (omega arith) refl (str-Spells s read.src start opener_end parts b.same_src sound),
            v,
            w,
          )

    pub heredoc-Resumes :
        (u : Unicode) (q : ℕ) (lx : Lexer)
        → At s r q lx
        → 1 ≤ p
        → p ≤ lx.pos + 1
        → p ≤ base r (lx.pos + 1)
        → at_heredoc lx ≡ true
        → base r 0 ≤ bytes s
        → lx.pos + 1 ≤ line_end s lx.pos
        → Returns (Resumes lx.pos) (heredoc sub u lx)
    unfolding heredoc
    heredoc-Resumes u q lx a pos h b0 e k l =
        let start = lx.pos in
        let three = opener-bound q lx a e in
        let o = heredoc_name-At u q lx a three in
        let opened = (heredoc_name u lx).0 in
        let raw = (heredoc_name u lx).1.0 in
        let id = (heredoc_name u lx).1.1 in
        let (low, high) = body_start-bounds s r (start + 3) opened o k in
        let n : bytes lx.src ≡ bytes s = ap bytes a.same_src in
        let later = base_mono r (start + 1) opened.pos (omega (arith, o.from_start)) in
        let (found, f, (lines, at)) = Returns-value (
          body_lines-ends lx.src id (bytes lx.src + 1) (body_start opened) (omega arith)
            (omega arith)) in
        let indent = indent_of (starts_with (codes "<<~") (rest lx)) lx.src found.0 in
        let lines' = subst (λ n. LinesIn n (body_start opened) found.0) n lines in
        let finish =
          λ (resume : ℕ) (checked : Lexer) (c : At s r (start + 3) checked)
              (v : base r (start + 1) ≤ resume) (w : resume ≤ bytes s).
            finish-Resumes raw start indent resume opened.pos found.0 (body_start opened)
              (start + 3) checked c o.in_src (omega (arith, o.from_start)) (omega arith)
              (omega arith) (omega arith) (omega arith) lines' v w in
        rw f (elim (Option-cases found.1) [
          | inl none_left ↦ rw none_left (
              finish (bytes lx.src) _
                (error-At s r (start + 3) start opened.pos (unterminated_heredoc id) opened small o
                  a.in_src o.in_src)
                (omega arith) (omega arith))
          | inr (resume, g) ↦
              let (v, w) : ResumesIn (bytes lx.src) (body_start opened) (some resume) =
                subst (ResumesIn (bytes lx.src) (body_start opened)) g at in
              rw g (finish resume opened o (omega arith) (omega arith))
        ])
