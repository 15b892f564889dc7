-- ===== src/Lexer/Scan/Tokens.antt =====
-- What holds of the tokens, the comments and the errors that a source gives.
use grenat.Prelude.{
  ℕ, ◌+◌, ◌^◌, ◌≤◌, ◌<◌, ◌≡◌, refl, subst, ◌⊎◌, true, false, List, [], ◌∷◌, ◌++◌, Option, none,
  some, arith,
}
use grenat.Lexer.Scan.Words.{hex_below, without_underscores, i64_bound}
use grenat.Prelude.Text.{parse_below, Text}
use grenat.Lexer.Keywords.{Span, new, as_str, new, lookup}
use grenat.Lexer.Token.{
  Comment, LexError, int, const, kw, macro_body, str, StrParts, no_parts, lit_then, interp_then,
  Tokens, no_tokens, token_then, TokenKind, ident, Token, is_newline,
}
use grenat.Lexer.Source.{slice, bytes}
use grenat.Lexer.Scan.{last_kind, starts_line}

-- A part of the source `s`.
abbrev pub SpanIn : Text → Span → Type 0
SpanIn s t = (t.start ≤ t.end) × (t.end ≤ bytes s)

-- What stands in the source from `a` to `b` for a token: the text of a name, of a keyword or of a macro's
-- body, and the digits of a whole number, decimal ones or, after `0x`, hexadecimal ones; no keyword is an
-- identifier. The interpolations of a string, and the tokens in them, lie in the source as well.
unfoldable mutual
  pub Spells : Text → (a b : ℕ) → TokenKind → Type 0
  Spells s a b (ident t) = (lookup t ≡ none) × (slice s a b ≡ t)
  Spells s a b (const t) = slice s a b ≡ t
  Spells s a b (kw k) = slice s a b ≡ as_str k
  Spells s a b (macro_body t) = slice s a b ≡ t
  Spells s a b (int n) =
      (parse_below i64_bound (without_underscores (slice s a b)) ≡ some n)
      ⊎ (hex_below i64_bound (without_underscores (slice s (a + 2) b)) ≡ some n)
  Spells s a b (str parts) = PartsIn s parts
  Spells s a b _ = Unit {0}

  pub PartsIn : Text → StrParts → Type 0
  PartsIn s no_parts = Unit {0}
  PartsIn s (lit_then t parts) = PartsIn s parts
  PartsIn s (interp_then tokens span parts) =
      SpanIn s span × TokensIn s none tokens × PartsIn s parts

  pub TokensIn : Text → Option TokenKind → Tokens → Type 0
  TokensIn s before no_tokens = Unit {0}
  TokensIn s before (token_then k span space ts) =
      SpanIn s span
      × (is_newline k ≡ true → starts_line before ≡ false)
      × Spells s span.start span.end k
      × TokensIn s (some k) ts

-- A token of the source `s`, after one of kind `before`: its span lies in the source, and a line's
-- end neither comes first nor follows another.
pub record TokenOk (s : Text) (before : Option TokenKind) (t : Token) : Type 0 where
  pub start_end : t.span.start ≤ t.span.end
  pub within : t.span.end ≤ bytes s
  pub one_newline : is_newline t.kind ≡ true → starts_line before ≡ false
  pub spelled : Spells s t.span.start t.span.end t.kind

abbrev pub Sound : Text → Option TokenKind → List Token → Type 0
Sound s before [] = Unit {0}
Sound s before (t ∷ ts) = TokenOk s before t × Sound s (some t.kind) ts

abbrev pub last_after : Option TokenKind → List Token → Option TokenKind
last_after before [] = before
last_after before (t ∷ ts) = last_after (some t.kind) ts

pub Sound-append :
    (s : Text) (before : Option TokenKind) (ts : List Token) (t : Token)
    → Sound s before ts
    → TokenOk s (last_after before ts) t
    → Sound s before (ts ++ t ∷ [])
Sound-append s before [] t h k = (k, tt)
Sound-append s before (t' ∷ ts) t (g, h) k = (g, Sound-append s (some t'.kind) ts t h k)

last_after-last_kind :
    (before : Option TokenKind) (t : Token) (ts : List Token)
    → last_after before (t ∷ ts) ≡ last_kind (t ∷ ts)
unfolding last_kind
last_after-last_kind before t [] = refl
last_after-last_kind before t (s ∷ ts) = last_after-last_kind (some t.kind) s ts

pub last_after-none : (ts : List Token) → last_after none ts ≡ last_kind ts
unfolding last_kind
last_after-none [] = refl
last_after-none (t ∷ ts) = last_after-last_kind none t ts

-- An error's span may end before it starts.
abbrev pub ErrorsIn : Text → List LexError → Type 0
ErrorsIn s [] = Unit {0}
ErrorsIn s (e ∷ es) = ((e.span.start ≤ bytes s) × (e.span.end ≤ bytes s)) × ErrorsIn s es

abbrev pub CommentsIn : Text → List Comment → Type 0
CommentsIn s [] = Unit {0}
CommentsIn s (c ∷ cs) = SpanIn s c.span × CommentsIn s cs

pub ErrorsIn-append :
    (s : Text) (es fs : List LexError) → ErrorsIn s es → ErrorsIn s fs → ErrorsIn s (es ++ fs)
ErrorsIn-append s [] fs h k = k
ErrorsIn-append s (e ∷ es) fs (g, h) k = (g, ErrorsIn-append s es fs h k)

pub CommentsIn-append :
    (s : Text) (cs : List Comment) (c : Comment)
    → CommentsIn s cs
    → SpanIn s c.span
    → CommentsIn s (cs ++ c ∷ [])
CommentsIn-append s [] c h k = (k, tt)
CommentsIn-append s (d ∷ cs) c (g, h) k = (g, CommentsIn-append s cs c h k)

-- Spans wrap only past the sources that are read.
pub new-SpanIn :
    (s : Text) (start end : ℕ)
    → bytes s < 2 ^ 32
    → start ≤ end
    → end ≤ bytes s
    → SpanIn s (new start end)
unfolding new
new-SpanIn s start end small h l = (omega arith, omega arith)

pub Spells-at :
    (s : Text) (k : TokenKind) {a a' b b' : ℕ} → a ≡ a' → b ≡ b' → Spells s a b k → Spells s a' b' k
Spells-at s k {a} {a'} {b} {b'} e f h =
    subst (λ y. Spells s a' y k) f (subst (λ x. Spells s x b k) e h)
