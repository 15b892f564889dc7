-- ===== src/Lexer/Scan/Joins.antt =====
-- What `join_continuations` keeps of sound tokens.
use grenat.Prelude.{
  ◌≡◌, refl, true, false, ◌&&◌, List, [], ◌∷◌, ◌++◌, Option, some, arith, Bool-cases, inl, inr,
}
use grenat.Prelude.Text.{Text}
use grenat.Lexer.Token.{TokenKind, Token, is_newline, is_dot, next_is_dot, join_continuations}
use grenat.Lexer.Scan.{last_kind}
use grenat.Lexer.Scan.Tokens.{Sound}
use grenat.Lexer.Scan.Moves.{plain}

-- No line's end stands before a dot.
abbrev pub Joined : List Token → Type 0
Joined [] = Unit {0}
Joined (t ∷ ts) = ((is_newline t.kind && next_is_dot ts) ≡ false) × Joined ts

-- A token that ends no line may follow any other.
Sound-before :
    (src : Text) (b b' : Option TokenKind) (t : Token) (ts : List Token)
    → is_newline t.kind ≡ false
    → Sound src b (t ∷ ts)
    → Sound src b' (t ∷ ts)
Sound-before src b b' t ts h (ok, more) = (
  record {
    start_end = ok.start_end;
    within = ok.within;
    one_newline = plain t.kind h;
    spelled = ok.spelled;
  },
  more,
)

dot_no_newline : (k : TokenKind) → is_dot k ≡ true → is_newline k ≡ false
dot_no_newline TokenKind.newline h = absurd (ground arith)
dot_no_newline _ h = refl

pub join_continuations-Sound :
    (src : Text) (before : Option TokenKind) (ts : List Token)
    → Sound src before ts
    → Sound src before (join_continuations ts)
unfolding join_continuations
join_continuations-Sound src before [] s = tt
join_continuations-Sound src before (t ∷ []) (ok, s) = elim (Bool-cases (is_newline t.kind)) [
  | inl e ↦ rw (e, join_continuations) (ok, tt)
  | inr e ↦ rw (e, join_continuations) (ok, tt)
]
join_continuations-Sound src before (t ∷ t' ∷ ts) (ok, s) =
    elim (Bool-cases (is_newline t.kind && is_dot t'.kind)) [
      | inl drop ↦
          let no_newline = dot_no_newline t'.kind (ground arith) in
          rw drop (
            join_continuations-Sound src before (t' ∷ ts)
              (Sound-before src _ before t' ts no_newline s))
      | inr keep ↦ rw keep (ok, join_continuations-Sound src (some t.kind) (t' ∷ ts) s)
    ]

last_kind-more :
    (t : Token) (ts : List Token) (k : TokenKind)
    → last_kind ts ≡ some k
    → last_kind (t ∷ ts) ≡ some k
unfolding last_kind
last_kind-more t [] k e = absurd (ground arith)
last_kind-more t (t' ∷ ts) k e = e

pub last_kind-append : (ts : List Token) (t : Token) → last_kind (ts ++ t ∷ []) ≡ some t.kind
unfolding last_kind
last_kind-append [] t = refl
last_kind-append (s ∷ ts) t = last_kind-more s (ts ++ t ∷ []) t.kind (last_kind-append ts t)

-- The last token stays the last.
pub last_kind-join_continuations :
    (ts : List Token) (k : TokenKind)
    → last_kind ts ≡ some k
    → last_kind (join_continuations ts) ≡ some k
unfolding join_continuations last_kind
last_kind-join_continuations [] k e = e
last_kind-join_continuations (t ∷ []) k e = elim (Bool-cases (is_newline t.kind)) [
  | inl h ↦ rw (h, join_continuations) e
  | inr h ↦ rw (h, join_continuations) e
]
last_kind-join_continuations (t ∷ t' ∷ ts) k e =
    let again = last_kind-join_continuations (t' ∷ ts) k e in
    elim (Bool-cases (is_newline t.kind && is_dot t'.kind)) [
      | inl drop ↦ rw drop again
      | inr keep ↦ rw keep (last_kind-more t (join_continuations (t' ∷ ts)) k again)
    ]

-- What a token that ends no line is followed by is kept.
next_is_dot-join_continuations :
    (src : Text) (k : TokenKind) (ts : List Token)
    → Sound src (some k) ts
    → is_newline k ≡ true
    → next_is_dot (join_continuations ts) ≡ next_is_dot ts
unfolding join_continuations
next_is_dot-join_continuations src k [] s h = refl
next_is_dot-join_continuations src k (t ∷ ts) (ok, s) h = elim (Bool-cases (is_newline t.kind)) [
  | inl e ↦ absurd (ground (arith, ok.one_newline e))
  | inr e ↦ rw e refl
]

pub join_continuations-Joined :
    (src : Text) (before : Option TokenKind) (ts : List Token)
    → Sound src before ts
    → Joined (join_continuations ts)
unfolding join_continuations
join_continuations-Joined src before [] s = tt
join_continuations-Joined src before (t ∷ ts) (ok, s) =
    let again = join_continuations-Joined src (some t.kind) ts s in
    elim (Bool-cases (is_newline t.kind && next_is_dot ts)) [
      | inl drop ↦ rw drop again
      | inr keep ↦ rw keep (
        (elim (Bool-cases (is_newline t.kind)) [
          | inl e ↦ ground (arith, next_is_dot-join_continuations src t.kind ts s e)
          | inr e ↦ ground arith
        ]),
        again,
      )
    ]
