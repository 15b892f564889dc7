-- ===== src/Lexer/Strings/Parts.antt =====
-- The parts of a string whose interpolations are sound.
use grenat.Prelude.{subst, sym, ℕ, ◌≡◌, List, [], ◌∷◌, ◌++◌, Option, none, some}
use grenat.Prelude.Text.{Text}
use grenat.Lexer.Token.{TokenKind, Token, StrPart, str, lit, interp, pack, pack_tokens}
use grenat.Lexer.Scan.Tokens.{SpanIn, Sound, Spells, PartsIn, TokensIn}
use grenat.Lexer.Strings.{flush}
use grenat.Lexer.Strings.Heredocs.{join_part, join_parts}

abbrev pub PartSound : Text → StrPart → Type 0
PartSound s (lit text) = Unit {0}
PartSound s (interp tokens span) = SpanIn s span × Sound s none tokens

abbrev pub PartsSound : Text → List StrPart → Type 0
PartsSound s [] = Unit {0}
PartsSound s (part ∷ parts) = PartSound s part × PartsSound s parts

pack_tokens-TokensIn :
    (s : Text) (before : Option TokenKind) (ts : List Token)
    → Sound s before ts
    → TokensIn s before (pack_tokens ts)
unfolding pack_tokens Spells
pack_tokens-TokensIn s before [] h = tt
pack_tokens-TokensIn s before (t ∷ ts) (ok, h) = (
  (ok.start_end, ok.within),
  ok.one_newline,
  ok.spelled,
  pack_tokens-TokensIn s (some t.kind) ts h,
)

pub pack-PartsIn : (s : Text) (parts : List StrPart) → PartsSound s parts → PartsIn s (pack parts)
unfolding pack Spells
pack-PartsIn s [] h = tt
pack-PartsIn s (lit text ∷ parts) (p, h) = pack-PartsIn s parts h
pack-PartsIn s (interp tokens span ∷ parts) ((i, p), h) =
    (i, pack_tokens-TokensIn s none tokens p, pack-PartsIn s parts h)

pub PartsSound-append :
    (s : Text) (ps qs : List StrPart) → PartsSound s ps → PartsSound s qs → PartsSound s (ps ++ qs)
PartsSound-append s [] qs h k = k
PartsSound-append s (p ∷ ps) qs (g, h) k = (g, PartsSound-append s ps qs h k)

pub flush-PartsSound :
    (s : Text) (parts : List StrPart) (buf : Text)
    → PartsSound s parts
    → PartsSound s (flush parts buf)
flush-PartsSound s parts [] h = h
flush-PartsSound s parts (c ∷ buf) h = PartsSound-append s parts _ h (tt, tt)

join_part-PartsSound :
    (s : Text) (parts : List StrPart) (part : StrPart)
    → PartsSound s parts
    → PartSound s part
    → PartsSound s (join_part parts part)
unfolding join_part
join_part-PartsSound s [] part h k = (k, tt)
join_part-PartsSound s (lit a ∷ []) (lit b) h k = (tt, tt)
join_part-PartsSound s (lit a ∷ []) (interp tokens span) h k = (tt, (k, tt))
join_part-PartsSound s (interp tokens span ∷ []) part (g, h) k = (g, (k, tt))
join_part-PartsSound s (p ∷ q ∷ parts) part (g, h) k =
    (g, join_part-PartsSound s (q ∷ parts) part h k)

pub join_parts-PartsSound :
    (s : Text) (parts more : List StrPart)
    → PartsSound s parts
    → PartsSound s more
    → PartsSound s (join_parts parts more)
unfolding join_parts
join_parts-PartsSound s parts [] h k = h
join_parts-PartsSound s parts (part ∷ more) h (g, k) =
    join_parts-PartsSound s (join_part parts part) more (join_part-PartsSound s parts part h g) k

-- A string spells what it is, in a machine over the source `s`.
pub str-Spells :
    (s src : Text) (a b : ℕ) (parts : List StrPart)
    → src ≡ s
    → PartsSound s parts
    → Spells src a b (str (pack parts))
unfolding Spells
str-Spells s src a b parts same h =
    subst (λ t. PartsIn t (pack parts)) (sym same) (pack-PartsIn s parts h)
