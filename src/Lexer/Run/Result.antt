-- ===== src/Lexer/Run/Result.antt =====
-- What `lex` gives for every source.
use grenat.Prelude.{ℕ, ◌+◌, ◌^◌, ◌<◌, ◌≡◌, refl, false, none, some, arith}
use grenat.Prelude.Options.{Returns, returns, Returns-bind}
use grenat.Prelude.Text.{Text}
use grenat.Lexer.Token.{eof, Lexed}
use grenat.Lexer.Source.{bytes}
use grenat.Lexer.Scan.{Unicode, Lexer, push, last_kind}
use grenat.Lexer.Scan.Tokens.{Spells, CommentsIn, ErrorsIn, Sound}
use grenat.Lexer.Scan.Sound.{push-At}
use grenat.Lexer.Run.{lex}
use grenat.Lexer.Run.Ends.{run-ends}
use grenat.Lexer.Scan.Joins.{
  Joined, join_continuations-Sound, join_continuations-Joined, last_kind-join_continuations,
  last_kind-append,
}

eof-last : (lx : Lexer) (n : ℕ) → last_kind (push lx eof n n).tokens ≡ some eof
unfolding push
eof-last lx n = last_kind-append lx.tokens _

-- Tokens as they are to be made of a source.
abbrev pub IsLexed : Text → Lexed → Type 0
IsLexed s l =
    Sound s none l.tokens
    × Joined l.tokens
    × (last_kind l.tokens ≡ some eof)
    × CommentsIn s l.comments
    × ErrorsIn s l.errors

-- Lexing every source of less than 2^32 bytes ends. Every span of a token then lies in the source and starts
-- no later than it ends; a name, a keyword, a macro's body and a whole number's digits are what stands
-- there, and no identifier is a keyword; a line's end comes neither first nor after another nor before a
-- dot; the last token is the end of the file; and every comment and every end of an error lies in the
-- source. What is said of spans, texts and repeated line ends holds of the tokens in interpolations too,
-- however deep.
pub lex-IsLexed : (u : Unicode) (s : Text) → bytes s < 2 ^ 32 → Returns (IsLexed s) (lex u s)
unfolding lex Spells
lex-IsLexed u s small =
    Returns-bind (run-ends u s small (bytes s + 1) 0 s false refl (omega arith) (omega arith))
      λ done (r, a).
        let ended =
          push-At s r 0 (bytes s) (bytes s) eof done small a (omega arith) (omega arith)
            (λ h. absurd (ground arith)) tt in
        let sound = ended.tokens_sound in
        let ts = (push done eof (bytes s) (bytes s)).tokens in
        returns (
          join_continuations-Sound s none ts sound,
          join_continuations-Joined s none ts sound,
          last_kind-join_continuations ts eof (eof-last done (bytes s)),
          ended.comments_in,
          ended.errors_in,
        )
