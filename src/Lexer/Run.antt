-- ===== src/Lexer/Run.antt =====
-- `Lexer::run` and `lex` of crates/grenat_lexer/src/lexer.rs.
use grenat.Prelude.{
  ℕ, zero, suc, ◌+◌, ◌-◌, ◌*◌, Bool, true, false, not, ◌&&◌, ◌||◌, List, [], ◌∷◌, ◌++◌, Option,
  none, some, ◌==◌, if◌then◌else◌,
}
use grenat.Prelude.Options.{◌>>=◌}
use grenat.Prelude.Text.{Text, is_digit}
use grenat.Lexer.Token.{str, eof, Lexed, pack, join_continuations}
use grenat.Lexer.Source.{bytes}
use grenat.Lexer.Scan.{
  Unicode, is_ident_start, Lexer, fresh, peek, bump, push, last_kind, starts_line, skip_blanks,
  push_newline, end_line, comment,
}
use grenat.Lexer.Scan.Words.{word, instance_variable, colons, number}
use grenat.Lexer.Scan.Punct.{punctuation}
use grenat.Lexer.Strings.{Term, quote, string_parts}
use grenat.Lexer.Strings.Heredocs.{at_heredoc, heredoc}
pub mod Measure
pub mod Rounds
pub mod Ends
pub mod Result

-- A machine that goes on, or one that is done.
pub data Next : Type 0 where
  goes_on is_done : Lexer → Next

-- The arms whose characters start nothing that holds others.
unfoldable pub scan_plain : Unicode → Lexer → ℕ → Lexer
scan_plain u lx c =
    if c == b'\n'
    then end_line (bump lx) lx.pos
    else if c == b';'
    then push_newline (bump lx) lx.pos
    else if c == b'#'
    then comment lx
    else if c == b'@'
    then instance_variable u lx
    else if c == b':'
    then colons u lx
    else if is_digit c
    then number u lx
    else if is_ident_start u c
    then word u lx
    else punctuation lx c

module _ (u : Unicode) (sub : Lexer → Option Lexer) where
  unfoldable pub quoted : (interpolate : Bool) → Lexer → ℕ → Option Lexer
  quoted interpolate lx c = do
    let start = lx.pos
    (lx', parts) ← string_parts sub (quote c) interpolate start (bump lx)
    some (push lx' (str (pack parts)) start lx'.pos)

  -- At the character `c`.
  unfoldable pub scan_char : Lexer → ℕ → Option Next
  scan_char lx c =
      if c == b'"'
      then (do lx' ← quoted true lx c; some (goes_on lx'))
      else if c == b'\''
      then (do lx' ← quoted false lx c; some (goes_on lx'))
      else if c == b'<' && at_heredoc lx
      then (do lx' ← heredoc sub u lx; some (goes_on lx'))
      else if c == b'}' && lx.in_interp && lx.brace_depth == 0
      then some (is_done lx)
      else some (goes_on (scan_plain u lx c))

  -- Where a token starts.
  unfoldable pub at_token : Lexer → Lexer
  at_token lx =
      let (skipped, some_skipped) = skip_blanks lx in
      record skipped { space_before = some_skipped || starts_line (last_kind skipped.tokens) }

  -- The body of the loop of `run`.
  unfoldable pub run_step : Lexer → Option Next
  run_step lx =
      let ready = at_token lx in
      elim (peek ready) [ none ↦ some (is_done ready) | some c ↦ scan_char ready c ]

  unfoldable pub run_loop : ℕ → Lexer → Option Lexer
  run_loop zero lx = none
  run_loop (suc fuel) lx = elim (run_step lx) [
    | none ↦ none
    | some (is_done lx') ↦ some lx'
    | some (goes_on lx') ↦ run_loop fuel lx'
  ]

-- The rounds that a run of a source of `n` bytes takes at most.
abbrev pub rounds : ℕ → ℕ
rounds n = (n + 1) * (n + 2)

-- A run that lexes interpolations inside interpolations, `depth` deep.
unfoldable pub run : Unicode → (depth : ℕ) → Lexer → Option Lexer
run u zero lx = none
run u (suc depth) lx = run_loop u (run u depth) (rounds (bytes lx.src)) lx

unfoldable pub lex : Unicode → Text → Option Lexed
lex u src = do
  done ← run u (bytes src + 1) (fresh src 0 false)
  let ended = push done eof (bytes src) (bytes src)
  some (record {
    tokens = join_continuations ended.tokens;
    comments = ended.comments;
    errors = ended.errors;
  })
