-- ===== src/Lexer/Strings/Heredocs.antt =====
-- Heredocs of crates/grenat_lexer/src/strings.rs.
use grenat.Prelude.{
  ℕ, zero, suc, ◌+◌, ◌-◌, Bool, true, false, not, ◌&&◌, ◌||◌, List, [], ◌∷◌, ◌++◌, Option, none,
  some, min, ltb, leb, ◌==◌, if◌then◌else◌,
}
use grenat.Prelude.Options.{◌>>=◌}
use grenat.Prelude.Text.{Text, is_empty, starts_with, codes, trim, text_eq}
use grenat.Lexer.Token.{
  str, StrPart, lit, interp, unclosed_heredoc_name, unterminated_heredoc, pack,
}
use grenat.Lexer.Source.{bytes, from, slice, find, find_or, line_end, run_of, nth}
use grenat.Lexer.Scan.{Unicode, Lexer, rest, is_char, is_some_and, eat, error, push}
use grenat.Lexer.Scan.Words.{take_ident_chars}
use grenat.Lexer.Strings.{end_at, string_parts}
pub mod Bodies

unfoldable pub at_heredoc : Lexer → Bool
unfolding rest starts_with from nth
at_heredoc lx =
    (starts_with (codes "<<~") (rest lx) || starts_with (codes "<<-") (rest lx))
    && is_some_and (λ c. c == b'\'' || c == b'_' || (leb b'A' c && leb c b'Z'))
        (nth 0 (from 3 (rest lx)))

-- The lines of the body, and where to go on after the line that ends it.
unfoldable pub body_lines :
    Text → (id : Text) → (fuel line_start : ℕ) → Option (List (ℕ × ℕ) × Option ℕ)
unfolding bytes line_end slice trim text_eq
body_lines src id zero line_start = none
body_lines src id (suc fuel) line_start =
    let end = line_end src line_start in
    if not (ltb line_start (bytes src))
    then some ([], none)
    else if text_eq (trim (slice src line_start end)) id
    then some ([], some (min (end + 1) (bytes src)))
    else elim (body_lines src id fuel (end + 1)) [
      | none ↦ none
      | some (lines, resume) ↦ some ((line_start, end) ∷ lines, resume)
    ]

abbrev pub leading_ws : Text → ℕ
leading_ws line = run_of (λ c. c == b' ' || c == b'\t') line

-- The least indentation of the lines that are not blank, if there is one.
unfoldable pub least_indent : Text → List (ℕ × ℕ) → Option ℕ
unfolding slice trim run_of
least_indent src [] = none
least_indent src ((s, e) ∷ lines) =
    let later = least_indent src lines in
    let line = slice src s e in
    if is_empty (trim line)
    then later
    else elim later [ none ↦ some (leading_ws line) | some n ↦ some (min (leading_ws line) n) ]

abbrev indent_unless_none : Option ℕ → ℕ
indent_unless_none none = 0
indent_unless_none (some n) = n

unfoldable pub indent_of : Bool → Text → List (ℕ × ℕ) → ℕ
unfolding least_indent
indent_of squiggly src lines = if squiggly then indent_unless_none (least_indent src lines) else 0

-- A literal joins the literal before it.
unfoldable pub join_part : List StrPart → StrPart → List StrPart
join_part [] part = part ∷ []
join_part (lit s ∷ []) (lit t) = lit (s ++ t) ∷ []
join_part (lit s ∷ []) (interp tokens span) = lit s ∷ interp tokens span ∷ []
join_part (interp tokens span ∷ []) part = interp tokens span ∷ part ∷ []
join_part (p ∷ q ∷ parts) part = p ∷ join_part (q ∷ parts) part

unfoldable pub join_parts : List StrPart → List StrPart → List StrPart
unfolding join_part
join_parts parts [] = parts
join_parts parts (part ∷ more) = join_parts (join_part parts part) more

-- The name of a heredoc, from the start of its opener: whether it is raw, and what follows it.
unfoldable pub heredoc_name : Unicode → Lexer → Lexer × (Bool × Text)
unfolding eat take_ident_chars slice error
heredoc_name u lx =
    let start = lx.pos in
    let (opened, raw) = eat (record lx { pos = start + 3 }) b'\'' in
    let taken = take_ident_chars u opened in
    let id = slice lx.src opened.pos taken.pos in
    if raw
    then (let (closed, is_closed) = eat taken b'\'' in
        (
          (if is_closed then closed else error closed start closed.pos unclosed_heredoc_name),
          (raw, id),
        ))
    else (taken, (raw, id))

-- `heredoc_resume`, or else the start of the next line.
unfoldable pub body_start : Lexer → ℕ
unfolding find rest bytes
body_start lx = elim lx.heredoc_resume [
  | some at ↦ at
  | none ↦ elim (find b'\n' (rest lx)) [ none ↦ bytes lx.src | some i ↦ lx.pos + i + 1 ]
]

module _ (sub : Lexer → Option Lexer) where
  unfoldable pub read_lines :
      (raw : Bool)
      → (start indent : ℕ) → List (ℕ × ℕ)
      → List StrPart
      → Lexer
      → Option (Lexer × List StrPart)
  unfolding slice run_of string_parts join_parts
  read_lines raw start indent [] parts lx = some (lx, parts)
  read_lines raw start indent ((s, e) ∷ lines) parts lx = do
    let pos = s + min (leading_ws (slice lx.src s e)) indent
    (lx', line_parts) ← string_parts sub (end_at e) (not raw) start (record lx { pos = pos })
    read_lines raw start indent lines (join_parts parts (line_parts ++ lit (codes "\n") ∷ [])) lx'

  unfoldable pub heredoc : Unicode → Lexer → Option Lexer
  heredoc u lx = do
    let start = lx.pos
    let squiggly = starts_with (codes "<<~") (rest lx)
    let (opened, (raw, id)) = heredoc_name u lx
    let opener_end = opened.pos
    (lines, ended) ← body_lines lx.src id (bytes lx.src + 1) (body_start opened)
    let missing = λ (l : Lexer). error l start opener_end (unterminated_heredoc id)
    let (checked, resume) : Lexer × ℕ = elim ended [
      | some at ↦ (opened, at)
      | none ↦ (missing opened, bytes lx.src)
    ]
    (read, parts) ← read_lines raw start (indent_of squiggly lx.src lines) lines [] checked
    some (
        push (record read { pos = opener_end; heredoc_resume = some resume }) (str (pack parts))
          start opener_end)
