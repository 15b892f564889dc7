-- ===== src/Lexer/Scan.antt =====
-- The state of the scanning machine of crates/grenat_lexer/src/lexer.rs, and what its parts share.
use grenat.Prelude.{
  ℕ, zero, suc, ◌+◌, ◌-◌, ◌*◌, Bool, true, false, not, ◌&&◌, ◌||◌, List, [], ◌∷◌, ◌++◌, Option,
  none, some, ltb, leb, ◌==◌, if◌then◌else◌,
}
use grenat.Prelude.Text.{
  Text, is_digit, is_whitespace, trim, trim_start, text_eq, codes, starts_with,
}
use grenat.Lexer.Keywords.{Span, new, Keyword, def_kw}
use grenat.Lexer.Token.{
  TokenKind, newline, macro_body, dot, safe_dot, kw, Token, StrPart, Comment, Message,
  macro_without_end, LexError, is_newline, is_dot,
}
use grenat.Lexer.Source.{bytes, from, slice, find, find_or, line_end, run_of, drop_while, nth}
pub mod Words
pub mod Punct
pub mod Tokens
pub mod Sound
pub mod Moves
pub mod Numbers
pub mod Lines
pub mod Joins

-- What the library says of characters, and the number that it reads in a text.
pub record Unicode : Type 0 where
  pub is_alphabetic : ℕ → Bool
  pub is_numeric : ℕ → Bool
  pub is_uppercase : ℕ → Bool
  pub parse_f64 : Text → Option ℕ

-- `char::is_alphanumeric` is one or the other.
unfoldable pub is_alphanumeric : Unicode → ℕ → Bool
is_alphanumeric u c = u.is_alphabetic c || u.is_numeric c

unfoldable pub is_ident_start : Unicode → ℕ → Bool
is_ident_start u c = c == b'_' || u.is_alphabetic c

unfoldable pub is_ident_continue : Unicode → ℕ → Bool
unfolding is_alphanumeric
is_ident_continue u c = c == b'_' || is_alphanumeric u c

pub record Lexer : Type 0 where
  pub src : Text
  pub pos : ℕ
  pub tokens : List Token
  pub comments : List Comment
  pub errors : List LexError
  pub heredoc_resume : Option ℕ
  pub in_interp : Bool
  pub brace_depth : ℕ
  pub space_before : Bool
  pub line_has_token : Bool
  pub macro_indent : Option ℕ

unfoldable pub fresh : Text → ℕ → Bool → Lexer
fresh src pos in_interp = record {
  src = src;
  pos = pos;
  tokens = [];
  comments = [];
  errors = [];
  heredoc_resume = none;
  in_interp = in_interp;
  brace_depth = 0;
  space_before = true;
  line_has_token = false;
  macro_indent = none;
}

unfoldable pub rest : Lexer → Text
unfolding from
rest lx = from lx.pos lx.src

unfoldable pub peek : Lexer → Option ℕ
unfolding rest nth
peek lx = nth 0 (rest lx)

unfoldable pub peek_at : Lexer → ℕ → Option ℕ
unfolding rest nth
peek_at lx n = nth n (rest lx)

abbrev pub is_char : ℕ → Option ℕ → Bool
is_char c none = false
is_char c (some d) = d == c

abbrev pub is_some_and : (ℕ → Bool) → Option ℕ → Bool
is_some_and test none = false
is_some_and test (some c) = test c

abbrev pub width_of : Option ℕ → ℕ
width_of none = 0
width_of (some c) = bytes (c ∷ [])

-- What `bump` and `eat` do to the position.
unfoldable pub bump : Lexer → Lexer
unfolding peek bytes
bump lx = record lx { pos = lx.pos + width_of (peek lx) }

unfoldable pub eat : Lexer → ℕ → Lexer × Bool
unfolding peek bump
eat lx c = if is_char c (peek lx) then (bump lx, true) else (lx, false)

unfoldable pub error : Lexer → (start end : ℕ) → Message → Lexer
unfolding new
error lx start end message = record lx {
  errors = lx.errors ++ record { span = new start end; message = message } ∷ [];
}

unfoldable pub push : Lexer → TokenKind → (start end : ℕ) → Lexer
unfolding new
push lx kind start end = record lx {
  tokens =
      lx.tokens
      ++ record { kind = kind; span = new start end; space_before = lx.space_before } ∷ [];
  line_has_token = true;
}

-- `tokens.last()`, its kind.
unfoldable pub last_kind : List Token → Option TokenKind
last_kind [] = none
last_kind (t ∷ []) = some t.kind
last_kind (t ∷ s ∷ ts) = last_kind (s ∷ ts)

-- `None | Some(Token { kind: TokenKind::Newline, .. })`.
abbrev pub starts_line : Option TokenKind → Bool
starts_line none = true
starts_line (some k) = is_newline k

-- How far spaces, tabs and `\` line continuations reach.
unfoldable pub blanks : Text → ℕ
blanks [] = 0
blanks (c ∷ []) = if c == b' ' || c == b'\t' || c == b'\r' then 1 else 0
blanks (c ∷ d ∷ s) =
    let one = blanks (d ∷ s) in
    let two = blanks s in
    if c == b' ' || c == b'\t' || c == b'\r'
    then 1 + one
    else if c == b'\\' && d == b'\n'
    then 2 + two
    else 0

unfoldable pub skip_blanks : Lexer → Lexer × Bool
unfolding rest blanks
skip_blanks lx =
    let skipped = blanks (rest lx) in (record lx { pos = lx.pos + skipped }, not (skipped == 0))

unfoldable pub push_newline : Lexer → ℕ → Lexer
unfolding push last_kind
push_newline lx start =
    let pushed =
      if starts_line (last_kind lx.tokens) then lx else push lx newline start (start + 1) in
    record pushed { line_has_token = false }

-- The length in bytes of what a line starts with.
abbrev pub indent_of : Text → ℕ
indent_of line = bytes line - bytes (trim_start line)

-- The loop over the lines of a macro's body: where its `end` is. The fuel bounds the lines left.
unfoldable pub macro_end : Text → (fuel line indent : ℕ) → Option ℕ
unfolding line_end slice trim trim_start bytes text_eq
macro_end src zero line indent = none
macro_end src (suc fuel) line indent =
    let end = line_end src line in
    let text = slice src line end in
    let later = macro_end src fuel (end + 1) indent in
    if not (ltb line (bytes src))
    then none
    else if text_eq (trim text) (codes "end") && indent_of text == indent
    then some line
    else later

unfoldable pub read_macro : Lexer → ℕ → Lexer
unfolding macro_end slice bytes push error
read_macro lx indent =
    let start = lx.pos in
    elim (macro_end lx.src (bytes lx.src + 1) start indent) [
      | some line ↦ record (push lx (macro_body (slice lx.src start line)) start line) {
        pos = line;
      }
      | none ↦
          let pushed = push lx (macro_body (from start lx.src)) start (bytes lx.src) in
          record (error pushed start (bytes lx.src) macro_without_end) { pos = bytes lx.src }
    ]

-- `heredoc_resume.take()`.
unfoldable pub resume : Lexer → Lexer
resume lx = elim lx.heredoc_resume [
  | none ↦ lx
  | some at ↦ record lx { pos = at; heredoc_resume = none }
]

-- `macro_indent.take()`.
unfoldable pub take_macro : Lexer → Lexer
unfolding read_macro
take_macro lx = elim lx.macro_indent [
  | none ↦ lx
  | some indent ↦ read_macro (record lx { macro_indent = none }) indent
]

unfoldable pub end_line : Lexer → ℕ → Lexer
unfolding push_newline resume take_macro
end_line lx start = take_macro (resume (push_newline lx start))

unfoldable pub comment : Lexer → Lexer
unfolding rest find slice starts_with drop_while trim new bytes
comment lx =
    let start = lx.pos in
    let end = find_or (bytes lx.src) start (find b'\n' (rest lx)) in
    let raw = slice lx.src start end in
    record lx {
      comments =
          lx.comments
          ++ record {
            span = new start end;
            text = trim (drop_while (λ c. c == b'#') raw);
            doc = starts_with (codes "##") raw && not (starts_with (codes "###") raw);
            trailing = lx.line_has_token;
          }
            ∷ [];
      pos = end;
    }
