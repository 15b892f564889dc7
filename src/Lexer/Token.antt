-- ===== src/Lexer/Token.antt =====
-- Tokens, of crates/grenat_lexer/src/token.rs. Numbers are not negative: a minus is a token of its own.
use grenat.Prelude.{ℕ, Bool, true, false, ◌&&◌, List, [], ◌∷◌, ◌++◌, if◌then◌else◌}
use grenat.Prelude.Text.{Text, codes}
use grenat.Prelude.Decimal.{print}
use grenat.Lexer.Keywords.{Span, Keyword, as_str}

-- A token inside a string is a `cons` of its list; `float` keeps the 64 bits of the number.
mutual
  pub data TokenKind : Type 0 where
    int float : ℕ → TokenKind
    str : StrParts → TokenKind
    symbol label ident const ivar macro_body : Text → TokenKind
    kw : Keyword → TokenKind
    lparen rparen lbracket rbracket lbrace rbrace comma dot safe_dot dot_dot : TokenKind
    dot_dot_dot colon colon_colon question pipe tilde arrow fat_arrow plus : TokenKind
    minus star star_star slash percent eq_eq not_eq lt le gt ge cmp match_op : TokenKind
    and_and or_or bang amp caret shl shr eq plus_eq minus_eq star_eq slash_eq : TokenKind
    or_or_eq and_and_eq : TokenKind
    newline eof : TokenKind

  -- `Vec<StrPart>`.
  pub data StrParts : Type 0 where
    no_parts : StrParts
    lit_then : Text → StrParts → StrParts
    interp_then : Tokens → Span → StrParts → StrParts

  -- `Vec<Token>`, inside a string.
  pub data Tokens : Type 0 where
    no_tokens : Tokens
    token_then : TokenKind → Span → Bool → Tokens → Tokens

pub record Token : Type 0 where
  pub kind : TokenKind
  pub span : Span
  pub space_before : Bool

pub data StrPart : Type 0 where
  lit : Text → StrPart
  interp : List Token → Span → StrPart

unfoldable pub pack_tokens : List Token → Tokens
pack_tokens [] = no_tokens
pack_tokens (t ∷ ts) = token_then t.kind t.span t.space_before (pack_tokens ts)

unfoldable pub pack : List StrPart → StrParts
unfolding pack_tokens
pack [] = no_parts
pack (lit s ∷ parts) = lit_then s (pack parts)
pack (interp tokens span ∷ parts) = interp_then (pack_tokens tokens) span (pack parts)

pub record Comment : Type 0 where
  pub span : Span
  pub text : Text
  pub doc : Bool
  pub trailing : Bool

-- One constructor for each message.
pub data Message : Type 0 where
  unterminated_string unterminated_interpolation unclosed_unicode invalid_unicode : Message
  unclosed_heredoc_name no_ivar_name invalid_hexadecimal out_of_range macro_without_end : Message
  unterminated_heredoc : Text → Message
  unexpected_character : ℕ → Message

pub record LexError : Type 0 where
  pub span : Span
  pub message : Message

pub record Lexed : Type 0 where
  pub tokens : List Token
  pub comments : List Comment
  pub errors : List LexError

unfoldable pub punct : TokenKind → Text
punct lparen = codes "("
punct rparen = codes ")"
punct lbracket = codes "["
punct rbracket = codes "]"
punct lbrace = codes "{"
punct rbrace = codes "}"
punct comma = codes ","
punct dot = codes "."
punct safe_dot = codes "&."
punct dot_dot = codes ".."
punct dot_dot_dot = codes "..."
punct colon = codes ":"
punct colon_colon = codes "::"
punct question = codes "?"
punct pipe = codes "|"
punct tilde = codes "~"
punct arrow = codes "->"
punct fat_arrow = codes "=>"
punct plus = codes "+"
punct minus = codes "-"
punct star = codes "*"
punct star_star = codes "**"
punct slash = codes "/"
punct percent = codes "%"
punct eq_eq = codes "=="
punct not_eq = codes "!="
punct lt = codes "<"
punct le = codes "<="
punct gt = codes ">"
punct ge = codes ">="
punct cmp = codes "<=>"
punct match_op = codes "=~"
punct and_and = codes "&&"
punct or_or = codes "||"
punct bang = codes "!"
punct amp = codes "&"
punct caret = codes "^"
punct shl = codes "<<"
punct shr = codes ">>"
punct eq = codes "="
punct plus_eq = codes "+="
punct minus_eq = codes "-="
punct star_eq = codes "*="
punct slash_eq = codes "/="
punct or_or_eq = codes "||="
punct and_and_eq = codes "&&="
punct _ = codes "?"

-- What an error message calls a token; how a float is written is a parameter.
unfoldable pub describe : (ℕ → Text) → TokenKind → Text
unfolding punct print as_str
describe show (int n) = codes "number `" ++ (print n ++ codes "`")
describe show (float bits) = codes "number `" ++ (show bits ++ codes "`")
describe show (str parts) = codes "string"
describe show (symbol s) = codes "symbol `:" ++ (s ++ codes "`")
describe show (label s) = codes "`" ++ (s ++ codes ":`")
describe show (ident s) = codes "identifier `" ++ (s ++ codes "`")
describe show (const s) = codes "constant `" ++ (s ++ codes "`")
describe show (ivar s) = codes "`@" ++ (s ++ codes "`")
describe show (kw k) = codes "keyword `" ++ (as_str k ++ codes "`")
describe show (macro_body s) = codes "macro body"
describe show newline = codes "end of line"
describe show eof = codes "end of file"
describe show other = codes "`" ++ (punct other ++ codes "`")

abbrev pub is_newline : TokenKind → Bool
is_newline newline = true
is_newline _ = false

-- `Dot | SafeDot`.
abbrev pub is_dot : TokenKind → Bool
is_dot dot = true
is_dot safe_dot = true
is_dot _ = false

-- The loop of `join_continuations`; whether the next token is a dot decides on a newline.
abbrev pub next_is_dot : List Token → Bool
next_is_dot [] = false
next_is_dot (t ∷ ts) = is_dot t.kind

unfoldable pub join_continuations : List Token → List Token
join_continuations [] = []
join_continuations (t ∷ ts) =
    let rest = join_continuations ts in
    if is_newline t.kind && next_is_dot ts then rest else t ∷ rest
