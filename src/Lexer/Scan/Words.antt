-- ===== src/Lexer/Scan/Words.antt =====
-- Names, symbols and numbers of crates/grenat_lexer/src/lexer.rs.
use grenat.Prelude.{
  ℕ, ◌+◌, ◌-◌, ◌*◌, ◌^◌, Bool, true, false, not, ◌&&◌, ◌||◌, List, [], ◌∷◌, Option, none, some, ltb,
  leb, ◌==◌, if◌then◌else◌,
}
use grenat.Prelude.Text.{Text, is_digit, is_empty, parse_below, text_eq, codes, starts_with}
use grenat.Lexer.Keywords.{def_kw, lookup}
use grenat.Lexer.Token.{
  TokenKind, int, float, symbol, label, ident, const, ivar, kw, dot, safe_dot, colon, colon_colon,
  lparen, lbracket, lbrace, comma, pipe, amp, no_ivar_name, invalid_hexadecimal, out_of_range,
}
use grenat.Lexer.Source.{bytes, from, slice, rfind, run_of, drop_while, nth}
use grenat.Lexer.Scan.{
  Unicode, is_ident_start, is_ident_continue, Lexer, rest, peek, peek_at, is_char, is_some_and,
  bump, eat, error, push, last_kind,
}

-- `is_none()`.
abbrev is_none {ℓ} : {A : Type ℓ} → Option A → Bool
is_none none = true
is_none (some a) = false

unfoldable pub take_ident_chars : Unicode → Lexer → Lexer
unfolding rest run_of is_ident_continue
take_ident_chars u lx = record lx { pos = lx.pos + run_of (is_ident_continue u) (rest lx) }

unfoldable pub take_predicate_suffix : Lexer → Lexer
unfolding peek peek_at bump
take_predicate_suffix lx =
    if (is_char b'?' (peek lx) || is_char b'!' (peek lx)) && not (is_char b'=' (peek_at lx 1))
    then bump lx
    else lx

abbrev method_follows : Option TokenKind → Bool
method_follows (some dot) = true
method_follows (some safe_dot) = true
method_follows (some (kw def_kw)) = true
method_follows _ = false

unfoldable pub at_method_name : Lexer → Bool
unfolding last_kind
at_method_name lx = method_follows (last_kind lx.tokens)

-- The kind of a word that is no label.
unfoldable pub word_kind : Bool → Text → TokenKind
unfolding lookup
word_kind is_const text = elim is_const [
  | true ↦ const text
  | false ↦ elim (lookup text) [ none ↦ ident text | some k ↦ kw k ]
]

-- `macro name…` starting a line.
unfoldable pub at_macro : Unicode → Lexer → Text → Bool
unfolding text_eq rest starts_with drop_while nth is_ident_start
at_macro u lx text =
    text_eq text (codes "macro")
    && not lx.line_has_token
    && not lx.in_interp
    && is_char b' ' (nth 0 (rest lx))
    && is_some_and (is_ident_start u) (nth 0 (drop_while (λ c. c == b' ') (rest lx)))

-- The indentation of the line that `start` is in.
unfoldable pub line_indent : Text → ℕ → ℕ
unfolding rfind slice
line_indent src start = elim (rfind b'\n' (slice src 0 start)) [
  | none ↦ start
  | some i ↦ start - (i + 1)
]

unfoldable pub word_end : Unicode → Lexer → Bool → Lexer
unfolding take_ident_chars lookup slice at_method_name take_predicate_suffix
word_end u lx is_const =
    let taken = take_ident_chars u lx in
    if not is_const && (is_none (lookup (slice lx.src lx.pos taken.pos)) || at_method_name taken)
    then take_predicate_suffix taken
    else taken

unfoldable pub push_word : Unicode → Lexer → (start : ℕ) → (is_const : Bool) → Lexer
unfolding slice peek peek_at bump push at_macro line_indent word_kind
push_word u lx start is_const =
    let text = slice lx.src start lx.pos in
    if not is_const && is_char b':' (peek lx) && not (is_char b':' (peek_at lx 1))
    then push (bump lx) (label text) start (bump lx).pos
    else (let indent =
          if at_macro u lx text then some (line_indent lx.src start) else lx.macro_indent in
        push (record lx { macro_indent = indent }) (word_kind is_const text) start lx.pos)

unfoldable pub word : Unicode → Lexer → Lexer
unfolding peek word_end push_word
word u lx =
    let is_const = is_some_and (λ c. u.is_uppercase c) (peek lx) in
    push_word u (word_end u lx is_const) lx.pos is_const

unfoldable pub instance_variable : Unicode → Lexer → Lexer
unfolding bump take_ident_chars error push slice
instance_variable u lx =
    let start = lx.pos in
    let after_at = bump lx in
    let taken = take_ident_chars u after_at in
    if taken.pos == after_at.pos
    then error taken start taken.pos no_ivar_name
    else push taken (ivar (slice lx.src after_at.pos taken.pos)) start taken.pos

abbrev pub operators : List Text
operators =
    codes "<=>"
    ∷ codes "**"
    ∷ codes "=="
    ∷ codes "!="
    ∷ codes "<="
    ∷ codes ">="
    ∷ codes "<<"
    ∷ codes ">>"
    ∷ codes "+"
    ∷ codes "-"
    ∷ codes "*"
    ∷ codes "/"
    ∷ codes "%"
    ∷ codes "<"
    ∷ codes ">"
    ∷ codes "&"
    ∷ codes "|"
    ∷ codes "^"
    ∷ []

abbrev ends_term : Option ℕ → Bool
ends_term none = true
ends_term (some c) = c == b')' || c == b',' || c == b']' || c == b'}' || c == b'\n' || c == b'\r'

-- `OPERATORS.iter().find(…)`.
unfoldable pub operator_among : List Text → Text → Option Text
unfolding starts_with from bytes nth
operator_among [] s = none
operator_among (op ∷ ops) s =
    let later = operator_among ops s in
    if starts_with op s && ends_term (nth 0 (from (bytes op) s)) then some op else later

unfoldable pub operator_symbol : Lexer → Option Text
unfolding rest operator_among
operator_symbol lx = operator_among operators (rest lx)

abbrev opens_term : Option TokenKind → Bool
opens_term none = true
opens_term (some lparen) = true
opens_term (some lbracket) = true
opens_term (some lbrace) = true
opens_term (some comma) = true
opens_term (some pipe) = true
opens_term (some amp) = true
opens_term (some _) = false

-- After one `:`, where no second follows.
unfoldable pub symbol_or_colon : Unicode → Lexer → (start : ℕ) → Bool → Lexer
unfolding peek is_ident_start take_ident_chars take_predicate_suffix push slice operator_symbol
    bytes
symbol_or_colon u lx start at_term =
    if is_some_and (is_ident_start u) (peek lx) && at_term
    then (let taken = take_predicate_suffix (take_ident_chars u lx) in
        push taken (symbol (slice lx.src lx.pos taken.pos)) start taken.pos)
    else elim (operator_symbol lx) [
      | none ↦ push lx colon start lx.pos
      | some op ↦
          let after = lx.pos + bytes op in
          if at_term
          then push (record lx { pos = after }) (symbol op) start after
          else push lx colon start lx.pos
    ]

unfoldable pub colons : Unicode → Lexer → Lexer
unfolding bump eat push last_kind symbol_or_colon
colons u lx =
    let start = lx.pos in
    let (after, twice) = eat (bump lx) b':' in
    if twice
    then push after colon_colon start after.pos
    else symbol_or_colon u after start (lx.space_before || opens_term (last_kind lx.tokens))

abbrev pub i64_bound : ℕ
i64_bound = 2 ^ 63

unfoldable pub is_hexdigit : ℕ → Bool
unfolding is_digit
is_hexdigit c = is_digit c || (leb b'a' c && leb c b'f') || (leb b'A' c && leb c b'F')

-- `replace('_', "")`.
unfoldable pub without_underscores : Text → Text
without_underscores [] = []
without_underscores (c ∷ s) =
    let more = without_underscores s in if c == b'_' then more else c ∷ more

abbrev hex_digit : ℕ → ℕ
hex_digit c = if leb c b'9' then c - b'0' else if leb b'a' c then c - b'a' + 10 else c - b'A' + 10

unfoldable pub hex_value : ℕ → Text → ℕ
hex_value acc [] = acc
hex_value acc (c ∷ s) = hex_value (acc * 16 + hex_digit c) s

-- `from_str_radix(_, 16)` of hexadecimal digits, below a bound.
unfoldable pub hex_below : ℕ → Text → Option ℕ
unfolding hex_value
hex_below bound s =
    if not (is_empty s) && ltb (hex_value 0 s) bound then some (hex_value 0 s) else none

unfoldable pub hexadecimal : Lexer → Lexer
unfolding rest from run_of is_hexdigit slice without_underscores hex_below push error
hexadecimal lx =
    let start = lx.pos in
    let digits_start = start + 2 in
    let end = digits_start + run_of (λ c. is_hexdigit c || c == b'_') (from digits_start lx.src) in
    let taken : Lexer = record lx { pos = end } in
    elim (hex_below i64_bound (without_underscores (slice lx.src digits_start end))) [
      | some n ↦ push taken (int n) start end
      | none ↦ error taken start end invalid_hexadecimal
    ]

-- `digits`.
unfoldable pub skip_digits : Lexer → Lexer
unfolding rest run_of is_digit
skip_digits lx = record lx { pos = lx.pos + run_of (λ c. is_digit c || c == b'_') (rest lx) }

unfoldable pub fraction : Lexer → Lexer × Bool
unfolding peek peek_at is_digit bump skip_digits
fraction lx =
    if is_char b'.' (peek lx) && is_some_and is_digit (peek_at lx 1)
    then (skip_digits (bump lx), true)
    else (lx, false)

unfoldable pub exponent : Lexer → Lexer × Bool
unfolding peek peek_at is_digit skip_digits
exponent lx =
    let signed = is_char b'+' (peek_at lx 1) || is_char b'-' (peek_at lx 1) in
    let digit_at = if signed then 2 else 1 in
    if (is_char b'e' (peek lx) || is_char b'E' (peek lx))
      && is_some_and is_digit (peek_at lx digit_at)
    then (skip_digits (record lx { pos = lx.pos + digit_at }), true)
    else (lx, false)

abbrev pub number_kind : Unicode → Bool → Text → Option TokenKind
number_kind u true text = elim (u.parse_f64 text) [ none ↦ none | some bits ↦ some (float bits) ]
number_kind u false text = elim (parse_below i64_bound text) [ none ↦ none | some n ↦ some (int n) ]

unfoldable pub decimal : Unicode → Lexer → Lexer
unfolding skip_digits fraction exponent slice without_underscores parse_below push error
decimal u lx =
    let start = lx.pos in
    let (whole, is_fraction) = fraction (skip_digits lx) in
    let (taken, is_exponent) = exponent whole in
    let text = without_underscores (slice lx.src start taken.pos) in
    elim (number_kind u (is_fraction || is_exponent) text) [
      | some kind ↦ push taken kind start taken.pos
      | none ↦ error taken start taken.pos out_of_range
    ]

unfoldable pub number : Unicode → Lexer → Lexer
unfolding rest starts_with hexadecimal decimal
number u lx = if starts_with (codes "0x") (rest lx) then hexadecimal lx else decimal u lx
