-- ===== src/Lexer/Strings.antt =====
-- Strings of crates/grenat_lexer/src/strings.rs: escapes and interpolations. The machine that lexes an
-- interpolation is a parameter, `sub`; `none` says that the fuel is at its end.
use grenat.Prelude.{
  ℕ, zero, suc, ◌+◌, ◌-◌, ◌^◌, Bool, true, false, not, ◌&&◌, ◌||◌, List, [], ◌∷◌, ◌++◌, Option,
  none, some, ltb, leb, ◌==◌, if◌then◌else◌,
}
use grenat.Prelude.Options.{◌>>=◌}
use grenat.Prelude.Text.{Text, is_empty}
use grenat.Lexer.Keywords.{Span, new}
use grenat.Lexer.Token.{
  TokenKind, eof, Token, StrPart, lit, interp, unterminated_string, unterminated_interpolation,
  unclosed_unicode, invalid_unicode, join_continuations,
}
use grenat.Lexer.Source.{bytes, from, slice, line_end}
use grenat.Lexer.Scan.{Lexer, fresh, rest, peek, peek_at, is_char, bump, eat, error}
use grenat.Lexer.Scan.Words.{is_hexdigit, hex_below}
pub mod Heredocs
pub mod Escapes
pub mod Steps
pub mod Parts

pub data Term : Type 0 where
  quote end_at : ℕ → Term

-- What a string has been read to: the parts so far, and the text of the next.
pub record Reading : Type 0 where
  pub lexer : Lexer
  pub parts : List StrPart
  pub buf : Text

-- The digits of `\u`: four at most without braces.
unfoldable pub hex_run : Bool → (taken : ℕ) → Text → ℕ
unfolding is_hexdigit
hex_run braced taken [] = taken
hex_run braced taken (c ∷ s) =
    let more = hex_run braced (taken + 1) s in
    if is_hexdigit c && (braced || ltb taken 4) then more else taken

-- `char::from_u32`.
unfoldable pub is_scalar : ℕ → Bool
is_scalar n = ltb n 0x110000 && not (leb 0xd800 n && ltb n 0xe000)

unfoldable pub close_unicode : Lexer → Bool → (start : ℕ) → Lexer
unfolding eat error
close_unicode lx braced start = elim braced [
  | false ↦ lx
  | true ↦
      let (after, closed) = eat lx b'}' in
      if closed then after else error after start after.pos unclosed_unicode
]

unfoldable pub push_unicode : Lexer → Text → Text → (start : ℕ) → Lexer × Text
unfolding hex_below is_scalar error
push_unicode lx buf hex start = elim (hex_below (2 ^ 32) hex) [
  | none ↦ (error lx start lx.pos invalid_unicode, buf)
  | some n ↦
      if is_scalar n then (lx, buf ++ n ∷ []) else (error lx start lx.pos invalid_unicode, buf)
]

unfoldable pub unicode_escape : Lexer → Text → (start : ℕ) → Lexer × Text
unfolding eat hex_run rest slice close_unicode push_unicode
unicode_escape lx buf start =
    let (opened, braced) = eat lx b'{' in
    let taken : Lexer = record opened { pos = opened.pos + hex_run braced 0 (rest opened) } in
    push_unicode (close_unicode taken braced start) buf (slice lx.src opened.pos taken.pos) start

-- The characters that one after the backslash stands for.
unfoldable pub escaped : (full : Bool) → ℕ → Text
escaped false c = if c == b'\\' || c == b'\'' then c ∷ [] else b'\\' ∷ c ∷ []
escaped true c =
    if c == b'n'
    then 10 ∷ []
    else if c == b't'
    then 9 ∷ []
    else if c == b'r'
    then 13 ∷ []
    else if c == b'0'
    then 0 ∷ []
    else if c == b'e'
    then 27 ∷ []
    else if c == b's'
    then b' ' ∷ []
    else c ∷ []

unfoldable pub escape : Lexer → Text → (full : Bool) → Lexer × Text
unfolding bump peek unicode_escape escaped
escape lx buf full =
    let start = lx.pos in
    let opened = bump lx in
    elim (peek opened) [
      | none ↦ (opened, buf)
      | some c ↦
          if full && c == b'u'
          then unicode_escape (bump opened) buf start
          else (bump opened, buf ++ escaped full c)
    ]

abbrev pub flush : List StrPart → Text → List StrPart
flush parts [] = parts
flush parts (c ∷ s) = parts ++ lit (c ∷ s) ∷ []

-- What is made of the machine `done` that has lexed the interpolation that opens at `open_at`.
unfoldable pub close_interpolation :
    Lexer → List StrPart → Lexer → (open_at : ℕ) → Lexer × List StrPart × Bool
unfolding peek line_end error new join_continuations
close_interpolation lx parts done open_at =
    if is_char b'}' (peek done)
    then (let eof_token : Token = record {
      kind = eof;
      span = new done.pos done.pos;
      space_before = false;
    } in
        let tokens = join_continuations done.tokens ++ eof_token ∷ [] in
        (
          record lx { errors = lx.errors ++ done.errors; pos = done.pos + 1 },
          parts ++ interp tokens (new open_at (done.pos + 1)) ∷ [],
          true,
        ))
    else (let end = line_end lx.src open_at in
        (record (error lx open_at end unterminated_interpolation) { pos = end }, parts, false))

abbrev pub is_over : Term → ℕ → Bool
is_over (quote q) pos = false
is_over (end_at end) pos = leb end pos

abbrev pub is_quote : Term → ℕ → Bool
is_quote (quote q) c = c == q
is_quote (end_at end) c = false

module _ (sub : Lexer → Option Lexer) where
  unfoldable pub interpolation : Lexer → List StrPart → Option (Lexer × List StrPart × Bool)
  unfolding fresh close_interpolation
  interpolation lx parts = do
    done ← sub (fresh lx.src (lx.pos + 2) true)
    some (close_interpolation lx parts done lx.pos)

  -- At the character `c`: what was read, and whether there may be more.
  unfoldable pub string_char : Term → (interpolate : Bool) → Reading → ℕ → Option (Reading × Bool)
  unfolding bump escape peek_at interpolation
  string_char term interpolate r c =
      let lx = r.lexer in
      if is_quote term c
      then some (record r { lexer = bump lx }, false)
      else if c == b'\\'
      then (let (lx', buf) = escape lx r.buf interpolate in
          some (record r { lexer = lx'; buf = buf }, true))
      else if interpolate && c == b'#' && is_char b'{' (peek_at lx 1)
      then (do
        (lx', parts, more) ← interpolation lx (flush r.parts r.buf)
        some (record { lexer = lx'; parts = parts; buf = [] }, more))
      else some (record r { lexer = bump lx; buf = r.buf ++ c ∷ [] }, true)

  -- The body of the loop of `string_parts`.
  unfoldable pub string_step :
      Term → (interpolate : Bool) → (open_at : ℕ) → Reading → Option (Reading × Bool)
  unfolding peek line_end error string_char
  string_step term interpolate open_at r =
      let lx = r.lexer in
      if is_over term lx.pos then some (r, false) else elim (peek lx) [
        | none ↦
            let failed = error lx open_at lx.pos unterminated_string in
            some (record r { lexer = record failed { pos = line_end lx.src open_at } }, false)
        | some c ↦ string_char term interpolate r c
      ]

  unfoldable pub string_loop :
      (fuel : ℕ) → Term → (interpolate : Bool) → (open_at : ℕ) → Reading → Option Reading
  string_loop zero term interpolate open_at r = none
  string_loop (suc fuel) term interpolate open_at r = do
    (r', more) ← string_step term interpolate open_at r
    elim more [ true ↦ string_loop fuel term interpolate open_at r' | false ↦ some r' ]

  unfoldable pub string_parts :
      Term → (interpolate : Bool) → (open_at : ℕ) → Lexer → Option (Lexer × List StrPart)
  unfolding string_loop bytes
  string_parts term interpolate open_at lx = do
    r ←
        string_loop (bytes lx.src + 1) term interpolate open_at
          (record { lexer = lx; parts = []; buf = [] })
    some (r.lexer, flush r.parts r.buf)
