-- ===== src/Lexer/Scan/Punct.antt =====
-- `punct` of crates/grenat_lexer/src/lexer.rs.
use grenat.Prelude.{
  ℕ, ◌+◌, ◌-◌, Bool, true, false, [], ◌∷◌, Option, none, some, ◌==◌, if◌then◌else◌,
}
use grenat.Prelude.Text.{Text}
use grenat.Lexer.Token
use grenat.Lexer.Token.{TokenKind, unexpected_character}
use grenat.Lexer.Scan.{Lexer, rest, bump, error, push}
pub mod Munch

-- Whether `eat` takes `c` from what follows.
abbrev pub next_is : ℕ → Text → Bool
next_is c [] = false
next_is c (d ∷ s) = d == c

abbrev pub second_is : ℕ → Text → Bool
second_is c [] = false
second_is c (d ∷ s) = next_is c s

-- The arms of the match on `c`, with what follows it: the kind, and how many characters `eat` takes.
unfoldable pub kind_at : ℕ → Text → Option (TokenKind × ℕ)
kind_at c s =
    if c == b'('
    then some (Token.lparen, 0)
    else if c == b')'
    then some (Token.rparen, 0)
    else if c == b'['
    then some (Token.lbracket, 0)
    else if c == b']'
    then some (Token.rbracket, 0)
    else if c == b'{'
    then some (Token.lbrace, 0)
    else if c == b'}'
    then some (Token.rbrace, 0)
    else if c == b','
    then some (Token.comma, 0)
    else if c == b'~'
    then some (Token.tilde, 0)
    else if c == b'^'
    then some (Token.caret, 0)
    else if c == b'?'
    then some (Token.question, 0)
    else if c == b'%'
    then some (Token.percent, 0)
    else if c == b'.'
    then (if next_is b'.' s
        then (if second_is b'.' s then some (Token.dot_dot_dot, 2) else some (Token.dot_dot, 1))
        else some (Token.dot, 0))
    else if c == b'&'
    then (if next_is b'&' s
        then (if second_is b'=' s then some (Token.and_and_eq, 2) else some (Token.and_and, 1))
        else if next_is b'.' s
        then some (Token.safe_dot, 1)
        else some (Token.amp, 0))
    else if c == b'|'
    then (if next_is b'|' s
        then (if second_is b'=' s then some (Token.or_or_eq, 2) else some (Token.or_or, 1))
        else some (Token.pipe, 0))
    else if c == b'='
    then (if next_is b'=' s
        then some (Token.eq_eq, 1)
        else if next_is b'~' s
        then some (Token.match_op, 1)
        else if next_is b'>' s
        then some (Token.fat_arrow, 1)
        else some (Token.eq, 0))
    else if c == b'!'
    then (if next_is b'=' s then some (Token.not_eq, 1) else some (Token.bang, 0))
    else if c == b'<'
    then (if next_is b'=' s
        then (if second_is b'>' s then some (Token.cmp, 2) else some (Token.le, 1))
        else if next_is b'<' s
        then some (Token.shl, 1)
        else some (Token.lt, 0))
    else if c == b'>'
    then (if next_is b'=' s
        then some (Token.ge, 1)
        else if next_is b'>' s
        then some (Token.shr, 1)
        else some (Token.gt, 0))
    else if c == b'+'
    then (if next_is b'=' s then some (Token.plus_eq, 1) else some (Token.plus, 0))
    else if c == b'-'
    then (if next_is b'>' s
        then some (Token.arrow, 1)
        else if next_is b'=' s
        then some (Token.minus_eq, 1)
        else some (Token.minus, 0))
    else if c == b'*'
    then (if next_is b'*' s
        then some (Token.star_star, 1)
        else if next_is b'=' s
        then some (Token.star_eq, 1)
        else some (Token.star, 0))
    else if c == b'/'
    then (if next_is b'=' s then some (Token.slash_eq, 1) else some (Token.slash, 0))
    else none

-- What a brace does to the depth inside of an interpolation.
abbrev pub depth_after : Bool → TokenKind → ℕ → ℕ
depth_after true Token.lbrace depth = depth + 1
depth_after true Token.rbrace depth = depth - 1
depth_after _ _ depth = depth

-- At the character `c`.
unfoldable pub punctuation : Lexer → ℕ → Lexer
unfolding bump rest kind_at error push
punctuation lx c =
    let start = lx.pos in
    let after = bump lx in
    elim (kind_at c (rest after)) [
      | none ↦ error after start after.pos (unexpected_character c)
      | some (kind, eaten) ↦
          let end = after.pos + eaten in
          push
            (record after { pos = end; brace_depth = depth_after lx.in_interp kind lx.brace_depth })
            kind start end
    ]
