-- ===== src/Lexer/Samples.antt =====
-- Runs of the lexer, and the theorem at an input.
use grenat.Prelude.{◌≡◌, refl, ◌&&◌, ◌||◌, List, [], ◌∷◌, none, some, leb, arith}
use grenat.Prelude.Options.{Returns}
use grenat.Prelude.Text.{
  Text, codes, parse_below, is_digit, all_digits, digits_value, text_eq, starts_with, is_whitespace,
  trim, trim_start,
}
use grenat.Lexer.Keywords.{def_kw}
use grenat.Lexer.Token
use grenat.Lexer.Token.{TokenKind, StrParts, Token, Lexed}
use grenat.Lexer.Scan.{Unicode}
use grenat.Lexer.Scan.Punct.Munch.{IsLongest, kind_at-IsLongest}
use grenat.Lexer.Run.Result.{IsLexed, lex-IsLexed}
use grenat.Lexer.Token.{pack_tokens, pack, join_continuations}
use grenat.Lexer.Source.{
  width, bytes, from, upto, slice, find, rfind, line_end, run_of, drop_while, nth,
}
use grenat.Lexer.Scan.{
  is_alphanumeric, is_ident_start, is_ident_continue, fresh, rest, peek, peek_at, bump, eat, error,
  push, last_kind, blanks, skip_blanks, push_newline, macro_end, read_macro, resume, take_macro,
  end_line, comment,
}
use grenat.Lexer.Scan.Words.{
  take_ident_chars, take_predicate_suffix, at_method_name, word_kind, at_macro, line_indent,
  word_end, push_word, word, instance_variable, operator_among, operator_symbol, symbol_or_colon,
  colons, is_hexdigit, without_underscores, hex_value, hex_below, hexadecimal, skip_digits,
  fraction, exponent, decimal, number,
}
use grenat.Lexer.Scan.Punct.{kind_at, punctuation}
use grenat.Lexer.Strings.{
  hex_run, is_scalar, close_unicode, push_unicode, unicode_escape, escaped, escape,
  close_interpolation, interpolation, string_char, string_step, string_loop, string_parts,
}
use grenat.Lexer.Strings.Heredocs.{
  indent_of, at_heredoc, body_lines, least_indent, join_part, join_parts, heredoc_name, body_start,
  read_lines, heredoc,
}
use grenat.Lexer.Run.{scan_plain, quoted, scan_char, at_token, run_step, run_loop, run, lex}
use grenat.Lexer.Keywords.{new, lookup, first_of, as_str}

-- The letters and digits of ASCII; a float is its text's length.
abbrev ascii : Unicode
ascii = record {
  is_alphabetic = λ c. (leb b'a' c && leb c b'z') || (leb b'A' c && leb c b'Z');
  is_numeric = λ c. leb b'0' c && leb c b'9';
  is_uppercase = λ c. leb b'A' c && leb c b'Z';
  parse_f64 = λ s. some 7;
}

abbrev kinds_of : List Token → List TokenKind
kinds_of [] = []
kinds_of (t ∷ ts) = t.kind ∷ kinds_of ts

abbrev lexed : Text → List TokenKind
lexed s = elim (lex ascii s) [ none ↦ [] | some l ↦ kinds_of l.tokens ]

-- A line goes on at a dot; a heredoc's body is taken out of the lines; and a string that spans lines past
-- the heredoc of its own line is lexed again from there.
heredocs :
    (lexed (codes "def f?\n.b :c")
      ≡ Token.kw def_kw
        ∷ Token.ident (codes "f?")
        ∷ Token.dot
        ∷ Token.ident (codes "b")
        ∷ Token.symbol (codes "c")
        ∷ Token.eof
        ∷ [])
    × (lexed (codes "<<~A + 0x1f\n    hi\n  y\nA\nw")
        ≡ Token.str (Token.lit_then (codes "  hi\ny\n") Token.no_parts)
          ∷ Token.plus
          ∷ Token.int 31
          ∷ Token.newline
          ∷ Token.ident (codes "w")
          ∷ Token.eof
          ∷ [])
    × (lexed (codes "<<~A + \"f\nA\nb\"\nz")
        ≡ Token.str Token.no_parts
          ∷ Token.plus
          ∷ Token.str (Token.lit_then (codes "f\nA\nb") Token.no_parts)
          ∷ Token.newline
          ∷ Token.ident (codes "b")
          ∷ Token.str (Token.lit_then (codes "\nz") Token.no_parts)
          ∷ Token.newline
          ∷ Token.ident (codes "z")
          ∷ Token.eof
          ∷ [])
unfolding pack_tokens pack join_continuations width bytes from upto slice find rfind line_end run_of
    drop_while nth is_alphanumeric is_ident_start is_ident_continue fresh rest peek peek_at bump eat
    error push last_kind blanks skip_blanks push_newline macro_end read_macro resume take_macro
    end_line comment take_ident_chars take_predicate_suffix at_method_name word_kind at_macro
    line_indent word_end push_word word instance_variable operator_among operator_symbol
    symbol_or_colon colons is_hexdigit without_underscores hex_value hex_below hexadecimal
    skip_digits fraction exponent decimal number kind_at punctuation hex_run is_scalar close_unicode
    push_unicode unicode_escape escaped escape close_interpolation interpolation string_char
    string_step string_loop string_parts at_heredoc body_lines least_indent join_part join_parts
    heredoc_name body_start read_lines heredoc scan_plain quoted scan_char at_token run_step
    run_loop run lex new lookup first_of as_str is_digit all_digits digits_value text_eq starts_with
    is_whitespace trim trim_start parse_below indent_of
heredocs = (refl, refl, refl)

abbrev src : Text
src = codes "x = <<~A\n  hi\nA\n  .b 0x1f"

lex-IsLexed_example : Returns (IsLexed src) (lex ascii src)
unfolding bytes width
lex-IsLexed_example = lex-IsLexed ascii src (omega arith)

kind_at-IsLongest_example : IsLongest (codes "<=>x") (kind_at b'<' (codes "=>x"))
kind_at-IsLongest_example = kind_at-IsLongest b'<' (codes "=>x")
