-- ===== src/Lexer/Tests.antt =====
-- Runs of the keywords, and the theorems at inputs.
use grenat.Prelude.{◌≡◌, refl, ◌↔◌, none, some}
use grenat.Prelude.Text.{codes, text_eq}
use grenat.Lexer.Keywords.{Span, lookup, first_of, as_str, while_kw}
use grenat.Lexer.Keywords.Readings.{lookup_iff}

lookup_iff_example : (lookup (codes "while") ≡ some while_kw) ↔ (as_str while_kw ≡ codes "while")
lookup_iff_example = lookup_iff (codes "while") while_kw

not_keyword : lookup (codes "While") ≡ none
unfolding lookup first_of as_str text_eq
not_keyword = refl

abbrev s : Span
s = record { start = 3; end = 5 }

abbrev t : Span
t = record { start = 4; end = 9 }
