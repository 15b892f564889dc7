-- ===== src/Ssh/Tests.antt =====
-- Command lines, and the theorem at an input.
use grenat.Prelude.{◌≡◌, refl, List, [], ◌∷◌}
use grenat.Prelude.Results.{ok}
use grenat.Prelude.Text.{Text, codes, has, is_digit, join_with}
use grenat.Ssh.Quote.{is_plain, all_plain, escape_quotes, quote, any_nul, command_line}

abbrev hostile : List Text
hostile = codes "echo" ∷ codes "it's; rm -rf /" ∷ codes "" ∷ codes "A=b" ∷ []

hostile_line : command_line hostile ≡ ok (codes "echo 'it'\\''s; rm -rf /' '' 'A=b'")
unfolding command_line any_nul has quote all_plain is_plain is_digit escape_quotes join_with
hostile_line = refl
