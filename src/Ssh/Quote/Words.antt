-- ===== src/Ssh/Quote/Words.antt =====
-- A shell reads back the arguments from the line.
use grenat.Prelude.{◌≡◌, ◌≢◌, true, false, List, [], ◌∷◌, Option, none, some, if◌then◌else◌}
use grenat.Prelude.Results.{Result, ok, err}
use grenat.Prelude.Text.{Text}
use grenat.Ssh.Quote.{is_plain, all_plain, CommandError, empty_command, nul_byte, any_nul}
use grenat.Ssh.Quote.Shell.{shell_words, reserved, is_one_of}

-- No character of the text is plain.
abbrev NonePlain : Text → Type 0
NonePlain [] = Unit
NonePlain (d ∷ ds) = (is_plain d ≡ false) × NonePlain ds

abbrev AllPlain : List Text → Type 0
AllPlain [] = Unit
AllPlain (w ∷ ws) = (all_plain w ≡ true) × AllPlain ws

-- What a shell reads in place of the arguments: they are read back, unless the first is a reserved word.
abbrev pub read_back : List Text → Option (List Text)
read_back [] = none
read_back (arg ∷ argv) = if is_one_of reserved arg then none else some (arg ∷ argv)

-- What is made of the arguments: a line and what a shell reads in it, or the reason why there is none.
abbrev pub IsLine : List Text → Result CommandError Text → Type 0
IsLine argv (ok line) = (shell_words line ≡ read_back argv) × (argv ≢ []) × (any_nul argv ≡ false)
IsLine argv (err empty_command) = argv ≡ []
IsLine argv (err nul_byte) = any_nul argv ≡ true
