-- ===== src/Ssh/Quote/Shell.antt =====
-- What a POSIX shell makes of a line, as far as it only splits words and takes off quotes. A line that asks for
-- more is refused: one with a character outside of quotes that a shell may act on, and one that begins with
-- a reserved word. Aliases are not considered.
use grenat.Prelude.{Bool, false, ◌||◌, List, [], ◌∷◌, ◌++◌, Option, none, some, ◌==◌, if◌then◌else◌}
use grenat.Prelude.Text.{Text, codes, has, text_eq}

-- Operators, expansions, patterns, comments, assignments, braces, and blanks but for the space.
abbrev pub special : Text
special = codes "|&;<>()$`*?[]{}!#~=^\"\t\n\r"

-- A word that a shell reads as syntax where a command begins.
abbrev pub reserved : List Text
reserved =
    codes "if"
    ∷ codes "then"
    ∷ codes "else"
    ∷ codes "elif"
    ∷ codes "fi"
    ∷ codes "do"
    ∷ codes "done"
    ∷ codes "case"
    ∷ codes "esac"
    ∷ codes "while"
    ∷ codes "until"
    ∷ codes "for"
    ∷ codes "in"
    ∷ []

unfoldable pub is_one_of : List Text → Text → Bool
unfolding text_eq
is_one_of [] w = false
is_one_of (v ∷ ws) w = text_eq v w || is_one_of ws w

-- Between words; in a word; in single quotes; after a backslash.
pub data Mode : Type 0 where
  between bare quoted escaped : Mode

abbrev pub with_word : Text → Option (List Text) → Option (List Text)
with_word w none = none
with_word w (some ws) = some (w ∷ ws)

-- The words that a shell reads, where `w` is what it has of the word it is in.
unfoldable pub scan : Mode → (w : Text) → Text → Option (List Text)
scan between w [] = some []
scan between w (c ∷ s) =
    let next = scan between [] s in
    let quote = scan quoted [] s in
    let slash = scan escaped [] s in
    let word = scan bare (c ∷ []) s in
    if c == b' '
    then next
    else if c == b'\''
    then quote
    else if c == b'\\'
    then slash
    else if has c special
    then none
    else word
scan bare w [] = some (w ∷ [])
scan bare w (c ∷ s) =
    let next = with_word w (scan between [] s) in
    let quote = scan quoted w s in
    let slash = scan escaped w s in
    let word = scan bare (w ++ c ∷ []) s in
    if c == b' '
    then next
    else if c == b'\''
    then quote
    else if c == b'\\'
    then slash
    else if has c special
    then none
    else word
scan quoted w [] = none
scan quoted w (c ∷ s) =
    let word = scan bare w s in
    let more = scan quoted (w ++ c ∷ []) s in if c == b'\'' then word else more
scan escaped w [] = none
scan escaped w (c ∷ s) = scan bare (w ++ c ∷ []) s

-- The line up to the first space, as it is written: a reserved word with a quote in it is none.
unfoldable pub first_written : Text → Text
first_written [] = []
first_written (c ∷ s) = let rest = first_written s in if c == b' ' then [] else c ∷ rest

unfoldable pub shell_words : Text → Option (List Text)
shell_words line = if is_one_of reserved (first_written line) then none else scan between [] line
