-- ===== src/Ssh/Quote.antt =====
-- crates/grenat_ssh/src/quote.rs: an argument list as one line for a POSIX shell.
use grenat.Prelude.{
  ℕ, Bool, true, false, not, ◌&&◌, ◌||◌, List, [], ◌∷◌, ◌++◌, map, leb, ◌==◌, if◌then◌else◌,
}
use grenat.Prelude.Results.{Result, ok, err}
use grenat.Prelude.Text.{Text, has, is_empty, is_digit, join_with}
pub mod Shell
pub mod Words

-- `=` and `~` are not plain.
unfoldable pub is_plain : ℕ → Bool
unfolding is_digit
is_plain c =
    is_digit c
    || (leb b'a' c && leb c b'z')
    || (leb b'A' c && leb c b'Z')
    || c == b'_'
    || c == b'-'
    || c == b'.'
    || c == b'/'
    || c == b','
    || c == b':'
    || c == b'@'
    || c == b'%'
    || c == b'+'

-- `chars().all(is_plain)`.
unfoldable pub all_plain : Text → Bool
all_plain [] = true
all_plain (c ∷ s) = is_plain c && all_plain s

-- `replace('\'', r"'\''")`.
unfoldable pub escape_quotes : Text → Text
escape_quotes [] = []
escape_quotes (c ∷ s) =
    let more = escape_quotes s in
    if c == b'\'' then b'\'' ∷ b'\\' ∷ b'\'' ∷ b'\'' ∷ more else c ∷ more

unfoldable pub quote : Text → Text
quote arg =
    if not (is_empty arg) && all_plain arg then arg else b'\'' ∷ (escape_quotes arg ++ b'\'' ∷ [])

pub data CommandError : Type 0 where
  empty_command nul_byte : CommandError

-- Whether an argument holds a NUL byte, at which the loop stops.
unfoldable pub any_nul : List Text → Bool
unfolding has
any_nul [] = false
any_nul (arg ∷ argv) = has 0 arg || any_nul argv

unfoldable pub command_line : List Text → Result CommandError Text
command_line [] = err empty_command
command_line (arg ∷ argv) =
    if any_nul (arg ∷ argv) then err nul_byte else ok (join_with b' ' (map quote (arg ∷ argv)))
