-- ===== src/Lexer/Source.antt =====
-- A source text by the positions of its bytes, as `str` has them. A character takes as many bytes as
-- UTF-8 gives it; a position inside of one, where the code would panic, counts as the next one's.
use grenat.Prelude.{
  ℕ, zero, suc, ◌+◌, ◌-◌, ◌*◌, Bool, true, false, not, ◌&&◌, ◌||◌, List, [], ◌∷◌, ◌++◌, Option,
  none, some, ltb, leb, ◌==◌, if◌then◌else◌,
}
use grenat.Prelude.Text.{Text}
pub mod Bounds

-- `char::len_utf8`.
unfoldable pub width : ℕ → ℕ
width c = if ltb c 0x80 then 1 else if ltb c 0x800 then 2 else if ltb c 0x10000 then 3 else 4

-- `str::len`.
unfoldable pub bytes : Text → ℕ
unfolding width
bytes [] = 0
bytes (c ∷ s) = width c + bytes s

-- `&s[p..]`.
unfoldable pub from : ℕ → Text → Text
unfolding width
from p [] = []
from p (c ∷ s) = let rest = from (p - width c) s in if p == 0 then c ∷ s else rest

-- `&s[..p]`.
unfoldable pub upto : ℕ → Text → Text
unfolding width
upto p [] = []
upto p (c ∷ s) = let rest = upto (p - width c) s in if p == 0 then [] else c ∷ rest

-- `&s[a..b]`.
unfoldable pub slice : Text → ℕ → ℕ → Text
unfolding from upto
slice s a b = upto (b - a) (from a s)

-- `find(char)`.
unfoldable pub find : ℕ → Text → Option ℕ
unfolding width
find c [] = none
find c (d ∷ s) =
    let later = find c s in
    if d == c then some 0 else elim later [ none ↦ none | some i ↦ some (width d + i) ]

-- `rfind(char)`.
unfoldable pub rfind : ℕ → Text → Option ℕ
unfolding width
rfind c [] = none
rfind c (d ∷ s) = elim (rfind c s) [
  | some i ↦ some (width d + i)
  | none ↦ if d == c then some 0 else none
]

abbrev pub find_or : (else_at at : ℕ) → Option ℕ → ℕ
find_or else_at at none = else_at
find_or else_at at (some i) = at + i

-- Where the line that `p` is in ends.
unfoldable pub line_end : Text → ℕ → ℕ
unfolding find from bytes
line_end src p = find_or (bytes src) p (find b'\n' (from p src))

-- How far the characters that pass a test reach.
unfoldable pub run_of : (ℕ → Bool) → Text → ℕ
unfolding width
run_of test [] = 0
run_of test (c ∷ s) = let rest = run_of test s in if test c then width c + rest else 0

-- `trim_start_matches`.
unfoldable pub drop_while : (ℕ → Bool) → Text → Text
drop_while test [] = []
drop_while test (c ∷ s) = let rest = drop_while test s in if test c then rest else c ∷ s

-- `chars().nth(n)`.
unfoldable pub nth : ℕ → Text → Option ℕ
nth n [] = none
nth zero (c ∷ s) = some c
nth (suc n) (c ∷ s) = nth n s
