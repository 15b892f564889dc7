-- ===== src/Watch/Glob/Parse.antt =====
-- `tokens`, `Glob::parse` and `Glob::matches` of crates/grenat_watch/src/glob.rs.
use grenat.Prelude.{
  ℕ, zero, suc, Bool, true, false, not, ◌&&◌, ◌||◌, List, [], ◌∷◌, ◌++◌, Option, none, some, length,
  take, drop, leb, ◌==◌, if◌then◌else◌,
}
use grenat.Prelude.Text.{
  Text, is_empty, has, has_text, text_eq, split_on, join_with, trim, ends_with_char, starts_with,
  strip_prefix, codes,
}
use grenat.Prelude.Results.{Result, ok, err, ◌>>=◌}
use grenat.Watch.Glob.{
  Token, char, any, one, class, Segment, directories, name, Glob, matches_names,
}
use grenat.Watch.Glob.Expand.{ExpandError, expand}

-- The refusals of `parse`, one for each message.
pub data ParseError : Type 0 where
  empty names_directory empty_segment holds_nul stars_with_text ends_with_stars : ParseError
  reversed_range class_never_closed out_of_fuel : ParseError
  braces : ExpandError → ParseError

-- The members of `[…]`, up to the bracket that closes it, and what follows.
unfoldable pub class_ranges : List (ℕ × ℕ) → Text → Result ParseError (List (ℕ × ℕ) × Text)
class_ranges ranges [] = err class_never_closed
class_ranges ranges (c ∷ []) =
    if c == b']' && not (is_empty ranges) then ok (ranges, []) else err class_never_closed
class_ranges ranges (c ∷ d ∷ []) =
    let next = class_ranges (ranges ++ (c, c) ∷ []) (d ∷ []) in
    if c == b']' && not (is_empty ranges)
    then ok (ranges, d ∷ [])
    else if d == b'-'
    then err class_never_closed
    else next
class_ranges ranges (c ∷ d ∷ e ∷ s) =
    let range = class_ranges (ranges ++ (c, e) ∷ []) s in
    let next = class_ranges (ranges ++ (c, c) ∷ []) (d ∷ e ∷ s) in
    if c == b']' && not (is_empty ranges)
    then ok (ranges, d ∷ e ∷ s)
    else if not (d == b'-')
    then next
    else if e == b']'
    then ok (ranges ++ (c, c) ∷ (b'-', b'-') ∷ [], s)
    else if leb c e
    then range
    else err reversed_range

-- `chars.next_if(|c| *c == '!' || *c == '^')`.
unfoldable pub negation : Text → Bool × Text
negation [] = (false, [])
negation (c ∷ s) = if c == b'!' || c == b'^' then (true, s) else (false, c ∷ s)

unfoldable pub class_token : Text → Result ParseError (Token × Text)
unfolding negation class_ranges
class_token s = do
  let (negated, s') = negation s
  (ranges, rest) ← class_ranges [] s'
  ok (class negated ranges, rest)

unfoldable pub next_token : ℕ → Text → Result ParseError (Token × Text)
unfolding class_token
next_token c s =
    if c == b'*'
    then ok (any, s)
    else if c == b'?'
    then ok (one, s)
    else if c == b'['
    then class_token s
    else ok (char c, s)

unfoldable pub tokens_fuel : ℕ → Text → Result ParseError (List Token)
unfolding next_token
tokens_fuel fuel [] = ok []
tokens_fuel zero (c ∷ s) = err out_of_fuel
tokens_fuel (suc fuel) (c ∷ s) = do
  (token, rest) ← next_token c s
  more ← tokens_fuel fuel rest
  ok (token ∷ more)

unfoldable pub tokens : Text → Result ParseError (List Token)
unfolding tokens_fuel
tokens segment = tokens_fuel (length segment) segment

-- `segment.contains(['*', '?', '[', '{'])`.
unfoldable pub is_pattern : Text → Bool
unfolding has
is_pattern s = has b'*' s || has b'?' s || has b'[' s || has b'{' s

-- How many segments before the last are written out.
unfoldable pub count_written : List Text → ℕ
unfolding is_pattern
count_written [] = 0
count_written (s ∷ []) = 0
count_written (s ∷ t ∷ ss) =
    let more = count_written (t ∷ ss) in if is_pattern s then 0 else suc more

unfoldable pub base_of : Text → List Text → Text
unfolding starts_with join_with
base_of pattern written =
    let b = join_with b'/' written in
    if is_empty b && starts_with (codes "/") pattern
    then codes "/"
    else if is_empty b
    then codes "."
    else b

unfoldable pub parse_segment : Text → Result ParseError Segment
unfolding text_eq has_text tokens
parse_segment s =
    if is_empty s
    then err empty_segment
    else if text_eq s (codes "**")
    then ok directories
    else if has_text (codes "**") s
    then err stars_with_text
    else (tokens s >>= λ ts. ok (name ts))

unfoldable pub parse_segments : List Text → Result ParseError (List Segment)
unfolding parse_segment
parse_segments [] = ok []
parse_segments (s ∷ ss) = do
  segment ← parse_segment s
  more ← parse_segments ss
  ok (segment ∷ more)

-- `matches!(parsed.last(), Some(Segment::Directories))`.
unfoldable pub ends_with_directories : List Segment → Bool
ends_with_directories [] = false
ends_with_directories (directories ∷ []) = true
ends_with_directories (name ts ∷ []) = false
ends_with_directories (s ∷ t ∷ ss) = ends_with_directories (t ∷ ss)

unfoldable pub parse_alternatives : List Text → Result ParseError (List (List Segment))
unfolding parse_segments split_on ends_with_directories
parse_alternatives [] = ok []
parse_alternatives (t ∷ ts) = do
  parsed ← parse_segments (split_on b'/' t)
  checked ← (if ends_with_directories parsed then err ends_with_stars else ok parsed)
  more ← parse_alternatives ts
  ok (checked ∷ more)

unfoldable pub or_braces : Result ExpandError (List Text) → Result ParseError (List Text)
or_braces (ok ts) = ok ts
or_braces (err e) = err (braces e)

-- The alternatives of the segments that are not the base's.
unfoldable pub parse_below : List Text → Result ParseError (List (List Segment))
unfolding join_with expand or_braces parse_alternatives
parse_below segments =
    or_braces (expand (join_with b'/' segments)) >>= λ expanded. parse_alternatives expanded

unfoldable pub parse_checked : Text → List Text → Result ParseError Glob
unfolding count_written base_of parse_below
parse_checked pattern segments = do
  let written = count_written segments
  alternatives ← parse_below (drop written segments)
  ok (record {
    pattern = pattern;
    base = base_of pattern (take written segments);
    alternatives = alternatives;
  })

unfoldable pub parse : Text → Result ParseError Glob
unfolding trim ends_with_char has_text has split_on parse_checked
parse pattern =
    if is_empty (trim pattern)
    then err empty
    else if ends_with_char b'/' pattern
    then err names_directory
    else if has_text (codes "//") pattern
    then err empty_segment
    else if has 0 pattern
    then err holds_nul
    else parse_checked pattern (split_on b'/' pattern)

-- `path.strip_prefix(base).and_then(|r| r.strip_prefix('/'))`.
unfoldable pub under : Text → Text → Option Text
unfolding strip_prefix
under base path = elim (strip_prefix base path) [
  | none ↦ none
  | some r ↦ strip_prefix (codes "/") r
]

-- What of a path lies under the base.
unfoldable pub below_base : Text → Text → Option Text
unfolding under text_eq strip_prefix
below_base base path =
    if text_eq base (codes ".")
    then elim (strip_prefix (codes "./") path) [ none ↦ some path | some r ↦ some r ]
    else if text_eq base (codes "/")
    then strip_prefix (codes "/") path
    else under base path

-- Some name is empty, `.` or `..`.
unfoldable pub odd_name : List Text → Bool
unfolding text_eq
odd_name [] = false
odd_name (n ∷ ns) = is_empty n || text_eq n (codes ".") || text_eq n (codes "..") || odd_name ns

unfoldable pub matches : Glob → Text → Bool
unfolding below_base odd_name split_on matches_names
matches g path = elim (below_base g.base path) [
  | none ↦ false
  | some rest ↦ let names = split_on b'/' rest in not (odd_name names) && matches_names g names
]
