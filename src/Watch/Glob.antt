-- ===== src/Watch/Glob.antt =====
-- crates/grenat_watch/src/glob.rs: parsed patterns, and the files and directories that match them. A
-- name is the list of its characters' code points.
use grenat.Prelude.{
  ℕ, zero, suc, ◌+◌, ◌*◌, Bool, true, false, not, ◌&&◌, ◌||◌, List, [], ◌∷◌, Option, none, some,
  length, max, ltb, leb, ◌==◌, if◌then◌else◌,
}
pub mod Names
pub mod Paths
pub mod Expand
pub mod Parse
pub mod Parsed

pub data Token : Type 0 where
  char : ℕ → Token
  any one : Token
  class : (negated : Bool) (ranges : List (ℕ × ℕ)) → Token

pub data Segment : Type 0 where
  directories : Segment
  name : List Token → Segment

-- A name, and the names of a path under the base.
abbrev pub Name : Type 0
Name = List ℕ

-- `ranges.iter().any(|(lo, hi)| (*lo..=*hi).contains(&c))`.
in_ranges : List (ℕ × ℕ) → ℕ → Bool
in_ranges [] c = false
in_ranges ((lo, hi) ∷ ranges) c = leb lo c && leb c hi || in_ranges ranges c

-- `!=` on Booleans.
abbrev differ : Bool → Bool → Bool
differ true b = not b
differ false b = b

unfoldable pub fits : Token → ℕ → Bool
unfolding in_ranges
fits (char x) c = x == c
fits one c = true
fits any c = false
fits (class negated ranges) c = differ (in_ranges ranges c) negated

-- `tokens[t..].iter().all(|token| *token == Token::Any)`.
pub all_any : List Token → Bool
all_any [] = true
all_any (any ∷ tokens) = all_any tokens
all_any (_ ∷ tokens) = false

-- The tokens after the last `*` met, and the name from where it was last tried.
abbrev pub Star : Type 0
Star = Option (List Token × Name)

-- What is left of a name after one more character for the star.
abbrev pub rest : Name → Name
rest [] = []
rest (c ∷ cs) = cs

-- A mismatch: the last star takes one character more, or there is none to do so.
pub retry : (List Token → Name → Star → Bool) → Star → Bool
retry again none = false
retry again (some (p, s)) = again p (rest s) (some (p, rest s))

-- The loop of `matches_name`; `t` and `n` are what is left of the tokens and of the name.
pub match_loop : ℕ → List Token → Name → Star → Bool
match_loop zero t n star = false
match_loop (suc fuel) t [] star = all_any t
match_loop (suc fuel) [] (c ∷ n) star = retry (match_loop fuel) star
match_loop (suc fuel) (any ∷ t) (c ∷ n) star = match_loop fuel t (c ∷ n) (some (t, c ∷ n))
match_loop (suc fuel) (token ∷ t) (c ∷ n) star =
    let onward = match_loop fuel t n star in
    if fits token c then onward else retry (match_loop fuel) star

unfoldable pub matches_name : List Token → Name → Bool
unfolding match_loop retry all_any fits
matches_name tokens text = match_loop ((length text + 2) * (length tokens + 1)) tokens text none

-- `name.starts_with('.')`.
pub is_hidden : Name → Bool
is_hidden [] = false
is_hidden (c ∷ cs) = c == b'.'

-- `matches!(tokens.first(), Some(Token::Char('.')))`.
pub writes_dot : List Token → Bool
writes_dot (char c ∷ tokens) = c == b'.'
writes_dot _ = false

unfoldable pub fits_name : List Token → Name → Bool
unfolding is_hidden writes_dot
fits_name tokens text = (not (is_hidden text) || writes_dot tokens) && matches_name tokens text

unfoldable pub matches_from : List Segment → List Name → Bool
matches_from [] [] = true
matches_from [] (n ∷ names) = false
matches_from (directories ∷ segments) [] = matches_from segments []
matches_from (directories ∷ segments) (n ∷ names) =
    matches_from segments (n ∷ names)
    || (ltb 1 (length (n ∷ names))
        && not (is_hidden n)
        && matches_from (directories ∷ segments) names)
matches_from (name tokens ∷ segments) [] = false
matches_from (name tokens ∷ segments) (n ∷ names) =
    fits_name tokens n && matches_from segments names

unfoldable pub enters : List Segment → List Name → Bool
enters [] names = false
enters (segment ∷ segments) [] = true
enters (directories ∷ segments) (n ∷ names) =
    enters segments (n ∷ names) || (not (is_hidden n) && enters (directories ∷ segments) names)
enters (name tokens ∷ segments) (n ∷ names) = fits_name tokens n && enters segments names

pub record Glob : Type 0 where
  pub pattern : Name
  pub base : Name
  pub alternatives : List (List Segment)

-- `iter().any(…)`.
abbrev pub any_of : (List Segment → Bool) → List (List Segment) → Bool
any_of test [] = false
any_of test (a ∷ as') = test a || any_of test as'

-- Whether the file of these names under the base matches.
unfoldable pub matches_names : Glob → List Name → Bool
unfolding matches_from
matches_names g names = any_of (λ a. matches_from a names) g.alternatives

-- Whether a scan goes through the directory of these names.
unfoldable pub may_enter : Glob → List Name → Bool
unfolding enters
may_enter g names = any_of (λ a. enters a names) g.alternatives

-- `alternative.contains(&Segment::Directories)`.
pub any_depth : List Segment → Bool
any_depth [] = false
any_depth (directories ∷ segments) = true
any_depth (name tokens ∷ segments) = any_depth segments

-- The loop of `depth`.
pub depth_from : ℕ → List (List Segment) → Option ℕ
depth_from deepest [] = some deepest
depth_from deepest (a ∷ as') =
    let deeper = depth_from (max deepest (length a)) as' in if any_depth a then none else deeper

unfoldable pub depth : Glob → Option ℕ
unfolding depth_from any_depth
depth g = depth_from 0 g.alternatives
