-- ===== src/Watch/Glob/Paths.antt =====
-- Which paths a pattern matches, and which directories a scan must go through to find them.
use grenat.Prelude.{
  ℕ, ◌≤◌, ◌≡◌, refl, ◌↔◌, ◌⊎◌, inl, inr, true, false, List, [], ◌∷◌, ◌++◌, some, length, max,
  Bool-cases, arith,
}
use grenat.Watch.Glob.{
  Token, Segment, directories, name, Name, is_hidden, fits_name, matches_from, enters, Glob, any_of,
  matches_names, may_enter, any_depth, depth_from, depth, writes_dot,
}
use grenat.Watch.Glob.Names.{Matches, matches_name_iff}

-- A name that a segment written out matches: hidden only where the segment writes the dot.
abbrev pub Visible : List Token → Name → Type 0
Visible tokens n = (is_hidden n ≡ false) ⊎ (writes_dot tokens ≡ true)

-- What a pattern means: `**` stands for any number of directories, none of them hidden, and for no
-- file; any other segment for one name.
pub data PathMatches : List Segment → List Name → Type 0 where
  nothing : PathMatches [] []
  none_more :
      {segments : List Segment} {names : List Name}
      → PathMatches segments names
      → PathMatches (directories ∷ segments) names
  through :
      {segments : List Segment} {n m : Name} {names : List Name}
      → is_hidden n ≡ false
      → PathMatches (directories ∷ segments) (m ∷ names)
      → PathMatches (directories ∷ segments) (n ∷ m ∷ names)
  named :
      {tokens : List Token} {segments : List Segment} {n : Name} {names : List Name}
      → Visible tokens n
      → Matches tokens n
      → PathMatches segments names
      → PathMatches (name tokens ∷ segments) (n ∷ names)

fits_name_iff :
    (tokens : List Token) (n : Name)
    → (fits_name tokens n ≡ true) ↔ (Visible tokens n × Matches tokens n)
unfolding fits_name
fits_name_iff tokens n =
    let h = matches_name_iff tokens n in
    (λ e. (ground arith, h.0 (ground arith)), λ d. let m = h.1 d.1 in ground arith)

from→PathMatches :
    (segments : List Segment) (names : List Name)
    → matches_from segments names ≡ true
    → PathMatches segments names
unfolding matches_from
from→PathMatches [] [] h = nothing
from→PathMatches [] (n ∷ names) h = cc
from→PathMatches (directories ∷ segments) [] h = none_more (from→PathMatches segments [] h)
from→PathMatches (directories ∷ segments) (n ∷ []) h =
    none_more (from→PathMatches segments (n ∷ []) (ground arith))
from→PathMatches (directories ∷ segments) (n ∷ m ∷ names) h =
    elim (Bool-cases (matches_from segments (n ∷ m ∷ names))) [
      | inl e ↦ none_more (from→PathMatches segments (n ∷ m ∷ names) e)
      | inr e ↦
          through (ground arith)
            (from→PathMatches (directories ∷ segments) (m ∷ names) (ground arith))
    ]
from→PathMatches (name tokens ∷ segments) [] h = cc
from→PathMatches (name tokens ∷ segments) (n ∷ names) h =
    let (v, m) = (fits_name_iff tokens n).0 (ground arith) in
    named v m (from→PathMatches segments names (ground arith))

PathMatches→from :
    {segments : List Segment} {names : List Name}
    → PathMatches segments names
    → matches_from segments names ≡ true
unfolding matches_from
PathMatches→from nothing = refl
PathMatches→from (none_more {names = []} d) = let h = PathMatches→from d in ground arith
PathMatches→from (none_more {names = n ∷ names} d) = let h = PathMatches→from d in ground arith
PathMatches→from (through {names = names} e d) = let h = PathMatches→from d in ground arith
PathMatches→from (named {tokens = tokens} {n = n} v m d) =
    let h = PathMatches→from d in let f = (fits_name_iff tokens n).1 (v, m) in ground arith

-- A pattern's segments match exactly the paths that they mean.
pub matches_from_iff :
    (segments : List Segment) (names : List Name)
    → (matches_from segments names ≡ true) ↔ PathMatches segments names
matches_from_iff segments names = (from→PathMatches segments names, PathMatches→from)

-- A directory above a file that matches is gone through.
enters-above :
    (segments : List Segment) (dir : List Name) (file : Name) (below : List Name)
    → matches_from segments (dir ++ file ∷ below) ≡ true
    → enters segments dir ≡ true
unfolding matches_from enters
enters-above [] [] file below h = cc
enters-above [] (d ∷ dir) file below h = cc
enters-above (directories ∷ segments) [] file below h = refl
enters-above (name tokens ∷ segments) [] file below h = refl
enters-above (directories ∷ segments) (d ∷ dir) file below h = ground (
  arith,
  enters-above segments (d ∷ dir) file below,
  enters-above (directories ∷ segments) dir file below,
)
enters-above (name tokens ∷ segments) (d ∷ dir) file below h =
    ground (arith, enters-above segments dir file below)

-- A scan never misses a file: every directory on the way to a file that matches is gone through.
pub may_enter-above :
    (g : Glob) (dir : List Name) (file : Name) (below : List Name)
    → matches_names g (dir ++ file ∷ below) ≡ true
    → may_enter g dir ≡ true
unfolding matches_names may_enter
may_enter-above g dir file below h = go g.alternatives h
  where
    go :
        (as' : List (List Segment))
        → any_of (λ a. matches_from a (dir ++ file ∷ below)) as' ≡ true
        → any_of (λ a. enters a dir) as' ≡ true
    go [] h = cc
    go (a ∷ as') h = ground (arith, enters-above a dir file below, go as')

-- Without `**`, a path that matches has as many names as there are segments.
matches_from-length :
    (segments : List Segment) (names : List Name)
    → any_depth segments ≡ false
    → matches_from segments names ≡ true
    → length names ≡ length segments
unfolding matches_from any_depth
matches_from-length [] [] h m = refl
matches_from-length [] (n ∷ names) h m = cc
matches_from-length (directories ∷ segments) names h m = cc
matches_from-length (name tokens ∷ segments) [] h m = cc
matches_from-length (name tokens ∷ segments) (n ∷ names) h m =
    ground (arith, matches_from-length segments names h)

depth_from-le :
    (deepest d : ℕ) (as' : List (List Segment)) (names : List Name)
    → depth_from deepest as' ≡ some d
    → (deepest ≤ d) × (any_of (λ a. matches_from a names) as' ≡ true → length names ≤ d)
unfolding depth_from
depth_from-le deepest d [] names h = (ground arith, λ e. cc)
depth_from-le deepest d (a ∷ as') names h =
    ground (arith, depth_from-le (max deepest (length a)) d as' names, matches_from-length a names)

-- A file that matches lies no deeper under the base than `depth` says.
depth_bounds :
    (g : Glob) (d : ℕ) (names : List Name)
    → depth g ≡ some d
    → matches_names g names ≡ true
    → length names ≤ d
unfolding depth matches_names
depth_bounds g d names h m = (depth_from-le 0 d g.alternatives names h).1 m
