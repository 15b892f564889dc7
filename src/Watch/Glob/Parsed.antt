-- ===== src/Watch/Glob/Parsed.antt =====
-- What parsing a pattern ends in: a glob of a known shape or one of the refusals, and for a text
-- written out, a glob for that text alone.
use grenat.Prelude.{
  ℕ, zero, suc, ◌≤◌, ◌<◌, ◌≡◌, refl, ap, subst, ◌↔◌, inl, inr, Bool, true, false, not, ◌&&◌, ◌||◌,
  List, [], ◌∷◌, ◌++◌, length, drop, map, ◌==◌, if◌then◌else◌, arith, Bool-cases,
}
use grenat.Prelude.Text.{
  Text, is_empty, has, split_on, text_eq, has_text, ends_with_char, trim, codes, join_with,
}
use grenat.Prelude.Results.{Result, ok, err, ◌>>=◌}
use grenat.Watch.Glob.{
  char, Segment, directories, name, Glob, matches_from, matches_names, any_of, fits, matches_name,
}
use grenat.Watch.Glob.Names.{Matches, nothing, fit, matches_name_iff}
use grenat.Watch.Glob.Expand.{
  ExpandError, out_of_fuel, closes_nothing, never_closed, too_many, expand, max_alternatives,
  Expands, expand-Expands,
}
use grenat.Watch.Glob.Parse.{
  ParseError, class_ranges, negation, class_token, next_token, tokens_fuel, tokens, parse_segment,
  parse_segments, ends_with_directories, parse_alternatives, or_braces, parse_below, parse_checked,
  count_written, parse, braces,
}

-- A value of which `P` holds, or a refusal of the code: never the fuel's end.
abbrev pub Ends {ℓ} : {A : Type ℓ} → (A → Type 0) → Result ParseError A → Type 0
Ends P (ok a) = P a
Ends P (err ParseError.out_of_fuel) = ⊥
Ends P (err (braces out_of_fuel)) = ⊥
Ends P (err _) = Unit

Ends-bind {ℓ κ} :
    {A : Type ℓ} {B : Type κ} (P : A → Type 0) (Q : B → Type 0) (m : Result ParseError A)
    (f : A → Result ParseError B)
    → Ends P m
    → ((a : A) → P a → Ends Q (f a))
    → Ends Q (m >>= f)
Ends-bind P Q (ok a) f h k = k a h
Ends-bind P Q (err ParseError.out_of_fuel) f h k = h
Ends-bind P Q (err (braces out_of_fuel)) f h k = h
Ends-bind P Q (err (braces _)) f h k = tt
Ends-bind P Q (err _) f h k = tt

Ends-if {ℓ} :
    {A : Type ℓ} (P : A → Type 0) (b : Bool) (x y : Result ParseError A)
    → Ends P x
    → Ends P y
    → Ends P (if b then x else y)
Ends-if P true x y hx hy = hx
Ends-if P false x y hx hy = hy

-- At most `n` characters are left.
abbrev Leaves {ℓ} : {A : Type ℓ} → ℕ → A × Text → Type 0
Leaves n (_, rest) = length rest ≤ n

class_ranges-Ends :
    (n : ℕ) (ranges : List (ℕ × ℕ)) (s : Text)
    → length s ≤ n
    → Ends (Leaves n) (class_ranges ranges s)
unfolding class_ranges
class_ranges-Ends n ranges [] h = tt
class_ranges-Ends n ranges (c ∷ []) h = ground arith
class_ranges-Ends n ranges (c ∷ d ∷ []) h =
    ground (arith, class_ranges-Ends n (ranges ++ (c, c) ∷ []) (d ∷ []))
class_ranges-Ends n ranges (c ∷ d ∷ e ∷ s) h = ground (
  arith,
  class_ranges-Ends n (ranges ++ (c, e) ∷ []) s,
  class_ranges-Ends n (ranges ++ (c, c) ∷ []) (d ∷ e ∷ s),
)

negation-length : (s : Text) → length (negation s).1 ≤ length s
unfolding negation
negation-length [] = omega arith
negation-length (c ∷ s) = ground arith

class_token-Ends : (s : Text) → Ends (Leaves (length s)) (class_token s)
unfolding class_token
class_token-Ends s =
    Ends-bind (Leaves (length s)) (Leaves (length s)) _ _
      (class_ranges-Ends (length s) [] (negation s).1 (negation-length s)) (λ (ranges, rest) h. h)

next_token-Ends : (c : ℕ) (s : Text) → Ends (Leaves (length s)) (next_token c s)
unfolding next_token
next_token-Ends c s = ground (arith, class_token-Ends s)

tokens_fuel-Ends : (fuel : ℕ) (s : Text) → length s ≤ fuel → Ends (λ _. Unit) (tokens_fuel fuel s)
unfolding tokens_fuel
tokens_fuel-Ends fuel [] h = tt
tokens_fuel-Ends zero (c ∷ s) h = omega arith
tokens_fuel-Ends (suc fuel) (c ∷ s) h =
    Ends-bind (Leaves (length s)) (λ _. Unit) _ _ (next_token-Ends c s)
      λ (token, rest) shorter.
        Ends-bind (λ _. Unit) (λ _. Unit) _ _ (tokens_fuel-Ends fuel rest (omega arith))
          (λ more u. tt)

parse_segment-Ends : (s : Text) → Ends (λ _. Unit) (parse_segment s)
unfolding parse_segment tokens
parse_segment-Ends s = Ends-if _ (is_empty s) _ _ tt (
    Ends-if _ (text_eq s (codes "**")) _ _ tt (
      Ends-if _ (has_text (codes "**") s) _ _ tt
        (Ends-bind (λ _. Unit) _ _ _ (tokens_fuel-Ends (length s) s (omega arith)) (λ ts u. tt))))

-- One segment for each text.
parse_segments-Ends :
    (ss : List Text) → Ends (λ segments. length segments ≡ length ss) (parse_segments ss)
unfolding parse_segments
parse_segments-Ends [] = refl
parse_segments-Ends (s ∷ ss) =
    Ends-bind (λ _. Unit) _ _ _ (parse_segment-Ends s)
      λ segment u.
        Ends-bind (λ more. length more ≡ length ss) _ _ _ (parse_segments-Ends ss)
          (λ more e. ap suc e)

split_on-some : (sep : ℕ) (s : Text) → 0 < length (split_on sep s)
unfolding split_on
split_on-some sep [] = omega arith
split_on-some sep (c ∷ s) = ground (arith, split_on-some sep s)

-- The last segment names a file.
abbrev pub NamesFile : List Segment → Type 0
NamesFile a = (0 < length a) × (ends_with_directories a ≡ false)

abbrev pub AllNameFiles : List (List Segment) → Type 0
AllNameFiles [] = Unit
AllNameFiles (a ∷ as') = NamesFile a × AllNameFiles as'

abbrev FileLists : ℕ → List (List Segment) → Type 0
FileLists n as' = (length as' ≡ n) × AllNameFiles as'

checked-Ends :
    (a : List Segment)
    → 0 < length a
    → Ends NamesFile (if ends_with_directories a then err ParseError.ends_with_stars else ok a)
checked-Ends a h = elim (Bool-cases (ends_with_directories a)) [
  | inl e ↦ rw e tt
  | inr e ↦ rw e (h, e)
]

parse_alternatives-Ends : (ts : List Text) → Ends (FileLists (length ts)) (parse_alternatives ts)
unfolding parse_alternatives
parse_alternatives-Ends [] = (refl, tt)
parse_alternatives-Ends (t ∷ ts) =
    Ends-bind (λ a. length a ≡ length (split_on b'/' t)) _ _ _
      (parse_segments-Ends (split_on b'/' t))
      λ a e.
        Ends-bind NamesFile _ _ _ (checked-Ends a (omega (arith, split_on-some b'/' t))) λ a' f.
          Ends-bind (FileLists (length ts)) _ _ _ (parse_alternatives-Ends ts)
            (λ more g. (ap suc g.0, (f, g.1)))

or_braces-Ends :
    (m : Result ExpandError (List Text))
    → Expands m
    → Ends (λ ts. length ts ≤ max_alternatives) (or_braces m)
unfolding or_braces
or_braces-Ends (ok ts) h = h.1
or_braces-Ends (err out_of_fuel) h = h
or_braces-Ends (err closes_nothing) h = tt
or_braces-Ends (err never_closed) h = tt
or_braces-Ends (err too_many) h = tt

-- What `parse` makes of a pattern: at most 64 alternatives, each with a last segment for the file.
abbrev pub IsGlobOf : Text → Glob → Type 0
IsGlobOf pattern g =
    (g.pattern ≡ pattern) × (length g.alternatives ≤ max_alternatives) × AllNameFiles g.alternatives

abbrev FewFileLists : List (List Segment) → Type 0
FewFileLists as' = (length as' ≤ max_alternatives) × AllNameFiles as'

parse_below-Ends : (segments : List Text) → Ends FewFileLists (parse_below segments)
unfolding parse_below
parse_below-Ends segments =
    Ends-bind (λ ts. length ts ≤ max_alternatives) FewFileLists
      (or_braces (expand (join_with b'/' segments))) parse_alternatives
      (or_braces-Ends (expand (join_with b'/' segments)) (expand-Expands (join_with b'/' segments)))
      (λ ts few. FileLists-few (parse_alternatives ts) (length ts) few (parse_alternatives-Ends ts))
  where
    FileLists-few :
        (m : Result ParseError (List (List Segment))) (n : ℕ)
        → n ≤ max_alternatives
        → Ends (FileLists n) m
        → Ends FewFileLists m
    FileLists-few (ok as') n h f = (omega arith, f.1)
    FileLists-few (err ParseError.out_of_fuel) n h f = f
    FileLists-few (err (braces out_of_fuel)) n h f = f
    FileLists-few (err (braces _)) n h f = tt
    FileLists-few (err _) n h f = tt

parse_checked-Ends :
    (pattern : Text) (segments : List Text)
    → Ends (IsGlobOf pattern) (parse_checked pattern segments)
unfolding parse_checked
parse_checked-Ends pattern segments =
    Ends-bind FewFileLists (IsGlobOf pattern) (parse_below (drop (count_written segments) segments))
      _ (parse_below-Ends (drop (count_written segments) segments)) (λ as' f. (refl, f.0, f.1))

-- `parse` always ends: with one of its refusals, or with a glob that keeps the pattern, of at most 64
-- alternatives, none of them empty or ending with `**`.
pub parse-Ends : (pattern : Text) → Ends (IsGlobOf pattern) (parse pattern)
unfolding parse
parse-Ends pattern = Ends-if _ (is_empty (trim pattern)) _ _ tt (
    Ends-if _ (ends_with_char b'/' pattern) _ _ tt (
      Ends-if _ (has_text (codes "//") pattern) _ _ tt
        (Ends-if _ (has 0 pattern) _ _ tt (parse_checked-Ends pattern (split_on b'/' pattern)))))

last_names : (a : List Segment) → NamesFile a → matches_from a [] ≡ false
unfolding matches_from ends_with_directories
last_names [] h = absurd (omega arith)
last_names (name ts ∷ a) h = refl
last_names (directories ∷ []) h = cc
last_names (directories ∷ t ∷ a) h = ground (arith, last_names (t ∷ a))

none_of :
    (as' : List (List Segment)) → AllNameFiles as' → any_of (λ a. matches_from a []) as' ≡ false
none_of [] h = refl
none_of (a ∷ as') h = ground (arith, last_names a h.0, none_of as' h.1)

-- No parsed pattern matches its own base.
pub base_unmatched : (pattern : Text) (g : Glob) → parse pattern ≡ ok g → matches_names g [] ≡ false
unfolding matches_names
base_unmatched pattern g e =
    let h : Ends (IsGlobOf pattern) (ok g) =
      subst (Ends (IsGlobOf pattern)) e (parse-Ends pattern) in
    none_of g.alternatives h.2

-- No character that a segment reads as a wildcard.
unfoldable pub is_written_out : Text → Bool
is_written_out [] = true
is_written_out (c ∷ s) = not (c == b'*' || c == b'?' || c == b'[') && is_written_out s

tokens-written_out :
    (s : Text) → is_written_out s ≡ true → tokens_fuel (length s) s ≡ ok (map char s)
unfolding tokens_fuel next_token is_written_out
tokens-written_out [] h = refl
tokens-written_out (c ∷ s) h = ground (arith, tokens-written_out s)

Matches-self : (s : Text) → Matches (map char s) s
unfolding fits
Matches-self [] = nothing
Matches-self (c ∷ s) = fit (ground arith) (Matches-self s)

Matches-only_self : (s t : Text) → Matches (map char s) t → t ≡ s
unfolding fits
Matches-only_self [] t nothing = refl
Matches-only_self (c ∷ s) t (fit {c = d} {s = t'} h m) =
    let e : d ≡ c = ground arith in ground (arith, Matches-only_self s t' m)

-- A segment without wildcards parses to tokens that match that very name and no other.
pub written_out_matches :
    (s t : Text)
    → is_written_out s ≡ true
    → (tokens s ≡ ok (map char s)) × ((matches_name (map char s) t ≡ true) ↔ (t ≡ s))
unfolding tokens
written_out_matches s t h =
    let m = matches_name_iff (map char s) t in
    (tokens-written_out s h, (λ e. Matches-only_self s t (m.0 e), λ e. m.1 (rw e (Matches-self s))))
