-- ===== src/Package/Tests.antt =====
-- Runs of the versions, and the theorems at inputs that meet their hypotheses.
use grenat.Prelude.{arith, ℕ, ◌≡◌, refl, ◌&&◌, List, [], ◌∷◌, none, some, leb, ◌==◌}
use grenat.Prelude.Text.{codes, trim, split_on, parse_below, strip_prefix}
use grenat.Prelude.Results.{ok}
use grenat.Package.Version.{
  Version, parse, display, op_ge, op_lt, Requirement, matches, all_hold, holds, le, lt, parse_parts,
  of_parts, without_v, compatible_with, highest, highest_from, all_match, later_max,
}
use grenat.Package.Version.Intervals.{highest-IsHighest, IsHighest}
use grenat.Package.Version.Printing.{parse-display, compatible_with-allows}

abbrev v : ℕ → ℕ → ℕ → Version
v major minor patch = record { major = major; minor = minor; patch = patch }

parse-display_example : parse (display (v 1 20 3)) ≡ some (v 1 20 3)
parse-display_example = parse-display (v 1 20 3) (omega arith, omega arith, omega arith)

parses_tag : parse (codes " v1.2") ≡ some (v 1 2 0)
unfolding parse trim without_v strip_prefix split_on parse_parts parse_below of_parts
parses_tag = refl

one_part_refused : parse (codes "1") ≡ none
unfolding parse trim without_v strip_prefix split_on parse_parts parse_below of_parts
one_part_refused = refl

compatible_with-allows_example :
    (r : Requirement) × (compatible_with (v 1 2 3) ≡ ok r)
    × (matches r (v 1 10 0) ≡ (1 == 1 && leb 2 10))
compatible_with-allows_example =
    compatible_with-allows (v 1 2 3) (v 1 10 0) (omega arith, omega arith, omega arith)
      (omega arith)

-- `>= 1.0, < 2`
abbrev below_two : Requirement
below_two = record {
  conditions = (op_ge, v 1 0 0) ∷ (op_lt, v 2 0 0) ∷ [];
  text = codes ">= 1.0, < 2";
}

abbrev released : List Version
released = v 1 4 0 ∷ v 2 0 0 ∷ v 1 10 2 ∷ v 1 9 0 ∷ []

highest-IsHighest_example : IsHighest released (below_two ∷ []) (highest released (below_two ∷ []))
highest-IsHighest_example = highest-IsHighest released (below_two ∷ [])

highest-below_two : highest released (below_two ∷ []) ≡ some (v 1 10 2)
unfolding highest highest_from all_match later_max matches all_hold holds le lt
highest-below_two = refl
