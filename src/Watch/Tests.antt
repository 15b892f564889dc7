-- ===== src/Watch/Tests.antt =====
-- Runs of the watch, and the theorems at inputs that meet their hypotheses.
use grenat.Prelude.{◌≡◌, refl, ◌↔◌, true, false, List, [], ◌∷◌}
use grenat.Prelude.Text.{codes}
use grenat.Watch.Glob.{
  Token, char, any, one, Segment, directories, name, Name, Glob, matches_name, fits_name,
  matches_from, enters, matches_names, may_enter,
}
use grenat.Watch.Glob.Names.{Matches, matches_name_iff}
use grenat.Watch.Glob.Paths.{PathMatches, matches_from_iff, may_enter-above}

-- `*b*c`
abbrev b_then_c : List Token
b_then_c = any ∷ char b'b' ∷ any ∷ char b'c' ∷ []

matches_name_iff_example :
    (matches_name b_then_c (codes "xxbyyc") ≡ true) ↔ Matches b_then_c (codes "xxbyyc")
matches_name_iff_example = matches_name_iff b_then_c (codes "xxbyyc")

backtracks : matches_name b_then_c (codes "abcbyyc") ≡ true
unfolding matches_name
backtracks = refl

no_end : matches_name b_then_c (codes "bcx") ≡ false
unfolding matches_name
no_end = refl

-- `**/z/*`
abbrev under_z : List Segment
under_z = directories ∷ name (char b'z' ∷ []) ∷ name (any ∷ []) ∷ []

abbrev b_z_f : List Name
b_z_f = codes "b" ∷ codes "z" ∷ codes "f" ∷ []

matches_from_iff_example : (matches_from under_z b_z_f ≡ true) ↔ PathMatches under_z b_z_f
matches_from_iff_example = matches_from_iff under_z b_z_f

abbrev z_glob : Glob
z_glob = record { pattern = codes "a/**/z/*"; base = codes "a"; alternatives = under_z ∷ [] }

may_enter-above_example : may_enter z_glob (codes "b" ∷ codes "z" ∷ []) ≡ true
unfolding matches_names matches_from fits_name matches_name
may_enter-above_example = may_enter-above z_glob (codes "b" ∷ codes "z" ∷ []) (codes "f") [] refl

hidden_not_entered : may_enter z_glob (codes ".git" ∷ []) ≡ false
unfolding may_enter enters fits_name matches_name
hidden_not_entered = refl

-- `*/?`
abbrev two_deep : Glob
two_deep = record {
  pattern = codes "*/?";
  base = codes ".";
  alternatives = (name (any ∷ []) ∷ name (one ∷ []) ∷ []) ∷ [];
}
