-- ===== src/Watch/Runs.antt =====
-- Runs of the watch's memory and of parsing patterns, and the theorems at inputs that meet their
-- hypotheses.
use Prim.Native.String.{String}
use text.Mathlib.TextEquality.{eq_iff}
use grenat.Prelude.{
  ℕ, ◌+◌, ◌≤◌, ◌≡◌, refl, ◌↔◌, Bool, true, false, List, [], ◌∷◌, none, some, map, arith,
}
use grenat.Prelude.Text.{codes}
use grenat.Prelude.Dict.{lookup, insert, member, retain, dropped, remove}
use grenat.Prelude.Results.{ok}
use grenat.Watch.Settle.{
  Stamp, Found, File, Tracker, observe, handled, failed, is_new, first_seen, restamp, is_ready,
  entry_of, stamp_eq, paths, insert_sorted, sort, take_in, take_one, forget_gone, is_due,
  is_checked, still_remembered,
}
use grenat.Watch.Settle.Scans.{stamp_of, observe-present, observe-absent}
use grenat.Watch.Settle.Acts.{Scan, scan_all, Act, observes, asks, hands, fails, act_all}
use grenat.Watch.Settle.Contents.{handed_over_once, failed_waits, settled_reported}
use grenat.Watch.Glob.{char, matches_name}
use grenat.Watch.Glob.Expand.{expand, Expands, expand-Expands}
use grenat.Watch.Glob.Parse.{parse, tokens}
use grenat.Watch.Glob.Parsed.{Ends, IsGlobOf, parse-Ends, written_out_matches, is_written_out}

-- No order of paths is needed where one path is ready.
abbrev any_order : String → String → Bool
any_order p q = true

abbrev stamp : ℕ → Stamp
stamp size = record { size = size; modified = some 100 }

abbrev inbox : Tracker
inbox = record {
  settle = 10;
  retry = 50;
  files = ("a", first_seen (stamp 3) 0 none) ∷ [];
  remembered = [];
  started = true;
}

abbrev entry : File
entry = first_seen (stamp 3) 0 none

abbrev only_a : ℕ → List Found
only_a size = record { path = "a"; stamp = stamp size } ∷ []

abbrev at : ℕ → ℕ → Scan
at now size = record { found = only_a size; now = now }

observe-present_example :
    (lookup "a" (observe any_order inbox (only_a 3) 20).0.files
      ≡ some (restamp (entry_of inbox "a" (stamp 3) 20) (stamp 3) 20))
    × (member "a" (observe any_order inbox (only_a 3) 20).1.ready
        ≡ is_ready 10 (restamp (entry_of inbox "a" (stamp 3) 20) (stamp 3) 20) 20)
    × (member "a" (observe any_order inbox (only_a 3) 20).1.gone ≡ false)
unfolding stamp_of member paths
observe-present_example =
    observe-present any_order inbox (only_a 3) 20 "a" (stamp 3) (refl, tt) refl

observe-absent_example :
    (lookup "a" (observe any_order inbox [] 20).0.files ≡ none)
    × (lookup "a" (observe any_order inbox [] 20).0.remembered ≡ none)
    × (member "a" (observe any_order inbox [] 20).1.ready ≡ false)
    × (member "a" (observe any_order inbox [] 20).1.gone ≡ true)
unfolding stamp_of lookup
observe-absent_example = observe-absent any_order inbox [] 20 "a" refl

settled_is_ready : (observe any_order inbox (only_a 3) 20).1.ready ≡ "a" ∷ []
unfolding observe first_seen sort insert_sorted take_in take_one insert entry_of lookup restamp
    is_ready stamp_eq is_due is_checked forget_gone retain dropped member paths still_remembered
    remove
settled_is_ready = refl

abbrev scans : List Scan
scans = at 30 3 ∷ at 40 3 ∷ []

settled_reported_example :
    member "a" (observe any_order (scan_all any_order inbox scans) (only_a 3) 50).1.ready ≡ true
unfolding stamp_of lookup member paths first_seen
settled_reported_example =
    settled_reported any_order inbox scans (only_a 3) 50 "a" entry refl refl refl
      ((refl, tt), refl, ((refl, tt), refl, tt)) (refl, tt) refl (omega arith)

-- Touched and rewritten after it was handed over, while a run on another file fails.
abbrev acts : List Act
acts =
    observes (at 30 4)
    ∷ asks "a" "e"
    ∷ fails "b" 40
    ∷ hands "b" "f"
    ∷ observes (at 60 5)
    ∷ hands "a" "d"
    ∷ []

handed_over_once_example :
    (is_new (act_all any_order (handled inbox "a" "d") acts) "a" "d").1 ≡ false
unfolding stamp_of lookup member paths first_seen
handed_over_once_example = handed_over_once any_order inbox acts "a" "d" entry refl (
  (refl, tt),
  refl,
  ((λ e. absurd (ground (arith, (eq_iff "b" "a").1 e))), ((refl, tt), refl, ((λ e. refl), tt))),
)

failed_waits_example : 20 + 50 ≤ 75
unfolding stamp_of lookup member paths failed insert observe sort insert_sorted take_in take_one
    entry_of restamp is_ready stamp_eq is_due is_checked forget_gone retain dropped still_remembered
    remove scan_all
failed_waits_example =
    failed_waits any_order inbox (at 40 3 ∷ []) (only_a 3) 20 75 "a" entry refl (omega arith)
      ((refl, tt), refl, tt) (refl, tt) refl refl

expand-Expands_example : Expands (expand (codes "{a,b}/{c,d}"))
expand-Expands_example = expand-Expands (codes "{a,b}/{c,d}")

parse-Ends_example : Ends (IsGlobOf (codes "a/*.{x,y}")) (parse (codes "a/*.{x,y}"))
parse-Ends_example = parse-Ends (codes "a/*.{x,y}")

written_out_matches_example :
    (tokens (codes "ab") ≡ ok (map char (codes "ab")))
    × ((matches_name (map char (codes "ab")) (codes "ab") ≡ true) ↔ (codes "ab" ≡ codes "ab"))
unfolding is_written_out
written_out_matches_example = written_out_matches (codes "ab") (codes "ab") refl
