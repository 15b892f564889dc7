-- ===== src/Watch/Settle/Contents.antt =====
-- What the watch promises over a history of scans: settled files only, each content handed over once,
-- failures tried again a few times.
use Prim.Native.String.{String}
use text.Mathlib.TextPositions.{eq_refl}
use grenat.Prelude.{
  ℕ, ◌+◌, ◌≤◌, ◌<◌, ◌≡◌, refl, sym, ◌∙◌, ap, inl, inr, Bool, true, false, List, [], ◌∷◌, none, some,
  Option-cases, arith,
}
use grenat.Prelude.Dict.{is_some, lookup, member, lookup-insert}
use grenat.Watch.Settle.{
  Stamp, Found, File, Tracker, restamp, is_ready, is_due, observe, stamp_eq, is_checked, entry_of,
  update, is_new, handled, failed, passed_over, max_attempts,
}
use grenat.Watch.Settle.Scans.{stamp_of, Distinct, observe-present, observe-settle}
use grenat.Watch.Settle.Acts.{
  Scan, scan_all, Act, act_all, KeepsTo, lookup-update, is_new-HandedOver, act_all-HandedOver,
}

-- A content handed over is not new again after any scans, questions, runs that fail and files passed over or
-- handed over, as long as every scan finds the file and no other content of it is handed over, however
-- often its stamp changes.
pub handed_over_once :
    (path_le : String → String → Bool) (t : Tracker) (acts : List Act) (q d : String) (f : File)
    → lookup q t.files ≡ some f
    → KeepsTo q d acts
    → (is_new (act_all path_le (handled t q d) acts) q d).1 ≡ false
unfolding handled
handed_over_once path_le t acts q d f e k =
    is_new-HandedOver (act_all path_le (handled t q d) acts) q d
      (act_all-HandedOver path_le (handled t q d) acts q d k (_, lookup-update t q _ f e, refl))

-- Every scan finds the path with this stamp.
abbrev pub AlwaysStamped : String → Stamp → List Scan → Type 0
AlwaysStamped q s [] = Unit
AlwaysStamped q s (scan ∷ scans) =
    Distinct scan.found × (stamp_of q scan.found ≡ some s) × AlwaysStamped q s scans

stamp_eq_refl : (s : Stamp) → stamp_eq s s ≡ true
unfolding stamp_eq
stamp_eq_refl s = ground arith

-- The path's state, of this stamp, was looked at.
abbrev LookedAt : String → Stamp → Tracker → Type 0
LookedAt q s t = (f : File) × (lookup q t.files ≡ some f) × (f.stamp ≡ s) × (f.checked ≡ some s)

restamp_same : (f : File) (s : Stamp) (now : ℕ) → f.stamp ≡ s → restamp f s now ≡ f
unfolding restamp
restamp_same f s now e = ground (arith, stamp_eq_refl s)

not_ready :
    (settle now : ℕ) (f : File) (s : Stamp)
    → f.stamp ≡ s
    → f.checked ≡ some s
    → is_ready settle f now ≡ false
unfolding is_ready is_checked
not_ready settle now f s e c = ground (arith, stamp_eq_refl s)

observe-LookedAt :
    (path_le : String → String → Bool) (t : Tracker) (found : List Found) (now : ℕ) (q : String)
    (s : Stamp)
    → Distinct found
    → stamp_of q found ≡ some s
    → LookedAt q s t
    → LookedAt q s (observe path_le t found now).0
      × (member q (observe path_le t found now).1.ready ≡ false)
unfolding entry_of
observe-LookedAt path_le t found now q s u p (f, e, g, c) =
    let (h, k, _) = observe-present path_le t found now q s u p in
    let own : entry_of t q s now ≡ f = rw (e, entry_of) in
    let same : restamp (entry_of t q s now) s now ≡ f = rw own (restamp_same f s now g) in
    ((f, rw same at h, g, c), k ∙ rw same (not_ready t.settle now f s g c))

scan_all-LookedAt :
    (path_le : String → String → Bool) (t : Tracker) (scans : List Scan) (q : String) (s : Stamp)
    → AlwaysStamped q s scans
    → LookedAt q s t
    → LookedAt q s (scan_all path_le t scans)
unfolding scan_all
scan_all-LookedAt path_le t [] q s a h = h
scan_all-LookedAt path_le t (scan ∷ scans) q s a h =
    scan_all-LookedAt path_le (observe path_le t scan.found scan.now).0 scans q s a.2
      (observe-LookedAt path_le t scan.found scan.now q s a.0 a.1 h).0

-- A file passed over is reported by no later scan, as long as its stamp stays the same.
passed_over_quiet :
    (path_le : String → String → Bool) (t : Tracker) (scans : List Scan) (found : List Found)
    (now : ℕ) (q : String) (f : File)
    → lookup q t.files ≡ some f
    → AlwaysStamped q f.stamp scans
    → Distinct found
    → stamp_of q found ≡ some f.stamp
    → member q (observe path_le (scan_all path_le (passed_over t q) scans) found now).1.ready
      ≡ false
unfolding passed_over
passed_over_quiet path_le t scans found now q f e a u p =
    (observe-LookedAt path_le (scan_all path_le (passed_over t q) scans) found now q f.stamp u p (
      scan_all-LookedAt path_le (passed_over t q) scans q f.stamp a
        (_, lookup-update t q _ f e, refl, refl))).1

-- The entry of a file whose run failed at `now` and is to be tried again.
abbrev tried_again : Tracker → File → ℕ → File
tried_again t f now = record f { failures = f.failures + 1; retry_at = some (now + t.retry) }

failed_early :
    (t : Tracker) (q : String) (f : File) (now : ℕ)
    → lookup q t.files ≡ some f
    → f.failures + 1 < max_attempts
    → ((failed t q now).1 ≡ false)
      × (lookup q (failed t q now).0.files ≡ some (tried_again t f now))
      × ((failed t q now).0.settle ≡ t.settle)
unfolding failed update
failed_early t q f now e h =
    let l = lookup-insert q q (tried_again t f now) t.files in
    (ground arith, ground (arith, l, eq_refl q), ground arith)

failed_last :
    (t : Tracker) (q : String) (f : File) (now : ℕ)
    → lookup q t.files ≡ some f
    → max_attempts ≤ f.failures + 1
    → (failed t q now).1 ≡ true
unfolding failed
failed_last t q f now e h = ground arith

-- The third run in a row that fails on one content gives it up, and no earlier one does.
third_failure_gives_up :
    (t : Tracker) (q : String) (f : File) (first second third : ℕ)
    → lookup q t.files ≡ some f
    → f.failures ≡ 0
    → let (t', up) = failed t q first in
      let (t'', up') = failed t' q second in
      (up ≡ false) × (up' ≡ false) × ((failed t'' q third).1 ≡ true)
third_failure_gives_up t q f first second third e z =
    let (a, e', _) = failed_early t q f first e (omega arith) in
    let (t', _) = failed t q first in
    let f' = tried_again t f first in
    let (b, e'', _) = failed_early t' q f' second e' (omega arith) in
    let (t'', _) = failed t' q second in
    (a, b, failed_last t'' q (tried_again t' f' second) third e'' (omega arith))

-- The path has an entry whose stamp was first seen at `u` or later.
abbrev SeenFrom : ℕ → String → Tracker → Type 0
SeenFrom u q t = (f : File) × (lookup q t.files ≡ some f) × (u ≤ f.since)

-- Every scan, at `u` or later, finds the path.
abbrev pub FoundFrom : ℕ → String → List Scan → Type 0
FoundFrom u q [] = Unit
FoundFrom u q (s ∷ scans) =
    Distinct s.found × (is_some (stamp_of q s.found) ≡ true) × (u ≤ s.now) × FoundFrom u q scans

restamp-since :
    (f : File) (s : Stamp) (u now : ℕ) → u ≤ f.since → u ≤ now → u ≤ (restamp f s now).since
unfolding restamp
restamp-since f s u now h k = ground arith

observe-SeenFrom :
    (path_le : String → String → Bool) (t : Tracker) (found : List Found) (u now : ℕ) (q : String)
    → Distinct found
    → is_some (stamp_of q found) ≡ true
    → u ≤ now
    → SeenFrom u q t
    → SeenFrom u q (observe path_le t found now).0
      × (member q (observe path_le t found now).1.ready ≡ true → u + t.settle ≤ now)
unfolding entry_of is_ready
observe-SeenFrom path_le t found u now q d p k (f, e, g) = elim (Option-cases (stamp_of q found)) [
  | inl n ↦ ground arith
  | inr (s, n) ↦
      let (h, r, _) = observe-present path_le t found now q s d n in
      let own : entry_of t q s now ≡ f = rw (e, entry_of) in
      let later = restamp-since f s u now g k in
      ((restamp f s now, rw own at h, later), λ ready. ground (arith, r, later, own))
]

scan_all-SeenFrom :
    (path_le : String → String → Bool) (t : Tracker) (scans : List Scan) (u : ℕ) (q : String)
    → FoundFrom u q scans
    → SeenFrom u q t
    → SeenFrom u q (scan_all path_le t scans) × ((scan_all path_le t scans).settle ≡ t.settle)
unfolding scan_all
scan_all-SeenFrom path_le t [] u q a h = (h, refl)
scan_all-SeenFrom path_le t (s ∷ scans) u q a h =
    let (h', _) = observe-SeenFrom path_le t s.found u s.now q a.0 a.1 a.2 h in
    let (g, e) = scan_all-SeenFrom path_le (observe path_le t s.found s.now).0 scans u q a.3 h' in
    (g, e ∙ observe-settle path_le t s.found s.now)

-- A file whose stamp a scan at `u` found changed is reported by no scan before `u + settle`, whatever
-- the scans in between find it to be.
changed_then_settles :
    (path_le : String → String → Bool) (t : Tracker) (changed found : List Found)
    (scans : List Scan) (u now : ℕ) (q : String) (f : File) (s : Stamp)
    → lookup q t.files ≡ some f
    → stamp_eq f.stamp s ≡ false
    → Distinct changed
    → stamp_of q changed ≡ some s
    → FoundFrom u q scans
    → Distinct found
    → is_some (stamp_of q found) ≡ true
    → u ≤ now
    → let t' = scan_all path_le (observe path_le t changed u).0 scans in
      member q (observe path_le t' found now).1.ready ≡ true → u + t.settle ≤ now
unfolding entry_of restamp
changed_then_settles path_le t changed found scans u now q f s e c d p a d' p' k ready =
    let t1 = (observe path_le t changed u).0 in
    let (h, _, _) = observe-present path_le t changed u q s d p in
    let own : entry_of t q s u ≡ f = rw (e, entry_of) in
    let fresh : (restamp f s u).since ≡ u = ground arith in
    let seen : SeenFrom u q t1 = (restamp f s u, rw own at h, omega (arith, fresh)) in
    let (seen', settle) = scan_all-SeenFrom path_le t1 scans u q a seen in
    let (_, r) = observe-SeenFrom path_le (scan_all path_le t1 scans) found u now q d' p' k seen' in
    omega (arith, r ready, settle, observe-settle path_le t changed u)

observe-unchanged :
    (path_le : String → String → Bool) (t : Tracker) (found : List Found) (now : ℕ) (q : String)
    (f : File)
    → lookup q t.files ≡ some f
    → Distinct found
    → stamp_of q found ≡ some f.stamp
    → (lookup q (observe path_le t found now).0.files ≡ some f)
      × (member q (observe path_le t found now).1.ready ≡ is_ready t.settle f now)
unfolding entry_of
observe-unchanged path_le t found now q f e u p =
    let (h, k, _) = observe-present path_le t found now q f.stamp u p in
    let own : entry_of t q f.stamp now ≡ f = rw (e, entry_of) in
    let same : restamp (entry_of t q f.stamp now) f.stamp now ≡ f =
      rw own (restamp_same f f.stamp now refl) in
    (rw same at h, k ∙ ap (λ g. is_ready t.settle g now) same)

scan_all-unchanged :
    (path_le : String → String → Bool) (t : Tracker) (scans : List Scan) (q : String) (f : File)
    → lookup q t.files ≡ some f
    → AlwaysStamped q f.stamp scans
    → (lookup q (scan_all path_le t scans).files ≡ some f)
      × ((scan_all path_le t scans).settle ≡ t.settle)
unfolding scan_all
scan_all-unchanged path_le t [] q f e a = (e, refl)
scan_all-unchanged path_le t (s ∷ scans) q f e a =
    let (h, _) = observe-unchanged path_le t s.found s.now q f e a.0 a.1 in
    let (g, k) = scan_all-unchanged path_le (observe path_le t s.found s.now).0 scans q f h a.2 in
    (g, k ∙ observe-settle path_le t s.found s.now)

-- A file not yet looked at, with no retry to wait for, whose stamp stays the same is reported by every
-- scan from `since + settle` on, however many scans come before.
pub settled_reported :
    (path_le : String → String → Bool) (t : Tracker) (scans : List Scan) (found : List Found)
    (now : ℕ) (q : String) (f : File)
    → lookup q t.files ≡ some f
    → f.checked ≡ none
    → f.retry_at ≡ none
    → AlwaysStamped q f.stamp scans
    → Distinct found
    → stamp_of q found ≡ some f.stamp
    → f.since + t.settle ≤ now
    → member q (observe path_le (scan_all path_le t scans) found now).1.ready ≡ true
unfolding is_ready is_checked is_due
settled_reported path_le t scans found now q f e c r a u p h =
    let (g, k) = scan_all-unchanged path_le t scans q f e a in
    let (_, ready) = observe-unchanged path_le (scan_all path_le t scans) found now q f g u p in
    ready ∙ ground (arith, k)

-- After a failed run that is to be tried again, no scan reports the file before the retry delay is over, as
-- long as every scan finds it with the same stamp.
pub failed_waits :
    (path_le : String → String → Bool) (t : Tracker) (scans : List Scan) (found : List Found)
    (failed_at now : ℕ) (q : String) (f : File)
    → lookup q t.files ≡ some f
    → f.failures + 1 < max_attempts
    → AlwaysStamped q f.stamp scans
    → Distinct found
    → stamp_of q found ≡ some f.stamp
    → member q (observe path_le (scan_all path_le (failed t q failed_at).0 scans) found now).1.ready
      ≡ true
    → failed_at + t.retry ≤ now
unfolding is_ready is_due
failed_waits path_le t scans found failed_at now q f e h a u p ready =
    let t' = (failed t q failed_at).0 in
    let f' = tried_again t f failed_at in
    let (_, e', _) = failed_early t q f failed_at e h in
    let (g, _) = scan_all-unchanged path_le t' scans q f' e' a in
    let t'' = scan_all path_le t' scans in
    let (_, k) = observe-unchanged path_le t'' found now q f' g u p in
    let due : is_ready t''.settle f' now ≡ true = sym k ∙ ready in ground (arith, due)
