-- ===== src/Watch/Settle/Scans.antt =====
-- What a scan makes of each file by itself: `observe`, seen at one path.
use Prim.Native.String.{String}
use text.Mathlib.Text.{◌==◌ as str_eq}
use text.Mathlib.TextEquality.{eq_iff}
use grenat.Prelude.{
  ℕ, ◌≡◌, refl, ◌∙◌, inl, inr, Bool, true, false, not, ◌&&◌, ◌||◌, List, [], ◌∷◌, Option, none,
  some, Bool-cases, if◌then◌else◌, arith,
}
use grenat.Prelude.Dict.{
  is_some, lookup, dropped, member, lookup-insert, lookup-remove, lookup-retain, member-dropped,
  member-append,
}
use grenat.Watch.Settle.{
  Stamp, Found, File, Tracker, paths, restamp, is_ready, take_in, sort, take_one, entry_of,
  still_remembered, insert_sorted, forget_gone, observe,
}

-- The stamp that a scan found for a path.
unfoldable pub stamp_of : String → List Found → Option Stamp
stamp_of q [] = none
stamp_of q (f ∷ found) = if str_eq f.path q then some f.stamp else stamp_of q found

-- No path is found twice.
abbrev pub Distinct : List Found → Type 0
Distinct [] = Unit
Distinct (f ∷ found) = (member f.path (paths found) ≡ false) × Distinct found

stamp_of-member :
    (q : String) (found : List Found) → is_some (stamp_of q found) ≡ member q (paths found)
unfolding stamp_of member paths
stamp_of-member q [] = refl
stamp_of-member q (f ∷ found) = ground (arith, eq_iff f.path q, stamp_of-member q found)

-- One file found: what the others' entries are does not change, and its own is taken in.
module _ (t : Tracker) (ready : List String) (f : Found) (now : ℕ) (q : String) where
  abbrev own : File
  own = restamp (entry_of t f.path f.stamp now) f.stamp now

  take_one-files :
      lookup q (take_one t ready f now).0.files
      ≡ (if str_eq f.path q then some own else lookup q t.files)
  unfolding take_one
  take_one-files = lookup-insert f.path q own t.files

  take_one-ready :
      member q (take_one t ready f now).1
      ≡ (member q ready || (str_eq f.path q && is_ready t.settle own now))
  unfolding take_one member
  take_one-ready =
      ground (arith, member-append q ready (f.path ∷ []), Bool-cases (is_ready t.settle own now))

  take_one-remembered :
      str_eq f.path q ≡ false
      → lookup q (take_one t ready f now).0.remembered ≡ lookup q t.remembered
  unfolding take_one still_remembered
  take_one-remembered h = ground (arith, lookup-remove f.path q t.remembered)

entry_of-same :
    (t t' : Tracker) (q : String) (s : Stamp) (now : ℕ)
    → lookup q t'.files ≡ lookup q t.files
    → lookup q t'.remembered ≡ lookup q t.remembered
    → entry_of t' q s now ≡ entry_of t q s now
unfolding entry_of
entry_of-same t t' q s now e r = ground arith

take_one-settle :
    (t : Tracker) (ready : List String) (f : Found) (now : ℕ)
    → (take_one t ready f now).0.settle ≡ t.settle
unfolding take_one
take_one-settle t ready f now = refl

stamp_absent :
    (q : String) (found : List Found) → member q (paths found) ≡ false → stamp_of q found ≡ none
stamp_absent q found h = ground (arith, stamp_of-member q found)

module _ (now : ℕ) (q : String) where
  take_in-absent :
      (t : Tracker) (ready : List String) (found : List Found)
      → stamp_of q found ≡ none
      → let (t', ready') = take_in t ready found now in
        (lookup q t'.files ≡ lookup q t.files)
        × (member q ready' ≡ member q ready)
        × (lookup q t'.remembered ≡ lookup q t.remembered)
  unfolding stamp_of take_in
  take_in-absent t ready [] e = (refl, refl, refl)
  take_in-absent t ready (f ∷ found) e =
      let (t', ready') = take_one t ready f now in
      let miss : str_eq f.path q ≡ false = ground arith in
      let (h, k, r) = take_in-absent t' ready' found (ground arith) in
      let files = take_one-files t ready f now q in
      let more = take_one-ready t ready f now q in
      (
        h ∙ (rw miss at files),
        k ∙ (ground (arith, more)),
        r ∙ take_one-remembered t ready f now q miss,
      )

  take_in-present :
      (t : Tracker) (ready : List String) (found : List Found) (s : Stamp)
      → Distinct found
      → stamp_of q found ≡ some s
      → let file = restamp (entry_of t q s now) s now in
        let (t', ready') = take_in t ready found now in
        (lookup q t'.files ≡ some file)
        × (member q ready' ≡ (member q ready || is_ready t.settle file now))
  unfolding stamp_of take_in
  take_in-present t ready [] s d e = absurd (ground arith)
  take_in-present t ready (f ∷ found) s d e =
      let (t', ready') = take_one t ready f now in
      let files = take_one-files t ready f now q in
      let more = take_one-ready t ready f now q in
      elim (Bool-cases (str_eq f.path q)) [
        | inl hit ↦
            let p = (eq_iff f.path q).0 hit in
            let absent = stamp_absent q found (rw p at d.0) in
            let (h, k, _) = take_in-absent t' ready' found absent in
            let same : f.stamp ≡ s = ground arith in
            let own_file : own t ready f now q ≡ restamp (entry_of t q s now) s now = cc p in
            (ground (arith, h), ground (arith, k))
        | inr miss ↦
            let (h, k) = take_in-present t' ready' found s d.1 (ground arith) in
            let keep =
              entry_of-same t t' q s now (ground (arith, files))
                (take_one-remembered t ready f now q miss) in
            (ground (arith, h, keep), ground (arith, k, keep, take_one-settle t ready f now))
      ]

module _ (path_le : String → String → Bool) where
  member-insert_sorted :
      (q p : String) (ps : List String)
      → member q (insert_sorted path_le p ps) ≡ (str_eq p q || member q ps)
  unfolding insert_sorted member
  member-insert_sorted q p [] = refl
  member-insert_sorted q p (r ∷ ps) = ground (arith, member-insert_sorted q p ps)

  member-sort : (q : String) (ps : List String) → member q (sort path_le ps) ≡ member q ps
  unfolding sort member
  member-sort q [] = refl
  member-sort q (p ∷ ps) =
      ground (arith, member-insert_sorted q p (sort path_le ps), member-sort q ps)

  -- What a scan forgets at one path.
  forget_gone-at :
      (t : Tracker) (present : List String) (q : String)
      → let (t', gone) = forget_gone path_le t present in
        (lookup q t'.files ≡ (if member q present then lookup q t.files else none))
        × (member q present ≡ true → lookup q t'.remembered ≡ lookup q t.remembered)
        × (member q present ≡ false
            → lookup q t'.remembered ≡ (if t.started then lookup q t.remembered else none))
        × (member q gone ≡ (
            not (member q present)
            && (is_some (lookup q t.files) || (not t.started && is_some (lookup q t.remembered)))))
        × (t'.settle ≡ t.settle)
  unfolding forget_gone
  forget_gone-at t present q =
      let keep = λ (p : String). member p present in
      let files = lookup-retain keep q t.files in
      let remembered = lookup-retain keep q t.remembered in
      let gone = member-dropped keep q t.files in
      let gone' = member-dropped keep q t.remembered in
      let both = member-append q (dropped keep t.files) (dropped keep t.remembered) in
      elim (Bool-cases t.started) [
        | inl e ↦ rw e (files, λ _. refl, λ _. refl, ground (arith, gone), refl)
        | inr e ↦ rw e (
          files,
          λ h. ground (arith, remembered),
          λ h. ground (arith, remembered),
          ground (arith, gone, gone', both),
          refl,
        )
      ]

  -- A scan does to each file found what it would do to that file alone: it takes the file's entry, or
  -- a first one with what was remembered, starts its settling again if its stamp changed, and reports
  -- it as ready by that entry; and it reports no file found as gone.
  pub observe-present :
      (t : Tracker) (found : List Found) (now : ℕ) (q : String) (s : Stamp)
      → Distinct found
      → stamp_of q found ≡ some s
      → let file = restamp (entry_of t q s now) s now in
        let (t', out) = observe path_le t found now in
        (lookup q t'.files ≡ some file)
        × (member q out.ready ≡ is_ready t.settle file now)
        × (member q out.gone ≡ false)
  unfolding observe
  observe-present t found now q s d e =
      let (t', gone) = forget_gone path_le t (paths found) in
      let (files, remembered, forgotten, gone_at, settle) = forget_gone-at t (paths found) q in
      let here : member q (paths found) ≡ true = ground (arith, stamp_of-member q found) in
      let same : entry_of t' q s now ≡ entry_of t q s now =
        entry_of-same t t' q s now (ground (arith, files)) (remembered here) in
      let (h, k) = take_in-present now q t' [] found s d e in
      (
        ground (arith, h, same),
        ground (arith, k, same, settle, member-sort q (take_in t' [] found now).1),
        ground (arith, gone_at, member-sort q gone),
      )

  -- A file not found is forgotten: no entry of it is left, and the first scan also drops what was remembered
  -- of it. It is not reported as ready, and it is reported as gone where the watch knew of it: by an entry,
  -- or at the first scan by something remembered.
  pub observe-absent :
      (t : Tracker) (found : List Found) (now : ℕ) (q : String)
      → stamp_of q found ≡ none
      → let (t', out) = observe path_le t found now in
        (lookup q t'.files ≡ none)
        × (lookup q t'.remembered ≡ (if t.started then lookup q t.remembered else none))
        × (member q out.ready ≡ false)
        × (member q out.gone
            ≡ (is_some (lookup q t.files) || (not t.started && is_some (lookup q t.remembered))))
  unfolding observe
  observe-absent t found now q e =
      let (t', gone) = forget_gone path_le t (paths found) in
      let (files, remembered, forgotten, gone_at, settle) = forget_gone-at t (paths found) q in
      let away : member q (paths found) ≡ false = ground (arith, stamp_of-member q found) in
      let (h, k, r) = take_in-absent now q t' [] found e in
      (
        ground (arith, h, files),
        r ∙ forgotten away,
        ground (arith, k, member-sort q (take_in t' [] found now).1),
        ground (arith, gone_at, member-sort q gone),
      )

  -- The settling time does not change.
  take_in-settle :
      (t : Tracker) (ready : List String) (found : List Found) (now : ℕ)
      → (take_in t ready found now).0.settle ≡ t.settle
  unfolding take_in
  take_in-settle t ready [] now = refl
  take_in-settle t ready (f ∷ found) now =
      take_in-settle (take_one t ready f now).0 (take_one t ready f now).1 found now
      ∙ take_one-settle t ready f now

  pub observe-settle :
      (t : Tracker) (found : List Found) (now : ℕ)
      → (observe path_le t found now).0.settle ≡ t.settle
  unfolding observe
  observe-settle t found now =
      take_in-settle (forget_gone path_le t (paths found)).0 [] found now
      ∙ (forget_gone-at t (paths found) "").4
