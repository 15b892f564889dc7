-- ===== src/Watch/Settle/Acts.antt =====
-- What is done with a watch over time, and what it keeps of the content that was handed over last.
use Prim.Native.String.{String}
use mathlib.Core.Option.{some-injective}
use text.Mathlib.Text.{◌==◌ as str_eq}
use text.Mathlib.TextEquality.{eq_iff}
use text.Mathlib.TextPositions.{eq_refl}
use grenat.Prelude.{
  ℕ, ◌+◌, ◌≡◌, sym, ◌∙◌, ap, leb, Bool-cases, inl, inr, Bool, true, false, List, [], ◌∷◌, some,
  Option-cases, arith,
}
use grenat.Prelude.Dict.{is_some, lookup, lookup-insert}
use grenat.Watch.Settle.{
  Stamp, Found, File, Tracker, restamp, observe, entry_of, update, looked_at, is_new, handled,
  failed, passed_over, same_digest, max_attempts,
}
use grenat.Watch.Settle.Scans.{stamp_of, Distinct, observe-present}

pub record Scan : Type 0 where
  pub found : List Found
  pub now : ℕ

unfoldable pub scan_all : (String → String → Bool) → Tracker → List Scan → Tracker
scan_all path_le t [] = t
scan_all path_le t (s ∷ scans) = scan_all path_le (observe path_le t s.found s.now).0 scans

pub lookup-update :
    (t : Tracker) (q : String) (change : File → File) (f : File)
    → lookup q t.files ≡ some f
    → lookup q (update t q change).files ≡ some (change f)
unfolding update
lookup-update t q change f e =
    rw (e, update) (ground (arith, lookup-insert q q (change f) t.files, eq_refl q))

restamp-digest : (f : File) (s : Stamp) (now : ℕ) → (restamp f s now).digest ≡ f.digest
unfolding restamp
restamp-digest f s now = ground arith

-- The path has an entry whose last handed over content is `d`.
abbrev pub HandedOver : String → String → Tracker → Type 0
HandedOver q d t = (f : File) × (lookup q t.files ≡ some f) × (f.digest ≡ some d)

observe-HandedOver :
    (path_le : String → String → Bool) (t : Tracker) (found : List Found) (now : ℕ) (q d : String)
    → Distinct found
    → is_some (stamp_of q found) ≡ true
    → HandedOver q d t
    → HandedOver q d (observe path_le t found now).0
unfolding entry_of
observe-HandedOver path_le t found now q d u p (f, e, g) = elim (Option-cases (stamp_of q found)) [
  | inl n ↦ ground arith
  | inr (s, n) ↦
      let (h, _, _) = observe-present path_le t found now q s u n in
      let own : entry_of t q s now ≡ f = rw (e, entry_of) in
      (restamp f s now, (rw own at h), restamp-digest f s now ∙ g)
]

pub is_new-HandedOver : (t : Tracker) (q d : String) → HandedOver q d t → (is_new t q d).1 ≡ false
unfolding is_new same_digest
is_new-HandedOver t q d (f, e, g) = rw (e, is_new) (ground (arith, eq_refl d))

-- A change of one file's entry that keeps the content handed over last.
update-HandedOver :
    (t : Tracker) (p q d : String) (change : File → File)
    → ((f : File) → p ≡ q → f.digest ≡ some d → (change f).digest ≡ some d)
    → HandedOver q d t
    → HandedOver q d (update t p change)
unfolding update
update-HandedOver t p q d change keeps (f, e, g) = elim (Option-cases (lookup p t.files)) [
  | inl n ↦ rw (n, update) (f, e, g)
  | inr (h, n) ↦ elim (Bool-cases (str_eq p q)) [
    | inl hit ↦
        let its : p ≡ q = (eq_iff p q).0 hit in
        let own : h ≡ f = some-injective h f (sym n ∙ ap (λ r. lookup r t.files) its ∙ e) in
        rw (n, update)
          (
            change h,
            ground (arith, lookup-insert p q (change h) t.files, hit),
            keeps h its (ap (λ r. r.digest) own ∙ g),
          )
    | inr miss ↦
        rw (n, update) (f, ground (arith, lookup-insert p q (change h) t.files, miss, e), g)
  ]
]

-- What is done with a watch: it takes in a scan; it is asked whether a content is new; a file is passed over,
-- a run on it fails, or a content of it is handed over.
pub data Act : Type 0 where
  observes : Scan → Act
  asks hands : (path digest : String) → Act
  passes : (path : String) → Act
  fails : (path : String) → (now : ℕ) → Act

module _ (path_le : String → String → Bool) where
  unfoldable pub act : Tracker → Act → Tracker
  act t (observes s) = (observe path_le t s.found s.now).0
  act t (asks p d) = (is_new t p d).0
  act t (hands p d) = handled t p d
  act t (passes p) = passed_over t p
  act t (fails p now) = (failed t p now).0

  unfoldable pub act_all : Tracker → List Act → Tracker
  act_all t [] = t
  act_all t (a ∷ acts) = act_all (act t a) acts

-- Every scan finds the path, and no path twice; no other content than `d` is handed over for the path.
abbrev pub KeepsTo : (q d : String) → List Act → Type 0
KeepsTo q d [] = Unit
KeepsTo q d (observes s ∷ acts) =
    Distinct s.found × (is_some (stamp_of q s.found) ≡ true) × KeepsTo q d acts
KeepsTo q d (hands p d' ∷ acts) = (p ≡ q → d' ≡ d) × KeepsTo q d acts
KeepsTo q d (asks p d' ∷ acts) = KeepsTo q d acts
KeepsTo q d (passes p ∷ acts) = KeepsTo q d acts
KeepsTo q d (fails p now ∷ acts) = KeepsTo q d acts

asked-HandedOver :
    (t : Tracker) (p q d d' : String) → HandedOver q d t → HandedOver q d (is_new t p d').0
unfolding is_new
asked-HandedOver t p q d d' h = elim (Option-cases (lookup p t.files)) [
  | inl n ↦ rw (n, is_new) h
  | inr (f, n) ↦ elim (Bool-cases (same_digest f.digest d')) [
    | inl same ↦ rw (n, same, is_new) (update-HandedOver t p q d looked_at (λ g e k. k) h)
    | inr other ↦ rw (n, other, is_new) h
  ]
]

failed-HandedOver :
    (t : Tracker) (p q d : String) (now : ℕ) → HandedOver q d t → HandedOver q d (failed t p now).0
unfolding failed
failed-HandedOver t p q d now h = elim (Option-cases (lookup p t.files)) [
  | inl n ↦ rw (n, failed) h
  | inr (f, n) ↦ elim (Bool-cases (leb max_attempts (f.failures + 1))) [
    | inl last ↦ rw (n, last, failed) (update-HandedOver t p q d _ (λ g e k. k) h)
    | inr again ↦ rw (n, again, failed) (update-HandedOver t p q d _ (λ g e k. k) h)
  ]
]

pub act_all-HandedOver :
    (path_le : String → String → Bool) (t : Tracker) (acts : List Act) (q d : String)
    → KeepsTo q d acts
    → HandedOver q d t
    → HandedOver q d (act_all path_le t acts)
unfolding act act_all handled passed_over
act_all-HandedOver path_le t [] q d k h = h
act_all-HandedOver path_le t (observes s ∷ acts) q d k h =
    act_all-HandedOver path_le (act path_le t (observes s)) acts q d k.2
      (observe-HandedOver path_le t s.found s.now q d k.0 k.1 h)
act_all-HandedOver path_le t (hands p d' ∷ acts) q d k h =
    act_all-HandedOver path_le (act path_le t (hands p d')) acts q d k.1
      (update-HandedOver t p q d _ (λ f its e. ap (λ (r : String). some r) (k.0 its)) h)
act_all-HandedOver path_le t (asks p d' ∷ acts) q d k h =
    act_all-HandedOver path_le (act path_le t (asks p d')) acts q d k
      (asked-HandedOver t p q d d' h)
act_all-HandedOver path_le t (passes p ∷ acts) q d k h =
    act_all-HandedOver path_le (act path_le t (passes p)) acts q d k
      (update-HandedOver t p q d looked_at (λ f its e. e) h)
act_all-HandedOver path_le t (fails p now ∷ acts) q d k h =
    act_all-HandedOver path_le (act path_le t (fails p now)) acts q d k
      (failed-HandedOver t p q d now h)
