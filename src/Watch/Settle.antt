-- ===== src/Watch/Settle.antt =====
-- crates/grenat_watch/src/settle.rs: what a watch remembers between two scans. Instants and durations
-- are numbers of nanoseconds; the order of paths is a parameter.
use Prim.Native.String.{String}
use text.Mathlib.Text.{◌==◌ as str_eq}
use grenat.Prelude.{
  ℕ, ◌+◌, ◌-◌, Bool, true, false, not, ◌&&◌, ◌||◌, List, [], ◌∷◌, ◌++◌, Option, none, some, max,
  min, leb, ltb, ◌==◌, if◌then◌else◌,
}
use grenat.Prelude.Dict.{Dict, lookup, insert, remove, retain, dropped, member}
pub mod Scans
pub mod Acts
pub mod Contents

-- `Stamp`, the time a number of nanoseconds where the file system tells it.
pub record Stamp : Type 0 where
  pub size : ℕ
  pub modified : Option ℕ

pub record Found : Type 0 where
  pub path : String
  pub stamp : Stamp

pub record File : Type 0 where
  pub stamp : Stamp
  pub since : ℕ
  pub checked : Option Stamp
  pub digest : Option String
  pub failures : ℕ
  pub retry_at : Option ℕ

pub record Tracker : Type 0 where
  pub settle : ℕ
  pub retry : ℕ
  pub files : Dict File
  pub remembered : Dict String
  pub started : Bool

pub record Observed : Type 0 where
  pub ready : List String
  pub gone : List String

abbrev pub max_attempts : ℕ
max_attempts = 3

-- `==` on stamps.
abbrev pub time_eq : Option ℕ → Option ℕ → Bool
time_eq none none = true
time_eq (some a) (some b) = a == b
time_eq none (some b) = false
time_eq (some a) none = false

unfoldable pub stamp_eq : Stamp → Stamp → Bool
stamp_eq a b = a.size == b.size && time_eq a.modified b.modified

-- `self.checked == Some(self.stamp)`.
unfoldable pub is_checked : File → Bool
unfolding stamp_eq
is_checked f = elim f.checked [ none ↦ false | some s ↦ stamp_eq s f.stamp ]

unfoldable pub new : ℕ → ℕ → Tracker
new settle retry = record {
  settle = settle;
  retry = retry;
  files = [];
  remembered = [];
  started = false;
}

unfoldable pub remember : Tracker → String → String → Tracker
unfolding insert
remember t path digest = record t { remembered = insert path digest t.remembered }

unfoldable pub skip_present : Tracker → List Found → ℕ → Tracker
unfolding lookup remove insert
skip_present t [] now = t
skip_present t (f ∷ found) now =
    let file : File = record {
      stamp = f.stamp;
      since = now;
      checked = some f.stamp;
      digest = lookup f.path t.remembered;
      failures = 0;
      retry_at = none;
    } in
    skip_present
      (record t { files = insert f.path file t.files; remembered = remove f.path t.remembered })
      found now

unfoldable pub paths : List Found → List String
paths [] = []
paths (f ∷ found) = f.path ∷ paths found

-- The entry of a file first seen at `now`.
unfoldable pub first_seen : Stamp → ℕ → Option String → File
first_seen stamp now digest = record {
  stamp = stamp;
  since = now;
  checked = none;
  digest = digest;
  failures = 0;
  retry_at = none;
}

-- A changed stamp: settling starts again, and so do its attempts.
unfoldable pub restamp : File → Stamp → ℕ → File
unfolding stamp_eq
restamp f stamp now =
    if stamp_eq f.stamp stamp
    then f
    else record f { stamp = stamp; since = now; failures = 0; retry_at = none }

-- `is_none_or(|at| now >= at)`.
unfoldable pub is_due : Option ℕ → ℕ → Bool
is_due none now = true
is_due (some at) now = leb at now

unfoldable pub is_ready : ℕ → File → ℕ → Bool
unfolding is_due is_checked
is_ready settle f now = leb settle (now - f.since) && is_due f.retry_at now && not (is_checked f)

-- `entry(path).or_insert_with(…)`.
unfoldable pub entry_of : Tracker → String → Stamp → ℕ → File
unfolding lookup first_seen
entry_of t path stamp now = elim (lookup path t.files) [
  | none ↦ first_seen stamp now (lookup path t.remembered)
  | some e ↦ e
]

-- What was remembered of a file first seen is its entry's from then on.
unfoldable pub still_remembered : Tracker → String → Dict String
unfolding lookup remove
still_remembered t path = elim (lookup path t.files) [
  | none ↦ remove path t.remembered
  | some e ↦ t.remembered
]

-- The body of the loop of `observe` over the files found; `ready` is what it has pushed.
unfoldable pub take_one : Tracker → List String → Found → ℕ → Tracker × List String
unfolding insert entry_of still_remembered restamp is_ready
take_one t ready f now =
    let entry = restamp (entry_of t f.path f.stamp now) f.stamp now in
    (
      record t { files = insert f.path entry t.files; remembered = still_remembered t f.path },
      if is_ready t.settle entry now then ready ++ f.path ∷ [] else ready,
    )

unfoldable pub take_in : Tracker → List String → List Found → ℕ → Tracker × List String
take_in t ready [] now = (t, ready)
take_in t ready (f ∷ found) now =
    let (t', ready') = take_one t ready f now in take_in t' ready' found now

-- `sort()`, by the order of paths.
module _ (path_le : String → String → Bool) where
  unfoldable pub insert_sorted : String → List String → List String
  insert_sorted p [] = p ∷ []
  insert_sorted p (q ∷ qs) = if path_le p q then p ∷ q ∷ qs else q ∷ insert_sorted p qs

  unfoldable pub sort : List String → List String
  unfolding insert_sorted
  sort [] = []
  sort (p ∷ ps) = insert_sorted p (sort ps)

  -- Forgets the files that are gone; the first scan also the remembered ones.
  unfoldable pub forget_gone : Tracker → List String → Tracker × List String
  unfolding retain dropped member
  forget_gone t present =
      let keep = λ (p : String). member p present in
      let gone = dropped keep t.files in
      let files = retain keep t.files in
      if t.started then (record t { files = files }, gone) else (
        record t { files = files; remembered = retain keep t.remembered; started = true },
        gone ++ dropped keep t.remembered,
      )

  unfoldable pub observe : Tracker → List Found → ℕ → Tracker × Observed
  unfolding paths forget_gone take_in sort
  observe t found now =
      let (kept, gone) = forget_gone t (paths found) in
      let (t', ready) = take_in kept [] found now in
      (t', record { ready = sort ready; gone = sort gone })

-- When an unchecked file settles or is tried again.
unfoldable pub check_at : ℕ → File → ℕ
check_at settle f = elim f.retry_at [
  | none ↦ f.since + settle
  | some at ↦ max at (f.since + settle)
]

-- `min()` of what waits.
unfoldable pub soonest : ℕ → Dict File → Option ℕ
unfolding is_checked check_at
soonest settle [] = none
soonest settle ((p, f) ∷ m) =
    let later = soonest settle m in
    if is_checked f then later else elim later [
      | none ↦ some (check_at settle f)
      | some at ↦ some (min (check_at settle f) at)
    ]

unfoldable pub next_check : Tracker → ℕ → Option ℕ
unfolding soonest
next_check t now = elim (soonest t.settle t.files) [ none ↦ none | some at ↦ some (at - now) ]

-- `file.digest.as_deref() == Some(digest)`.
unfoldable pub same_digest : Option String → String → Bool
same_digest none d = false
same_digest (some e) d = str_eq e d

-- `get_mut` and what is done to the file.
unfoldable pub update : Tracker → String → (File → File) → Tracker
unfolding lookup insert
update t path change = elim (lookup path t.files) [
  | none ↦ t
  | some f ↦ record t { files = insert path (change f) t.files }
]

abbrev pub looked_at : File → File
looked_at f = record f { checked = some f.stamp }

unfoldable pub is_new : Tracker → String → String → Tracker × Bool
unfolding update same_digest
is_new t path digest = elim (lookup path t.files) [
  | none ↦ (t, false)
  | some f ↦ if same_digest f.digest digest then (update t path looked_at, false) else (t, true)
]

unfoldable pub passed_over : Tracker → String → Tracker
unfolding update
passed_over t path = update t path looked_at

unfoldable pub handled : Tracker → String → String → Tracker
unfolding update
handled t path digest =
    update t path
      λ f. record f { checked = some f.stamp; digest = some digest; failures = 0; retry_at = none }

unfoldable pub failed : Tracker → String → ℕ → Tracker × Bool
unfolding update
failed t path now = elim (lookup path t.files) [
  | none ↦ (t, true)
  | some f ↦
      if leb max_attempts (f.failures + 1)
      then (update t path (λ g. record g { failures = g.failures + 1 }), true)
      else (
        update t path
            (λ g. record g { failures = g.failures + 1; retry_at = some (now + t.retry) }),
        false,
      )
]
