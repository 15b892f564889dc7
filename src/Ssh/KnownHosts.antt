-- ===== src/Ssh/KnownHosts.antt =====
-- crates/grenat_ssh/src/known_hosts.rs: what a known_hosts file says about the key that a host offered. Keys,
-- their comparison and the reading of one line are third-party code: the record `Keys`. A line is given to
-- that reader as code points; what it makes of the host field is in bytes.
use grenat.Prelude.{
  ℕ, ◌+◌, Bool, true, false, not, ◌&&◌, ◌||◌, List, [], ◌∷◌, Option, none, some, ◌==◌,
  if◌then◌else◌,
}
use grenat.Prelude.Results.{Result, ok, err}
use grenat.Prelude.Text.{Text, is_empty, starts_with, split_on, join_with, is_whitespace, trim}
use grenat.Ssh.HostPattern.{HostPatterns, Mac, matches}
pub mod Answers
pub mod Lookups

-- `Revoked`, and any other.
pub data Marker : Type 0 where
  other_marker revoked_key : Marker

pub record Entry (Key : Type 0) : Type 0 where
  pub marker : Option Marker
  pub host_patterns : HostPatterns
  pub public_key : Key

pub record Keys : Type 1 where
  pub Key : Type 0
  pub same_data : Key → Key → Bool
  pub read_entry : Text → Option (Entry Key)
  pub mac : Mac

pub data Lookup : Type 0 where
  known unknown : Lookup
  changed revoked : (line : ℕ) → Lookup

abbrev add_first : ℕ → List Text → List Text
add_first c [] = (c ∷ []) ∷ []
add_first c (w ∷ ws) = (c ∷ w) ∷ ws

-- `lines`: a line ends with a newline, or with a carriage return and a newline.
unfoldable pub lines : Text → List Text
unfolding starts_with
lines [] = []
lines (c ∷ s) =
    let rest = lines s in
    if c == 10
    then [] ∷ rest
    else (if c == 13 && starts_with (10 ∷ []) s then rest else add_first c rest)

-- The parts between whitespace.
unfoldable pub parts : Text → List Text
unfolding is_whitespace
parts [] = [] ∷ []
parts (c ∷ s) = let rest = parts s in if is_whitespace c then [] ∷ rest else add_first c rest

abbrev non_empty : List Text → List Text
non_empty [] = []
non_empty ([] ∷ ws) = non_empty ws
non_empty ((c ∷ w) ∷ ws) = (c ∷ w) ∷ non_empty ws

unfoldable pub split_whitespace : Text → List Text
unfolding parts
split_whitespace s = non_empty (parts s)

module _ (keys : Keys) where
  unfoldable pub parse : (line : Text) → Option (Entry keys.Key)
  unfolding trim starts_with join_with split_whitespace
  parse line =
      let text = trim line in
      if is_empty text || starts_with (b'#' ∷ []) text
      then none
      else keys.read_entry (join_with b' ' (split_whitespace text))

  module _ (name : Text) (key : keys.Key) where
    -- What a line without a marker adds to what is found so far.
    unfoldable pub note : (number : ℕ) → Entry keys.Key → Bool × Option ℕ → Bool × Option ℕ
    note number entry (is_known, changed_at) =
        if matches keys.mac entry.host_patterns name
        then (if keys.same_data entry.public_key key
            then (true, changed_at)
            else (is_known, elim changed_at [ some line ↦ some line | none ↦ some number ]))
        else (is_known, changed_at)

    -- The body of the loop, which may return.
    unfoldable pub visit :
        (number : ℕ) → Option (Entry keys.Key) → Bool × Option ℕ → Result Lookup (Bool × Option ℕ)
    unfolding note
    visit number none found = ok found
    visit number (some entry) found = elim entry.marker [
      | some revoked_key ↦
          if keys.same_data entry.public_key key then err (revoked number) else ok found
      | some other_marker ↦ ok found
      | none ↦ ok (note number entry found)
    ]

    unfoldable pub verdict : Bool × Option ℕ → Lookup
    verdict (true, changed_at) = known
    verdict (false, some line) = changed line
    verdict (false, none) = unknown

    unfoldable pub lookup_lines : (index : ℕ) → Bool × Option ℕ → List Text → Lookup
    lookup_lines index found [] = verdict found
    lookup_lines index found (line ∷ ls) = elim (visit (index + 1) (parse line) found) [
      | err early ↦ early
      | ok found' ↦ lookup_lines (index + 1) found' ls
    ]

    unfoldable pub lookup : (text : Text) → Lookup
    unfolding lines lookup_lines
    lookup text = lookup_lines 0 (false, none) (lines text)
