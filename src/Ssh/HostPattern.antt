-- ===== src/Ssh/HostPattern.antt =====
-- crates/grenat_ssh/src/host_pattern.rs: the host field of a line of known_hosts. Texts are lists of bytes. The
-- parser of the field and the keyed hash of a name are third-party code: the field is given as parsed, and
-- the hash is the record `Mac`.
use grenat.Prelude.{
  ℕ, ◌+◌, Bool, true, false, not, ◌&&◌, ◌||◌, List, [], ◌∷◌, ◌++◌, map, Option, none, some, leb,
  ◌==◌, if◌then◌else◌,
}
use grenat.Prelude.Text.{Text, is_empty, strip_prefix}
use grenat.Prelude.Decimal.{print}
pub mod Globs
pub mod Fields

pub data HostPatterns : Type 0 where
  patterns : List Text → HostPatterns
  hashed_name : (salt hash : Text) → HostPatterns

pub record Mac : Type 1 where
  pub Keyed : Type 0
  pub new_from_slice : (salt : Text) → Option Keyed
  pub verify_slice : Keyed → (name hash : Text) → Bool

abbrev pub lower : ℕ → ℕ
lower c = if leb b'A' c && leb c b'Z' then c + 32 else c

-- `to_ascii_lowercase`.
abbrev pub to_ascii_lowercase : Text → Text
to_ascii_lowercase s = map lower s

unfoldable pub host_name : (host : Text) → (port : ℕ) → Text
host_name host port =
    let name = to_ascii_lowercase host in
    if port == 22 then name else b'[' ∷ (name ++ b']' ∷ b':' ∷ print port)

-- `(0..=text.len()).any(...)`, for what is left of the text.
unfoldable pub any_rest : (Text → Bool) → Text → Bool
any_rest found [] = found []
any_rest found (c ∷ s) = found (c ∷ s) || any_rest found s

abbrev pub after_any : (Text → Bool) → Text → Bool
after_any found [] = false
after_any found (c ∷ s) = found s

abbrev pub after_same : ℕ → (Text → Bool) → Text → Bool
after_same b found [] = false
after_same b found (c ∷ s) = c == b && found s

unfoldable pub glob : (pattern text : Text) → Bool
glob [] text = is_empty text
glob (c ∷ rest) text =
    if c == b'*'
    then any_rest (glob rest) text
    else (if c == b'?' then after_any (glob rest) text else after_same c (glob rest) text)

-- The loop over the patterns.
unfoldable pub matches_any : (matched : Bool) → List Text → (name : Text) → Bool
matches_any matched [] name = matched
matches_any matched (p ∷ ps) name =
    let pattern = to_ascii_lowercase p in
    elim (strip_prefix (b'!' ∷ []) pattern) [
      | some negated ↦ if glob negated name then false else matches_any matched ps name
      | none ↦ matches_any (matched || glob pattern name) ps name
    ]

module _ (mac : Mac) where
  unfoldable pub hashed_matches : (salt hash name : Text) → Bool
  hashed_matches salt hash name = elim (mac.new_from_slice salt) [
    | none ↦ false
    | some keyed ↦ mac.verify_slice keyed name hash
  ]

  unfoldable pub matches : HostPatterns → (name : Text) → Bool
  unfolding hashed_matches matches_any
  matches (hashed_name salt hash) name = hashed_matches salt hash name
  matches (patterns ps) name = matches_any false ps name
