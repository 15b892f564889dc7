-- ===== src/Ssh/HostKey.antt =====
-- crates/grenat_ssh/src/host_key.rs: whether the key that a host offers is trusted. What the file system answers
-- is an argument: how the file reads, and whether a line can be appended. Messages are one constructor each.
use grenat.Prelude.{
  ℕ, ◌+◌, Bool, true, false, not, ◌&&◌, List, [], ◌∷◌, ◌++◌, Option, none, some, ◌==◌,
  if◌then◌else◌,
}
use grenat.Prelude.Results.{Result, ok, err}
use grenat.Prelude.Text.{Text, is_empty, text_eq, strip_prefix, trim, trim_end, codes}
use grenat.Ssh.HostPattern.{host_name}
use grenat.Ssh.KnownHosts.{Keys, Lookup, known, unknown, changed, revoked, lookup}
pub mod Trusted

-- The policy of a session: `KnownHosts` of options.rs.
pub data Policy : Type 0 where
  fingerprint_of file record_into : Text → Policy

pub record HostKey : Type 0 where
  pub algorithm : Text
  pub fingerprint : Text
  pub recorded : Bool

pub data Refusal : Type 0 where
  not_expected no_file cannot_read cannot_record unknown_key : Refusal
  changed_key revoked_line : (line : ℕ) → Refusal

-- How the file reads.
pub data Reading : Type 0 where
  contents : Text → Reading
  not_found failed : Reading

-- What third-party code says of a key.
pub record Printing (Key : Type 0) : Type 0 where
  pub algorithm_of : Key → Text
  pub sha256_of : Key → Text
  pub to_openssh : Key → Text

-- `trim_end_matches('=')`.
unfoldable pub trim_padding : Text → Text
trim_padding [] = []
trim_padding (c ∷ s) =
    let rest = trim_padding s in if c == b'=' && is_empty rest then [] else c ∷ rest

unfoldable pub normalize : Text → Text
normalize f =
    let text = trim f in
    trim_padding (elim (strip_prefix (codes "SHA256:") text) [ some rest ↦ rest | none ↦ text ])

unfoldable pub same_fingerprint : (expected offered : Text) → Bool
same_fingerprint expected offered =
    not (is_empty (normalize expected)) && text_eq (normalize expected) (normalize offered)

unfoldable pub read : Reading → Result Refusal Text
read (contents text) = ok text
read not_found = ok []
read failed = err cannot_read

module _ (keys : Keys) (printing : Printing keys.Key) where
  -- The line that records the key.
  unfoldable pub line : (name : Text) → keys.Key → Text
  line name key = name ++ b' ' ∷ trim_end (printing.to_openssh key)

  abbrev pub offered : keys.Key → HostKey
  offered key = record {
    algorithm = printing.algorithm_of key;
    fingerprint = printing.sha256_of key;
    recorded = false;
  }

  module _ (reading : Reading) (appends : Text → Bool) where
    -- What becomes of the answer of `lookup`; `records` is the policy's.
    unfoldable pub judge :
        (records : Bool) → (name : Text) → keys.Key → Lookup → Result Refusal HostKey
    judge records name key known = ok (offered key)
    judge records name key (changed line) = err (changed_key line)
    judge records name key (revoked line) = err (revoked_line line)
    judge true name key unknown =
        if appends (line name key)
        then ok (record (offered key) { recorded = true })
        else err cannot_record
    judge false name key unknown = err unknown_key

    unfoldable pub verify_in :
        (path : Text)
        → (records : Bool) → (host : Text) → (port : ℕ) → keys.Key
        → Result Refusal HostKey
    verify_in path records host port key =
        if is_empty path then err no_file else elim (read reading) [
          | err refusal ↦ err refusal
          | ok text ↦
              let name = host_name host port in judge records name key (lookup keys name key text)
        ]

    unfoldable pub verify : Policy → (host : Text) → (port : ℕ) → keys.Key → Result Refusal HostKey
    verify (fingerprint_of expected) host port key =
        if same_fingerprint expected (offered key).fingerprint
        then ok (offered key)
        else err not_expected
    verify (file path) host port key = verify_in path false host port key
    verify (record_into path) host port key = verify_in path true host port key
