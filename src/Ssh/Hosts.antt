-- ===== src/Ssh/Hosts.antt =====
-- A known_hosts file, what it says of keys, and the theorems at inputs. Keys are numbers, and a line is a
-- host field and a key, after a marker if it has one.
use grenat.Prelude.{ℕ, ◌≡◌, ◌↔◌, refl, true, false, List, [], ◌∷◌, ◌++◌, Option, none, some, ◌==◌}
use grenat.Prelude.Decimal.{print, print_fuel}
use grenat.Prelude.Results.{ok}
use grenat.Prelude.Text.{
  Text, codes, text_eq, split_on, digits_value, starts_with, strip_prefix, trim, trim_start,
  trim_end, is_whitespace, join_with,
}
use grenat.Ssh.HostPattern.{
  HostPatterns, patterns, hashed_name, Mac, host_name, any_rest, glob, matches_any, hashed_matches,
  matches,
}
use grenat.Ssh.HostPattern.Fields.{IsHost, matches_iff}
use grenat.Ssh.KnownHosts.{
  revoked_key, Entry, Keys, known, changed, revoked, lines, parts, split_whitespace, parse, note,
  visit, verdict, lookup_lines, lookup,
}
use grenat.Ssh.KnownHosts.Lookups.{IsVerdict, lookup-IsVerdict}
use grenat.Ssh.HostKey.{
  record_into, HostKey, contents, Printing, same_fingerprint, normalize, trim_padding, read, judge,
  verify_in, verify,
}
use grenat.Ssh.HostKey.Trusted.{IsTrusted, verify-IsTrusted}

abbrev plain_mac : Mac
plain_mac = record {
  Keyed = Text;
  new_from_slice = λ salt. some salt;
  verify_slice = λ keyed name hash. text_eq (keyed ++ name) hash;
}

abbrev host_field : HostPatterns
host_field = patterns (codes "!secret.example.com" ∷ codes "*.Example.com" ∷ [])

negation_wins : matches plain_mac host_field (codes "secret.example.com") ≡ false
unfolding matches matches_any strip_prefix glob any_rest
negation_wins = refl

hashed : matches plain_mac (hashed_name (codes "salt-") (codes "salt-db")) (codes "db") ≡ true
unfolding matches hashed_matches text_eq
hashed = refl

matches_iff_example :
    (matches plain_mac host_field (codes "db.example.com") ≡ true)
    ↔ IsHost plain_mac host_field (codes "db.example.com")
matches_iff_example = matches_iff plain_mac host_field (codes "db.example.com")

other_port : host_name (codes "Example.com") 2222 ≡ codes "[example.com]:2222"
unfolding host_name print print_fuel
other_port = refl

abbrev read_words : List Text → Option (Entry ℕ)
read_words (host ∷ key ∷ []) = some (record {
  marker = none;
  host_patterns = patterns (host ∷ []);
  public_key = digits_value 0 key;
})
read_words (marker ∷ host ∷ key ∷ []) = some (record {
  marker = some revoked_key;
  host_patterns = patterns (host ∷ []);
  public_key = digits_value 0 key;
})
read_words _ = none

abbrev numbers : Keys
numbers = record {
  Key = ℕ;
  same_data = λ a b. a == b;
  read_entry = λ text. read_words (split_on b' ' text);
  mac = plain_mac;
}

abbrev hosts : Text
hosts = codes "# hosts\nexample.com  1\n@revoked * 9\nexample.com 3\n"

known_key : lookup numbers (codes "example.com") 3 hosts ≡ known
unfolding lookup lines starts_with lookup_lines parse trim trim_start trim_end is_whitespace
    split_whitespace parts join_with split_on digits_value visit verdict note matches matches_any
    strip_prefix glob any_rest
known_key = refl

changed_key : lookup numbers (codes "example.com") 2 hosts ≡ changed 2
unfolding lookup lines starts_with lookup_lines parse trim trim_start trim_end is_whitespace
    split_whitespace parts join_with split_on digits_value visit verdict note matches matches_any
    strip_prefix glob any_rest
changed_key = refl

revoked_anywhere : lookup numbers (codes "example.org") 9 hosts ≡ revoked 3
unfolding lookup lines starts_with lookup_lines parse trim trim_start trim_end is_whitespace
    split_whitespace parts join_with split_on digits_value visit verdict note matches matches_any
    strip_prefix glob any_rest
revoked_anywhere = refl

lookup-IsVerdict_example :
    IsVerdict numbers
      (codes "example.com")
      2
      (lines hosts)
      (lookup numbers (codes "example.com") 2 hosts)
lookup-IsVerdict_example = lookup-IsVerdict numbers (codes "example.com") 2 hosts

abbrev printing : Printing ℕ
printing = record {
  algorithm_of = λ key. codes "ssh-ed25519";
  sha256_of = λ key. codes "SHA256:abc=";
  to_openssh = λ key. print key;
}

abbrev recorded_key : HostKey
recorded_key = record {
  algorithm = codes "ssh-ed25519";
  fingerprint = codes "SHA256:abc=";
  recorded = true;
}

first_use :
    verify numbers printing
      (contents hosts)
      (λ text. true)
      (record_into (codes "hosts"))
      (codes "example.org")
      22
      1
    ≡ ok recorded_key
unfolding verify verify_in read judge host_name lookup lines starts_with lookup_lines parse trim
    trim_start trim_end is_whitespace split_whitespace parts join_with split_on digits_value visit
    verdict note matches matches_any strip_prefix glob any_rest
first_use = refl

same_without_prefix : same_fingerprint (codes " abc ") (codes "SHA256:abc=") ≡ true
unfolding same_fingerprint normalize trim trim_start trim_end is_whitespace strip_prefix
    trim_padding text_eq
same_without_prefix = refl

verify-IsTrusted_example :
    IsTrusted numbers printing
      (contents hosts)
      (λ text. true)
      (record_into (codes "hosts"))
      (codes "example.org")
      22
      1
      recorded_key
verify-IsTrusted_example =
    verify-IsTrusted numbers printing (contents hosts) (λ text. true) (record_into (codes "hosts"))
      (codes "example.org") 22 1 recorded_key first_use
