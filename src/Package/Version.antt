-- ===== src/Package/Version.antt =====
-- crates/grenat_package/src/version.rs: versions, requirements, and the highest version that several
-- requirements allow.
use grenat.Prelude.{
  ℕ, zero, suc, ◌+◌, ◌^◌, ◌%◌, Bool, true, false, not, ◌&&◌, ◌||◌, List, [], ◌∷◌, ◌++◌, Option,
  none, some, length, ltb, leb, ◌==◌, if◌then◌else◌,
}
use grenat.Prelude.Text.{Text, trim, strip_prefix, split_on, parse_below, codes, starts_with}
use grenat.Prelude.Decimal.{print}
use grenat.Prelude.Results.{Result, ok, err, ◌>>=◌}
pub mod Intervals
pub mod Printing

pub record Version : Type 0 where
  pub major : ℕ
  pub minor : ℕ
  pub patch : ℕ

abbrev pub u64_bound : ℕ
u64_bound = 2 ^ 64

-- `split('.').map(|p| p.parse().ok()).collect()`.
unfoldable pub parse_parts : List Text → Option (List ℕ)
parse_parts [] = some []
parse_parts (p ∷ ps) =
    let rest = parse_parts ps in
    elim (parse_below u64_bound p) [
      | none ↦ none
      | some n ↦ elim rest [ none ↦ none | some ns ↦ some (n ∷ ns) ]
    ]

unfoldable pub of_parts : List ℕ → Option Version
of_parts (major ∷ minor ∷ []) = some (record { major = major; minor = minor; patch = 0 })
of_parts (major ∷ minor ∷ patch ∷ []) =
    some (record { major = major; minor = minor; patch = patch })
of_parts _ = none

-- `text.trim().strip_prefix('v').unwrap_or(text.trim())`.
unfoldable pub without_v : Text → Text
unfolding strip_prefix
without_v s = elim (strip_prefix (codes "v") s) [ none ↦ s | some rest ↦ rest ]

unfoldable pub parse : Text → Option Version
parse text = elim (parse_parts (split_on b'.' (without_v (trim text)))) [
  | none ↦ none
  | some parts ↦ of_parts parts
]

-- `Display`.
unfoldable pub display : Version → Text
unfolding print
display v = print v.major ++ (b'.' ∷ (print v.minor ++ (b'.' ∷ print v.patch)))

-- The derived order: by major, then minor, then patch.
unfoldable pub lt : Version → Version → Bool
lt v w =
    ltb v.major w.major
    || (v.major == w.major && (ltb v.minor w.minor || (v.minor == w.minor && ltb v.patch w.patch)))

unfoldable pub le : Version → Version → Bool
unfolding lt
le v w = not (lt w v)

unfoldable pub same : Version → Version → Bool
same v w = v.major == w.major && v.minor == w.minor && v.patch == w.patch

pub data Op : Type 0 where
  op_eq op_gt op_ge op_lt op_le : Op
  pessimistic : (parts : ℕ) → Op

pub record Requirement : Type 0 where
  pub conditions : List (Op × Version)
  pub text : Text

-- Where a `~>` ends: the next release of the next-to-last part (`+` on u64 wraps).
unfoldable pub next_release : ℕ → Version → Version
next_release parts r =
    if leb parts 2
    then record { major = (r.major + 1) % u64_bound; minor = 0; patch = 0 }
    else record { major = r.major; minor = (r.minor + 1) % u64_bound; patch = 0 }

unfoldable pub holds : Op → Version → Version → Bool
unfolding lt le same next_release
holds op_eq r v = same v r
holds op_gt r v = lt r v
holds op_ge r v = le r v
holds op_lt r v = lt v r
holds op_le r v = le v r
holds (pessimistic parts) r v = le r v && lt v (next_release parts r)

unfoldable pub all_hold : List (Op × Version) → Version → Bool
all_hold [] v = true
all_hold ((op, r) ∷ conditions) v = holds op r v && all_hold conditions v

unfoldable pub matches : Requirement → Version → Bool
unfolding all_hold
matches r v = all_hold r.conditions v

-- `trim_start_matches('v')`.
unfoldable pub trim_v : Text → Text
trim_v [] = []
trim_v (c ∷ s) = if c == b'v' then trim_v s else c ∷ s

-- The operators, in the order in which they are tried.
pub data Sign : Type 0 where
  tilde ge le_sign eq gt lt_sign : Sign

unfoldable pub sign_of : Text → Sign × Text
unfolding strip_prefix
sign_of part = elim (strip_prefix (codes "~>") part) [
  | some rest ↦ (tilde, rest)
  | none ↦ elim (strip_prefix (codes ">=") part) [
    | some rest ↦ (ge, rest)
    | none ↦ elim (strip_prefix (codes "<=") part) [
      | some rest ↦ (le_sign, rest)
      | none ↦ elim (strip_prefix (codes "=") part) [
        | some rest ↦ (eq, rest)
        | none ↦ elim (strip_prefix (codes ">") part) [
          | some rest ↦ (gt, rest)
          | none ↦ elim (strip_prefix (codes "<") part) [
            | some rest ↦ (lt_sign, rest)
            | none ↦ (eq, part)
          ]
        ]
      ]
    ]
  ]
]

unfoldable pub op_of : Sign → Text → Op
op_of tilde rest = pessimistic (length (split_on b'.' (trim_v rest)))
op_of ge rest = op_ge
op_of le_sign rest = op_le
op_of gt rest = op_gt
op_of lt_sign rest = op_lt
op_of eq rest = op_eq

-- A version, or a major number alone.
unfoldable pub version_or_major : Text → Option Version
version_or_major rest = elim (parse rest) [
  | some v ↦ some v
  | none ↦ elim (parse_below u64_bound (trim_v rest)) [
    | none ↦ none
    | some major ↦ some (record { major = major; minor = 0; patch = 0 })
  ]
]

-- The refusal names the part.
unfoldable pub parse_condition : Text → Result Text (Op × Version)
parse_condition text =
    let part = trim text in
    let (sign, after_sign) = sign_of part in
    let rest = trim after_sign in
    elim (version_or_major rest) [ none ↦ err part | some v ↦ ok (op_of sign rest, v) ]

unfoldable pub parse_conditions : List Text → Result Text (List (Op × Version))
parse_conditions [] = ok []
parse_conditions (p ∷ ps) = do
  condition ← parse_condition p
  more ← parse_conditions ps
  ok (condition ∷ more)

unfoldable pub parse_requirement : Text → Result Text Requirement
parse_requirement text = do
  conditions ← parse_conditions (split_on b',' text)
  ok (record { conditions = conditions; text = trim text })

unfoldable pub any_version : Requirement
any_version = record { conditions = []; text = codes ">= 0" }

-- `compatible_with`, before its `expect`.
unfoldable pub compatible_with : Version → Result Text Requirement
compatible_with v = parse_requirement (codes "~> " ++ (print v.major ++ (b'.' ∷ print v.minor)))

unfoldable pub all_match : List Requirement → Version → Bool
unfolding matches
all_match [] v = true
all_match (r ∷ rs) v = matches r v && all_match rs v

-- `Iterator::max`: the later of two that are equal, which are the same.
unfoldable pub later_max : Option Version → Version → Option Version
unfolding lt
later_max none v = some v
later_max (some best) v = if lt v best then some best else some v

unfoldable pub highest_from : Option Version → List Version → List Requirement → Option Version
unfolding all_match later_max
highest_from best [] rs = best
highest_from best (v ∷ vs) rs =
    highest_from (if all_match rs v then later_max best v else best) vs rs

unfoldable pub highest : List Version → List Requirement → Option Version
unfolding highest_from
highest versions requirements = highest_from none versions requirements
