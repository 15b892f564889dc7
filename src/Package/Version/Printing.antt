-- ===== src/Package/Version/Printing.antt =====
-- Reading back what `Display` and `compatible_with` of crates/grenat_package/src/version.rs write.
use grenat.Prelude.{
  ℕ, ◌+◌, ◌<◌, ◌≡◌, refl, ◌∙◌, ap, Bool, true, false, ◌&&◌, ◌||◌, List, [], ◌∷◌, ◌++◌, some, leb,
  ◌==◌, arith,
}
use grenat.Prelude.Text.{
  Text, codes, trim, trim_start, trim_end, is_whitespace, is_digit, all_digits, is_empty, unsigned,
  parse_below, split_on, strip_prefix,
}
use grenat.Prelude.Decimal.{print, print-all_digits, print-some, print-value}
use grenat.Prelude.Results.{ok}
use grenat.Package.Version.{
  Version, parse_parts, of_parts, without_v, parse, display, lt, le, Op, pessimistic, Requirement,
  next_release, holds, all_hold, matches, trim_v, sign_of, op_of, version_or_major, parse_condition,
  parse_conditions, parse_requirement, compatible_with, u64_bound, tilde,
}

-- Digits and dots.
unfoldable is_dotted : Text → Bool
unfolding is_digit
is_dotted [] = true
is_dotted (c ∷ s) = (is_digit c || c == b'.') && is_dotted s

digits-dotted : (s : Text) → all_digits s ≡ true → is_dotted s ≡ true
unfolding all_digits is_dotted
digits-dotted [] h = refl
digits-dotted (c ∷ s) h = ground (arith, digits-dotted s)

dotted-join :
    (s t : Text) → is_dotted s ≡ true → is_dotted t ≡ true → is_dotted (s ++ (b'.' ∷ t)) ≡ true
unfolding is_dotted
dotted-join [] t h k = k
dotted-join (c ∷ s) t h k = ground (arith, dotted-join s t)

trim_end-dotted : (s : Text) → is_dotted s ≡ true → trim_end s ≡ s
unfolding trim_end is_dotted is_digit is_whitespace
trim_end-dotted [] h = refl
trim_end-dotted (c ∷ s) h = ground (arith, trim_end-dotted s)

trim_start-dotted : (s : Text) → is_dotted s ≡ true → trim_start s ≡ s
unfolding trim_start is_dotted is_digit is_whitespace
trim_start-dotted [] h = refl
trim_start-dotted (c ∷ s) h = ground arith

trim-dotted : (s : Text) → is_dotted s ≡ true → trim s ≡ s
unfolding trim
trim-dotted s h = rw (trim_end-dotted s h) (trim_start-dotted s h)

without_v-dotted : (s : Text) → is_dotted s ≡ true → without_v s ≡ s
unfolding without_v strip_prefix is_dotted is_digit
without_v-dotted [] h = refl
without_v-dotted (c ∷ s) h = ground arith

split_on-digits : (s : Text) → all_digits s ≡ true → split_on b'.' s ≡ s ∷ []
unfolding split_on all_digits is_digit
split_on-digits [] h = refl
split_on-digits (c ∷ s) h = ground (arith, split_on-digits s)

split_on-join :
    (s t : Text) → all_digits s ≡ true → split_on b'.' (s ++ (b'.' ∷ t)) ≡ s ∷ split_on b'.' t
unfolding split_on all_digits is_digit
split_on-join [] t h = refl
split_on-join (c ∷ s) t h = ground (arith, split_on-join s t)

unsigned-digits : (s : Text) → all_digits s ≡ true → unsigned s ≡ s
unfolding unsigned all_digits is_digit
unsigned-digits [] h = refl
unsigned-digits (c ∷ s) h = ground arith

parse_below-print : (bound n : ℕ) → n < bound → parse_below bound (print n) ≡ some n
unfolding parse_below
parse_below-print bound n h =
    let d = print-all_digits n in
    ground (arith, unsigned-digits (print n) d, d, print-some n, print-value n)

print-dotted : (n : ℕ) → is_dotted (print n) ≡ true
print-dotted n = digits-dotted (print n) (print-all_digits n)

-- The parts of a version of u64s.
abbrev pub Fits : Version → Type 0
Fits v = (v.major < u64_bound) × (v.minor < u64_bound) × (v.patch < u64_bound)

display-dotted : (v : Version) → is_dotted (display v) ≡ true
unfolding display
display-dotted v =
    dotted-join (print v.major) (print v.minor ++ (b'.' ∷ print v.patch)) (print-dotted v.major)
      (dotted-join (print v.minor) (print v.patch) (print-dotted v.minor) (print-dotted v.patch))

split_on-display :
    (v : Version) → split_on b'.' (display v) ≡ print v.major ∷ print v.minor ∷ print v.patch ∷ []
unfolding display
split_on-display v =
    split_on-join (print v.major) (print v.minor ++ (b'.' ∷ print v.patch))
      (print-all_digits v.major)
    ∙ ap (λ ws. print v.major ∷ ws)
        (split_on-join (print v.minor) (print v.patch) (print-all_digits v.minor)
          ∙ ap (λ ws. print v.minor ∷ ws)
              (split_on-digits (print v.patch) (print-all_digits v.patch)))

parse-dotted :
    (s : Text) (parts : List Text) (numbers : List ℕ)
    → is_dotted s ≡ true
    → split_on b'.' s ≡ parts
    → parse_parts parts ≡ some numbers
    → parse s ≡ of_parts numbers
unfolding parse
parse-dotted s parts numbers d e p = rw (trim-dotted s d, without_v-dotted s d, e, p, parse) refl

parse_parts-print :
    (n : ℕ) (parts : List Text) (numbers : List ℕ)
    → n < u64_bound
    → parse_parts parts ≡ some numbers
    → parse_parts (print n ∷ parts) ≡ some (n ∷ numbers)
unfolding parse_parts
parse_parts-print n parts numbers h p = rw (parse_below-print u64_bound n h, p, parse_parts) refl

no_parts : parse_parts [] ≡ some []
unfolding parse_parts
no_parts = refl

-- A version of u64s reads back as it is written.
pub parse-display : (v : Version) → Fits v → parse (display v) ≡ some v
unfolding of_parts
parse-display v (a, b, c) = parse-dotted (display v) _ _ (display-dotted v) (split_on-display v) (
    parse_parts-print v.major _ _ a
      (parse_parts-print v.minor _ _ b (parse_parts-print v.patch _ _ c no_parts)))

-- `major.minor`.
abbrev two_parts : Version → Text
two_parts v = print v.major ++ (b'.' ∷ print v.minor)

two_parts-dotted : (v : Version) → is_dotted (two_parts v) ≡ true
two_parts-dotted v =
    dotted-join (print v.major) (print v.minor) (print-dotted v.major) (print-dotted v.minor)

split_on-two_parts :
    (v : Version) → split_on b'.' (two_parts v) ≡ print v.major ∷ print v.minor ∷ []
split_on-two_parts v =
    split_on-join (print v.major) (print v.minor) (print-all_digits v.major)
    ∙ ap (λ ws. print v.major ∷ ws) (split_on-digits (print v.minor) (print-all_digits v.minor))

trim_v-dotted : (s : Text) → is_dotted s ≡ true → trim_v s ≡ s
unfolding trim_v is_dotted is_digit
trim_v-dotted [] h = refl
trim_v-dotted (c ∷ s) h = ground arith

split_on-no_comma : (s : Text) → is_dotted s ≡ true → split_on b',' s ≡ s ∷ []
unfolding split_on is_dotted is_digit
split_on-no_comma [] h = refl
split_on-no_comma (c ∷ s) h = ground (arith, split_on-no_comma s)

is_empty-join : (s : Text) (c : ℕ) (t : Text) → is_empty (s ++ (c ∷ t)) ≡ false
is_empty-join [] c t = refl
is_empty-join (d ∷ s) c t = refl

trim-tilde :
    (s : Text)
    → is_dotted s ≡ true
    → is_empty s ≡ false
    → trim (codes "~> " ++ s) ≡ codes "~> " ++ s
unfolding trim trim_end trim_start is_whitespace
trim-tilde s h k = rw (trim_end-dotted s h, k) refl

trim-space : (s : Text) → is_dotted s ≡ true → trim (b' ' ∷ s) ≡ s
unfolding trim trim_end trim_start is_whitespace
trim-space [] h = refl
trim-space (c ∷ s) h = rw (trim_end-dotted (c ∷ s) h) (trim_start-dotted (c ∷ s) h)

version_or_major-two_parts :
    (v : Version)
    → Fits v
    → version_or_major (two_parts v) ≡ some (record { major = v.major; minor = v.minor; patch = 0 })
unfolding of_parts version_or_major
version_or_major-two_parts v (a, b, c) =
    let p : parse (two_parts v) ≡ some (record { major = v.major; minor = v.minor; patch = 0 }) =
      parse-dotted (two_parts v) _ _ (two_parts-dotted v) (split_on-two_parts v)
        (parse_parts-print v.major _ _ a (parse_parts-print v.minor _ _ b no_parts)) in
    rw (p, version_or_major) refl

op_of-two_parts : (v : Version) → op_of tilde (two_parts v) ≡ pessimistic 2
unfolding op_of
op_of-two_parts v =
    rw (trim_v-dotted (two_parts v) (two_parts-dotted v), split_on-two_parts v, op_of) refl

-- The one condition that `compatible_with` writes.
abbrev condition_of : Version → Op × Version
condition_of v = (pessimistic 2, record { major = v.major; minor = v.minor; patch = 0 })

parse_condition-tilde :
    (v : Version) → Fits v → parse_condition (codes "~> " ++ two_parts v) ≡ ok (condition_of v)
unfolding parse_condition sign_of strip_prefix
parse_condition-tilde v f =
    let d = two_parts-dotted v in
    let some_text = is_empty-join (print v.major) b'.' (print v.minor) in
    rw
      (
        trim-tilde (two_parts v) d some_text,
        trim-space (two_parts v) d,
        version_or_major-two_parts v f,
        trim-tilde (two_parts v) d some_text,
        trim-space (two_parts v) d,
        op_of-two_parts v,
        parse_condition,
      )
      refl

split_on-tilde :
    (s : Text) → is_dotted s ≡ true → split_on b',' (codes "~> " ++ s) ≡ (codes "~> " ++ s) ∷ []
unfolding split_on
split_on-tilde s h = rw (split_on-no_comma s h) refl

-- The requirement that a new dependency gets is always a valid one, and allows exactly the versions of
-- the same major number that are no earlier in their minor number.
pub compatible_with-allows :
    (v w : Version)
    → Fits v
    → v.major + 1 < u64_bound
    → (r : Requirement) × (compatible_with v ≡ ok r)
      × (matches r w ≡ (w.major == v.major && leb v.minor w.minor))
unfolding compatible_with parse_requirement parse_conditions trim matches holds all_hold le lt
    next_release
compatible_with-allows v w f small =
    let text = codes "~> " ++ two_parts v in
    let r : Requirement = record { conditions = condition_of v ∷ []; text = trim text } in
    let one = split_on-tilde (two_parts v) (two_parts-dotted v) in
    (r, rw (one, parse_condition-tilde v f, parse_requirement) refl, ground arith)
