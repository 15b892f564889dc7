-- ===== src/Serve/Cron/Parse.antt =====
-- `Cron::parse` and `field` of crates/grenat_serve/src/cron.rs.
use Prim.Native.String.{String}
use grenat.Prelude.{
  ℕ, zero, suc, ◌+◌, ◌-◌, ◌%◌, ◌^◌, ◌≤◌, ◌<◌, ◌≡◌, refl, Bool, true, false, not, ◌&&◌, ◌||◌, List,
  [], ◌∷◌, Option, none, some, length, map, take, ltb, leb, ◌==◌, if◌then◌else◌,
}
use grenat.Prelude.Text.{Text, codes, is_whitespace, parse_below, split_on, text_eq}
use grenat.Prelude.Results.{Result, ok, err, ◌>>=◌}
use grenat.Serve.Cron.{Cron, allows}
pub mod Steps
pub mod Fields
pub mod Places

-- The refusals, one for each message, with the text or the number it names.
pub data CronError : Type 0 where
  not_five_fields : CronError
  invalid_value invalid_step empty_range : Text → CronError
  out_of_range : ℕ → CronError

-- `split_whitespace`.
abbrev goes_on : Text → Bool
goes_on [] = false
goes_on (c ∷ s) = not (is_whitespace c)

abbrev put_first : ℕ → List Text → List Text
put_first c [] = (c ∷ []) ∷ []
put_first c (w ∷ ws) = (c ∷ w) ∷ ws

unfoldable pub words : Text → List Text
unfolding is_whitespace
words [] = []
words (c ∷ s) =
    let more = words s in
    if is_whitespace c then more else if goes_on s then put_first c more else (c ∷ []) ∷ more

-- `split_once(char)`.
unfoldable pub split_once : ℕ → Text → Option (Text × Text)
split_once sep [] = none
split_once sep (c ∷ s) =
    let later = split_once sep s in
    if c == sep then some ([], s) else elim later [ none ↦ none | some (a, b) ↦ some (c ∷ a, b) ]

-- `eq_ignore_ascii_case`.
abbrev lower : ℕ → ℕ
lower c = if leb b'A' c && leb c b'Z' then c + 32 else c

unfoldable pub same_word : Text → Text → Bool
unfolding text_eq
same_word a b = text_eq (map lower a) (map lower b)

-- `position`.
unfoldable pub name_position : List Text → Text → Option ℕ
name_position [] s = none
name_position (n ∷ names) s =
    let later = name_position names s in
    if same_word n s then some 0 else elim later [ none ↦ none | some i ↦ some (suc i) ]

-- What the closure `value` and the loop capture.
pub record Field : Type 0 where
  pub lowest : ℕ
  pub highest : ℕ
  pub names : List Text
  pub first_name : ℕ

abbrev pub u32_bound : ℕ
u32_bound = 2 ^ 32

unfoldable pub value : Field → Text → Result CronError ℕ
value f s = elim (name_position f.names s) [
  | some i ↦ ok (i + f.first_name)
  | none ↦ elim (parse_below u32_bound s) [
    | none ↦ err (invalid_value s)
    | some n ↦ if ltb n f.lowest || ltb f.highest n then err (out_of_range n) else ok n
  ]
]

-- The range and the step of a part.
unfoldable pub range_step : Text → Result CronError (Text × ℕ)
range_step part = elim (split_once b'/' part) [
  | none ↦ ok (part, 1)
  | some (r, s) ↦ elim (parse_below u32_bound s) [
    | none ↦ err (invalid_step part)
    | some n ↦ if ltb 0 n then ok (r, n) else err (invalid_step part)
  ]
]

unfoldable pub range_of : Field → Text → ℕ → Result CronError (ℕ × ℕ)
range_of f r step =
    if text_eq r (codes "*") then ok (f.lowest, f.highest) else elim (split_once b'-' r) [
      | some (a, b) ↦ do lo ← value f a; hi ← value f b; ok (lo, hi)
      | none ↦ do lo ← value f r; ok (lo, if ltb 1 step then f.highest else lo)
    ]

-- `allowed[v] = true`.
unfoldable pub allow : List Bool → ℕ → List Bool
allow [] v = []
allow (b ∷ allowed) zero = true ∷ allowed
allow (b ∷ allowed) (suc v) = b ∷ allow allowed v

-- `for v in (lo..=hi).step_by(step)`; the fuel is how many values there are at most.
unfoldable pub allow_steps : (fuel v hi step : ℕ) → List Bool → List Bool
unfolding allow
allow_steps zero v hi step allowed = allowed
allow_steps (suc fuel) v hi step allowed =
    let rest = allow_steps fuel (v + step) hi step (allow allowed v) in
    if leb v hi then rest else allowed

-- The range and step of a part, that is not empty.
unfoldable pub part_range : Field → Text → Result CronError (ℕ × ℕ × ℕ)
part_range f part = do
  (range, step) ← range_step part
  (lo, hi) ← range_of f range step
  if ltb hi lo then err (empty_range part) else ok (lo, hi, step)

unfoldable pub allow_parts : Field → List Text → List Bool → Result CronError (List Bool)
unfolding allow_steps
allow_parts f [] allowed = ok allowed
allow_parts f (p ∷ parts) allowed = do
  (lo, hi, step) ← part_range f p
  allow_parts f parts (allow_steps (hi + 1 - lo) lo hi step allowed)

-- `vec![false; n]`.
unfoldable pub all_false : ℕ → List Bool
all_false zero = []
all_false (suc n) = false ∷ all_false n

unfoldable pub field : Field → Text → Result CronError (List Bool)
field f text = allow_parts f (split_on b',' text) (all_false (f.highest + 1))

abbrev month_names : List Text
month_names =
    codes "JAN"
    ∷ codes "FEB"
    ∷ codes "MAR"
    ∷ codes "APR"
    ∷ codes "MAY"
    ∷ codes "JUN"
    ∷ codes "JUL"
    ∷ codes "AUG"
    ∷ codes "SEP"
    ∷ codes "OCT"
    ∷ codes "NOV"
    ∷ codes "DEC"
    ∷ []

abbrev weekday_names : List Text
weekday_names =
    codes "SUN"
    ∷ codes "MON"
    ∷ codes "TUE"
    ∷ codes "WED"
    ∷ codes "THU"
    ∷ codes "FRI"
    ∷ codes "SAT"
    ∷ []

abbrev pub numbers : ℕ → ℕ → Field
numbers lowest highest = record { lowest = lowest; highest = highest; names = []; first_name = 0 }

abbrev pub weekday_field : Field
weekday_field = record { lowest = 0; highest = 7; names = weekday_names; first_name = 0 }

abbrev pub month_field : Field
month_field = record { lowest = 1; highest = 12; names = month_names; first_name = 1 }

-- Sunday as 7 is Sunday as 0, and the field ends at Saturday.
unfoldable pub sunday : List Bool → List Bool
unfolding allow allows
sunday weekdays = take 7 (if allows weekdays 7 then allow weekdays 0 else weekdays)

unfoldable pub parse_fields : (minute hour day month weekday : Text) → Result CronError Cron
unfolding sunday
parse_fields minute hour day month weekday = do
  weekdays ← field weekday_field weekday
  minutes ← field (numbers 0 59) minute
  hours ← field (numbers 0 23) hour
  days ← field (numbers 1 31) day
  months ← field month_field month
  ok (record {
    minutes = minutes;
    hours = hours;
    days = days;
    months = months;
    weekdays = sunday weekdays;
    either_day = not (text_eq day (codes "*")) && not (text_eq weekday (codes "*"));
  })

unfoldable pub of_words : List Text → Result CronError Cron
unfolding parse_fields
of_words (minute ∷ hour ∷ day ∷ month ∷ weekday ∷ []) = parse_fields minute hour day month weekday
of_words _ = err not_five_fields

unfoldable pub parse : Text → Result CronError Cron
unfolding words of_words
parse text = of_words (words text)
