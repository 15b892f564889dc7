-- ===== src/Serve/Cron/Parse/Places.antt =====
-- The fields of a parsed schedule have a place for every value that a time can have.
use grenat.Prelude.{
  ℕ, ◌+◌, ◌≤◌, ◌≡◌, Bool, List, [], ◌∷◌, length, length-take, if◌then◌else◌, arith,
}
use grenat.Prelude.Text.{Text}
use grenat.Serve.Cron.{Cron, allows}
use grenat.Serve.Cron.Parse.{
  Field, allow, field, sunday, parse_fields, parse, words, numbers, of_words, weekday_field,
  month_field,
}
use grenat.Serve.Cron.Parse.Steps.{allow-length}
use grenat.Serve.Cron.Parse.Fields.{
  NamesInside, Inside, Inside-bind, Inside-map, Reads, field-Reads,
}

-- A place for each minute, hour, day of a month, month and day of the week.
abbrev pub HasPlaces : Cron → Type 0
HasPlaces c =
    (length c.minutes ≡ 60)
    × (length c.hours ≡ 24)
    × (length c.days ≡ 32)
    × (length c.months ≡ 13)
    × (length c.weekdays ≡ 7)

sunday-length : (weekdays : List Bool) → length weekdays ≡ 8 → length (sunday weekdays) ≡ 7
unfolding sunday
sunday-length weekdays h = ground (
  arith,
  length-take 7 (if allows weekdays 7 then allow weekdays 0 else weekdays),
  allow-length weekdays 0,
)

abbrev Long : ℕ → List Bool → Type 0
Long n out = length out ≡ n

field-Long :
    (f : Field) (text : Text) → NamesInside f → Inside (Long (f.highest + 1)) (field f text)
field-Long f text h =
    Inside-map (Reads f text) (Long (f.highest + 1)) (field f text) (field-Reads f text h)
      (λ out r. r.0)

parse_fields-HasPlaces :
    (minute hour day month weekday : Text)
    → Inside HasPlaces (parse_fields minute hour day month weekday)
unfolding parse_fields
parse_fields-HasPlaces minute hour day month weekday =
    let inside : (lowest highest : ℕ) → lowest ≤ highest → NamesInside (numbers lowest highest) =
      λ lowest highest h. (h, (λ k. absurd (omega arith)), omega arith) in
    let weekday_names =
      field-Long weekday_field weekday (omega arith, (λ k. omega arith), omega arith) in
    let month_names = field-Long month_field month (omega arith, (λ k. omega arith), omega arith) in
    let minutes = field-Long (numbers 0 59) minute (inside 0 59 (omega arith)) in
    let hours = field-Long (numbers 0 23) hour (inside 0 23 (omega arith)) in
    let days = field-Long (numbers 1 31) day (inside 1 31 (omega arith)) in
    Inside-bind (Long 8) HasPlaces (field weekday_field weekday) _ weekday_names λ w wl.
      Inside-bind (Long 60) HasPlaces (field (numbers 0 59) minute) _ minutes λ m ml.
        Inside-bind (Long 24) HasPlaces (field (numbers 0 23) hour) _ hours λ h hl.
          Inside-bind (Long 32) HasPlaces (field (numbers 1 31) day) _ days λ d dl.
            Inside-bind (Long 13) HasPlaces (field month_field month) _ month_names
              λ n nl. (ml, hl, dl, nl, sunday-length w wl)

of_words-HasPlaces : (ws : List Text) → Inside HasPlaces (of_words ws)
unfolding of_words
of_words-HasPlaces (a ∷ b ∷ c ∷ d ∷ e ∷ []) = parse_fields-HasPlaces a b c d e
of_words-HasPlaces [] = tt
of_words-HasPlaces (a ∷ []) = tt
of_words-HasPlaces (a ∷ b ∷ []) = tt
of_words-HasPlaces (a ∷ b ∷ c ∷ []) = tt
of_words-HasPlaces (a ∷ b ∷ c ∷ d ∷ []) = tt
of_words-HasPlaces (a ∷ b ∷ c ∷ d ∷ e ∷ f ∷ ws) = tt

-- A schedule that is parsed has a place for every minute, hour, day, month and day of the week, so that
-- looking one up never goes past the end of a field.
parse-HasPlaces : (text : Text) → Inside HasPlaces (parse text)
unfolding parse
parse-HasPlaces text = of_words-HasPlaces (words text)
