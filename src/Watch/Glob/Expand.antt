-- ===== src/Watch/Glob/Expand.antt =====
-- `expand` of crates/grenat_watch/src/glob.rs: every pattern that a text with `{a,b}` stands for.
-- Positions count characters; the code's count bytes, and cut at the same places.
use grenat.Prelude.{
  ℕ, zero, suc, ◌+◌, ◌-◌, ◌≤◌, ◌<◌, ◌≡◌, refl, Bool, true, false, List, [], ◌∷◌, ◌++◌, Option, none,
  some, length, length-append, take, drop, length-take, length-drop, ltb, ◌==◌, if◌then◌else◌,
  arith, Option-cases, Bool-cases, inl, inr, ◌⊎◌,
}
use grenat.Prelude.Text.{Text, has}
use grenat.Prelude.Results.{Result, ok, err, ◌>>=◌}

pub data ExpandError : Type 0 where
  closes_nothing never_closed too_many : ExpandError
  out_of_fuel : ExpandError

abbrev pub max_alternatives : ℕ
max_alternatives = 64

-- `text.find('{')`.
unfoldable pub find_open : Text → Option ℕ
find_open [] = none
find_open (c ∷ s) =
    let later = find_open s in
    if c == b'{' then some 0 else elim later [ none ↦ none | some i ↦ some (suc i) ]

-- The scan from the opening brace: where it is closed, and the commas at its own depth.
unfoldable pub scan : (i depth : ℕ) → List ℕ → Text → Option (ℕ × List ℕ)
scan i depth commas [] = none
scan i depth commas (c ∷ s) =
    let deeper = scan (suc i) (suc depth) commas s in
    let shallower = scan (suc i) (depth - 1) commas s in
    let comma = scan (suc i) depth (commas ++ i ∷ []) s in
    let other = scan (suc i) depth commas s in
    if c == b'{'
    then deeper
    else if c == b'}'
    then (if depth == 1 then some (i, commas) else shallower)
    else if c == b','
    then (if depth == 1 then comma else other)
    else other

-- `&text[from..to]`.
unfoldable pub slice : Text → ℕ → ℕ → Text
slice text from to = take (to - from) (drop from text)

-- `out.push(expanded)`, and the limit.
unfoldable pub push_all : List Text → List Text → Result ExpandError (List Text)
push_all [] out = ok out
push_all (e ∷ es) out =
    let more = push_all es (out ++ e ∷ []) in
    if ltb max_alternatives (length (out ++ e ∷ [])) then err too_many else more

-- The loop over the choices: each pair of neighbours in `bounds` has one between.
unfoldable pub expand_choices :
    (Text → Result ExpandError (List Text))
    → (text head tail : Text) → List ℕ
    → List Text
    → Result ExpandError (List Text)
unfolding slice push_all
expand_choices again text head tail [] out = ok out
expand_choices again text head tail (a ∷ []) out = ok out
expand_choices again text head tail (a ∷ b ∷ bounds) out = do
  expanded ← again (head ++ (slice text (a + 1) b ++ tail))
  out' ← push_all expanded out
  expand_choices again text head tail (b ∷ bounds) out'

unfoldable pub expand_fuel : ℕ → Text → Result ExpandError (List Text)
unfolding find_open scan expand_choices
expand_fuel zero text = err out_of_fuel
expand_fuel (suc fuel) text = elim (find_open text) [
  | none ↦ if has b'}' text then err closes_nothing else ok (text ∷ [])
  | some open_at ↦ elim (scan open_at 0 [] (drop open_at text)) [
    | none ↦ err never_closed
    | some (close_at, commas) ↦
        expand_choices (expand_fuel fuel) text (take open_at text) (drop (close_at + 1) text)
          (open_at ∷ (commas ++ close_at ∷ [])) []
  ]
]

unfoldable pub expand : Text → Result ExpandError (List Text)
unfolding expand_fuel
expand text = expand_fuel (length text + 1) text

-- No brace is left in any of the texts.
abbrev pub Plain : List Text → Type 0
Plain [] = Unit
Plain (t ∷ ts) = (has b'{' t ≡ false) × (has b'}' t ≡ false) × Plain ts

-- The texts that a successful expansion gives, or one of the three refusals of the code; `least` is how many
-- there are at least.
abbrev pub Gives : (least : ℕ) → Result ExpandError (List Text) → Type 0
Gives least (ok out) = Plain out × (length out ≤ max_alternatives) × (least ≤ length out)
Gives least (err out_of_fuel) = ⊥
Gives least (err closes_nothing) = Unit
Gives least (err never_closed) = Unit
Gives least (err too_many) = Unit

abbrev pub Expands : Result ExpandError (List Text) → Type 0
Expands r = Gives 1 r

Plain-append : (xs ys : List Text) → Plain xs → Plain ys → Plain (xs ++ ys)
Plain-append [] ys p q = q
Plain-append (x ∷ xs) ys p q = (p.0, p.1, Plain-append xs ys p.2 q)

push_all-Gives :
    (es out : List Text)
    → Plain es
    → Plain out
    → length out ≤ max_alternatives
    → (least : ℕ) → least ≤ length es + length out
    → Gives least (push_all es out)
unfolding push_all
push_all-Gives [] out p q h least l = (q, h, omega arith)
push_all-Gives (e ∷ es) out p q h least l =
    elim (Bool-cases (ltb max_alternatives (length (out ++ e ∷ [])))) [
      | inl over ↦ rw (over, push_all) tt
      | inr fits ↦
          rw (fits, push_all)
            (push_all-Gives es (out ++ e ∷ []) p.2 (Plain-append out (e ∷ []) q (p.0, p.1, tt))
              (ground arith) least (omega (arith, length-append out (e ∷ []))))
    ]

-- All positions lie from `lo` to `hi`.
abbrev InRange : ℕ → ℕ → List ℕ → Type 0
InRange lo hi [] = Unit
InRange lo hi (x ∷ xs) = (lo ≤ x) × (x ≤ hi) × InRange lo hi xs

InRange-append :
    (lo hi x : ℕ) (xs : List ℕ) → InRange lo hi xs → lo ≤ x → x ≤ hi → InRange lo hi (xs ++ x ∷ [])
InRange-append lo hi x [] r h k = (h, k, tt)
InRange-append lo hi x (y ∷ xs) r h k = (r.0, r.1, InRange-append lo hi x xs r.2 h k)

InRange-mono : (lo hi hi' : ℕ) (xs : List ℕ) → hi ≤ hi' → InRange lo hi xs → InRange lo hi' xs
InRange-mono lo hi hi' [] h r = tt
InRange-mono lo hi hi' (x ∷ xs) h r = (r.0, omega arith, InRange-mono lo hi hi' xs h r.2)

-- The closing brace is in the text, and the commas between the braces.
scan-InRange :
    (lo i depth : ℕ) (commas : List ℕ) (s : Text) (close_at : ℕ) (found : List ℕ)
    → lo ≤ i
    → InRange lo i commas
    → scan i depth commas s ≡ some (close_at, found)
    → InRange lo close_at found × (i ≤ close_at) × (close_at < i + length s)
unfolding scan
scan-InRange lo i depth commas [] close_at found h r e = ground arith
scan-InRange lo i depth commas (c ∷ s) close_at found h r e =
    let r' = InRange-mono lo i (suc i) commas (omega arith) r in
    let r'' = InRange-append lo (suc i) i commas r' h (omega arith) in
    ground (
      arith,
      scan-InRange lo (suc i) (suc depth) commas s close_at found (omega arith) r',
      scan-InRange lo (suc i) (depth - 1) commas s close_at found (omega arith) r',
      scan-InRange lo (suc i) depth (commas ++ i ∷ []) s close_at found (omega arith) r'',
      scan-InRange lo (suc i) depth commas s close_at found (omega arith) r',
    )

slice-length :
    (text : Text) (o k a b : ℕ)
    → k < length text
    → o ≤ k
    → o ≤ a
    → b ≤ k
    → length (take o text ++ (slice text (a + 1) b ++ drop (k + 1) text)) < length text
unfolding slice
slice-length text o k a b h w p q =
    let head = length-take o text in
    let choice = length-take (b - (a + 1)) (drop (a + 1) text) in
    let tail = length-drop (k + 1) text in
    let inner = length-append (slice text (a + 1) b) (drop (k + 1) text) in
    omega (
      arith,
      head,
      choice,
      tail,
      inner,
      length-drop (a + 1) text,
      length-append (take o text) (slice text (a + 1) b ++ drop (k + 1) text),
    )

module _ (again : Text → Result ExpandError (List Text)) (text : Text) (o k : ℕ)
    (within : k < length text) (ordered : o ≤ k)
    (smaller : (t : Text) → length t < length text → Expands (again t)) where
  choices-Expands :
      (bounds : List ℕ) (out : List Text)
      → InRange o k bounds
      → Plain out
      → length out ≤ max_alternatives
      → (1 ≤ length out) ⊎ (2 ≤ length bounds)
      → Expands (expand_choices again text (take o text) (drop (k + 1) text) bounds out)
  unfolding expand_choices
  choices-Expands [] out r p h l = (p, h, elim l [ inl e ↦ e | inr e ↦ absurd (omega arith) ])
  choices-Expands (a ∷ []) out r p h l = (p, h, elim l [ inl e ↦ e | inr e ↦ absurd (omega arith) ])
  choices-Expands (a ∷ b ∷ bounds) out r p h l =
      let t = take o text ++ (slice text (a + 1) b ++ drop (k + 1) text) in
      bind_expanded (again t) (smaller t (slice-length text o k a b within ordered r.0 r.2.1))
        (λ out' p' h' l'. choices-Expands (b ∷ bounds) out' r.2 p' h' (inl l'))
    where
      bind_out :
          (m : Result ExpandError (List Text))
          → Expands m
          → ((out' : List Text)
              → Plain out'
              → length out' ≤ max_alternatives
              → 1 ≤ length out'
              → Expands
                  (expand_choices again text (take o text) (drop (k + 1) text) (b ∷ bounds) out'))
          → Expands (m >>= expand_choices again text (take o text) (drop (k + 1) text) (b ∷ bounds))
      bind_out (ok out') e rest = rest out' e.0 e.1 e.2
      bind_out (err out_of_fuel) e rest = e
      bind_out (err _) e rest = tt

      bind_expanded :
          (m : Result ExpandError (List Text))
          → Expands m
          → ((out' : List Text)
              → Plain out'
              → length out' ≤ max_alternatives
              → 1 ≤ length out'
              → Expands
                  (expand_choices again text (take o text) (drop (k + 1) text) (b ∷ bounds) out'))
          → Expands (
              m >>= λ es.
              push_all es out
              >>= expand_choices again text (take o text) (drop (k + 1) text) (b ∷ bounds))
      bind_expanded (ok es) e rest =
          bind_out (push_all es out) (push_all-Gives es out e.0 p h 1 (omega (arith, e.2))) rest
      bind_expanded (err out_of_fuel) e rest = e
      bind_expanded (err _) e rest = tt

find_open-lt : (s : Text) (o : ℕ) → find_open s ≡ some o → o < length s
unfolding find_open
find_open-lt [] o e = ground arith
find_open-lt (c ∷ s) o e = elim (Option-cases (find_open s)) [
  | inl n ↦ ground arith
  | inr (i, n) ↦ ground (arith, find_open-lt s i n)
]

find_open-none : (s : Text) → find_open s ≡ none → has b'{' s ≡ false
unfolding find_open has
find_open-none [] e = refl
find_open-none (c ∷ s) e = ground (arith, find_open-none s)

-- The fuel is enough: each expansion is of a shorter text.
expand_fuel-Expands :
    (fuel : ℕ) (text : Text) → length text < fuel → Expands (expand_fuel fuel text)
unfolding expand_fuel
expand_fuel-Expands zero text h = absurd (omega arith)
expand_fuel-Expands (suc fuel) text h = elim (Option-cases (find_open text)) [
  | inl n ↦ rw (n, expand_fuel) (no_brace (has b'}' text) refl n)
  | inr (o, e) ↦ elim (Option-cases (scan o 0 [] (drop o text))) [
    | inl n ↦ rw (e, expand_fuel, n) tt
    | inr ((k, commas), n) ↦
        let (r, w, b) = scan-InRange o o 0 [] (drop o text) k commas (omega arith) tt n in
        let within : k < length text = omega (arith, length-drop o text, find_open-lt text o e) in
        rw (e, expand_fuel, n)
          (choices-Expands (expand_fuel fuel) text o k within w
            (λ t shorter. expand_fuel-Expands fuel t (omega arith)) (o ∷ (commas ++ k ∷ [])) []
            (omega arith, w, InRange-append o k k commas r w (omega arith)) tt (omega arith)
            (inr (omega (arith, length-append commas (k ∷ [])))))
  ]
]
  where
    no_brace :
        (b : Bool)
        → has b'}' text ≡ b
        → find_open text ≡ none
        → Expands (if b then err closes_nothing else ok (text ∷ []))
    no_brace true e n = tt
    no_brace false e n = ((find_open-none text n, e, tt), omega arith, omega arith)

-- `expand` always ends, with one of its three refusals or with 1 to 64 texts in which no brace is left.
pub expand-Expands : (text : Text) → Expands (expand text)
unfolding expand
expand-Expands text = expand_fuel-Expands (length text + 1) text (omega arith)
