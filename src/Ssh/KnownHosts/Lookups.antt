-- ===== src/Ssh/KnownHosts/Lookups.antt =====
-- What each answer about a host's key says of the lines of the file.
use grenat.Prelude.{
  ℕ, suc, zero, ◌+◌, ◌≡◌, refl, sym, ap, ◌∙◌, Bool, true, false, not, ◌&&◌, ◌||◌, List, [], ◌∷◌,
  Option, none, some, arith, Bool-cases, Option-cases, inl, inr,
}
use grenat.Prelude.Results.{ok, err}
use grenat.Prelude.Text.{Text}
use grenat.Ssh.HostPattern.{matches}
use grenat.Ssh.KnownHosts.{
  Keys, Entry, revoked_key, other_marker, Lookup, known, unknown, changed, revoked, parse, note,
  visit, verdict, lookup_lines, lookup, lines,
}
use grenat.Ssh.KnownHosts.Answers.{NoLine, IsFirst, IsAnswer, first_found, cons-IsAnswer}

module _ (keys : Keys) (name : Text) (key : keys.Key) where
  -- A line marks the key as revoked, for any host.
  abbrev pub revokes : Option (Entry keys.Key) → Bool
  revokes none = false
  revokes (some entry) = elim entry.marker [
    | some revoked_key ↦ keys.same_data entry.public_key key
    | some other_marker ↦ false
    | none ↦ false
  ]

  -- A line without a marker is about the host.
  abbrev is_about : Entry keys.Key → Bool
  is_about entry = elim entry.marker [
    | some marker ↦ false
    | none ↦ matches keys.mac entry.host_patterns name
  ]

  abbrev pub agrees : Option (Entry keys.Key) → Bool
  agrees none = false
  agrees (some entry) = is_about entry && keys.same_data entry.public_key key

  abbrev pub differs : Option (Entry keys.Key) → Bool
  differs none = false
  differs (some entry) = is_about entry && not (keys.same_data entry.public_key key)

  abbrev pub entry_at : List Text → ℕ → Option (Entry keys.Key)
  entry_at [] k = none
  entry_at (line ∷ ls) zero = parse keys line
  entry_at (line ∷ ls) (suc k) = entry_at ls k

  abbrev Answers : List Text → (index : ℕ) → Bool × Option ℕ → Lookup → Type 0
  Answers ls index found d =
      IsAnswer (λ k. revokes (entry_at ls k)) (λ k. agrees (entry_at ls k))
        (λ k. differs (entry_at ls k)) index found d

  verdict-Answers :
      (index : ℕ) (found : Bool × Option ℕ) → Answers [] index found (verdict keys name key found)
  unfolding verdict
  verdict-Answers index (true, changed_at) = (λ j. refl, inl refl)
  verdict-Answers index (false, some line) = (λ j. refl, λ j. refl, refl, inl refl)
  verdict-Answers index (false, none) = (λ j. refl, λ j. refl, refl, refl, λ j. refl)

  -- The rest of the loop, after a line that leaves `found'`.
  module _ (index : ℕ) (found : Bool × Option ℕ) (line : Text) (ls : List Text)
      (rest : (found' : Bool × Option ℕ)
        → Answers ls (index + 1) found' (lookup_lines keys name key (index + 1) found' ls)) where
    on-Answers :
        (o : Option (Entry keys.Key)) (found' : Bool × Option ℕ)
        → parse keys line ≡ o
        → revokes o ≡ false
        → found'.0 ≡ (found.0 || agrees o)
        → found'.1 ≡ first_found found.1 (differs o) (index + 1)
        → Answers (line ∷ ls) index found (lookup_lines keys name key (index + 1) found' ls)
    on-Answers o found' e free a d =
        cons-IsAnswer (λ k. revokes (entry_at (line ∷ ls) k)) (λ k. agrees (entry_at (line ∷ ls) k))
          (λ k. differs (entry_at (line ∷ ls) k)) index found (ap revokes e ∙ free) found'
          (a ∙ ap (λ x. found.0 || agrees x) (sym e))
          (d ∙ ap (λ x. first_found found.1 (differs x) (index + 1)) (sym e))
          (lookup_lines keys name key (index + 1) found' ls) (rest found')

    first_found-false : (o : Option ℕ) (n : ℕ) → o ≡ first_found o false n
    first_found-false none n = refl
    first_found-false (some m) n = refl

    or_false : (b : Bool) → b ≡ (b || false)
    or_false true = refl
    or_false false = refl

    note-known :
        (entry : Entry keys.Key) (found : Bool × Option ℕ)
        → entry.marker ≡ none
        → (note keys name key (index + 1) entry found).0 ≡ (found.0 || agrees (some entry))
    unfolding note
    note-known entry (k, c) m = elim (Bool-cases (matches keys.mac entry.host_patterns name)) [
      | inl its ↦ elim (Bool-cases (keys.same_data entry.public_key key)) [
        | inl same ↦ rw (m, its, same, note) (ground arith)
        | inr other ↦ rw (m, its, other, note) (or_false k)
      ]
      | inr not_its ↦ rw (m, not_its, note) (or_false k)
    ]

    note-changed :
        (entry : Entry keys.Key) (found : Bool × Option ℕ)
        → entry.marker ≡ none
        → (note keys name key (index + 1) entry found).1
          ≡ first_found found.1 (differs (some entry)) (index + 1)
    unfolding note
    note-changed entry (k, c) m = elim (Bool-cases (matches keys.mac entry.host_patterns name)) [
      | inl its ↦ elim (Bool-cases (keys.same_data entry.public_key key)) [
        | inl same ↦ rw (m, its, same, note) (first_found-false c (index + 1))
        | inr other ↦ rw (m, its, other, note) (kept c)
      ]
      | inr not_its ↦ rw (m, not_its, note) (first_found-false c (index + 1))
    ]
      where
        kept :
            (o : Option ℕ)
            → elim o [ some l ↦ some l | none ↦ some (index + 1) ] ≡ first_found o true (index + 1)
        kept none = refl
        kept (some l) = refl

    visit-Answers :
        (o : Option (Entry keys.Key))
        → parse keys line ≡ o
        → Answers (line ∷ ls) index found (elim (visit keys name key (index + 1) o found) [
          | err early ↦ early
          | ok found' ↦ lookup_lines keys name key (index + 1) found' ls
        ])
    unfolding visit
    visit-Answers none e =
        on-Answers none found e refl (or_false found.0) (first_found-false found.1 (index + 1))
    visit-Answers (some entry) e = elim (Option-cases entry.marker) [
      | inl m ↦ rw m (
          on-Answers (some entry) (note keys name key (index + 1) entry found) e (rw m refl)
            (note-known entry found m) (note-changed entry found m))
      | inr (other_marker, m) ↦ rw m (
          on-Answers (some entry) found e (rw m refl) (rw m (or_false found.0))
            (rw m (first_found-false found.1 (index + 1))))
      | inr (revoked_key, m) ↦ elim (Bool-cases (keys.same_data entry.public_key key)) [
        | inl same ↦
            rw (m, same)
              (0, omega arith, ap revokes e ∙ rw (m, same) refl, λ j h. absurd (omega arith))
        | inr other ↦
            rw (m, other)
              (on-Answers (some entry) found e (rw (m, other) refl) (rw m (or_false found.0))
                (rw m (first_found-false found.1 (index + 1))))
      ]
    ]

  lookup_lines-Answers :
      (index : ℕ) (found : Bool × Option ℕ) (ls : List Text)
      → Answers ls index found (lookup_lines keys name key index found ls)
  unfolding lookup_lines
  lookup_lines-Answers index found [] = verdict-Answers index found
  lookup_lines-Answers index found (line ∷ ls) =
      visit-Answers index found line ls (λ found'. lookup_lines-Answers (index + 1) found' ls)
        (parse keys line) refl

  -- A revocation stands in the line `n`, the first such; or there is none, and a line of the host has the key;
  -- or none has, and the line `n` is the first of the host; or no line is of the host.
  abbrev pub IsVerdict : List Text → Lookup → Type 0
  IsVerdict ls (revoked n) = IsFirst (λ k. revokes (entry_at ls k)) 0 n
  IsVerdict ls known =
      NoLine (λ k. revokes (entry_at ls k)) × ((k : ℕ) × (agrees (entry_at ls k) ≡ true))
  IsVerdict ls (changed n) =
      NoLine (λ k. revokes (entry_at ls k))
      × NoLine (λ k. agrees (entry_at ls k))
      × IsFirst (λ k. differs (entry_at ls k)) 0 n
  IsVerdict ls unknown =
      NoLine (λ k. revokes (entry_at ls k))
      × NoLine (λ k. agrees (entry_at ls k))
      × NoLine (λ k. differs (entry_at ls k))

  -- A key is revoked where a line of the file revokes it, for whatever host, and the first such line is told;
  -- else it is known where a line of the host has it; else changed where a line of the host has another, and
  -- the first such line is told; else unknown. Lines with a marker count for no host.
  pub lookup-IsVerdict : (text : Text) → IsVerdict (lines text) (lookup keys name key text)
  unfolding lookup
  lookup-IsVerdict text =
      answer (lookup_lines keys name key 0 (false, none) (lines text))
        (lookup_lines-Answers 0 (false, none) (lines text))
    where
      answer : (d : Lookup) → Answers (lines text) 0 (false, none) d → IsVerdict (lines text) d
      answer (revoked n) h = h
      answer known (h, how) = (h, elim how [ inl e ↦ absurd (ground arith) | inr k ↦ k ])
      answer (changed n) (h, g, b, how) =
          (h, g, elim how [ inl e ↦ absurd (ground arith) | inr (e, first) ↦ first ])
      answer unknown (h, g, b, c, d) = (h, g, d)
