-- ===== src/Lexer/Source/Bounds.antt =====
-- Where what is looked for in a source text can be.
use grenat.Prelude.{
  ℕ, zero, suc, ◌+◌, ◌-◌, ◌≤◌, ◌<◌, ◌≡◌, refl, Bool, true, false, [], ◌∷◌, some, ◌==◌, arith,
  Option-cases, inl, inr,
}
use grenat.Prelude.Text.{Text, starts_with}
use grenat.Lexer.Source.{width, bytes, from, find, find_or, line_end, run_of, nth, upto, slice}

pub width_pos : (c : ℕ) → 1 ≤ width c
unfolding width
width_pos c = ground arith

pub bytes-from : (p : ℕ) (s : Text) → bytes (from p s) ≤ bytes s - p
unfolding from bytes
bytes-from p [] = omega arith
bytes-from p (c ∷ s) = ground (arith, bytes-from (p - width c) s)

pub nth-bytes : (k : ℕ) (s : Text) (c : ℕ) → nth k s ≡ some c → k + width c ≤ bytes s
unfolding nth bytes
nth-bytes k [] c e = absurd (ground arith)
nth-bytes zero (d ∷ s) c e = ground arith
nth-bytes (suc k) (d ∷ s) c e = omega (arith, nth-bytes k s c e, width_pos d)

-- A character that is read at a distance from a position lies in the text.
pub nth-from : (k p : ℕ) (s : Text) (c : ℕ) → nth k (from p s) ≡ some c → p + k + width c ≤ bytes s
nth-from k p s c e = omega (arith, nth-bytes k (from p s) c e, bytes-from p s, width_pos c)

pub run_of-bytes : (test : ℕ → Bool) (s : Text) → run_of test s ≤ bytes s
unfolding run_of bytes
run_of-bytes test [] = omega arith
run_of-bytes test (c ∷ s) = ground (arith, run_of-bytes test s)

pub run_of-some :
    (test : ℕ → Bool) (s : Text) (c : ℕ) → nth 0 s ≡ some c → test c ≡ true → 1 ≤ run_of test s
unfolding run_of nth
run_of-some test [] c e h = absurd (ground arith)
run_of-some test (d ∷ s) c e h = ground (arith, width_pos d)

pub find-bytes : (c : ℕ) (s : Text) (i : ℕ) → find c s ≡ some i → i < bytes s
unfolding find bytes
find-bytes c [] i e = absurd (ground arith)
find-bytes c (d ∷ s) i e = elim (Option-cases (find c s)) [
  | inl n ↦ ground (arith, width_pos d)
  | inr (j, f) ↦ ground (arith, width_pos d, find-bytes c s j f)
]

pub find_or-bounds :
    (c : ℕ) (s : Text) (p : ℕ)
    → p ≤ bytes s
    → (p ≤ find_or (bytes s) p (find c (from p s)))
      × (find_or (bytes s) p (find c (from p s)) ≤ bytes s)
find_or-bounds c s p h = elim (Option-cases (find c (from p s))) [
  | inl n ↦ rw n (h, omega arith)
  | inr (i, e) ↦ rw e (omega arith, omega (arith, find-bytes c (from p s) i e, bytes-from p s))
]

pub line_end-bounds :
    (s : Text) (p : ℕ) → p ≤ bytes s → (p ≤ line_end s p) × (line_end s p ≤ bytes s)
unfolding line_end
line_end-bounds s p h = find_or-bounds b'\n' s p h

pub starts_with-bytes : (p s : Text) → starts_with p s ≡ true → bytes p ≤ bytes s
unfolding starts_with bytes
starts_with-bytes [] s h = omega arith
starts_with-bytes (a ∷ p) [] h = absurd (ground arith)
starts_with-bytes (a ∷ p) (b ∷ s) h =
    let same : a ≡ b = ground arith in rw same (ground (arith, starts_with-bytes p s))

pub find-past :
    (c : ℕ) (s : Text) (d i : ℕ) → nth 0 s ≡ some d → (d == c) ≡ false → find c s ≡ some i → 1 ≤ i
unfolding find nth
find-past c [] d i e h f = absurd (ground arith)
find-past c (b ∷ s) d i e h f = elim (Option-cases (find c s)) [
  | inl n ↦ ground arith
  | inr (j, g) ↦ ground (arith, width_pos b)
]

-- A line's end after a character that is none lies past that character.
pub find_or-past :
    (c : ℕ) (s : Text) (p d : ℕ)
    → nth 0 (from p s) ≡ some d
    → (d == c) ≡ false
    → p + 1 ≤ find_or (bytes s) p (find c (from p s))
find_or-past c s p d e h = elim (Option-cases (find c (from p s))) [
  | inl n ↦ rw n (omega (arith, nth-from 0 p s d e, width_pos d))
  | inr (i, f) ↦ rw f (omega (arith, find-past c (from p s) d i e h f))
]

upto-all : (p : ℕ) (s : Text) → bytes s ≤ p → upto p s ≡ s
unfolding upto bytes
upto-all p [] h = refl
upto-all p (c ∷ s) h = ground (arith, upto-all (p - width c) s, width_pos c)

-- Up to the end there is all of what starts at a position.
pub slice-to_end : (s : Text) (p : ℕ) → slice s p (bytes s) ≡ from p s
unfolding slice
slice-to_end s p = upto-all (bytes s - p) (from p s) (bytes-from p s)

bytes-upto : (p : ℕ) (s : Text) → bytes (upto p s) ≤ bytes s
unfolding upto bytes
bytes-upto p [] = omega arith
bytes-upto p (c ∷ s) = ground (arith, bytes-upto (p - width c) s)

pub slice-bytes : (s : Text) (a b : ℕ) → bytes (slice s a b) ≤ bytes s - a
unfolding slice
slice-bytes s a b = omega (arith, bytes-upto (b - a) (from a s), bytes-from a s)
