-- ===== src/Ssh/HostPattern/Globs.antt =====
-- Which texts a pattern with wildcards stands for.
use grenat.Prelude.{
  ℕ, ◌≡◌, ◌↔◌, refl, ap, ◌∙◌, Bool, true, [], ◌∷◌, ◌++◌, ◌==◌, if◌then◌else◌, arith, Bool-cases,
  inl, inr,
}
use grenat.Prelude.Text.{Text}
use grenat.Ssh.HostPattern.{any_rest, after_any, after_same, glob}

-- What a character of a pattern stands for.
pub data Piece : Type 0 where
  any_run any_one : Piece
  exactly : ℕ → Piece

abbrev piece : ℕ → Piece
piece c = if c == b'*' then any_run else (if c == b'?' then any_one else exactly c)

abbrev IsPieceOf : Piece → (Text → Type 0) → Text → Type 0
IsPieceOf any_run P text = (run : Text) × (s : Text) × (text ≡ run ++ s) × P s
IsPieceOf any_one P text = (b : ℕ) × (s : Text) × (text ≡ b ∷ s) × P s
IsPieceOf (exactly c) P text = (s : Text) × (text ≡ c ∷ s) × P s

-- The text is one of those that the pattern stands for.
unfoldable pub IsOf : (pattern text : Text) → Type 0
IsOf [] text = text ≡ []
IsOf (c ∷ rest) text = IsPieceOf (piece c) (IsOf rest) text

module _ (found : Text → Bool) (P : Text → Type 0)
    (same : (s : Text) → (found s ≡ true) ↔ P s) where
  any_rest-finds : (text : Text) → any_rest found text ≡ true → IsPieceOf any_run P text
  unfolding any_rest
  any_rest-finds [] e = ([], [], refl, (same []).0 e)
  any_rest-finds (c ∷ s) e = elim (Bool-cases (found (c ∷ s))) [
    | inl here ↦ ([], c ∷ s, refl, (same (c ∷ s)).0 here)
    | inr other ↦
        let (run, t, at, p) = any_rest-finds s (ground arith) in (c ∷ run, t, ap (λ r. c ∷ r) at, p)
  ]

  finds-any_rest : (run s : Text) → P s → any_rest found (run ++ s) ≡ true
  unfolding any_rest
  finds-any_rest [] [] p = (same []).1 p
  finds-any_rest [] (c ∷ s) p = ground (arith, (same (c ∷ s)).1 p)
  finds-any_rest (c ∷ run) s p = ground (arith, finds-any_rest run s p)

  any_rest_iff : (text : Text) → (any_rest found text ≡ true) ↔ IsPieceOf any_run P text
  any_rest_iff text = (
    λ e. any_rest-finds text e,
    λ (run, s, at, p). ap (any_rest found) at ∙ finds-any_rest run s p,
  )

  after_any_iff : (text : Text) → (after_any found text ≡ true) ↔ IsPieceOf any_one P text
  after_any_iff [] = (λ e. absurd (ground arith), λ (b, s, at, p). absurd (ground arith))
  after_any_iff (c ∷ s) =
      (λ e. (c, s, refl, (same s).0 e), λ (b, t, at, p). ap (after_any found) at ∙ (same t).1 p)

  after_same_iff :
      (b : ℕ) (text : Text) → (after_same b found text ≡ true) ↔ IsPieceOf (exactly b) P text
  after_same_iff b [] = (λ e. absurd (ground arith), λ (s, at, p). absurd (ground arith))
  after_same_iff b (c ∷ s) = (
    λ e.
        let its : c ≡ b = ground arith in (s, ap (λ (n : ℕ). n ∷ s) its, (same s).0 (ground arith)),
    λ (t, at, p). ap (after_same b found) at ∙ ground (arith, (same t).1 p),
  )

pub glob_iff : (pattern text : Text) → (glob pattern text ≡ true) ↔ IsOf pattern text
unfolding glob IsOf
glob_iff [] [] = (λ e. refl, λ e. refl)
glob_iff [] (c ∷ s) = (λ e. absurd (ground arith), λ e. absurd (ground arith))
glob_iff (c ∷ rest) text = elim (Bool-cases (c == b'*')) [
  | inl star ↦ rw (star, glob, IsOf) (any_rest_iff (glob rest) (IsOf rest) (glob_iff rest) text)
  | inr h ↦ elim (Bool-cases (c == b'?')) [
    | inl mark ↦
        rw (h, mark, glob, IsOf) (after_any_iff (glob rest) (IsOf rest) (glob_iff rest) text)
    | inr h' ↦
        rw (h, h', glob, IsOf) (after_same_iff (glob rest) (IsOf rest) (glob_iff rest) c text)
  ]
]
