-- ===== src/Lexer/Scan/Punct/Munch.antt =====
-- Punctuation is read as far as it goes.
use grenat.Prelude.{
  ℕ, ◌+◌, ◌≤◌, ◌≡◌, refl, sym, ◌∙◌, ap, subst, Bool, true, false, ◌&&◌, [], ◌∷◌, ◌++◌, Option, none,
  some, leb, ◌==◌, if◌then◌else◌, arith, Bool-cases, Option-cases, inl, inr,
}
use grenat.Prelude.Text.{Text, starts_with}
use grenat.Lexer.Token.{TokenKind, colon, colon_colon, punct}
use grenat.Lexer.Source.{bytes, width}
use grenat.Lexer.Scan.Punct.{kind_at}

-- The kinds that the reader of colons makes.
abbrev pub is_colon : TokenKind → Bool
is_colon colon = true
is_colon colon_colon = true
is_colon _ = false

-- No punctuation that the text `c ∷ s` starts with is longer than what is read there, which is
-- the punctuation of its kind.
abbrev pub IsLongest : Text → Option (TokenKind × ℕ) → Type 0
IsLongest s none = (k : TokenKind) → is_colon k ≡ false → starts_with (punct k) s ≡ false
IsLongest s (some (k, eaten)) =
    (starts_with (punct k) s ≡ true)
    × (bytes (punct k) ≡ 1 + eaten)
    × ((k' : TokenKind)
        → is_colon k' ≡ false
        → starts_with (punct k') s ≡ true
        → bytes (punct k') ≤ 1 + eaten)

abbrev is_spelled : Text → Option (TokenKind × ℕ) → Bool
is_spelled s none = true
is_spelled s (some (k, eaten)) = starts_with (punct k) s && bytes (punct k) == 1 + eaten

abbrev reach : Option (TokenKind × ℕ) → ℕ
reach none = 0
reach (some (k, eaten)) = 1 + eaten

abbrev reach_at : Text → ℕ
reach_at [] = 0
reach_at (c ∷ s) = reach (kind_at c s)

-- The character `a` is read as it is spelled.
abbrev IsRead : ℕ → Text → Type 0
IsRead a s = is_spelled (a ∷ s) (kind_at a s) ≡ true

spelled_if :
    (c a : ℕ) (s : Text) (x y : Option (TokenKind × ℕ))
    → is_spelled (a ∷ s) x ≡ true
    → is_spelled (c ∷ s) y ≡ true
    → is_spelled (c ∷ s) (if c == a then x else y) ≡ true
spelled_if c a s x y h k = elim (Bool-cases (c == a)) [
  | inl e ↦
      let same : a ≡ c = ground arith in rw e (subst (λ b. is_spelled (b ∷ s) x ≡ true) same h)
  | inr e ↦ rw e k
]

-- The characters that others may follow.
spelled_with_next :
    (s : Text)
    → IsRead b'.' s
      × IsRead b'&' s
      × IsRead b'|' s
      × IsRead b'=' s
      × IsRead b'!' s
      × IsRead b'<' s
      × IsRead b'>' s
      × IsRead b'+' s
      × IsRead b'-' s
      × IsRead b'*' s
      × IsRead b'/' s
unfolding kind_at punct starts_with bytes width
spelled_with_next [] = (refl, refl, refl, refl, refl, refl, refl, refl, refl, refl, refl)
spelled_with_next (d ∷ []) = (
  ground arith,
  ground arith,
  ground arith,
  ground arith,
  ground arith,
  ground arith,
  ground arith,
  ground arith,
  ground arith,
  ground arith,
  ground arith,
)
spelled_with_next (d ∷ e ∷ s) = (
  ground arith,
  ground arith,
  ground arith,
  ground arith,
  ground arith,
  ground arith,
  ground arith,
  ground arith,
  ground arith,
  ground arith,
  ground arith,
)

kind_at-IsRead : (c : ℕ) (s : Text) → IsRead c s
unfolding kind_at punct starts_with bytes width
kind_at-IsRead c s =
    let (l1, l2, l3, l4, l5, l6, l7, l8, l9, l10, l11) = spelled_with_next s in
    spelled_if c b'(' s _ _ refl (
      spelled_if c b')' s _ _ refl (
        spelled_if c b'[' s _ _ refl (
          spelled_if c b']' s _ _ refl (
            spelled_if c b'{' s _ _ refl (
              spelled_if c b'}' s _ _ refl (
                spelled_if c b',' s _ _ refl (
                  spelled_if c b'~' s _ _ refl (
                    spelled_if c b'^' s _ _ refl (
                      spelled_if c b'?' s _ _ refl (
                        spelled_if c b'%' s _ _ refl (
                          spelled_if c b'.' s _ _ l1 (
                            spelled_if c b'&' s _ _ l2 (
                              spelled_if c b'|' s _ _ l3 (
                                spelled_if c b'=' s _ _ l4 (
                                  spelled_if c b'!' s _ _ l5 (
                                    spelled_if c b'<' s _ _ l6 (
                                      spelled_if c b'>' s _ _ l7 (
                                        spelled_if c b'+' s _ _ l8 (
                                          spelled_if c b'-' s _ _ l9 (
                                            spelled_if c b'*' s _ _ l10
                                              (spelled_if c b'/' s _ _ l11 refl)))))))))))))))))))))

starts_with-append : (p s : Text) → starts_with p s ≡ true → (t : Text) × (s ≡ p ++ t)
unfolding starts_with
starts_with-append [] s h = (s, refl)
starts_with-append (a ∷ p) [] h = absurd (ground arith)
starts_with-append (a ∷ p) (b ∷ s) h =
    let (t, e) = starts_with-append p s (ground arith) in
    let same : a ≡ b = ground arith in
    (t, ap (λ (c : ℕ). c ∷ s) (sym same) ∙ ap (λ (r : Text). a ∷ r) e)

reach-punct :
    (k : TokenKind) (t : Text)
    → is_colon k ≡ false
    → leb (bytes (punct k)) (reach_at (punct k ++ t)) ≡ true
unfolding kind_at punct bytes width
reach-punct colon t h = absurd (ground arith)
reach-punct colon_colon t h = absurd (ground arith)
reach-punct _ t h = ground arith

punct-pos : (k : TokenKind) → 1 ≤ bytes (punct k)
unfolding punct bytes width
punct-pos _ = ground arith

reach-starts_with :
    (k : TokenKind) (c : ℕ) (s : Text)
    → is_colon k ≡ false
    → starts_with (punct k) (c ∷ s) ≡ true
    → leb (bytes (punct k)) (reach (kind_at c s)) ≡ true
reach-starts_with k c s h starts =
    let (t, e) = starts_with-append (punct k) (c ∷ s) starts in
    subst (λ r. leb (bytes (punct k)) (reach_at r) ≡ true) (sym e) (reach-punct k t h)

-- At every character, the punctuation that is read is that of its kind, and none other that stands there,
-- but for colons, is longer; where none is read none stands there.
pub kind_at-IsLongest : (c : ℕ) (s : Text) → IsLongest (c ∷ s) (kind_at c s)
kind_at-IsLongest c s = elim (Option-cases (kind_at c s)) [
  | inl n ↦ rw n (λ k h. elim (Bool-cases (starts_with (punct k) (c ∷ s))) [
    | inl starts ↦ absurd (ground (arith, reach-starts_with k c s h starts, punct-pos k))
    | inr f ↦ f
  ])
  | inr ((k, eaten), e) ↦
      let spelled = subst (λ o. is_spelled (c ∷ s) o ≡ true) e (kind_at-IsRead c s) in
      rw e (
        ground arith,
        ground arith,
        λ k' h starts.
            let long : leb (bytes (punct k')) (reach (some (k, eaten))) ≡ true =
              subst (λ o. leb (bytes (punct k')) (reach o) ≡ true) e
                (reach-starts_with k' c s h starts) in
            ground arith,
      )
]
