-- ===== src/Prelude/Dict.antt =====
-- `HashMap<PathBuf, _>` as an association list: the operations that the components use, and what a
-- lookup says after each.
use Prim.Native.String.{String}
use text.Mathlib.Text.{◌==◌}
use text.Mathlib.TextEquality.{eq_iff}
use grenat.Prelude.{
  ◌≡◌, refl, Bool, true, false, ◌||◌, List, [], ◌∷◌, ◌++◌, Option, none, some, if◌then◌else◌, arith,
}

abbrev pub is_some {ℓ} : {A : Type ℓ} → Option A → Bool
is_some none = false
is_some (some a) = true

abbrev pub Dict : Type 0 → Type 0
Dict V = List (String × V)

-- `contains`, of a list of keys.
unfoldable pub member : String → List String → Bool
member k [] = false
member k (j ∷ js) = j == k || member k js

module _ {V : Type 0} where
  unfoldable pub lookup : String → Dict V → Option V
  lookup key [] = none
  lookup key ((other, value) ∷ rest) =
      let later = lookup key rest in if other == key then some value else later

  unfoldable pub insert : String → V → Dict V → Dict V
  insert key value [] = (key, value) ∷ []
  insert key value ((other, old) ∷ rest) =
      if other == key then (key, value) ∷ rest else (other, old) ∷ insert key value rest

  unfoldable pub remove : String → Dict V → Dict V
  remove key [] = []
  remove key ((other, old) ∷ rest) =
      if other == key then remove key rest else (other, old) ∷ remove key rest

  -- The entries whose keys pass a test, and the keys of the others.
  unfoldable pub retain : (String → Bool) → Dict V → Dict V
  retain keep [] = []
  retain keep ((other, old) ∷ rest) =
      if keep other then (other, old) ∷ retain keep rest else retain keep rest

  unfoldable pub dropped : (String → Bool) → Dict V → List String
  dropped keep [] = []
  dropped keep ((other, old) ∷ rest) =
      if keep other then dropped keep rest else other ∷ dropped keep rest

  pub lookup-insert :
      (key other : String) (value : V) (rest : Dict V)
      → lookup other (insert key value rest)
        ≡ (if key == other then some value else lookup other rest)
  unfolding lookup insert
  lookup-insert key other value [] = refl
  lookup-insert key other value ((first, old) ∷ rest) = ground (
    arith,
    lookup-insert key other value rest,
    eq_iff first other,
    eq_iff first key,
    eq_iff key other,
  )

  pub lookup-remove :
      (key other : String) (rest : Dict V)
      → lookup other (remove key rest) ≡ (if key == other then none else lookup other rest)
  unfolding lookup remove
  lookup-remove key other [] = ground arith
  lookup-remove key other ((first, old) ∷ rest) =
      ground (
        arith,
        eq_iff key other,
        eq_iff first key,
        eq_iff first other,
        lookup-remove key other rest,
      )

  pub lookup-retain :
      (keep : String → Bool) (other : String) (rest : Dict V)
      → lookup other (retain keep rest) ≡ (if keep other then lookup other rest else none)
  unfolding lookup retain
  lookup-retain keep other [] = ground arith
  lookup-retain keep other ((first, old) ∷ rest) =
      ground (arith, eq_iff first other, lookup-retain keep other rest)

  pub member-dropped :
      (keep : String → Bool) (other : String) (rest : Dict V)
      → member other (dropped keep rest)
        ≡ (if keep other then false else is_some (lookup other rest))
  unfolding member dropped lookup
  member-dropped keep other [] = ground arith
  member-dropped keep other ((first, old) ∷ rest) =
      ground (arith, eq_iff first other, member-dropped keep other rest)

pub member-append :
    (key : String) (xs ys : List String) → member key (xs ++ ys) ≡ (member key xs || member key ys)
unfolding member
member-append key [] ys = refl
member-append key (x ∷ xs) ys = ground (arith, member-append key xs ys)
