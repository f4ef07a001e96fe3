-- ===== src/Go/Map.antt =====
-- Go's maps, as association lists with one pair for each key. The program ranges over a map in
-- one place only, for the text of a validation error.
use goaxon.Prelude.{◌≡◌, refl, Option, none, some, List, [], ◌∷◌, arith, Eq, ◌==◌, if◌then◌else◌}

abbrev pub Map : Type 0 → Type 0 → Type 0
Map K V = List (K × V)

module _ {K V : Type 0} ⦃e : Eq K⦄ where
  -- `v, ok := dict[key]`
  unfoldable pub lookup : K → Map K V → Option V
  lookup key [] = none
  lookup key ((own, val) ∷ rest) = if own == key then some val else lookup key rest

  -- `dict[key] = val`
  unfoldable pub insert : K → V → Map K V → Map K V
  insert key val [] = (key, val) ∷ []
  insert key val ((own, old) ∷ rest) =
      if own == key then (key, val) ∷ rest else (own, old) ∷ insert key val rest

  pub lookup-insert :
      (key other : K) (val : V) (dict : Map K V)
      → lookup other (insert key val dict) ≡ (if key == other then some val else lookup other dict)
  unfolding lookup insert
  lookup-insert key other val [] = refl
  lookup-insert key other val ((own, old) ∷ rest) = ground (
    arith,
    e.beq_iff key other,
    e.beq_iff own key,
    e.beq_iff own other,
    lookup-insert key other val rest,
  )
