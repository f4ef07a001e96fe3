-- ===== src/Go/Sort.antt =====
-- `sort.Strings` and `strings.Join`.
pub mod Order
pub mod Permuted
use Prim.Native.Nat.{Ordering}
use Prim.Native.String.{◌++◌ as cat, compare}
use goaxon.Prelude.{String, Bool, true, false, List, [], ◌∷◌, if◌then◌else◌}

-- a <= b, in the order of the bytes
abbrev pub str_leb : String → String → Bool
str_leb a b = elim (compare a b) [ Ordering.gt ↦ false | _ ↦ true ]

unfoldable pub insert_sorted : String → List String → List String
insert_sorted a [] = a ∷ []
insert_sorted a (b ∷ bs) = if str_leb a b then a ∷ b ∷ bs else b ∷ insert_sorted a bs

-- The result of sorting does not depend on the algorithm, since texts that compare equal are equal.
unfoldable pub sort_strings : List String → List String
unfolding insert_sorted
sort_strings [] = []
sort_strings (a ∷ rest) = insert_sorted a (sort_strings rest)

unfoldable pub join_strings : String → List String → String
join_strings sep [] = ""
join_strings sep (a ∷ []) = a
join_strings sep (a ∷ b ∷ bs) = cat a (cat sep (join_strings sep (b ∷ bs)))
