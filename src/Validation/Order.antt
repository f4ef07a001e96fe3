-- ===== src/Validation/Order.antt =====
-- validation/validation.go: the text of a validation error, and the order in which its fields are
-- visited.
use Prim.Native.String.{◌++◌ as cat}
use mathlib.Core.List.Permᴰ
use mathlib.Core.List.{Perm, Permᴰ}
use mathlib.Core.Logic.{∥∥₁_elim}
use mathlib.Core.HLevel.{hedberg}
use text.Mathlib.TextEquality.{eq_iff}
use goaxon.Prelude.{◌==◌, string_eq, Bool-cases, inl, inr, String, ◌≡◌, ap}
use goaxon.Go.Error.{Fields}
use goaxon.Go.Sort.{join_strings}
use goaxon.Go.Sort.Permuted.{sort_strings-Permᴰ}
use goaxon.Validation.{fields_text}

String-discrete : Discrete String
String-discrete s t = elim (Bool-cases (s == t)) [
  | inl same ↦ yes ((eq_iff s t).0 same)
  | inr other ↦ no (λ p. cc (other, (eq_iff s t).1 p))
]

text_of_order : (fs gs : Fields) → Permᴰ fs gs → fields_text fs ≡ fields_text gs
unfolding fields_text
text_of_order fs gs d =
    ap (λ l. cat "validation: " (join_strings "; " l)) (sort_strings-Permᴰ (Permᴰ.map _ d))

-- The text of a validation error does not depend on the order in which `range` visits the fields
-- of the map: two lists of fields that are permutations of each other have the same text.
pub fields_text-Perm : (fs gs : Fields) → Perm fs gs → fields_text fs ≡ fields_text gs
fields_text-Perm fs gs p = ∥∥₁_elim p (hedberg String-discrete _ _) (text_of_order fs gs)
