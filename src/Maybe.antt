-- ===== src/Maybe.antt =====
-- types/maybe/maybe.go. `zero` is the zero value of the type, which an empty `Maybe` holds.
pub mod Laws
pub mod Json
use goaxon.Prelude.{String, Bool, true, false, not, if◌then◌else◌}
use goaxon.Go.Outcome.{Outcome, ok, OrPanic}
use goaxon.Prelude.{inl, inr}

-- The zero value of a Go type.
pub record Zero (A : Type 0) : Type 0 where
  pub zero_value : A

pub record Maybe (T : Type 0) : Type 0 where
  pub value : T
  pub present : Bool

module _ {T : Type 0} where
  -- `Some`
  abbrev pub some : T → Maybe T
  some v = record { value = v; present = true }

  -- `None`, and `Maybe[T]{}`
  abbrev pub none : ⦃z : Zero T⦄ → Maybe T
  none ⦃z⦄ = record { value = z.zero_value; present = false }

  -- `Get`
  abbrev pub get : Maybe T → T × Bool
  get m = (m.value, m.present)

  -- `IsSome`
  abbrev pub is_some : Maybe T → Bool
  is_some m = m.present

  -- `IsNone`
  abbrev pub is_none : Maybe T → Bool
  is_none m = not m.present

  -- `OrElse`
  unfoldable pub or_else : Maybe T → T → T
  or_else m fallback = if m.present then m.value else fallback

  -- `MustGet`
  unfoldable pub must_get : Maybe T → OrPanic T
  must_get m = if not m.present then inr "maybe: MustGet on None" else inl m.value

module _ {A B : Type 0} ⦃z : Zero B⦄ where
  -- `Map`
  unfoldable pub map : Maybe A → (A → B) → Maybe B
  map m f = if not m.present then none else some (f m.value)

  -- `FlatMap`
  unfoldable pub flat_map : Maybe A → (A → Maybe B) → Maybe B
  flat_map m f = if not m.present then none else f m.value
