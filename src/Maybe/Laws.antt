-- ===== src/Maybe/Laws.antt =====
-- types/maybe/maybe.go: `OrElse`, `MustGet`, `Map` and `FlatMap`, beside the functions on optional
-- values.
use goaxon.Prelude.{sym, Bool, true, false, Option, none, some, ◌≡◌, refl, inl, ◌↔◌}
use goaxon.Maybe
use goaxon.Maybe.{Zero, Maybe, get, is_some, is_none, or_else, must_get, map, flat_map}

-- An absent value is the zero value: the fields are not exported, so each `Maybe` is of this kind.
abbrev pub IsCanonical : {T : Type 0} → ⦃z : Zero T⦄ → Maybe T → Type 0
IsCanonical ⦃z⦄ m = m.present ≡ false → m.value ≡ z.zero_value

abbrev pub to_option : {T : Type 0} → Maybe T → Option T
to_option m = elim m.present [ true ↦ some m.value | false ↦ none ]

abbrev pub from_option : {T : Type 0} → ⦃z : Zero T⦄ → Option T → Maybe T
from_option none = Maybe.none
from_option (some v) = Maybe.some v

-- The operations of optional values.
abbrev pub option_or : {T : Type 0} → Option T → T → T
option_or none d = d
option_or (some v) d = v

abbrev pub option_bind : {A B : Type 0} → Option A → (A → Option B) → Option B
option_bind none f = none
option_bind (some a) f = f a

module _ {T : Type 0} ⦃z : Zero T⦄ where
  -- `Maybe` and optional values carry the same: from an option and back nothing changes, and from a
  -- `Maybe` whose absent value is the zero value and back nothing changes.
  pub to_option-from_option :
      ((o : Option T) → to_option (from_option o) ≡ o)
      × ((m : Maybe T) → IsCanonical m → from_option (to_option m) ≡ m)
  to_option-from_option = (there, back)
    where
      there : (o : Option T) → to_option (from_option o) ≡ o
      there none = refl
      there (some v) = refl

      back : (m : Maybe T) → IsCanonical m → from_option (to_option m) ≡ m
      back m c = at m.value m.present c
        where
          at :
              (v : T) (b : Bool)
              → (b ≡ false → v ≡ z.zero_value)
              → from_option (to_option (record { value = v; present = b }))
                ≡ record { value = v; present = b }
          at v true c' = refl
          at v false c' = λ i. record { value = sym (c' refl) i; present = false }

module _ {A B : Type 0} ⦃y : Zero B⦄ where
  -- `OrElse`, `MustGet`, `Map` and `FlatMap` do to the optional value what they do to the `Maybe`:
  -- `MustGet` returns exactly where there is a value; and the result of `Map` has the zero value
  -- where it is absent.
  pub maybe_refines :
      (m : Maybe A) (f : A → B) (g : A → Maybe B) (d : A)
      → (or_else m d ≡ option_or (to_option m) d)
        × ((v : A) → (must_get m ≡ inl v) ↔ (to_option m ≡ some v))
        × (to_option (map m f) ≡ option_bind (to_option m) (λ a. some (f a)))
        × (to_option (flat_map m g) ≡ option_bind (to_option m) (λ a. to_option (g a)))
        × IsCanonical (map m f)
  unfolding or_else must_get map flat_map
  maybe_refines m f g d = at m.value m.present
    where
      at :
          (a : A) (b : Bool)
          → let n : Maybe A = record { value = a; present = b } in
            (or_else n d ≡ option_or (to_option n) d)
            × ((v : A) → (must_get n ≡ inl v) ↔ (to_option n ≡ some v))
            × (to_option (map n f) ≡ option_bind (to_option n) (λ a. some (f a)))
            × (to_option (flat_map n g) ≡ option_bind (to_option n) (λ a. to_option (g a)))
            × IsCanonical (map n f)
      at a true = (refl, (λ v. ((λ p. cc p), (λ p. cc p))), refl, refl, (λ p. cc p))
      at a false = (refl, (λ v. ((λ p. cc p), (λ p. cc p))), refl, refl, (λ p. refl))

-- `FlatMap` is associative.
pub flat_map_assoc :
    {A B C : Type 0} ⦃y : Zero B⦄ ⦃z : Zero C⦄ (m : Maybe A) (f : A → Maybe B) (g : B → Maybe C)
    → flat_map (flat_map m f) g ≡ flat_map m (λ a. flat_map (f a) g)
unfolding flat_map
flat_map_assoc {A} {B} {C} ⦃y⦄ ⦃z⦄ m f g = at m.value m.present
  where
    at :
        (a : A) (b : Bool)
        → let n : Maybe A = record { value = a; present = b } in
          flat_map (flat_map n f) g ≡ flat_map n (λ x. flat_map (f x) g)
    at a true = refl
    at a false = refl
