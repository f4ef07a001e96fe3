-- ===== src/Tests/Values.antt =====
-- The values, the validator and the life of an order at concrete inputs.
use mathlib.Core.List.Permᴰ
use goaxon.Validation.{fields_text}
use goaxon.Validation.Order.{fields_text-Perm}
use Prim.Native.String.{◌++◌ as cat, len}
use goaxon.Prelude.{
  ◌++◌, ◌≤◌, ◌<◌, String, Bool, true, false, Option, none, some, [], ◌∷◌, ◌≡◌, ◌⊎◌, inl, ◌↔◌, refl,
  subst, ◌==◌, if◌then◌else◌, string_eq,
}
use goaxon.Go.Error.{text}
use goaxon.Go.Outcome.{Outcome, ok, ok_injective}
use goaxon.Go.Text.{trim_space, trim_left, trim_right, is_space}
use goaxon.Go.Word.{pos}
use goaxon.Maybe
use goaxon.Maybe.{Zero, Maybe, or_else, must_get, map, flat_map}
use goaxon.Maybe.Laws.{
  IsCanonical, to_option, from_option, option_or, option_bind, to_option-from_option, maybe_refines,
}
use goaxon.Maybe.Json.{
  JsonCodec, RoundTrips, marshal_json, unmarshal_json, unmarshal-marshal, maybe_zero,
}
use goaxon.Orders.Values.{notes_zero, parse_notes}
use goaxon.Orders.Values.Parsing.{IsTrimmed, parse_notes_lem}
use goaxon.Aggregate.Replay.{rehydrate_all}
use goaxon.Orders.Order.{Order, new_order, order_root, order_base}
use goaxon.Orders.Order.Lifecycle.{
  do_place, do_ship, perform, created, performed, saved, loaded, IsAlive, Lives-IsAlive,
}

instance abbrev bool_zero : Zero Bool
bool_zero = record { zero_value = false }

-- The JSON of a Boolean.
abbrev bool_json : JsonCodec Bool
bool_json = record {
  marshal = λ b. ok (if b then "true" else "false");
  unmarshal = λ s.
      if s == "true"
      then ok true
      else if s == "false"
      then ok false
      else Outcome.err (text "not a Boolean");
}

bool_json-RoundTrips : RoundTrips bool_json
unfolding trim_space trim_left trim_right is_space
bool_json-RoundTrips = record {
  decodes = λ b bytes p. subst (λ s. bool_json.unmarshal s ≡ ok b) (ok_injective p) (decoded b);
  not_null =
      λ b bytes p. subst (λ s. (trim_space s == "null") ≡ false) (ok_injective p) (written b);
}
  where
    decoded : (b : Bool) → bool_json.unmarshal (if b then "true" else "false") ≡ ok b
    decoded true = refl
    decoded false = refl

    written : (b : Bool) → (trim_space (if b then "true" else "false") == "null") ≡ false
    written true = refl
    written false = refl

unmarshal-marshal_example :
    unmarshal_json bool_json (some "true") Maybe.none ≡ (Maybe.some true, ok tt)
unfolding marshal_json
unmarshal-marshal_example =
    unmarshal-marshal bool_json bool_json-RoundTrips (Maybe.some true) Maybe.none "true" (λ p. cc p)
      refl

abbrev shouted : String → String
shouted s = cat s "!"

maybe_refines_example :
    let m : Maybe String = Maybe.some "Ada" in
    (or_else m "Bob" ≡ option_or (to_option m) "Bob")
    × ((v : String) → (must_get m ≡ inl v) ↔ (to_option m ≡ some v))
    × (to_option (map m shouted) ≡ option_bind (to_option m) (λ a. some (shouted a)))
    × (to_option (flat_map m (λ s. Maybe.some (shouted s)))
        ≡ option_bind (to_option m) (λ a. to_option (Maybe.some (shouted a))))
    × IsCanonical (map m shouted)
maybe_refines_example = maybe_refines (Maybe.some "Ada") shouted (λ s. Maybe.some (shouted s)) "Bob"

to_option-from_option_example :
    ((o : Option String) → to_option (from_option o) ≡ o)
    × ((m : Maybe String) → IsCanonical m → from_option (to_option m) ≡ m)
to_option-from_option_example = to_option-from_option

-- An order that is placed, saved, loaded, and shipped twice.
abbrev placed_once : Order
placed_once = (perform (do_place "Ada" (pos 4200) Maybe.none) (new_order 7)).0

abbrev loaded_once : Order
loaded_once = rehydrate_all order_root order_base (new_order 7) ([] ++ placed_once.base.uncommitted)

Lives-IsAlive_example :
    IsAlive ([] ++ placed_once.base.uncommitted) (perform do_ship (perform do_ship loaded_once).0).0
Lives-IsAlive_example = Lives-IsAlive 7 (
    performed do_ship (
      performed do_ship
        (loaded (saved (performed (do_place "Ada" (pos 4200) Maybe.none) created)))))

parse_notes_lem_example :
    ((trim_space " ring twice " ≡ "")
      × (parse_notes " ring twice " ≡ ("", some (text "must not be empty"))))
    ⊎ ((500 < len (trim_space " ring twice "))
        × (parse_notes " ring twice " ≡ ("", some (text "must be at most 500 characters"))))
    ⊎ (IsTrimmed (trim_space " ring twice ")
        × (len (trim_space " ring twice ") ≤ 500)
        × (parse_notes " ring twice " ≡ (trim_space " ring twice ", none))
        × (parse_notes (trim_space " ring twice ") ≡ (trim_space " ring twice ", none)))
parse_notes_lem_example = parse_notes_lem " ring twice "

fields_text-Perm_example :
    fields_text (("notes", "too long") ∷ ("amount", "must be positive") ∷ [])
    ≡ fields_text (("amount", "must be positive") ∷ ("notes", "too long") ∷ [])
fields_text-Perm_example =
    fields_text-Perm (("notes", "too long") ∷ ("amount", "must be positive") ∷ [])
      (("amount", "must be positive") ∷ ("notes", "too long") ∷ []) ∣ Permᴰ.swap refl refl ∣₁
