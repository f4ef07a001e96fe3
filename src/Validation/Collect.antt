-- ===== src/Validation/Collect.antt =====
-- validation/validation.go: `Field` and `Err` together.
use goaxon.Prelude.{
  String, Bool, true, false, Option, none, some, [], ◌∷◌, ◌≡◌, ◌↔◌, refl, if◌then◌else◌, ◌==◌,
  string_eq,
}
use goaxon.Go.Error.{GoError}
use goaxon.Go.Map.{Map, lookup, insert, lookup-insert}
use goaxon.Validation.{Validator, Parser, note, field, err, error_of_map, error_text}

-- What stands under a name once a parser has answered `e`.
abbrev pub noted : Option GoError → Option String → Option String
noted none old = old
noted (some e) old = some (error_text e)

error_of_map-insert :
    (k s : String) (m : Map String String) → error_of_map (insert k s m) ≡ none → ⊥
unfolding insert
error_of_map-insert k s [] = λ p. cc p
error_of_map-insert k s ((j, t) ∷ m) = split (j == k)
  where
    split : (b : Bool) → error_of_map (if b then (k, s) ∷ m else (j, t) ∷ insert k s m) ≡ none → ⊥
    split true p = cc p
    split false p = cc p

module _ {In Out : Type 0} (v : Validator) (name : String) (parser : Parser In Out)
    (input : In) where
  -- `Field` returns the parser's value, records its error under the field's name, and leaves what
  -- the validator has under other names.
  pub field_lem :
      ((field v name parser input).1 ≡ (parser input).0)
      × ((f : String)
          → lookup f (field v name parser input).0.errs
            ≡ (if name == f then noted (parser input).1 (lookup f v.errs) else lookup f v.errs))
  unfolding field
  field_lem = (refl, at (parser input).1)
    where
      same : (c : Bool) (o : Option String) → o ≡ (if c then o else o)
      same true o = refl
      same false o = refl

      at :
          (e : Option GoError) (f : String)
          → lookup f (note name e v).errs
            ≡ (if name == f then noted e (lookup f v.errs) else lookup f v.errs)
      at none f = same (name == f) (lookup f v.errs)
      at (some e) f = lookup-insert name f (error_text e) v.errs

  -- `Err` is nil after a `Field` exactly if it was nil before and the parser returned no error.
  pub err-field :
      (err (field v name parser input).0 ≡ none) ↔ ((err v ≡ none) × ((parser input).1 ≡ none))
  unfolding field err
  err-field = at v.errs (parser input).1
    where
      at :
          (m : Map String String) (e : Option GoError)
          → (error_of_map (note name e (record { errs = m })).errs ≡ none)
            ↔ ((error_of_map m ≡ none) × (e ≡ none))
      at m none = ((λ p. (p, refl)), (λ p. p.0))
      at m (some e) = ((λ p. absurd (error_of_map-insert name (error_text e) m p)), (λ p. cc (p.1)))
