-- ===== src/Validation.antt =====
-- validation/validation.go, and the text of every error, which `Field` reads.
pub mod Collect
pub mod Order
use Prim.Native.String.{◌++◌}
use goaxon.Prelude.{String, Option, none, some, List, [], ◌∷◌, map, string_eq}
use goaxon.Go.Error.{
  GoError, Joined, sentinel, text, wrapped, joined, invalid, pg_error, one, more, sentinel_text,
  Fields,
}
use goaxon.Go.Sort.{sort_strings, join_strings}
use goaxon.Go.Map.{Map, insert}

-- `Error` of `*validation.Error`
unfoldable pub fields_text : Fields → String
unfolding sort_strings join_strings
fields_text fields =
    "validation: " ++ join_strings "; " (sort_strings (map (λ f. f.0 ++ (": " ++ f.1)) fields))

-- `err.Error()`
unfoldable mutual
  unfolding fields_text

  pub error_text : GoError → String
  error_text (sentinel s) = sentinel_text s
  error_text (text m) = m
  error_text (wrapped before e after) = before ++ (error_text e ++ after)
  error_text (joined es) = joined_text es
  error_text (invalid fields) = fields_text fields
  error_text (pg_error code message) = message

  pub joined_text : Joined → String
  joined_text (one e) = error_text e
  joined_text (more e es) = error_text e ++ ("\n" ++ joined_text es)

pub record Validator : Type 0 where
  pub errs : Map String String

-- `New`
abbrev pub new_validator : Validator
new_validator = record { errs = [] }

-- A function that returns `(Out, error)`, with what it returns beside an error.
abbrev pub Parser : Type 0 → Type 0 → Type 0
Parser In Out = In → Out × Option GoError

abbrev pub note : String → Option GoError → Validator → Validator
note name none v = v
note name (some e) v = record v { errs = insert name (error_text e) v.errs }

-- `Field`: the validator after it, and the parser's value.
unfoldable pub field : {In Out : Type 0} → Validator → String → Parser In Out → In → Validator × Out
field v name parser input = let (out, e) = parser input in (note name e v, out)

abbrev pub error_of_map : Map String String → Option GoError
error_of_map [] = none
error_of_map (f ∷ fs) = some (invalid (f ∷ fs))

-- `Err`
unfoldable pub err : Validator → Option GoError
err v = error_of_map v.errs
