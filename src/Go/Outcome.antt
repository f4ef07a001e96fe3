-- ===== src/Go/Outcome.antt =====
-- How a call ends: it returns a value with a nil error, it returns an error (with the zero value
-- in place of the result), or it panics. A call with effects is a function on the state.
use goaxon.Prelude.{ap, refl, ◌≡◌, ◌⊎◌, String, Bool, true, false, Option, none, some}
use goaxon.Go.Error.{GoError}

pub data Outcome {ℓ} (A : Type ℓ) : Type ℓ where
  ok : A → Outcome A
  err : GoError → Outcome A
  panics : String → Outcome A

-- The result of a function that returns only an `error`.
abbrev pub Done : Type 0
Done = Outcome Unit

abbrev pub of_error : Option GoError → Done
of_error none = ok tt
of_error (some e) = err e

-- `if err != nil { return err }`
infixl 5 ◌>>=◌
abbrev pub ◌>>=◌ {ℓ κ} : {A : Type ℓ} {B : Type κ} → Outcome A → (A → Outcome B) → Outcome B
ok a >>= f = f a
err e >>= f = err e
panics m >>= f = panics m

-- `return fmt.Errorf("before%wafter", err)` in place of `return err`
abbrev pub wrap_err {ℓ} : {A : Type ℓ} → (GoError → GoError) → Outcome A → Outcome A
wrap_err f (ok a) = ok a
wrap_err f (err e) = err (f e)
wrap_err f (panics m) = panics m

-- A call that may change the state `S`. An error does not undo what was changed.
abbrev pub Exec : Type 0 → Type 0 → Type 0
Exec S A = S → S × Outcome A

-- The call ran to its end with a nil error.
abbrev pub is_ok {ℓ} : {A : Type ℓ} → Outcome A → Bool
is_ok (ok a) = true
is_ok (err e) = false
is_ok (panics m) = false

-- The result of a function that returns no error: a value, or the message of a panic.
abbrev pub OrPanic : Type 0 → Type 0
OrPanic A = A ⊎ String

pub ok_injective {ℓ} : {A : Type ℓ} {a b : A} → ok a ≡ ok b → a ≡ b
ok_injective {A} {a} {b} p = ap value p
  where
    value : Outcome A → A
    value (ok x) = x
    value (err e) = a
    value (panics m) = a

-- A chain that ends with a nil error: each of its calls did.
pub then-eq-ok :
    {A B : Type 0} (r : Outcome A) (f : A → Outcome B) {b : B}
    → (r >>= f) ≡ ok b
    → (a : A) × (r ≡ ok a) × (f a ≡ ok b)
then-eq-ok (ok a) f h = (a, refl, h)
then-eq-ok (err e) f h = absurd (cc h)
then-eq-ok (panics m) f h = absurd (cc h)
