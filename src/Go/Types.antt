-- ===== src/Go/Types.antt =====
-- Go types as codes, for values of type `any`: a type assertion compares the codes.
use mathlib.Core.HLevel.{hedberg}
use mathlib.Core.Path.{subst_refl}
use goaxon.Prelude.{String, Option, none, some, ◌≡◌, ◌≢◌, refl, ap, subst, ◌∙◌}
use goaxon.Go.Outcome.{Exec}
use goaxon.Event.{Call}

-- The types that a program dispatches on: their values, their zero values, the answer of the
-- method `CommandType` or `QueryType`, and how `%T` prints them.
pub record Universe : Type 1 where
  pub Code : Type 0
  pub same : Discrete Code
  pub El : Code → Type 0
  pub zero_value : (c : Code) → El c
  pub type_name : (c : Code) → El c → String
  pub type_text : Code → String
  -- how `%s` prints the type of a handler of a request with a result
  pub handler_text : Code → Code → String

module _ (u : Universe) (W : Type 0) where
  -- `Handler[C, R]`
  abbrev pub Handler : u.Code → u.Code → Type 0
  Handler c r = Call → u.El c → Exec W (u.El r)

  -- An `any` that holds a handler.
  pub record Boxed : Type 0 where
    pub request : u.Code
    pub result : u.Code
    pub handler : Handler request result

  move_result : (c r r' : u.Code) → Dec (r ≡ r') → Handler c r → Option (Handler c r')
  move_result c r r' (yes p) h = some (subst (Handler c) p h)
  move_result c r r' (no _) h = none

  move : (c r c' r' : u.Code) → Dec (c ≡ c') → Handler c r → Option (Handler c' r')
  unfolding move_result
  move c r c' r' (yes p) h = move_result c' r r' (u.same r r') (subst (λ k. Handler k r) p h)
  move c r c' r' (no _) h = none

  -- `raw.(Handler[C, R])`
  unfoldable pub assert : (c r : u.Code) → Boxed → Option (Handler c r)
  unfolding move
  assert c r b = move b.request b.result c r (u.same b.request c) b.handler

  move_result_self :
      (c r : u.Code) (d : Dec (r ≡ r)) (h : Handler c r) → move_result c r r d h ≡ some h
  unfolding move_result
  move_result_self c r (yes p) h =
      ap (λ q. some (subst (Handler c) q h)) (hedberg u.same r r p refl)
      ∙ ap some (subst_refl (Handler c) h)
  move_result_self c r (no n) h = absurd (n refl)

  move_self : (c r : u.Code) (d : Dec (c ≡ c)) (h : Handler c r) → move c r c r d h ≡ some h
  unfolding move
  move_self c r (yes p) h =
      ap (λ q. move_result c r r (u.same r r) (subst (λ k. Handler k r) q h))
        (hedberg u.same c c p refl)
      ∙ ap (move_result c r r (u.same r r)) (subst_refl (λ k. Handler k r) h)
      ∙ move_result_self c r (u.same r r) h
  move_self c r (no n) h = absurd (n refl)

  -- A handler of the asserted type is found as it is.
  pub assert_same :
      (c r : u.Code) (h : Handler c r)
      → assert c r (record { request = c; result = r; handler = h }) ≡ some h
  unfolding assert
  assert_same c r h = move_self c r (u.same c c) h

  move_result_ne :
      (c r r' : u.Code) (d : Dec (r ≡ r')) (h : Handler c r)
      → r ≢ r'
      → move_result c r r' d h ≡ none
  unfolding move_result
  move_result_ne c r r' (yes p) h n = absurd (n p)
  move_result_ne c r r' (no _) h n = refl

  -- A handler of another result type is not.
  pub assert_other_result : (c r r' : u.Code) (b : Boxed) → b.result ≢ r' → assert c r' b ≡ none
  unfolding assert
  assert_other_result c r r' b n = go (u.same b.request c)
    where
      go : (d : Dec (b.request ≡ c)) → move b.request b.result c r' d b.handler ≡ none
      go (yes p) = move_result_ne c b.result r' (u.same b.result r') _ n
      go (no _) = refl

  -- A handler of another type, in its request or its result, is not.
  pub assert_other :
      (c r : u.Code) (b : Boxed) → (b.request ≡ c → b.result ≡ r → ⊥) → assert c r b ≡ none
  unfolding assert
  assert_other c r b n = go (u.same b.request c)
    where
      go : (d : Dec (b.request ≡ c)) → move b.request b.result c r d b.handler ≡ none
      go (yes p) = move_result_ne c b.result r (u.same b.result r) _ (n p)
      go (no _) = refl
