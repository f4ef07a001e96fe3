-- ===== src/Go/Error.antt =====
-- Error values: `errors.New`, `fmt.Errorf` with `%w`, `errors.Join`, `errors.Is` and `errors.As`.
-- The package-level error variables of the program are compared by identity, so each is a
-- constructor of `Sentinel`; the two of package context come with them.

use goaxon.Prelude.{String, ◌≡◌, Bool, true, false, ◌||◌, Option, none, some, List, [], ◌∷◌, arith}

pub data Sentinel : Type 0 where
  concurrency_conflict stream_not_found : Sentinel
  command_not_registered query_not_registered : Sentinel
  order_not_found app_not_found : Sentinel
  canceled deadline_exceeded : Sentinel

-- The text of each variable's `errors.New`.
abbrev pub sentinel_text : Sentinel → String
sentinel_text concurrency_conflict = "event: concurrency conflict"
sentinel_text stream_not_found = "event: stream not found"
sentinel_text command_not_registered = "command: no handler registered"
sentinel_text query_not_registered = "query: no handler registered"
sentinel_text order_not_found = "order not found"
sentinel_text app_not_found = "order not found"
sentinel_text canceled = "context canceled"
sentinel_text deadline_exceeded = "context deadline exceeded"

abbrev pub same_sentinel : Sentinel → Sentinel → Bool
same_sentinel concurrency_conflict concurrency_conflict = true
same_sentinel stream_not_found stream_not_found = true
same_sentinel command_not_registered command_not_registered = true
same_sentinel query_not_registered query_not_registered = true
same_sentinel order_not_found order_not_found = true
same_sentinel app_not_found app_not_found = true
same_sentinel canceled canceled = true
same_sentinel deadline_exceeded deadline_exceeded = true
same_sentinel _ _ = false

-- The contents of a `map[string]string` of field errors, one pair for each key.
abbrev pub Fields : Type 0
Fields = List (String × String)

mutual
  pub data GoError : Type 0 where
    sentinel : Sentinel → GoError
    -- `errors.New` inside a function: an identity of its own.
    text : String → GoError
    -- `fmt.Errorf("before%wafter", err)`
    wrapped : String → GoError → String → GoError
    -- `errors.Join` of at least one error
    joined : Joined → GoError
    -- `*validation.Error`
    invalid : Fields → GoError
    -- `*pgconn.PgError`: its code and its message
    pg_error : String → String → GoError

  pub data Joined : Type 0 where
    one : GoError → Joined
    more : GoError → Joined → Joined

-- `errors.Is` against a package-level variable.
unfoldable mutual
  pub errors_is : GoError → Sentinel → Bool
  errors_is (sentinel s) t = same_sentinel s t
  errors_is (text m) t = false
  errors_is (wrapped before e after) t = errors_is e t
  errors_is (joined es) t = joined_is es t
  errors_is (invalid fields) t = false
  errors_is (pg_error code message) t = false

  pub joined_is : Joined → Sentinel → Bool
  joined_is (one e) t = errors_is e t
  joined_is (more e es) t = errors_is e t || joined_is es t

-- `or_else o p` is `o` if it holds something, and else `p`.
abbrev pub or_else {ℓ} : {A : Type ℓ} → Option A → Option A → Option A
or_else none p = p
or_else (some a) p = some a

-- `errors.As` against `*validation.Error`: the first in depth-first order.
unfoldable mutual
  pub as_invalid : GoError → Option Fields
  as_invalid (sentinel s) = none
  as_invalid (text m) = none
  as_invalid (wrapped before e after) = as_invalid e
  as_invalid (joined es) = joined_as_invalid es
  as_invalid (invalid fields) = some fields
  as_invalid (pg_error code message) = none

  pub joined_as_invalid : Joined → Option Fields
  joined_as_invalid (one e) = as_invalid e
  joined_as_invalid (more e es) = or_else (as_invalid e) (joined_as_invalid es)

-- `errors.As` against `*pgconn.PgError`: the code of the first in depth-first order.
unfoldable mutual
  pub as_pg_error : GoError → Option String
  as_pg_error (sentinel s) = none
  as_pg_error (text m) = none
  as_pg_error (wrapped before e after) = as_pg_error e
  as_pg_error (joined es) = joined_as_pg_error es
  as_pg_error (invalid fields) = none
  as_pg_error (pg_error code message) = some code

  pub joined_as_pg_error : Joined → Option String
  joined_as_pg_error (one e) = as_pg_error e
  joined_as_pg_error (more e es) = or_else (as_pg_error e) (joined_as_pg_error es)

-- `errors.Join(errs...)`: nil where there are none. A slice of non-nil errors.
unfoldable pub join_onto : GoError → List GoError → Joined
join_onto e [] = one e
join_onto e (f ∷ fs) = more e (join_onto f fs)

unfoldable pub join : List GoError → Option GoError
unfolding join_onto
join [] = none
join (e ∷ es) = some (joined (join_onto e es))

abbrev pub any_is : List GoError → Sentinel → Bool
any_is [] t = false
any_is (e ∷ es) t = errors_is e t || any_is es t

joined_is-join_onto :
    (e : GoError) (es : List GoError) (t : Sentinel)
    → joined_is (join_onto e es) t ≡ any_is (e ∷ es) t
unfolding joined_is errors_is join_onto
joined_is-join_onto e [] t = ground arith
joined_is-join_onto e (f ∷ fs) t = ground (arith, joined_is-join_onto f fs t)

-- A joined error is each of the errors that it joins.
pub errors_is-joined :
    (e : GoError) (es : List GoError) (t : Sentinel)
    → errors_is (joined (join_onto e es)) t ≡ any_is (e ∷ es) t
unfolding errors_is
errors_is-joined e es t = joined_is-join_onto e es t
