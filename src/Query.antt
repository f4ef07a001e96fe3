-- ===== src/Query.antt =====
-- query/query.go: the query bus. Registration and dispatch run under the bus's mutex where they
-- touch the map, so each is one step on it; the handler runs after the lock is given back.
pub mod Routing
use Prim.Native.String.{◌++◌}
use goaxon.Prelude.{String, Option, none, some, [], string_eq}
use goaxon.Go.Error.{sentinel, text, wrapped, query_not_registered}
use goaxon.Go.Outcome.{Outcome, ok, err, panics, Exec}
use goaxon.Go.Text.{quoted}
use goaxon.Go.Map.{Map, lookup, insert}
use goaxon.Go.Types.{Universe, Handler, Boxed, assert}
use goaxon.Event.{Call}

-- The field `handlers` of `Bus`, for handlers that work on the state `W`.
abbrev pub Bus : Universe → Type 0 → Type 0
Bus u W = Map String (Boxed u W)

-- `New`
abbrev pub new_bus : {u : Universe} {W : Type 0} → Bus u W
new_bus = []

module _ (u : Universe) {W : Type 0} where
  -- What `Register` does with what stands under the name.
  abbrev pub add : String → Boxed u W → Bus u W → Option (Boxed u W) → Outcome (Bus u W)
  add name raw bus none = ok (insert name raw bus)
  add name raw bus (some _) = panics ("query: handler for " ++ quoted name ++ " already registered")

  -- `Register[Q, R]`
  unfoldable pub register : (c r : u.Code) → Handler u W c r → Bus u W → Outcome (Bus u W)
  register c r h bus =
      let name = u.type_name c (u.zero_value c) in
      add name (record { request = c; result = r; handler = h }) bus (lookup name bus)

  -- What `Ask` does with the assertion's answer.
  abbrev pub call :
      (c r : u.Code)
      → String
      → Boxed u W
      → Option (Handler u W c r)
      → Call
      → u.El c
      → Exec W (u.El r)
  call c r name raw none ctx q w = (
    w,
    err (
        text (
          "query: handler for "
          ++ name
          ++ " has type "
          ++ u.handler_text raw.request raw.result
          ++ ", not Handler["
          ++ u.type_text c
          ++ ", "
          ++ u.type_text r
          ++ "]")),
  )
  call c r name raw (some h) ctx q w = h ctx q w

  abbrev pub dispatch :
      (c r : u.Code) → String → Option (Boxed u W) → Call → u.El c → Exec W (u.El r)
  dispatch c r name none ctx q w =
      (w, err (wrapped "" (sentinel query_not_registered) (": " ++ name)))
  dispatch c r name (some raw) ctx q w = call c r name raw (assert u W c r raw) ctx q w

  -- `Ask[Q, R]`
  unfoldable pub ask : (c r : u.Code) → Bus u W → Call → u.El c → Exec W (u.El r)
  ask c r bus ctx q = let name = u.type_name c q in dispatch c r name (lookup name bus) ctx q
