-- ===== src/Orders/Http/Serving.antt =====
-- examples/orders-http/main.go: a server from its start on, over the store in memory.
use mathlib.Core.List.Memᴰ
use goaxon.Prelude.{
  ◌∙◌, ℕ, String, Option, none, some, List, [], ◌∷◌, ◌≡◌, refl, ap, sym, subst, inl, inr, nat_eq,
  string_eq, Bool, true, false, if◌then◌else◌,
}
use mathlib.Core.List.{Memᴰ}
use goaxon.Go.Error.{GoError, as_invalid, errors_is, app_not_found, Fields}
use goaxon.Go.Outcome.{Outcome, ok, err, panics, OrPanic, ok_injective, ◌>>=◌}
use goaxon.Event.{Uuid, Call}
use goaxon.Memory.{memory_store}
use goaxon.Validation.{error_text}
use goaxon.Orders.Wire.{Wired, streams_part}
use goaxon.Orders.Wire.Consistent.{MemoryWorld, IsConsistent}
use goaxon.Orders.Wire.Contexts.{KeepsConsistent}
use goaxon.Orders.App.{UuidText, new}
use goaxon.Orders.App.Contexts.{
  place_order_app-KeepsConsistent, ship_order_app-KeepsConsistent, get_order_app-KeepsConsistent,
}
use goaxon.Orders.App.Start.{new-IsConsistent}
use goaxon.Orders.Http.{
  error_text, write_error, errors, Response, Request, PlaceOrderRequest, Route, answer, errors,
  write_error, place_decoded, place_order_http, ship_order_http, get_order_http, routes, new_server,
  write_json, write_app_error,
}

-- The codes that the handlers answer with.
abbrev pub statuses : List ℕ
statuses = 200 ∷ 201 ∷ 204 ∷ 400 ∷ 404 ∷ 422 ∷ []

-- A response, with one of the codes.
abbrev pub Answers : OrPanic Response → Type 0
Answers (inl r) = Memᴰ r.status statuses
Answers (inr _) = ⊥

-- The states that a server is in between two requests, each of any method, identifier and context.
pub data Reached {W : Type 0} (routes : List (Route W)) (opened : W) : W → Type 0 where
  started : Reached routes opened opened
  requested :
      {w : W} (route : Route W) (call : Call) (id : Uuid) (r : Request)
      → Memᴰ route routes
      → Reached routes opened w
      → Reached routes opened (route.handler call id r w).0

error_status : (e : GoError) → Memᴰ (write_app_error e).status statuses
unfolding write_app_error
error_status e = at (as_invalid e) (errors_is e app_not_found)
  where
    response : Option Fields → Bool → Response
    response o b = elim o [
      | some fields ↦ write_json 422 (errors fields)
      | none ↦ if b then write_error 404 (error_text e) else write_error 400 (error_text e)
    ]

    at : (o : Option Fields) (b : Bool) → Memᴰ (response o b).status statuses
    at (some _) b = Memᴰ.tail (Memᴰ.tail (Memᴰ.tail (Memᴰ.tail (Memᴰ.tail (Memᴰ.head refl)))))
    at none true = Memᴰ.tail (Memᴰ.tail (Memᴰ.tail (Memᴰ.tail (Memᴰ.head refl))))
    at none false = Memᴰ.tail (Memᴰ.tail (Memᴰ.tail (Memᴰ.head refl)))

abbrev Served : {X : Type 0} → MemoryWorld X × OrPanic Response → Type 0
Served q = IsConsistent q.0 × Answers q.1

answer-Served :
    {X A : Type 0} (f : A → Response) (q : MemoryWorld X × Outcome A)
    → ((a : A) → Memᴰ (f a).status statuses)
    → KeepsConsistent q
    → Served (answer f q)
answer-Served f (w, ok a) known (c, returns) = (c, known a)
answer-Served f (w, err e) known (c, returns) = (c, error_status e)
answer-Served f (w, panics m) known (c, returns) = absurd returns

module _ {X : Type 0} (uuid : UuidText) (decode : String → PlaceOrderRequest × Option GoError)
    (start : MemoryWorld X) where
  module _ (orders : Wired (memory_store streams_part) uuid.print)
      (made : new (memory_store streams_part) uuid start ≡ ok orders) (call : Call) (id : Uuid)
      (r : Request) (w : MemoryWorld X) (c : IsConsistent w) where
    place-Served :
        Served (place_order_http (memory_store streams_part) uuid decode orders call id r w)
    unfolding place_order_http
    place-Served = at (decode r.body)
      where
        at :
            (d : PlaceOrderRequest × Option GoError)
            → Served (place_decoded (memory_store streams_part) uuid decode orders call id d w)
        at (req, some e) = (c, Memᴰ.tail (Memᴰ.tail (Memᴰ.tail (Memᴰ.head refl))))
        at (req, none) =
            answer-Served _ _ (λ a. Memᴰ.tail (Memᴰ.head refl))
              (place_order_app-KeepsConsistent uuid start orders made call w c id req.customer_name
                req.amount req.notes)

    ship-Served :
        Served (ship_order_http (memory_store streams_part) uuid decode orders call id r w)
    unfolding ship_order_http
    ship-Served =
        answer-Served _ _ (λ a. Memᴰ.tail (Memᴰ.tail (Memᴰ.head refl)))
          (ship_order_app-KeepsConsistent uuid start orders made call w c (r.url_param "id"))

    get-Served : Served (get_order_http (memory_store streams_part) uuid decode orders call id r w)
    unfolding get_order_http
    get-Served =
        answer-Served _ _ (λ a. Memᴰ.head refl)
          (get_order_app-KeepsConsistent uuid start orders made call w c (r.url_param "id"))

    route-Served :
        (route : Route (MemoryWorld X))
        → Memᴰ route (routes (memory_store streams_part) uuid decode orders)
        → Served (route.handler call id r w)
    route-Served route (Memᴰ.head e) =
        subst (λ q. Served (q.handler call id r w)) (sym e) place-Served
    route-Served route (Memᴰ.tail (Memᴰ.head e)) =
        subst (λ q. Served (q.handler call id r w)) (sym e) ship-Served
    route-Served route (Memᴰ.tail (Memᴰ.tail (Memᴰ.head e))) =
        subst (λ q. Served (q.handler call id r w)) (sym e) get-Served
    route-Served route (Memᴰ.tail (Memᴰ.tail (Memᴰ.tail m))) = absurd (Memᴰ.not-nil m)

  reached-IsConsistent :
      (orders : Wired (memory_store streams_part) uuid.print)
      → new (memory_store streams_part) uuid start ≡ ok orders
      → IsConsistent orders.world
      → (w : MemoryWorld X)
      → Reached (routes (memory_store streams_part) uuid decode orders) orders.world w
      → IsConsistent w
  reached-IsConsistent orders made c _ started = c
  reached-IsConsistent orders made c _ (requested {w = v} route call id r known earlier) =
      let before = reached-IsConsistent orders made c v earlier in
      (route-Served orders made call id r v before route known).0

  -- A server that `newServer` makes on a store in memory without streams and an event bus without
  -- subscribers: after any sequence of requests, one after the other, to any of its routes, with
  -- any bodies, path parameters, drawn identifiers and contexts, done ones included, each order
  -- has neither stream nor row, or is placed in both, or is shipped in both; and the next request,
  -- whatever it is, does not panic and is answered with one of the codes 200, 201, 204, 400, 404
  -- and 422.
  pub server-Served :
      start.streams ≡ []
      → start.bus ≡ []
      → (opened : MemoryWorld X) (served : List (Route (MemoryWorld X)))
      → new_server (memory_store streams_part) uuid decode start ≡ ok (opened, served)
      → (w : MemoryWorld X) → Reached served opened w
      → (route : Route (MemoryWorld X)) (call : Call) (id : Uuid) (r : Request) → Memᴰ route served
      → IsConsistent w × Answers (route.handler call id r w).1
  unfolding new_server
  server-Served no_streams no_handlers opened served made w reached route call id r known =
      subst
        (λ server.
          Reached server.1 server.0 w
          → Memᴰ route server.1
          → IsConsistent w × Answers (route.handler call id r w).1)
        (ok_injective (sym serving ∙ made)) holds reached known
    where
      orders : Wired {X = X} (memory_store streams_part) uuid.print
      orders = (new-IsConsistent uuid start no_streams no_handlers).0

      created : new (memory_store streams_part) uuid start ≡ ok orders
      created = (new-IsConsistent uuid start no_streams no_handlers).1

      serving :
          new_server (memory_store streams_part) uuid decode start
          ≡ ok (orders.world, routes (memory_store streams_part) uuid decode orders)
      serving =
          ap
            (λ o. do
              orders ← o
              ok (orders.world, routes (memory_store streams_part) uuid decode orders))
            created

      holds :
          Reached (routes (memory_store streams_part) uuid decode orders) orders.world w
          → Memᴰ route (routes (memory_store streams_part) uuid decode orders)
          → IsConsistent w × Answers (route.handler call id r w).1
      holds reached known =
          let c =
            reached-IsConsistent orders created
              (new-IsConsistent uuid start no_streams no_handlers).2 w reached in
          (c, (route-Served orders created call id r w c route known).1)
