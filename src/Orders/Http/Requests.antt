-- ===== src/Orders/Http/Requests.antt =====
-- examples/orders-http/main.go: requests one after the other, over the store in memory.
use goaxon.Prelude.{
  ℕ, String, Option, none, some, [], ◌∷◌, ◌≡◌, refl, ap, subst, inl, sym, ◌∙◌, nat_eq,
}
use goaxon.Go.Error.{GoError, errors_is, as_invalid}
use goaxon.Go.Outcome.{Outcome, ok, OrPanic}
use goaxon.Go.Map.{lookup}
use goaxon.Event.{Ctx, Uuid, Time, Envelope}
use goaxon.Validation.{new_validator, error_text}
use goaxon.Memory.{memory_store}
use goaxon.Orders.Values.{
  OrderEvent, PlaceOrder, parse_order_id, parse_customer_name, make_amount_from_cents,
}
use goaxon.Orders.Projection.{OrderSummary, placed_summary}
use goaxon.Orders.Wire.{Wired, streams_part}
use goaxon.Orders.Wire.Consistent.{MemoryWorld, IsConsistent, shipped_summary}
use goaxon.Orders.Wire.OneEvent.{in_time}
use goaxon.Orders.Wire.Commands.{placed_event}
use goaxon.Orders.App.{UuidText, new, parse_note}
use goaxon.Orders.App.Journey.{unknown_order, place_then_get, ship_then_get}
use goaxon.Orders.Http.{
  inl, placed, summary, Response, Request, PlaceOrderRequest, answer, place_decoded,
  place_order_http, ship_order_http, get_order_http, write_json, write_error, write_app_error,
}

answer-ok :
    {W A : Type 0} (f : A → Response) (q : W × Outcome A) (a : A)
    → q.1 ≡ ok a
    → answer f q ≡ (q.0, inl (f a))
answer-ok f (w, r) a h = ap (λ r. answer f (w, r)) h

module _ {X : Type 0} (uuid : UuidText) (decode : String → PlaceOrderRequest × Option GoError)
    (start : MemoryWorld X) (late : Ctx) (now : ℕ → Time)
    (orders : Wired (memory_store streams_part) uuid.print)
    (made : new (memory_store streams_part) uuid start ≡ ok orders) where
  -- In a consistent state of the orders over the store in memory, and on contexts that are not
  -- done when the store asks, POST /orders with a body whose name, amount and notes parse, under
  -- an identifier without a stream, answers 201 with the identifier's text and leaves the state
  -- consistent, and GET of the order then answers 200 with exactly the parsed values, not shipped.
  pub post_then_get :
      (w : MemoryWorld X)
      → IsConsistent w
      → (req : PlaceOrderRequest) (cmd : PlaceOrder) (post get : Request)
      → decode post.body ≡ (req, none)
      → parse_customer_name req.customer_name ≡ (cmd.customer_name, none)
      → make_amount_from_cents req.amount ≡ (cmd.amount, none)
      → parse_note (memory_store streams_part) uuid orders new_validator req.notes
        ≡ (new_validator, cmd.notes)
      → parse_order_id uuid.parse (get.url_param "id") ≡ (cmd.order_id, none)
      → lookup cmd.order_id w.streams ≡ none
      → (other : Uuid)
      → let (w', response) =
          place_order_http
            (memory_store streams_part)
            uuid
            decode
            orders
            (in_time late now)
            cmd.order_id
            post
            w in
        (response ≡ inl (write_json 201 (placed (uuid.print cmd.order_id))))
        × IsConsistent w'
        × (get_order_http
              (memory_store streams_part)
              uuid
              decode
              orders
              (in_time late now)
              other
              get
              w'
            ≡ (w', inl (write_json 200 (summary (placed_summary cmd.order_id (placed_event cmd))))))
  unfolding place_order_http get_order_http
  post_then_get w c req cmd post get decoded n a t p e other =
      let (created, consistent, read) =
        place_then_get uuid start late now orders made w c req.customer_name req.amount req.notes
          cmd (get.url_param "id") n a t p e in
      subst Shown
        (sym (
          ap
            (λ d.
              place_decoded (memory_store streams_part) uuid decode orders (in_time late now)
                cmd.order_id d w)
            decoded
          ∙ answer-ok (λ order_id. write_json 201 (placed order_id)) _ _ created))
        (refl, consistent, ap (answer _) read)
    where
      Shown : MemoryWorld X × OrPanic Response → Type 0
      Shown (w', response) =
          (response ≡ inl (write_json 201 (placed (uuid.print cmd.order_id))))
          × IsConsistent w'
          × (get_order_http (memory_store streams_part) uuid decode orders (in_time late now) other
                get w'
              ≡ (
                w',
                inl (write_json 200 (summary (placed_summary cmd.order_id (placed_event cmd)))),
              ))

  -- In a consistent state of the orders over the store in memory, and on contexts that are not
  -- done when the store asks, the POST that ships a placed order answers 204, GET of it then
  -- answers 200 with its row and `shipped` set, and another such POST changes nothing and answers
  -- 400 with "order already shipped".
  pub post_ship :
      (w : MemoryWorld X)
      → IsConsistent w
      → (id : Uuid) (r : Request) (env : Envelope OrderEvent) (s : OrderSummary)
      → parse_order_id uuid.parse (r.url_param "id") ≡ (id, none)
      → lookup id w.streams ≡ some (env ∷ [])
      → lookup id w.readers.summary ≡ some s
      → (other : Uuid)
      → let (w', response) =
          ship_order_http
            (memory_store streams_part)
            uuid
            decode
            orders
            (in_time late now)
            other
            r
            w in
        (response ≡ inl (record { status = 204; content_type = none; body = none }))
        × (get_order_http
              (memory_store streams_part)
              uuid
              decode
              orders
              (in_time late now)
              other
              r
              w'
            ≡ (w', inl (write_json 200 (summary (shipped_summary s)))))
        × (ship_order_http
              (memory_store streams_part)
              uuid
              decode
              orders
              (in_time late now)
              other
              r
              w'
            ≡ (w', inl (write_error 400 "order already shipped")))
  unfolding ship_order_http get_order_http write_app_error errors_is as_invalid error_text
  post_ship w c id r env s p e row other =
      let (shipped, consistent, read, again) =
        ship_then_get uuid start late now orders made w c id (r.url_param "id") env s p e row in
      subst Shown
        (sym
          (answer-ok (λ _. record { status = 204; content_type = none; body = none }) _ tt shipped))
        (refl, ap (answer _) read, ap (answer _) again)
    where
      Shown : MemoryWorld X × OrPanic Response → Type 0
      Shown (w', response) =
          (response ≡ inl (record { status = 204; content_type = none; body = none }))
          × (get_order_http (memory_store streams_part) uuid decode orders (in_time late now) other
                r w'
              ≡ (w', inl (write_json 200 (summary (shipped_summary s)))))
          × (ship_order_http (memory_store streams_part) uuid decode orders (in_time late now) other
                r w'
              ≡ (w', inl (write_error 400 "order already shipped")))

  -- In a consistent state of the orders over the store in memory, and on a context that is not
  -- done when the store asks, shipping or reading an order that has no stream, by a text that
  -- parses to its identifier, changes nothing and answers 404 with "order not found".
  pub unknown_id :
      (w : MemoryWorld X)
      → IsConsistent w
      → (id : Uuid) (r : Request) → parse_order_id uuid.parse (r.url_param "id") ≡ (id, none)
      → lookup id w.streams ≡ none
      → (other : Uuid)
      → (ship_order_http (memory_store streams_part) uuid decode orders (in_time late now) other r w
          ≡ (w, inl (write_error 404 "order not found")))
        × (get_order_http
              (memory_store streams_part)
              uuid
              decode
              orders
              (in_time late now)
              other
              r
              w
            ≡ (w, inl (write_error 404 "order not found")))
  unfolding ship_order_http get_order_http write_app_error errors_is as_invalid error_text
  unknown_id w c id r p e other =
      let (ship, get) =
        unknown_order uuid start late now orders made w c id (r.url_param "id") p e in
      (ap (answer _) ship, ap (answer _) get)
