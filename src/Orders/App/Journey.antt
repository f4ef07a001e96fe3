-- ===== src/Orders/App/Journey.antt =====
-- examples/orders/app/orders.go: calls of the service one after the other, over the store in memory.
use goaxon.Prelude.{
  ℕ, String, Option, none, some, [], ◌∷◌, ◌≡◌, refl, ap, sym, subst, ◌∙◌, nat_eq, string_eq,
}
use goaxon.Go.Error.{
  GoError, errors_is, sentinel, stream_not_found, order_not_found, app_not_found, invalid,
}
use goaxon.Go.Error
use goaxon.Go.Outcome.{Outcome, Done, ok, err}
use goaxon.Go.Word.{ℤ}
use goaxon.Go.Map.{lookup}
use goaxon.Event.{Ctx, Uuid, Time, Envelope}
use goaxon.Validation.{new_validator}
use goaxon.Memory.{memory_store}
use goaxon.Orders.Values.{
  OrderEvent, PlaceOrder, order_shipped, parse_order_id, parse_customer_name,
  make_amount_from_cents,
}
use goaxon.Orders.Projection.{OrderSummary, placed_summary}
use goaxon.Orders.Wire.{Wired, streams_part}
use goaxon.Orders.Wire.Consistent.{
  MemoryWorld, IsConsistent, Stored, absent, placed, shipped, envelope, with_order, shipped_summary,
}
use goaxon.Orders.Wire.OneEvent.{in_time}
use goaxon.Orders.Wire.Commands.{placed_event}
use goaxon.Orders.Wire.Effects.{after_place, after_ship, ship_order_effect}
use goaxon.Orders.App.{
  UuidText, not_found_as_app, new, parse_note, place_order_app, ship_order_app, get_order_app,
}
use goaxon.Orders.App.Reading.{row_answer, lookup_written, get_order_row}
use goaxon.Orders.App.Service.{ship_parsed}
use goaxon.Orders.App.Effects.{place_order_absent, ship_order_placed}
use goaxon.Orders.App.Contexts.{place_order_app-KeepsConsistent, ship_order_app-KeepsConsistent}

-- The service after `New`, over the store in memory and any package uuid.
module _ {X : Type 0} (uuid : UuidText) (start : MemoryWorld X) (late : Ctx) (now : ℕ → Time)
    (orders : Wired (memory_store streams_part) uuid.print)
    (made : new (memory_store streams_part) uuid start ≡ ok orders) where
  module _ (w : MemoryWorld X) (c : IsConsistent w) (id : Uuid) where
    -- An order that has no stream, by a text that parses to its identifier, in a consistent state:
    -- `ShipOrder` and `GetOrder` change nothing and return the application's "order not found".
    pub unknown_order :
        (text : String)
        → parse_order_id uuid.parse text ≡ (id, none)
        → lookup id w.streams ≡ none
        → (ship_order_app (memory_store streams_part) uuid orders (in_time late now) text w
            ≡ (w, err (sentinel app_not_found)))
          × (get_order_app (memory_store streams_part) uuid orders (in_time late now) text w
              ≡ (w, err (sentinel app_not_found)))
    unfolding errors_is
    unknown_order text p e = (
      ship_parsed (memory_store streams_part) uuid start orders made (in_time late now) w id text p
          ∙ ap (not_found_as_app (λ x. errors_is x stream_not_found)) (
              ship_order_effect uuid.print late now w c (record { order_id = id })
              ∙ ap (after_ship uuid.print id (now 0) w) e),
      get_order_row uuid start orders made (in_time late now) id text w p
          ∙ ap (λ o. (w, row_answer o)) (no_row (c.stored id)),
    )
      where
        no_row :
            Stored id (lookup id w.streams) (lookup id w.readers.summary)
            → lookup id w.readers.summary ≡ none
        no_row (absent _ row) = row
        no_row (placed _ _ s _) = absurd (cc (e, s))
        no_row (shipped _ _ _ s _) = absurd (cc (e, s))

    -- A placed order, by a text that parses to its identifier, in a consistent state and on
    -- contexts that are not done when the store asks: `ShipOrder` succeeds, the state after it is
    -- consistent, `GetOrder` then returns the row that was there with `shipped` set, and another
    -- `ShipOrder` changes nothing and returns the error "order already shipped".
    pub ship_then_get :
        (text : String) (env : Envelope OrderEvent) (s : OrderSummary)
        → parse_order_id uuid.parse text ≡ (id, none)
        → lookup id w.streams ≡ some (env ∷ [])
        → lookup id w.readers.summary ≡ some s
        → let (w', result) =
            ship_order_app (memory_store streams_part) uuid orders (in_time late now) text w in
          (result ≡ ok tt)
          × IsConsistent w'
          × (get_order_app (memory_store streams_part) uuid orders (in_time late now) text w'
              ≡ (w', ok (shipped_summary s)))
          × (ship_order_app (memory_store streams_part) uuid orders (in_time late now) text w'
              ≡ (w', err (Error.text "order already shipped")))
    unfolding errors_is
    ship_then_get text env s p e row = subst Shown (sym shipping) (
      refl,
      consistent,
      get_order_row uuid start orders made (in_time late now) id text after p
          ∙ ap (λ o. (after, row_answer o))
              (lookup_written id (shipped_summary s) w.readers.summary),
      ship_parsed (memory_store streams_part) uuid start orders made (in_time late now) after id
            text p
          ∙ ap (not_found_as_app (λ x. errors_is x stream_not_found)) (
              ship_order_effect uuid.print late now after consistent (record { order_id = id })
              ∙ ap (after_ship uuid.print id (now 0) after)
                  (lookup_written id (env ∷ envelope id 2 (now 0) order_shipped ∷ []) w.streams)),
    )
      where
        after : MemoryWorld X
        after = with_order id (env ∷ envelope id 2 (now 0) order_shipped ∷ []) (shipped_summary s) w

        Shown : MemoryWorld X × Done → Type 0
        Shown (w', result) =
            (result ≡ ok tt)
            × IsConsistent w'
            × (get_order_app (memory_store streams_part) uuid orders (in_time late now) text w'
                ≡ (w', ok (shipped_summary s)))
            × (ship_order_app (memory_store streams_part) uuid orders (in_time late now) text w'
                ≡ (w', err (Error.text "order already shipped")))

        shipping :
            ship_order_app (memory_store streams_part) uuid orders (in_time late now) text w
            ≡ (after, ok tt)
        shipping = ship_order_placed uuid start late now orders made w c id text env s p e row

        consistent : IsConsistent after
        consistent =
            subst (λ q. IsConsistent q.0) shipping
              (ship_order_app-KeepsConsistent uuid start orders made (in_time late now) w c text).0

  -- An order whose name, amount and note parse, placed through the service over the store in
  -- memory, under an identifier without a stream, in a consistent state and on a context that is
  -- not done when the store asks: `PlaceOrder` returns the identifier's text, the state after it
  -- is consistent, and in that state `GetOrder` on any text of the identifier returns exactly the
  -- parsed values, not shipped.
  pub place_then_get :
      (w : MemoryWorld X)
      → IsConsistent w
      → (name : String) (amount : ℤ) (memo : Option String) (cmd : PlaceOrder) (text : String)
      → parse_customer_name name ≡ (cmd.customer_name, none)
      → make_amount_from_cents amount ≡ (cmd.amount, none)
      → parse_note (memory_store streams_part) uuid orders new_validator memo
        ≡ (new_validator, cmd.notes)
      → parse_order_id uuid.parse text ≡ (cmd.order_id, none)
      → lookup cmd.order_id w.streams ≡ none
      → let (w', result) =
          place_order_app
            (memory_store streams_part)
            uuid
            orders
            (in_time late now)
            cmd.order_id
            name
            amount
            memo
            w in
        (result ≡ ok (uuid.print cmd.order_id))
        × IsConsistent w'
        × (get_order_app (memory_store streams_part) uuid orders (in_time late now) text w'
            ≡ (w', ok (placed_summary cmd.order_id (placed_event cmd))))
  place_then_get w c name amount memo cmd text n a t p e = subst Shown (sym placing) (
    refl,
    subst (λ q. IsConsistent q.0) placing
        (place_order_app-KeepsConsistent uuid start orders made (in_time late now) w c cmd.order_id
          name amount memo).0,
    get_order_row uuid start orders made (in_time late now) cmd.order_id text after p
        ∙ ap (λ o. (after, row_answer o))
            (lookup_written cmd.order_id (placed_summary cmd.order_id (placed_event cmd))
              w.readers.summary),
  )
    where
      after : MemoryWorld X
      after = (after_place cmd (now 0) w none).0

      Shown : MemoryWorld X × Outcome String → Type 0
      Shown (w', result) =
          (result ≡ ok (uuid.print cmd.order_id))
          × IsConsistent w'
          × (get_order_app (memory_store streams_part) uuid orders (in_time late now) text w'
              ≡ (w', ok (placed_summary cmd.order_id (placed_event cmd))))

      placing :
          place_order_app
            (memory_store streams_part)
            uuid
            orders
            (in_time late now)
            cmd.order_id
            name
            amount
            memo
            w
          ≡ (after, ok (uuid.print cmd.order_id))
      placing = place_order_absent uuid start late now orders made w c name amount memo cmd n a t e
