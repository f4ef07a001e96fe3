-- ===== src/Orders/App/Effects.antt =====
-- examples/orders/app/orders.go: one call of the service over the store in memory, with the state
-- that it leaves.
use goaxon.Prelude.{ℕ, String, Option, none, some, [], ◌∷◌, ◌≡◌, ap, ◌∙◌, nat_eq, string_eq}
use goaxon.Go.Error.{errors_is, stream_not_found}
use goaxon.Go.Outcome.{ok}
use goaxon.Go.Word.{ℤ}
use goaxon.Go.Map.{lookup}
use goaxon.Event.{Ctx, Uuid, Time, Envelope}
use goaxon.Validation.{new_validator}
use goaxon.Memory.{memory_store}
use goaxon.Orders.Values.{
  OrderEvent, PlaceOrder, order_shipped, parse_order_id, parse_customer_name,
  make_amount_from_cents,
}
use goaxon.Orders.Projection.{OrderSummary, record_at}
use goaxon.Orders.Wire.{Wired, streams_part}
use goaxon.Orders.Wire.Consistent.{MemoryWorld, IsConsistent, envelope, with_order, shipped_summary}
use goaxon.Orders.Wire.OneEvent.{in_time}
use goaxon.Orders.Wire.Effects.{after_place, after_ship, place_order_effect, ship_order_effect}
use goaxon.Orders.App.{
  UuidText, not_found_as_app, returning, new, parse_note, place_order_app, ship_order_app,
}
use goaxon.Orders.App.Service.{place_parsed, ship_parsed}

-- The service after `New`, over the store in memory and any package uuid.
module _ {X : Type 0} (uuid : UuidText) (start : MemoryWorld X) (late : Ctx) (now : ℕ → Time)
    (orders : Wired (memory_store streams_part) uuid.print)
    (made : new (memory_store streams_part) uuid start ≡ ok orders) (w : MemoryWorld X)
    (c : IsConsistent w) where
  pub place_order_absent :
      (name : String) (amount : ℤ) (memo : Option String) (cmd : PlaceOrder)
      → parse_customer_name name ≡ (cmd.customer_name, none)
      → make_amount_from_cents amount ≡ (cmd.amount, none)
      → parse_note (memory_store streams_part) uuid orders new_validator memo
        ≡ (new_validator, cmd.notes)
      → lookup cmd.order_id w.streams ≡ none
      → place_order_app
          (memory_store streams_part)
          uuid
          orders
          (in_time late now)
          cmd.order_id
          name
          amount
          memo
          w
        ≡ ((after_place cmd (now 0) w none).0, ok (uuid.print cmd.order_id))
  place_order_absent name amount memo cmd n a t e =
      place_parsed (memory_store streams_part) uuid start orders made (in_time late now) w name
        amount memo cmd n a t
      ∙ ap (returning (uuid.print cmd.order_id))
          (place_order_effect uuid.print late now w c cmd ∙ ap (after_place cmd (now 0) w) e)

  pub ship_order_placed :
      (id : Uuid) (text : String) (env : Envelope OrderEvent) (s : OrderSummary)
      → parse_order_id uuid.parse text ≡ (id, none)
      → lookup id w.streams ≡ some (env ∷ [])
      → lookup id w.readers.summary ≡ some s
      → ship_order_app (memory_store streams_part) uuid orders (in_time late now) text w ≡ (
        with_order id (env ∷ envelope id 2 (now 0) order_shipped ∷ []) (shipped_summary s) w,
        ok tt,
      )
  ship_order_placed id text env s p e row =
      ship_parsed (memory_store streams_part) uuid start orders made (in_time late now) w id text p
      ∙ ap (not_found_as_app (λ x. errors_is x stream_not_found)) (
          ship_order_effect uuid.print late now w c (record { order_id = id })
          ∙ ap (after_ship uuid.print id (now 0) w) e
          ∙ ap
              (λ o. (
                with_order id (env ∷ envelope id 2 (now 0) order_shipped ∷ [])
                    (shipped_summary (record_at o)) w,
                ok tt,
              ))
              row)
