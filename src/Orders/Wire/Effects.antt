-- ===== src/Orders/Wire/Effects.antt =====
-- examples/orders/domain/orders.go: the handlers of the two commands over the store in memory, with
-- what each does as a function of the order's stream.
use goaxon.Prelude.{
  ℕ, String, Option, none, some, List, [], ◌∷◌, ◌≡◌, refl, ap, sym, subst, ◌∙◌, nat_eq,
}
use goaxon.Go.Error.{text}
use goaxon.Go.Outcome.{Done, ok, err}
use goaxon.Go.Map.{lookup}
use goaxon.Event.{Ctx, Uuid, Time, Envelope}
use goaxon.Memory.{memory_store}
use goaxon.Orders.Values.{PlaceOrder, ShipOrder, OrderEvent, order_placed, order_shipped}
use goaxon.Orders.Projection.{placed_summary, record_at}
use goaxon.Orders.Wire.{streams_part, handle_place_order, handle_ship_order}
use goaxon.Orders.Wire.Consistent.{
  MemoryWorld, envelope, shipped_summary, Stored, absent, placed, shipped, IsConsistent, with_order,
  with_order-IsConsistent,
}
use goaxon.Orders.Wire.OneEvent.{in_time}
use goaxon.Orders.Wire.Commands.{
  missing, placed_event, place_new, place_placed, place_shipped, ship_absent, ship_placed,
  ship_shipped,
}

-- What `PlaceOrder` does, by the stream that the store has for the order.
abbrev pub after_place :
    {X : Type 0}
    → PlaceOrder
    → Time
    → MemoryWorld X
    → Option (List (Envelope OrderEvent))
    → MemoryWorld X × Done
after_place cmd t w none = (
  with_order cmd.order_id (envelope cmd.order_id 1 t (order_placed (placed_event cmd)) ∷ [])
      (placed_summary cmd.order_id (placed_event cmd)) w,
  ok tt,
)
after_place cmd t w (some _) = (w, err (text "order already placed"))

-- What `ShipOrder` does, by the stream that the store has for the order.
abbrev pub after_ship :
    {X : Type 0}
    → (Uuid → String)
    → Uuid
    → Time
    → MemoryWorld X
    → Option (List (Envelope OrderEvent))
    → MemoryWorld X × Done
after_ship print id t w none = (w, err (missing (print id)))
after_ship print id t w (some (env ∷ [])) = (
  with_order id (env ∷ envelope id 2 t order_shipped ∷ [])
      (shipped_summary (record_at (lookup id w.readers.summary))) w,
  ok tt,
)
after_ship print id t w (some _) = (w, err (text "order already shipped"))

module _ {X : Type 0} (print : Uuid → String) (late : Ctx) (now : ℕ → Time) (w : MemoryWorld X)
    (c : IsConsistent w) where
  place_cases :
      (cmd : PlaceOrder)
      → Stored cmd.order_id (lookup cmd.order_id w.streams) (lookup cmd.order_id w.readers.summary)
      → handle_place_order (memory_store streams_part) print (in_time late now) cmd w
        ≡ after_place cmd (now 0) w (lookup cmd.order_id w.streams)
  place_cases cmd (absent e row) =
      place_new print late now cmd w c e ∙ ap (after_place cmd (now 0) w) (sym e)
  place_cases cmd (placed ev t e row) =
      place_placed print late now cmd w c ev t e ∙ ap (after_place cmd (now 0) w) (sym e)
  place_cases cmd (shipped ev t t' e row) =
      place_shipped print late now cmd w c ev t t' e ∙ ap (after_place cmd (now 0) w) (sym e)

  -- In a consistent state and on a context that is not done when the store asks, the handler of
  -- `PlaceOrder`: on an order that has no stream it writes the stream of one OrderPlaced event,
  -- numbered 1, and the row that shows it, and no other stream or row; on an order that has a
  -- stream it changes nothing and returns the error "order already placed".
  pub place_order_effect :
      (cmd : PlaceOrder)
      → handle_place_order (memory_store streams_part) print (in_time late now) cmd w
        ≡ after_place cmd (now 0) w (lookup cmd.order_id w.streams)
  place_order_effect cmd = place_cases cmd (c.stored cmd.order_id)

  ship_cases :
      (cmd : ShipOrder)
      → Stored cmd.order_id (lookup cmd.order_id w.streams) (lookup cmd.order_id w.readers.summary)
      → handle_ship_order (memory_store streams_part) print (in_time late now) cmd w
        ≡ after_ship print cmd.order_id (now 0) w (lookup cmd.order_id w.streams)
  ship_cases cmd (absent e row) =
      ship_absent print late now cmd.order_id w c e
      ∙ ap (after_ship print cmd.order_id (now 0) w) (sym e)
  ship_cases cmd (placed ev t e row) =
      ship_placed print late now cmd.order_id w c ev t e row
      ∙ ap
          (λ o. (
            with_order cmd.order_id
                (envelope cmd.order_id 1 t (order_placed ev)
                  ∷ envelope cmd.order_id 2 (now 0) order_shipped
                  ∷ [])
                (shipped_summary (record_at o)) w,
            ok tt,
          ))
          (sym row)
      ∙ ap (after_ship print cmd.order_id (now 0) w) (sym e)
  ship_cases cmd (shipped ev t t' e row) =
      ship_shipped print late now cmd.order_id w c ev t t' e
      ∙ ap (after_ship print cmd.order_id (now 0) w) (sym e)

  -- In a consistent state and on a context that is not done when the store asks, the handler of
  -- `ShipOrder`: on an order without a stream it changes nothing and returns the error of a
  -- missing stream; on an order that is placed it appends OrderShipped, numbered 2, and sets the
  -- row's `shipped`; on an order that is shipped it changes nothing and returns the error "order
  -- already shipped".
  pub ship_order_effect :
      (cmd : ShipOrder)
      → handle_ship_order (memory_store streams_part) print (in_time late now) cmd w
        ≡ after_ship print cmd.order_id (now 0) w (lookup cmd.order_id w.streams)
  ship_order_effect cmd = ship_cases cmd (c.stored cmd.order_id)

  after_place-IsConsistent :
      (cmd : PlaceOrder) (t : Time) (o : Option (List (Envelope OrderEvent)))
      → IsConsistent (after_place cmd t w o).0
  after_place-IsConsistent cmd t none =
      with_order-IsConsistent cmd.order_id _ _ w (placed (placed_event cmd) t refl refl) c
  after_place-IsConsistent cmd t (some _) = c

  after_ship-IsConsistent :
      (id : Uuid) (t : Time)
      → Stored id (lookup id w.streams) (lookup id w.readers.summary)
      → IsConsistent (after_ship print id t w (lookup id w.streams)).0
  after_ship-IsConsistent id t (absent e row) = rw e c
  after_ship-IsConsistent id t (placed ev t' e row) =
      subst (λ o. IsConsistent (after_ship print id t w o).0) (sym e)
        (with_order-IsConsistent id _ _ w
          (shipped ev t' t refl (ap (λ o. some (shipped_summary (record_at o))) row)) c)
  after_ship-IsConsistent id t (shipped ev t' t'' e row) = rw e c

  -- In a consistent state and on a context that is not done when the store asks, the handler of
  -- `PlaceOrder` leaves the state consistent: each order has neither stream nor row, or is placed
  -- in both, or is shipped in both.
  pub place_order-IsConsistent :
      (cmd : PlaceOrder)
      → IsConsistent
          (handle_place_order (memory_store streams_part) print (in_time late now) cmd w).0
  place_order-IsConsistent cmd =
      rw (place_order_effect cmd)
        (after_place-IsConsistent cmd (now 0) (lookup cmd.order_id w.streams))

  -- In a consistent state and on a context that is not done when the store asks, the handler of
  -- `ShipOrder` leaves the state consistent: each order has neither stream nor row, or is placed
  -- in both, or is shipped in both.
  pub ship_order-IsConsistent :
      (cmd : ShipOrder)
      → IsConsistent
          (handle_ship_order (memory_store streams_part) print (in_time late now) cmd w).0
  ship_order-IsConsistent cmd =
      rw (ship_order_effect cmd)
        (after_ship-IsConsistent cmd.order_id (now 0) (c.stored cmd.order_id))
