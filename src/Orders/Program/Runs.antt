-- ===== src/Orders/Program/Runs.antt =====
-- examples/orders/main.go: what the program prints.
use goaxon.Prelude.{
  ℕ, zero, suc, none, some, List, [], ◌∷◌, ◌≡◌, refl, ap, subst, ◌∙◌, inl, fun_ext, string_eq,
  nat_eq,
}
use goaxon.Go.Outcome.{Outcome, ok, err}
use goaxon.Go.Error.{sentinel, stream_not_found}
use goaxon.Go.Word.{pos}
use goaxon.Go.Map.{lookup}
use goaxon.Go.Text.{trim_space, trim_left, trim_right, is_space}
use goaxon.Event.{Uuid, Time, Envelope}
use goaxon.Maybe
use goaxon.Validation
use goaxon.Validation.{Validator, new_validator, field}
use goaxon.Memory
use goaxon.Memory.{Streams, memory_store}
use goaxon.Orders.Values.{
  checked_id, OrderEvent, PlaceOrder, notes_zero, parse_order_id, parse_customer_name,
  make_amount_from_cents, parse_notes, event_type, order_shipped, order_placed,
}
use goaxon.Orders.Projection.{OrderSummary, placed_summary}
use goaxon.Orders.Wire.{Wired, streams_part}
use goaxon.Orders.Wire.Consistent.{MemoryWorld, IsConsistent, envelope, shipped_summary, with_order}
use goaxon.Orders.Wire.OneEvent.{asked, in_time}
use goaxon.Orders.Wire.Commands.{placed_event}
use goaxon.Orders.App.{UuidText, parse_note, place_order_app, ship_order_app, get_order_app}
use goaxon.Orders.App.Service.{service, new_lem}
use goaxon.Orders.App.Start.{service-IsConsistent}
use goaxon.Orders.App.Reading.{get_order_row, lookup_written, row_answer}
use goaxon.Orders.App.Effects.{place_order_absent, ship_order_placed}
use goaxon.Orders.App.Contexts.{place_order_app-KeepsConsistent}
use goaxon.Orders.Program.{
  length, OrderEvent, List, order_summary, stored_events, stored_event, background, new_world, must,
  events_of, print_events, inspect, drive_shipped, drive_placed, after_new, main_orders,
}

background_lem : (now : ℕ → Time) → background now ≡ in_time none now
background_lem now = ap (λ c. record { ctx = c; now = now }) (fun_ext at)
  where
    at : (i : ℕ) → none ≡ asked none none none i
    at zero = refl
    at (suc zero) = refl
    at (suc (suc i)) = refl

-- The order that the program places.
abbrev alice : Uuid → PlaceOrder
alice id = record {
  order_id = id;
  customer_name = "Alice";
  amount = pos 4200;
  notes = Maybe.some "Please ring the doorbell twice.";
}

module _ (uuid : UuidText) (id : Uuid) (placing shipping : ℕ → Time) where
  abbrev orders : Wired (memory_store (streams_part {X = Unit})) uuid.print
  orders = service (memory_store streams_part) uuid new_world

  notes_parsed :
      parse_note
        (memory_store streams_part)
        uuid
        orders
        new_validator
        (some "Please ring the doorbell twice.")
      ≡ (new_validator, (alice id).notes)
  unfolding field Validation.err parse_notes trim_space trim_left trim_right is_space
  notes_parsed = refl

  amount_parsed : make_amount_from_cents (pos 4200) ≡ (pos 4200, none)
  unfolding make_amount_from_cents
  amount_parsed = refl

  name_parsed : parse_customer_name "Alice" ≡ ("Alice", none)
  unfolding parse_customer_name trim_space trim_left trim_right is_space
  name_parsed = refl

  -- The envelopes and the rows that the program leaves.
  abbrev first : Envelope OrderEvent
  first = envelope id 1 (placing 0) (order_placed (placed_event (alice id)))

  abbrev row : OrderSummary
  row = placed_summary id (placed_event (alice id))

  abbrev after_placing : MemoryWorld Unit
  after_placing = with_order id (first ∷ []) row orders.world

  abbrev stream : List (Envelope OrderEvent)
  stream = first ∷ envelope id 2 (shipping 0) order_shipped ∷ []

  abbrev after_shipping : MemoryWorld Unit
  after_shipping = with_order id stream (shipped_summary row) after_placing

  placed :
      place_order_app
        (memory_store streams_part)
        uuid
        orders
        (background placing)
        id
        "Alice"
        (pos 4200)
        (some "Please ring the doorbell twice.")
        orders.world
      ≡ (after_placing, ok (uuid.print id))
  unfolding lookup
  placed =
      ap
        (λ call.
          place_order_app (memory_store streams_part) uuid orders call id "Alice" (pos 4200)
            (some "Please ring the doorbell twice.") orders.world)
        (background_lem placing)
      ∙ place_order_absent uuid new_world none placing orders
          (new_lem (memory_store streams_part) uuid new_world) orders.world
          (service-IsConsistent uuid new_world refl refl) "Alice" (pos 4200)
          (some "Please ring the doorbell twice.") (alice id) name_parsed amount_parsed notes_parsed
          refl

  consistent : IsConsistent after_placing
  consistent =
      subst (λ q. IsConsistent q.0) placed
        (place_order_app-KeepsConsistent uuid new_world orders
          (new_lem (memory_store streams_part) uuid new_world) (background placing) orders.world
          (service-IsConsistent uuid new_world refl refl) id "Alice" (pos 4200)
          (some "Please ring the doorbell twice.")).0

  module _ (reads_back : uuid.parse (uuid.print id) ≡ (id, none)) where
    id_parsed : parse_order_id uuid.parse (uuid.print id) ≡ (id, none)
    unfolding parse_order_id
    id_parsed = ap checked_id reads_back

    shipped :
        ship_order_app
          (memory_store streams_part)
          uuid
          orders
          (background shipping)
          (uuid.print id)
          after_placing
        ≡ (after_shipping, ok tt)
    shipped =
        ap
          (λ call.
            ship_order_app (memory_store streams_part) uuid orders call (uuid.print id)
              after_placing)
          (background_lem shipping)
        ∙ ship_order_placed uuid new_world none shipping orders
            (new_lem (memory_store streams_part) uuid new_world) after_placing consistent id
            (uuid.print id) first row id_parsed
            (lookup_written id (first ∷ []) orders.world.streams)
            (lookup_written id row orders.world.readers.summary)

    read :
        get_order_app
          (memory_store streams_part)
          uuid
          orders
          (background shipping)
          (uuid.print id)
          after_shipping
        ≡ (after_shipping, ok (shipped_summary row))
    read =
        get_order_row uuid new_world orders (new_lem (memory_store streams_part) uuid new_world)
          (background shipping) id (uuid.print id) after_shipping id_parsed
        ∙ ap (λ o. (after_shipping, row_answer o))
            (lookup_written id (shipped_summary row) after_placing.readers.summary)

    loaded :
        Memory.load none (uuid.parse (uuid.print id)).0 after_shipping.streams
        ≡ (after_shipping.streams, ok stream)
    unfolding Memory.load
    loaded =
        ap (λ q. Memory.load none q.0 after_shipping.streams) reads_back
        ∙ ap
            (λ o. elim o as (λ _. Streams OrderEvent × Outcome (List (Envelope OrderEvent))) [
              | none ↦ (after_shipping.streams, err (sentinel stream_not_found))
              | some l ↦ (after_shipping.streams, ok l)
            ])
            (lookup_written id stream after_placing.streams)

  -- Where package uuid parses the text that it prints for the drawn identifier, the program of the
  -- orders does not panic, and it prints the summary of an order of 4200 by Alice with its note,
  -- shipped, and then two stored events: OrderPlaced, numbered 1, and OrderShipped, numbered 2.
  pub main_orders_lem :
      uuid.parse (uuid.print id) ≡ (id, none)
      → main_orders uuid id placing shipping ≡ (
        order_summary (shipped_summary row)
            ∷ stored_events 2
            ∷ stored_event 1 "OrderPlaced"
            ∷ stored_event 2 "OrderShipped"
            ∷ [],
        inl tt,
      )
  unfolding main_orders event_type
  main_orders_lem reads_back =
      ap (after_new uuid id placing shipping) (new_lem (memory_store streams_part) uuid new_world)
      ∙ ap (λ q. must q (drive_placed uuid id placing shipping orders)) placed
      ∙ ap (λ q. must q (drive_shipped uuid id placing shipping orders (uuid.print id)))
          (shipped reads_back)
      ∙ ap (λ q. must q (λ w s. inspect uuid id placing shipping (uuid.print id) s w))
          (read reads_back)
      ∙ ap
          (λ q.
            let envs = events_of q.1 in
            (
              order_summary (shipped_summary row) ∷ stored_events (length envs) ∷ print_events envs,
              inl tt,
            ))
          (loaded reads_back)
