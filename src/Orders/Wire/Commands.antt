-- ===== src/Orders/Wire/Commands.antt =====
-- examples/orders/domain/orders.go: the handlers of the two commands over the store in memory, case
-- by case.
use Prim.Native.String.{◌++◌ as cat}
use goaxon.Prelude.{ℕ, String, none, some, List, [], ◌∷◌, ◌++◌, ◌≡◌, refl, ap, ◌∙◌, nat_eq, length}
use goaxon.Go.Error.{GoError, errors_is, sentinel, text, wrapped, stream_not_found}
use goaxon.Go.Outcome.{ok, err}
use goaxon.Go.Word.{u64}
use goaxon.Go.Map.{lookup}
use goaxon.Event.{Ctx, Uuid, Time, Envelope}
use goaxon.Memory
use goaxon.Memory.{Streams, memory_store, slice_at}
use goaxon.Aggregate.{raise, rehydrate}
use goaxon.Aggregate.Repository.{load, replay}
use goaxon.Orders.Values.{PlaceOrder, OrderPlaced, OrderEvent, order_placed, order_shipped}
use goaxon.Orders.Order.{apply, order_base, order_raise, place, ship}
use goaxon.Orders.Projection.{placed_summary}
use goaxon.Orders.Wire.{
  streams_part, handle_place_order, handle_ship_order, place_loaded, ship_and_save, place_and_save,
}
use goaxon.Orders.Wire.Consistent.{
  MemoryWorld, envelope, shipped_summary, IsConsistent, with_order, fresh_order, new_order_lem,
}
use goaxon.Orders.Wire.OneEvent.{in_time, orders_repo, save_one, publish_placed, publish_shipped}

-- The error that `Load` returns for a missing stream.
abbrev pub missing : String → GoError
missing id = wrapped (cat "aggregate: load " (cat id ": ")) (sentinel stream_not_found) ""

abbrev pub placed_event : PlaceOrder → OrderPlaced
placed_event cmd = record {
  customer_name = cmd.customer_name;
  amount = cmd.amount;
  notes = cmd.notes;
}

module _ {X : Type 0} (print : Uuid → String) where
  pub load_missing :
      (w : MemoryWorld X) (id : Uuid)
      → lookup id w.streams ≡ none
      → load (orders_repo print) none id w ≡ (w, err (missing (print id)))
  unfolding load Memory.load lookup
  load_missing w id e = rw e

  pub load_stored :
      (w : MemoryWorld X) (id : Uuid) (l : List (Envelope OrderEvent))
      → lookup id w.streams ≡ some l
      → load (orders_repo print) none id w
        ≡ (w, ok (replay (orders_repo {X = X} print) order_base (fresh_order id) l))
  unfolding load Memory.load lookup replay
  load_stored w id l e =
      rw e
        (ap (λ o. (w, ok (replay (orders_repo {X = X} print) order_base o l))) (new_order_lem id))

  module _ (late : Ctx) (now : ℕ → Time) (cmd : PlaceOrder) (w : MemoryWorld X)
      (c : IsConsistent w) where
    pub place_new :
        lookup cmd.order_id w.streams ≡ none
        → handle_place_order (memory_store streams_part) print (in_time late now) cmd w ≡ (
          with_order cmd.order_id
              (envelope cmd.order_id 1 (now 0) (order_placed (placed_event cmd)) ∷ [])
              (placed_summary cmd.order_id (placed_event cmd))
              w,
          ok tt,
        )
    unfolding handle_place_order errors_is place raise apply
    place_new e =
        ap (place_loaded (memory_store streams_part) print (in_time late now) cmd)
          (load_missing w cmd.order_id e)
        ∙ ap (λ o. place_and_save (memory_store streams_part) print (in_time late now) cmd o w)
            (new_order_lem cmd.order_id)
        ∙ save_one print late now
            (order_raise (fresh_order cmd.order_id) (order_placed (placed_event cmd)))
            (order_placed (placed_event cmd)) w _ refl (ap (λ o. u64 (length (slice_at o))) e)
            (publish_placed print late w cmd.order_id 1 (now 0) (placed_event cmd) c)
        ∙ ap
            (λ o. (
              with_order cmd.order_id
                  (slice_at o
                    ++ envelope cmd.order_id 1 (now 0) (order_placed (placed_event cmd)) ∷ [])
                  (placed_summary cmd.order_id (placed_event cmd)) w,
              ok tt,
            ))
            e

    pub place_placed :
        (ev : OrderPlaced) (t : Time)
        → lookup cmd.order_id w.streams ≡ some (envelope cmd.order_id 1 t (order_placed ev) ∷ [])
        → handle_place_order (memory_store streams_part) print (in_time late now) cmd w
          ≡ (w, err (text "order already placed"))
    unfolding handle_place_order place replay rehydrate apply
    place_placed ev t e =
        ap (place_loaded (memory_store streams_part) print (in_time late now) cmd)
          (load_stored w cmd.order_id _ e)

    pub place_shipped :
        (ev : OrderPlaced) (t t' : Time)
        → lookup cmd.order_id w.streams
          ≡ some (
              envelope cmd.order_id 1 t (order_placed ev)
              ∷ envelope cmd.order_id 2 t' order_shipped
              ∷ [])
        → handle_place_order (memory_store streams_part) print (in_time late now) cmd w
          ≡ (w, err (text "order already placed"))
    unfolding handle_place_order place replay rehydrate apply
    place_shipped ev t t' e =
        ap (place_loaded (memory_store streams_part) print (in_time late now) cmd)
          (load_stored w cmd.order_id _ e)

  module _ (late : Ctx) (now : ℕ → Time) (id : Uuid) (w : MemoryWorld X) (c : IsConsistent w) where
    pub ship_absent :
        lookup id w.streams ≡ none
        → handle_ship_order
            (memory_store streams_part)
            print
            (in_time late now)
            (record { order_id = id })
            w
          ≡ (w, err (missing (print id)))
    unfolding handle_ship_order
    ship_absent e =
        ap (ship_and_save (memory_store streams_part) print (in_time late now))
          (load_missing w id e)

    pub ship_placed :
        (ev : OrderPlaced) (t : Time)
        → lookup id w.streams ≡ some (envelope id 1 t (order_placed ev) ∷ [])
        → lookup id w.readers.summary ≡ some (placed_summary id ev)
        → handle_ship_order
            (memory_store streams_part)
            print
            (in_time late now)
            (record { order_id = id })
            w
          ≡ (
            with_order id
                (envelope id 1 t (order_placed ev) ∷ envelope id 2 (now 0) order_shipped ∷ [])
                (shipped_summary (placed_summary id ev))
                w,
            ok tt,
          )
    unfolding handle_ship_order ship raise replay rehydrate apply
    ship_placed ev t e row =
        ap (ship_and_save (memory_store streams_part) print (in_time late now))
          (load_stored w id _ e)
        ∙ save_one print late now
            (order_raise
              (replay (orders_repo {X = X} print) order_base (fresh_order id)
                (envelope id 1 t (order_placed ev) ∷ []))
              order_shipped)
            order_shipped w _ refl (ap (λ o. u64 (length (slice_at o))) e)
            (publish_shipped print late w id 2 (now 0) (placed_summary id ev) c row)
        ∙ ap
            (λ o. (
              with_order id (slice_at o ++ envelope id 2 (now 0) order_shipped ∷ [])
                  (shipped_summary (placed_summary id ev)) w,
              ok tt,
            ))
            e

    pub ship_shipped :
        (ev : OrderPlaced) (t t' : Time)
        → lookup id w.streams
          ≡ some (envelope id 1 t (order_placed ev) ∷ envelope id 2 t' order_shipped ∷ [])
        → handle_ship_order
            (memory_store streams_part)
            print
            (in_time late now)
            (record { order_id = id })
            w
          ≡ (w, err (text "order already shipped"))
    unfolding handle_ship_order ship replay rehydrate apply
    ship_shipped ev t t' e =
        ap (ship_and_save (memory_store streams_part) print (in_time late now))
          (load_stored w id _ e)
