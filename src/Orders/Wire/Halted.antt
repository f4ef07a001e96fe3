-- ===== src/Orders/Wire/Halted.antt =====
-- examples/orders/domain/orders.go: the handlers of the two commands over the store in memory, on a
-- context that is done before the store has appended.
use goaxon.Prelude.{
  ℕ, Option, none, some, List, [], ◌∷◌, ◌≡◌, refl, sym, subst, Bool, true, false, nat_eq,
  if◌then◌else◌,
}
use goaxon.Go.Error.{GoError, errors_is, stream_not_found}
use goaxon.Go.Outcome.{Outcome, Done, ok, err, panics}
use goaxon.Go.Map.{lookup}
use goaxon.Event.{Uuid, Time, Ctx, CtxError, is_canceled, is_past_deadline, Call, Envelope}
use goaxon.Memory
use goaxon.Memory.{memory_store}
use goaxon.Aggregate.Repository.{load, save, save_pending, after_append}
use goaxon.Orders.Values.{PlaceOrder, ShipOrder, OrderEvent}
use goaxon.Orders.Order.{Order, order_base, new_order, place, ship}
use goaxon.Orders.Wire.{
  Bool, String, streams_part, save_order, place_and_save, place_loaded, ship_and_save,
  handle_place_order, handle_ship_order,
}
use goaxon.Orders.Wire.Consistent.{MemoryWorld}
use goaxon.Orders.Wire.OneEvent.{asked, orders_repo}
use goaxon.Orders.Wire.Commands.{load_missing, load_stored}

-- A call that does not panic.
abbrev pub Returns : {A : Type 0} → Outcome A → Type 0
Returns (ok _) = Unit
Returns (err _) = Unit
Returns (panics _) = ⊥

-- A call that leaves the state as it was and does not panic.
abbrev pub Untouched : {W A : Type 0} → W → W × Outcome A → Type 0
Untouched w q = (q.0 ≡ w) × Returns q.1

module _ {X : Type 0} (print : Uuid → String) (now : ℕ → Time) (w : MemoryWorld X) where
  save-Untouched :
      (first later : Ctx) (e : CtxError) (o : Order)
      → Untouched w (
          save_order
            (memory_store streams_part)
            print
            (record { ctx = asked first (some e) later; now = now })
            o
            w)
  unfolding save Memory.append after_append
  save-Untouched first later e o = at o.base.uncommitted
    where
      at :
          (es : List OrderEvent)
          → Untouched w (
              let (s, result) =
                save_pending (orders_repo print) order_base (some e) later now o es w in
              (s.1, result))
      at [] = (refl, tt)
      at (_ ∷ _) = (refl, tt)

  module _ (first later : Ctx) (e : CtxError) where
    -- A call whose context is done when the store's `Append` asks.
    abbrev pub halted : Call
    halted = record { ctx = asked first (some e) later; now = now }

    -- The rest of a handler after the order's method.
    abbrev saved : Order × Option GoError → MemoryWorld X × Done
    saved p = elim p.1 [
      | none ↦ save_order (memory_store streams_part) print halted p.0 w
      | some e' ↦ (w, err e')
    ]

    saved-Untouched : (p : Order × Option GoError) → Untouched w (saved p)
    saved-Untouched (o, none) = save-Untouched first later e o
    saved-Untouched (o, some _) = (refl, tt)

    place_loaded-Untouched :
        (cmd : PlaceOrder) (r : Outcome Order)
        → Returns r
        → Untouched w (place_loaded (memory_store streams_part) print halted cmd (w, r))
    place_loaded-Untouched cmd (ok o) h =
        saved-Untouched (place o cmd.customer_name cmd.amount cmd.notes)
    place_loaded-Untouched cmd (err f) h = at (errors_is f stream_not_found)
      where
        fresh : Order
        fresh = new_order cmd.order_id

        at :
            (b : Bool)
            → Untouched w (
                if b
                then place_and_save (memory_store streams_part) print halted cmd fresh w
                else (w, err f))
        at true = saved-Untouched (place fresh cmd.customer_name cmd.amount cmd.notes)
        at false = (refl, tt)
    place_loaded-Untouched cmd (panics m) h = absurd h

    ship_loaded-Untouched :
        (r : Outcome Order)
        → Returns r
        → Untouched w (ship_and_save (memory_store streams_part) print halted (w, r))
    ship_loaded-Untouched (ok o) h = saved-Untouched (ship o)
    ship_loaded-Untouched (err f) h = (refl, tt)
    ship_loaded-Untouched (panics m) h = absurd h

  load-Returns :
      (ctx : Ctx) (id : Uuid)
      → (r : Outcome Order) × (load (orders_repo {X = X} print) ctx id w ≡ (w, r)) × Returns r
  unfolding load Memory.load
  load-Returns (some e) id = (_, refl, tt)
  load-Returns none id = at (lookup id w.streams) refl
    where
      at :
          (o : Option (List (Envelope OrderEvent)))
          → lookup id w.streams ≡ o
          → (r : Outcome Order) × (load (orders_repo {X = X} print) none id w ≡ (w, r)) × Returns r
      at none e = (_, load_missing print w id e, tt)
      at (some l) e = (_, load_stored print w id l e, tt)

  -- The handlers where the context is done when the store's `Append` asks.
  pub place_halted :
      (first later : Ctx) (e : CtxError) (cmd : PlaceOrder)
      → Untouched w
          (handle_place_order (memory_store streams_part) print (halted first later e) cmd w)
  unfolding handle_place_order
  place_halted first later e cmd =
      let (r, loaded, returns) = load-Returns first cmd.order_id in
      subst
        (λ q.
          Untouched w (place_loaded (memory_store streams_part) print (halted first later e) cmd q))
        (sym loaded) (place_loaded-Untouched first later e cmd r returns)

  pub ship_halted :
      (first later : Ctx) (e : CtxError) (cmd : ShipOrder)
      → Untouched w
          (handle_ship_order (memory_store streams_part) print (halted first later e) cmd w)
  unfolding handle_ship_order
  ship_halted first later e cmd =
      let (r, loaded, returns) = load-Returns first cmd.order_id in
      subst
        (λ q.
          Untouched w (ship_and_save (memory_store streams_part) print (halted first later e) q))
        (sym loaded) (ship_loaded-Untouched first later e r returns)

  -- The handlers where the context is done when the store's `Load` asks.
  pub place_unloaded :
      (e : CtxError) (second later : Ctx) (cmd : PlaceOrder)
      → Untouched w (
          handle_place_order
            (memory_store streams_part)
            print
            (record { ctx = asked (some e) second later; now = now })
            cmd
            w)
  unfolding handle_place_order load Memory.load errors_is
  place_unloaded is_canceled second later cmd = (refl, tt)
  place_unloaded is_past_deadline second later cmd = (refl, tt)

  pub ship_unloaded :
      (e : CtxError) (second later : Ctx) (cmd : ShipOrder)
      → Untouched w (
          handle_ship_order
            (memory_store streams_part)
            print
            (record { ctx = asked (some e) second later; now = now })
            cmd
            w)
  unfolding handle_ship_order load Memory.load
  ship_unloaded e second later cmd = (refl, tt)
