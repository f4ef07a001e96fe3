-- ===== src/Orders/App/Contexts.antt =====
-- examples/orders/app/orders.go: the methods of the service over the store in memory, whatever the
-- inputs and the context.
use goaxon.Prelude.{String, Option, none, some, ◌≡◌, sym, subst, nat_eq, string_eq}
use goaxon.Go.Error.{GoError, errors_is, stream_not_found, order_not_found}
use goaxon.Go.Outcome.{Outcome, ok, err, panics}
use goaxon.Go.Word.{ℤ}
use goaxon.Go.Map.{lookup}
use goaxon.Event.{Uuid, Call}
use goaxon.Memory.{memory_store}
use goaxon.Orders.Values.{PlaceOrder}
use goaxon.Orders.Projection.{get, OrderSummary}
use goaxon.Orders.Wire.{found, Wired, streams_part, handle_get_order_summary}
use goaxon.Orders.Wire.Consistent.{MemoryWorld, IsConsistent}
use goaxon.Orders.Wire.Contexts.{
  KeepsConsistent, place_order-KeepsConsistent, ship_order-KeepsConsistent,
}
use goaxon.Orders.App.{
  Bool, UuidText, not_found_as_app, returning, new, place_valid, place_order_app, ship_valid,
  ship_order_app, get_valid, get_order_app,
}
use goaxon.Orders.App.Service.{place_sent, ship_sent, summary_asked}

module _ {X A : Type 0} where
  returning-KeepsConsistent :
      {B : Type 0} (b : B) (q : MemoryWorld X × Outcome A)
      → KeepsConsistent q
      → KeepsConsistent (returning b q)
  returning-KeepsConsistent b (w, ok _) k = k
  returning-KeepsConsistent b (w, err _) k = k
  returning-KeepsConsistent b (w, panics _) k = k

  not_found_as_app-KeepsConsistent :
      (is : GoError → Bool) (q : MemoryWorld X × Outcome A)
      → KeepsConsistent q
      → KeepsConsistent (not_found_as_app is q)
  not_found_as_app-KeepsConsistent is (w, ok _) k = k
  not_found_as_app-KeepsConsistent is (w, err _) k = k
  not_found_as_app-KeepsConsistent is (w, panics _) k = k

-- The service after `New`, over the store in memory and any package uuid.
module _ {X : Type 0} (uuid : UuidText) (start : MemoryWorld X)
    (orders : Wired (memory_store streams_part) uuid.print)
    (made : new (memory_store streams_part) uuid start ≡ ok orders) (call : Call)
    (w : MemoryWorld X) (c : IsConsistent w) where
  place_valid-KeepsConsistent :
      (id : Uuid) (cmd : PlaceOrder) (e : Option GoError)
      → KeepsConsistent (place_valid (memory_store streams_part) uuid orders call id cmd e w)
  place_valid-KeepsConsistent id cmd (some _) = (c, tt)
  place_valid-KeepsConsistent id cmd none = returning-KeepsConsistent (uuid.print id) _ (
      subst KeepsConsistent
        (sym (place_sent (memory_store streams_part) uuid start orders made call w cmd))
        (place_order-KeepsConsistent uuid.print w c call cmd))

  pub place_order_app-KeepsConsistent :
      (id : Uuid) (name : String) (amount : ℤ) (memo : Option String)
      → KeepsConsistent
          (place_order_app (memory_store streams_part) uuid orders call id name amount memo w)
  unfolding place_order_app
  place_order_app-KeepsConsistent id name amount memo = place_valid-KeepsConsistent id _ _

  ship_valid-KeepsConsistent :
      (id : Uuid) (e : Option GoError)
      → KeepsConsistent (ship_valid (memory_store streams_part) uuid orders call id e w)
  ship_valid-KeepsConsistent id (some _) = (c, tt)
  ship_valid-KeepsConsistent id none =
      not_found_as_app-KeepsConsistent (λ e. errors_is e stream_not_found) _
        (subst KeepsConsistent
          (sym (ship_sent (memory_store streams_part) uuid start orders made call w _))
          (ship_order-KeepsConsistent uuid.print w c call (record { order_id = id })))

  pub ship_order_app-KeepsConsistent :
      (text : String)
      → KeepsConsistent (ship_order_app (memory_store streams_part) uuid orders call text w)
  unfolding ship_order_app
  ship_order_app-KeepsConsistent text = ship_valid-KeepsConsistent _ _

  get_order_summary-KeepsConsistent :
      (id : Uuid)
      → KeepsConsistent (
          handle_get_order_summary
            (memory_store streams_part)
            uuid.print
            call
            (record { order_id = id })
            w)
  unfolding handle_get_order_summary get
  get_order_summary-KeepsConsistent id = at (lookup id w.readers.summary)
    where
      at :
          (o : Option OrderSummary)
          → KeepsConsistent (w, found {X = X} (memory_store streams_part) uuid.print id o)
      at none = (c, tt)
      at (some _) = (c, tt)

  get_valid-KeepsConsistent :
      (id : Uuid) (e : Option GoError)
      → KeepsConsistent (get_valid (memory_store streams_part) uuid orders call id e w)
  get_valid-KeepsConsistent id (some _) = (c, tt)
  get_valid-KeepsConsistent id none =
      not_found_as_app-KeepsConsistent (λ e. errors_is e order_not_found) _
        (subst KeepsConsistent
          (sym (summary_asked (memory_store streams_part) uuid start orders made call w _))
          (get_order_summary-KeepsConsistent id))

  pub get_order_app-KeepsConsistent :
      (text : String)
      → KeepsConsistent (get_order_app (memory_store streams_part) uuid orders call text w)
  unfolding get_order_app
  get_order_app-KeepsConsistent text = get_valid-KeepsConsistent _ _
