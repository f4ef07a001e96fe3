-- ===== src/Orders/Wire/Contexts.antt =====
-- examples/orders/domain/orders.go: the handlers of the two commands over the store in memory,
-- whenever their context ends.
use goaxon.Prelude.{ℕ, Option, none, some, List, [], ◌∷◌, sym, subst, nat_eq}
use goaxon.Go.Outcome.{Outcome}
use goaxon.Go.Map.{lookup}
use goaxon.Event.{Uuid, Time, Ctx, Call, Envelope}
use goaxon.Memory.{memory_store}
use goaxon.Orders.Values.{PlaceOrder, ShipOrder, OrderEvent}
use goaxon.Orders.Wire.{String, streams_part, handle_place_order, handle_ship_order}
use goaxon.Orders.Wire.Consistent.{MemoryWorld, IsConsistent}
use goaxon.Orders.Wire.OneEvent.{asked}
use goaxon.Orders.Wire.Effects.{
  after_place, after_ship, place_order_effect, ship_order_effect, place_order-IsConsistent,
  ship_order-IsConsistent,
}
use goaxon.Orders.Wire.Halted.{
  Returns, Untouched, place_halted, ship_halted, place_unloaded, ship_unloaded,
}

-- A call that ends in a consistent state and does not panic.
abbrev pub KeepsConsistent : {X A : Type 0} → MemoryWorld X × Outcome A → Type 0
KeepsConsistent q = IsConsistent q.0 × Returns q.1

Untouched-KeepsConsistent :
    {X A : Type 0} (w : MemoryWorld X) (q : MemoryWorld X × Outcome A)
    → IsConsistent w
    → Untouched w q
    → KeepsConsistent q
Untouched-KeepsConsistent w q c (same, returns) = (subst IsConsistent (sym same) c, returns)

module _ {X : Type 0} (print : Uuid → String) (w : MemoryWorld X) (c : IsConsistent w) where
  place_at_ctx :
      (first second later : Ctx) (now : ℕ → Time) (cmd : PlaceOrder)
      → KeepsConsistent (
          handle_place_order
            (memory_store streams_part)
            print
            (record { ctx = asked first second later; now = now })
            cmd
            w)
  place_at_ctx (some e) second later now cmd =
      Untouched-KeepsConsistent w _ c (place_unloaded print now w e second later cmd)
  place_at_ctx none (some e) later now cmd =
      Untouched-KeepsConsistent w _ c (place_halted print now w none later e cmd)
  place_at_ctx none none later now cmd = (
    place_order-IsConsistent print later now w c cmd,
    rw (place_order_effect print later now w c cmd) (at (lookup cmd.order_id w.streams)),
  )
    where
      at : (o : Option (List (Envelope OrderEvent))) → Returns (after_place cmd (now 0) w o).1
      at none = tt
      at (some _) = tt

  ship_at_ctx :
      (first second later : Ctx) (now : ℕ → Time) (cmd : ShipOrder)
      → KeepsConsistent (
          handle_ship_order
            (memory_store streams_part)
            print
            (record { ctx = asked first second later; now = now })
            cmd
            w)
  ship_at_ctx (some e) second later now cmd =
      Untouched-KeepsConsistent w _ c (ship_unloaded print now w e second later cmd)
  ship_at_ctx none (some e) later now cmd =
      Untouched-KeepsConsistent w _ c (ship_halted print now w none later e cmd)
  ship_at_ctx none none later now cmd = (
    ship_order-IsConsistent print later now w c cmd,
    rw (ship_order_effect print later now w c cmd) (at (lookup cmd.order_id w.streams)),
  )
    where
      at :
          (o : Option (List (Envelope OrderEvent)))
          → Returns (after_ship print cmd.order_id (now 0) w o).1
      at none = tt
      at (some []) = tt
      at (some (_ ∷ [])) = tt
      at (some (_ ∷ _ ∷ _)) = tt

  -- Whenever the context of the call ends, the handler of `PlaceOrder` keeps the state consistent and
  -- does not panic.
  pub place_order-KeepsConsistent :
      (call : Call) (cmd : PlaceOrder)
      → KeepsConsistent (handle_place_order (memory_store streams_part) print call cmd w)
  unfolding handle_place_order
  place_order-KeepsConsistent call cmd =
      place_at_ctx (call.ctx 0) (call.ctx 1) (call.ctx 2) call.now cmd

  pub ship_order-KeepsConsistent :
      (call : Call) (cmd : ShipOrder)
      → KeepsConsistent (handle_ship_order (memory_store streams_part) print call cmd w)
  unfolding handle_ship_order
  ship_order-KeepsConsistent call cmd =
      ship_at_ctx (call.ctx 0) (call.ctx 1) (call.ctx 2) call.now cmd
