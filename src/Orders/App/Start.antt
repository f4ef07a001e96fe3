-- ===== src/Orders/App/Start.antt =====
-- examples/orders/app/orders.go: the state that `New` leaves.
use goaxon.Prelude.{[], ◌≡◌, refl, ap, string_eq, nat_eq}
use goaxon.Go.Outcome.{ok}
use goaxon.Go.Map.{lookup, insert}
use goaxon.Memory.{memory_store, subscribe}
use goaxon.Memory.Publish.{subscribers}
use goaxon.Orders.Wire.{Wired, streams_part, with_projection}
use goaxon.Orders.Wire.Consistent.{MemoryWorld, IsConsistent, absent}
use goaxon.Orders.App.{UuidText, new}
use goaxon.Orders.App.Service.{service, new_lem}

-- The state that the service starts from.
pub service-IsConsistent :
    {X : Type 0} (uuid : UuidText) (start : MemoryWorld X)
    → start.streams ≡ []
    → start.bus ≡ []
    → IsConsistent (service (memory_store streams_part) uuid start).world
unfolding lookup subscribe insert
service-IsConsistent uuid start no_streams no_handlers = record {
  placing =
      ap
        (λ b.
          subscribers
            ((with_projection (memory_store streams_part) uuid.print
              (record start { bus = b })).bus)
            "OrderPlaced")
        no_handlers;
  shipping =
      ap
        (λ b.
          subscribers
            ((with_projection (memory_store streams_part) uuid.print
              (record start { bus = b })).bus)
            "OrderShipped")
        no_handlers;
  stored = λ id. absent (ap (lookup id) no_streams) refl;
}

-- `New` on a store in memory without streams and an event bus without subscribers succeeds, and
-- the state it leaves is consistent.
pub new-IsConsistent :
    {X : Type 0} (uuid : UuidText) (start : MemoryWorld X)
    → start.streams ≡ []
    → start.bus ≡ []
    → (orders : Wired (memory_store streams_part) uuid.print) × (new
          (memory_store streams_part)
          uuid
          start
        ≡ ok orders)
      × IsConsistent orders.world
new-IsConsistent uuid start no_streams no_handlers = (
  service (memory_store streams_part) uuid start,
  new_lem (memory_store streams_part) uuid start,
  service-IsConsistent uuid start no_streams no_handlers,
)
