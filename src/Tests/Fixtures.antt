-- ===== src/Tests/Fixtures.antt =====
-- The inputs: an empty shop, and the shop after an order is placed.
use goaxon.Prelude.{◌+◌, ℕ, none, some, [], ◌∷◌, refl, ◌==◌, string_eq, nat_eq, if◌then◌else◌}
use goaxon.Go.Error.{text}
use goaxon.Go.Word.{pos}
use goaxon.Go.Map.{lookup, insert}
use goaxon.Event.{Time}
use goaxon.Maybe
use goaxon.Memory.{memory_store, subscribe}
use goaxon.Orders.Values.{notes_zero, PlaceOrder, order_placed}
use goaxon.Orders.Projection.{placed_summary}
use goaxon.Orders.Wire.{Wired, streams_part}
use goaxon.Orders.Wire.Consistent.{
  MemoryWorld, IsConsistent, envelope, with_order, with_order-IsConsistent, absent, placed,
}
use goaxon.Orders.Wire.Commands.{placed_event}
use goaxon.Orders.App.{UuidText}
use goaxon.Orders.App.Service.{service}

abbrev pub clock : ℕ → Time
clock i = 100 + i

abbrev pub two_ids : UuidText
two_ids = record {
  print = λ id. if id == 7 then "seven" else "other";
  parse = λ s. if s == "seven" then (7, none) else (0, some (text "invalid UUID"));
}

abbrev pub empty_shop : MemoryWorld Unit
empty_shop = record { streams = []; bus = []; readers = record { summary = []; others = tt } }

abbrev pub shop : Wired (memory_store (streams_part {X = Unit})) two_ids.print
shop = service (memory_store streams_part) two_ids empty_shop

abbrev pub opened : MemoryWorld Unit
opened = shop.world

pub opened-IsConsistent : IsConsistent opened
unfolding lookup subscribe insert
opened-IsConsistent = record { placing = refl; shipping = refl; stored = λ id. absent refl refl }

abbrev pub ada : PlaceOrder
ada = record { order_id = 7; customer_name = "Ada"; amount = pos 4200; notes = Maybe.none }

abbrev pub ordered : MemoryWorld Unit
ordered =
    with_order 7 (envelope 7 1 (clock 0) (order_placed (placed_event ada)) ∷ [])
      (placed_summary 7 (placed_event ada)) opened

pub ordered-IsConsistent : IsConsistent ordered
ordered-IsConsistent =
    with_order-IsConsistent 7 _ _ opened (placed (placed_event ada) (clock 0) refl refl)
      opened-IsConsistent
