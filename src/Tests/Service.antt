-- ===== src/Tests/Service.antt =====
-- The orders program on concrete commands.
use goaxon.Prelude.{none, ◌≡◌, nat_eq}
use goaxon.Go.Map.{lookup}
use goaxon.Memory.{memory_store}
use goaxon.Orders.Wire.{streams_part, handle_place_order, handle_ship_order}
use goaxon.Orders.Wire.OneEvent.{in_time}
use goaxon.Orders.Wire.Effects.{after_place, after_ship, place_order_effect, ship_order_effect}
use goaxon.Tests.Fixtures.{clock, two_ids, ada, ordered, ordered-IsConsistent}

place_order_effect_example :
    handle_place_order (memory_store streams_part) two_ids.print (in_time none clock) ada ordered
    ≡ after_place ada (clock 0) ordered (lookup 7 ordered.streams)
place_order_effect_example =
    place_order_effect two_ids.print none clock ordered ordered-IsConsistent ada

ship_order_effect_example :
    handle_ship_order
      (memory_store streams_part)
      two_ids.print
      (in_time none clock)
      (record { order_id = 7 })
      ordered
    ≡ after_ship two_ids.print 7 (clock 0) ordered (lookup 7 ordered.streams)
ship_order_effect_example =
    ship_order_effect two_ids.print none clock ordered ordered-IsConsistent
      (record { order_id = 7 })
