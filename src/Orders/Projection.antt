-- ===== src/Orders/Projection.antt =====
-- examples/orders/domain/orders.go: the read model.
use Prim.Native.String.{◌++◌}
use goaxon.Prelude.{[], Bool, true, false, Option, none, some, nat_eq}
use goaxon.Go.Outcome.{ok, panics, Exec}
use goaxon.Go.Map.{Map, lookup, insert}
use goaxon.Go.Word.{pos}
use goaxon.Event.{Uuid, nil_uuid, Handler}
use goaxon.Maybe
use goaxon.Maybe.{Maybe}
use goaxon.Orders.Values.{
  OrderId, CustomerName, Amount, Notes, notes_zero, OrderPlaced, OrderEvent, order_placed,
  event_type,
}

pub record OrderSummary : Type 0 where
  pub order_id : OrderId
  pub customer_name : CustomerName
  pub amount : Amount
  pub notes : Maybe Notes
  pub shipped : Bool

-- `OrderSummary{}`
abbrev pub zero_summary : OrderSummary
zero_summary = record {
  order_id = nil_uuid;
  customer_name = "";
  amount = pos 0;
  notes = Maybe.none;
  shipped = false;
}

-- The field `records` of `SummaryProjection`.
abbrev pub Projection : Type 0
Projection = Map Uuid OrderSummary

abbrev pub new_projection : Projection
new_projection = []

-- The record that a placed order gets.
abbrev pub placed_summary : Uuid → OrderPlaced → OrderSummary
placed_summary id ev = record {
  order_id = id;
  customer_name = ev.customer_name;
  amount = ev.amount;
  notes = ev.notes;
  shipped = false;
}

-- `env.Payload.(OrderPlaced)` panics on an event of another type.
abbrev pub place_record : Uuid → OrderEvent → Exec Projection Unit
place_record id (order_placed ev) p = (insert id (placed_summary id ev) p, ok tt)
place_record id e p = (
  p,
  panics ("interface conversion: event.Event is " ++ event_type e ++ ", not domain.OrderPlaced"),
)

-- `OnOrderPlaced`
unfoldable pub on_order_placed : Handler Projection OrderEvent
on_order_placed ctx env p = place_record env.aggregate_id env.payload p

-- `p.records[id]`, which is the zero value where the key is missing.
abbrev pub record_at : Option OrderSummary → OrderSummary
record_at none = zero_summary
record_at (some rec) = rec

-- `OnOrderShipped`
unfoldable pub on_order_shipped : Handler Projection OrderEvent
on_order_shipped ctx env p =
    let rec = record_at (lookup env.aggregate_id p) in
    (insert env.aggregate_id (record rec { shipped = true }) p, ok tt)

-- `Get`
unfoldable pub get : Uuid → Projection → Option OrderSummary
get id p = lookup id p
