-- ===== src/Orders/Values.antt =====
-- examples/orders/domain/orders.go: value objects, commands, events and the query.
pub mod Parsing
pub mod Ids
use Prim.Native.String.{len}
use goaxon.Prelude.{ℕ, String, Bool, Option, none, some, ◌==◌, string_eq, ltb, if◌then◌else◌}
use goaxon.Go.Error.{GoError, text}
use goaxon.Go.Text.{trim_space}
use goaxon.Go.Word.{ℤ, pos, is_not_positive}
use goaxon.Event.{Uuid, nil_uuid, Event}
use goaxon.Maybe.{Zero, Maybe}

-- `OrderID`, `CustomerName`, `Amount` and `Notes`, by their underlying values.
abbrev pub OrderId : Type 0
OrderId = Uuid

abbrev pub CustomerName : Type 0
CustomerName = String

abbrev pub Amount : Type 0
Amount = ℤ

abbrev pub Notes : Type 0
Notes = String

instance abbrev pub notes_zero : Zero Notes
notes_zero = record { zero_value = "" }

-- `ParseOrderID`: `parse` is `uuid.Parse`, whose error comes with the zero identifier.
abbrev pub checked_id : Uuid × Option GoError → OrderId × Option GoError
checked_id (u, none) = (u, none)
checked_id (u, some e) = (nil_uuid, some e)

unfoldable pub parse_order_id : (String → Uuid × Option GoError) → String → OrderId × Option GoError
parse_order_id parse s = checked_id (parse s)

-- `ParseCustomerName`
unfoldable pub parse_customer_name : String → CustomerName × Option GoError
parse_customer_name raw =
    let s = trim_space raw in if s == "" then ("", some (text "must not be empty")) else (s, none)

-- `MakeAmountFromCents`
unfoldable pub make_amount_from_cents : ℤ → Amount × Option GoError
make_amount_from_cents cents =
    if is_not_positive cents then (pos 0, some (text "must be positive")) else (cents, none)

-- `ParseNotes`
unfoldable pub parse_notes : String → Notes × Option GoError
parse_notes raw =
    let s = trim_space raw in
    if s == ""
    then ("", some (text "must not be empty"))
    else if ltb 500 (len s)
    then ("", some (text "must be at most 500 characters"))
    else (s, none)

-- The commands and the query. `CommandType` and `QueryType` are in `Orders/Wire.antt`.
pub record PlaceOrder : Type 0 where
  pub order_id : OrderId
  pub customer_name : CustomerName
  pub amount : Amount
  pub notes : Maybe Notes

pub record ShipOrder : Type 0 where
  pub order_id : OrderId

pub record GetOrderSummary : Type 0 where
  pub order_id : OrderId

pub record OrderPlaced : Type 0 where
  pub customer_name : CustomerName
  pub amount : Amount
  pub notes : Maybe Notes

-- The events: those of the domain, and an event of any other type with its `EventType`, since
-- `event.Event` is an open interface.
pub data OrderEvent : Type 0 where
  order_placed : OrderPlaced → OrderEvent
  order_shipped : OrderEvent
  foreign : String → OrderEvent

unfoldable pub event_type : OrderEvent → String
event_type (order_placed e) = "OrderPlaced"
event_type order_shipped = "OrderShipped"
event_type (foreign name) = name

abbrev pub order_event : Event OrderEvent
order_event = record { event_type = event_type }
