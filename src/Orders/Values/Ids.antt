-- ===== src/Orders/Values/Ids.antt =====
-- examples/orders/domain/orders.go: `NewOrderID`, and the text of an `OrderID`.
use goaxon.Prelude.{String, Option, none, some, ◌≡◌, ap}
use goaxon.Go.Error.{GoError}
use goaxon.Go.Outcome.{Outcome, ok, panics}
use goaxon.Event.{Uuid}
use goaxon.Orders.Values.{OrderId}
use goaxon.Validation.{error_text}

-- Package uuid's `String`, `MarshalText` and `UnmarshalText`; the last, of a new `UUID`.
pub record UuidMarshaler : Type 0 where
  pub string : Uuid → String
  pub marshal_text : Uuid → String × Option GoError
  pub unmarshal_text : String → Uuid × Option GoError

-- `uuid.Must`
abbrev pub must : Uuid × Option GoError → Outcome Uuid
must (u, none) = ok u
must (u, some e) = panics (error_text e)

-- `NewOrderID`, of what `uuid.NewV7` answers
abbrev pub new_order_id : Uuid × Option GoError → Outcome OrderId
new_order_id drawn = must drawn

module _ (uuid : UuidMarshaler) where
  -- `String`
  abbrev pub order_id_string : OrderId → String
  order_id_string id = uuid.string id

  -- `MarshalText`
  abbrev pub order_id_marshal_text : OrderId → String × Option GoError
  order_id_marshal_text id = uuid.marshal_text id

  -- `UnmarshalText`: the receiver after it, and an error or nil
  abbrev pub set_id_text : OrderId → Uuid × Option GoError → OrderId × Option GoError
  set_id_text id (u, some e) = (id, some e)
  set_id_text id (u, none) = (u, none)

  unfoldable pub order_id_unmarshal_text : OrderId → String → OrderId × Option GoError
  order_id_unmarshal_text id bytes = set_id_text id (uuid.unmarshal_text bytes)

  -- Where package uuid reads back what it writes, a text of an identifier reads back as that
  -- identifier, into any receiver.
  pub order_id_text_lem :
      ((id : Uuid) → uuid.unmarshal_text (uuid.marshal_text id).0 ≡ (id, none))
      → (id receiver : OrderId)
      → order_id_unmarshal_text receiver (order_id_marshal_text id).0 ≡ (id, none)
  unfolding order_id_unmarshal_text
  order_id_text_lem reads id receiver = ap (set_id_text receiver) (reads id)
