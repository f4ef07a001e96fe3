-- ===== src/Tests/Buses.antt =====
-- The buses, the registry and the store in memory at concrete inputs.
use goaxon.Prelude.{
  false, ◌+◌, ℕ, String, none, [], ◌∷◌, ◌≡◌, ◌≢◌, ◌↔◌, refl, nat_eq, ◌==◌, if◌then◌else◌, string_eq,
}
use goaxon.Go.Error.{command_not_registered, errors_is, GoError, Sentinel, any_is, text}
use goaxon.Go.Outcome.{Done, Outcome, ok, err}
use goaxon.Go.Map.{lookup, insert}
use goaxon.Event.{undisturbed, Call, Handler}
use goaxon.Event.Registry.{Registry, Decoder, new_registry, unmarshaler, unmarshal}
use goaxon.Event.Registry as Events
use goaxon.Event.Registry.Routing.{unmarshal-register}
use goaxon.Memory
use goaxon.Memory.{Streams, subscribe, new_bus, publish}
use goaxon.Memory.Publish.{subscribers, world_after, errors_of, fails_as, publish_every_handler}
use goaxon.Command
use goaxon.Command.Routing.{send_mismatch, send-register}
use goaxon.Query
use goaxon.Orders.Values.{
  OrderEvent, PlaceOrder, GetOrderSummary, order_event, order_shipped, event_type,
}
use goaxon.Orders.Wire.{orders_types, place_order, get_order_summary, no_result, order_summary}
use goaxon.Orders.Wire.Consistent.{envelope}
use goaxon.Event.Spec.{StoreProgress}
use goaxon.Memory.Laws.{memory_store-StoreSpec, memory_store-StoreProgress}
use goaxon.Orders.Wire.{streams_part}
use goaxon.Orders.Wire.Consistent.{MemoryWorld}

-- A handler that counts, and one that counts and fails.
abbrev counting : Handler ℕ OrderEvent
counting ctx env n = (n + 1, ok tt)

abbrev failing : Handler ℕ OrderEvent
failing ctx env n = (n + 1, err (text "no"))

abbrev shipped_name : String
shipped_name = "OrderShipped"

abbrev place_name : String
place_name = "PlaceOrder"

abbrev ask_name : String
ask_name = "GetOrderSummary"

abbrev two_handlers : Memory.Bus ℕ OrderEvent
two_handlers = ("OrderShipped", failing ∷ counting ∷ []) ∷ []

publish_every_handler_example :
    let env = envelope 7 2 0 order_shipped in
    let hs = subscribers two_handlers "OrderShipped" in
    let q = publish order_event two_handlers none env 0 in
    (q.0 ≡ world_after none env hs 0)
    × ((q.1 ≡ ok tt) ↔ (errors_of none env hs 0 ≡ []))
    × ((t : Sentinel) → fails_as q.1 t ≡ any_is (errors_of none env hs 0) t)
unfolding lookup event_type
publish_every_handler_example =
    publish_every_handler order_event two_handlers none (envelope 7 2 0 order_shipped) 0
      (tt, (tt, tt))

-- A handler of each kind, and the buses after its registration.
abbrev place_counted : Call → PlaceOrder → ℕ → ℕ × Done
place_counted ctx cmd n = (n + 1, ok tt)

abbrev commands : Command.Bus orders_types ℕ
commands =
    ("PlaceOrder", record { request = place_order; result = no_result; handler = place_counted })
    ∷ []

send-register_example :
    ((ctx : Call) (q : PlaceOrder) (w : ℕ)
      → place_name ≡ place_name
      → Command.send orders_types place_order no_result commands ctx q w ≡ place_counted ctx q w)
    × ((d s : orders_types.Code) (ctx : Call) (q : orders_types.El d) (w : ℕ)
        → place_name ≢ orders_types.type_name d q
        → Command.send orders_types d s commands ctx q w
          ≡ Command.send orders_types d s Command.new_bus ctx q w)
unfolding Command.register lookup insert
send-register_example =
    send-register orders_types place_order no_result place_counted Command.new_bus commands refl

send_mismatch_example :
    (e : GoError) × (Command.send orders_types place_order order_summary commands undisturbed
        (orders_types.zero_value place_order)
        3
      ≡ (3, err e))
    × (errors_is e command_not_registered ≡ false)
unfolding Command.register lookup insert
send_mismatch_example =
    send_mismatch orders_types place_order no_result place_counted Command.new_bus commands refl
      place_order order_summary (λ p q. cc q) undisturbed (orders_types.zero_value place_order) 3
      refl

abbrev ask_counted : Call → GetOrderSummary → ℕ → ℕ × Outcome (orders_types.El order_summary)
ask_counted ctx q n = (n, ok (orders_types.zero_value order_summary))

abbrev queries : Query.Bus orders_types ℕ
queries =
    (
      "GetOrderSummary",
      record { request = get_order_summary; result = order_summary; handler = ask_counted },
    )
    ∷ []

-- The decoder of an event without fields.
abbrev decode_shipped : Decoder OrderEvent
decode_shipped bytes = if bytes == "{}" then ok order_shipped else err (text "invalid JSON")

abbrev registry : Registry OrderEvent
registry = record {
  unmarshalers = ("OrderShipped", unmarshaler "OrderShipped" decode_shipped) ∷ [];
}

unmarshal-register_example : unmarshal registry "OrderShipped" "{}" ≡ (
    if shipped_name == "OrderShipped"
    then unmarshaler "OrderShipped" decode_shipped "{}"
    else unmarshal new_registry "OrderShipped" "{}")
unfolding Events.register lookup insert event_type
unmarshal-register_example =
    unmarshal-register order_event order_shipped decode_shipped new_registry registry refl
      "OrderShipped" "{}"

memory_store-StoreProgress_example :
    StoreProgress
      (memory_store-StoreSpec {W = MemoryWorld Unit} {E = OrderEvent} (streams_part {X = Unit}))
memory_store-StoreProgress_example = memory_store-StoreProgress (streams_part {X = Unit})
