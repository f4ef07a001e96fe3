-- ===== src/Orders/Program.antt =====
-- examples/orders/main.go: the program that drives the orders in its own process.
pub mod Runs
use goaxon.Prelude.{ℕ, String, Option, none, some, List, [], ◌∷◌, inl, inr, length, string_eq}
use goaxon.Go.Outcome.{Outcome, ok, err, panics, OrPanic}
use goaxon.Go.Word.{pos}
use goaxon.Event.{Uuid, Time, Ctx, Call, Envelope}
use goaxon.Validation.{error_text}
use goaxon.Memory
use goaxon.Memory.{Streams, memory_store, new_store, new_bus}
use goaxon.Orders.Values.{OrderEvent, event_type}
use goaxon.Orders.Projection.{OrderSummary, new_projection}
use goaxon.Orders.Wire.{Wired, streams_part}
use goaxon.Orders.Wire.Consistent.{MemoryWorld}
use goaxon.Orders.App.{UuidText, new, place_order_app, ship_order_app, get_order_app}

-- What one call of `fmt.Printf` is given to print.
pub data Printed : Type 0 where
  order_summary : OrderSummary → Printed
  stored_events : ℕ → Printed
  stored_event : ℕ → String → Printed

-- A call with `context.Background()`, which is never done.
abbrev pub background : (ℕ → Time) → Call
background now = record { ctx = λ _. none; now = now }

-- The state once `store` and `eventBus` are made. Nothing else subscribes to the bus.
abbrev pub new_world : MemoryWorld Unit
new_world = record {
  streams = new_store;
  bus = new_bus;
  readers = record { summary = new_projection; others = tt };
}

-- `if err != nil { panic(err) }`
abbrev pub must :
    {W A : Type 0}
    → W × Outcome A
    → (W → A → List Printed × OrPanic Unit)
    → List Printed × OrPanic Unit
must (w, ok a) rest = rest w a
must (w, err e) rest = ([], inr (error_text e))
must (w, panics m) rest = ([], inr m)

-- `envs, _ := ...`
abbrev pub events_of : Outcome (List (Envelope OrderEvent)) → List (Envelope OrderEvent)
events_of (ok envs) = envs
events_of (err e) = []
events_of (panics m) = []

-- The last loop of `main`.
abbrev pub print_events : List (Envelope OrderEvent) → List Printed
print_events [] = []
print_events (env ∷ envs) = stored_event env.sequence (event_type env.payload) ∷ print_events envs

-- `id` is what `NewOrderID` draws, and the two clocks are those of the calls that save.
module _ (uuid : UuidText) (id : Uuid) (placing shipping : ℕ → Time) where
  abbrev pub inspect : String → OrderSummary → MemoryWorld Unit → List Printed × OrPanic Unit
  inspect text summary w =
      let parsed = (uuid.parse text).0 in
      let envs = events_of (Memory.load none parsed w.streams).1 in
      (order_summary summary ∷ stored_events (length envs) ∷ print_events envs, inl tt)

  module _ (orders : Wired (memory_store (streams_part {X = Unit})) uuid.print) where
    abbrev pub drive_shipped : String → MemoryWorld Unit → Unit {0} → List Printed × OrPanic Unit
    drive_shipped text w _ =
        must (get_order_app (memory_store streams_part) uuid orders (background shipping) text w)
          (λ w' summary. inspect text summary w')

    abbrev pub drive_placed : MemoryWorld Unit → String → List Printed × OrPanic Unit
    drive_placed w text =
        must (ship_order_app (memory_store streams_part) uuid orders (background shipping) text w)
          (drive_shipped text)

    abbrev pub drive : List Printed × OrPanic Unit
    drive =
        must
          (place_order_app (memory_store streams_part) uuid orders (background placing) id "Alice"
            (pos 4200) (some "Please ring the doorbell twice.") orders.world)
          drive_placed

  abbrev pub after_new :
      Outcome (Wired (memory_store (streams_part {X = Unit})) uuid.print)
      → List Printed × OrPanic Unit
  after_new (ok orders) = drive orders
  after_new (err e) = ([], inr (error_text e))
  after_new (panics m) = ([], inr m)

  -- `main`: what it prints, and whether it panics. `New` has no error to return.
  unfoldable pub main_orders : List Printed × OrPanic Unit
  main_orders = after_new (new (memory_store streams_part) uuid new_world)
