-- ===== src/Orders/Wire.antt =====
-- examples/orders/domain/orders.go: `Wire`, and what it registers.
pub mod Consistent
pub mod OneEvent
pub mod Commands
pub mod Effects
pub mod Halted
pub mod Contexts
use Prim.Native.String.{◌++◌ as cat}
use goaxon.Prelude.{ℕ, String, Bool, true, false, Option, none, some, ◌≡◌, refl, if◌then◌else◌}
use goaxon.Go.Error.{GoError, errors_is, sentinel, wrapped, stream_not_found, order_not_found}
use goaxon.Go.Outcome.{Outcome, Done, ok, err, panics, Exec, of_error, ◌>>=◌}
use goaxon.Go.Exec.{Part, on_part, lift}
use goaxon.Go.Word.{pos}
use goaxon.Go.Types.{Universe}
use goaxon.Event.{Uuid, nil_uuid, Ctx, Call, Envelope, Handler, Store}
use goaxon.Memory.{Bus, subscribe, publish}
use goaxon.Aggregate.Repository.{Repository, load, save}
use goaxon.Command
use goaxon.Query
use goaxon.Maybe
use goaxon.Maybe.{Maybe}
use goaxon.Orders.Values.{
  PlaceOrder, ShipOrder, GetOrderSummary, OrderEvent, order_event, notes_zero,
}
use goaxon.Orders.Order.{Order, order_root, new_order, place, ship}
use goaxon.Orders.Projection.{
  OrderSummary, zero_summary, Projection, new_projection, on_order_placed, on_order_shipped, get,
}

-- The types that the two buses dispatch on.
pub data Code : Type 0 where
  place_order ship_order get_order_summary no_result order_summary : Code

pub Code-discrete : Discrete Code
Code-discrete = hlevel

abbrev pub Value : Code → Type 0
Value place_order = PlaceOrder
Value ship_order = ShipOrder
Value get_order_summary = GetOrderSummary
Value no_result = Unit
Value order_summary = OrderSummary

abbrev pub zero_of : (c : Code) → Value c
zero_of place_order = record {
  order_id = nil_uuid;
  customer_name = "";
  amount = pos 0;
  notes = Maybe.none;
}
zero_of ship_order = record { order_id = nil_uuid }
zero_of get_order_summary = record { order_id = nil_uuid }
zero_of no_result = tt
zero_of order_summary = zero_summary

-- `CommandType` and `QueryType`; the results have none.
abbrev pub name_of : (c : Code) → Value c → String
name_of place_order _ = "PlaceOrder"
name_of ship_order _ = "ShipOrder"
name_of get_order_summary _ = "GetOrderSummary"
name_of no_result _ = ""
name_of order_summary _ = ""

abbrev pub text_of : Code → String
text_of place_order = "domain.PlaceOrder"
text_of ship_order = "domain.ShipOrder"
text_of get_order_summary = "domain.GetOrderSummary"
text_of no_result = "struct {}"
text_of order_summary = "domain.OrderSummary"

abbrev pub handler_text_of : Code → Code → String
handler_text_of c r = cat "Handler[" (cat (text_of c) (cat "," (cat (text_of r) "]")))

abbrev pub orders_types : Universe
orders_types = record {
  Code = Code;
  same = Code-discrete;
  El = Value;
  zero_value = zero_of;
  type_name = name_of;
  type_text = text_of;
  handler_text = handler_text_of;
}

-- What the subscribers of the event bus write to: the projection of `Wire`, and whatever other
-- subscribers have.
pub record Readers (X : Type 0) : Type 0 where
  pub summary : Projection
  pub others : X

abbrev pub summary_part : {X : Type 0} → Part (Readers X) Projection
summary_part = record {
  get = λ r. r.summary;
  put = λ p r. record r { summary = p };
  get_put = λ p r. refl;
}

-- The state of a program: that of the event store, the event bus, and what its subscribers write.
pub record World (S X : Type 0) : Type 0 where
  pub streams : S
  pub bus : Bus (Readers X) OrderEvent
  pub readers : Readers X

abbrev pub streams_part : {S X : Type 0} → Part (World S X) S
streams_part = record {
  get = λ w. w.streams;
  put = λ s w. record w { streams = s };
  get_put = λ s w. refl;
}

abbrev pub readers_part : {S X : Type 0} → Part (World S X) (Readers X)
readers_part = record {
  get = λ w. w.readers;
  put = λ r w. record w { readers = r };
  get_put = λ r w. refl;
}

module _ {S X : Type 0} (store : Store (World S X) OrderEvent) (print : Uuid → String) where
  -- `repo`. The bus is the one that the state holds, with its later subscriptions.
  abbrev pub repo : Repository (World S X) Order OrderEvent
  repo = record {
    root = order_root;
    event = order_event;
    store = store;
    publish = λ ctx env w. on_part readers_part (publish order_event w.bus ctx env) w;
    factory = new_order;
    print = print;
  }

  -- `repo.Save` as the last call of a handler: the aggregate is dropped.
  abbrev pub save_order : Call → Order → Exec (World S X) Unit
  save_order call o w =
      let (s, result) = save repo (call.ctx 1) (call.ctx 2) call.now o w in (s.1, result)

  abbrev pub place_and_save : Call → PlaceOrder → Order → Exec (World S X) Unit
  place_and_save call cmd o w =
      let (o', e) = place o cmd.customer_name cmd.amount cmd.notes in
      elim e [ none ↦ save_order call o' w | some e' ↦ (w, err e') ]

  -- The `switch` after `repo.Load`.
  abbrev pub place_loaded : Call → PlaceOrder → World S X × Outcome Order → World S X × Done
  place_loaded call cmd (w, ok o) = place_and_save call cmd o w
  place_loaded call cmd (w, err e) =
      if errors_is e stream_not_found
      then place_and_save call cmd (new_order cmd.order_id) w
      else (w, err e)
  place_loaded call cmd (w, panics m) = (w, panics m)

  -- The handler of `PlaceOrder`.
  unfoldable pub handle_place_order : Call → PlaceOrder → Exec (World S X) Unit
  handle_place_order call cmd w = place_loaded call cmd (load repo (call.ctx 0) cmd.order_id w)

  abbrev pub ship_and_save : Call → World S X × Outcome Order → World S X × Done
  ship_and_save call (w, ok o) =
      let (o', e) = ship o in elim e [ none ↦ save_order call o' w | some e' ↦ (w, err e') ]
  ship_and_save call (w, err e) = (w, err e)
  ship_and_save call (w, panics m) = (w, panics m)

  -- The handler of `ShipOrder`.
  unfoldable pub handle_ship_order : Call → ShipOrder → Exec (World S X) Unit
  handle_ship_order call cmd w = ship_and_save call (load repo (call.ctx 0) cmd.order_id w)

  abbrev pub found : Uuid → Option OrderSummary → Outcome OrderSummary
  found id none = err (wrapped "" (sentinel order_not_found) (cat ": " (print id)))
  found id (some rec) = ok rec

  -- The handler of `GetOrderSummary`.
  unfoldable pub handle_get_order_summary : Call → GetOrderSummary → Exec (World S X) OrderSummary
  handle_get_order_summary call q w = (w, found q.order_id (get q.order_id w.readers.summary))

  -- The three buses after `Wire`, and its result, the projection, in the state.
  pub record Wired : Type 1 where
    pub commands : Command.Bus orders_types (World S X)
    pub queries : Query.Bus orders_types (World S X)
    pub world : World S X

  -- The projection of this call to `Wire` is new, and its handlers are subscribed.
  abbrev pub with_projection : World S X → World S X
  with_projection w = record w {
    bus =
        subscribe "OrderShipped" (λ ctx env. on_part summary_part (on_order_shipped ctx env))
          (subscribe "OrderPlaced" (λ ctx env. on_part summary_part (on_order_placed ctx env))
            w.bus);
    readers = record (w.readers) { summary = new_projection };
  }

  -- `Wire`
  unfoldable pub wire :
      Command.Bus orders_types (World S X)
      → Query.Bus orders_types (World S X)
      → World S X
      → Outcome Wired
  wire commands queries w = do
    commands' ← Command.register orders_types place_order no_result handle_place_order commands
    commands'' ← Command.register orders_types ship_order no_result handle_ship_order commands'
    queries' ←
        Query.register orders_types get_order_summary order_summary handle_get_order_summary queries
    ok (record { commands = commands''; queries = queries'; world = with_projection w })
