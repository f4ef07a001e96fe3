-- ===== src/Orders/App/Reading.antt =====
-- examples/orders/app/orders.go: `GetOrder` over the read model.
use goaxon.Prelude.{
  String, Option, none, some, ◌≡◌, refl, ap, ◌∙◌, nat_beq_iff, nat_eq, string_eq, if◌then◌else◌,
}
use goaxon.Go.Error.{errors_is, sentinel, order_not_found, app_not_found}
use goaxon.Go.Outcome.{Outcome, ok, err}
use goaxon.Go.Map.{Map, lookup, insert, lookup-insert}
use goaxon.Event.{Uuid, Call}
use goaxon.Memory.{memory_store}
use goaxon.Orders.Values.{parse_order_id}
use goaxon.Orders.Projection.{OrderSummary, get}
use goaxon.Orders.Wire.{found, Wired, streams_part, handle_get_order_summary}
use goaxon.Orders.Wire.Consistent.{MemoryWorld}
use goaxon.Orders.App.{UuidText, not_found_as_app, new, get_order_app}
use goaxon.Orders.App.Service.{get_parsed}

-- What `GetOrder` answers by the row of the read model.
abbrev pub row_answer : Option OrderSummary → Outcome OrderSummary
row_answer none = err (sentinel app_not_found)
row_answer (some s) = ok s

pub lookup_written :
    {V : Type 0} (k : Uuid) (v : V) (m : Map Uuid V) → lookup k (insert k v m) ≡ some v
lookup_written k v m =
    lookup-insert k k v m ∙ ap (λ b. if b then some v else lookup k m) ((nat_beq_iff k k).1 refl)

-- The service after `New`, over the store in memory and any package uuid.
module _ {X : Type 0} (uuid : UuidText) (start : MemoryWorld X)
    (orders : Wired (memory_store streams_part) uuid.print)
    (made : new (memory_store streams_part) uuid start ≡ ok orders) where
  -- `GetOrder` on a text that parses changes nothing and returns the order's row of the read
  -- model, or the application's error "order not found" where there is no row.
  pub get_order_row :
      (call : Call) (id : Uuid) (text : String) (w : MemoryWorld X)
      → parse_order_id uuid.parse text ≡ (id, none)
      → get_order_app (memory_store streams_part) uuid orders call text w
        ≡ (w, row_answer (lookup id w.readers.summary))
  unfolding handle_get_order_summary get errors_is
  get_order_row call id text w p =
      get_parsed (memory_store streams_part) uuid start orders made call w id text p
      ∙ answer (lookup id w.readers.summary)
    where
      answer :
          (o : Option OrderSummary)
          → not_found_as_app
              (λ e. errors_is e order_not_found)
              (w, found {X = X} (memory_store streams_part) uuid.print id o)
            ≡ (w, row_answer o)
      answer none = refl
      answer (some s) = refl
