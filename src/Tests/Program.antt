-- ===== src/Tests/Program.antt =====
-- The program of the orders.
use goaxon.Prelude.{true, ◌∷◌, [], ◌≡◌, refl, inl, string_eq, nat_eq}
use goaxon.Go.Word.{pos}
use goaxon.Maybe
use goaxon.Orders.Values.{notes_zero}
use goaxon.Orders.Program.{main_orders, order_summary, stored_events, stored_event}
use goaxon.Orders.Program.Runs.{main_orders_lem}
use goaxon.Tests.Fixtures.{clock, two_ids}

main_orders_lem_example : main_orders two_ids 7 clock clock ≡ (
  order_summary (record {
    order_id = 7;
    customer_name = "Alice";
    amount = pos 4200;
    notes = Maybe.some "Please ring the doorbell twice.";
    shipped = true;
  })
      ∷ stored_events 2
      ∷ stored_event 1 "OrderPlaced"
      ∷ stored_event 2 "OrderShipped"
      ∷ [],
  inl tt,
)
main_orders_lem_example = main_orders_lem two_ids 7 clock clock refl
