-- ===== src/Orders/App/Service.antt =====
-- examples/orders/app/orders.go: the service that `New` returns, and its methods where the inputs
-- parse.
use goaxon.Prelude.{String, Option, none, ◌≡◌, refl, ap, sym, ◌∙◌, string_eq}
use goaxon.Go.Error.{GoError, errors_is, stream_not_found, order_not_found}
use goaxon.Go.Outcome.{Outcome, ok, ok_injective}
use goaxon.Go.Word.{ℤ}
use goaxon.Go.Map.{lookup, insert}
use goaxon.Go.Types.{Boxed, assert_same}
use goaxon.Event.{Uuid, Call, Store}
use goaxon.Command
use goaxon.Query
use goaxon.Validation
use goaxon.Validation.{Validator, new_validator, field}
use goaxon.Maybe.{Maybe}
use goaxon.Orders.Values.{
  Notes, CustomerName, Amount, OrderEvent, PlaceOrder, ShipOrder, GetOrderSummary, parse_order_id,
  parse_customer_name, make_amount_from_cents,
}
use goaxon.Orders.Wire.{
  orders_types, place_order, ship_order, get_order_summary, no_result, order_summary, World, Wired,
  wire, with_projection, handle_place_order, handle_ship_order, handle_get_order_summary,
}
use goaxon.Orders.App.{
  UuidText, not_found_as_app, returning, new, place_valid, parse_note, place_order_app, ship_valid,
  ship_order_app, get_valid, get_order_app,
}

module _ {S X : Type 0} (store : Store (World S X) OrderEvent) (uuid : UuidText) where
  abbrev place_box : Boxed orders_types (World S X)
  place_box = record {
    request = place_order;
    result = no_result;
    handler = handle_place_order store uuid.print;
  }

  abbrev ship_box : Boxed orders_types (World S X)
  ship_box = record {
    request = ship_order;
    result = no_result;
    handler = handle_ship_order store uuid.print;
  }

  abbrev get_box : Boxed orders_types (World S X)
  get_box = record {
    request = get_order_summary;
    result = order_summary;
    handler = handle_get_order_summary store uuid.print;
  }

  -- The service that `New` returns.
  abbrev pub service : World S X → Wired store uuid.print
  service w = record {
    commands = insert "ShipOrder" ship_box (insert "PlaceOrder" place_box Command.new_bus);
    queries = insert "GetOrderSummary" get_box Query.new_bus;
    world = with_projection store uuid.print w;
  }

  pub new_lem : (w : World S X) → new store uuid w ≡ ok (service w)
  unfolding new wire Command.register Query.register lookup insert
  new_lem w = refl

  send_place :
      (w : World S X) (call : Call) (cmd : PlaceOrder) (v : World S X)
      → Command.send orders_types place_order no_result ((service w).commands) call cmd v
        ≡ handle_place_order store uuid.print call cmd v
  unfolding Command.send lookup insert
  send_place w call cmd v =
      ap (λ o. Command.call orders_types place_order no_result "PlaceOrder" place_box o call cmd v)
        (assert_same orders_types (World S X) place_order no_result
          (handle_place_order store uuid.print))

  send_ship :
      (w : World S X) (call : Call) (cmd : ShipOrder) (v : World S X)
      → Command.send orders_types ship_order no_result ((service w).commands) call cmd v
        ≡ handle_ship_order store uuid.print call cmd v
  unfolding Command.send lookup insert
  send_ship w call cmd v =
      ap (λ o. Command.call orders_types ship_order no_result "ShipOrder" ship_box o call cmd v)
        (assert_same orders_types (World S X) ship_order no_result
          (handle_ship_order store uuid.print))

  ask_summary :
      (w : World S X) (call : Call) (q : GetOrderSummary) (v : World S X)
      → Query.ask orders_types get_order_summary order_summary ((service w).queries) call q v
        ≡ handle_get_order_summary store uuid.print call q v
  unfolding Query.ask lookup insert
  ask_summary w call q v =
      ap
        (λ o.
          Query.call orders_types get_order_summary order_summary "GetOrderSummary" get_box o call q
            v)
        (assert_same orders_types (World S X) get_order_summary order_summary
          (handle_get_order_summary store uuid.print))

  module _ (start : World S X) (orders : Wired store uuid.print)
      (made : new store uuid start ≡ ok orders) (call : Call) (w : World S X) where
    is_service : service start ≡ orders
    is_service = ok_injective (sym (new_lem start) ∙ made)

    pub place_sent :
        (cmd : PlaceOrder)
        → Command.send orders_types place_order no_result orders.commands call cmd w
          ≡ handle_place_order store uuid.print call cmd w
    place_sent cmd =
        ap (λ o. Command.send orders_types place_order no_result o.commands call cmd w)
          (sym is_service)
        ∙ send_place start call cmd w

    pub ship_sent :
        (cmd : ShipOrder)
        → Command.send orders_types ship_order no_result orders.commands call cmd w
          ≡ handle_ship_order store uuid.print call cmd w
    ship_sent cmd =
        ap (λ o. Command.send orders_types ship_order no_result o.commands call cmd w)
          (sym is_service)
        ∙ send_ship start call cmd w

    pub summary_asked :
        (q : GetOrderSummary)
        → Query.ask orders_types get_order_summary order_summary orders.queries call q w
          ≡ handle_get_order_summary store uuid.print call q w
    summary_asked q =
        ap (λ o. Query.ask orders_types get_order_summary order_summary o.queries call q w)
          (sym is_service)
        ∙ ask_summary start call q w

    -- `PlaceOrder` where everything parses is the handler of the command.
    pub place_parsed :
        (name : String) (amount : ℤ) (memo : Option String) (cmd : PlaceOrder)
        → parse_customer_name name ≡ (cmd.customer_name, none)
        → make_amount_from_cents amount ≡ (cmd.amount, none)
        → parse_note store uuid orders new_validator memo ≡ (new_validator, cmd.notes)
        → place_order_app store uuid orders call cmd.order_id name amount memo w
          ≡ returning (uuid.print cmd.order_id) (handle_place_order store uuid.print call cmd w)
    unfolding place_order_app field Validation.err
    place_parsed name amount memo cmd n a t =
        ap (λ p. from p (make_amount_from_cents amount)) n
        ∙ ap (from (cmd.customer_name, none)) a
        ∙ ap (sent cmd.customer_name cmd.amount) t
        ∙ ap (returning (uuid.print cmd.order_id)) (place_sent cmd)
      where
        sent : CustomerName → Amount → Validator × Maybe Notes → World S X × Outcome String
        sent name amt p =
            place_valid store uuid orders call cmd.order_id
              (record { order_id = cmd.order_id; customer_name = name; amount = amt; notes = p.1 })
              (Validation.err p.0) w

        from : CustomerName × Option GoError → Amount × Option GoError → World S X × Outcome String
        from n a = sent n.0 a.0 (
            parse_note store uuid orders
              (Validation.note "amount" a.1 (Validation.note "customer_name" n.1 new_validator))
              memo)

    -- `ShipOrder` where the identifier parses.
    pub ship_parsed :
        (id : Uuid) (text : String)
        → parse_order_id uuid.parse text ≡ (id, none)
        → ship_order_app store uuid orders call text w
          ≡ not_found_as_app
              (λ e. errors_is e stream_not_found)
              (handle_ship_order store uuid.print call (record { order_id = id }) w)
    unfolding ship_order_app field Validation.err
    ship_parsed id text p =
        ap
          (λ q.
            ship_valid store uuid orders call q.0
              (Validation.err (Validation.note "id" q.1 new_validator)) w)
          p
        ∙ ap (not_found_as_app (λ e. errors_is e stream_not_found))
            (ship_sent (record { order_id = id }))

    -- `GetOrder` where the identifier parses.
    pub get_parsed :
        (id : Uuid) (text : String)
        → parse_order_id uuid.parse text ≡ (id, none)
        → get_order_app store uuid orders call text w
          ≡ not_found_as_app
              (λ e. errors_is e order_not_found)
              (handle_get_order_summary store uuid.print call (record { order_id = id }) w)
    unfolding get_order_app field Validation.err
    get_parsed id text p =
        ap
          (λ q.
            get_valid store uuid orders call q.0
              (Validation.err (Validation.note "id" q.1 new_validator)) w)
          p
        ∙ ap (not_found_as_app (λ e. errors_is e order_not_found))
            (summary_asked (record { order_id = id }))
