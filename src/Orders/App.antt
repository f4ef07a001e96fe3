-- ===== src/Orders/App.antt =====
-- examples/orders/app/orders.go: the application service.
pub mod Service
pub mod Reading
pub mod Effects
pub mod Journey
pub mod Start
pub mod Contexts
use goaxon.Prelude.{ℕ, String, Bool, true, false, Option, none, some, [], ◌≡◌, refl, if◌then◌else◌}
use goaxon.Go.Error.{GoError, errors_is, sentinel, stream_not_found, order_not_found, app_not_found}
use goaxon.Go.Outcome.{Done, Outcome, ok, err, panics}
use goaxon.Go.Exec.{◌>>=◌}
use goaxon.Go.Word.{ℤ}
use goaxon.Event.{Uuid, Call, Store}
use goaxon.Command
use goaxon.Query
use goaxon.Maybe
use goaxon.Maybe.{Maybe}
use goaxon.Validation
use goaxon.Validation.{Validator, new_validator, field}
use goaxon.Orders.Values.{
  Notes, notes_zero, OrderEvent, PlaceOrder, ShipOrder, GetOrderSummary, parse_order_id,
  parse_customer_name, make_amount_from_cents, parse_notes,
}
use goaxon.Orders.Projection.{OrderSummary}
use goaxon.Orders.Wire.{
  orders_types, place_order, ship_order, get_order_summary, no_result, order_summary, World, Wired,
  wire,
}

-- Package uuid's text form of an identifier: `String` and `Parse`.
pub record UuidText : Type 0 where
  pub print : Uuid → String
  pub parse : String → Uuid × Option GoError

-- `errors.Is(err, t)` to the app's own error.
abbrev pub not_found_as_app : {W A : Type 0} → (GoError → Bool) → W × Outcome A → W × Outcome A
not_found_as_app is (w, ok a) = (w, ok a)
not_found_as_app is (w, err e) = (w, err (if is e then sentinel app_not_found else e))
not_found_as_app is (w, panics m) = (w, panics m)

-- `return x, nil` where the call's result is dropped.
abbrev pub returning : {W A B : Type 0} → B → W × Outcome A → W × Outcome B
returning b (w, ok _) = (w, ok b)
returning b (w, err e) = (w, err e)
returning b (w, panics m) = (w, panics m)

module _ {S X : Type 0} (store : Store (World S X) OrderEvent) (uuid : UuidText) where
  -- `New`: the service is the two buses of the result.
  unfoldable pub new : World S X → Outcome (Wired store uuid.print)
  new w = wire store uuid.print Command.new_bus Query.new_bus w

  module _ (orders : Wired store uuid.print) where
    -- `PlaceOrder` once the name, the amount and the note are parsed. `id` is what
    -- `NewOrderID` draws.
    abbrev pub place_valid :
        Call → Uuid → PlaceOrder → Option GoError → World S X → World S X × Outcome String
    place_valid call id cmd (some e) w = (w, err e)
    place_valid call id cmd none w =
        returning (uuid.print id)
          (Command.send orders_types place_order no_result orders.commands call cmd w)

    -- `if note != nil { ... }`: the validator after it and the notes.
    abbrev pub parse_note : Validator → Option String → Validator × Maybe Notes
    parse_note v none = (v, Maybe.none)
    parse_note v (some note) =
        let (v', parsed) = field v "notes" parse_notes note in
        (v', elim (Validation.err v') [ none ↦ Maybe.some parsed | some _ ↦ Maybe.none ])

    -- `PlaceOrder`
    unfoldable pub place_order_app :
        Call → Uuid → String → ℤ → Option String → World S X → World S X × Outcome String
    place_order_app call id customer_name amount note w =
        let (v, name) = field new_validator "customer_name" parse_customer_name customer_name in
        let (v', amt) = field v "amount" make_amount_from_cents amount in
        let (v'', notes) = parse_note v' note in
        place_valid call id
          (record { order_id = id; customer_name = name; amount = amt; notes = notes })
          (Validation.err v'') w

    abbrev pub ship_valid : Call → Uuid → Option GoError → World S X → World S X × Done
    ship_valid call id (some e) w = (w, err e)
    ship_valid call id none w =
        not_found_as_app (λ e. errors_is e stream_not_found)
          (Command.send orders_types ship_order no_result orders.commands call
            (record { order_id = id }) w)

    -- `ShipOrder`
    unfoldable pub ship_order_app : Call → String → World S X → World S X × Done
    ship_order_app call id_str w =
        let (v, id) = field new_validator "id" (parse_order_id uuid.parse) id_str in
        ship_valid call id (Validation.err v) w

    abbrev pub get_valid :
        Call → Uuid → Option GoError → World S X → World S X × Outcome OrderSummary
    get_valid call id (some e) w = (w, err e)
    get_valid call id none w =
        not_found_as_app (λ e. errors_is e order_not_found)
          (Query.ask orders_types get_order_summary order_summary orders.queries call
            (record { order_id = id }) w)

    -- `GetOrder`
    unfoldable pub get_order_app : Call → String → World S X → World S X × Outcome OrderSummary
    get_order_app call id_str w =
        let (v, id) = field new_validator "id" (parse_order_id uuid.parse) id_str in
        get_valid call id (Validation.err v) w
