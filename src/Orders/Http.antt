-- ===== src/Orders/Http.antt =====
-- examples/orders-http/main.go: the handlers of HTTP over the application service. Package chi calls
-- a handler with the request, and writes what the handler answers.
pub mod Requests
pub mod Rejections
pub mod Serving
use Prim.Native.String.{◌++◌ as cat}
use goaxon.Prelude.{
  ℕ, String, Bool, true, false, Option, none, some, List, [], ◌∷◌, ◌++◌, ◌⊎◌, inl, inr,
  if◌then◌else◌,
}
use goaxon.Go.Error.{GoError, Fields, as_invalid, errors_is, sentinel, app_not_found}
use goaxon.Go.Outcome.{Outcome, ok, err, panics, OrPanic, ◌>>=◌}
use goaxon.Go.Word.{ℤ}
use goaxon.Event.{Uuid, Call, Store}
use goaxon.Validation.{error_text}
use goaxon.Orders.App.{UuidText, new, place_order_app, ship_order_app, get_order_app}
use goaxon.Orders.Projection.{OrderSummary}
use goaxon.Orders.Values.{OrderEvent}
use goaxon.Orders.Wire.{World, Wired}

-- What a handler encodes as JSON.
pub data Body : Type 0 where
  -- `placeOrderResponse`
  placed : String → Body
  summary : OrderSummary → Body
  -- {"errors": fields}
  errors : Fields → Body
  -- {"error": msg}
  message : String → Body

pub record Response : Type 0 where
  pub status : ℕ
  pub content_type : Option String
  pub body : Option Body

-- `writeJSON`
abbrev pub write_json : ℕ → Body → Response
write_json status body = record {
  status = status;
  content_type = some "application/json";
  body = some body;
}

-- `writeError`
abbrev pub write_error : ℕ → String → Response
write_error status msg = write_json status (message msg)

-- `writeAppError`
unfoldable pub write_app_error : GoError → Response
write_app_error e = elim (as_invalid e) [
  | some fields ↦ write_json 422 (errors fields)
  | none ↦
      if errors_is e app_not_found
      then write_error 404 (error_text e)
      else write_error 400 (error_text e)
]

-- `placeOrderRequest`
pub record PlaceOrderRequest : Type 0 where
  pub customer_name : String
  pub amount : ℤ
  pub notes : Option String

-- A request: its method, its body, and the answers of `chi.URLParam`.
pub record Request : Type 0 where
  pub body : String
  pub url_param : String → String

-- `if err != nil { writeAppError(w, err); return }`
abbrev pub answer : {W A : Type 0} → (A → Response) → W × Outcome A → W × OrPanic Response
answer f (w, ok a) = (w, inl (f a))
answer f (w, err e) = (w, inl (write_app_error e))
answer f (w, panics m) = (w, inr m)

-- A handler; `id` is what `NewOrderID` draws.
abbrev pub HttpHandler : Type 0 → Type 0
HttpHandler W = Call → Uuid → Request → W → W × OrPanic Response

-- A method, a pattern and the handler that a router is given for it.
pub record Route (W : Type 0) : Type 0 where
  pub method : String
  pub pattern : String
  pub handler : HttpHandler W

abbrev pub addr : String
addr = ":8080"

-- `decode` is package encoding/json on a body: the request, and an error or nil.
module _ {S X : Type 0} (store : Store (World S X) OrderEvent) (uuid : UuidText)
    (decode : String → PlaceOrderRequest × Option GoError) where
  module _ (orders : Wired store uuid.print) where
    abbrev pub place_decoded :
        Call → Uuid → PlaceOrderRequest × Option GoError → World S X → World S X × OrPanic Response
    place_decoded call id (req, some e) w =
        (w, inl (write_error 400 (cat "invalid JSON: " (error_text e))))
    place_decoded call id (req, none) w =
        answer (λ order_id. write_json 201 (placed order_id))
          (place_order_app store uuid orders call id req.customer_name req.amount req.notes w)

    -- `placeOrder`
    unfoldable pub place_order_http : HttpHandler (World S X)
    place_order_http call id r w = place_decoded call id (decode r.body) w

    -- `shipOrder`
    unfoldable pub ship_order_http : HttpHandler (World S X)
    ship_order_http call id r w =
        answer (λ _. record { status = 204; content_type = none; body = none })
          (ship_order_app store uuid orders call (r.url_param "id") w)

    -- `getOrder`
    unfoldable pub get_order_http : HttpHandler (World S X)
    get_order_http call id r w =
        answer (λ s. write_json 200 (summary s))
          (get_order_app store uuid orders call (r.url_param "id") w)

    abbrev pub routes : List (Route (World S X))
    routes =
        record { method = "POST"; pattern = "/orders"; handler = place_order_http }
        ∷ record { method = "POST"; pattern = "/orders/{id}/ship"; handler = ship_order_http }
        ∷ record { method = "GET"; pattern = "/orders/{id}"; handler = get_order_http }
        ∷ []

  -- `newServer`: the state that `New` leaves, and the routes that the router is given.
  unfoldable pub new_server : World S X → Outcome (World S X × List (Route (World S X)))
  new_server w = do orders ← new store uuid w; ok (orders.world, routes orders)

  -- `log.Fatal(err)` logs the error and exits with code 1.
  abbrev pub log_fatal : List String → Option GoError → List String × OrPanic ℕ
  log_fatal logged none = (logged, inl 0)
  log_fatal logged (some e) = (logged ++ error_text e ∷ [], inl 1)

  -- `main`: what it logs, and its exit code. `listen_and_serve` is what `http.ListenAndServe`
  -- returns for an address and the routes; `New` has no error to return.
  unfoldable pub main_http :
      (String → List (Route (World S X)) → World S X → Option GoError)
      → World S X
      → List String × OrPanic ℕ
  main_http listen_and_serve w =
      let logged = cat "orders-http listening on " addr ∷ [] in
      elim (new_server w) [
        | ok server ↦ log_fatal logged (listen_and_serve addr server.1 server.0)
        | err e ↦ (logged, inr (error_text e))
        | panics m ↦ (logged, inr m)
      ]
