-- ===== src/Orders/Http/Rejections.antt =====
-- examples/orders-http/main.go: requests with inputs that the application service rejects.
use goaxon.Prelude.{String, Option, none, some, [], ◌∷◌, ◌≡◌, refl, ap, inl, ◌∙◌, string_eq}
use goaxon.Go.Error.{GoError, Fields, invalid, as_invalid}
use goaxon.Go.Map.{lookup, insert}
use goaxon.Event.{Uuid, Call, Store}
use goaxon.Validation
use goaxon.Validation.{Validator, new_validator, note, field, error_text}
use goaxon.Orders.Values.{
  OrderEvent, PlaceOrder, parse_order_id, parse_customer_name, make_amount_from_cents, parse_notes,
}
use goaxon.Orders.Wire.{World, Wired}
use goaxon.Orders.App.{
  UuidText, place_valid, parse_note, place_order_app, ship_valid, get_valid, ship_order_app,
  get_order_app,
}
use goaxon.Orders.Http.{
  errors, placed, summary, Request, PlaceOrderRequest, answer, place_decoded, place_order_http,
  ship_order_http, get_order_http, write_json, write_app_error,
}

-- The text of an error under a field's name.
abbrev pub reported : Option GoError → Option String
reported none = none
reported (some e) = some (error_text e)

-- The error of the parser of the notes, which are optional.
abbrev pub notes_error : Option String → Option GoError
notes_error none = none
notes_error (some memo) = (parse_notes memo).1

-- The validator's error names exactly the fields that failed.
abbrev Names : Option GoError → Option GoError → Option GoError → Fields → Type 0
Names name amount notes fields =
    (lookup "customer_name" fields ≡ reported name)
    × (lookup "amount" fields ≡ reported amount)
    × (lookup "notes" fields ≡ reported notes)

noted_all :
    (name amount notes : Option GoError)
    → (name ≡ none → amount ≡ none → notes ≡ none → ⊥)
    → (fields : Fields) × (Validation.err
          (note "notes" notes (note "amount" amount (note "customer_name" name new_validator)))
        ≡ some (invalid fields))
      × Names name amount notes fields
unfolding Validation.err insert lookup
noted_all none none none bad = absurd (bad refl refl refl)
noted_all (some n) none none bad = (_, refl, (refl, refl, refl))
noted_all none (some a) none bad = (_, refl, (refl, refl, refl))
noted_all none none (some t) bad = (_, refl, (refl, refl, refl))
noted_all (some n) (some a) none bad = (_, refl, (refl, refl, refl))
noted_all (some n) none (some t) bad = (_, refl, (refl, refl, refl))
noted_all none (some a) (some t) bad = (_, refl, (refl, refl, refl))
noted_all (some n) (some a) (some t) bad = (_, refl, (refl, refl, refl))

module _ {S X : Type 0} (store : Store (World S X) OrderEvent) (uuid : UuidText)
    (decode : String → PlaceOrderRequest × Option GoError) (orders : Wired store uuid.print) where
  parse_note-note :
      (v : Validator) (memo : Option String)
      → (parse_note store uuid orders v memo).0 ≡ note "notes" (notes_error memo) v
  unfolding field
  parse_note-note v none = refl
  parse_note-note v (some memo) = refl

  -- POST /orders with a body that decodes, but of which the name, the amount or the notes do not
  -- parse, changes nothing and answers 422 with an error for exactly the fields that failed, with
  -- the text of each error.
  pub post_rejected :
      (call : Call) (id : Uuid) (post : Request) (req : PlaceOrderRequest) (w : World S X)
      → decode post.body ≡ (req, none)
      → ((parse_customer_name req.customer_name).1 ≡ none
          → (make_amount_from_cents req.amount).1 ≡ none
          → notes_error req.notes ≡ none
          → ⊥)
      → (fields : Fields) × (place_order_http store uuid decode orders call id post w
          ≡ (w, inl (write_json 422 (errors fields))))
        × (lookup "customer_name" fields ≡ reported (parse_customer_name req.customer_name).1)
        × (lookup "amount" fields ≡ reported (make_amount_from_cents req.amount).1)
        × (lookup "notes" fields ≡ reported (notes_error req.notes))
  unfolding place_order_http place_order_app field write_app_error as_invalid
  post_rejected call id post req w decoded bad =
      let (fields, failed, (name, amount, notes)) =
        noted_all (parse_customer_name req.customer_name).1 (make_amount_from_cents req.amount).1
          (notes_error req.notes) bad in
      (
        fields,
        ap (λ d. place_decoded store uuid decode orders call id d w) decoded
            ∙ ap
                (λ e.
                  answer (λ order_id. write_json 201 (placed order_id))
                    (place_valid store uuid orders call id cmd e w))
                (ap Validation.err (parse_note-note checked req.notes) ∙ failed),
        name,
        amount,
        notes,
      )
    where
      checked : Validator
      checked =
          note "amount" (make_amount_from_cents req.amount).1
            (note "customer_name" (parse_customer_name req.customer_name).1 new_validator)

      cmd : PlaceOrder
      cmd = record {
        order_id = id;
        customer_name = (parse_customer_name req.customer_name).0;
        amount = (make_amount_from_cents req.amount).0;
        notes = (parse_note store uuid orders checked req.notes).1;
      }

  pub bad_id :
      (call : Call) (other id : Uuid) (r : Request) (e : GoError) (w : World S X)
      → parse_order_id uuid.parse (r.url_param "id") ≡ (id, some e)
      → (ship_order_http store uuid decode orders call other r w
          ≡ (w, inl (write_json 422 (errors (("id", error_text e) ∷ [])))))
        × (get_order_http store uuid decode orders call other r w
            ≡ (w, inl (write_json 422 (errors (("id", error_text e) ∷ [])))))
  unfolding ship_order_http get_order_http ship_order_app get_order_app field Validation.err insert
      write_app_error as_invalid
  bad_id call other id r e w p = (
    ap
        (λ q.
          answer (λ _. record { status = 204; content_type = none; body = none })
            (ship_valid store uuid orders call q.0 (Validation.err (note "id" q.1 new_validator))
              w))
        p,
    ap
        (λ q.
          answer (λ s. write_json 200 (summary s))
            (get_valid store uuid orders call q.0 (Validation.err (note "id" q.1 new_validator)) w))
        p,
  )
