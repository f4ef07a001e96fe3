-- ===== src/Tests/Http.antt =====
-- The handlers of HTTP over the orders.
use mathlib.Core.List.Memᴰ
use goaxon.Go.Outcome.{ok, ◌>>=◌}
use goaxon.Orders.Http.Serving.{server-Served, started, requested, Answers}
use goaxon.Prelude.{
  List, ap, String, Option, none, ◌≡◌, inl, refl, string_eq, nat_eq, ◌==◌, if◌then◌else◌,
}
use goaxon.Go.Error.{GoError, Fields}
use goaxon.Go.Map.{lookup, insert}
use goaxon.Go.Text.{trim_space, trim_left, trim_right, is_space}
use goaxon.Go.Word.{pos}
use goaxon.Event.{undisturbed}
use goaxon.Memory.{memory_store}
use goaxon.Orders.Values.{parse_order_id, parse_customer_name, make_amount_from_cents, order_placed}
use goaxon.Orders.Projection.{placed_summary}
use goaxon.Orders.Wire.{streams_part}
use goaxon.Orders.Wire.Consistent.{MemoryWorld, IsConsistent, envelope, shipped_summary}
use goaxon.Orders.Wire.OneEvent.{in_time}
use goaxon.Orders.Wire.Commands.{placed_event}
use goaxon.Orders.App.Service.{new_lem}
use goaxon.Orders.Http.{
  Route, routes, new_server, placed, summary, errors, Request, PlaceOrderRequest, place_order_http,
  ship_order_http, get_order_http, write_json, write_error,
}
use goaxon.Orders.Http.Rejections.{post_rejected, reported, notes_error}
use goaxon.Orders.Http.Requests.{post_then_get, post_ship, unknown_id}
use goaxon.Tests.Fixtures.{
  clock, two_ids, empty_shop, shop, opened, opened-IsConsistent, ada, ordered, ordered-IsConsistent,
}

abbrev ada_request : PlaceOrderRequest
ada_request = record { customer_name = " Ada "; amount = pos 4200; notes = none }

abbrev bad_request : PlaceOrderRequest
bad_request = record { customer_name = "Ada"; amount = pos 0; notes = none }

abbrev decode : String → PlaceOrderRequest × Option GoError
decode body = if body == "ada" then (ada_request, none) else (bad_request, none)

abbrev post : Request
post = record { body = "ada"; url_param = λ name. "" }

abbrev bad_post : Request
bad_post = record { body = "free"; url_param = λ name. "" }

abbrev seven : Request
seven = record { body = ""; url_param = λ name. "seven" }

post_then_get_example :
    let (w', response) =
      place_order_http
        (memory_store streams_part)
        two_ids
        decode
        shop
        (in_time none clock)
        7
        post
        opened in
    (response ≡ inl (write_json 201 (placed "seven")))
    × IsConsistent w'
    × (get_order_http
          (memory_store streams_part)
          two_ids
          decode
          shop
          (in_time none clock)
          0
          seven
          w'
        ≡ (w', inl (write_json 200 (summary (placed_summary 7 (placed_event ada))))))
unfolding parse_order_id lookup parse_customer_name make_amount_from_cents trim_space trim_left
    trim_right is_space
post_then_get_example =
    post_then_get two_ids decode empty_shop none clock shop
      (new_lem (memory_store streams_part) two_ids empty_shop) opened opened-IsConsistent
      ada_request ada post seven refl refl refl refl refl refl 0

post_ship_example :
    let (w', response) =
      ship_order_http
        (memory_store streams_part)
        two_ids
        decode
        shop
        (in_time none clock)
        0
        seven
        ordered in
    (response ≡ inl (record { status = 204; content_type = none; body = none }))
    × (get_order_http
          (memory_store streams_part)
          two_ids
          decode
          shop
          (in_time none clock)
          0
          seven
          w'
        ≡ (
          w',
          inl (write_json 200 (summary (shipped_summary (placed_summary 7 (placed_event ada))))),
        ))
    × (ship_order_http
          (memory_store streams_part)
          two_ids
          decode
          shop
          (in_time none clock)
          0
          seven
          w'
        ≡ (w', inl (write_error 400 "order already shipped")))
unfolding parse_order_id lookup insert
post_ship_example =
    post_ship two_ids decode empty_shop none clock shop
      (new_lem (memory_store streams_part) two_ids empty_shop) ordered ordered-IsConsistent 7 seven
      (envelope 7 1 (clock 0) (order_placed (placed_event ada)))
      (placed_summary 7 (placed_event ada)) refl refl refl 0

unknown_id_example :
    (ship_order_http
        (memory_store streams_part)
        two_ids
        decode
        shop
        (in_time none clock)
        0
        seven
        opened
      ≡ (opened, inl (write_error 404 "order not found")))
    × (get_order_http
          (memory_store streams_part)
          two_ids
          decode
          shop
          (in_time none clock)
          0
          seven
          opened
        ≡ (opened, inl (write_error 404 "order not found")))
unfolding parse_order_id lookup
unknown_id_example =
    unknown_id two_ids decode empty_shop none clock shop
      (new_lem (memory_store streams_part) two_ids empty_shop) opened opened-IsConsistent 7 seven
      refl refl 0

post_rejected_example :
    (fields : Fields) × (place_order_http
        (memory_store streams_part)
        two_ids
        decode
        shop
        undisturbed
        9
        bad_post
        opened
      ≡ (opened, inl (write_json 422 (errors fields))))
    × (lookup "customer_name" fields ≡ reported (parse_customer_name "Ada").1)
    × (lookup "amount" fields ≡ reported (make_amount_from_cents (pos 0)).1)
    × (lookup "notes" fields ≡ reported (notes_error none))
unfolding make_amount_from_cents
post_rejected_example =
    post_rejected (memory_store streams_part) two_ids decode shop undisturbed 9 bad_post bad_request
      opened refl (λ name amount notes. cc amount)

abbrev served : List (Route (MemoryWorld Unit))
served = routes (memory_store streams_part) two_ids decode shop

server : new_server (memory_store streams_part) two_ids decode empty_shop ≡ ok (opened, served)
unfolding new_server
server =
    ap
      (λ o. do
        orders ← o
        ok (orders.world, routes (memory_store streams_part) two_ids decode orders))
      (new_lem (memory_store streams_part) two_ids empty_shop)

-- The state after one order.
abbrev once : MemoryWorld Unit
once =
    (place_order_http (memory_store streams_part) two_ids decode shop undisturbed 7 post opened).0

server-Served_example :
    IsConsistent once
    × Answers
        (get_order_http (memory_store streams_part) two_ids decode shop undisturbed 0 seven once).1
server-Served_example =
    server-Served two_ids decode empty_shop refl refl opened served server once
      (requested
        (record {
          method = "POST";
          pattern = "/orders";
          handler = place_order_http (memory_store streams_part) two_ids decode shop;
        })
        undisturbed 7 post (Memᴰ.head refl) started)
      (record {
        method = "GET";
        pattern = "/orders/{id}";
        handler = get_order_http (memory_store streams_part) two_ids decode shop;
      })
      undisturbed 0 seven (Memᴰ.tail (Memᴰ.tail (Memᴰ.head refl)))
