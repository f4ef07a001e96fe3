-- ===== src/Orders/Order.antt =====
-- examples/orders/domain/orders.go: the aggregate.
pub mod Lifecycle
use goaxon.Prelude.{ℕ, String, Bool, Option, none, some, ◌≡◌, refl}
use goaxon.Go.Error.{GoError, text}
use goaxon.Go.Outcome.{Outcome, Done, ok, err}
use goaxon.Go.Word.{pos}
use goaxon.Event.{Uuid}
use goaxon.Maybe.{Maybe}
use goaxon.Aggregate.{Base, BaseAccessor, Root, RootLaws, zero_base, set_id, raise}
use goaxon.Orders.Values.{
  CustomerName, Amount, Notes, OrderPlaced, OrderEvent, order_placed, order_shipped, foreign,
}

-- `orderStatus`
pub data OrderStatus : Type 0 where
  status_new status_placed status_shipped : OrderStatus

pub record Order : Type 0 where
  pub base : Base OrderEvent
  pub customer_name : CustomerName
  pub amount : Amount
  pub status : OrderStatus

-- `NewOrder`: the error of `SetID` is dropped.
unfoldable pub new_order : Uuid → Order
unfolding set_id
new_order id = record {
  base = (set_id id zero_base).0;
  customer_name = "";
  amount = pos 0;
  status = status_new;
}

-- `Apply`
unfoldable pub apply : Order → OrderEvent → Order
apply o (order_placed ev) = record o {
  customer_name = ev.customer_name;
  amount = ev.amount;
  status = status_placed;
}
apply o order_shipped = record o { status = status_shipped }
apply o (foreign name) = o

abbrev pub order_base : BaseAccessor Order OrderEvent
order_base = record { get_base = λ o. o.base; set_base = λ b o. record o { base = b } }

-- `*Order` as an aggregate root; `AggregateType` is the constant "Order".
abbrev pub order_root : Root Order OrderEvent
order_root = record {
  aggregate_id = λ o. o.base.id;
  aggregate_type = λ o. "Order";
  apply = apply;
  type_text = "*domain.Order";
  base = some order_base;
}

abbrev pub order_raise : Order → OrderEvent → Order
order_raise = raise order_root order_base

-- `Place`: the aggregate after it, and the error.
abbrev pub place_at :
    OrderStatus → Order → CustomerName → Amount → Maybe Notes → Order × Option GoError
place_at status_new o name amount notes = (
  order_raise o (order_placed (record { customer_name = name; amount = amount; notes = notes })),
  none,
)
place_at _ o name amount notes = (o, some (text "order already placed"))

unfoldable pub place : Order → CustomerName → Amount → Maybe Notes → Order × Option GoError
place o name amount notes = place_at o.status o name amount notes

-- `Ship`
abbrev pub ship_at : OrderStatus → Order → Order × Option GoError
ship_at status_new o = (o, some (text "cannot ship an order that hasn't been placed"))
ship_at status_placed o = (order_raise o order_shipped, none)
ship_at status_shipped o = (o, some (text "order already shipped"))

unfoldable pub ship : Order → Order × Option GoError
ship o = ship_at o.status o

base-apply : (o : Order) (e : OrderEvent) → (apply o e).base ≡ o.base
unfolding apply
base-apply o (order_placed ev) = refl
base-apply o order_shipped = refl
base-apply o (foreign name) = refl

apply-set :
    (b : Base OrderEvent) (o : Order) (e : OrderEvent)
    → apply (record o { base = b }) e ≡ record (apply o e) { base = b }
unfolding apply
apply-set b o (order_placed ev) = refl
apply-set b o order_shipped = refl
apply-set b o (foreign name) = refl

-- The order keeps to what the repository relies on.
pub order_root-RootLaws : RootLaws order_root order_base
order_root-RootLaws = record {
  embeds = refl;
  get_set = λ b a. refl;
  set_set = λ b c a. refl;
  set_get = λ a. refl;
  get_apply = λ a e. base-apply a e;
  apply_set = λ b a e. apply-set b a e;
  id_base = λ a. refl;
  type_fixed = λ a b. refl;
}
