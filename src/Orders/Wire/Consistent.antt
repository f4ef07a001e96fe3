-- ===== src/Orders/Wire/Consistent.antt =====
-- examples/orders/domain/orders.go over store/memory/memory.go: when the event streams and the
-- read model agree.
use goaxon.Prelude.{
  ℕ, true, false, Option, none, some, List, [], ◌∷◌, ◌≡◌, ◌⊎◌, inl, inr, ap, sym, subst, nat_eq,
  string_eq, nat_beq, nat_beq_iff, Bool-cases, if◌then◌else◌,
}
use goaxon.Go.Exec.{on_part}
use goaxon.Go.Map.{lookup, insert, lookup-insert}
use goaxon.Go.Word.{pos}
use goaxon.Event.{Uuid, Time, Envelope}
use goaxon.Memory.{Streams}
use goaxon.Memory.Publish.{subscribers}
use goaxon.Aggregate.{zero_base, set_id}
use goaxon.Orders.Values.{OrderPlaced, OrderEvent, order_placed, order_shipped}
use goaxon.Orders.Order.{Order, status_new, new_order}
use goaxon.Orders.Projection.{OrderSummary, placed_summary, on_order_placed, on_order_shipped}
use goaxon.Orders.Wire.{World, summary_part}

abbrev pub MemoryWorld : Type 0 → Type 0
MemoryWorld X = World (Streams OrderEvent) X

-- The envelope that `Save` makes of an order's event.
abbrev pub envelope : Uuid → ℕ → Time → OrderEvent → Envelope OrderEvent
envelope id n t e = record {
  aggregate_id = id;
  aggregate_type = "Order";
  sequence = n;
  timestamp = t;
  payload = e;
  metadata = none;
}

abbrev pub shipped_summary : OrderSummary → OrderSummary
shipped_summary s = record s { shipped = true }

-- The stream of an order and its row in the read model, together.
pub data Stored (id : Uuid) (stream : Option (List (Envelope OrderEvent)))
    (row : Option OrderSummary) : Type 0 where
  absent : stream ≡ none → row ≡ none → Stored id stream row
  placed :
      (e : OrderPlaced) (t : Time)
      → stream ≡ some (envelope id 1 t (order_placed e) ∷ [])
      → row ≡ some (placed_summary id e)
      → Stored id stream row
  shipped :
      (e : OrderPlaced) (t t' : Time)
      → stream ≡ some (envelope id 1 t (order_placed e) ∷ envelope id 2 t' order_shipped ∷ [])
      → row ≡ some (shipped_summary (placed_summary id e))
      → Stored id stream row

-- The projection's two handlers are the subscribers of their events, and the read model shows for
-- each order what its stream says.
pub record IsConsistent {X : Type 0} (w : MemoryWorld X) : Type 0 where
  pub placing :
      subscribers w.bus "OrderPlaced"
      ≡ (λ ctx env. on_part summary_part (on_order_placed ctx env)) ∷ []
  pub shipping :
      subscribers w.bus "OrderShipped"
      ≡ (λ ctx env. on_part summary_part (on_order_shipped ctx env)) ∷ []
  pub stored : (id : Uuid) → Stored id (lookup id w.streams) (lookup id w.readers.summary)

-- The state with a stream and a row written.
abbrev pub with_order :
    {X : Type 0} → Uuid → List (Envelope OrderEvent) → OrderSummary → MemoryWorld X → MemoryWorld X
with_order id stream row w = record w {
  streams = insert id stream w.streams;
  readers = record (w.readers) { summary = insert id row w.readers.summary };
}

module _ {X : Type 0} where
  -- Writing a stream with the row that belongs to it.
  pub with_order-IsConsistent :
      (id : Uuid) (stream : List (Envelope OrderEvent)) (row : OrderSummary) (w : MemoryWorld X)
      → Stored id (some stream) (some row)
      → IsConsistent w
      → IsConsistent (with_order id stream row w)
  with_order-IsConsistent id stream row w s c = record {
    placing = c.placing;
    shipping = c.shipping;
    stored = λ j.
        subst (λ l. Stored j l (lookup j (insert id row w.readers.summary)))
          (sym (lookup-insert id j stream w.streams))
          (subst (Stored j (if nat_beq id j then some stream else lookup j w.streams))
            (sym (lookup-insert id j row w.readers.summary)) (at j (Bool-cases (nat_beq id j))));
  }
    where
      at :
          (j : Uuid)
          → (nat_beq id j ≡ true) ⊎ (nat_beq id j ≡ false)
          → Stored j
              (if nat_beq id j then some stream else lookup j w.streams)
              (if nat_beq id j then some row else lookup j w.readers.summary)
      at j (inl same) =
          rw same (subst (λ k. Stored k (some stream) (some row)) ((nat_beq_iff _ _).0 same) s)
      at j (inr other) = rw other (c.stored j)

abbrev pub fresh_order : Uuid → Order
fresh_order id = record {
  base = record zero_base { id = id };
  customer_name = "";
  amount = pos 0;
  status = status_new;
}

-- `NewOrder` gives every identifier to its order; the nil one is the zero value already.
pub new_order_lem : (id : Uuid) → new_order id ≡ fresh_order id
unfolding new_order set_id
new_order_lem id = elim (Bool-cases (nat_beq id 0)) [
  | inl nil ↦ rw nil (ap fresh_order (sym ((nat_beq_iff id 0).0 nil)))
  | inr some_id ↦ rw some_id
]
