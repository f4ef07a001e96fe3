-- ===== src/Orders/Order/Lifecycle.antt =====
-- examples/orders/domain/orders.go: `NewOrder`, `Place`, `Ship` and `Apply`, between the loads and the
-- saves of aggregate/aggregate.go.
use goaxon.Prelude.{
  subst, sym, append_assoc, append-nil, arith, Option, none, List, [], ◌∷◌, ◌++◌, ◌≡◌, ◌≢◌, refl,
}
use goaxon.Event.{Uuid}
use goaxon.Go.Error.{GoError}
use goaxon.Aggregate.{raise, rehydrate, set_id}
use goaxon.Aggregate.Replay.{commit, rehydrate_all}
use goaxon.Maybe.{Maybe}
use goaxon.Orders.Values.{
  CustomerName, Amount, Notes, OrderPlaced, OrderEvent, order_placed, order_shipped,
}
use goaxon.Orders.Order.{
  Order, OrderStatus, status_new, status_placed, status_shipped, apply, order_root, order_base,
  new_order, place, ship, place_at, ship_at,
}

-- The histories that the methods of the order produce.
pub data History : OrderStatus → List OrderEvent → Type 0 where
  unplaced : History status_new []
  placed : (e : OrderPlaced) → History status_placed (order_placed e ∷ [])
  shipped : (e : OrderPlaced) → History status_shipped (order_placed e ∷ order_shipped ∷ [])

-- The commands.
pub data Command : Type 0 where
  do_place : CustomerName → Amount → Maybe Notes → Command
  do_ship : Command

abbrev pub perform : Command → Order → Order × Option GoError
perform (do_place name amount notes) o = place o name amount notes
perform do_ship o = ship o

-- The life of an order: the events that its stream holds, and the order as a program holds it. It
-- is created; a method is called; a `Save` that stores the queue commits it; a `Load` builds it
-- anew from the stream.
pub data Lives (id : Uuid) : List OrderEvent → Order → Type 0 where
  created : Lives id [] (new_order id)
  performed :
      {past : List OrderEvent} {o : Order} (c : Command)
      → Lives id past o
      → Lives id past (perform c o).0
  saved :
      {past : List OrderEvent} {o : Order}
      → Lives id past o
      → Lives id (past ++ o.base.uncommitted) (commit order_root order_base o)
  loaded :
      {past : List OrderEvent} {o : Order}
      → Lives id past o
      → Lives id past (rehydrate_all order_root order_base (new_order id) past)

-- A method of the order that returns an error leaves the order as it was, bookkeeping included.
pub rejected_changes_nothing :
    (c : Command) (o : Order) → (perform c o).1 ≢ none → (perform c o).0 ≡ o
unfolding place ship
rejected_changes_nothing (do_place name amount notes) o = at o.status
  where
    at :
        (s : OrderStatus)
        → (place_at s o name amount notes).1 ≢ none
        → (place_at s o name amount notes).0 ≡ o
    at status_new n = absurd (n refl)
    at status_placed n = refl
    at status_shipped n = refl
rejected_changes_nothing do_ship o = at o.status
  where
    at : (s : OrderStatus) → (ship_at s o).1 ≢ none → (ship_at s o).0 ≡ o
    at status_new n = refl
    at status_placed n = absurd (n refl)
    at status_shipped n = refl

History-placed :
    {l : List OrderEvent} (e : OrderPlaced)
    → History status_new l
    → History status_placed (l ++ order_placed e ∷ [])
History-placed e unplaced = placed e

History-shipped :
    {l : List OrderEvent}
    → History status_placed l
    → History status_shipped (l ++ order_shipped ∷ [])
History-shipped (placed e) = shipped e

-- What is stored of the order is a history; so is what is stored and then what it has queued, and
-- its status is the order's.
pub record IsAlive (past : List OrderEvent) (o : Order) : Type 0 where
  pub stored_status : OrderStatus
  pub stored : History stored_status past
  pub held : History o.status (past ++ o.base.uncommitted)

perform_held :
    (past : List OrderEvent) (c : Command) (o : Order)
    → History o.status (past ++ o.base.uncommitted)
    → History (perform c o).0.status (past ++ (perform c o).0.base.uncommitted)
unfolding place ship raise apply
perform_held past (do_place name amount notes) o h = at o.status h
  where
    ev : OrderPlaced
    ev = record { customer_name = name; amount = amount; notes = notes }

    at :
        (s : OrderStatus)
        → History s (past ++ o.base.uncommitted)
        → let q = (place_at s (record o { status = s }) name amount notes).0 in
          History q.status (past ++ q.base.uncommitted)
    at status_new a =
        subst (History status_placed) (append_assoc past o.base.uncommitted (order_placed ev ∷ []))
          (History-placed ev a)
    at status_placed a = a
    at status_shipped a = a
perform_held past do_ship o h = at o.status h
  where
    at :
        (s : OrderStatus)
        → History s (past ++ o.base.uncommitted)
        → let q = (ship_at s (record o { status = s })).0 in
          History q.status (past ++ q.base.uncommitted)
    at status_new a = a
    at status_placed a =
        subst (History status_shipped) (append_assoc past o.base.uncommitted (order_shipped ∷ []))
          (History-shipped a)
    at status_shipped a = a

new_order_queue : (id : Uuid) → (new_order id).base.uncommitted ≡ []
unfolding new_order set_id
new_order_queue id = ground arith

-- An order that is built from a history, on one that is new, has its status and nothing queued.
loaded_held :
    (o : Order) {s : OrderStatus} {past : List OrderEvent}
    → o.status ≡ status_new
    → o.base.uncommitted ≡ []
    → History s past
    → let q = rehydrate_all order_root order_base o past in
      History q.status (past ++ q.base.uncommitted)
unfolding rehydrate apply
loaded_held o fresh empty unplaced =
    subst (λ t. History t o.base.uncommitted) (sym fresh)
      (subst (History status_new) (sym empty) unplaced)
loaded_held o fresh empty (placed e) =
    subst (λ l. History status_placed (order_placed e ∷ l)) (sym empty) (placed e)
loaded_held o fresh empty (shipped e) =
    subst (λ l. History status_shipped (order_placed e ∷ order_shipped ∷ l)) (sym empty) (shipped e)

-- Of an order that `NewOrder` created, and that was then, in any order and number, placed,
-- shipped, saved with success and loaded anew: the events stored, and these followed by the events
-- queued, are each an empty history, one placing, or one placing and then one shipping, and the
-- order's status is that of the latter.
pub Lives-IsAlive :
    (id : Uuid) {past : List OrderEvent} {o : Order} → Lives id past o → IsAlive past o
unfolding new_order
Lives-IsAlive id created = record {
  stored_status = status_new;
  stored = unplaced;
  held = subst (History status_new) (sym (new_order_queue id)) unplaced;
}
Lives-IsAlive id (performed {past} {o} c l) =
    let a = Lives-IsAlive id l in
    record {
      stored_status = a.stored_status;
      stored = a.stored;
      held = perform_held past c o a.held;
    }
Lives-IsAlive id (saved {past} {o} l) =
    let a = Lives-IsAlive id l in
    record {
      stored_status = o.status;
      stored = a.held;
      held = subst (History o.status) (sym (append-nil _)) a.held;
    }
Lives-IsAlive id (loaded {past} {o} l) =
    let a = Lives-IsAlive id l in
    record {
      stored_status = a.stored_status;
      stored = a.stored;
      held = loaded_held (new_order id) refl (new_order_queue id) a.stored;
    }
