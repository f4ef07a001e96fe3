-- ===== src/Tests/Saving.antt =====
-- The repository on concrete aggregates: the orders over the store in memory.
use goaxon.Prelude.{arith, none, some, [], ◌∷◌, ◌≡◌, ◌≢◌, ◌⊎◌, refl, nat_eq}
use goaxon.Go.Map.{lookup, insert}
use goaxon.Go.Error.{join}
use goaxon.Go.Outcome.{ok}
use goaxon.Event.{is_canceled}
use goaxon.Event.Spec.{StoreSpec}
use goaxon.Event.Spec.{Numbered}
use goaxon.Event.Delivery.{Keeps}
use goaxon.Memory.{run_handlers, publish, append}
use goaxon.Memory.Laws.{memory_store-StoreSpec, memory_store-StoreProgress}
use goaxon.Aggregate.{rehydrate, raise, set_id}
use goaxon.Aggregate.Repository.{
  after_append, Repository, load, save, publish_all, envelopes_from, after_append,
}
use goaxon.Aggregate.Replay.{raise_all, commit}
use goaxon.Aggregate.Effect.{Saved, Refused, save_all_or_nothing}
use goaxon.Aggregate.Restore.{IsFresh, replayed, payloads, load-save}
use goaxon.Aggregate.Sequences.{IsNumbered, save-IsNumbered, save_race}
use goaxon.Orders.Values.{OrderEvent, order_placed, order_shipped, event_type}
use goaxon.Orders.Order.{
  Order, new_order, apply, order_root, order_base, order_raise, order_root-RootLaws,
}
use goaxon.Orders.Wire.{streams_part}
use goaxon.Orders.Wire.Consistent.{MemoryWorld, fresh_order}
use goaxon.Orders.Wire.OneEvent.{orders_repo}
use goaxon.Orders.Wire.Commands.{placed_event}
use goaxon.Memory.{append, publish, run_handlers, subscribe}
use goaxon.Orders.Projection.{on_order_placed}
use goaxon.Tests.Fixtures.{clock, opened, ordered, ada, two_ids}

abbrev orders : Repository (MemoryWorld Unit) Order OrderEvent
orders = orders_repo two_ids.print

abbrev streams : StoreSpec orders.store
streams = memory_store-StoreSpec streams_part

quiet : Keeps orders.publish streams.stream
unfolding memory_store-StoreSpec
quiet ctx env w = refl

-- Two orders with one event each to save, on a new stream.
abbrev placing : Order
placing = order_raise (fresh_order 7) (order_placed (placed_event ada))

abbrev shipping : Order
shipping = order_raise (fresh_order 7) order_shipped

placing-pending : placing.base.uncommitted ≢ []
unfolding raise apply
placing-pending p = cc p

shipping-pending : shipping.base.uncommitted ≢ []
unfolding raise apply
shipping-pending p = cc p

opened-IsNumbered : IsNumbered orders order_root-RootLaws streams quiet opened
unfolding memory_store-StoreSpec lookup
opened-IsNumbered j = tt

placing-saved : (save orders none none clock placing opened).1 ≡ ok tt
unfolding save after_append publish_all envelopes_from append publish run_handlers join
    on_order_placed event_type lookup insert subscribe raise apply
placing-saved = refl

seven-IsFresh : IsFresh orders order_root-RootLaws 7 (orders.factory 7)
unfolding new_order set_id
seven-IsFresh = refl

save_all_or_nothing_example :
    let q = save orders none none clock placing opened in
    Saved orders order_root-RootLaws streams quiet clock placing opened q.0.0 q.0.1
    ⊎ Refused orders order_root-RootLaws streams quiet placing opened q.0.0 q.0.1 q.1
save_all_or_nothing_example =
    save_all_or_nothing orders order_root-RootLaws streams quiet none none clock placing opened
      placing-pending

save-IsNumbered_example :
    Numbered 7 0 (streams.stream (save orders none none clock placing opened).0.1 7)
unfolding memory_store-StoreSpec lookup raise apply
save-IsNumbered_example =
    save-IsNumbered orders order_root-RootLaws streams quiet none none clock placing opened
      placing-pending opened-IsNumbered (omega arith) 7

save_race_example :
    let w' = (save orders none none clock placing opened).0.1 in
    let q = save orders none (some is_canceled) clock shipping w' in
    Refused orders order_root-RootLaws streams quiet shipping w' q.0.0 q.0.1 q.1
unfolding memory_store-StoreSpec lookup raise apply
save_race_example =
    save_race orders order_root-RootLaws streams quiet none none none (some is_canceled) clock clock
      placing shipping opened opened-IsNumbered (omega arith) placing-pending shipping-pending refl
      refl placing-saved

load-save_example :
    let a =
      raise_all order_root order_base
        (replayed orders order_root-RootLaws 7 seven-IsFresh (payloads (streams.stream ordered 7)))
        (order_shipped ∷ []) in
    let q = save orders none none clock a ordered in
    ((load orders none 7 q.0.1).1 ≡ ok (commit order_root order_base a))
    × (q.0.0 ≡ commit order_root order_base a)
unfolding memory_store-StoreSpec lookup insert raise rehydrate apply new_order set_id
load-save_example =
    load-save orders order_root-RootLaws streams (memory_store-StoreProgress streams_part) quiet
      none clock 7 ordered (order_shipped ∷ []) seven-IsFresh (λ p. cc p) refl
