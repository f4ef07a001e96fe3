-- ===== src/Tests/Dispatching.antt =====
-- The dispatcher on a queue whose second entry the bus refuses.
use goaxon.Prelude.{
  ℕ, String, none, List, [], ◌∷◌, ◌++◌, ◌≡◌, refl, ap, sym, subst, ◌∙◌, append-nil, inl, drop,
  length, nat_eq,
}
use goaxon.Go.Error.{text}
use goaxon.Go.Outcome.{Done, ok, err, ok_injective}
use goaxon.Go.Word.{ℤ, pos}
use goaxon.Event.{Ctx, Publisher}
use goaxon.Event.Outbox.{OutboxEntry, Claim, Outbox}
use goaxon.Event.Dispatcher.{Dispatcher, TickCtx, new_dispatcher, tick}
use goaxon.Event.Dispatcher.Delivering.{ids}
use goaxon.Event.Dispatcher.{fired, run, with_batch_size}
use goaxon.Event.Dispatcher.Spinning.{run_refused}
use goaxon.Event.Dispatcher.Running.{Drained, run-Drained}
use goaxon.Event.Dispatcher.Safety.{OutboxSpec, TickEffect, tick-TickEffect}
use goaxon.Orders.Values.{OrderEvent, order_event, order_shipped, foreign}
use goaxon.Orders.Wire.Consistent.{envelope}

abbrev Queue : Type 0
Queue = List (OutboxEntry OrderEvent)

-- A queue that gives out all its entries, and drops as many as are committed.
abbrev queue_claim : Queue → Claim Queue OrderEvent
queue_claim w = record {
  entries = w;
  commit = λ ctx done v. (drop (length done) v, none);
  release = λ ctx v. (v, none);
}

abbrev queue : Outbox Queue OrderEvent
queue = record { claim = λ ctx n w. (w, ok (queue_claim w)) }

-- A bus that takes the events of the orders and no other.
abbrev accept : OrderEvent → Done
accept (foreign name) = err (text "unknown event")
accept _ = ok tt

abbrev strict : Publisher Queue OrderEvent
strict ctx env w = (w, accept env.payload)

abbrev dispatcher : Dispatcher Queue OrderEvent
dispatcher = new_dispatcher queue strict []

drop-ids : (before rest : Queue) → drop (length (ids before)) (before ++ rest) ≡ rest
drop-ids [] rest = refl
drop-ids (x ∷ before) rest = drop-ids before rest

claimed :
    (ctx : Ctx) (n : ℤ) (w w' : Queue) (c : Claim Queue OrderEvent)
    → queue.claim ctx n w ≡ (w', ok c)
    → queue_claim w ≡ c
claimed ctx n w w' c h = ok_injective (ap (λ q. q.1) h)

unfoldable queue-OutboxSpec : OutboxSpec Queue queue
queue-OutboxSpec = record {
  state = λ w. w;
  undispatched = λ w. w;
  claim_keeps = λ ctx n w. refl;
  claim_prefix = λ ctx n w w' c h.
      ([], subst (λ d. w ≡ d.entries ++ []) (claimed ctx n w w' c h) (sym (append-nil w)));
  commit_marks = λ ctx n w w' c h ctx' before after rest v split same whole. inl (
      subst (λ d. (d.commit ctx' (ids before) v).0 ≡ rest) (claimed ctx n w w' c h)
        (ap (drop (length (ids before))) whole ∙ drop-ids before rest));
  release_keeps = λ ctx n w w' c h ctx' v same.
      subst (λ d. (d.release ctx' v).0 ≡ v) (claimed ctx n w w' c h) refl;
}

abbrev live_tick : TickCtx
live_tick = record { at_claim = none; at_publish = λ i. none; at_end = none }

abbrev three : Queue
three =
    record { outbox_id = 1; envelope = envelope 7 2 0 order_shipped }
    ∷ record { outbox_id = 2; envelope = envelope 7 3 0 (foreign "OrderLost") }
    ∷ record { outbox_id = 3; envelope = envelope 8 2 0 order_shipped }
    ∷ []

abbrev print_id : ℕ → String
print_id id = "?"

tick-TickEffect_example :
    TickEffect order_event print_id dispatcher queue-OutboxSpec
      (λ ctx env w. refl)
      (λ ctx e w. refl)
      live_tick
      three
      (tick order_event print_id dispatcher live_tick three).0
tick-TickEffect_example =
    tick-TickEffect order_event print_id dispatcher queue-OutboxSpec (λ ctx env w. refl)
      (λ ctx e w. refl) live_tick three

run-Drained_example :
    Drained order_event print_id dispatcher queue-OutboxSpec
      (λ ctx env w. refl)
      (λ ctx e w. refl)
      (fired live_tick ∷ fired live_tick ∷ [])
      three
      (run order_event print_id dispatcher (fired live_tick ∷ fired live_tick ∷ []) three).0
run-Drained_example =
    run-Drained order_event print_id dispatcher queue-OutboxSpec (λ ctx env w. refl)
      (λ ctx e w. refl) (fired live_tick ∷ fired live_tick ∷ []) three

-- A batch size of one.
abbrev one_by_one : Dispatcher Queue OrderEvent
one_by_one = new_dispatcher queue strict (with_batch_size (pos 1) ∷ [])

-- An event that the bus refuses.
abbrev lost : OutboxEntry OrderEvent
lost = record { outbox_id = 1; envelope = envelope 7 1 0 (foreign "OrderLost") }

run_refused_example :
    (u : Queue) × (u ≡ lost ∷ [])
    × (run order_event print_id one_by_one (fired live_tick ∷ []) (lost ∷ []) ≡ (
      (run order_event print_id one_by_one [] u).0,
      pos 0 ∷ (run order_event print_id one_by_one [] u).1,
      (run order_event print_id one_by_one [] u).2,
    ))
unfolding queue-OutboxSpec
run_refused_example =
    run_refused order_event print_id one_by_one queue-OutboxSpec (λ ctx env w. refl)
      (λ ctx e w. refl) live_tick (lost ∷ []) (lost ∷ []) (lost ∷ []) (queue_claim (lost ∷ [])) lost
      [] (text "unknown event") [] refl refl refl refl
