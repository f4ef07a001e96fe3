-- ===== src/Orders/Wire/OneEvent.antt =====
-- examples/orders/domain/orders.go over store/memory/memory.go: the saving of one event, and its
-- subscribers.
use goaxon.Prelude.{
  suc, length, zero, suc, ℕ, ◌+◌, String, none, some, List, [], ◌∷◌, ◌++◌, ◌≡◌, ap, ◌∙◌, nat_eq,
  string_eq,
}
use goaxon.Go.Error.{join}
use goaxon.Go.Outcome.{Exec, of_error, Done, ok}
use goaxon.Go.Exec.{◌>>=◌, lift}
use goaxon.Go.Map.{lookup, insert}
use goaxon.Go.Word.{u64}
use goaxon.Event.{Ctx, Handler, Uuid, Time, Call, Envelope}
use goaxon.Memory
use goaxon.Memory.{Streams, Bus, memory_store, slice_at, run_handlers, publish}
use goaxon.Memory.Laws.{append-at_head}
use goaxon.Aggregate.Effect.{save_nonempty}
use goaxon.Aggregate.Repository.{
  Repository, envelopes_from, publish_all, after_publish, after_append,
}
use goaxon.Orders.Values.{
  OrderPlaced, OrderEvent, order_placed, order_shipped, order_event, event_type,
}
use goaxon.Orders.Order.{Order, order_base, order_root-RootLaws}
use goaxon.Orders.Projection.{
  OrderSummary, record_at, placed_summary, on_order_placed, on_order_shipped,
}
use goaxon.Orders.Wire.{Readers, streams_part, repo, save_order}
use goaxon.Orders.Wire.Consistent.{MemoryWorld, envelope, shipped_summary, IsConsistent}

-- What the context of a call answers the store's `Load`, the store's `Append`, and any later callee.
abbrev pub asked : Ctx → Ctx → Ctx → ℕ → Ctx
asked load append later zero = load
asked load append later (suc zero) = append
asked load append later (suc (suc _)) = later

-- A call whose context is not done when the store asks.
abbrev pub in_time : Ctx → (ℕ → Time) → Call
in_time late now = record { ctx = asked none none late; now = now }

abbrev run_then :
    {R : Type 0} → Ctx → List (Handler R OrderEvent) → Envelope OrderEvent → Exec R Unit
run_then late hs env = do errs ← run_handlers hs late env; lift (of_error (join errs))

module _ {X : Type 0} (print : Uuid → String) where
  abbrev pub orders_repo : Repository (MemoryWorld X) Order OrderEvent
  orders_repo = repo (memory_store streams_part) print

  -- Saving an order with one queued event at the head of its stream, where the subscribers take it.
  pub save_one :
      (late : Ctx) (now : ℕ → Time) (o : Order) (ev : OrderEvent) (w : MemoryWorld X)
      (r : Readers X)
      → o.base.uncommitted ≡ ev ∷ []
      → u64 (length (slice_at (lookup o.base.id w.streams))) ≡ o.base.committed_version
      → let env = envelope o.base.id (u64 (o.base.committed_version + 0 + 1)) (now 0) ev in
        publish order_event w.bus late env w.readers ≡ (r, ok tt)
        → save_order (memory_store streams_part) print (in_time late now) o w ≡ (
          record w {
            streams =
                insert o.base.id (slice_at (lookup o.base.id w.streams) ++ env ∷ []) w.streams;
            readers = r;
          },
          ok tt,
        )
  unfolding after_append publish_all envelopes_from
  save_one late now o ev w r queued at_head published =
      ap (λ q. (q.0.1, q.1))
        (save_nonempty orders_repo order_root-RootLaws none late now o w (λ p. cc (queued, p))
          ∙ ap (λ envs. answer envs (Memory.append none id o.base.committed_version envs w.streams))
              one
          ∙ ap (answer (env ∷ []))
              (append-at_head id o.base.committed_version (env ∷ []) w.streams at_head))
      ∙ ap finish published
    where
      id : Uuid
      id = o.base.id

      env : Envelope OrderEvent
      env = envelope o.base.id (u64 (o.base.committed_version + 0 + 1)) (now 0) ev

      answer :
          List (Envelope OrderEvent) → Streams OrderEvent × Done → (Order × MemoryWorld X) × Done
      answer envs p =
          after_append orders_repo order_base late o envs (record w { streams = p.0 }, p.1)

      one :
          envelopes_from orders_repo now o o.base.committed_version 0 o.base.uncommitted ≡ env ∷ []
      one = ap (envelopes_from orders_repo now o o.base.committed_version 0) queued

      finish : Readers X × Done → MemoryWorld X × Done
      finish p =
          after_publish orders_repo env
            (
              record w {
                streams =
                    insert o.base.id (slice_at (lookup o.base.id w.streams) ++ env ∷ []) w.streams;
                readers = p.0;
              },
              p.1,
            )
            (publish_all orders_repo late [])

  -- The subscribers of the two events.
  pub publish_placed :
      (late : Ctx) (w : MemoryWorld X) (id : Uuid) (n : ℕ) (t : Time) (e : OrderPlaced)
      → IsConsistent w
      → publish order_event w.bus late (envelope id n t (order_placed e)) w.readers ≡ (
        record (w.readers) { summary = insert id (placed_summary id e) w.readers.summary },
        ok tt,
      )
  unfolding publish run_handlers join on_order_placed event_type
  publish_placed late w id n t e c =
      ap (λ hs. run_then late hs (envelope id n t (order_placed e)) w.readers) c.placing

  pub publish_shipped :
      (late : Ctx) (w : MemoryWorld X) (id : Uuid) (n : ℕ) (t : Time) (s : OrderSummary)
      → IsConsistent w
      → lookup id w.readers.summary ≡ some s
      → publish order_event w.bus late (envelope id n t order_shipped) w.readers
        ≡ (record (w.readers) { summary = insert id (shipped_summary s) w.readers.summary }, ok tt)
  unfolding publish run_handlers join on_order_shipped event_type
  publish_shipped late w id n t s c row =
      ap (λ hs. run_then late hs (envelope id n t order_shipped) w.readers) c.shipping
      ∙ ap
          (λ o. (
            record (w.readers) {
              summary = insert id (shipped_summary (record_at o)) w.readers.summary;
            },
            ok tt,
          ))
          row
