-- ===== src/Tests/Delivered.antt =====
-- An order saved in the local database, and the dispatcher over its outbox.
use goaxon.Prelude.{arith, String, none, [], ◌∷◌, ◌≡◌, refl, string_eq, nat_eq}
use goaxon.Go.Outcome.{ok}
use goaxon.Go.Word.{to_i64}
use goaxon.Event.Dispatcher.{fired}
use goaxon.Event.Registry.{unmarshal}
use goaxon.Aggregate.Repository.{Repository, save, envelopes_from, after_append}
use goaxon.Orders.Values.{OrderEvent, order_shipped, order_event, event_type}
use goaxon.Orders.Order.{Order, order_root, order_root-RootLaws, new_order}
use goaxon.Orders.Wire.Consistent.{envelope, fresh_order}
use goaxon.Postgres.{append, append_in, insert_all, insert_event, postgres_store}
use goaxon.Postgres.Delivery.{append-queue, contents, queue, Publishes}
use goaxon.Postgres.Saved.{in_postgres, save_then_run}
use goaxon.Postgres.Scan.{Metadata, read_metadata}
use goaxon.Tests.LocalDb.{LocalDb, local, local-PgxSpec, local-BeginFuncSpec}
use goaxon.Tests.Rows.{
  empty_db, json, registry, reads, reads_metadata, dispatcher, live_tick, print_id,
}

abbrev shipping : Order
shipping =
    let o = fresh_order 7 in
    record o { base = record (o.base) { uncommitted = order_shipped ∷ []; current_version = 1 } }

abbrev repository : Repository LocalDb Order OrderEvent
repository = record {
  root = order_root;
  event = order_event;
  store = postgres_store order_event registry json local;
  publish = λ ctx env w. (w, ok tt);
  factory = new_order;
  print = print_id;
}

texts_read :
    (e : OrderEvent) (s : String)
    → json.marshal e ≡ ok s
    → unmarshal registry (order_event.event_type e) (local-PgxSpec.jsonb s) ≡ ok e
unfolding local-PgxSpec
texts_read e s h = reads e s h

metadata_reads :
    (m : Metadata) (s : String)
    → json.marshal_metadata m ≡ ok s
    → read_metadata json (local-PgxSpec.jsonb s) ≡ ok m
unfolding local-PgxSpec
metadata_reads m s h = reads_metadata m s h

append-queue_example :
    contents (
      queue order_event registry json local local-PgxSpec texts_read metadata_reads
        (append order_event json local none 7 0 (envelope 7 1 5 order_shipped ∷ []) empty_db).0)
    ≡ envelope 7 1 5 order_shipped ∷ []
unfolding append append_in insert_all insert_event to_i64 local-PgxSpec event_type
append-queue_example =
    append-queue order_event registry json local local-PgxSpec texts_read metadata_reads
      local-BeginFuncSpec none 7 0 (envelope 7 1 5 order_shipped ∷ []) empty_db (omega arith, tt)
      refl

abbrev saved : LocalDb
saved =
    (save (in_postgres repository registry json local local-PgxSpec texts_read metadata_reads) none
      none (λ i. 5) shipping empty_db).0.1

save_then_run_example :
    Publishes order_event registry json local local-PgxSpec texts_read metadata_reads print_id
      dispatcher
      (λ ctx env w. refl)
      (λ ctx e w. refl)
      (fired live_tick ∷ [])
      (envelope 7 1 5 order_shipped ∷ [])
      saved
unfolding save append append_in insert_all insert_event to_i64 local-PgxSpec event_type
    envelopes_from after_append
save_then_run_example =
    save_then_run repository registry json local local-PgxSpec texts_read metadata_reads
      local-BeginFuncSpec order_root-RootLaws print_id dispatcher (λ ctx env w. refl)
      (λ ctx e w. refl) none none (λ i. 5) shipping empty_db refl (fired live_tick ∷ [])
