-- ===== src/Tests/Rows.antt =====
-- The store over the local database.
use goaxon.Prelude.{
  ℕ, String, none, some, List, [], ◌∷◌, ◌≡◌, refl, subst, arith, string_eq, ◌<◌, ◌≤◌, ◌⊎◌,
}
use goaxon.Go.Error.{text}
use goaxon.Go.Outcome.{Outcome, ok, err, ok_injective}
use goaxon.Go.Word.{pos, to_i64, from_i64, i64_bound}
use goaxon.Go.Map.{lookup}
use goaxon.Event.{Envelope, Publisher}
use goaxon.Event.Dispatcher.{Dispatcher, TickCtx, new_dispatcher, deliver, tick}
use goaxon.Event.Dispatcher.Safety.{OutboxSpec}
use goaxon.Event.Registry.{Registry, unmarshal}
use goaxon.Orders.Values.{OrderEvent, event_type, order_event, order_placed, order_shipped, foreign}
use goaxon.Orders.Wire.Consistent.{envelope}
use goaxon.Postgres.{append, append_in, insert_all, load, claim, insert_event, postgres_outbox}
use goaxon.Postgres.Appending.{AppendEnd, append-AppendEnd}
use goaxon.Postgres.Claims.{ClaimEnd, claim-ClaimEnd}
use goaxon.Postgres.Connections.{tick-open_count}
use goaxon.Postgres.Database.{EventRow}
use goaxon.Postgres.Loading.{append-load}
use goaxon.Postgres.Marking.{postgres_outbox-OutboxSpec}
use goaxon.Postgres.Scan.{Json, Metadata, read_metadata, scan_outbox, scan_outbox_rows}
use goaxon.Postgres.Bounds.{rows, swapped, row_of_order}
use goaxon.Postgres.Sync.{InSync}
use goaxon.Postgres.Reachable.{after_load, after_append, at_start, Reached-InSync}
use goaxon.Postgres.Tables.{max_sequence, or_zero, by_sequence, Tables, Change}
use goaxon.Tests.LocalDb.{LocalDb, local, local-PgxSpec, local-BeginFuncSpec}

-- An encoding of one event, and of no metadata.
abbrev pub encode : OrderEvent → Outcome String
encode order_shipped = ok "{}"
encode _ = err (text "unsupported")

abbrev pub encode_metadata : Metadata → Outcome String
encode_metadata none = ok "null"
encode_metadata (some m) = err (text "unsupported")

abbrev pub json : Json OrderEvent
json = record {
  marshal = encode;
  marshal_metadata = encode_metadata;
  unmarshal_metadata = λ s. ok [];
}

abbrev pub registry : Registry OrderEvent
registry = record { unmarshalers = ("OrderShipped", λ bytes. ok order_shipped) ∷ [] }

abbrev pub empty_db : LocalDb
empty_db = record { events = []; outbox = []; statements = []; open_count = 0 }

abbrev pub row : EventRow
row = record {
  aggregate_id = 7;
  aggregate_type = "Order";
  sequence = pos 1;
  event_type = "OrderShipped";
  payload = "{}";
  metadata = "null";
  occurred_at = 5;
}

-- One event, not dispatched.
abbrev one_row : LocalDb
one_row = record { events = row ∷ []; outbox = (row, none) ∷ []; statements = []; open_count = 0 }

abbrev bus : Publisher LocalDb OrderEvent
bus ctx env w = (w, ok tt)

abbrev pub dispatcher : Dispatcher LocalDb OrderEvent
dispatcher = new_dispatcher (postgres_outbox registry json local) bus []

abbrev pub live_tick : TickCtx
live_tick = record { at_claim = none; at_publish = λ i. none; at_end = none }

abbrev pub print_id : ℕ → String
print_id id = "?"

append-AppendEnd_example :
    let q = append order_event json local none 7 0 (envelope 7 1 5 order_shipped ∷ []) empty_db in
    AppendEnd order_event json local local-PgxSpec none 7 0
      (envelope 7 1 5 order_shipped ∷ [])
      empty_db
      q.0
      q.1
append-AppendEnd_example =
    append-AppendEnd order_event json local local-PgxSpec local-BeginFuncSpec none 7 0
      (envelope 7 1 5 order_shipped ∷ []) empty_db (λ p. cc p)

claim-ClaimEnd_example :
    let q = claim registry json local none (pos 10) one_row in
    ClaimEnd registry json local local-PgxSpec one_row q.0 q.1
claim-ClaimEnd_example = claim-ClaimEnd registry json local local-PgxSpec none (pos 10) one_row

postgres_outbox-OutboxSpec_example :
    OutboxSpec (Tables × (Unit → List Change)) (postgres_outbox registry json local)
postgres_outbox-OutboxSpec_example = postgres_outbox-OutboxSpec registry json local local-PgxSpec

pub reads :
    (e : OrderEvent) (s : String)
    → encode e ≡ ok s
    → unmarshal registry (order_event.event_type e) s ≡ ok e
unfolding unmarshal lookup event_type
reads order_shipped s h = refl
reads (order_placed ev) s h = absurd (cc h)
reads (foreign name) s h = absurd (cc h)

pub reads_metadata :
    (m : Metadata) (s : String) → encode_metadata m ≡ ok s → read_metadata json s ≡ ok m
reads_metadata none s h = subst (λ t. read_metadata json t ≡ ok none) (ok_injective h) refl
reads_metadata (some m) s h = absurd (cc h)

append-load_example :
    let w' =
      (append order_event json local none 7 0 (envelope 7 1 5 order_shipped ∷ []) empty_db).0 in
    (◌≡◌ {A = ℕ} 0 0)
    × ((load registry json local none 7 w').1 ≡ ok (envelope 7 1 5 order_shipped ∷ []))
unfolding append append_in insert_all insert_event to_i64 local-PgxSpec event_type
append-load_example =
    append-load order_event registry json local local-PgxSpec reads reads_metadata
      local-BeginFuncSpec none 7 0 [] (envelope 7 1 5 order_shipped ∷ []) empty_db tt tt
      (refl, refl, tt) (omega arith) (λ p. cc p) refl none _ refl _ (row ∷ []) refl refl refl

tick-open_count_example :
    local-PgxSpec.open_count (tick order_event print_id dispatcher live_tick one_row).0
    ≡ local-PgxSpec.open_count one_row
unfolding tick claim scan_outbox scan_outbox_rows unmarshal lookup deliver
tick-open_count_example =
    tick-open_count registry json local local-PgxSpec order_event print_id dispatcher refl
      (λ ctx env w. refl) (λ ctx e w. refl) live_tick one_row 1 refl

abbrev early : Envelope OrderEvent
early = envelope 7 3 5 order_shipped

abbrev late : Envelope OrderEvent
late = envelope 7 9223372036854775808 5 order_shipped

row_of_order_example :
    (((9223372036854775808 < i64_bound) ⊎ (i64_bound ≤ 3))
      × (by_sequence (rows order_event early late "{}" "{}" "{}" "{}")
          ≡ rows order_event early late "{}" "{}" "{}" "{}")
      × (from_i64 (or_zero (max_sequence (rows order_event early late "{}" "{}" "{}" "{}")))
          ≡ 9223372036854775808))
    ⊎ ((3 < i64_bound)
        × (i64_bound ≤ 9223372036854775808)
        × (by_sequence (rows order_event early late "{}" "{}" "{}" "{}")
            ≡ swapped order_event early late "{}" "{}" "{}" "{}")
        × (from_i64 (or_zero (max_sequence (rows order_event early late "{}" "{}" "{}" "{}"))) ≡ 3))
row_of_order_example =
    row_of_order order_event early late "{}" "{}" "{}" "{}" (omega arith) (omega arith)

Reached-InSync_example : InSync (
    local-PgxSpec.tables
      (load registry json local none 7
        (append order_event json local none 7 0 (envelope 7 1 5 order_shipped ∷ []) empty_db).0).0)
unfolding local-PgxSpec
Reached-InSync_example =
    Reached-InSync order_event registry json local local-PgxSpec local-BeginFuncSpec empty_db
      (load registry json local none 7
        (append order_event json local none 7 0 (envelope 7 1 5 order_shipped ∷ []) empty_db).0).0
      (record { queued_all = refl })
      (after_load none 7 (after_append none 7 0 (envelope 7 1 5 order_shipped ∷ []) at_start))
