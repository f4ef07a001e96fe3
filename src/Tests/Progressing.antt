-- ===== src/Tests/Progressing.antt =====
-- Two undispatched rows of the local database, and a dispatcher that takes one at a time.
use goaxon.Prelude.{arith, none, [], ◌∷◌, ◌≡◌, refl, leb}
use goaxon.Go.Word.{pos}
use goaxon.Event.Dispatcher.{Dispatcher, with_batch_size}
use goaxon.Event.Dispatcher.Draining.{ticks}
use goaxon.Event.Registry.{unmarshal}
use goaxon.Go.Map.{lookup}
use goaxon.Orders.Values.{OrderEvent, order_event}
use goaxon.Postgres.{postgres_outbox}
use goaxon.Postgres.Claims.{queue_in}
use goaxon.Postgres.Progress.{PgxProgress}
use goaxon.Postgres.Progress.Draining.{IsReady, postgres_drain}
use goaxon.Tests.LocalDb.{LocalDb, local, local-PgxSpec}
use goaxon.Tests.Rows.{row, json, registry, dispatcher, print_id}

local-PgxProgress : PgxProgress local
local-PgxProgress = record {
  is_open = λ w tx. leb 1 w.open_count;
  begin_live = λ w. (_, tt, refl, ground arith);
  pending_live = λ tx n w opened. (w, _, _, refl, refl, refl, opened);
  mark_live = λ tx ids w opened. (_, refl, opened);
  commit_live = λ tx w opened. refl;
}

abbrev two_rows : LocalDb
two_rows = record {
  events = row ∷ record row { sequence = pos 2 } ∷ [];
  outbox = (row, none) ∷ (record row { sequence = pos 2 }, none) ∷ [];
  statements = [];
  open_count = 0;
}

abbrev one_by_one : Dispatcher LocalDb OrderEvent
one_by_one = with_batch_size (pos 1) dispatcher

two_rows-IsReady :
    IsReady registry json local local-PgxSpec local-PgxProgress (local-PgxSpec.tables two_rows)
unfolding local-PgxSpec unmarshal lookup
two_rows-IsReady = ((_, refl), ((_, refl), tt))

postgres_drain_example :
    queue_in registry json (
      local-PgxSpec.tables (
        ticks order_event print_id
          (record one_by_one { outbox = postgres_outbox registry json local })
          2
          two_rows))
    ≡ []
unfolding local-PgxSpec unmarshal lookup local-PgxProgress
postgres_drain_example =
    postgres_drain registry json local local-PgxSpec local-PgxProgress order_event print_id
      one_by_one 0 refl (λ ctx env w. refl) (λ ctx env w. refl) (λ ctx e w. refl) (λ env w. refl) 2
      two_rows two_rows-IsReady (omega arith)
