-- ===== src/Postgres/Database.antt =====
-- What store/postgres/postgres.go calls of package pgx: the statements, and the answers of the
-- database. The database itself is an argument of the store.
use goaxon.Prelude.{ℕ, String, Option, List}
use goaxon.Go.Error.{GoError}
use goaxon.Go.Outcome.{Outcome, Exec}
use goaxon.Go.Word.{ℤ}
use goaxon.Event.{Uuid, Time, Ctx}

-- A row of the table `events`; the columns of type jsonb are texts of JSON.
pub record EventRow : Type 0 where
  pub aggregate_id : Uuid
  pub aggregate_type : String
  pub sequence : ℤ
  pub event_type : String
  pub payload : String
  pub metadata : String
  pub occurred_at : Time

-- A row of the table `outbox`: a column `dispatched_at` that is not NULL has a time.
pub record OutboxRow : Type 0 where
  pub id : ℕ
  pub event : EventRow
  pub dispatched_at : Option Time

-- The statements that change a table, with their arguments.
pub data Statement : Type 0 where
  -- INSERT INTO events
  insert_event_row : EventRow → Statement
  -- INSERT INTO outbox, whose id the database draws
  insert_outbox_row : EventRow → Statement
  -- UPDATE outbox SET dispatched_at = now() WHERE id = ANY($1)
  mark_dispatched : List ℕ → Statement

-- `pgx.Rows`, as a loop over `Next` sees them: the answer of `Scan` for each row, and `Err` at the
-- end.
pub record Rows (R : Type 0) : Type 0 where
  pub scans : List (Outcome R)
  pub end_error : Option GoError

-- The connection pool, with transactions of type `Tx`.
pub record Pgx (W Tx : Type 0) : Type 0 where
  -- `pgx.BeginFunc(ctx, pool, fn)`
  pub begin_func : Ctx → (Tx → Exec W Unit) → Exec W Unit
  -- `pool.Begin`
  pub begin : Ctx → Exec W Tx
  -- `tx.Exec`
  pub exec : Tx → Ctx → Statement → W → W × Option GoError
  -- SELECT COALESCE(MAX(sequence), 0) FROM events WHERE aggregate_id = $1, scanned
  pub select_head : Tx → Ctx → Uuid → Exec W ℤ
  -- SELECT ... FROM outbox WHERE dispatched_at IS NULL ORDER BY id LIMIT $1 FOR UPDATE SKIP LOCKED
  pub select_pending : Tx → Ctx → ℤ → Exec W (Rows OutboxRow)
  -- SELECT ... FROM events WHERE aggregate_id = $1 ORDER BY sequence, outside a transaction
  pub select_events : Ctx → Uuid → Exec W (Rows EventRow)
  pub commit : Tx → Ctx → W → W × Option GoError
  pub rollback : Tx → Ctx → W → W × Option GoError
