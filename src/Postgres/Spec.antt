-- ===== src/Postgres/Spec.antt =====
-- What store/postgres/postgres.go relies on of Postgres and of package pgx, as an interface: the
-- tables, what a transaction has changed, and the documented effect of each call. No other session
-- writes the two tables meanwhile.
use goaxon.Prelude.{
  ℕ, suc, ◌-◌, String, none, List, [], ◌∷◌, ◌++◌, ◌≡◌, ◌≢◌, ◌⊎◌, map, take, nat_eq,
}
use goaxon.Go.Outcome.{Done, ok, Exec, of_error}
use goaxon.Go.Word.{ℤ}
use goaxon.Event.{Uuid, Time, Ctx}
use goaxon.Postgres.Database.{
  EventRow, OutboxRow, Statement, insert_event_row, insert_outbox_row, mark_dispatched, Rows, Pgx,
}
use goaxon.Postgres.Tables.{
  Tables, Change, added_event, added_outbox, marked, apply_all, rows_of, by_sequence, max_sequence,
  or_zero, pending_rows, limit, AscendsFrom,
}

-- The rows that were selected, if the loop over them sees no error.
abbrev pub Selected : {R : Type 0} → Rows R → List R → Type 0
Selected rows l = (m : List _) → rows.scans ≡ map ok m → rows.end_error ≡ none → m ≡ l

pub record PgxSpec {W Tx : Type 0} (db : Pgx W Tx) : Type 0 where
  -- the tables as committed, what an open transaction has changed, and how many are open
  pub tables : W → Tables
  pub changes : W → Tx → List Change
  pub open_count : W → ℕ
  -- a text of JSON and a time, as a column gives them back
  pub jsonb : String → String
  pub timestamptz : Time → Time
  -- `outbox.id` is drawn from a sequence.
  pub ascends : (w : W) → AscendsFrom 0 (tables w).outbox
  pub begin_ok :
      (ctx : Ctx) (w w' : W) (tx : Tx)
      → db.begin ctx w ≡ (w', ok tx)
      → (tables w' ≡ tables w) × (changes w' tx ≡ []) × (open_count w' ≡ suc (open_count w))
  pub begin_failed :
      (ctx : Ctx) (w : W)
      → ((tx : Tx) → (db.begin ctx w).1 ≢ ok tx)
      → (tables (db.begin ctx w).0 ≡ tables w) × (open_count (db.begin ctx w).0 ≡ open_count w)
  -- A statement changes no table before the commit.
  pub exec_keeps :
      (tx : Tx) (ctx : Ctx) (s : Statement) (w : W)
      → (tables (db.exec tx ctx s w).0 ≡ tables w)
        × (open_count (db.exec tx ctx s w).0 ≡ open_count w)
  pub exec_event :
      (tx : Tx) (ctx : Ctx) (row : EventRow) (w : W)
      → (db.exec tx ctx (insert_event_row row) w).1 ≡ none
      → changes (db.exec tx ctx (insert_event_row row) w).0 tx
        ≡ changes w tx
          ++ added_event (record row {
            payload = jsonb row.payload;
            metadata = jsonb row.metadata;
            occurred_at = timestamptz row.occurred_at;
          })
            ∷ []
  pub exec_outbox :
      (tx : Tx) (ctx : Ctx) (row : EventRow) (w : W)
      → (db.exec tx ctx (insert_outbox_row row) w).1 ≡ none
      → (id : ℕ) × (changes (db.exec tx ctx (insert_outbox_row row) w).0 tx
          ≡ changes w tx
            ++ added_outbox id (record row {
              payload = jsonb row.payload;
              metadata = jsonb row.metadata;
              occurred_at = timestamptz row.occurred_at;
            })
              ∷ [])
  pub exec_mark :
      (tx : Tx) (ctx : Ctx) (ids : List ℕ) (w : W)
      → (db.exec tx ctx (mark_dispatched ids) w).1 ≡ none
      → (t : Time) × (changes (db.exec tx ctx (mark_dispatched ids) w).0 tx
          ≡ changes w tx ++ marked ids t ∷ [])
  -- A query changes nothing, and sees the transaction's own changes.
  pub head_keeps :
      (tx : Tx) (ctx : Ctx) (id : Uuid) (w : W)
      → (tables (db.select_head tx ctx id w).0 ≡ tables w)
        × (changes (db.select_head tx ctx id w).0 tx ≡ changes w tx)
  pub head_ok :
      (tx : Tx) (ctx : Ctx) (id : Uuid) (w : W) (n : ℤ)
      → (db.select_head tx ctx id w).1 ≡ ok n
      → n ≡ or_zero (max_sequence (rows_of id (apply_all (changes w tx) (tables w)).events))
  pub pending_keeps :
      (tx : Tx) (ctx : Ctx) (n : ℤ) (w : W)
      → (tables (db.select_pending tx ctx n w).0 ≡ tables w)
        × (changes (db.select_pending tx ctx n w).0 tx ≡ changes w tx)
        × (open_count (db.select_pending tx ctx n w).0 ≡ open_count w)
  -- where no other transaction has locked a row
  pub pending_ok :
      (tx : Tx) (ctx : Ctx) (n : ℤ) (w : W) (rows : Rows OutboxRow)
      → (db.select_pending tx ctx n w).1 ≡ ok rows
      → Selected rows (take (limit n) (pending_rows (apply_all (changes w tx) (tables w)).outbox))
  pub events_keep :
      (ctx : Ctx) (id : Uuid) (w : W) → tables (db.select_events ctx id w).0 ≡ tables w
  pub events_ok :
      (ctx : Ctx) (id : Uuid) (w : W) (rows : Rows EventRow)
      → (db.select_events ctx id w).1 ≡ ok rows
      → Selected rows (by_sequence (rows_of id (tables w).events))
  -- A commit that reports an error may have happened all the same.
  pub commit_ok :
      (tx : Tx) (ctx : Ctx) (w : W)
      → (db.commit tx ctx w).1 ≡ none
      → tables (db.commit tx ctx w).0 ≡ apply_all (changes w tx) (tables w)
  pub commit_failed :
      (tx : Tx) (ctx : Ctx) (w : W)
      → (tables (db.commit tx ctx w).0 ≡ tables w)
        ⊎ (tables (db.commit tx ctx w).0 ≡ apply_all (changes w tx) (tables w))
  pub rollback_keeps : (tx : Tx) (ctx : Ctx) (w : W) → tables (db.rollback tx ctx w).0 ≡ tables w
  -- Either end gives the connection back.
  pub commit_ends :
      (tx : Tx) (ctx : Ctx) (w : W) → open_count (db.commit tx ctx w).0 ≡ open_count w - 1
  pub rollback_ends :
      (tx : Tx) (ctx : Ctx) (w : W) → open_count (db.rollback tx ctx w).0 ≡ open_count w - 1

-- A row as it is read back from its table.
abbrev pub stored : {W Tx : Type 0} {db : Pgx W Tx} → PgxSpec db → EventRow → EventRow
stored spec row = record row {
  payload = spec.jsonb row.payload;
  metadata = spec.jsonb row.metadata;
  occurred_at = spec.timestamptz row.occurred_at;
}

-- How `pgx.BeginFunc` ends: it does not begin; or it runs the function in a new transaction, and
-- commits where it returns nil, and else rolls back and returns an error, the function's own
-- if the rollback succeeds.
pub data BeginFuncEnd {W Tx : Type 0} {db : Pgx W Tx} (spec : PgxSpec db) (ctx : Ctx)
    (fn : Tx → Exec W Unit) (w w' : W) (result : Done) : Type 0 where
  not_begun : spec.tables w' ≡ spec.tables w → result ≢ ok tt → BeginFuncEnd spec ctx fn w w' result
  committed :
      (tx : Tx) (v u : W)
      → spec.tables v ≡ spec.tables w
      → spec.changes v tx ≡ []
      → fn tx v ≡ (u, ok tt)
      → w' ≡ (db.commit tx ctx u).0
      → result ≡ of_error (db.commit tx ctx u).1
      → BeginFuncEnd spec ctx fn w w' result
  rolled_back :
      (tx : Tx) (v : W)
      → spec.tables v ≡ spec.tables w
      → spec.changes v tx ≡ []
      → (fn tx v).1 ≢ ok tt
      → w' ≡ (db.rollback tx ctx (fn tx v).0).0
      → result ≢ ok tt
      → ((db.rollback tx ctx (fn tx v).0).1 ≡ none → result ≡ (fn tx v).1)
      → BeginFuncEnd spec ctx fn w w' result

abbrev pub BeginFuncSpec : {W Tx : Type 0} {db : Pgx W Tx} → PgxSpec db → Type 0
BeginFuncSpec {W} {Tx} {db} spec =
    (ctx : Ctx) (fn : Tx → Exec W Unit) (w : W)
    → BeginFuncEnd spec ctx fn w (db.begin_func ctx fn w).0 (db.begin_func ctx fn w).1
