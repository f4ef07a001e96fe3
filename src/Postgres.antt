-- ===== src/Postgres.antt =====
-- store/postgres/postgres.go: the event store and the outbox over a Postgres pool.
pub mod Database
pub mod Scan
pub mod Tables
pub mod Spec
pub mod Inserting
pub mod Appending
pub mod Progress
pub mod Queue
pub mod Claims
pub mod Marking
pub mod Connections
pub mod History
pub mod Loading
pub mod Delivery
pub mod Saved
pub mod Sync
pub mod Reachable
pub mod Bounds
pub mod Locks
pub mod Keys
use Prim.Native.String.{◌++◌ as cat}
use goaxon.Prelude.{
  ℕ, String, Bool, true, false, ◌||◌, Option, none, some, List, [], ◌∷◌, nat_beq, nat_eq, string_eq,
  ◌==◌, if◌then◌else◌,
}
use goaxon.Go.Error.{
  GoError, sentinel, wrapped, concurrency_conflict, stream_not_found, as_pg_error,
}
use goaxon.Go.Outcome.{Outcome, Done, ok, err, panics, Exec, of_error, wrap_err}
use goaxon.Go.Exec.{pure, fail, lift, map_err, ◌>>=◌, ◌>>◌}
use goaxon.Go.Map.{Map}
use goaxon.Go.Word.{ℤ, to_i64, from_i64, is_not_positive}
use goaxon.Event.{Uuid, Ctx, Event, Envelope, Store}
use goaxon.Event.Outbox.{OutboxEntry, Claim, Outbox}
use goaxon.Event.Registry.{Registry, unmarshal}
use goaxon.Postgres.Scan.{Json, scan_outbox_rows, load_rows}
use goaxon.Postgres.Database.{
  EventRow, OutboxRow, Statement, insert_event_row, insert_outbox_row, mark_dispatched, Rows, Pgx,
}

-- `isUniqueViolation`
abbrev pub is_code : Option String → Bool
is_code none = false
is_code (some code) = code == "23505"

unfoldable pub is_unique_violation : GoError → Bool
is_unique_violation e = is_code (as_pg_error e)

-- The error that an insertion into `events` is reported as.
abbrev pub insertion_error : GoError → GoError
insertion_error e =
    if is_unique_violation e
    then sentinel concurrency_conflict
    else wrapped "postgres: insert event: " e ""

-- `if err != nil` after `tx.Exec`
abbrev pub executed : {W : Type 0} → (GoError → GoError) → W × Option GoError → W × Done
executed f (w, e) = (w, wrap_err f (of_error e))

abbrev pub wrapped_as : {W : Type 0} → String → W × Option GoError → W × Option GoError
wrapped_as before (w, none) = (w, none)
wrapped_as before (w, some e) = (w, some (wrapped before e ""))

abbrev pub row_of : {E : Type 0} → Event E → Envelope E → String → String → EventRow
row_of ev env payload metadata = record {
  aggregate_id = env.aggregate_id;
  aggregate_type = env.aggregate_type;
  sequence = to_i64 env.sequence;
  event_type = ev.event_type env.payload;
  payload = payload;
  metadata = metadata;
  occurred_at = env.timestamp;
}

-- A `claim` without a transaction.
abbrev pub empty_claim : {W E : Type 0} → Claim W E
empty_claim = record { entries = []; commit = λ _ _ w. (w, none); release = λ _ w. (w, none) }

module _ {W Tx : Type 0} (db : Pgx W Tx) where
  abbrev pub add_event : Tx → Ctx → EventRow → Exec W Unit
  add_event tx ctx row w = executed insertion_error (db.exec tx ctx (insert_event_row row) w)

  abbrev pub add_outbox : Tx → Ctx → EventRow → Exec W Unit
  add_outbox tx ctx row w =
      executed (λ e. wrapped "postgres: insert outbox: " e "")
        (db.exec tx ctx (insert_outbox_row row) w)

  abbrev pub insert_row : Tx → Ctx → EventRow → Exec W Unit
  insert_row tx ctx row = add_event tx ctx row >> add_outbox tx ctx row

  -- `Commit` of a claim once the rows are marked, or where there are none to mark.
  abbrev pub after_mark : Tx → Ctx → W × Option GoError → W × Option GoError
  after_mark tx ctx (w, none) = wrapped_as "postgres: claim commit: " (db.commit tx ctx w)
  after_mark tx ctx (w, some e) =
      ((db.rollback tx ctx w).0, some (wrapped "postgres: claim mark dispatched: " e ""))

  abbrev pub commit_claim : Tx → Ctx → List ℕ → W → W × Option GoError
  commit_claim tx ctx [] w = after_mark tx ctx (w, none)
  commit_claim tx ctx (id ∷ ids) w =
      after_mark tx ctx (db.exec tx ctx (mark_dispatched (id ∷ ids)) w)

  -- A `claim` with a transaction; its two ends are `Commit` and `Release`.
  abbrev pub open_claim : {E : Type 0} → Tx → List (OutboxEntry E) → Claim W E
  open_claim tx entries = record {
    entries = entries;
    commit = commit_claim tx;
    release = λ ctx w. wrapped_as "postgres: claim release: " (db.rollback tx ctx w);
  }

  abbrev pub after_empty : {E : Type 0} → W × Option GoError → W × Outcome (Claim W E)
  after_empty (w, none) = (w, ok empty_claim)
  after_empty (w, some e) = (w, err (wrapped "postgres: claim rollback empty: " e ""))

  -- `Claim` once the rows are scanned.
  abbrev pub after_scan :
      {E : Type 0} → Tx → Ctx → Outcome (List (OutboxEntry E)) → W → W × Outcome (Claim W E)
  after_scan tx ctx (ok []) w = after_empty (db.rollback tx ctx w)
  after_scan tx ctx (ok (entry ∷ entries)) w = (w, ok (open_claim tx (entry ∷ entries)))
  after_scan tx ctx (err e) w = ((db.rollback tx ctx w).0, err e)
  after_scan tx ctx (panics m) w = (w, panics m)

module _ {W Tx E : Type 0} (ev : Event E) (json : Json E) (db : Pgx W Tx) where
  abbrev pub marshal_payload : Envelope E → Outcome String
  marshal_payload env =
      wrap_err
        (λ e.
          wrapped (cat "postgres: marshal payload " (cat (ev.event_type env.payload) ": ")) e "")
        (json.marshal env.payload)

  abbrev pub marshal_metadata : Envelope E → Outcome String
  marshal_metadata env =
      wrap_err (λ e. wrapped "postgres: marshal metadata: " e "")
        (json.marshal_metadata env.metadata)

  abbrev pub insert_marshaled : Tx → Ctx → Envelope E → String → Exec W Unit
  insert_marshaled tx ctx env payload = do
    metadata ← lift (marshal_metadata env)
    insert_row db tx ctx (row_of ev env payload metadata)

  -- `insertEvent`
  unfoldable pub insert_event : Tx → Ctx → Envelope E → Exec W Unit
  insert_event tx ctx env = do
    payload ← lift (marshal_payload env)
    insert_marshaled tx ctx env payload

  -- The loop over the events.
  unfoldable pub insert_all : Tx → Ctx → List (Envelope E) → Exec W Unit
  insert_all tx ctx [] = pure tt
  insert_all tx ctx (env ∷ envs) = insert_event tx ctx env >> insert_all tx ctx envs

  -- `if uint64(head) != expectedVersion`
  abbrev pub at_head : Bool → Tx → Ctx → List (Envelope E) → Exec W Unit
  at_head true tx ctx events = insert_all tx ctx events
  at_head false tx ctx events = fail (sentinel concurrency_conflict)

  abbrev pub check_head : Tx → Ctx → Uuid → Exec W ℤ
  check_head tx ctx id =
      map_err (wrap_err λ e. wrapped "postgres: head check: " e "") (db.select_head tx ctx id)

  -- The function that `Append` runs in its transaction.
  unfoldable pub append_in : Ctx → Uuid → ℕ → List (Envelope E) → Tx → Exec W Unit
  append_in ctx id expected events tx = do
    head ← check_head tx ctx id
    at_head (nat_beq (from_i64 head) expected) tx ctx events

  -- `Append`
  unfoldable pub append : Ctx → Uuid → ℕ → List (Envelope E) → Exec W Unit
  append ctx id expected [] = pure tt
  append ctx id expected (env ∷ envs) = db.begin_func ctx (append_in ctx id expected (env ∷ envs))

module _ {W Tx E : Type 0} (registry : Registry E) (json : Json E) (db : Pgx W Tx) where
  -- `Load`
  unfoldable pub load : Ctx → Uuid → Exec W (List (Envelope E))
  load ctx id = do
    rows ← map_err (wrap_err λ e. wrapped "postgres: query: " e "") (db.select_events ctx id)
    lift (load_rows registry json rows)

  abbrev pub after_query : Tx → Ctx → W × Outcome (Rows OutboxRow) → W × Outcome (Claim W E)
  after_query tx ctx (w, ok rows) = after_scan db tx ctx (scan_outbox_rows registry json rows) w
  after_query tx ctx (w, err e) =
      ((db.rollback tx ctx w).0, err (wrapped "postgres: claim query: " e ""))
  after_query tx ctx (w, panics m) = (w, panics m)

  abbrev pub after_begin : Ctx → ℤ → W × Outcome Tx → W × Outcome (Claim W E)
  after_begin ctx n (w, ok tx) = after_query tx ctx (db.select_pending tx ctx n w)
  after_begin ctx n (w, err e) = (w, err (wrapped "postgres: claim begin: " e ""))
  after_begin ctx n (w, panics m) = (w, panics m)

  -- `Claim`
  unfoldable pub claim : Ctx → ℤ → Exec W (Claim W E)
  claim ctx n w =
      if is_not_positive n then (w, ok empty_claim) else after_begin ctx n (db.begin ctx w)

-- The store as an `event.Store` and as an `event.Outbox`.
abbrev pub postgres_store : {W Tx E : Type 0} → Event E → Registry E → Json E → Pgx W Tx → Store W E
postgres_store ev registry json db = record {
  append = append ev json db;
  load = load registry json db;
  has_outbox = true;
}

abbrev pub postgres_outbox : {W Tx E : Type 0} → Registry E → Json E → Pgx W Tx → Outbox W E
postgres_outbox registry json db = record { claim = claim registry json db }
