-- ===== src/Postgres/Scan.antt =====
-- store/postgres/postgres.go: from rows to envelopes.
use goaxon.Prelude.{String, ◌||◌, Option, none, some, List, [], ◌∷◌, string_eq, ◌==◌, if◌then◌else◌}
use goaxon.Go.Error.{GoError, sentinel, wrapped, stream_not_found}
use goaxon.Go.Outcome.{Outcome, ok, err, wrap_err, ◌>>=◌}
use goaxon.Go.Map.{Map}
use goaxon.Go.Word.{from_i64}
use goaxon.Event.{Envelope}
use goaxon.Event.Outbox.{OutboxEntry}
use goaxon.Event.Registry.{Registry, unmarshal}
use goaxon.Postgres.Database.{EventRow, OutboxRow, Rows}

abbrev pub Metadata : Type 0
Metadata = Option (Map String String)

-- Package encoding/json on what the store writes: an event, and a `map[string]string` or nil; and
-- on what it reads as such a map.
pub record Json (E : Type 0) : Type 0 where
  pub marshal : E → Outcome String
  pub marshal_metadata : Metadata → Outcome String
  pub unmarshal_metadata : String → Outcome (Map String String)

-- `if len(raw) > 0 && string(raw) != "null" { json.Unmarshal(raw, &metadata) }`
abbrev pub read_metadata : {E : Type 0} → Json E → String → Outcome Metadata
read_metadata json raw =
    if (raw == "") || (raw == "null")
    then ok none
    else (do m ← json.unmarshal_metadata raw; ok (some m))

-- `rows.Err()` after the loop
abbrev pub at_end : {A : Type 0} → String → Option GoError → A → Outcome A
at_end before none a = ok a
at_end before (some e) a = err (wrapped before e "")

module _ {E : Type 0} (registry : Registry E) (json : Json E) where
  -- The envelope of a row, whose payload and metadata are decoded in this order.
  abbrev pub envelope_of : String → EventRow → Outcome (Envelope E)
  envelope_of before row = do
    payload ← unmarshal registry row.event_type row.payload
    metadata ← wrap_err (λ e. wrapped before e "") (read_metadata json row.metadata)
    ok (record {
      aggregate_id = row.aggregate_id;
      aggregate_type = row.aggregate_type;
      sequence = from_i64 row.sequence;
      timestamp = row.occurred_at;
      payload = payload;
      metadata = metadata;
    })

  -- The loop of `scanOutboxRows`.
  unfoldable pub scan_outbox : List (Outcome OutboxRow) → Outcome (List (OutboxEntry E))
  scan_outbox [] = ok []
  scan_outbox (scan ∷ scans) = do
    row ← wrap_err (λ e. wrapped "postgres: outbox scan: " e "") scan
    env ← envelope_of "postgres: outbox metadata: " row.event
    rest ← scan_outbox scans
    ok (record { outbox_id = row.id; envelope = env } ∷ rest)

  -- `scanOutboxRows`
  unfoldable pub scan_outbox_rows : Rows OutboxRow → Outcome (List (OutboxEntry E))
  scan_outbox_rows rows = scan_outbox rows.scans >>= at_end "postgres: outbox rows: " rows.end_error

  -- The loop of `Load`.
  unfoldable pub scan_events : List (Outcome EventRow) → Outcome (List (Envelope E))
  scan_events [] = ok []
  scan_events (scan ∷ scans) = do
    row ← wrap_err (λ e. wrapped "postgres: scan: " e "") scan
    env ← envelope_of "postgres: unmarshal metadata: " row
    rest ← scan_events scans
    ok (env ∷ rest)

  -- What `Load` does with the envelopes.
  abbrev pub not_empty : List (Envelope E) → Outcome (List (Envelope E))
  not_empty [] = err (sentinel stream_not_found)
  not_empty (env ∷ envs) = ok (env ∷ envs)

  unfoldable pub load_rows : Rows EventRow → Outcome (List (Envelope E))
  load_rows rows = scan_events rows.scans >>= at_end "postgres: rows: " rows.end_error >>= not_empty
