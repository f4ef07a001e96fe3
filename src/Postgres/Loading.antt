-- ===== src/Postgres/Loading.antt =====
-- store/postgres/postgres.go: `Load` after `Append`.
use goaxon.Prelude.{
  ℕ, ◌+◌, ◌<◌, String, Option, none, List, [], ◌∷◌, ◌++◌, map, length, length-append, ◌≡◌, ◌≢◌,
  refl, ap, sym, subst, ◌∙◌, arith, append-ne-nil,
}
use goaxon.Go.Error.{GoError, wrapped}
use goaxon.Go.Exec.{then_run, lift}
use goaxon.Go.Outcome.{Outcome, Done, ok, wrap_err, ◌>>=◌}
use goaxon.Go.Word.{from_i64, to_i64, from_i64-to_i64, i64_bound, u64_mod}
use goaxon.Event.{Uuid, Ctx, Event, Envelope}
use goaxon.Event.Registry.{Registry, unmarshal}
use goaxon.Event.Spec.{Numbered, Numbered-append}
use goaxon.Postgres.{append, load, row_of}
use goaxon.Postgres.Appending.{AppendEnd, written, unwritten, append-AppendEnd}
use goaxon.Postgres.Database.{EventRow, Rows, Pgx}
use goaxon.Postgres.History.{
  Recorded, Recorded-append, Written-Recorded, events-apply_all, rows_of-append, rows_of-Recorded,
  by_sequence-Recorded, head-Recorded, new_rows,
}
use goaxon.Postgres.Scan.{
  Json, Metadata, read_metadata, envelope_of, scan_events, load_rows, at_end, not_empty,
}
use goaxon.Postgres.Spec.{PgxSpec, BeginFuncSpec, stored}
use goaxon.Postgres.Tables.{rows_of}

module _ {W Tx E : Type 0} (ev : Event E) (registry : Registry E) (json : Json E) (db : Pgx W Tx)
    (spec : PgxSpec db)
    (reads : (e : E) (s : String)
      → json.marshal e ≡ ok s
      → unmarshal registry (ev.event_type e) (spec.jsonb s) ≡ ok e)
    (reads_metadata : (m : Metadata) (s : String)
      → json.marshal_metadata m ≡ ok s
      → read_metadata json (spec.jsonb s) ≡ ok m) where
  -- An envelope with the time that the column gives back.
  abbrev pub restamp : Envelope E → Envelope E
  restamp env = record env { timestamp = spec.timestamptz env.timestamp }

  pub envelope_of-stored :
      (before payload metadata : String) (env : Envelope E)
      → json.marshal env.payload ≡ ok payload
      → json.marshal_metadata env.metadata ≡ ok metadata
      → env.sequence < u64_mod
      → envelope_of registry json before (stored spec (row_of ev env payload metadata))
        ≡ ok (restamp env)
  envelope_of-stored before payload metadata env p m small =
      ap
        (λ r. r >>= λ x.
          wrap_err fail (read_metadata json (spec.jsonb metadata)) >>= λ y. ok (made x y k))
        (reads env.payload payload p)
      ∙ ap (λ r. wrap_err fail r >>= λ y. ok (made env.payload y k))
          (reads_metadata env.metadata metadata m)
      ∙ ap (λ n. ok (made env.payload env.metadata n)) (from_i64-to_i64 env.sequence small)
    where
      fail : GoError → GoError
      fail e = wrapped before e ""

      k : ℕ
      k = from_i64 (to_i64 env.sequence)

      made : E → Metadata → ℕ → Envelope E
      made x y n = record {
        aggregate_id = env.aggregate_id;
        aggregate_type = env.aggregate_type;
        sequence = n;
        timestamp = spec.timestamptz env.timestamp;
        payload = x;
        metadata = y;
      }

  scan_events-Recorded :
      (id : Uuid) (n : ℕ) (envs : List (Envelope E)) (rows : List EventRow)
      → Numbered id n envs
      → n + length envs < i64_bound
      → Recorded ev json db spec envs rows
      → scan_events registry json (map ok rows) ≡ ok (map restamp envs)
  unfolding scan_events
  scan_events-Recorded id n [] [] num small h = refl
  scan_events-Recorded id n [] (row ∷ rows) num small h = absurd h
  scan_events-Recorded id n (env ∷ envs) [] num small h = absurd h
  scan_events-Recorded id n (env ∷ envs) (row ∷ rows) (_, s, num) small ((p, m, hp, hm, is), h) =
      let rest = scan_events-Recorded id (n + 1) envs rows num (omega (arith, small)) h in
      ap (λ r. r >>= λ x. scan_events registry json (map ok rows) >>= λ xs. ok (x ∷ xs))
        (ap (envelope_of registry json "postgres: unmarshal metadata: ") is
          ∙ envelope_of-stored "postgres: unmarshal metadata: " p m env hp hm
              (omega (arith, s, small)))
      ∙ ap (λ r. r >>= λ xs. ok (restamp env ∷ xs)) rest

  -- `Load` of a stream that is recorded, if the query returns all its rows.
  load-Recorded :
      (ctx : Ctx) (id : Uuid) (envs : List (Envelope E)) (v : W)
      → envs ≢ []
      → Numbered id 0 envs
      → length envs < i64_bound
      → Recorded ev json db spec envs (rows_of id (spec.tables v).events)
      → (rows : Rows EventRow) (l : List EventRow) → (db.select_events ctx id v).1 ≡ ok rows
      → rows.scans ≡ map ok l
      → rows.end_error ≡ none
      → (load registry json db ctx id v).1 ≡ ok (map restamp envs)
  unfolding load load_rows
  load-Recorded ctx id envs v some_events num small h rows l answer scanned ended =
      ap
        (λ r.
          (then_run (db.select_events ctx id v).0 (wrap_err fail r)
            (λ rows. lift (load_rows registry json rows))).1)
        answer
      ∙ ap (λ s. read s rows.end_error) (scanned ∙ ap (map ok) selected)
      ∙ ap (read (map ok kept)) ended
      ∙ ap (λ r. r >>= at_end "postgres: rows: " none >>= not_empty registry json)
          (scan_events-Recorded id 0 envs kept num (omega (arith, small)) h)
      ∙ nonempty envs some_events
    where
      fail : GoError → GoError
      fail e = wrapped "postgres: query: " e ""

      kept : List EventRow
      kept = rows_of id (spec.tables v).events

      read : List (Outcome EventRow) → Option GoError → Outcome (List (Envelope E))
      read s e =
          scan_events registry json s >>= at_end "postgres: rows: " e >>= not_empty registry json

      selected : l ≡ kept
      selected =
          spec.events_ok ctx id v rows answer l scanned ended
          ∙ by_sequence-Recorded ev json db spec id 0 envs kept num (omega (arith, small)) h

      nonempty :
          (l : List (Envelope E))
          → l ≢ []
          → not_empty registry json (map restamp l) ≡ ok (map restamp l)
      nonempty [] n = absurd (n refl)
      nonempty (x ∷ xs) n = refl

  append-Recorded :
      BeginFuncSpec spec
      → (ctx : Ctx) (id : Uuid) (expected : ℕ) (history events : List (Envelope E)) (w : W)
      → Recorded ev json db spec history (rows_of id (spec.tables w).events)
      → Numbered id 0 history
      → Numbered id (length history) events
      → length history + length events < i64_bound
      → events ≢ []
      → (append ev json db ctx id expected events w).1 ≡ ok tt
      → let w' = (append ev json db ctx id expected events w).0 in
        (length history ≡ expected)
        × Recorded ev json db spec (history ++ events) (rows_of id (spec.tables w').events)
  append-Recorded begins ctx id expected history events w past counted more small some_events done =
      by_end (append-AppendEnd ev json db spec begins ctx id expected events w some_events) done
    where
      old : List EventRow
      old = rows_of id (spec.tables w).events

      by_end :
          {w' : W} {result : Done}
          → AppendEnd ev json db spec ctx id expected events w w' result
          → result ≡ ok tt
          → (length history ≡ expected)
            × Recorded ev json db spec (history ++ events) (rows_of id (spec.tables w').events)
      by_end (written tx u at all applied r) h =
          let added = new_rows (spec.changes u tx) in
          let recorded = Written-Recorded ev json db spec all in
          (
            sym (head-Recorded ev json db spec id history old counted (omega (arith, small)) past)
                ∙ at,
            subst (Recorded ev json db spec (history ++ events))
                (sym (
                  ap (λ t. rows_of id t.events) applied
                  ∙ ap (rows_of id) (events-apply_all (spec.changes u tx) (spec.tables w))
                  ∙ rows_of-append id (spec.tables w).events added
                  ∙ ap (λ l. old ++ l)
                      (rows_of-Recorded ev json db spec id (length history) events added more
                        recorded)))
                (Recorded-append ev json db spec history events old added past recorded),
          )
      by_end (unwritten same bad) h = absurd (bad h)

  -- On a database that meets PgxSpec and BeginFuncSpec, with a JSON codec whose texts still read
  -- back from a jsonb column: where a stream holds the rows of an envelope list that counts up
  -- from 1, and an `Append` of envelopes that count on from there returns nil, short of 2^63
  -- events, the expected version was the length of the stream, and from then on, as long as the
  -- tables stay so, a `Load` whose query returns every row returns the old envelopes and then the
  -- new ones, each with its time as the column gives it back.
  pub append-load :
      BeginFuncSpec spec
      → (ctx : Ctx) (id : Uuid) (expected : ℕ) (history events : List (Envelope E)) (w : W)
      → Recorded ev json db spec history (rows_of id (spec.tables w).events)
      → Numbered id 0 history
      → Numbered id (length history) events
      → length history + length events < i64_bound
      → events ≢ []
      → (append ev json db ctx id expected events w).1 ≡ ok tt
      → (ctx' : Ctx) (v : W)
      → spec.tables v ≡ spec.tables (append ev json db ctx id expected events w).0
      → (rows : Rows EventRow) (l : List EventRow) → (db.select_events ctx' id v).1 ≡ ok rows
      → rows.scans ≡ map ok l
      → rows.end_error ≡ none
      → (length history ≡ expected)
        × ((load registry json db ctx' id v).1 ≡ ok (map restamp (history ++ events)))
  append-load begins ctx id expected history events w past counted more small some_events done ctx'
        v same rows l answer scanned ended =
      let (at, recorded) =
        append-Recorded begins ctx id expected history events w past counted more small some_events
          done in
      (
        at,
        load-Recorded ctx' id (history ++ events) v (append-ne-nil history events some_events)
            (Numbered-append id 0 history events counted
              (subst (λ k. Numbered id k events) (omega arith) more))
            (omega (arith, small, length-append history events))
            (subst (λ t. Recorded ev json db spec (history ++ events) (rows_of id t.events))
              (sym same) recorded)
            rows l answer scanned ended,
      )
