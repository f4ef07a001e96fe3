-- ===== src/Postgres/Delivery.antt =====
-- store/postgres/postgres.go and event/dispatcher.go: from `Append` to the bus.
use goaxon.Prelude.{
  ℕ, ◌<◌, String, Option, none, some, List, [], ◌∷◌, ◌++◌, append-nil, append_assoc, map, ◌≡◌, refl,
  ap, sym, subst, ◌∙◌,
}
use goaxon.Go.Error.{GoError}
use goaxon.Go.Outcome.{Done, ok}
use goaxon.Go.Word.{u64_mod}
use goaxon.Event.{Uuid, Ctx, Time, Event, Envelope}
use goaxon.Event.Delivery.{Keeps}
use goaxon.Event.Outbox.{OutboxEntry}
use goaxon.Event.Registry.{Registry, unmarshal}
use goaxon.Event.Dispatcher.{Dispatcher, Wake, run}
use goaxon.Event.Dispatcher.Running.{TookIn, run-Drained}
use goaxon.Postgres.{append, postgres_outbox, row_of}
use goaxon.Postgres.Appending.{AppendEnd, written, unwritten, append-AppendEnd}
use goaxon.Postgres.Claims.{queue_in}
use goaxon.Postgres.Database.{Pgx, EventRow, OutboxRow}
use goaxon.Postgres.Inserting.{Written, written_none, written_row}
use goaxon.Postgres.Loading.{restamp, envelope_of-stored}
use goaxon.Postgres.Marking.{postgres_outbox_state}
use goaxon.Postgres.Queue.{decoded, decoded-append, with_entry}
use goaxon.Postgres.Scan.{Json, Metadata, read_metadata, envelope_of}
use goaxon.Postgres.Spec.{PgxSpec, BeginFuncSpec, stored}
use goaxon.Postgres.Tables.{Tables, Change, apply_all, pending_rows, when_pending}

-- The envelopes of a queue.
abbrev pub contents : {E : Type 0} → List (OutboxEntry E) → List (Envelope E)
contents l = map (λ x. x.envelope) l

-- The sequences are `uint64`s.
abbrev pub InRange : {E : Type 0} → List (Envelope E) → Type 0
InRange [] = Unit
InRange (env ∷ envs) = (env.sequence < u64_mod) × InRange envs

contents-append :
    {E : Type 0} (xs ys : List (OutboxEntry E)) → contents (xs ++ ys) ≡ contents xs ++ contents ys
contents-append [] ys = refl
contents-append (x ∷ xs) ys = ap (λ l. x.envelope ∷ l) (contents-append xs ys)

pending_rows-append :
    (xs ys : List OutboxRow) → pending_rows (xs ++ ys) ≡ pending_rows xs ++ pending_rows ys
pending_rows-append [] ys = refl
pending_rows-append (x ∷ xs) ys =
    at x.dispatched_at (ap (when_pending x.dispatched_at x) (pending_rows-append xs ys))
  where
    at :
        (t : Option Time)
        → when_pending t x (pending_rows (xs ++ ys))
          ≡ when_pending t x (pending_rows xs ++ pending_rows ys)
        → when_pending t x (pending_rows (xs ++ ys))
          ≡ when_pending t x (pending_rows xs) ++ pending_rows ys
    at none h = h
    at (some _) h = h

module _ {W Tx E : Type 0} (ev : Event E) (registry : Registry E) (json : Json E) (db : Pgx W Tx)
    (spec : PgxSpec db)
    (reads : (e : E) (s : String)
      → json.marshal e ≡ ok s
      → unmarshal registry (ev.event_type e) (spec.jsonb s) ≡ ok e)
    (reads_metadata : (m : Metadata) (s : String)
      → json.marshal_metadata m ≡ ok s
      → read_metadata json (spec.jsonb s) ≡ ok m) where
  abbrev pub queue : W → List (OutboxEntry E)
  queue w = queue_in registry json (spec.tables w)

  abbrev pub stamped : Envelope E → Envelope E
  stamped = restamp ev registry json db spec reads reads_metadata

  -- A row at the end of the outbox.
  added-contents :
      (t : Tables) (id : ℕ) (row : EventRow) (env : Envelope E)
      → envelope_of registry json "postgres: outbox metadata: " row ≡ ok env
      → let rows = t.outbox ++ record { id = id; event = row; dispatched_at = none } ∷ [] in
        contents (decoded registry json (pending_rows rows))
        ≡ contents (queue_in registry json t) ++ env ∷ []
  added-contents t id row env reads_back =
      ap (λ l. contents (decoded registry json l)) (pending_rows-append t.outbox _)
      ∙ ap contents (decoded-append registry json (pending_rows t.outbox) _)
      ∙ ap (λ r. contents (queue_in registry json t ++ with_entry id r [])) reads_back
      ∙ contents-append (queue_in registry json t) _

  Written-contents :
      {envs : List (Envelope E)} {cs : List Change} (t : Tables)
      → Written ev json db spec envs cs
      → InRange envs
      → contents (queue_in registry json (apply_all cs t))
        ≡ contents (queue_in registry json t) ++ map stamped envs
  Written-contents t written_none small = sym (append-nil _)
  Written-contents t (written_row env {envs} payload metadata id p m rest) (s, small) =
      Written-contents _ rest small
      ∙ ap (λ l. l ++ map stamped envs)
          (added-contents t id (stored spec (row_of ev env payload metadata)) (stamped env) (
            envelope_of-stored ev registry json db spec reads reads_metadata
              "postgres: outbox metadata: " payload metadata env p m s))
      ∙ append_assoc _ (stamped env ∷ []) (map stamped envs)

  -- On a database that meets PgxSpec and BeginFuncSpec, with a JSON codec whose texts still read
  -- back from a jsonb column: an `Append` that returns nil, of envelopes whose sequences are
  -- uint64s, puts exactly these envelopes, in order and each with its time as the column gives it
  -- back, behind the ones that the outbox had undispatched.
  pub append-queue :
      BeginFuncSpec spec
      → (ctx : Ctx) (id : Uuid) (expected : ℕ) (events : List (Envelope E)) (w : W) → InRange events
      → (append ev json db ctx id expected events w).1 ≡ ok tt
      → contents (queue (append ev json db ctx id expected events w).0)
        ≡ contents (queue w) ++ map stamped events
  unfolding append
  append-queue begins ctx id expected [] w small done = sym (append-nil _)
  append-queue begins ctx id expected (env ∷ envs) w small done =
      by_end (append-AppendEnd ev json db spec begins ctx id expected (env ∷ envs) w (λ p. cc p))
        done
    where
      by_end :
          {w' : W} {result : Done}
          → AppendEnd ev json db spec ctx id expected (env ∷ envs) w w' result
          → result ≡ ok tt
          → contents (queue w') ≡ contents (queue w) ++ map stamped (env ∷ envs)
      by_end (written tx u at all applied r) h =
          ap (λ t. contents (queue_in registry json t)) applied
          ∙ Written-contents (spec.tables w) all small
      by_end (unwritten same bad) h = absurd (bad h)

  -- What a bus and an error handler leave alone.
  abbrev pub database : W → Tables × (Tx → List Change)
  database w = (spec.tables w, spec.changes w)

  abbrev pub over_postgres : Dispatcher W E → Dispatcher W E
  over_postgres d = record d { outbox = postgres_outbox registry json db }

  module _ (print_id : ℕ → String) (d : Dispatcher W E) (quiet : Keeps d.bus database)
      (quiet_errors : (ctx : Ctx) (e : GoError) (w : W)
        → database (d.on_error ctx e w) ≡ database w) where
    -- The run of `wakes` from `w` publishes `envs`: these are envelopes that the bus took in it, in
    -- order, and then what is undispatched at its end.
    abbrev pub Publishes : List Wake → List (Envelope E) → W → Type 0
    Publishes wakes envs w =
        (taken : List (OutboxEntry E)) × (envs
          ≡ contents taken ++ contents (queue (run ev print_id (over_postgres d) wakes w).0))
        × TookIn ev print_id (over_postgres d) wakes w taken

    -- A run publishes what stood in the queue.
    pub run-Publishes : (wakes : List Wake) (w : W) → Publishes wakes (contents (queue w)) w
    run-Publishes wakes w =
        let (o, state, undispatched) = postgres_outbox_state registry json db spec in
        let at_state : (v : W) → o.state v ≡ database v = λ v. ap (λ f. f v) state in
        let same_queue : (v : W) → o.undispatched (o.state v) ≡ queue v = λ v.
          ap (λ f. f (o.state v)) undispatched
          ∙ ap (λ s. queue_in registry json s.0) (at_state v) in
        let (taken, split, took) =
          run-Drained ev print_id (over_postgres d) o
            (λ ctx x v. at_state _ ∙ quiet ctx x v ∙ sym (at_state v))
            (λ ctx e v. at_state _ ∙ quiet_errors ctx e v ∙ sym (at_state v)) wakes w in
        (
          taken,
          ap contents (sym (same_queue w) ∙ split ∙ ap (λ l. taken ++ l) (same_queue _))
              ∙ contents-append taken _,
          took,
        )

    pub append_then_run :
        BeginFuncSpec spec
        → (ctx : Ctx) (id : Uuid) (expected : ℕ) (events : List (Envelope E)) (w : W)
        → InRange events
        → (append ev json db ctx id expected events w).1 ≡ ok tt
        → (wakes : List Wake)
        → Publishes wakes
            (contents (queue w) ++ map stamped events)
            (append ev json db ctx id expected events w).0
    append_then_run begins ctx id expected events w small done wakes =
        subst (λ l. Publishes wakes l (append ev json db ctx id expected events w).0)
          (append-queue begins ctx id expected events w small done)
          (run-Publishes wakes (append ev json db ctx id expected events w).0)
