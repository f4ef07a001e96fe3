-- ===== src/Postgres/Inserting.antt =====
-- store/postgres/postgres.go: `insertEvent` and the loop over the events.
use goaxon.Prelude.{
  arith, ℕ, String, Option, none, some, List, [], ◌∷◌, ◌++◌, ◌≡◌, refl, ap, sym, ◌∙◌, append_assoc,
  append-nil,
}
use goaxon.Go.Error.{GoError, wrapped}
use goaxon.Go.Outcome.{Outcome, ok, err, panics, wrap_err}
use goaxon.Go.Exec.{then_run, bind-eq-ok, bind_keeps, lift}
use goaxon.Event.{Ctx, Event, Envelope}
use goaxon.Postgres.{
  executed, insertion_error, row_of, add_event, add_outbox, insert_row, marshal_payload,
  marshal_metadata, insert_marshaled, insert_event, insert_all,
}
use goaxon.Postgres.Database.{EventRow, insert_event_row, insert_outbox_row, Pgx}
use goaxon.Postgres.Scan.{Json}
use goaxon.Postgres.Spec.{stored, PgxSpec}
use goaxon.Postgres.Tables.{Change, added_event, added_outbox}

pub executed-ok :
    {W : Type 0} (f : GoError → GoError) (p : W × Option GoError) (w : W)
    → executed f p ≡ (w, ok tt)
    → p ≡ (w, none)
executed-ok f (v, none) w h = cc (ap (λ q. q.0) h)
executed-ok f (v, some e) w h = absurd (cc (ap (λ q. q.1) h))

pub wrapped-ok :
    {A : Type 0} (f : GoError → GoError) (r : Outcome A) (a : A) → wrap_err f r ≡ ok a → r ≡ ok a
wrapped-ok f (ok b) a h = h
wrapped-ok f (err e) a h = absurd (cc h)
wrapped-ok f (panics m) a h = absurd (cc h)

module _ {W Tx E : Type 0} (ev : Event E) (json : Json E) (db : Pgx W Tx) (spec : PgxSpec db) where
  -- Each envelope becomes a row of `events` and a row of `outbox`, in order.
  pub data Written : List (Envelope E) → List Change → Type 0 where
    written_none : Written [] []
    written_row :
        (env : Envelope E) {envs : List (Envelope E)} (payload metadata : String) (id : ℕ)
        {cs : List Change}
        → json.marshal env.payload ≡ ok payload
        → json.marshal_metadata env.metadata ≡ ok metadata
        → Written envs cs
        → Written (env ∷ envs) (
            added_event (stored spec (row_of ev env payload metadata))
            ∷ added_outbox id (stored spec (row_of ev env payload metadata))
            ∷ cs)

  insert_row_keeps :
      (tx : Tx) (ctx : Ctx) (row : EventRow) (w : W)
      → spec.tables (insert_row db tx ctx row w).0 ≡ spec.tables w
  insert_row_keeps tx ctx row w =
      bind_keeps spec.tables (add_event db tx ctx row) (λ _. add_outbox db tx ctx row) w
        (spec.exec_keeps tx ctx (insert_event_row row) w).0
        (λ _ t. (spec.exec_keeps tx ctx (insert_outbox_row row) t).0)

  insert_event_keeps :
      (tx : Tx) (ctx : Ctx) (env : Envelope E) (w : W)
      → spec.tables (insert_event ev json db tx ctx env w).0 ≡ spec.tables w
  unfolding insert_event
  insert_event_keeps tx ctx env w =
      bind_keeps spec.tables (lift (marshal_payload ev json db env))
        (insert_marshaled ev json db tx ctx env) w refl
        (λ payload t.
          bind_keeps spec.tables (lift (marshal_metadata ev json db env))
            (λ metadata. insert_row db tx ctx (row_of ev env payload metadata)) t refl
            (λ metadata. insert_row_keeps tx ctx (row_of ev env payload metadata)))

  pub insert_all_keeps :
      (tx : Tx) (ctx : Ctx) (envs : List (Envelope E)) (w : W)
      → spec.tables (insert_all ev json db tx ctx envs w).0 ≡ spec.tables w
  unfolding insert_all
  insert_all_keeps tx ctx [] w = refl
  insert_all_keeps tx ctx (env ∷ envs) w =
      bind_keeps spec.tables (insert_event ev json db tx ctx env)
        (λ _. insert_all ev json db tx ctx envs) w (insert_event_keeps tx ctx env w)
        (λ _. insert_all_keeps tx ctx envs)

  -- What a row adds to the transaction.
  abbrev added : ℕ → EventRow → List Change
  added id row = added_event (stored spec row) ∷ added_outbox id (stored spec row) ∷ []

  insert_row-ok :
      (tx : Tx) (ctx : Ctx) (row : EventRow) (w w' : W)
      → insert_row db tx ctx row w ≡ (w', ok tt)
      → (id : ℕ) × (spec.changes w' tx ≡ spec.changes w tx ++ added id row)
  insert_row-ok tx ctx row w w' h =
      let (v, _, first, second) =
        bind-eq-ok (add_event db tx ctx row) (λ _. add_outbox db tx ctx row) w w' tt h in
      let one = executed-ok insertion_error _ v first in
      let two = executed-ok (λ e. wrapped "postgres: insert outbox: " e "") _ w' second in
      let c1 = spec.exec_event tx ctx row w (ap (λ q. q.1) one) in
      let (id, c2) = spec.exec_outbox tx ctx row v (ap (λ q. q.1) two) in
      (
        id,
        sym (ap (λ q. spec.changes q.0 tx) two)
            ∙ c2
            ∙ ap (λ l. l ++ added_outbox id (stored spec row) ∷ [])
                (sym (ap (λ q. spec.changes q.0 tx) one) ∙ c1)
            ∙ append_assoc (spec.changes w tx) (added_event (stored spec row) ∷ [])
                (added_outbox id (stored spec row) ∷ []),
      )

  insert_event-ok :
      (tx : Tx) (ctx : Ctx) (env : Envelope E) (w w' : W)
      → insert_event ev json db tx ctx env w ≡ (w', ok tt)
      → (payload : String) × (metadata : String) × (id : ℕ) × (json.marshal env.payload
          ≡ ok payload)
        × (json.marshal_metadata env.metadata ≡ ok metadata)
        × (spec.changes w' tx ≡ spec.changes w tx ++ added id (row_of ev env payload metadata))
  unfolding insert_event
  insert_event-ok tx ctx env w w' h =
      let (v, payload, first, rest) =
        bind-eq-ok (lift (marshal_payload ev json db env)) (insert_marshaled ev json db tx ctx env)
          w w' tt h in
      let (u, metadata, second, last) =
        bind-eq-ok (lift (marshal_metadata ev json db env))
          (λ metadata. insert_row db tx ctx (row_of ev env payload metadata)) v w' tt rest in
      let (id, changed) = insert_row-ok tx ctx (row_of ev env payload metadata) u w' last in
      (
        payload,
        metadata,
        id,
        wrapped-ok _ _ payload (ap (λ q. q.1) first),
        wrapped-ok _ _ metadata (ap (λ q. q.1) second),
        changed
            ∙ ap (λ s. spec.changes s tx ++ added id (row_of ev env payload metadata))
                (sym (ap (λ q. q.0) first ∙ ap (λ q. q.0) second)),
      )

  pub insert_all-ok :
      (tx : Tx) (ctx : Ctx) (envs : List (Envelope E)) (w w' : W)
      → insert_all ev json db tx ctx envs w ≡ (w', ok tt)
      → (cs : List Change) × (spec.changes w' tx ≡ spec.changes w tx ++ cs) × Written envs cs
  unfolding insert_all
  insert_all-ok tx ctx [] w w' h = (
    [],
    ap (λ q. spec.changes q.0 tx) (sym h) ∙ sym (append-nil (spec.changes w tx)),
    written_none,
  )
  insert_all-ok tx ctx (env ∷ envs) w w' h =
      let (v, _, first, rest) =
        bind-eq-ok (insert_event ev json db tx ctx env) (λ _. insert_all ev json db tx ctx envs) w
          w' tt h in
      let (payload, metadata, id, p, m, changed) = insert_event-ok tx ctx env w v first in
      let (cs, more, written) = insert_all-ok tx ctx envs v w' rest in
      (
        added id (row_of ev env payload metadata) ++ cs,
        more
            ∙ ap (λ l. l ++ cs) changed
            ∙ append_assoc (spec.changes w tx) (added id (row_of ev env payload metadata)) cs,
        written_row env payload metadata id p m written,
      )

module _ {W Tx E : Type 0} (ev : Event E) (json : Json E) (db : Pgx W Tx) where
  -- An insertion into `events` that fails ends `insertEvent` with what is made of its error.
  pub insert_event-refused :
      (tx : Tx) (ctx : Ctx) (env : Envelope E) (payload metadata : String) (e : GoError) (w : W)
      → json.marshal env.payload ≡ ok payload
      → json.marshal_metadata env.metadata ≡ ok metadata
      → (db.exec tx ctx (insert_event_row (row_of ev env payload metadata)) w).1 ≡ some e
      → (insert_event ev json db tx ctx env w).1 ≡ err (insertion_error e)
  unfolding insert_event
  insert_event-refused tx ctx env payload metadata e w p m h = rw (p, m) (at _ h)
    where
      row : EventRow
      row = row_of ev env payload metadata

      at :
          (q : W × Option GoError)
          → q.1 ≡ some e
          → (then_run
              (executed insertion_error q).0
              (executed insertion_error q).1
              (λ _. add_outbox db tx ctx row)).1
            ≡ err (insertion_error e)
      at (v, none) k = absurd (cc k)
      at (v, some x) k = ground (arith, k)
