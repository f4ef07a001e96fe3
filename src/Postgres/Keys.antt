-- ===== src/Postgres/Keys.antt =====
-- store/postgres/postgres.go: appends of two sessions at the primary key of `events`.
pub mod Race
use goaxon.Prelude.{
  ℕ, String, Bool, true, false, none, some, List, [], ◌∷◌, ◌≡◌, refl, ap, subst, sym, ◌∙◌, nat_beq,
  ◌⊎◌, ◌≢◌, inl, inr, Option, Bool-cases,
}
use goaxon.Go.Error.{GoError, sentinel, wrapped, concurrency_conflict}
use goaxon.Go.Outcome.{Outcome, Done, ok, err, panics, Exec, wrap_err}
use goaxon.Go.Exec.{then_run, bind-eq-ok, ◌>>=◌, lift}
use goaxon.Go.Word.{ℤ, to_i64, from_i64}
use goaxon.Event.{Uuid, Ctx, Event, Envelope}
use goaxon.Postgres.{
  is_unique_violation, insertion_error, row_of, add_event, add_outbox, insert_row, marshal_payload,
  marshal_metadata, insert_marshaled, insert_event, insert_all, at_head, check_head, append_in,
}
use goaxon.Postgres.Database.{EventRow, Statement, insert_event_row, insert_outbox_row, Pgx}
use goaxon.Postgres.Inserting.{executed-ok, insert_event-refused}
use goaxon.Postgres.Scan.{Json}

-- What PRIMARY KEY (aggregate_id, sequence) relies on, with any number of sessions; what others do
-- meanwhile is part of what a call does to the state.
pub record KeySpec {W Tx : Type 0} (db : Pgx W Tx) : Type 1 where
  -- an open transaction has inserted a row with this key; a committed row has it
  pub Inserted : W → Tx → Uuid → ℤ → Type 0
  pub Committed : W → Uuid → ℤ → Type 0
  pub exec_inserts :
      (tx : Tx) (ctx : Ctx) (row : EventRow) (w : W)
      → (db.exec tx ctx (insert_event_row row) w).1 ≡ none
      → Inserted (db.exec tx ctx (insert_event_row row) w).0 tx row.aggregate_id row.sequence
  pub exec_keeps :
      (tx : Tx) (ctx : Ctx) (s : Statement) (w : W) (id : Uuid) (n : ℤ)
      → Inserted w tx id n
      → Inserted (db.exec tx ctx s w).0 tx id n
  pub commit_publishes :
      (tx : Tx) (ctx : Ctx) (w : W) (id : Uuid) (n : ℤ)
      → (db.commit tx ctx w).1 ≡ none
      → Inserted w tx id n
      → Committed (db.commit tx ctx w).0 id n
  -- An insertion at a committed key does not succeed, whatever its error is.
  pub exec_duplicate :
      (tx : Tx) (ctx : Ctx) (row : EventRow) (w : W)
      → Committed w row.aggregate_id row.sequence
      → (db.exec tx ctx (insert_event_row row) w).1 ≢ none

-- What each part of a block preserves, the block preserves.
bind_preserves :
    {W A B : Type 0} (P : W → Type 0) (m : Exec W A) (f : A → Exec W B) (w : W)
    → P (m w).0
    → ((a : A) (t : W) → P t → P (f a t).0)
    → P ((m >>= f) w).0
bind_preserves {W} {A} {B} P m f w first rest = at (m w) first
  where
    at : (p : W × Outcome A) → P p.0 → P (then_run p.0 p.1 f).0
    at (t, ok a) p = rest a t p
    at (t, err x) p = p
    at (t, panics x) p = p

module _ {W Tx E : Type 0} (ev : Event E) (json : Json E) (db : Pgx W Tx) (spec : KeySpec db)
    (tx : Tx) (ctx : Ctx) where
  module _ (id : Uuid) (n : ℤ) where
    abbrev Has : W → Type 0
    Has w = spec.Inserted w tx id n

    insert_row-Has : (row : EventRow) (w : W) → Has w → Has (insert_row db tx ctx row w).0
    insert_row-Has row w h =
        bind_preserves Has (add_event db tx ctx row) (λ _. add_outbox db tx ctx row) w
          (spec.exec_keeps tx ctx (insert_event_row row) w id n h)
          (λ _ t k. spec.exec_keeps tx ctx (insert_outbox_row row) t id n k)

    insert_event-Has :
        (env : Envelope E) (w : W) → Has w → Has (insert_event ev json db tx ctx env w).0
    unfolding insert_event
    insert_event-Has env w h =
        bind_preserves Has (lift (marshal_payload ev json db env))
          (insert_marshaled ev json db tx ctx env) w h
          (λ payload t k.
            bind_preserves Has (lift (marshal_metadata ev json db env))
              (λ metadata. insert_row db tx ctx (row_of ev env payload metadata)) t k
              (λ metadata. insert_row-Has (row_of ev env payload metadata)))

    insert_all-Has :
        (envs : List (Envelope E)) (w : W) → Has w → Has (insert_all ev json db tx ctx envs w).0
    unfolding insert_all
    insert_all-Has [] w h = h
    insert_all-Has (env ∷ envs) w h =
        bind_preserves Has (insert_event ev json db tx ctx env)
          (λ _. insert_all ev json db tx ctx envs) w (insert_event-Has env w h)
          (λ _. insert_all-Has envs)

  insert_row_inserts :
      (row : EventRow) (w w' : W)
      → insert_row db tx ctx row w ≡ (w', ok tt)
      → spec.Inserted w' tx row.aggregate_id row.sequence
  insert_row_inserts row w w' h =
      let (v, _, first, second) =
        bind-eq-ok (add_event db tx ctx row) (λ _. add_outbox db tx ctx row) w w' tt h in
      let one = executed-ok insertion_error _ v first in
      subst (λ q. spec.Inserted q.0 tx row.aggregate_id row.sequence) second
        (spec.exec_keeps tx ctx (insert_outbox_row row) v row.aggregate_id row.sequence (
          subst (λ q. spec.Inserted q.0 tx row.aggregate_id row.sequence) one
            (spec.exec_inserts tx ctx row w (ap (λ q. q.1) one))))

  insert_event_inserts :
      (env : Envelope E) (w w' : W)
      → insert_event ev json db tx ctx env w ≡ (w', ok tt)
      → spec.Inserted w' tx env.aggregate_id (to_i64 env.sequence)
  unfolding insert_event
  insert_event_inserts env w w' h =
      let (v, payload, first, rest) =
        bind-eq-ok (lift (marshal_payload ev json db env)) (insert_marshaled ev json db tx ctx env)
          w w' tt h in
      let (u, metadata, second, last) =
        bind-eq-ok (lift (marshal_metadata ev json db env))
          (λ metadata. insert_row db tx ctx (row_of ev env payload metadata)) v w' tt rest in
      insert_row_inserts (row_of ev env payload metadata) u w' last

  -- The function of an `Append` that returned nil has inserted its first envelope.
  pub append_in_inserts :
      (id : Uuid) (expected : ℕ) (env : Envelope E) (envs : List (Envelope E)) (w w' : W)
      → append_in ev json db ctx id expected (env ∷ envs) tx w ≡ (w', ok tt)
      → spec.Inserted w' tx env.aggregate_id (to_i64 env.sequence)
  unfolding append_in insert_all
  append_in_inserts id expected env envs w w' h =
      let (v, head, first, rest) =
        bind-eq-ok (check_head ev json db tx ctx id)
          (λ head. at_head ev json db (nat_beq (from_i64 head) expected) tx ctx (env ∷ envs)) w w'
          tt h in
      either (nat_beq (from_i64 head) expected) v rest
    where
      either :
          (b : Bool) (v : W)
          → at_head ev json db b tx ctx (env ∷ envs) v ≡ (w', ok tt)
          → spec.Inserted w' tx env.aggregate_id (to_i64 env.sequence)
      either true v r =
          let (u, _, first, rest) =
            bind-eq-ok (insert_event ev json db tx ctx env) (λ _. insert_all ev json db tx ctx envs)
              v w' tt r in
          subst (λ q. spec.Inserted q.0 tx env.aggregate_id (to_i64 env.sequence)) rest
            (insert_all-Has env.aggregate_id (to_i64 env.sequence) envs u
              (insert_event_inserts env v u first))
      either false v r = absurd (cc (ap (λ q. q.1) r))
