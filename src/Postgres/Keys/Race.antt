-- ===== src/Postgres/Keys/Race.antt =====
-- store/postgres/postgres.go: two calls of `Append` for one key of `events`.
use goaxon.Prelude.{
  ℕ, String, Bool, true, false, none, some, List, ◌∷◌, ◌≡◌, refl, ap, subst, sym, ◌∙◌, nat_beq, ◌⊎◌,
  inl, inr, Option, Bool-cases,
}
use goaxon.Go.Error.{GoError, sentinel, wrapped, concurrency_conflict}
use goaxon.Go.Outcome.{Done, ok, err, wrap_err}
use goaxon.Go.Exec.{then_run}
use goaxon.Go.Word.{ℤ, to_i64, from_i64}
use goaxon.Event.{Uuid, Ctx, Event, Envelope}
use goaxon.Postgres.{is_unique_violation, row_of, insert_event, insert_all, at_head, append_in}
use goaxon.Postgres.Database.{EventRow, insert_event_row, Pgx}
use goaxon.Postgres.Inserting.{insert_event-refused}
use goaxon.Postgres.Scan.{Json}
use goaxon.Postgres.Keys.{KeySpec, append_in_inserts}

module _ {W Tx E : Type 0} (ev : Event E) (json : Json E) (db : Pgx W Tx) (spec : KeySpec db)
    (tx : Tx) (ctx : Ctx) where
  -- How the function of an `Append` ends when the key of its first envelope is taken: with the
  -- error of a concurrency conflict, or with another error of the insertion, wrapped.
  abbrev pub EndsRefused : EventRow → W → Done → Type 0
  EndsRefused row v result =
      (result ≡ err (sentinel concurrency_conflict))
      ⊎ ((e : GoError) × ((db.exec tx ctx (insert_event_row row) v).1 ≡ some e)
          × (is_unique_violation e ≡ false)
          × (result ≡ err (wrapped "postgres: insert event: " e "")))

  -- The insertion of an envelope whose key is taken.
  insert_event_taken :
      (env : Envelope E) (payload metadata : String) (v : W)
      → json.marshal env.payload ≡ ok payload
      → json.marshal_metadata env.metadata ≡ ok metadata
      → spec.Committed v env.aggregate_id (to_i64 env.sequence)
      → EndsRefused (row_of ev env payload metadata) v (insert_event ev json db tx ctx env v).1
  insert_event_taken env payload metadata v p m taken =
      by_error (db.exec tx ctx (insert_event_row row) v).1 refl
    where
      row : EventRow
      row = row_of ev env payload metadata

      by_error :
          (r : Option GoError)
          → (db.exec tx ctx (insert_event_row row) v).1 ≡ r
          → EndsRefused row v (insert_event ev json db tx ctx env v).1
      by_error none h = absurd (spec.exec_duplicate tx ctx row v taken h)
      by_error (some e) h =
          let refused = insert_event-refused ev json db tx ctx env payload metadata e v p m h in
          elim (Bool-cases (is_unique_violation e)) [
            | inl unique ↦ inl (refused ∙ rw unique refl)
            | inr other ↦ inr (e, h, other, refused ∙ rw other refl)
          ]

  -- The function of an `Append` whose head check ends in a state where the key of its first envelope
  -- is taken.
  append_in_taken :
      (id : Uuid) (expected : ℕ) (env : Envelope E) (envs : List (Envelope E))
      (payload metadata : String) (head : ℤ) (w v : W)
      → json.marshal env.payload ≡ ok payload
      → json.marshal_metadata env.metadata ≡ ok metadata
      → db.select_head tx ctx id w ≡ (v, ok head)
      → spec.Committed v env.aggregate_id (to_i64 env.sequence)
      → EndsRefused
          (row_of ev env payload metadata)
          v
          (append_in ev json db ctx id expected (env ∷ envs) tx w).1
  unfolding append_in insert_all
  append_in_taken id expected env envs payload metadata head w v p m checked taken =
      subst (EndsRefused row v)
        (sym (
          ap
            (λ q.
              (then_run q.0 (wrap_err (λ e. wrapped "postgres: head check: " e "") q.1) (λ head.
                at_head ev json db (nat_beq (from_i64 head) expected) tx ctx (env ∷ envs))).1)
            checked))
        (either (nat_beq (from_i64 head) expected))
    where
      row : EventRow
      row = row_of ev env payload metadata

      -- The insertions after the first are not run.
      stops :
          (e : GoError)
          → (insert_event ev json db tx ctx env v).1 ≡ err e
          → (insert_all ev json db tx ctx (env ∷ envs) v).1 ≡ err e
      stops e h =
          ap
            (λ r.
              (then_run (insert_event ev json db tx ctx env v).0 r
                (λ _. insert_all ev json db tx ctx envs)).1)
            h

      either : (b : Bool) → EndsRefused row v (at_head ev json db b tx ctx (env ∷ envs) v).1
      either true = elim (insert_event_taken env payload metadata v p m taken) [
        | inl conflict ↦ inl (stops _ conflict)
        | inr other ↦ inr (other.0, other.1, other.2, stops _ other.3)
      ]
      either false = inl refl

module _ {W Tx E : Type 0} (ev : Event E) (json : Json E) (db : Pgx W Tx) (spec : KeySpec db) where
  -- On a database in which an insertion at a committed primary key of `events` does not succeed,
  -- with any number of sessions: once the function of an `Append` has returned nil and its
  -- transaction is committed, the function of another `Append` whose first envelope has the same
  -- aggregate and sequence and encodes, and whose query of the head succeeds and ends after that
  -- commit, does not succeed, whatever head it read: it returns ErrConcurrencyConflict, or the
  -- insertion of that envelope failed with an error that is no unique violation, and this error is
  -- returned wrapped.
  pub append_race :
      (ctx other : Ctx) (id id' : Uuid) (expected expected' : ℕ) (env env' : Envelope E)
      (envs envs' : List (Envelope E)) (tx tx' : Tx) (w w' : W)
      → append_in ev json db ctx id expected (env ∷ envs) tx w ≡ (w', ok tt)
      → (ending : Ctx) → (db.commit tx ending w').1 ≡ none
      → (head : ℤ) (u v : W) → db.select_head tx' other id' u ≡ (v, ok head)
      → ((j : Uuid) (n : ℤ) → spec.Committed (db.commit tx ending w').0 j n → spec.Committed v j n)
      → env.aggregate_id ≡ env'.aggregate_id
      → env.sequence ≡ env'.sequence
      → (payload metadata : String) → json.marshal env'.payload ≡ ok payload
      → json.marshal_metadata env'.metadata ≡ ok metadata
      → EndsRefused ev json db spec tx' other
          (row_of ev env' payload metadata)
          v
          (append_in ev json db other id' expected' (env' ∷ envs') tx' u).1
  append_race ctx other id id' expected expected' env env' envs envs' tx tx' w w' written ending
        committed head u v checked later same_id same_sequence payload metadata p m =
      append_in_taken ev json db spec tx' other id' expected' env' envs' payload metadata head u v p
        m checked
        (subst (λ k. spec.Committed v k (to_i64 env'.sequence)) same_id
          (subst (λ s. spec.Committed v env.aggregate_id (to_i64 s)) same_sequence
            (later env.aggregate_id (to_i64 env.sequence) (
              spec.commit_publishes tx ending w' env.aggregate_id (to_i64 env.sequence) committed
                (append_in_inserts ev json db spec tx ctx id expected env envs w w' written)))))
