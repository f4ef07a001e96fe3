-- ===== src/Postgres/Appending.antt =====
-- store/postgres/postgres.go: `Append`, the tables after it.
use goaxon.Prelude.{
  ℕ, Bool, true, false, Option, none, some, List, [], ◌∷◌, ◌++◌, ◌≡◌, ◌≢◌, inl, inr, refl, ap, sym,
  subst, ◌∙◌, nat_beq, nat_beq_iff,
}
use goaxon.Go.Error.{GoError}
use goaxon.Go.Outcome.{Done, ok, of_error}
use goaxon.Go.Exec.{bind-eq-ok, bind_keeps}
use goaxon.Go.Word.{ℤ, from_i64}
use goaxon.Event.{Uuid, Ctx, Event, Envelope}
use goaxon.Postgres.{at_head, check_head, append_in, append}
use goaxon.Postgres.Database.{Pgx}
use goaxon.Postgres.Scan.{Json}
use goaxon.Postgres.Spec.{PgxSpec, BeginFuncEnd, not_begun, committed, rolled_back, BeginFuncSpec}
use goaxon.Postgres.Tables.{Tables, apply_all, rows_of, max_sequence, or_zero}
use goaxon.Postgres.Inserting.{wrapped-ok, Written, insert_all_keeps, insert_all-ok}

module _ {W Tx E : Type 0} (ev : Event E) (json : Json E) (db : Pgx W Tx) (spec : PgxSpec db) where
  -- The version that `Append` compares with, of a stream in the tables.
  abbrev pub head_in : Uuid → Tables → ℕ
  head_in id t = from_i64 (or_zero (max_sequence (rows_of id t.events)))

  append_in_keeps :
      (ctx : Ctx) (id : Uuid) (expected : ℕ) (events : List (Envelope E)) (tx : Tx) (w : W)
      → spec.tables (append_in ev json db ctx id expected events tx w).0 ≡ spec.tables w
  unfolding append_in
  append_in_keeps ctx id expected events tx w =
      bind_keeps spec.tables (check_head ev json db tx ctx id)
        (λ head. at_head ev json db (nat_beq (from_i64 head) expected) tx ctx events) w
        (spec.head_keeps tx ctx id w).0 (λ head t. either (nat_beq (from_i64 head) expected) t)
    where
      either :
          (b : Bool) (t : W) → spec.tables (at_head ev json db b tx ctx events t).0 ≡ spec.tables t
      either true t = insert_all_keeps ev json db spec tx ctx events t
      either false t = refl

  append_in-ok :
      (ctx : Ctx) (id : Uuid) (expected : ℕ) (events : List (Envelope E)) (tx : Tx) (w w' : W)
      → spec.changes w tx ≡ []
      → append_in ev json db ctx id expected events tx w ≡ (w', ok tt)
      → (head_in id (spec.tables w) ≡ expected)
        × Written ev json db spec events (spec.changes w' tx)
  unfolding append_in
  append_in-ok ctx id expected events tx w w' clean h =
      let (v, head, first, rest) =
        bind-eq-ok (check_head ev json db tx ctx id)
          (λ head. at_head ev json db (nat_beq (from_i64 head) expected) tx ctx events) w w' tt h in
      let at : head ≡ or_zero (max_sequence (rows_of id (spec.tables w).events)) =
        spec.head_ok tx ctx id w head (wrapped-ok _ _ head (ap (λ q. q.1) first))
        ∙ ap (λ cs. or_zero (max_sequence (rows_of id (apply_all cs (spec.tables w)).events)))
            clean in
      let unchanged : spec.changes v tx ≡ [] =
        sym (ap (λ q. spec.changes q.0 tx) first) ∙ (spec.head_keeps tx ctx id w).1 ∙ clean in
      either (nat_beq (from_i64 head) expected) refl at v unchanged rest
    where
      either :
          (b : Bool) {head : ℤ}
          → nat_beq (from_i64 head) expected ≡ b
          → head ≡ or_zero (max_sequence (rows_of id (spec.tables w).events))
          → (v : W) → spec.changes v tx ≡ []
          → at_head ev json db b tx ctx events v ≡ (w', ok tt)
          → (head_in id (spec.tables w) ≡ expected)
            × Written ev json db spec events (spec.changes w' tx)
      either true e at v unchanged r =
          let (cs, more, written) = insert_all-ok ev json db spec tx ctx events v w' r in
          (
            ap from_i64 (sym at) ∙ (nat_beq_iff _ _).0 e,
            subst (Written ev json db spec events) (sym (more ∙ ap (λ l. l ++ cs) unchanged))
                written,
          )
      either false e at v unchanged r = absurd (cc (ap (λ q. q.1) r))

  -- How `Append` of events ends. `written`: all of them are in both tables, and the result is nil
  -- or the error of the commit. `unwritten`: the tables are as they were, and it is not nil.
  pub data AppendEnd (ctx : Ctx) (id : Uuid) (expected : ℕ) (events : List (Envelope E)) (w w' : W)
      (result : Done) : Type 0 where
    written :
        (tx : Tx) (u : W)
        → head_in id (spec.tables w) ≡ expected
        → Written ev json db spec events (spec.changes u tx)
        → spec.tables w' ≡ apply_all (spec.changes u tx) (spec.tables w)
        → result ≡ of_error (db.commit tx ctx u).1
        → AppendEnd ctx id expected events w w' result
    unwritten :
        spec.tables w' ≡ spec.tables w
        → result ≢ ok tt
        → AppendEnd ctx id expected events w w' result

  after_commit :
      (ctx : Ctx) (id : Uuid) (expected : ℕ) (events : List (Envelope E)) (tx : Tx) (w u : W)
      → head_in id (spec.tables w) ≡ expected
      → Written ev json db spec events (spec.changes u tx)
      → spec.tables u ≡ spec.tables w
      → AppendEnd ctx id expected events w (db.commit tx ctx u).0 (of_error (db.commit tx ctx u).1)
  after_commit ctx id expected events tx w u at_head' written' same =
      by_error (db.commit tx ctx u).1 refl
    where
      applied :
          spec.tables (db.commit tx ctx u).0 ≡ apply_all (spec.changes u tx) (spec.tables u)
          → AppendEnd ctx id expected events w
              (db.commit tx ctx u).0
              (of_error (db.commit tx ctx u).1)
      applied h = written tx u at_head' written' (h ∙ ap (apply_all (spec.changes u tx)) same) refl

      by_error :
          (e : Option GoError)
          → (db.commit tx ctx u).1 ≡ e
          → AppendEnd ctx id expected events w
              (db.commit tx ctx u).0
              (of_error (db.commit tx ctx u).1)
      by_error none h = applied (spec.commit_ok tx ctx u h)
      by_error (some x) h = elim (spec.commit_failed tx ctx u) [
        | inl kept ↦ unwritten (kept ∙ same) (λ p. cc (p, ap of_error h))
        | inr done ↦ applied done
      ]

  -- On a database that meets PgxSpec and BeginFuncSpec, an `Append` of at least one envelope ends
  -- in one of two ways: the expected version was the stream's head, every envelope has a row in
  -- `events` and one in `outbox`, in order, and nothing else changed, the result being that of the
  -- commit; or the tables are as they were, and the result is not nil.
  pub append-AppendEnd :
      BeginFuncSpec spec
      → (ctx : Ctx) (id : Uuid) (expected : ℕ) (events : List (Envelope E)) (w : W) → events ≢ []
      → let q = append ev json db ctx id expected events w in
        AppendEnd ctx id expected events w q.0 q.1
  unfolding append
  append-AppendEnd begins ctx id expected [] w n = absurd (n refl)
  append-AppendEnd begins ctx id expected (env ∷ envs) w n =
      by_end (begins ctx (append_in ev json db ctx id expected (env ∷ envs)) w)
    where
      by_end :
          {w' : W} {result : Done}
          → BeginFuncEnd spec ctx (append_in ev json db ctx id expected (env ∷ envs)) w w' result
          → AppendEnd ctx id expected (env ∷ envs) w w' result
      by_end (not_begun same bad) = unwritten same bad
      by_end {w'} {result} (committed tx v u same clean ran state answer) =
          let (at, all) = append_in-ok ctx id expected (env ∷ envs) tx v u clean ran in
          subst (λ s. AppendEnd ctx id expected (env ∷ envs) w s result) (sym state)
            (subst (AppendEnd ctx id expected (env ∷ envs) w (db.commit tx ctx u).0) (sym answer) (
              after_commit ctx id expected (env ∷ envs) tx w u (ap (head_in id) (sym same) ∙ at) all
                (sym (ap (λ q. spec.tables q.0) ran)
                  ∙ append_in_keeps ctx id expected (env ∷ envs) tx v
                  ∙ same)))
      by_end (rolled_back tx v same clean bad state worse reported) =
          unwritten
            (ap spec.tables state
              ∙ spec.rollback_keeps tx ctx _
              ∙ append_in_keeps ctx id expected (env ∷ envs) tx v
              ∙ same)
            worse
