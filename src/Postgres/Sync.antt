-- ===== src/Postgres/Sync.antt =====
-- store/postgres/postgres.go: the rows of `events` and those of `outbox`.
use goaxon.Prelude.{
  ℕ, Bool-cases, Option, none, some, List, [], ◌∷◌, ◌++◌, map, ◌≡◌, inl, inr, refl, ap, sym, subst,
  ◌∙◌,
}
use goaxon.Go.Error.{GoError}
use goaxon.Go.Outcome.{Done, ok, ok_injective}
use goaxon.Go.Word.{ℤ}
use goaxon.Event.{Uuid, Time, Ctx, Event, Envelope}
use goaxon.Event.Outbox.{Claim}
use goaxon.Event.Registry.{Registry}
use goaxon.Postgres.{row_of, append, claim, after_mark, commit_claim}
use goaxon.Postgres.Appending.{AppendEnd, written, unwritten, append-AppendEnd}
use goaxon.Postgres.Claims.{ClaimEnd, claimed_none, claimed, failed, crashed}
use goaxon.Postgres.Database.{EventRow, OutboxRow, mark_dispatched, Pgx}
use goaxon.Postgres.Inserting.{Written, written_none, written_row}
use goaxon.Postgres.Marking.{wrapped_as_keeps, commit_same, exec_same, exec-marked, claimed-end}
use goaxon.Postgres.Scan.{Json}
use goaxon.Postgres.Spec.{stored, PgxSpec, BeginFuncSpec}
use goaxon.Postgres.Tables.{
  Tables, Change, added_event, added_outbox, marked, member, mark, apply, apply_all,
}

abbrev queued : List OutboxRow → List EventRow
queued [] = []
queued (row ∷ rows) = row.event ∷ queued rows

-- Each event has one row in the outbox, dispatched or not, and in the same order.
pub record InSync (t : Tables) : Type 0 where
  pub queued_all : t.events ≡ queued t.outbox

queued-append : (xs ys : List OutboxRow) → queued (xs ++ ys) ≡ queued xs ++ queued ys
queued-append [] ys = refl
queued-append (x ∷ xs) ys = ap (λ l. x.event ∷ l) (queued-append xs ys)

queued-mark :
    (ids : List ℕ) (t : Time) (rows : List OutboxRow) → queued (map (mark ids t) rows) ≡ queued rows
queued-mark ids t [] = refl
queued-mark ids t (row ∷ rows) =
    let rest = queued-mark ids t rows in
    elim (Bool-cases (member row.id ids)) [ inl h ↦ simp (h, rest) | inr h ↦ simp (h, rest) ]

marked-InSync :
    (ids : List ℕ) (time : Time) (t : Tables) → InSync t → InSync (apply (marked ids time) t)
marked-InSync ids time t h = record {
  queued_all = h.queued_all ∙ sym (queued-mark ids time t.outbox);
}

added-InSync :
    (id : ℕ) (row : EventRow) (t : Tables)
    → InSync t
    → InSync (apply (added_outbox id row) (apply (added_event row) t))
added-InSync id row t h = record {
  queued_all =
      ap (λ l. l ++ row ∷ []) h.queued_all
      ∙ sym (queued-append t.outbox (record { id = id; event = row; dispatched_at = none } ∷ []));
}

module _ {W Tx E : Type 0} (ev : Event E) (json : Json E) (db : Pgx W Tx) (spec : PgxSpec db) where
  Written-InSync :
      {envs : List (Envelope E)} {cs : List Change} (t : Tables)
      → Written ev json db spec envs cs
      → InSync t
      → InSync (apply_all cs t)
  Written-InSync t written_none h = h
  Written-InSync t (written_row env payload metadata id p m rest) h =
      Written-InSync _ rest (added-InSync id (stored spec (row_of ev env payload metadata)) t h)

  pub append-InSync :
      BeginFuncSpec spec
      → (ctx : Ctx) (id : Uuid) (expected : ℕ) (events : List (Envelope E)) (w : W)
      → InSync (spec.tables w)
      → InSync (spec.tables (append ev json db ctx id expected events w).0)
  unfolding append
  append-InSync begins ctx id expected [] w h = h
  append-InSync begins ctx id expected (env ∷ envs) w h =
      by_end (append-AppendEnd ev json db spec begins ctx id expected (env ∷ envs) w (λ p. cc p))
    where
      by_end :
          {w' : W} {result : Done}
          → AppendEnd ev json db spec ctx id expected (env ∷ envs) w w' result
          → InSync (spec.tables w')
      by_end (written tx u at all applied r) =
          subst InSync (sym applied) (Written-InSync (spec.tables w) all h)
      by_end (unwritten same bad) = subst InSync (sym same) h

module _ {W Tx E : Type 0} (registry : Registry E) (json : Json E) (db : Pgx W Tx)
    (spec : PgxSpec db) where
  after_mark-InSync :
      (tx : Tx) (ctx : Ctx) (done : List ℕ) (v : W)
      → spec.changes v tx ≡ []
      → (p : W × Option GoError) → db.exec tx ctx (mark_dispatched done) v ≡ p
      → InSync (spec.tables v)
      → InSync (spec.tables (after_mark db tx ctx p).0)
  after_mark-InSync tx ctx done v clean (u, some e) ran h =
      subst InSync
        (sym (
          spec.rollback_keeps tx ctx u
          ∙ exec_same registry json db spec tx ctx done v u (some e) ran))
        h
  after_mark-InSync tx ctx done v clean (u, none) ran h =
      let (t, changed) = exec-marked registry json db spec tx ctx done v u clean ran in
      let unmoved = exec_same registry json db spec tx ctx done v u none ran in
      subst InSync (sym (wrapped_as_keeps spec.tables _ (db.commit tx ctx u)))
        (elim (spec.commit_failed tx ctx u) [
          | inl kept ↦ subst InSync (sym (kept ∙ unmoved)) h
          | inr happened ↦
              subst InSync
                (sym (
                  happened
                  ∙ ap (λ cs. apply_all cs (spec.tables u)) changed
                  ∙ ap (apply (marked done t)) unmoved))
                (marked-InSync done t (spec.tables v) h)
        ])

  commit_claim-InSync :
      (tx : Tx) (ctx : Ctx) (done : List ℕ) (v : W)
      → spec.changes v tx ≡ []
      → InSync (spec.tables v)
      → InSync (spec.tables (commit_claim db tx ctx done v).0)
  commit_claim-InSync tx ctx [] v clean h =
      subst InSync
        (sym (
          wrapped_as_keeps spec.tables _ (db.commit tx ctx v)
          ∙ commit_same registry json db spec tx ctx v clean))
        h
  commit_claim-InSync tx ctx (id ∷ done) v clean h =
      after_mark-InSync tx ctx (id ∷ done) v clean _ refl h

  pub claim-InSync :
      (ctx : Ctx) (n : ℤ) (w w' : W) (c : Claim W E)
      → claim registry json db ctx n w ≡ (w', ok c)
      → InSync (spec.tables w)
      → (ctx' : Ctx) (done : List ℕ)
      → InSync (spec.tables w')
        × InSync (spec.tables (c.commit ctx' done w').0)
        × InSync (spec.tables (c.release ctx' w').0)
  claim-InSync ctx n w w' c h sync ctx' done =
      by_end (claimed-end registry json db spec ctx n w w' c h)
    where
      Kept : Claim W E → Type 0
      Kept d =
          InSync (spec.tables w')
          × InSync (spec.tables (d.commit ctx' done w').0)
          × InSync (spec.tables (d.release ctx' w').0)

      by_end : ClaimEnd registry json db spec w w' (ok c) → Kept c
      by_end (claimed_none same count r) =
          let still = subst InSync (sym same) sync in
          subst Kept (sym (ok_injective r)) (still, still, still)
      by_end (claimed tx entry entries rest same count clean front r) =
          let still = subst InSync (sym same) sync in
          subst Kept (sym (ok_injective r)) (
            still,
            commit_claim-InSync tx ctx' done w' clean still,
            subst InSync
                (sym (
                  wrapped_as_keeps spec.tables _ (db.rollback tx ctx' w')
                  ∙ spec.rollback_keeps tx ctx' w'))
                still,
          )
      by_end (failed e same count r) = absurd (cc r)
      by_end (crashed m same r) = absurd (cc r)
