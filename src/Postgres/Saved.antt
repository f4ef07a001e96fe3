-- ===== src/Postgres/Saved.antt =====
-- aggregate/aggregate.go over store/postgres/postgres.go and event/dispatcher.go: from `Save` to the
-- bus.
use goaxon.Prelude.{
  ℕ, ◌+◌, String, true, List, [], ◌∷◌, ◌++◌, append-nil, map, ◌≡◌, ◌≢◌, refl, ap, sym, subst, ◌∙◌,
  arith,
}
use goaxon.Go.Error.{GoError}
use goaxon.Go.Outcome.{Done, ok, err, panics}
use goaxon.Event.{Ctx, Time, Envelope}
use goaxon.Event.Delivery.{Keeps}
use goaxon.Event.Dispatcher.{Dispatcher, Wake}
use goaxon.Event.Registry.{Registry, unmarshal}
use goaxon.Aggregate.{BaseAccessor, RootLaws}
use goaxon.Aggregate.Effect.{pending, save_empty, save_nonempty}
use goaxon.Aggregate.Repository.{Repository, envelopes_from, after_append, save}
use goaxon.Postgres.{postgres_store}
use goaxon.Postgres.Database.{Pgx}
use goaxon.Postgres.Delivery.{
  contents, InRange, queue, stamped, database, Publishes, run-Publishes, append_then_run,
}
use goaxon.Postgres.Scan.{Json, Metadata, read_metadata}
use goaxon.Postgres.Spec.{PgxSpec, BeginFuncSpec}

module _ {W A E : Type 0} (r : Repository W A E) where
  envelopes_from-InRange :
      (now : ℕ → Time) (a : A) (expected i : ℕ) (es : List E)
      → InRange (envelopes_from r now a expected i es)
  unfolding envelopes_from
  envelopes_from-InRange now a expected i [] = tt
  envelopes_from-InRange now a expected i (e ∷ es) =
      (omega arith, envelopes_from-InRange now a expected (i + 1) es)

  -- A store with an outbox: `Save` returns nil only after the append did, and leaves its state.
  outbox_append :
      r.store.has_outbox ≡ true
      → (acc : BaseAccessor A E) (later : Ctx) (a : A) (envs : List (Envelope E)) (q : W × Done)
      → (after_append r acc later a envs q).1 ≡ ok tt
      → (q.1 ≡ ok tt) × ((after_append r acc later a envs q).0.1 ≡ q.0)
  unfolding after_append
  outbox_append has acc later a envs (w, ok _) h = rw has (refl, refl)
  outbox_append has acc later a envs (w, err e) h = absurd (cc h)
  outbox_append has acc later a envs (w, panics m) h = absurd (cc h)

module _ {W Tx A E : Type 0} (base : Repository W A E) (registry : Registry E) (json : Json E)
    (db : Pgx W Tx) (spec : PgxSpec db)
    (reads : (e : E) (s : String)
      → json.marshal e ≡ ok s
      → unmarshal registry (base.event.event_type e) (spec.jsonb s) ≡ ok e)
    (reads_metadata : (m : Metadata) (s : String)
      → json.marshal_metadata m ≡ ok s
      → read_metadata json (spec.jsonb s) ≡ ok m) where
  -- The repository with the store over Postgres.
  abbrev pub in_postgres : Repository W A E
  in_postgres = record base { store = postgres_store base.event registry json db }

  -- No event that `Save` has stored is lost: over a database that meets PgxSpec and BeginFuncSpec,
  -- with a JSON codec whose texts still read back from a jsonb column, an aggregate that meets
  -- RootLaws, and a bus and an error handler that leave the database alone: once `Save` returned
  -- nil, and whatever then wakes the `Run` of a dispatcher over the same outbox and fails in it,
  -- the envelopes that were undispatched before, followed by the envelopes that `Save` made, each
  -- with its time as the column gives it back, are a list of envelopes that the bus took in the
  -- ticks of this run, in this order, followed by those that are undispatched at its end (which it
  -- may have taken as well, where a commit failed).
  pub save_then_run :
      BeginFuncSpec spec
      → {acc : BaseAccessor A E} (laws : RootLaws base.root acc) (print_id : ℕ → String)
        (d : Dispatcher W E)
        (quiet : Keeps d.bus (database base.event registry json db spec reads reads_metadata))
        (quiet_errors : (ctx : Ctx) (e : GoError) (w : W)
          → database base.event registry json db spec reads reads_metadata (d.on_error ctx e w)
            ≡ database base.event registry json db spec reads reads_metadata w)
        (ctx later : Ctx) (now : ℕ → Time) (a : A) (w : W)
      → (save in_postgres ctx later now a w).1 ≡ ok tt
      → (wakes : List Wake)
      → Publishes base.event registry json db spec reads reads_metadata print_id d quiet
          quiet_errors wakes
          (contents (queue base.event registry json db spec reads reads_metadata w)
            ++ map
                (stamped base.event registry json db spec reads reads_metadata)
                (pending in_postgres laws now a))
          (save in_postgres ctx later now a w).0.1
  unfolding envelopes_from
  save_then_run begins {acc} laws print_id d quiet quiet_errors ctx later now a w saved wakes =
      by_queue (acc.get_base a).uncommitted refl
    where
      sent : List E → List (Envelope E)
      sent es =
          contents (queue base.event registry json db spec reads reads_metadata w)
          ++ map (stamped base.event registry json db spec reads reads_metadata)
              (envelopes_from in_postgres now a (acc.get_base a).committed_version 0 es)

      Goal : List (Envelope E) → W → Type 0
      Goal =
          Publishes base.event registry json db spec reads reads_metadata print_id d quiet
            quiet_errors wakes

      -- Nothing was queued.
      nothing :
          (acc.get_base a).uncommitted ≡ []
          → Goal (sent []) (save in_postgres ctx later now a w).0.1
      nothing e =
          subst (λ v. Goal (sent []) v)
            (sym (ap (λ q. q.0.1) (save_empty in_postgres laws ctx later now a w e)))
            (subst (λ l. Goal l w) (sym (append-nil _))
              (run-Publishes base.event registry json db spec reads reads_metadata print_id d quiet
                quiet_errors wakes w))

      stored :
          (acc.get_base a).uncommitted ≢ []
          → Goal (sent (acc.get_base a).uncommitted) (save in_postgres ctx later now a w).0.1
      stored some_events =
          let saving = save_nonempty in_postgres laws ctx later now a w some_events in
          let appended =
            outbox_append in_postgres refl acc later a (pending in_postgres laws now a) _
              (ap (λ q. q.1) (sym saving) ∙ saved) in
          subst (Goal (sent (acc.get_base a).uncommitted))
            (sym (ap (λ q. q.0.1) saving ∙ appended.1))
            (append_then_run base.event registry json db spec reads reads_metadata print_id d quiet
              quiet_errors begins ctx (base.root.aggregate_id a) (acc.get_base a).committed_version
              (pending in_postgres laws now a) w (envelopes_from-InRange in_postgres now a _ 0 _)
              appended.0 wakes)

      by_queue :
          (es : List E)
          → (acc.get_base a).uncommitted ≡ es
          → Goal (sent (acc.get_base a).uncommitted) (save in_postgres ctx later now a w).0.1
      by_queue [] e =
          subst (λ l. Goal (sent l) (save in_postgres ctx later now a w).0.1) (sym e) (nothing e)
      by_queue (x ∷ es) e = stored (λ p. cc (e, p))
