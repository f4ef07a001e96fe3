-- ===== src/Postgres/Progress/Draining.antt =====
-- store/postgres/postgres.go and event/dispatcher.go: the ticks of a dispatcher over Postgres, where
-- nothing fails.
use goaxon.Prelude.{
  ℕ, suc, ◌≤◌, String, true, Option, none, some, List, [], ◌∷◌, ◌++◌, take, length, ◌≡◌, ◌≢◌, refl,
  ap, sym, subst, ◌∙◌,
}
use goaxon.Go.Error.{GoError}
use goaxon.Go.Outcome.{ok, ok_injective}
use goaxon.Go.Word.{pos}
use goaxon.Event.{Ctx, Event, Envelope}
use goaxon.Event.Delivery.{Keeps}
use goaxon.Event.Dispatcher.{Dispatcher}
use goaxon.Event.Dispatcher.Delivering.{ids}
use goaxon.Event.Dispatcher.Draining.{OutboxProgress, ticks, ticks_drain}
use goaxon.Event.Outbox.{OutboxEntry}
use goaxon.Event.Registry.{Registry}
use goaxon.Postgres.{
  claim, after_query, after_begin, after_scan, open_claim, wrapped_as, after_mark, commit_claim,
  postgres_outbox,
}
use goaxon.Postgres.Claims.{queue_in}
use goaxon.Postgres.Database.{Pgx}
use goaxon.Postgres.Marking.{exec_same, exec-marked, postgres_outbox_state}
use goaxon.Postgres.Progress.{
  PgxProgress, AllDecode, AllDecode-take, AllDecode-mark, scan_outbox_rows-decoded, decoded-ne-nil,
}
use goaxon.Postgres.Queue.{decoded}
use goaxon.Postgres.Scan.{Json}
use goaxon.Postgres.Spec.{PgxSpec}
use goaxon.Postgres.Tables.{Tables, Change, pending_rows, apply_all}

module _ {W Tx E : Type 0} (registry : Registry E) (json : Json E) (db : Pgx W Tx)
    (spec : PgxSpec db) (progress : PgxProgress db) where
  abbrev queue : W → List (OutboxEntry E)
  queue w = queue_in registry json (spec.tables w)

  -- What a bus and an error handler leave alone, beside the open transactions.
  abbrev pub database : W → Tables × (Tx → List Change)
  database w = (spec.tables w, spec.changes w)

  -- The rows that are not marked dispatched decode.
  abbrev pub IsReady : Tables → Type 0
  IsReady t = AllDecode registry json (pending_rows t.outbox)

  -- A claim with an open transaction that has changed nothing.
  abbrev Claimed : ℕ → W → Type 0
  Claimed n w =
      (u : W) × (tx : Tx) × (x : OutboxEntry E) × (xs : List (OutboxEntry E)) × (claim registry json
          db none (pos (suc n)) w
        ≡ (u, ok (open_claim db tx (x ∷ xs))))
      × (progress.is_open u tx ≡ true)
      × (spec.changes u tx ≡ [])
      × (spec.tables u ≡ spec.tables w)

  claim_live : (n : ℕ) (w : W) → IsReady (spec.tables w) → queue w ≢ [] → Claimed n w
  unfolding claim
  claim_live n w ready some_entries =
      let (v, tx, begun, opened) = progress.begin_live w in
      let (same, clean, _) = spec.begin_ok none w v tx begun in
      let (u, rows, l, selected, all, no_error, still) =
        progress.pending_live tx (suc n) v opened in
      let (tables', changes', _) = spec.pending_keeps tx none (pos (suc n)) v in
      let taken : l ≡ take (suc n) (pending_rows (spec.tables w).outbox) =
        spec.pending_ok tx none (pos (suc n)) v rows (ap (λ q. q.1) selected) l all no_error
        ∙ ap (λ cs. take (suc n) (pending_rows (apply_all cs (spec.tables v)).outbox)) clean
        ∙ ap (λ t. take (suc n) (pending_rows t.outbox)) same in
      let decode : AllDecode registry json l =
        subst (AllDecode registry json) (sym taken)
          (AllDecode-take registry json (suc n) (pending_rows (spec.tables w).outbox) ready) in
      let front : decoded registry json l ≢ [] = λ h.
        decoded-ne-nil registry json n (pending_rows (spec.tables w).outbox) ready some_entries
          (ap (decoded registry json) (sym taken) ∙ h) in
      let scanned : claim registry json db none (pos (suc n)) w
          ≡ after_scan db tx none (ok (decoded registry json l)) u =
        ap (after_begin registry json db none (pos (suc n))) begun
        ∙ ap (after_query registry json db tx none) selected
        ∙ ap (λ r. after_scan db tx none r u)
            (scan_outbox_rows-decoded registry json rows l all no_error decode) in
      by_entries u tx (decoded registry json l) front scanned still
        (ap (λ q. spec.changes q.0 tx) (sym selected) ∙ changes' ∙ clean)
        (ap (λ q. spec.tables q.0) (sym selected) ∙ tables' ∙ same)
    where
      by_entries :
          (u : W) (tx : Tx) (entries : List (OutboxEntry E))
          → entries ≢ []
          → claim registry json db none (pos (suc n)) w ≡ after_scan db tx none (ok entries) u
          → progress.is_open u tx ≡ true
          → spec.changes u tx ≡ []
          → spec.tables u ≡ spec.tables w
          → Claimed n w
      by_entries u tx [] front scanned still clean same = absurd (front refl)
      by_entries u tx (x ∷ xs) front scanned still clean same =
          (u, tx, x, xs, scanned, still, clean, same)

  -- The commit of an open claim, of rows that decode.
  commit_live :
      (tx : Tx) (x : OutboxEntry E) (xs : List (OutboxEntry E)) (v : W)
      → progress.is_open v tx ≡ true
      → spec.changes v tx ≡ []
      → IsReady (spec.tables v)
      → let q = commit_claim db tx none (ids (x ∷ xs)) v in (q.1 ≡ none) × IsReady (spec.tables q.0)
  commit_live tx x xs v opened clean ready =
      let (u, marked, still) = progress.mark_live tx (ids (x ∷ xs)) v opened in
      let (t, changed) =
        exec-marked registry json db spec tx none (ids (x ∷ xs)) v u clean marked in
      let unmoved = exec_same registry json db spec tx none (ids (x ∷ xs)) v u none marked in
      let done = progress.commit_live tx u still in
      subst (λ p. let q = after_mark db tx none p in (q.1 ≡ none) × IsReady (spec.tables q.0))
        (sym marked)
        (by_commit (db.commit tx none u) done (
          subst IsReady
            (sym (
              spec.commit_ok tx none u done
              ∙ ap (λ cs. apply_all cs (spec.tables u)) changed
              ∙ ap (apply_all (Change.marked (ids (x ∷ xs)) t ∷ [])) unmoved))
            (AllDecode-mark registry json (ids (x ∷ xs)) t (spec.tables v).outbox ready)))
    where
      by_commit :
          (p : W × Option GoError)
          → p.1 ≡ none
          → IsReady (spec.tables p.0)
          → let q = wrapped_as "postgres: claim commit: " p in
            (q.1 ≡ none) × IsReady (spec.tables q.0)
      by_commit (w, none) h r = (refl, r)
      by_commit (w, some e) h r = absurd (cc h)

  -- The store over Postgres meets OutboxProgress.
  postgres-OutboxProgress :
      OutboxProgress (postgres_outbox_state registry json db spec).0 progress.is_open
  unfolding postgres_outbox_state
  postgres-OutboxProgress = record {
    Ready = λ s. IsReady s.0;
    claim_live = λ n w ready some_entries.
        let (u, tx, x, xs, claimed, _, _, _) = claim_live n w ready some_entries in
        (u, open_claim db tx (x ∷ xs), claimed, λ p. cc p);
    commit_live = λ n w w' c ready claimed taken v same still.
        let (rest, whole) =
          (postgres_outbox_state registry json db spec).0.claim_prefix none (pos (suc n)) w w' c
            claimed in
        let (u, tx, x, xs, claimed', opened, clean, unmoved) =
          claim_live n w ready (λ p. no_append c.entries rest taken (sym whole ∙ p)) in
        let at : w' ≡ u = ap (λ q. q.0) (sym claimed ∙ claimed') in
        let it : c ≡ open_claim db tx (x ∷ xs) =
          ok_injective (ap (λ q. q.1) (sym claimed ∙ claimed')) in
        subst
          (λ k.
            ((k.commit none (ids k.entries) v).1 ≡ none)
            × IsReady (spec.tables (k.commit none (ids k.entries) v).0))
          (sym it)
          (commit_live tx x xs v (ap (λ f. f tx) (still ∙ ap progress.is_open at) ∙ opened)
            (ap (λ s. s.1 tx) same ∙ ap (λ y. spec.changes y tx) at ∙ clean)
            (subst IsReady (sym (ap (λ s. s.0) same ∙ ap spec.tables at ∙ unmoved)) ready));
  }
    where
      no_append : (xs ys : List (OutboxEntry E)) → xs ≢ [] → xs ++ ys ≢ []
      no_append [] ys n = absurd (n refl)
      no_append (x ∷ xs) ys n = λ p. cc p

  -- Over a database that meets PgxSpec and PgxProgress (the calls of a claim and of its commit
  -- succeed while their transaction is open), where each row that is not marked dispatched
  -- decodes, with a bus that accepts every event, a bus and an error handler that leave the tables
  -- and transactions alone, a batch size above 0 and contexts that are not done: as many ticks of
  -- a dispatcher over the Postgres outbox as there are undispatched entries leave none.
  pub postgres_drain :
      (ev : Event E) (print_id : ℕ → String) (d : Dispatcher W E) (n : ℕ)
      → d.batch_size ≡ pos (suc n)
      → Keeps d.bus database
      → Keeps d.bus progress.is_open
      → ((ctx : Ctx) (e : GoError) (w : W) → database (d.on_error ctx e w) ≡ database w)
      → ((env : Envelope E) (w : W) → (d.bus none env w).1 ≡ ok tt)
      → (k : ℕ) (w : W) → IsReady (spec.tables w)
      → length (queue w) ≤ k
      → queue (ticks ev print_id (record d { outbox = postgres_outbox registry json db }) k w) ≡ []
  unfolding postgres_outbox_state postgres-OutboxProgress
  postgres_drain ev print_id d n full quiet quiet_held quiet_errors live_bus =
      ticks_drain ev print_id (record d { outbox = postgres_outbox registry json db })
        (postgres_outbox_state registry json db spec).0 postgres-OutboxProgress n full quiet
        quiet_held quiet_errors live_bus
