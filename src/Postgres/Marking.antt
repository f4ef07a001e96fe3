-- ===== src/Postgres/Marking.antt =====
-- store/postgres/postgres.go: the store as an outbox that meets OutboxSpec.
use goaxon.Prelude.{
  String, Option, none, some, List, [], ◌∷◌, ◌++◌, ◌≡◌, refl, ap, sym, subst, ◌∙◌, inl, inr, ◌⊎◌,
}
use goaxon.Go.Error.{GoError}
use goaxon.Go.Outcome.{Outcome, ok, ok_injective}
use goaxon.Go.Word.{ℤ}
use goaxon.Event.{Ctx, Time}
use goaxon.Event.Dispatcher.Delivering.{ids}
use goaxon.Event.Dispatcher.Safety.{OutboxSpec}
use goaxon.Event.Outbox.{OutboxEntry, Claim}
use goaxon.Event.Registry.{Registry}
use goaxon.Postgres.{ℕ, claim, wrapped_as, after_mark, commit_claim, postgres_outbox}
use goaxon.Postgres.Claims.{
  queue_in, ClaimEnd, claimed_none, claimed, failed, crashed, claim-ClaimEnd,
}
use goaxon.Postgres.Database.{Pgx, mark_dispatched}
use goaxon.Postgres.Queue.{decoded-marked}
use goaxon.Postgres.Scan.{Json}
use goaxon.Postgres.Spec.{PgxSpec}
use goaxon.Postgres.Tables.{Tables, Change, marked, apply_all}

pub wrapped_as_keeps :
    {W X : Type 0} (view : W → X) (before : String) (p : W × Option GoError)
    → view (wrapped_as before p).0 ≡ view p.0
wrapped_as_keeps view before (w, none) = refl
wrapped_as_keeps view before (w, some e) = refl

pub no_prefix : {A : Type 0} (xs ys : List A) → [] ≡ xs ++ ys → xs ≡ []
no_prefix [] ys h = refl
no_prefix (x ∷ xs) ys h = absurd (cc h)

module _ {W Tx E : Type 0} (registry : Registry E) (json : Json E) (db : Pgx W Tx)
    (spec : PgxSpec db) where
  abbrev queue : W → List (OutboxEntry E)
  queue w = queue_in registry json (spec.tables w)

  -- A commit of the first entries: the others are left, or all of them and an error.
  abbrev Marked : List (OutboxEntry E) → W → W × Option GoError → Type 0
  Marked rest v p = (queue p.0 ≡ rest) ⊎ ((queue p.0 ≡ queue v) × (p.1 ≡ none → ⊥))

  module _ (tx : Tx) (ctx : Ctx) where
    pub exec_same :
        (done : List ℕ) (v u : W) (e : Option GoError)
        → db.exec tx ctx (mark_dispatched done) v ≡ (u, e)
        → spec.tables u ≡ spec.tables v
    exec_same done v u e h =
        ap (λ q. spec.tables q.0) (sym h) ∙ (spec.exec_keeps tx ctx (mark_dispatched done) v).0

    -- The UPDATE of a claim's commit is all that its transaction has changed.
    pub exec-marked :
        (done : List ℕ) (v u : W)
        → spec.changes v tx ≡ []
        → db.exec tx ctx (mark_dispatched done) v ≡ (u, none)
        → (t : Time) × (spec.changes u tx ≡ marked done t ∷ [])
    exec-marked done v u clean h =
        let (t, more) = spec.exec_mark tx ctx done v (ap (λ q. q.1) h) in
        (
          t,
          ap (λ q. spec.changes q.0 tx) (sym h) ∙ more ∙ ap (λ cs. cs ++ marked done t ∷ []) clean,
        )

    pub commit_same :
        (v : W) → spec.changes v tx ≡ [] → spec.tables (db.commit tx ctx v).0 ≡ spec.tables v
    commit_same v clean = elim (spec.commit_failed tx ctx v) [
      | inl kept ↦ kept
      | inr done ↦ done ∙ ap (λ cs. apply_all cs (spec.tables v)) clean
    ]

    -- A commit after which the queue is `rest` if it happened.
    committed-Marked :
        (rest : List (OutboxEntry E)) (v u : W) (p : W × Option GoError)
        → db.commit tx ctx u ≡ p
        → queue_in registry json (apply_all (spec.changes u tx) (spec.tables u)) ≡ rest
        → spec.tables u ≡ spec.tables v
        → Marked rest v (wrapped_as "postgres: claim commit: " p)
    committed-Marked rest v u (x, none) h then_rest same = inl (
        ap (λ q. queue q.0) (sym h)
        ∙ ap (queue_in registry json) (spec.commit_ok tx ctx u (ap (λ q. q.1) h))
        ∙ then_rest)
    committed-Marked rest v u (x, some e) h then_rest same = elim (spec.commit_failed tx ctx u) [
      | inl kept ↦
          inr (ap (λ q. queue q.0) (sym h) ∙ ap (queue_in registry json) (kept ∙ same), λ q. cc q)
      | inr done ↦ inl (ap (λ q. queue q.0) (sym h) ∙ ap (queue_in registry json) done ∙ then_rest)
    ]

    after_mark-Marked :
        (before rest : List (OutboxEntry E)) (v : W)
        → spec.changes v tx ≡ []
        → queue v ≡ before ++ rest
        → (p : W × Option GoError) → db.exec tx ctx (mark_dispatched (ids before)) v ≡ p
        → Marked rest v (after_mark db tx ctx p)
    after_mark-Marked before rest v clean whole (u, some e) h = inr (
      ap (queue_in registry json)
          (spec.rollback_keeps tx ctx u ∙ exec_same (ids before) v u (some e) h),
      λ q. cc q,
    )
    after_mark-Marked before rest v clean whole (u, none) h =
        let (t, changed) = exec-marked (ids before) v u clean h in
        let unmoved = exec_same (ids before) v u none h in
        committed-Marked rest v u _ refl
          (ap (λ cs. queue_in registry json (apply_all cs (spec.tables u))) changed
            ∙ ap (λ s. queue_in registry json (apply_all (marked (ids before) t ∷ []) s)) unmoved
            ∙ decoded-marked registry json t (spec.tables v).outbox before rest (spec.ascends v)
                whole)
          unmoved

    pub commit_claim-Marked :
        (before rest : List (OutboxEntry E)) (v : W)
        → spec.changes v tx ≡ []
        → queue v ≡ before ++ rest
        → Marked rest v (commit_claim db tx ctx (ids before) v)
    commit_claim-Marked [] rest v clean whole = inl (
        wrapped_as_keeps queue _ (db.commit tx ctx v)
        ∙ ap (queue_in registry json) (commit_same v clean)
        ∙ whole)
    commit_claim-Marked (x ∷ before) rest v clean whole =
        after_mark-Marked (x ∷ before) rest v clean whole _ refl

  pub claimed-end :
      (ctx : Ctx) (n : ℤ) (w w' : W) (c : Claim W E)
      → claim registry json db ctx n w ≡ (w', ok c)
      → ClaimEnd registry json db spec w w' (ok c)
  claimed-end ctx n w w' c h =
      subst (λ q. ClaimEnd registry json db spec w q.0 q.1) h
        (claim-ClaimEnd registry json db spec ctx n w)

  -- The store meets OutboxSpec with the tables and the open transactions as its state, and the rows
  -- that are not marked as its queue.
  unfoldable pub postgres_outbox_state :
      (o : OutboxSpec (Tables × (Tx → List Change)) (postgres_outbox registry json db)) × (o.state
        ≡ (λ w. (spec.tables w, spec.changes w)))
      × (o.undispatched ≡ (λ s. queue_in registry json s.0))
  postgres_outbox_state = (
    record {
      state = λ w. (spec.tables w, spec.changes w);
      undispatched = λ s. queue_in registry json s.0;
      claim_keeps = λ ctx n w.
          ap (queue_in registry json) (kept (claim-ClaimEnd registry json db spec ctx n w));
      claim_prefix = λ ctx n w w' c h. prefix (claimed-end ctx n w w' c h);
      commit_marks = λ ctx n w w' c h ctx' before after rest v split same whole.
          marks ctx' before after rest v (claimed-end ctx n w w' c h) split (ap (λ s. s.1) same)
            whole;
      release_keeps = λ ctx n w w' c h ctx' v same. releases ctx' v (claimed-end ctx n w w' c h);
    },
    refl,
    refl,
  )
    where
      kept :
          {w w' : W} {r : Outcome (Claim W E)}
          → ClaimEnd registry json db spec w w' r
          → spec.tables w' ≡ spec.tables w
      kept (claimed_none same count r) = same
      kept (claimed tx entry entries rest same count clean front r) = same
      kept (failed e same count r) = same
      kept (crashed m same r) = same

      prefix :
          {w w' : W} {c : Claim W E}
          → ClaimEnd registry json db spec w w' (ok c)
          → (rest : List (OutboxEntry E)) × (queue w ≡ c.entries ++ rest)
      prefix {w} (claimed_none same count r) =
          (queue w, subst (λ d. queue w ≡ d.entries ++ queue w) (sym (ok_injective r)) refl)
      prefix {w} (claimed tx entry entries rest same count clean front r) =
          (rest, subst (λ d. queue w ≡ d.entries ++ rest) (sym (ok_injective r)) front)
      prefix (failed e same count r) = absurd (cc r)
      prefix (crashed m same r) = absurd (cc r)

      marks :
          {w w' : W} {c : Claim W E} (ctx : Ctx) (before after rest : List (OutboxEntry E)) (v : W)
          → ClaimEnd registry json db spec w w' (ok c)
          → c.entries ≡ before ++ after
          → spec.changes v ≡ spec.changes w'
          → queue v ≡ before ++ rest
          → Marked rest v (c.commit ctx (ids before) v)
      marks ctx before after rest v (claimed_none same count r) split changes whole =
          subst (λ d. Marked rest v (d.commit ctx (ids before) v)) (sym (ok_injective r))
            (inl (
              whole
              ∙ ap (λ l. l ++ rest)
                  (no_prefix before after
                    (subst (λ d. d.entries ≡ before ++ after) (ok_injective r) split))))
      marks ctx before after rest v (claimed tx entry entries _ same count clean front r) split
            changes whole =
          subst (λ d. Marked rest v (d.commit ctx (ids before) v)) (sym (ok_injective r))
            (commit_claim-Marked tx ctx before rest v (ap (λ f. f tx) changes ∙ clean) whole)
      marks ctx before after rest v (failed e same count r) split changes whole = absurd (cc r)
      marks ctx before after rest v (crashed m same r) split changes whole = absurd (cc r)

      releases :
          {w w' : W} {c : Claim W E} (ctx : Ctx) (v : W)
          → ClaimEnd registry json db spec w w' (ok c)
          → queue (c.release ctx v).0 ≡ queue v
      releases ctx v (claimed_none same count r) =
          subst (λ d. queue (d.release ctx v).0 ≡ queue v) (sym (ok_injective r)) refl
      releases ctx v (claimed tx entry entries _ same count clean front r) =
          subst (λ d. queue (d.release ctx v).0 ≡ queue v) (sym (ok_injective r))
            (wrapped_as_keeps queue _ (db.rollback tx ctx v)
              ∙ ap (queue_in registry json) (spec.rollback_keeps tx ctx v))
      releases ctx v (failed e same count r) = absurd (cc r)
      releases ctx v (crashed m same r) = absurd (cc r)

  -- On a database that meets PgxSpec, the store over Postgres meets OutboxSpec, the contract of an
  -- outbox on which no other claim is open: a claim leaves the queue of undispatched entries alone
  -- and holds its first ones; a commit of first entries of the claim marks exactly these, or it
  -- fails and has marked them all or none; a release changes nothing.
  pub postgres_outbox-OutboxSpec :
      OutboxSpec (Tables × (Tx → List Change)) (postgres_outbox registry json db)
  postgres_outbox-OutboxSpec = postgres_outbox_state.0
