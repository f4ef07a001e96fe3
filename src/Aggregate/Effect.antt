-- ===== src/Aggregate/Effect.antt =====
-- aggregate/aggregate.go: `Save`, the aggregate and the event streams after it.
use goaxon.Prelude.{
  ℕ, Bool, true, false, List, [], ◌∷◌, ◌++◌, ◌≡◌, ◌≢◌, ◌⊎◌, inl, inr, refl, ap, sym, subst, ◌∙◌,
  nat_beq, if◌then◌else◌, nat_beq_iff,
}
use goaxon.Go.Outcome.{Done, ok, err, panics}
use goaxon.Event.{Uuid, Time, Ctx, Envelope}
use goaxon.Event.Spec.{StoreSpec}
use goaxon.Event.Delivery.{Keeps}
use goaxon.Aggregate.{BaseAccessor, RootLaws}
use goaxon.Aggregate.Replay.{commit}
use goaxon.Aggregate.Saving.{publish_all_keeps}
use goaxon.Aggregate.Repository.{
  save_with, Repository, envelopes_from, publish_all, after_append, save_pending, save,
}

module _ {W A E : Type 0} (r : Repository W A E) {acc : BaseAccessor A E}
    (laws : RootLaws r.root acc) where
  -- The envelopes that `Save` makes of the aggregate's queue.
  abbrev pub pending : (ℕ → Time) → A → List (Envelope E)
  pending now a =
      envelopes_from r now a (acc.get_base a).committed_version 0 (acc.get_base a).uncommitted

  pub save_empty :
      (ctx later : Ctx) (now : ℕ → Time) (a : A) (w : W)
      → (acc.get_base a).uncommitted ≡ []
      → save r ctx later now a w ≡ ((a, w), ok tt)
  unfolding save
  save_empty ctx later now a w h = rw (laws.embeds, h)

  pub save_nonempty :
      (ctx later : Ctx) (now : ℕ → Time) (a : A) (w : W)
      → (acc.get_base a).uncommitted ≢ []
      → save r ctx later now a w
        ≡ after_append r acc later a (pending now a) (
            r.store.append ctx
              (r.root.aggregate_id a)
              (acc.get_base a).committed_version
              (pending now a)
              w)
  unfolding save
  save_nonempty ctx later now a w h =
      ap (λ b. save_with r b ctx later now a w) laws.embeds ∙ go (acc.get_base a).uncommitted h
    where
      go :
          (es : List E)
          → es ≢ []
          → let envs = envelopes_from r now a (acc.get_base a).committed_version 0 es in
            save_pending r acc ctx later now a es w
            ≡ after_append r acc later a envs (
                r.store.append ctx
                  (r.root.aggregate_id a)
                  (acc.get_base a).committed_version
                  envs
                  w)
      go [] n = absurd (n refl)
      go (e ∷ es) n = refl

  pub pending-ne-nil :
      (now : ℕ → Time) (a : A) → (acc.get_base a).uncommitted ≢ [] → pending now a ≢ []
  unfolding envelopes_from
  pending-ne-nil now a h = go (acc.get_base a).uncommitted h
    where
      go :
          (es : List E)
          → es ≢ []
          → envelopes_from r now a (acc.get_base a).committed_version 0 es ≢ []
      go [] n = absurd (n refl)
      go (e ∷ es) n = λ p. cc p

module _ {W A E : Type 0} (r : Repository W A E) {acc : BaseAccessor A E}
    (laws : RootLaws r.root acc) (spec : StoreSpec r.store)
    (quiet : Keeps r.publish spec.stream) where
  -- The events are in the store and the aggregate is committed.
  pub record Saved (now : ℕ → Time) (a : A) (w : W) (a' : A) (w' : W) : Type 0 where
    pub committed : a' ≡ commit r.root acc a
    pub at_head : spec.head w (r.root.aggregate_id a) ≡ (acc.get_base a).committed_version
    pub written :
        (j : Uuid)
        → spec.stream w' j ≡ (
            if nat_beq (r.root.aggregate_id a) j
            then spec.stream w (r.root.aggregate_id a) ++ pending r laws now a
            else spec.stream w j)

  pub written_at :
      {now : ℕ → Time} {a : A} {w : W} {a' : A} {w' : W} (id : Uuid)
      → Saved now a w a' w'
      → r.root.aggregate_id a ≡ id
      → spec.stream w' id ≡ spec.stream w id ++ pending r laws now a
  written_at {now} {a} {w} {a'} {w'} id done same =
      subst (λ k. spec.stream w' k ≡ spec.stream w k ++ pending r laws now a) same
        (done.written (r.root.aggregate_id a)
          ∙ ap
              (λ b.
                if b
                then spec.stream w (r.root.aggregate_id a) ++ pending r laws now a
                else spec.stream w (r.root.aggregate_id a))
              ((nat_beq_iff _ _).1 refl))

  -- Or nothing is written, and the aggregate is as it was.
  pub record Refused (a : A) (w : W) (a' : A) (w' : W) (result : Done) : Type 0 where
    pub unchanged : a' ≡ a
    pub reported : result ≢ ok tt
    pub kept : (j : Uuid) → spec.stream w' j ≡ spec.stream w j

  -- The store answered well in `v`; what came after left the streams alone.
  appended :
      (ctx : Ctx) (now : ℕ → Time) (a : A) (w v w' : W)
      → (acc.get_base a).uncommitted ≢ []
      → r.store.append ctx
          (r.root.aggregate_id a)
          (acc.get_base a).committed_version
          (pending r laws now a)
          w
        ≡ (v, ok tt)
      → spec.stream w' ≡ spec.stream v
      → Saved now a w (commit r.root acc a) w'
  appended ctx now a w v w' some_pending h same =
      let effect =
        spec.append_ok ctx (r.root.aggregate_id a) (acc.get_base a).committed_version
          (pending r laws now a) w (pending-ne-nil r laws now a some_pending) (ap (λ q. q.1) h) in
      record {
        committed = refl;
        at_head = effect.0;
        written = λ j. ap (λ f. f j) same ∙ sym (ap (λ q. spec.stream q.0 j) h) ∙ effect.1 j;
      }

  not_appended :
      (ctx : Ctx) (now : ℕ → Time) (a : A) (w v : W) (answer result : Done)
      → r.store.append ctx
          (r.root.aggregate_id a)
          (acc.get_base a).committed_version
          (pending r laws now a)
          w
        ≡ (v, answer)
      → answer ≢ ok tt
      → result ≢ ok tt
      → Refused a w a v result
  not_appended ctx now a w v answer result h bad bad' = record {
    unchanged = refl;
    reported = bad';
    kept = λ j.
        sym (ap (λ q. spec.stream q.0 j) h)
        ∙ spec.append_failed ctx _ _ _ w (λ p. bad (sym (ap (λ q. q.1) h) ∙ p)) j;
  }

  -- A successful append makes a successful save, whatever the publishing returns.
  appended-Saved :
      (ctx later : Ctx) (now : ℕ → Time) (a : A) (w v : W)
      → (acc.get_base a).uncommitted ≢ []
      → r.store.append ctx
          (r.root.aggregate_id a)
          (acc.get_base a).committed_version
          (pending r laws now a)
          w
        ≡ (v, ok tt)
      → let q = after_append r acc later a (pending r laws now a) (v, ok tt) in
        Saved now a w q.0.0 q.0.1
  unfolding after_append
  appended-Saved ctx later now a w v some_pending h = go r.store.has_outbox
    where
      go :
          (b : Bool)
          → let q =
              if◌then◌else◌ {A = (A × W) × Done} b
                ((commit r.root acc a, v), ok tt)
                (let (w', result) = publish_all r later (pending r laws now a) v in
                  ((commit r.root acc a, w'), result)) in
            Saved now a w q.0.0 q.0.1
      go true = appended ctx now a w v v some_pending h refl
      go false =
          appended ctx now a w v _ some_pending h
            (publish_all_keeps r spec.stream quiet later (pending r laws now a) v)

  -- `Save` where the store accepts the events.
  pub save-Saved :
      (ctx later : Ctx) (now : ℕ → Time) (a : A) (w : W)
      → (acc.get_base a).uncommitted ≢ []
      → (r.store.append ctx
          (r.root.aggregate_id a)
          (acc.get_base a).committed_version
          (pending r laws now a)
          w).1
        ≡ ok tt
      → let q = save r ctx later now a w in Saved now a w q.0.0 q.0.1
  save-Saved ctx later now a w some_pending h =
      let answer =
        r.store.append ctx (r.root.aggregate_id a) (acc.get_base a).committed_version
          (pending r laws now a) w in
      let good : answer ≡ (answer.0, ok tt) = ap (λ r. (answer.0, r)) h in
      subst (λ q. Saved now a w q.0.0 q.0.1)
        (sym (
          save_nonempty r laws ctx later now a w some_pending
          ∙ ap (after_append r acc later a (pending r laws now a)) good))
        (appended-Saved ctx later now a w answer.0 some_pending good)

  after_append-cases :
      (ctx later : Ctx) (now : ℕ → Time) (a : A) (w : W) (p : W × Done)
      → (acc.get_base a).uncommitted ≢ []
      → r.store.append ctx
          (r.root.aggregate_id a)
          (acc.get_base a).committed_version
          (pending r laws now a)
          w
        ≡ p
      → let q = after_append r acc later a (pending r laws now a) p in
        Saved now a w q.0.0 q.0.1 ⊎ Refused a w q.0.0 q.0.1 q.1
  unfolding after_append
  after_append-cases ctx later now a w (v, ok _) some_pending h =
      inl (appended-Saved ctx later now a w v some_pending h)
  after_append-cases ctx later now a w (v, err e) some_pending h =
      inr (not_appended ctx now a w v _ _ h (λ p. cc p) (λ p. cc p))
  after_append-cases ctx later now a w (v, panics m) some_pending h =
      inr (not_appended ctx now a w v _ _ h (λ p. cc p) (λ p. cc p))

  -- For a store that meets StoreSpec, by which an append that fails leaves every stream as it was
  -- (the store in memory does, and a Postgres commit that fails and yet happens does not), a bus
  -- whose subscribers leave the streams alone, and an aggregate that meets RootLaws: `Save` of an
  -- aggregate with queued events either commits it and adds exactly its envelopes to its stream,
  -- from a store whose head is the committed version, whatever the publishing returns; or it does
  -- not return nil, and leaves the aggregate and every stream as they were.
  pub save_all_or_nothing :
      (ctx later : Ctx) (now : ℕ → Time) (a : A) (w : W)
      → (acc.get_base a).uncommitted ≢ []
      → let q = save r ctx later now a w in Saved now a w q.0.0 q.0.1 ⊎ Refused a w q.0.0 q.0.1 q.1
  save_all_or_nothing ctx later now a w some_pending =
      subst (λ q. Saved now a w q.0.0 q.0.1 ⊎ Refused a w q.0.0 q.0.1 q.1)
        (sym (save_nonempty r laws ctx later now a w some_pending))
        (after_append-cases ctx later now a w _ some_pending refl)

  -- An aggregate with queued events whose committed version is not the head of its stream is not
  -- saved: `Save` does not return nil, and leaves the aggregate and every stream as they were.
  pub save_stale :
      (ctx later : Ctx) (now : ℕ → Time) (a : A) (w : W)
      → (acc.get_base a).uncommitted ≢ []
      → spec.head w (r.root.aggregate_id a) ≢ (acc.get_base a).committed_version
      → let q = save r ctx later now a w in Refused a w q.0.0 q.0.1 q.1
  save_stale ctx later now a w some_pending stale =
      elim (save_all_or_nothing ctx later now a w some_pending) [
        | inl done ↦ absurd (stale done.at_head)
        | inr kept ↦ kept
      ]
