-- ===== src/Aggregate/Saving.antt =====
-- aggregate/aggregate.go: the loop of `Save` that publishes.
use Prim.Native.String.{◌++◌ as cat}
use goaxon.Prelude.{String, List, [], ◌∷◌, ◌++◌, ◌≡◌, refl, ap, ◌∙◌}
use goaxon.Go.Error.{GoError, wrapped}
use goaxon.Go.Outcome.{Done, ok, err, panics}
use goaxon.Event.{Ctx, Envelope}
use goaxon.Event.Delivery.{Delivered, Keeps}
use goaxon.Aggregate.Repository.{after_publish, Repository, publish_all}

module _ {W A E : Type 0} (r : Repository W A E) where
  -- The error that `Save` returns for an error of the bus at `env`.
  abbrev pub publish_error : Envelope E → GoError → GoError
  publish_error env e =
      wrapped (cat "aggregate: publish " (cat (r.event.event_type env.payload) ": ")) e ""

  -- How the publishing of `envs` from `w` ended in `w'` with `result`.
  pub data PublishEnd (ctx : Ctx) (w : W) (envs : List (Envelope E)) (w' : W) (result : Done)
      : Type 0 where
    all : Delivered r.publish ctx w envs w' → result ≡ ok tt → PublishEnd ctx w envs w' result
    failed :
        (before after : List (Envelope E)) (env : Envelope E) (v : W) (e : GoError)
        → envs ≡ before ++ env ∷ after
        → Delivered r.publish ctx w before v
        → r.publish ctx env v ≡ (w', err e)
        → result ≡ err (publish_error env e)
        → PublishEnd ctx w envs w' result
    panicked :
        (before after : List (Envelope E)) (env : Envelope E) (v : W) (m : String)
        → envs ≡ before ++ env ∷ after
        → Delivered r.publish ctx w before v
        → r.publish ctx env v ≡ (w', panics m)
        → result ≡ panics m
        → PublishEnd ctx w envs w' result

  later_end :
      (ctx : Ctx) (w v w' : W) (env : Envelope E) (envs : List (Envelope E)) (result : Done)
      → r.publish ctx env w ≡ (v, ok tt)
      → PublishEnd ctx v envs w' result
      → PublishEnd ctx w (env ∷ envs) w' result
  later_end ctx w v w' env envs result h (all d e) = all (v, h, d) e
  later_end ctx w v w' env envs result h (failed before after bad u e split d p q) =
      failed (env ∷ before) after bad u e (ap (λ l. env ∷ l) split) (v, h, d) p q
  later_end ctx w v w' env envs result h (panicked before after bad u m split d p q) =
      panicked (env ∷ before) after bad u m (ap (λ l. env ∷ l) split) (v, h, d) p q

  after_publish-PublishEnd :
      (ctx : Ctx) (w : W) (env : Envelope E) (envs : List (Envelope E)) (p : W × Done)
      → r.publish ctx env w ≡ p
      → ((v : W) → PublishEnd ctx v envs (publish_all r ctx envs v).0 (publish_all r ctx envs v).1)
      → PublishEnd ctx w
          (env ∷ envs)
          (after_publish r env p (publish_all r ctx envs)).0
          (after_publish r env p (publish_all r ctx envs)).1
  after_publish-PublishEnd ctx w env envs (v, ok _) h rest =
      later_end ctx w v _ env envs _ h (rest v)
  after_publish-PublishEnd ctx w env envs (v, err e) h rest =
      failed [] envs env w e refl refl h refl
  after_publish-PublishEnd ctx w env envs (v, panics m) h rest =
      panicked [] envs env w m refl refl h refl

  -- The publishing at the end of `Save` goes through the envelopes in order: all of them are
  -- published and the result is nil, or it stops at the first whose publishing fails, with its
  -- error wrapped, or panics.
  pub publish_all-PublishEnd :
      (ctx : Ctx) (envs : List (Envelope E)) (w : W)
      → PublishEnd ctx w envs (publish_all r ctx envs w).0 (publish_all r ctx envs w).1
  unfolding publish_all
  publish_all-PublishEnd ctx [] w = all refl refl
  publish_all-PublishEnd ctx (env ∷ envs) w =
      after_publish-PublishEnd ctx w env envs (r.publish ctx env w) refl
        (publish_all-PublishEnd ctx envs)

  -- A part of the state that no handler writes is as it was.
  pub publish_all_keeps {ℓ} :
      {X : Type ℓ} (view : W → X)
      → Keeps r.publish view
      → (ctx : Ctx) (envs : List (Envelope E)) (w : W) → view (publish_all r ctx envs w).0 ≡ view w
  unfolding publish_all
  publish_all_keeps view k ctx [] w = refl
  publish_all_keeps {X} view k ctx (env ∷ envs) w =
      go (r.publish ctx env w) (k ctx env w) (publish_all_keeps view k ctx envs)
    where
      go :
          (p : W × Done)
          → view p.0 ≡ view w
          → ((v : W) → view (publish_all r ctx envs v).0 ≡ view v)
          → view (after_publish r env p (publish_all r ctx envs)).0 ≡ view w
      go (v, ok _) h rest = rest v ∙ h
      go (v, err e) h rest = h
      go (v, panics m) h rest = h
