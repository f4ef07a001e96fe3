-- ===== src/Memory/Publish.antt =====
-- store/memory/memory.go: `Subscribe` and `Publish`.
use goaxon.Prelude.{
  String, Bool, true, false, some, List, [], ◌∷◌, ◌++◌, ◌≡◌, ◌↔◌, refl, ap, ◌∙◌, if◌then◌else◌,
  ◌==◌, string_eq,
}
use goaxon.Go.Error.{GoError, Sentinel, errors_is, join, any_is, errors_is-joined}
use goaxon.Go.Outcome.{Done, ok, err, panics, of_error}
use goaxon.Go.Map.{lookup, lookup-insert}
use goaxon.Event.{Event, Ctx, Envelope, Handler}
use goaxon.Memory.{Bus, slice_at, subscribe, after_handler, run_handlers, publish}

abbrev pub error_of : Done → List GoError
error_of (err e) = e ∷ []
error_of _ = []

abbrev pub Returns : Done → Type 0
Returns (panics m) = ⊥
Returns _ = Unit

-- Whether an outcome is an error that `errors.Is` finds `t` in.
abbrev pub fails_as : Done → Sentinel → Bool
fails_as (err e) t = errors_is e t
fails_as _ t = false

pub fails_as-join :
    (errs : List GoError) (t : Sentinel) → fails_as (of_error (join errs)) t ≡ any_is errs t
unfolding join
fails_as-join [] t = refl
fails_as-join (e ∷ es) t = errors_is-joined e es t

join-ok : (errs : List GoError) → (of_error (join errs) ≡ ok tt) ↔ (errs ≡ [])
unfolding join
join-ok [] = ((λ _. refl), (λ _. refl))
join-ok (e ∷ es) = ((λ p. cc p), (λ p. cc p))

module _ {W E : Type 0} where
  -- The handlers that `Publish` calls for an event of a type.
  abbrev pub subscribers : Bus W E → String → List (Handler W E)
  subscribers b event_type = slice_at (lookup event_type b)

  -- A new subscription comes last among those of its type, and no other type is affected.
  pub subscribers-subscribe :
      (t u : String) (h : Handler W E) (b : Bus W E)
      → subscribers (subscribe t h b) u
        ≡ (if t == u then subscribers b t ++ h ∷ [] else subscribers b u)
  unfolding subscribe
  subscribers-subscribe t u h b =
      ap slice_at (lookup-insert t u (subscribers b t ++ h ∷ []) b) ∙ push (t == u)
    where
      push :
          (c : Bool)
          → slice_at (if c then some (subscribers b t ++ h ∷ []) else lookup u b)
            ≡ (if c then subscribers b t ++ h ∷ [] else subscribers b u)
      push true = refl
      push false = refl

  module _ (ctx : Ctx) (env : Envelope E) where
    -- The world after each of the handlers has run, one after the other.
    abbrev pub world_after : List (Handler W E) → W → W
    world_after [] w = w
    world_after (h ∷ hs) w = world_after hs (h ctx env w).0

    -- The errors that they return.
    abbrev pub errors_of : List (Handler W E) → W → List GoError
    errors_of [] w = []
    errors_of (h ∷ hs) w = error_of (h ctx env w).1 ++ errors_of hs (h ctx env w).0

    -- None of them panics.
    abbrev pub AllReturn : List (Handler W E) → W → Type 0
    AllReturn [] w = Unit
    AllReturn (h ∷ hs) w = Returns (h ctx env w).1 × AllReturn hs (h ctx env w).0

    run_handlers_lem :
        (hs : List (Handler W E)) (w : W)
        → AllReturn hs w
        → run_handlers hs ctx env w ≡ (world_after hs w, ok (errors_of hs w))
    unfolding run_handlers
    run_handlers_lem [] w calm = refl
    run_handlers_lem (h ∷ hs) w calm =
        ap (after_handler (h ctx env w).1 (h ctx env w).0)
          (run_handlers_lem hs (h ctx env w).0 calm.1)
        ∙ step (h ctx env w).1 calm.0
      where
        step :
            (r : Done)
            → Returns r
            → after_handler r
                (h ctx env w).0
                (world_after hs (h ctx env w).0, ok (errors_of hs (h ctx env w).0))
              ≡ (world_after hs (h ctx env w).0, ok (error_of r ++ errors_of hs (h ctx env w).0))
        step (ok _) c = refl
        step (err e) c = refl
        step (panics m) c = absurd c

  -- `Publish` of the bus in memory runs every subscriber of the event's type, in order, whatever
  -- the earlier ones return, provided that none panics; it returns nil exactly if each of them
  -- does, and its error is (by `errors.Is`) everything that one of theirs is.
  pub publish_every_handler :
      (ev : Event E) (b : Bus W E) (ctx : Ctx) (env : Envelope E) (w : W)
      → let hs = subscribers b (ev.event_type env.payload) in
        AllReturn ctx env hs w
        → let q = publish ev b ctx env w in
          (q.0 ≡ world_after ctx env hs w)
          × ((q.1 ≡ ok tt) ↔ (errors_of ctx env hs w ≡ []))
          × ((t : Sentinel) → fails_as q.1 t ≡ any_is (errors_of ctx env hs w) t)
  unfolding publish
  publish_every_handler ev b ctx env w calm =
      let hs = subscribers b (ev.event_type env.payload) in
      let errs = errors_of ctx env hs w in
      rw (run_handlers_lem ctx env hs w calm) (refl, join-ok errs, fails_as-join errs)
