-- ===== src/Event/Dispatcher/Running.antt =====
-- event/dispatcher.go: `Run` and the queue of the outbox.
use goaxon.Prelude.{ℕ, List, [], ◌∷◌, ◌++◌, append_assoc, ◌≡◌, inl, inr, refl, ap, sym, ◌∙◌, String}
use goaxon.Go.Error.{GoError}
use goaxon.Go.Outcome.{OrPanic}
use goaxon.Event.{Ctx, Event}
use goaxon.Event.Delivery.{Keeps}
use goaxon.Event.Outbox.{OutboxEntry}
use goaxon.Event.Dispatcher.{Dispatcher, TickCtx, Wake, done, fired, after_tick, run, tick}
use goaxon.Event.Dispatcher.Delivering.{Took}
use goaxon.Event.Dispatcher.Safety.{OutboxSpec, TickEffect, kept, removed, tick-TickEffect}

module _ {W E : Type 0} (ev : Event E) (print_id : ℕ → String) (d : Dispatcher W E) where
  -- What the later ticks took, where the tick before them did not panic.
  abbrev pub TookAfter :
      W × OrPanic ℕ → List (OutboxEntry E) → (W → List (OutboxEntry E) → Type 0) → Type 0
  TookAfter (w, inl fetched) taken rest = rest w taken
  TookAfter (w, inr m) taken rest = taken ≡ []

  -- In the run of `wakes` from `w` the bus took the entries of `taken`, in order: in each tick some
  -- of them, one call after the other from where the tick's claim ended, and the others in the
  -- ticks that follow.
  abbrev pub TookIn : List Wake → W → List (OutboxEntry E) → Type 0
  TookIn [] w taken = taken ≡ []
  TookIn (done e ∷ wakes) w taken = taken ≡ []
  TookIn (fired ctx ∷ wakes) w taken =
      (before after : List (OutboxEntry E)) × (v : W) × (taken ≡ before ++ after)
      × Took ev print_id d ctx.at_publish 0 (d.outbox.claim ctx.at_claim d.batch_size w).0 before v
      × TookAfter (tick ev print_id d ctx w) after (TookIn wakes)

  module _ {S : Type 0} (spec : OutboxSpec S d.outbox) (quiet : Keeps d.bus spec.state)
      (quiet_errors : (ctx : Ctx) (e : GoError) (w : W)
        → spec.state (d.on_error ctx e w) ≡ spec.state w) where
    abbrev queue : W → List (OutboxEntry E)
    queue w = spec.undispatched (spec.state w)

    -- The run of `wakes` from `w` to `w'` took the entries that have gone from the front of the
    -- queue.
    abbrev pub Drained : List Wake → W → W → Type 0
    Drained wakes w w' =
        (taken : List (OutboxEntry E)) × (queue w ≡ taken ++ queue w') × TookIn wakes w taken

    -- What the ticks after `v` do to the queue.
    abbrev Later : List Wake → W × OrPanic ℕ → W → Type 0
    Later wakes p w' =
        (taken : List (OutboxEntry E)) × (queue p.0 ≡ taken ++ queue w')
        × TookAfter p taken (TookIn wakes)

    Drained-step :
        (ctx : TickCtx) (wakes : List Wake) (w w' : W)
        → TickEffect ev print_id d spec quiet quiet_errors ctx w (tick ev print_id d ctx w).0
        → Later wakes (tick ev print_id d ctx w) w'
        → Drained (fired ctx ∷ wakes) w w'
    Drained-step ctx wakes w w' (kept same) (taken, split, later) =
        (taken, sym same ∙ split, ([], taken, _, refl, refl, later))
    Drained-step ctx wakes w w' (removed before rest u whole took left) (taken, split, later) = (
      before ++ taken,
      whole ∙ ap (λ l. before ++ l) (sym left ∙ split) ∙ sym (append_assoc before taken (queue w')),
      (before, taken, u, refl, took, later),
    )

    -- For an outbox that meets OutboxSpec, and a bus and an error handler that leave it alone:
    -- whatever wakes `Run` and whatever fails in its ticks, the queue of undispatched entries at
    -- its start is a list of entries that the bus took in this run, followed by the queue at its
    -- end. The entries of the list were taken in order: in each tick some of them, by one call of
    -- the bus after the other from the state in which the tick's claim ended, and none after a
    -- tick that panicked.
    pub run-Drained : (wakes : List Wake) (w : W) → Drained wakes w (run ev print_id d wakes w).0
    unfolding run
    run-Drained [] w = ([], refl, refl)
    run-Drained (done e ∷ wakes) w = ([], refl, refl)
    run-Drained (fired ctx ∷ wakes) w =
        Drained-step ctx wakes w _ (tick-TickEffect ev print_id d spec quiet quiet_errors ctx w)
          (by_tick (tick ev print_id d ctx w) (run-Drained wakes))
      where
        by_tick :
            (p : W × OrPanic ℕ)
            → ((v : W) → Drained wakes v (run ev print_id d wakes v).0)
            → Later wakes p (after_tick ev print_id d p (run ev print_id d wakes)).0
        by_tick (v, inl fetched) later = later v
        by_tick (v, inr m) later = ([], refl, refl)
