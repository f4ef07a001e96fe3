-- ===== src/Event/Delivery.antt =====
-- event/event.go: envelopes that a publisher takes one after the other, and what it leaves alone.
use goaxon.Prelude.{List, [], ◌∷◌, ◌≡◌}
use goaxon.Go.Outcome.{ok}
use goaxon.Event.{Ctx, Envelope, Publisher}

module _ {W E : Type 0} (publish : Publisher W E) (ctx : Ctx) where
  -- Each of the envelopes is published without an error, in order, from `w` to `w'`.
  abbrev pub Delivered : W → List (Envelope E) → W → Type 0
  Delivered w [] w' = w ≡ w'
  Delivered w (env ∷ envs) w' = (v : W) × (publish ctx env w ≡ (v, ok tt)) × Delivered v envs w'

-- What a publisher leaves alone: handlers read events, and write no event stream.
abbrev pub Keeps {ℓ} : {W E : Type 0} {X : Type ℓ} → Publisher W E → (W → X) → Type ℓ
Keeps {W} {E} publish view =
    (ctx : Ctx) (env : Envelope E) (w : W) → view (publish ctx env w).0 ≡ view w
