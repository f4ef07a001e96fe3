-- ===== src/Event/Outbox.antt =====
-- event/outbox.go: the queue of undispatched events, and claims on it.
use goaxon.Prelude.{ℕ, List, Option}
use goaxon.Go.Error.{GoError}
use goaxon.Go.Outcome.{Exec}
use goaxon.Go.Word.{ℤ}
use goaxon.Event.{Ctx, Envelope}

pub record OutboxEntry (E : Type 0) : Type 0 where
  pub outbox_id : ℕ
  pub envelope : Envelope E

-- The interface `Claim`. Its two ends return an error or nil.
pub record Claim (W E : Type 0) : Type 0 where
  pub entries : List (OutboxEntry E)
  pub commit : Ctx → List ℕ → W → W × Option GoError
  pub release : Ctx → W → W × Option GoError

-- The interface `Outbox`; a batch size is an `int`.
pub record Outbox (W E : Type 0) : Type 0 where
  pub claim : Ctx → ℤ → Exec W (Claim W E)
