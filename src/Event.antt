-- ===== src/Event.antt =====
-- event/event.go and event/errors.go: the envelope, and the interfaces Event, Bus and Store. The
-- two error variables are constructors of `Sentinel`.
pub mod Registry
pub mod Spec
pub mod Delivery
pub mod Outbox
pub mod Dispatcher
use goaxon.Prelude.{ℕ, String, Bool, Option, none, List}
use goaxon.Go.Error.{GoError, sentinel, canceled, deadline_exceeded}
use goaxon.Go.Outcome.{Exec}
use goaxon.Go.Map.{Map}

-- A `uuid.UUID` is an array of 16 bytes: the number that they spell. `uuid.Nil` is 0.
abbrev pub Uuid : Type 0
Uuid = ℕ

abbrev pub nil_uuid : Uuid
nil_uuid = 0

abbrev pub uuid_bound : ℕ
uuid_bound = 340282366920938463463374607431768211456

-- A `time.Time`, only passed on and stored.
abbrev pub Time : Type 0
Time = ℕ

-- A `context.Context` as a callee sees it: what `ctx.Err()` answers when it is asked, nil or one
-- of the two errors of package context.
pub data CtxError : Type 0 where
  is_canceled is_past_deadline : CtxError

abbrev pub ctx_error : CtxError → GoError
ctx_error is_canceled = sentinel canceled
ctx_error is_past_deadline = sentinel deadline_exceeded

abbrev pub Ctx : Type 0
Ctx = Option CtxError

-- What the surroundings answer during one call of the program: `ctx.Err()` each time that a callee
-- asks, and `time.Now` each time.
pub record Call : Type 0 where
  pub ctx : ℕ → Ctx
  pub now : ℕ → Time

-- A call whose context is never done.
abbrev pub undisturbed : Call
undisturbed = record { ctx = λ _. none; now = λ i. i }

-- The interface `Event`, for the type of a program's events.
pub record Event (E : Type 0) : Type 0 where
  pub event_type : E → String

-- A nil `Metadata` is `none`.
pub record Envelope (E : Type 0) : Type 0 where
  pub aggregate_id : Uuid
  pub aggregate_type : String
  pub sequence : ℕ
  pub timestamp : Time
  pub payload : E
  pub metadata : Option (Map String String)

-- A handler may change the world `W` of what it writes to.
abbrev pub Handler : Type 0 → Type 0 → Type 0
Handler W E = Ctx → Envelope E → Exec W Unit

-- `Bus.Publish`
abbrev pub Publisher : Type 0 → Type 0 → Type 0
Publisher W E = Ctx → Envelope E → Exec W Unit

-- The interface `Store`. `has_outbox` is the answer of the assertion to `event.Outbox`.
pub record Store (W E : Type 0) : Type 0 where
  pub append : Ctx → Uuid → ℕ → List (Envelope E) → Exec W Unit
  pub load : Ctx → Uuid → Exec W (List (Envelope E))
  pub has_outbox : Bool
