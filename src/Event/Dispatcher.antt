-- ===== src/Event/Dispatcher.antt =====
-- event/dispatcher.go: publishing what the outbox holds.
pub mod Closing
pub mod Draining
pub mod Running
pub mod Spinning
pub mod Delivering
pub mod Safety
use Prim.Native.String.{◌++◌ as cat}
use goaxon.Prelude.{
  inl, inr, ℕ, suc, ◌+◌, String, Bool, true, false, Option, none, some, List, [], ◌∷◌, nat_beq,
  length, if◌then◌else◌,
}
use goaxon.Go.Error.{GoError, wrapped}
use goaxon.Go.Outcome.{OrPanic, Outcome, Done, ok, err, panics, Exec}
use goaxon.Go.Word.{ℤ, pos, negsuc}
use goaxon.Event.{Ctx, CtxError, Event, Envelope, Publisher}
use goaxon.Event.Outbox.{OutboxEntry, Claim, Outbox}

-- Durations are nanoseconds. `on_error` may change the world, and is taken to return.
pub record Dispatcher (W E : Type 0) : Type 0 where
  pub outbox : Outbox W E
  pub bus : Publisher W E
  pub poll_interval : ℤ
  pub batch_size : ℤ
  pub on_error : Ctx → GoError → W → W

-- `DispatcherOption` and the three functions that make one.
abbrev pub DispatcherOption : Type 0 → Type 0 → Type 0
DispatcherOption W E = Dispatcher W E → Dispatcher W E

abbrev pub with_poll_interval : {W E : Type 0} → ℤ → DispatcherOption W E
with_poll_interval d disp = record disp { poll_interval = d }

abbrev pub with_batch_size : {W E : Type 0} → ℤ → DispatcherOption W E
with_batch_size n disp = record disp { batch_size = n }

abbrev pub with_error_handler : {W E : Type 0} → (Ctx → GoError → W → W) → DispatcherOption W E
with_error_handler fn disp = record disp { on_error = fn }

abbrev pub apply_options :
    {W E : Type 0} → List (DispatcherOption W E) → Dispatcher W E → Dispatcher W E
apply_options [] d = d
apply_options (opt ∷ opts) d = apply_options opts (opt d)

-- `NewDispatcher`: 100 milliseconds, batches of 100, errors ignored.
abbrev pub new_dispatcher :
    {W E : Type 0} → Outbox W E → Publisher W E → List (DispatcherOption W E) → Dispatcher W E
new_dispatcher outbox bus opts = apply_options opts (record {
  outbox = outbox;
  bus = bus;
  poll_interval = pos 100000000;
  batch_size = pos 100;
  on_error = λ _ _ w. w;
})

-- The context of one tick, at each call that is given it: the claim, the publishing of the i-th
-- entry, and the end of the claim.
pub record TickCtx : Type 0 where
  pub at_claim : Ctx
  pub at_publish : ℕ → Ctx
  pub at_end : Ctx

-- What wakes `Run` from its `select`: the context is done, or the timer has fired.
pub data Wake : Type 0 where
  done : CtxError → Wake
  fired : TickCtx → Wake

-- How far `Run` has come: it returned the context's error, a handler panicked, or it waits in its
-- `select`.
pub data Stand : Type 0 where
  returned : CtxError → Stand
  crashed : String → Stand
  waiting : Stand

module _ {W E : Type 0} (ev : Event E) (print_id : ℕ → String) (d : Dispatcher W E) where
  abbrev pub publish_error : OutboxEntry E → GoError → GoError
  publish_error entry e =
      wrapped
        (cat "dispatcher: publish " (
          cat (ev.event_type entry.envelope.payload)
            (cat " outbox_id=" (cat (print_id entry.outbox_id) ": "))))
        e ""

  abbrev pub and_then : ℕ → W × OrPanic (List ℕ) → W × OrPanic (List ℕ)
  and_then id (w, inl ids) = (w, inl (id ∷ ids))
  and_then id (w, inr m) = (w, inr m)

  -- The body of the loop: an error is reported and ends the loop.
  abbrev pub after_publish :
      Ctx → OutboxEntry E → W × Done → (W → W × OrPanic (List ℕ)) → W × OrPanic (List ℕ)
  after_publish ctx entry (w, ok _) rest = and_then entry.outbox_id (rest w)
  after_publish ctx entry (w, err e) rest = (d.on_error ctx (publish_error entry e) w, inl [])
  after_publish ctx entry (w, panics m) rest = (w, inr m)

  -- The loop over the entries, from index `i` on: the identifiers in `delivered`.
  unfoldable pub deliver : (ℕ → Ctx) → ℕ → List (OutboxEntry E) → W → W × OrPanic (List ℕ)
  deliver ctx i [] w = (w, inl [])
  deliver ctx i (entry ∷ entries) w =
      after_publish (ctx i) entry (d.bus (ctx i) entry.envelope w) (deliver ctx (i + 1) entries)

  -- `if err := f(ctx); err != nil { d.onError(ctx, ...) }`
  abbrev pub report : String → Ctx → W × Option GoError → W
  report before ctx (w, none) = w
  report before ctx (w, some e) = d.on_error ctx (wrapped before e "") w

  -- The end of a claim: released if nothing was delivered, else committed.
  abbrev pub end_claim : Claim W E → Ctx → List ℕ → W → W
  end_claim c ctx [] w = report "dispatcher: release: " ctx (c.release ctx w)
  end_claim c ctx (id ∷ ids) w = report "dispatcher: commit: " ctx (c.commit ctx (id ∷ ids) w)

  abbrev pub after_deliver : Claim W E → Ctx → W × OrPanic (List ℕ) → W × OrPanic ℕ
  after_deliver c ctx (w, inl ids) = (end_claim c ctx ids w, inl (length c.entries))
  after_deliver c ctx (w, inr m) = (w, inr m)

  abbrev pub process : TickCtx → Claim W E → List (OutboxEntry E) → W → W × OrPanic ℕ
  process ctx c [] w =
      (report "dispatcher: release empty claim: " ctx.at_end (c.release ctx.at_end w), inl 0)
  process ctx c (entry ∷ entries) w =
      after_deliver c ctx.at_end (deliver ctx.at_publish 0 (entry ∷ entries) w)

  abbrev pub after_claim : TickCtx → W × Outcome (Claim W E) → W × OrPanic ℕ
  after_claim ctx (w, ok c) = process ctx c c.entries w
  after_claim ctx (w, err e) =
      (d.on_error ctx.at_claim (wrapped "dispatcher: claim: " e "") w, inl 0)
  after_claim ctx (w, panics m) = (w, inr m)

  -- `tick`: how many entries were fetched, 0 where the claim failed.
  unfoldable pub tick : TickCtx → W → W × OrPanic ℕ
  tick ctx w = after_claim ctx (d.outbox.claim ctx.at_claim d.batch_size w)

  -- How long `Run` waits after a tick: not at all if the batch was full.
  abbrev pub same_int : ℕ → ℤ → Bool
  same_int n (pos m) = nat_beq n m
  same_int n (negsuc m) = false

  unfoldable pub wait : ℕ → ℤ
  wait fetched = if same_int fetched d.batch_size then pos 0 else d.poll_interval

  -- `Run`, driven by what wakes it: the state, the waits that the timer was set to, and how far it
  -- has come.
  abbrev pub after_tick : W × OrPanic ℕ → (W → W × List ℤ × Stand) → W × List ℤ × Stand
  after_tick (w, inl fetched) rest =
      let (w', waits, stand) = rest w in (w', wait fetched ∷ waits, stand)
  after_tick (w, inr m) rest = (w, [], crashed m)

  unfoldable pub run : List Wake → W → W × List ℤ × Stand
  run [] w = (w, [], waiting)
  run (done e ∷ wakes) w = (w, [], returned e)
  run (fired ctx ∷ wakes) w = after_tick (tick ctx w) (run wakes)
