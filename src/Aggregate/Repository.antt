-- ===== src/Aggregate/Repository.antt =====
-- aggregate/aggregate.go: `Repository`.
use Prim.Native.String.{◌++◌ as cat}
use goaxon.Prelude.{ℕ, String, Option, none, some, List, [], ◌∷◌, ◌+◌, if◌then◌else◌}
use goaxon.Go.Error.{text, wrapped}
use goaxon.Go.Outcome.{Done, Outcome, ok, err, panics, Exec, wrap_err}
use goaxon.Go.Exec.{◌>>=◌, lift, map_err}
use goaxon.Go.Word.{u64}
use goaxon.Event.{Uuid, Time, Ctx, Event, Envelope, Publisher, Store}
use goaxon.Aggregate.{BaseAccessor, Root, rehydrate, mark_committed}

-- `print` is the `String` method of `uuid.UUID`, which `%s` calls.
pub record Repository (W A E : Type 0) : Type 0 where
  pub root : Root A E
  pub event : Event E
  pub store : Store W E
  pub publish : Publisher W E
  pub factory : Uuid → A
  pub print : Uuid → String

abbrev pub not_embedded : {A : Type 0} → String → Outcome A
not_embedded type_text =
    err (text (cat "aggregate: " (cat type_text " must embed *aggregate.Base")))

module _ {W A E : Type 0} (r : Repository W A E) where
  -- The loop of `Load`.
  unfoldable pub replay : BaseAccessor A E → A → List (Envelope E) → A
  replay acc agg [] = agg
  replay acc agg (env ∷ envs) = replay acc (rehydrate r.root acc agg env.payload) envs

  abbrev pub rebuild : Option (BaseAccessor A E) → Uuid → List (Envelope E) → Outcome A
  rebuild none id envelopes = not_embedded r.root.type_text
  rebuild (some acc) id envelopes = ok (replay acc (r.factory id) envelopes)

  -- `Load`
  unfoldable pub load : Ctx → Uuid → Exec W A
  load ctx id = do
    envelopes ←
        map_err (wrap_err λ e. wrapped (cat "aggregate: load " (cat (r.print id) ": ")) e "")
          (r.store.load ctx id)
    lift (rebuild r.root.base id envelopes)

  -- The loop that fills `envelopes`, from index `i` on; `now i` is what `time.Now` answers then.
  unfoldable pub envelopes_from : (ℕ → Time) → A → ℕ → ℕ → List E → List (Envelope E)
  envelopes_from now agg expected i [] = []
  envelopes_from now agg expected i (e ∷ es) =
      record {
        aggregate_id = r.root.aggregate_id agg;
        aggregate_type = r.root.aggregate_type agg;
        sequence = u64 (expected + i + 1);
        timestamp = now i;
        payload = e;
        metadata = none;
      }
      ∷ envelopes_from now agg expected (i + 1) es

  -- The body of the loop that publishes: an error ends the loop.
  abbrev pub after_publish : Envelope E → W × Done → (W → W × Done) → W × Done
  after_publish env (w, ok _) rest = rest w
  after_publish env (w, err e) rest = (
    w,
    err (wrapped (cat "aggregate: publish " (cat (r.event.event_type env.payload) ": ")) e ""),
  )
  after_publish env (w, panics m) rest = (w, panics m)

  unfoldable pub publish_all : Ctx → List (Envelope E) → Exec W Unit
  publish_all ctx [] w = (w, ok tt)
  publish_all ctx (env ∷ envs) w = after_publish env (r.publish ctx env w) (publish_all ctx envs)

  -- What `Save` does once the store has answered. The aggregate is part of the result's state.
  unfoldable pub after_append :
      BaseAccessor A E → Ctx → A → List (Envelope E) → W × Done → (A × W) × Done
  after_append acc ctx agg envelopes (w, ok _) =
      let agg' = acc.set_base (mark_committed (acc.get_base agg)) agg in
      if r.store.has_outbox
      then ((agg', w), ok tt)
      else let (w', result) = publish_all ctx envelopes w in ((agg', w'), result)
  after_append acc ctx agg envelopes (w, err e) =
      ((agg, w), err (wrapped "aggregate: append: " e ""))
  after_append acc ctx agg envelopes (w, panics m) = ((agg, w), panics m)

  -- `Save` where there are events, with the context that `Append` sees and that of the handlers.
  abbrev pub save_pending :
      BaseAccessor A E → Ctx → Ctx → (ℕ → Time) → A → List E → W → (A × W) × Done
  save_pending acc ctx later now agg [] w = ((agg, w), ok tt)
  save_pending acc ctx later now agg (e ∷ es) w =
      let expected = (acc.get_base agg).committed_version in
      let envelopes = envelopes_from now agg expected 0 (e ∷ es) in
      after_append acc later agg envelopes
        (r.store.append ctx (r.root.aggregate_id agg) expected envelopes w)

  abbrev pub save_with : Option (BaseAccessor A E) → Ctx → Ctx → (ℕ → Time) → A → W → (A × W) × Done
  save_with none ctx later now agg w = ((agg, w), not_embedded r.root.type_text)
  save_with (some acc) ctx later now agg w =
      save_pending acc ctx later now agg (acc.get_base agg).uncommitted w

  -- `Save`
  unfoldable pub save : Ctx → Ctx → (ℕ → Time) → A → W → (A × W) × Done
  save ctx later now agg w = save_with r.root.base ctx later now agg w
