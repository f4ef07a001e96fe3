-- ===== src/Memory.antt =====
-- store/memory/memory.go: the event store and the event bus in memory. A method runs under the
-- mutex of its object, so it is one step; `Publish` copies the handlers before it calls them.
pub mod Laws
pub mod Publish
use goaxon.Prelude.{
  false, ℕ, String, Bool, Option, none, some, List, [], ◌∷◌, ◌++◌, nat_beq, length, if◌then◌else◌,
  nat_eq, string_eq,
}
use goaxon.Go.Error.{GoError, sentinel, concurrency_conflict, stream_not_found, join}
use goaxon.Go.Outcome.{Done, Outcome, ok, err, panics, Exec, of_error}
use goaxon.Go.Exec.{Part, on_part, ◌>>=◌, lift}
use goaxon.Go.Map.{Map, lookup, insert}
use goaxon.Go.Word.{u64}
use goaxon.Event.{ctx_error, Uuid, Ctx, Event, Envelope, Handler, Store}

-- The field `streams` of `Store`.
abbrev pub Streams : Type 0 → Type 0
Streams E = Map Uuid (List (Envelope E))

abbrev pub new_store : {E : Type 0} → Streams E
new_store = []

-- `s.streams[id]`, which is nil where the key is missing.
abbrev pub slice_at : {V : Type 0} → Option (List V) → List V
slice_at none = []
slice_at (some vs) = vs

-- `Append`
unfoldable pub append : {E : Type 0} → Ctx → Uuid → ℕ → List (Envelope E) → Exec (Streams E) Unit
append (some e) id expected events s = (s, err (ctx_error e))
append none id expected events s =
    let stream = slice_at (lookup id s) in
    if nat_beq (u64 (length stream)) expected
    then (insert id (stream ++ events) s, ok tt)
    else (s, err (sentinel concurrency_conflict))

-- `Load`. The copy of the slice is the same list.
unfoldable pub load : {E : Type 0} → Ctx → Uuid → Exec (Streams E) (List (Envelope E))
load (some e) id s = (s, err (ctx_error e))
load none id s = elim (lookup id s) [
  | none ↦ (s, err (sentinel stream_not_found))
  | some stream ↦ (s, ok stream)
]

-- The store as an `event.Store` of a program whose state `W` has the streams as a part. It has no
-- method `Claim`.
abbrev pub memory_store : {W E : Type 0} → Part W (Streams E) → Store W E
memory_store p = record {
  append = λ ctx id expected events. on_part p (append ctx id expected events);
  load = λ ctx id. on_part p (load ctx id);
  has_outbox = false;
}

-- The field `handlers` of `Bus`.
abbrev pub Bus : Type 0 → Type 0 → Type 0
Bus W E = Map String (List (Handler W E))

abbrev pub new_bus : {W E : Type 0} → Bus W E
new_bus = []

-- `Subscribe`
unfoldable pub subscribe : {W E : Type 0} → String → Handler W E → Bus W E → Bus W E
subscribe event_type h b = insert event_type (slice_at (lookup event_type b) ++ h ∷ []) b

-- What the loop makes of a handler's end and of the rest of the loop: an error is kept for the
-- end, and a panic leaves the loop.
abbrev pub after_handler :
    {W : Type 0} → Done → W → W × Outcome (List GoError) → W × Outcome (List GoError)
after_handler (ok _) w rest = rest
after_handler (err e) w (w', ok errs) = (w', ok (e ∷ errs))
after_handler (err e) w (w', err f) = (w', err f)
after_handler (err e) w (w', panics m) = (w', panics m)
after_handler (panics m) w rest = (w, panics m)

-- The loop of `Publish`: every handler runs, and the errors come in the handlers' order.
unfoldable pub run_handlers :
    {W E : Type 0} → List (Handler W E) → Ctx → Envelope E → Exec W (List GoError)
run_handlers [] ctx env w = (w, ok [])
run_handlers (h ∷ hs) ctx env w =
    let (w', r) = h ctx env w in let rest = run_handlers hs ctx env w' in after_handler r w' rest

-- `Publish`
unfoldable pub publish : {W E : Type 0} → Event E → Bus W E → Ctx → Envelope E → Exec W Unit
publish ev b ctx env = do
  errs ← run_handlers (slice_at (lookup (ev.event_type env.payload) b)) ctx env
  lift (of_error (join errs))
