-- ===== src/Memory/Laws.antt =====
-- store/memory/memory.go: `Append` and `Load`, and the contract of `event.Store`.
use goaxon.Event.Spec.{StoreProgress, StoreSpec}
use goaxon.Prelude.{
  ap, ℕ, ◌≡◌, refl, ◌≢◌, true, none, some, List, [], ◌++◌, arith, length, nat_beq, if◌then◌else◌,
  nat_eq,
}
use goaxon.Go.Error.{concurrency_conflict, sentinel, GoError, errors_is, stream_not_found}
use goaxon.Go.Outcome.{ok, err}
use goaxon.Go.Map.{insert, lookup, lookup-insert}
use goaxon.Go.Word.{u64_small, u64}
use goaxon.Event.{Uuid, Ctx, is_canceled, is_past_deadline, Envelope}
use goaxon.Memory.{memory_store, Part, Streams, slice_at, append, load}

-- The events of one stream; none where the store has no such key.
abbrev pub stream_of : {E : Type 0} → Streams E → Uuid → List (Envelope E)
stream_of s id = slice_at (lookup id s)

module _ {E : Type 0} where
  pub stream_of-append :
      (ctx : Ctx) (id : Uuid) (expected : ℕ) (events : List (Envelope E)) (s : Streams E)
      → (append ctx id expected events s).1 ≡ ok tt
      → (u64 (length (stream_of s id)) ≡ expected)
        × ((j : Uuid)
            → stream_of (append ctx id expected events s).0 j
              ≡ (if nat_beq id j then stream_of s id ++ events else stream_of s j))
  unfolding append
  stream_of-append (some e) id expected events s h = cc
  stream_of-append none id expected events s h =
      (ground arith, λ j. ground (arith, lookup-insert id j (stream_of s id ++ events) s))

  pub append_failed_lem :
      (ctx : Ctx) (id : Uuid) (expected : ℕ) (events : List (Envelope E)) (s : Streams E)
      → (append ctx id expected events s).1 ≢ ok tt
      → (append ctx id expected events s).0 ≡ s
  unfolding append
  append_failed_lem (some e) id expected events s h = refl
  append_failed_lem none id expected events s h = ground (arith, h)

  pub load_ok_lem :
      (ctx : Ctx) (id : Uuid) (s : Streams E) (events : List (Envelope E))
      → (load ctx id s).1 ≡ ok events
      → events ≡ stream_of s id
  unfolding load
  load_ok_lem (some e) id s events h = cc
  load_ok_lem none id s events h = ground arith

  pub load_missing_lem :
      (ctx : Ctx) (id : Uuid) (s : Streams E) (e : GoError)
      → (load ctx id s).1 ≡ err e
      → errors_is e stream_not_found ≡ true
      → stream_of s id ≡ []
  unfolding load errors_is
  load_missing_lem (some is_canceled) id s e h m = ground arith
  load_missing_lem (some is_past_deadline) id s e h m = ground arith
  load_missing_lem none id s e h m = ground arith

  pub load_keeps_lem : (ctx : Ctx) (id : Uuid) (s : Streams E) → (load ctx id s).0 ≡ s
  unfolding load
  load_keeps_lem (some e) id s = refl
  load_keeps_lem none id s = ground arith

-- The store in memory, as a part of any state, meets the specification.
unfoldable pub memory_store-StoreSpec :
    {W E : Type 0} (p : Part W (Streams E)) → StoreSpec (memory_store p)
memory_store-StoreSpec p = record {
  stream = λ w. stream_of (p.get w);
  head = λ w id. u64 (length (stream_of (p.get w) id));
  head_numbered = λ w id short numbered. u64_small _ short;
  append_ok = λ ctx id expected events w some_events h.
      rw p.get_put (stream_of-append ctx id expected events (p.get w) h);
  append_failed = λ ctx id expected events w h j.
      rw (p.get_put, append_failed_lem ctx id expected events (p.get w) h);
  load_ok = λ ctx id w events h. load_ok_lem ctx id (p.get w) events h;
  load_missing = λ ctx id w e h m. load_missing_lem ctx id (p.get w) e h m;
  load_keeps = λ ctx id w j. rw (p.get_put, load_keeps_lem ctx id (p.get w));
}

-- From a context that is not done, an append at the head of the stream succeeds.
pub append-at_head :
    {E : Type 0} (id : Uuid) (expected : ℕ) (events : List (Envelope E)) (s : Streams E)
    → u64 (length (stream_of s id)) ≡ expected
    → append none id expected events s ≡ (insert id (stream_of s id ++ events) s, ok tt)
unfolding append
append-at_head id expected events s h = ground arith

-- At any other version it fails as a concurrency conflict, and nothing is written.
pub append-conflict :
    {E : Type 0} (id : Uuid) (expected : ℕ) (events : List (Envelope E)) (s : Streams E)
    → u64 (length (stream_of s id)) ≢ expected
    → append none id expected events s ≡ (s, err (sentinel concurrency_conflict))
unfolding append
append-conflict id expected events s h = ground arith

-- The store in memory, as a part of any state, fails only where it has to: from a context that is
-- not done, an append at the head of a stream succeeds, and so does a load of a stream that has
-- events, with these events.
pub memory_store-StoreProgress :
    {W E : Type 0} (p : Part W (Streams E)) → StoreProgress (memory_store-StoreSpec {E = E} p)
unfolding memory_store-StoreSpec append load
memory_store-StoreProgress p = record {
  append_live = λ id events w. ap (λ q. q.1) (append-at_head id _ events (p.get w) refl);
  load_live = λ id w some_events. ground (arith, some_events);
}

-- An append that succeeds was at the head of its stream, and after it `Load` on a live context
-- returns the stream with the new events behind it, and of every other stream what it returned
-- before.
pub load-append :
    {E : Type 0} (ctx : Ctx) (id j : Uuid) (expected : ℕ) (events : List (Envelope E))
    (s : Streams E)
    → (append ctx id expected events s).1 ≡ ok tt
    → (u64 (length (stream_of s id)) ≡ expected)
      × ((load none j (append ctx id expected events s).0).1
          ≡ (if nat_beq id j then ok (stream_of s id ++ events) else (load none j s).1))
unfolding append load
load-append (some e) id j expected events s h = cc h
load-append none id j expected events s h =
    (ground (arith, h), ground (arith, h, lookup-insert id j (stream_of s id ++ events) s))
