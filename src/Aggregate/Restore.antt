-- ===== src/Aggregate/Restore.antt =====
-- aggregate/aggregate.go: `Load` after `Save`.
use goaxon.Prelude.{
  append-ne-nil, ℕ, List, [], ◌∷◌, ◌++◌, ◌+◌, ◌≡◌, ◌≢◌, refl, ap, sym, subst, ◌∙◌, none, map,
}
use mathlib.Core.List.{map-append}
use goaxon.Go.Outcome.{ok}
use goaxon.Event.{Uuid, Time, Ctx, Envelope}
use goaxon.Event.Spec.{StoreProgress, StoreSpec}
use goaxon.Event.Delivery.{Keeps}
use goaxon.Aggregate.{rehydrate, BaseAccessor, RootLaws, mark_committed, zero_base}
use goaxon.Aggregate.Versions.{
  mark_committed-advance_all, advance_all, uncommitted-queue_all, id-queue_all, id-advance_all,
  uncommitted-advance_all,
}
use goaxon.Aggregate.Replay.{
  base-rehydrate_all, base-raise_all, commit, raise_all, rehydrate_all, rehydrate_all-append,
  commit-raise_all,
}
use goaxon.Aggregate.Effect.{pending, Saved, save-Saved, written_at, pending-ne-nil}
use goaxon.Aggregate.Repository.{Repository, envelopes_from, replay, rebuild, load, save}

abbrev pub payloads : {E : Type 0} → List (Envelope E) → List E
payloads = map (λ e. e.payload)

module _ {W A E : Type 0} (r : Repository W A E) {acc : BaseAccessor A E}
    (laws : RootLaws r.root acc) where
  replay-payloads :
      (a : A) (envs : List (Envelope E))
      → replay r acc a envs ≡ rehydrate_all r.root acc a (payloads envs)
  unfolding replay
  replay-payloads a [] = refl
  replay-payloads a (env ∷ envs) = replay-payloads (rehydrate r.root acc a env.payload) envs

  payloads-envelopes_from :
      (now : ℕ → Time) (a : A) (expected i : ℕ) (es : List E)
      → payloads (envelopes_from r now a expected i es) ≡ es
  unfolding envelopes_from
  payloads-envelopes_from now a expected i [] = refl
  payloads-envelopes_from now a expected i (e ∷ es) =
      ap (λ l. e ∷ l) (payloads-envelopes_from now a expected (i + 1) es)

  -- What the factory returns: the identifier set, no version, nothing queued.
  abbrev pub IsFresh : Uuid → A → Type 0
  IsFresh id a = acc.get_base a ≡ record zero_base { id = id }

  module _ (id : Uuid) (fresh : IsFresh id (r.factory id)) (history : List E) where
    -- The aggregate that a replay of `history` gives.
    abbrev pub replayed : A
    replayed = rehydrate_all r.root acc (r.factory id) history

    base-replayed : acc.get_base replayed ≡ advance_all history (record zero_base { id = id })
    base-replayed = base-rehydrate_all laws (r.factory id) history ∙ ap (advance_all history) fresh

    -- It has nothing to commit.
    pub replayed_clean : mark_committed (acc.get_base replayed) ≡ acc.get_base replayed
    replayed_clean = rw base-replayed (mark_committed-advance_all history _)

    -- What `Raise` queued on it, and its identifier.
    pub uncommitted-raised :
        (es : List E) → (acc.get_base (raise_all r.root acc replayed es)).uncommitted ≡ es
    uncommitted-raised es = rw (base-raise_all laws replayed es) (
        uncommitted-queue_all es _
        ∙ ap (λ b. b.uncommitted ++ es) base-replayed
        ∙ ap (λ l. l ++ es) (uncommitted-advance_all history _))

    pub id-raised : (es : List E) → r.root.aggregate_id (raise_all r.root acc replayed es) ≡ id
    id-raised es =
        laws.id_base _
        ∙ ap (λ b. b.id) (base-raise_all laws replayed es)
        ∙ id-queue_all es _
        ∙ ap (λ b. b.id) base-replayed
        ∙ id-advance_all history _

  -- The value that `Load` returns for what the store returns.
  load_runs :
      (ctx : Ctx) (id : Uuid) (w : W) (events : List (Envelope E))
      → (r.store.load ctx id w).1 ≡ ok events
      → (load r ctx id w).1 ≡ ok (rehydrate_all r.root acc (r.factory id) (payloads events))
  unfolding load
  load_runs ctx id w events h =
      rw (← replay-payloads (r.factory id) events)
        (rw h (ap (λ b. rebuild r b id events) laws.embeds))

module _ {W A E : Type 0} (r : Repository W A E) {acc : BaseAccessor A E}
    (laws : RootLaws r.root acc) (spec : StoreSpec r.store) (live : StoreProgress spec)
    (quiet : Keeps r.publish spec.stream) where
  -- A replay of the stream that `Save` wrote.
  committed_replay :
      (now : ℕ → Time) (id : Uuid) (w : W) (es : List E) (fresh : IsFresh r laws id (r.factory id))
      → let a = raise_all r.root acc (replayed r laws id fresh (payloads (spec.stream w id))) es in
        rehydrate_all r.root acc
          (r.factory id)
          (payloads (spec.stream w id ++ pending r laws now a))
        ≡ commit r.root acc a
  committed_replay now id w es fresh =
      let base = replayed r laws id fresh (payloads (spec.stream w id)) in
      let a = raise_all r.root acc base es in
      let queued = uncommitted-raised r laws id fresh (payloads (spec.stream w id)) es in
      let written : payloads (pending r laws now a) ≡ es =
        payloads-envelopes_from r laws now a (acc.get_base a).committed_version 0 _ ∙ queued in
      ap (rehydrate_all r.root acc (r.factory id))
        (map-append _ (spec.stream w id) _ ∙ ap (λ l. payloads (spec.stream w id) ++ l) written)
      ∙ rehydrate_all-append laws (r.factory id) (payloads (spec.stream w id)) es
      ∙ sym (
          commit-raise_all laws base es
            (replayed_clean r laws id fresh (payloads (spec.stream w id))))

  -- An aggregate that was replayed from its stream and then raised events, saved from a context
  -- that is not done on a store whose head is its committed version, is what the next `Load`
  -- returns, and what `Save` leaves: the aggregate, committed. This holds however the publishing
  -- of the events ends, for every store that meets StoreSpec and StoreProgress and every bus that
  -- leaves the event streams alone.
  pub load-save :
      (later : Ctx) (now : ℕ → Time) (id : Uuid) (w : W) (es : List E)
      (fresh : IsFresh r laws id (r.factory id))
      → es ≢ []
      → let a = raise_all r.root acc (replayed r laws id fresh (payloads (spec.stream w id))) es in
        spec.head w id ≡ (acc.get_base a).committed_version
        → let q = save r none later now a w in
          ((load r none id q.0.1).1 ≡ ok (commit r.root acc a)) × (q.0.0 ≡ commit r.root acc a)
  load-save later now id w es fresh some_events at_head = (
    load_runs r laws none id w' (spec.stream w' id)
          (live.load_live id w' (λ p. written-ne-nil (sym written ∙ p)))
        ∙ ap ok (
            ap (λ l. rehydrate_all r.root acc (r.factory id) (payloads l)) written
            ∙ committed_replay now id w es fresh),
    done.committed,
  )
    where
      a : A
      a = raise_all r.root acc (replayed r laws id fresh (payloads (spec.stream w id))) es

      w' : W
      w' = (save r none later now a w).0.1

      some_queued : (acc.get_base a).uncommitted ≢ []
      some_queued p =
          some_events
            (sym (uncommitted-raised r laws id fresh (payloads (spec.stream w id)) es) ∙ p)

      same_id : r.root.aggregate_id a ≡ id
      same_id = id-raised r laws id fresh (payloads (spec.stream w id)) es

      accepted :
          (r.store.append none
            (r.root.aggregate_id a)
            (acc.get_base a).committed_version
            (pending r laws now a)
            w).1
          ≡ ok tt
      accepted =
          subst
            (λ v.
              (r.store.append none (r.root.aggregate_id a) v (pending r laws now a) w).1 ≡ ok tt)
            (ap (spec.head w) same_id ∙ at_head)
            (live.append_live (r.root.aggregate_id a) (pending r laws now a) w)

      done : Saved r laws spec quiet now a w (save r none later now a w).0.0 w'
      done = save-Saved r laws spec quiet none later now a w some_queued accepted

      written : spec.stream w' id ≡ spec.stream w id ++ pending r laws now a
      written = written_at r laws spec quiet id done same_id

      written-ne-nil : spec.stream w id ++ pending r laws now a ≢ []
      written-ne-nil = append-ne-nil (spec.stream w id) _ (pending-ne-nil r laws now a some_queued)
