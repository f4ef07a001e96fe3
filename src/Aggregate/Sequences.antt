-- ===== src/Aggregate/Sequences.antt =====
-- aggregate/aggregate.go: the sequence numbers that `Save` gives.
use goaxon.Prelude.{
  length-pos, ℕ, suc, List, [], ◌∷◌, ◌++◌, ◌+◌, ◌<◌, ◌≡◌, ◌≢◌, inl, inr, refl, ap, sym, subst, ◌∙◌,
  arith, length, nat_beq, if◌then◌else◌, Bool-cases, length-append, nat_beq_iff,
}
use goaxon.Go.Outcome.{ok}
use goaxon.Go.Word.{u64_mod}
use goaxon.Event.{Uuid, Time, Ctx}
use goaxon.Event.Spec.{StoreSpec, Numbered, Numbered-append}
use goaxon.Event.Delivery.{Keeps}
use goaxon.Aggregate.{BaseAccessor, RootLaws}
use goaxon.Aggregate.Effect.{pending, Saved, Refused, save_all_or_nothing, save_stale, written_at}
use goaxon.Aggregate.Repository.{Repository, envelopes_from, save}

module _ {W A E : Type 0} (r : Repository W A E) {acc : BaseAccessor A E}
    (laws : RootLaws r.root acc) where
  -- Short of a wrap-around, the envelopes carry the sequences after the expected version.
  envelopes_from-Numbered :
      (now : ℕ → Time) (a : A) (expected i : ℕ) (es : List E)
      → expected + i + length es < u64_mod
      → Numbered (r.root.aggregate_id a) (expected + i) (envelopes_from r now a expected i es)
  unfolding envelopes_from
  envelopes_from-Numbered now a expected i [] short = tt
  envelopes_from-Numbered now a expected i (e ∷ es) short =
      let next : expected + (i + 1) ≡ expected + i + 1 = omega arith in
      (
        refl,
        omega arith,
        subst (λ n. Numbered (r.root.aggregate_id a) n (envelopes_from r now a expected (i + 1) es))
            next (envelopes_from-Numbered now a expected (i + 1) es (omega arith)),
      )

  pub length-pending :
      (now : ℕ → Time) (a : A) → length (pending r laws now a) ≡ length (acc.get_base a).uncommitted
  unfolding envelopes_from
  length-pending now a = go 0 (acc.get_base a).uncommitted
    where
      go :
          (i : ℕ) (es : List E)
          → length (envelopes_from r now a (acc.get_base a).committed_version i es) ≡ length es
      go i [] = refl
      go i (e ∷ es) = ap suc (go (i + 1) es)

module _ {W A E : Type 0} (r : Repository W A E) {acc : BaseAccessor A E}
    (laws : RootLaws r.root acc) (spec : StoreSpec r.store)
    (quiet : Keeps r.publish spec.stream) where
  -- Every stream counts up from 1 without a gap, and is the stream of its own identifier.
  abbrev pub IsNumbered : W → Type 0
  IsNumbered w = (j : Uuid) → Numbered j 0 (spec.stream w j)

  -- The committed version is the length of the stream that it was saved on.
  length-stream :
      {now : ℕ → Time} {a : A} {w : W} {a' : A} {w' : W}
      → IsNumbered w
      → length (spec.stream w (r.root.aggregate_id a)) < u64_mod
      → Saved r laws spec quiet now a w a' w'
      → length (spec.stream w (r.root.aggregate_id a)) ≡ (acc.get_base a).committed_version
  length-stream {now} {a} {w} numbered short done =
      sym (spec.head_numbered w (r.root.aggregate_id a) short (numbered (r.root.aggregate_id a)))
      ∙ done.at_head

  own_stream :
      {now : ℕ → Time} {a : A} {w : W} {a' : A} {w' : W}
      → IsNumbered w
      → length (spec.stream w (r.root.aggregate_id a)) + length (acc.get_base a).uncommitted
        < u64_mod
      → Saved r laws spec quiet now a w a' w'
      → Numbered (r.root.aggregate_id a) 0 (spec.stream w' (r.root.aggregate_id a))
  own_stream {now} {a} {w} {a'} {w'} numbered short done =
      let id = r.root.aggregate_id a in
      let at : length (spec.stream w id) ≡ (acc.get_base a).committed_version =
        length-stream numbered (omega arith) done in
      let from : (acc.get_base a).committed_version + 0 ≡ 0 + length (spec.stream w id) =
        omega (arith, at) in
      subst (Numbered id 0) (sym (written_at r laws spec quiet id done refl)) (
        Numbered-append id 0 (spec.stream w id) (pending r laws now a) (numbered id) (
          subst (λ n. Numbered id n (pending r laws now a)) from
            (envelopes_from-Numbered r laws now a (acc.get_base a).committed_version 0
              (acc.get_base a).uncommitted (omega (arith, at)))))

  Saved-IsNumbered :
      {now : ℕ → Time} {a : A} {w : W} {a' : A} {w' : W}
      → IsNumbered w
      → length (spec.stream w (r.root.aggregate_id a)) + length (acc.get_base a).uncommitted
        < u64_mod
      → Saved r laws spec quiet now a w a' w'
      → IsNumbered w'
  Saved-IsNumbered {now} {a} {w} {a'} {w'} numbered short done j =
      elim (Bool-cases (nat_beq (r.root.aggregate_id a) j)) [
        | inl same ↦
            subst (λ k. Numbered k 0 (spec.stream w' k)) ((nat_beq_iff _ _).0 same)
              (own_stream numbered short done)
        | inr other ↦
            subst (Numbered j 0)
              (sym (
                done.written j
                ∙ ap
                    (λ b.
                      if b
                      then spec.stream w (r.root.aggregate_id a) ++ pending r laws now a
                      else spec.stream w j)
                    other))
              (numbered j)
      ]

  -- After a successful save the head of the stream has moved on.
  head-moved :
      {now : ℕ → Time} {a : A} {w : W} {a' : A} {w' : W}
      → IsNumbered w
      → length (spec.stream w (r.root.aggregate_id a)) + length (acc.get_base a).uncommitted
        < u64_mod
      → (acc.get_base a).uncommitted ≢ []
      → Saved r laws spec quiet now a w a' w'
      → spec.head w' (r.root.aggregate_id a) ≢ (acc.get_base a).committed_version
  head-moved {now} {a} {w} {a'} {w'} numbered short some_events done p =
      let id = r.root.aggregate_id a in
      let longer : length (spec.stream w' id)
          ≡ length (spec.stream w id) + length (acc.get_base a).uncommitted =
        ap length (written_at r laws spec quiet id done refl)
        ∙ length-append (spec.stream w id) (pending r laws now a)
        ∙ ap (λ n. length (spec.stream w id) + n) (length-pending r laws now a) in
      absurd (
        omega (
          arith,
          p,
          longer,
          length-stream {now = now} {a = a} {w = w} {a' = a'} {w' = w'} numbered (omega arith) done,
          length-pos (acc.get_base a).uncommitted some_events,
          spec.head_numbered w' id (omega (arith, longer)) (own_stream numbered short done),
        ))

  -- For a store that meets StoreSpec, by which an append that fails leaves every stream as it was
  -- (the store in memory does, and a Postgres commit that fails and yet happens does not), a bus
  -- whose subscribers leave the streams alone, and an aggregate that meets RootLaws: where every
  -- stream counts up from 1 without a gap, and short of 2^64 events in the aggregate's stream with
  -- its queue, `Save` of an aggregate with queued events leaves every stream so, whether it
  -- returns nil, an error or panics.
  pub save-IsNumbered :
      (ctx later : Ctx) (now : ℕ → Time) (a : A) (w : W)
      → (acc.get_base a).uncommitted ≢ []
      → IsNumbered w
      → length (spec.stream w (r.root.aggregate_id a)) + length (acc.get_base a).uncommitted
        < u64_mod
      → IsNumbered (save r ctx later now a w).0.1
  save-IsNumbered ctx later now a w some_pending numbered short =
      elim (save_all_or_nothing r laws spec quiet ctx later now a w some_pending) [
        | inl done ↦ Saved-IsNumbered numbered short done
        | inr same ↦ λ j. subst (Numbered j 0) (sym (same.kept j)) (numbered j)
      ]

  -- For a store that meets StoreSpec, by which an append that fails leaves every stream as it was
  -- (the store in memory does, and a Postgres commit that fails and yet happens does not), a bus
  -- whose subscribers leave the streams alone, and an aggregate that meets RootLaws: of two
  -- aggregates with queued events on the same stream and with the same committed version, where
  -- every stream counts up from 1 without a gap and the first aggregate's events leave it short of
  -- 2^64, once the first is saved and `Save` returned nil, the second is refused: its `Save` does
  -- not return nil, and neither it nor any stream changes, whatever the contexts.
  pub save_race :
      (ctx later ctx' later' : Ctx) (now now' : ℕ → Time) (a b : A) (w : W)
      → IsNumbered w
      → length (spec.stream w (r.root.aggregate_id a)) + length (acc.get_base a).uncommitted
        < u64_mod
      → (acc.get_base a).uncommitted ≢ []
      → (acc.get_base b).uncommitted ≢ []
      → r.root.aggregate_id a ≡ r.root.aggregate_id b
      → (acc.get_base a).committed_version ≡ (acc.get_base b).committed_version
      → (save r ctx later now a w).1 ≡ ok tt
      → let w' = (save r ctx later now a w).0.1 in
        let q = save r ctx' later' now' b w' in Refused r laws spec quiet b w' q.0.0 q.0.1 q.1
  save_race ctx later ctx' later' now now' a b w numbered short some_a some_b same_id same_version
        won =
      elim (save_all_or_nothing r laws spec quiet ctx later now a w some_a) [
        | inl done ↦ save_stale r laws spec quiet ctx' later' now' b _ some_b λ p.
            head-moved numbered short some_a done (ap (spec.head _) same_id ∙ p ∙ sym same_version)
        | inr kept ↦ absurd (kept.reported won)
      ]
