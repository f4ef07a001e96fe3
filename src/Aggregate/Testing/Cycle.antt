-- ===== src/Aggregate/Testing/Cycle.antt =====
-- aggregate/aggregatetest/aggregatetest.go: whole cycles of `Given`, `When` and `Then`.
use goaxon.Prelude.{
  ℕ, ◌+◌, Bool, true, false, Option, none, some, List, [], ◌∷◌, ◌++◌, length, ◌≡◌, ◌↔◌, refl, ap,
  sym, subst, ◌∙◌, nat_beq, nat_beq_iff, if◌then◌else◌, arith,
}
use goaxon.Go.Error.{GoError}
use goaxon.Event.{Uuid}
use goaxon.Aggregate.{Base, BaseAccessor, Root, RootLaws}
use goaxon.Aggregate.Replay.{
  apply_all, raise_all, rehydrate_all, rehydrate_all-parts, base-raise_all,
}
use goaxon.Aggregate.Versions.{uncommitted-queue_all}
use goaxon.Aggregate.Testing.{
  unexpected_error, other_count, mismatch, AggregateTest, Verdict, passed, fatal, new_test, given,
  when_run, Reader, compare_events, check_events, check_uncommitted, then_events,
}

given-parts :
    {A E : Type 0} (root : Root A E) (acc : BaseAccessor A E) (t : AggregateTest A)
    (history : List E)
    → given root t history ≡ record t { agg = apply_all root acc t.agg history }
unfolding given
given-parts root acc t [] = refl
given-parts root acc t (e ∷ es) = given-parts root acc (record t { agg = root.apply t.agg e }) es

base-apply_all :
    {A E : Type 0} {root : Root A E} {acc : BaseAccessor A E} (laws : RootLaws root acc) (a : A)
    (es : List E)
    → acc.get_base (apply_all root acc a es) ≡ acc.get_base a
base-apply_all laws a [] = refl
base-apply_all {root = root} laws a (e ∷ es) =
    base-apply_all laws (root.apply a e) es ∙ laws.get_apply a e

module _ {A E : Type 0} (root : Root A E) (reader : Reader A E) (deep_equal : E → E → Bool)
    (equal_iff : (x y : E) → (deep_equal x y ≡ true) ↔ (x ≡ y)) where
  compare_events_sound :
      (i : ℕ) (expected got : List E)
      → length got ≡ length expected
      → compare_events root reader deep_equal i expected got ≡ passed
      → got ≡ expected
  unfolding compare_events
  compare_events_sound i [] [] n h = refl
  compare_events_sound i [] (x ∷ got) n h = absurd (omega (arith, n))
  compare_events_sound i (e ∷ expected) [] n h = absurd (omega (arith, n))
  compare_events_sound i (e ∷ expected) (x ∷ got) n h =
      either (deep_equal x e) refl h (compare_events_sound (i + 1) expected got (omega (arith, n)))
    where
      rest : Verdict E
      rest = compare_events root reader deep_equal (i + 1) expected got

      either :
          (b : Bool)
          → deep_equal x e ≡ b
          → (if b then rest else fatal (mismatch i e x)) ≡ passed
          → (rest ≡ passed → got ≡ expected)
          → x ∷ got ≡ e ∷ expected
      either true same h later = cc ((equal_iff x e).0 same, later h)
      either false other h later = absurd (cc h)

  compare_events_self : (i : ℕ) (l : List E) → compare_events root reader deep_equal i l l ≡ passed
  unfolding compare_events
  compare_events_self i [] = refl
  compare_events_self i (e ∷ es) = rw ((equal_iff e e).1 refl) (compare_events_self (i + 1) es)

  check_events_iff :
      (expected got : List E)
      → (check_events root reader deep_equal expected got ≡ passed) ↔ (got ≡ expected)
  check_events_iff expected got = (sound (nat_beq (length got) (length expected)) refl, complete)
    where
      sound :
          (b : Bool)
          → nat_beq (length got) (length expected) ≡ b
          → (if b
              then compare_events root reader deep_equal 0 expected got
              else fatal (other_count expected got))
            ≡ passed
          → got ≡ expected
      sound true n h = compare_events_sound 0 expected got ((nat_beq_iff _ _).0 n) h
      sound false n h = absurd (cc h)

      complete : got ≡ expected → check_events root reader deep_equal expected got ≡ passed
      complete h =
          subst (λ l. check_events root reader deep_equal expected l ≡ passed) (sym h)
            (rw ((nat_beq_iff (length expected) (length expected)).1 refl)
              (compare_events_self 0 expected))

  cycle_iff :
      (acc : BaseAccessor A E)
      → reader ≡ some (λ a. (acc.get_base a).uncommitted)
      → (factory : Uuid → A) (id : Uuid) (history expected : List E)
        (action : A → A × Option GoError)
      → let (a, e) = action (apply_all root acc (factory id) history) in
        (then_events root reader deep_equal
            (when_run (given root (new_test factory id) history) action)
            expected
          ≡ passed)
        ↔ ((e ≡ none) × ((acc.get_base a).uncommitted ≡ expected))
  unfolding then_events when_run new_test
  cycle_iff acc embeds factory id history expected action =
      subst
        (λ t.
          (then_events root reader deep_equal (when_run t action) expected ≡ passed)
          ↔ ((e ≡ none) × ((acc.get_base a).uncommitted ≡ expected)))
        (sym (given-parts root acc (new_test factory id) history))
        (subst
          (λ r.
            (check_answer r e ≡ passed) ↔ ((e ≡ none) × ((acc.get_base a).uncommitted ≡ expected)))
          (sym embeds) (by_error e))
    where
      a : A
      a = (action (apply_all root acc (factory id) history)).0

      e : Option GoError
      e = (action (apply_all root acc (factory id) history)).1

      check_answer : Reader A E → Option GoError → Verdict E
      check_answer r none = check_uncommitted root reader deep_equal expected a r
      check_answer r (some x) = fatal (unexpected_error x)

      by_error :
          (e : Option GoError)
          → (check_answer (some (λ a. (acc.get_base a).uncommitted)) e ≡ passed)
            ↔ ((e ≡ none) × ((acc.get_base a).uncommitted ≡ expected))
      by_error none =
          let (sound, complete) = check_events_iff expected (acc.get_base a).uncommitted in
          (λ h. (refl, sound h), λ q. complete q.1)
      by_error (some x) = (λ h. absurd (cc h), λ q. absurd (cc q.0))

  -- For an aggregate that meets RootLaws, whose factory leaves nothing queued and whose queue is
  -- what the helper reads, an action that does nothing but raise events, and an equality test that
  -- decides equality: a chain of `Given`, `When` and `Then` passes exactly if the action, run on
  -- the aggregate to which the history was applied, returns nil and raises exactly the expected
  -- events, in order.
  pub cycle-raised :
      (acc : BaseAccessor A E)
      → RootLaws root acc
      → reader ≡ some (λ a. (acc.get_base a).uncommitted)
      → (factory : Uuid → A) (id : Uuid) → (acc.get_base (factory id)).uncommitted ≡ []
      → (history expected : List E) (action : A → A × Option GoError) (raised : A → List E)
      → ((a : A) → (action a).0 ≡ raise_all root acc a (raised a))
      → let replayed = apply_all root acc (factory id) history in
        (then_events root reader deep_equal
            (when_run (given root (new_test factory id) history) action)
            expected
          ≡ passed)
        ↔ (((action replayed).1 ≡ none) × (raised replayed ≡ expected))
  cycle-raised acc laws embeds factory id clean history expected action raised acts =
      subst
        (λ l.
          (then_events root reader deep_equal
              (when_run (given root (new_test factory id) history) action) expected
            ≡ passed)
          ↔ (((action replayed).1 ≡ none) × (l ≡ expected)))
        queued (cycle_iff acc embeds factory id history expected action)
    where
      replayed : A
      replayed = apply_all root acc (factory id) history

      queued : (acc.get_base (action replayed).0).uncommitted ≡ raised replayed
      queued =
          ap (λ a. (acc.get_base a).uncommitted) (acts replayed)
          ∙ ap (λ b. b.uncommitted) (base-raise_all laws replayed (raised replayed))
          ∙ uncommitted-queue_all (raised replayed) (acc.get_base replayed)
          ∙ ap (λ b. b.uncommitted ++ raised replayed) (base-apply_all laws (factory id) history)
          ∙ ap (λ l. l ++ raised replayed) clean

-- `Given` leaves the aggregate that a replay of the same events by the repository leaves, but for
-- the base.
pub given-rehydrate_all :
    {A E : Type 0} (root : Root A E) (acc : BaseAccessor A E)
    → RootLaws root acc
    → (factory : Uuid → A) (id : Uuid) (history : List E) (b : Base E)
    → acc.set_base b (given root (new_test factory id) history).agg
      ≡ acc.set_base b (rehydrate_all root acc (factory id) history)
unfolding new_test
given-rehydrate_all root acc laws factory id history b =
    rw
      (
        given-parts root acc (new_test factory id) history,
        rehydrate_all-parts laws (factory id) history,
      )
      (sym (laws.set_set b _ _))
