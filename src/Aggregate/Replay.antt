-- ===== src/Aggregate/Replay.antt =====
-- aggregate/aggregate.go: `Raise`, `markCommitted` and `rehydrate` over a list of events.
use goaxon.Prelude.{List, [], ◌∷◌, ◌++◌, ◌≡◌, refl, ap, sym, ◌∙◌}
use goaxon.Aggregate.{
  Base, BaseAccessor, Root, RootLaws, queue, advance, mark_committed, raise, rehydrate,
}
use goaxon.Aggregate.Versions.{queue_all, advance_all, mark_committed-queue_all}

module _ {A E : Type 0} (root : Root A E) (acc : BaseAccessor A E) where
  -- Several calls of `Raise`; several of `rehydrate`; several of `Apply`.
  abbrev pub raise_all : A → List E → A
  raise_all a [] = a
  raise_all a (e ∷ es) = raise_all (raise root acc a e) es

  abbrev pub rehydrate_all : A → List E → A
  rehydrate_all a [] = a
  rehydrate_all a (e ∷ es) = rehydrate_all (rehydrate root acc a e) es

  abbrev pub apply_all : A → List E → A
  apply_all a [] = a
  apply_all a (e ∷ es) = apply_all (root.apply a e) es

  abbrev pub commit : A → A
  commit a = acc.set_base (mark_committed (acc.get_base a)) a

module _ {A E : Type 0} {root : Root A E} {acc : BaseAccessor A E} (laws : RootLaws root acc) where
  apply_all-set :
      (b : Base E) (a : A) (es : List E)
      → apply_all root acc (acc.set_base b a) es ≡ acc.set_base b (apply_all root acc a es)
  apply_all-set b a [] = refl
  apply_all-set b a (e ∷ es) =
      ap (λ x. apply_all root acc x es) (laws.apply_set b a e) ∙ apply_all-set b (root.apply a e) es

  -- One step with a change `f` of the base, in front of steps that are known.
  step_all :
      (f : Base E → Base E) (g : Base E → Base E) (a : A) (e : E) (es : List E)
      → let a' = acc.set_base (f (acc.get_base (root.apply a e))) (root.apply a e) in
        acc.set_base (g (acc.get_base a')) (apply_all root acc a' es)
        ≡ acc.set_base (g (f (acc.get_base a))) (apply_all root acc (root.apply a e) es)
  step_all f g a e es = simp (laws.get_set, laws.get_apply, apply_all-set, laws.set_set)

  pub raise_all-parts :
      (a : A) (es : List E)
      → raise_all root acc a es
        ≡ acc.set_base (queue_all es (acc.get_base a)) (apply_all root acc a es)
  unfolding raise
  raise_all-parts a [] = sym (laws.set_get a)
  raise_all-parts a (e ∷ es) =
      raise_all-parts (raise root acc a e) es ∙ step_all (queue e) (queue_all es) a e es

  pub rehydrate_all-parts :
      (a : A) (es : List E)
      → rehydrate_all root acc a es
        ≡ acc.set_base (advance_all es (acc.get_base a)) (apply_all root acc a es)
  unfolding rehydrate
  rehydrate_all-parts a [] = sym (laws.set_get a)
  rehydrate_all-parts a (e ∷ es) =
      rehydrate_all-parts (rehydrate root acc a e) es ∙ step_all advance (advance_all es) a e es

  -- Raising events on an aggregate that has nothing to commit and committing them gives the
  -- aggregate that a replay of the events gives.
  pub commit-raise_all :
      (a : A) (es : List E)
      → mark_committed (acc.get_base a) ≡ acc.get_base a
      → commit root acc (raise_all root acc a es) ≡ rehydrate_all root acc a es
  commit-raise_all a es clean =
      rw (raise_all-parts a es, rehydrate_all-parts a es)
        (simp (laws.get_set, laws.set_set, mark_committed-queue_all, clean))

  pub rehydrate_all-append :
      (a : A) (xs ys : List E)
      → rehydrate_all root acc a (xs ++ ys)
        ≡ rehydrate_all root acc (rehydrate_all root acc a xs) ys
  rehydrate_all-append a [] ys = refl
  rehydrate_all-append a (x ∷ xs) ys = rehydrate_all-append (rehydrate root acc a x) xs ys

  pub base-raise_all :
      (a : A) (es : List E) → acc.get_base (raise_all root acc a es) ≡ queue_all es (acc.get_base a)
  base-raise_all a es = rw (raise_all-parts a es) (laws.get_set _ _)

  pub base-rehydrate_all :
      (a : A) (es : List E)
      → acc.get_base (rehydrate_all root acc a es) ≡ advance_all es (acc.get_base a)
  base-rehydrate_all a es = rw (rehydrate_all-parts a es) (laws.get_set _ _)
