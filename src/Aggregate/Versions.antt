-- ===== src/Aggregate/Versions.antt =====
-- aggregate/aggregate.go: the bookkeeping of `Base` under `Raise` and `rehydrate`.
use goaxon.Prelude.{
  ◌+◌, ◌<◌, List, [], ◌∷◌, ◌++◌, ◌≡◌, refl, sym, ◌∙◌, arith, length, length-append, append-nil,
  append_assoc,
}
use goaxon.Go.Word.{u64, u64_mod}
use goaxon.Event.{Uuid}
use goaxon.Aggregate.{Base, set_id, queue, advance, mark_committed}

-- The current version counts the queued events on top of the committed version.
pub record IsTracked {E : Type 0} (b : Base E) : Type 0 where
  pub counted : b.current_version ≡ u64 (b.committed_version + length b.uncommitted)

module _ {E : Type 0} where
  pub queue-IsTracked : (e : E) (b : Base E) → IsTracked b → IsTracked (queue e b)
  queue-IsTracked e b h = record {
    counted = omega (arith, h.counted, length-append b.uncommitted (e ∷ []));
  }

  pub advance-IsTracked : (b : Base E) → IsTracked b → IsTracked (advance b)
  advance-IsTracked b h = record { counted = omega (arith, h.counted) }

  pub mark_committed-IsTracked :
      (b : Base E) → b.current_version < u64_mod → IsTracked (mark_committed b)
  mark_committed-IsTracked b h = record { counted = omega arith }

  pub set_id-IsTracked : (id : Uuid) (b : Base E) → IsTracked b → IsTracked (set_id id b).0
  unfolding set_id
  set_id-IsTracked id b h = ground (arith, h.counted)

  -- Whatever events are queued and then committed, the base is the one that replaying them gives.
  abbrev pub queue_all : List E → Base E → Base E
  queue_all [] b = b
  queue_all (e ∷ es) b = queue_all es (queue e b)

  abbrev pub advance_all : List E → Base E → Base E
  advance_all [] b = b
  advance_all (e ∷ es) b = advance_all es (advance b)

  pub mark_committed-queue_all :
      (es : List E) (b : Base E)
      → mark_committed (queue_all es b) ≡ advance_all es (mark_committed b)
  mark_committed-queue_all [] b = refl
  mark_committed-queue_all (e ∷ es) b = mark_committed-queue_all es (queue e b)

  pub uncommitted-queue_all :
      (es : List E) (b : Base E) → (queue_all es b).uncommitted ≡ b.uncommitted ++ es
  uncommitted-queue_all [] b = sym (append-nil b.uncommitted)
  uncommitted-queue_all (e ∷ es) b =
      uncommitted-queue_all es (queue e b) ∙ append_assoc b.uncommitted (e ∷ []) es

  pub committed-queue_all :
      (es : List E) (b : Base E) → (queue_all es b).committed_version ≡ b.committed_version
  committed-queue_all [] b = refl
  committed-queue_all (e ∷ es) b = committed-queue_all es (queue e b)

  pub id-queue_all : (es : List E) (b : Base E) → (queue_all es b).id ≡ b.id
  id-queue_all [] b = refl
  id-queue_all (e ∷ es) b = id-queue_all es (queue e b)

  pub id-advance_all : (es : List E) (b : Base E) → (advance_all es b).id ≡ b.id
  id-advance_all [] b = refl
  id-advance_all (e ∷ es) b = id-advance_all es (advance b)

  pub uncommitted-advance_all :
      (es : List E) (b : Base E) → (advance_all es b).uncommitted ≡ b.uncommitted
  uncommitted-advance_all [] b = refl
  uncommitted-advance_all (e ∷ es) b = uncommitted-advance_all es (advance b)

  pub committed-advance_all :
      (es : List E) (b : Base E)
      → u64 (advance_all es b).committed_version ≡ u64 (b.committed_version + length es)
  committed-advance_all [] b = omega arith
  committed-advance_all (e ∷ es) b = omega (arith, committed-advance_all es (advance b))

  pub mark_committed-advance_all :
      (es : List E) (b : Base E)
      → mark_committed (advance_all es b) ≡ advance_all es (mark_committed b)
  mark_committed-advance_all [] b = refl
  mark_committed-advance_all (e ∷ es) b = mark_committed-advance_all es (advance b)
