-- ===== src/Event/Spec.antt =====
-- What event/event.go promises of a `Store`, as an interface: the repository's proofs use this
-- record, and each store fills it. `Numbered` says that sequences count up without a gap.
use goaxon.Prelude.{
  none, subst, ℕ, suc, ◌+◌, ◌<◌, ◌≡◌, ◌≢◌, true, List, [], ◌∷◌, ◌++◌, arith, length, nat_beq,
  if◌then◌else◌,
}
use goaxon.Go.Error.{GoError, errors_is, stream_not_found}
use goaxon.Go.Outcome.{ok, err}
use goaxon.Go.Word.{u64_mod}
use goaxon.Event.{Uuid, Ctx, Envelope, Store}

module _ {E : Type 0} where
  -- The envelopes carry the sequences n + 1, n + 2, ... of the stream `id`.
  abbrev pub Numbered : Uuid → ℕ → List (Envelope E) → Type 0
  Numbered id n [] = Unit
  Numbered id n (e ∷ es) = (e.aggregate_id ≡ id) × (e.sequence ≡ n + 1) × Numbered id (n + 1) es

  pub Numbered-append :
      (id : Uuid) (n : ℕ) (xs ys : List (Envelope E))
      → Numbered id n xs
      → Numbered id (n + length xs) ys
      → Numbered id n (xs ++ ys)
  Numbered-append id n [] ys hx hy =
      let e : n + 0 ≡ n = omega arith in subst (λ k. Numbered id k ys) e hy
  Numbered-append id n (x ∷ xs) ys hx hy =
      let e : n + suc (length xs) ≡ n + 1 + length xs = omega arith in
      (hx.0, hx.1, Numbered-append id (n + 1) xs ys hx.2 (subst (λ k. Numbered id k ys) e hy))

pub record StoreSpec {W E : Type 0} (st : Store W E) : Type 0 where
  -- the events of each stream, in order
  pub stream : W → Uuid → List (Envelope E)
  -- what `expectedVersion` is compared with
  pub head : W → Uuid → ℕ
  pub head_numbered :
      (w : W) (id : Uuid)
      → length (stream w id) < u64_mod
      → Numbered id 0 (stream w id)
      → head w id ≡ length (stream w id)
  pub append_ok :
      (ctx : Ctx) (id : Uuid) (expected : ℕ) (events : List (Envelope E)) (w : W)
      → events ≢ []
      → (st.append ctx id expected events w).1 ≡ ok tt
      → (head w id ≡ expected)
        × ((j : Uuid)
            → stream (st.append ctx id expected events w).0 j
              ≡ (if nat_beq id j then stream w id ++ events else stream w j))
  pub append_failed :
      (ctx : Ctx) (id : Uuid) (expected : ℕ) (events : List (Envelope E)) (w : W)
      → (st.append ctx id expected events w).1 ≢ ok tt
      → (j : Uuid) → stream (st.append ctx id expected events w).0 j ≡ stream w j
  pub load_ok :
      (ctx : Ctx) (id : Uuid) (w : W) (events : List (Envelope E))
      → (st.load ctx id w).1 ≡ ok events
      → events ≡ stream w id
  pub load_missing :
      (ctx : Ctx) (id : Uuid) (w : W) (e : GoError)
      → (st.load ctx id w).1 ≡ err e
      → errors_is e stream_not_found ≡ true
      → stream w id ≡ []
  pub load_keeps :
      (ctx : Ctx) (id : Uuid) (w : W) (j : Uuid) → stream (st.load ctx id w).0 j ≡ stream w j

-- A store that fails only where it has to: from a context that is not done, an append at the head
-- and a load of a stream with events succeed.
pub record StoreProgress {W E : Type 0} {st : Store W E} (spec : StoreSpec st) : Type 0 where
  pub append_live :
      (id : Uuid) (events : List (Envelope E)) (w : W)
      → (st.append none id (spec.head w id) events w).1 ≡ ok tt
  pub load_live :
      (id : Uuid) (w : W) → spec.stream w id ≢ [] → (st.load none id w).1 ≡ ok (spec.stream w id)
