-- ===== src/Event/Dispatcher/Safety.antt =====
-- event/dispatcher.go: `tick` and the queue of the outbox.
use goaxon.Prelude.{
  ℕ, ◌+◌, String, List, [], ◌∷◌, ◌++◌, ◌≡◌, ◌⊎◌, refl, ap, sym, ◌∙◌, subst, inl, inr, Option, none,
  some, append_assoc, append-nil,
}
use goaxon.Go.Error.{GoError}
use goaxon.Go.Outcome.{Outcome, ok, err, panics, OrPanic}
use goaxon.Go.Word.{ℤ}
use goaxon.Event.{Ctx, Event}
use goaxon.Event.Delivery.{Keeps}
use goaxon.Event.Outbox.{OutboxEntry, Claim, Outbox}
use goaxon.Event.Dispatcher.{
  Dispatcher, TickCtx, deliver, report, end_claim, after_deliver, process, after_claim, tick,
}
use goaxon.Event.Dispatcher.Delivering.{
  ids, Took, DeliverEnd, took_all, stopped, crashed, deliver-DeliverEnd,
}

-- What event/outbox.go promises of an outbox on which no other claim is open. `S` is what the outbox
-- and its open claims have of the state.
pub record OutboxSpec {W E : Type 0} (S : Type 0) (o : Outbox W E) : Type 0 where
  pub state : W → S
  -- the entries that are not marked dispatched, in insertion order
  pub undispatched : S → List (OutboxEntry E)
  pub claim_keeps :
      (ctx : Ctx) (n : ℤ) (w : W)
      → undispatched (state (o.claim ctx n w).0) ≡ undispatched (state w)
  pub claim_prefix :
      (ctx : Ctx) (n : ℤ) (w w' : W) (c : Claim W E)
      → o.claim ctx n w ≡ (w', ok c)
      → (rest : List (OutboxEntry E)) × (undispatched (state w) ≡ c.entries ++ rest)
  -- A commit of the first entries of the claim, where nothing else was done meanwhile, marks these
  -- and no other; one that fails may have marked them or not.
  pub commit_marks :
      (ctx : Ctx) (n : ℤ) (w w' : W) (c : Claim W E)
      → o.claim ctx n w ≡ (w', ok c)
      → (ctx' : Ctx) (before after rest : List (OutboxEntry E)) (v : W)
      → c.entries ≡ before ++ after
      → state v ≡ state w'
      → undispatched (state v) ≡ before ++ rest
      → (undispatched (state (c.commit ctx' (ids before) v).0) ≡ rest)
        ⊎ ((undispatched (state (c.commit ctx' (ids before) v).0) ≡ undispatched (state v))
            × ((c.commit ctx' (ids before) v).1 ≡ none → ⊥))
  pub release_keeps :
      (ctx : Ctx) (n : ℤ) (w w' : W) (c : Claim W E)
      → o.claim ctx n w ≡ (w', ok c)
      → (ctx' : Ctx) (v : W) → state v ≡ state w'
      → undispatched (state (c.release ctx' v).0) ≡ undispatched (state v)

inl-path : {A B : Type 0} {a b : A} → ◌≡◌ {A = A ⊎ B} (inl a) (inl b) → a ≡ b
inl-path {A} {B} {a} {b} p = ap from p
  where
    from : A ⊎ B → A
    from (inl x) = x
    from (inr y) = a

module _ {W E : Type 0} (ev : Event E) (print_id : ℕ → String) (d : Dispatcher W E) {S : Type 0}
    (spec : OutboxSpec S d.outbox) (quiet : Keeps d.bus spec.state)
    (quiet_errors : (ctx : Ctx) (e : GoError) (w : W)
      → spec.state (d.on_error ctx e w) ≡ spec.state w) where
  abbrev pub queue : W → List (OutboxEntry E)
  queue w = spec.undispatched (spec.state w)

  -- What a tick does to the queue: nothing, or it removes some entries from its front, which the
  -- bus has taken in this tick, in the queue's order.
  pub data TickEffect (ctx : TickCtx) (w w' : W) : Type 0 where
    kept : queue w' ≡ queue w → TickEffect ctx w w'
    removed :
        (before rest : List (OutboxEntry E)) (v : W)
        → queue w ≡ before ++ rest
        → Took ev print_id d ctx.at_publish 0
            (d.outbox.claim ctx.at_claim d.batch_size w).0
            before
            v
        → queue w' ≡ rest
        → TickEffect ctx w w'

  Took-state :
      (ctx : ℕ → Ctx) (xs : List (OutboxEntry E)) (i : ℕ) (w w' : W)
      → Took ev print_id d ctx i w xs w'
      → spec.state w' ≡ spec.state w
  Took-state ctx [] i w w' h = ap spec.state (sym h)
  Took-state ctx (x ∷ xs) i w w' (v, h, t) =
      Took-state ctx xs (i + 1) v w' t
      ∙ sym (ap (λ p. spec.state p.0) h)
      ∙ quiet (ctx i) x.envelope w

  report_keeps :
      (before : String) (ctx : Ctx) (p : W × Option GoError)
      → queue (report ev print_id d before ctx p) ≡ queue p.0
  report_keeps before ctx (w, none) = refl
  report_keeps before ctx (w, some e) = ap spec.undispatched (quiet_errors ctx _ w)

  module _ (ctx : TickCtx) (w u : W) (c : Claim W E)
      (claimed : d.outbox.claim ctx.at_claim d.batch_size w ≡ (u, ok c)) where
    same_at_claim : queue u ≡ queue w
    same_at_claim = sym (ap (λ p. queue p.0) claimed) ∙ spec.claim_keeps ctx.at_claim d.batch_size w

    -- The entries of `before` were taken, in `v`, and the claim ends in `x` with nothing else done.
    ended :
        (before after : List (OutboxEntry E)) (v x : W)
        → c.entries ≡ before ++ after
        → Took ev print_id d ctx.at_publish 0 u before v
        → spec.state x ≡ spec.state v
        → TickEffect ctx w (end_claim ev print_id d c ctx.at_end (ids before) x)
    ended [] after v x split took same =
        let unchanged : spec.state x ≡ spec.state u =
          same ∙ Took-state ctx.at_publish [] 0 u v took in
        kept (
          report_keeps _ ctx.at_end (c.release ctx.at_end x)
          ∙ spec.release_keeps ctx.at_claim d.batch_size w u c claimed ctx.at_end x unchanged
          ∙ ap spec.undispatched unchanged
          ∙ same_at_claim)
    ended (b ∷ before) after v x split took same =
        elim (spec.commit_marks ctx.at_claim d.batch_size w u c claimed ctx.at_end (b ∷ before)
          after (after ++ prefix.0) x split unchanged (unmoved ∙ whole)) [
            | inl marked ↦
                removed (b ∷ before) (after ++ prefix.0) v whole
                  (subst (λ s. Took ev print_id d ctx.at_publish 0 s (b ∷ before) v)
                    (sym (ap (λ p. p.0) claimed)) took)
                  (report_keeps _ ctx.at_end _ ∙ marked)
            | inr same' ↦ kept (report_keeps _ ctx.at_end _ ∙ same'.0 ∙ unmoved)
          ]
      where
        prefix : (rest : List (OutboxEntry E)) × (queue w ≡ c.entries ++ rest)
        prefix = spec.claim_prefix ctx.at_claim d.batch_size w u c claimed

        whole : queue w ≡ (b ∷ before) ++ (after ++ prefix.0)
        whole = prefix.1 ∙ ap (λ l. l ++ prefix.0) split ∙ append_assoc (b ∷ before) after prefix.0

        unchanged : spec.state x ≡ spec.state u
        unchanged = same ∙ Took-state ctx.at_publish (b ∷ before) 0 u v took

        unmoved : queue x ≡ queue w
        unmoved = ap spec.undispatched unchanged ∙ same_at_claim

    delivered :
        (v : W) (result : OrPanic (List ℕ))
        → DeliverEnd ev print_id d ctx.at_publish 0 c.entries u v result
        → TickEffect ctx w (after_deliver ev print_id d c ctx.at_end (v, result)).0
    delivered v (inl l) (took_all t r) =
        subst (λ k. TickEffect ctx w (end_claim ev print_id d c ctx.at_end k v)) (inl-path (sym r))
          (ended c.entries [] v v (sym (append-nil c.entries)) t refl)
    delivered v (inl l) (stopped before after x y z e k split t b q r) =
        subst (λ m. TickEffect ctx w (end_claim ev print_id d c ctx.at_end m v)) (inl-path (sym r))
          (ended before (x ∷ after) y v split t (
            ap spec.state q
            ∙ quiet_errors k _ z
            ∙ sym (ap (λ p. spec.state p.0) b)
            ∙ quiet k x.envelope y))
    delivered v (inl l) (crashed before after x y m k split t b r) = absurd (cc r)
    delivered v (inr m) (took_all t r) = absurd (cc r)
    delivered v (inr m) (stopped before after x y z e k split t b q r) = absurd (cc r)
    delivered v (inr n) (crashed before after x y m k split t b r) = kept (
        ap spec.undispatched (
          sym (ap (λ p. spec.state p.0) b)
          ∙ quiet k x.envelope y
          ∙ Took-state ctx.at_publish before 0 u y t)
        ∙ same_at_claim)

    processed :
        (entries : List (OutboxEntry E))
        → c.entries ≡ entries
        → TickEffect ctx w (process ev print_id d ctx c entries u).0
    processed [] e = kept (
        report_keeps _ ctx.at_end (c.release ctx.at_end u)
        ∙ spec.release_keeps ctx.at_claim d.batch_size w u c claimed ctx.at_end u refl
        ∙ same_at_claim)
    processed (x ∷ xs) e = delivered _ _ (
        subst
          (λ l.
            DeliverEnd ev print_id d ctx.at_publish 0 l u
              (deliver ev print_id d ctx.at_publish 0 (x ∷ xs) u).0
              (deliver ev print_id d ctx.at_publish 0 (x ∷ xs) u).1)
          (sym e) (deliver-DeliverEnd ev print_id d ctx.at_publish (x ∷ xs) 0 u))

  after_claim-TickEffect :
      (ctx : TickCtx) (w : W) (p : W × Outcome (Claim W E))
      → d.outbox.claim ctx.at_claim d.batch_size w ≡ p
      → TickEffect ctx w (after_claim ev print_id d ctx p).0
  after_claim-TickEffect ctx w (u, ok c) h = processed ctx w u c h c.entries refl
  after_claim-TickEffect ctx w (u, err e) h = kept (
      ap spec.undispatched (quiet_errors ctx.at_claim _ u)
      ∙ sym (ap (λ p. queue p.0) h)
      ∙ spec.claim_keeps ctx.at_claim d.batch_size w)
  after_claim-TickEffect ctx w (u, panics m) h =
      kept (sym (ap (λ p. queue p.0) h) ∙ spec.claim_keeps ctx.at_claim d.batch_size w)

  -- For an outbox that meets OutboxSpec, and a bus and an error handler that leave it alone:
  -- whatever fails in a tick, the queue is as it was, or it has lost a prefix, which the bus has
  -- taken in this tick and in the order of the queue.
  pub tick-TickEffect : (ctx : TickCtx) (w : W) → TickEffect ctx w (tick ev print_id d ctx w).0
  unfolding tick
  tick-TickEffect ctx w = after_claim-TickEffect ctx w _ refl
