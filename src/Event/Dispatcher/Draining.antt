-- ===== src/Event/Dispatcher/Draining.antt =====
-- event/dispatcher.go: repeated ticks, where nothing fails.
use goaxon.Prelude.{
  subst, ℕ, zero, suc, ◌+◌, ◌≤◌, String, List, [], ◌∷◌, ◌++◌, length, length-append, length-pos,
  append-nil, ◌≡◌, ◌≢◌, inl, inr, refl, ap, sym, ◌∙◌, Option, none, some, arith,
}
use goaxon.Go.Error.{GoError}
use goaxon.Go.Outcome.{ok}
use goaxon.Go.Word.{pos}
use goaxon.Event.{Ctx, Event, Envelope}
use goaxon.Event.Delivery.{Keeps}
use goaxon.Event.Outbox.{OutboxEntry, Claim, Outbox}
use goaxon.Event.Dispatcher.{
  Dispatcher, TickCtx, and_then, after_publish, deliver, report, after_deliver, process,
  after_claim, tick,
}
use goaxon.Event.Dispatcher.Delivering.{ids}
use goaxon.Event.Dispatcher.Safety.{OutboxSpec, TickEffect, kept, removed, tick-TickEffect}

-- An outbox that, where its state is ready, fails only where it has to: from a context that is not
-- done, a claim on a queue that is not empty has an entry, and the commit of a whole claim succeeds
-- while its session, `held`, is as the claim left it. The state is then ready again.
pub record OutboxProgress {W E S H : Type 0} {o : Outbox W E} (spec : OutboxSpec S o) (held : W → H)
    : Type 1 where
  pub Ready : S → Type 0
  pub claim_live :
      (n : ℕ) (w : W)
      → Ready (spec.state w)
      → spec.undispatched (spec.state w) ≢ []
      → (w' : W) × (c : Claim W E) × (o.claim none (pos (suc n)) w ≡ (w', ok c)) × (c.entries ≢ [])
  pub commit_live :
      (n : ℕ) (w w' : W) (c : Claim W E)
      → Ready (spec.state w)
      → o.claim none (pos (suc n)) w ≡ (w', ok c)
      → c.entries ≢ []
      → (v : W) → spec.state v ≡ spec.state w'
      → held v ≡ held w'
      → ((c.commit none (ids c.entries) v).1 ≡ none)
        × Ready (spec.state (c.commit none (ids c.entries) v).0)

-- The contexts of a tick that is not cancelled.
abbrev pub live_tick : TickCtx
live_tick = record { at_claim = none; at_publish = λ i. none; at_end = none }

module _ {W E : Type 0} (ev : Event E) (print_id : ℕ → String) (d : Dispatcher W E) where
  -- Several ticks.
  abbrev pub ticks : ℕ → W → W
  ticks zero w = w
  ticks (suc k) w = ticks k (tick ev print_id d live_tick w).0

  module _ {S H : Type 0} (spec : OutboxSpec S d.outbox) {held : W → H}
      (progress : OutboxProgress spec held) (n : ℕ) (full : d.batch_size ≡ pos (suc n))
      (quiet : Keeps d.bus spec.state) (quiet_held : Keeps d.bus held)
      (quiet_errors : (ctx : Ctx) (e : GoError) (w : W)
        → spec.state (d.on_error ctx e w) ≡ spec.state w)
      (live_bus : (env : Envelope E) (w : W) → (d.bus none env w).1 ≡ ok tt) where
    abbrev queue : W → List (OutboxEntry E)
    queue w = spec.undispatched (spec.state w)

    deliver_live :
        (xs : List (OutboxEntry E)) (i : ℕ) (w : W)
        → (v : W) × (deliver ev print_id d (λ _. none) i xs w ≡ (v, inl (ids xs)))
          × (spec.state v ≡ spec.state w)
          × (held v ≡ held w)
    unfolding deliver
    deliver_live [] i w = (w, refl, refl, refl)
    deliver_live (x ∷ xs) i w =
        let u = (d.bus none x.envelope w).0 in
        let (v, rest, same, still) = deliver_live xs (i + 1) u in
        (
          v,
          ap
                (λ r.
                  after_publish ev print_id d none x (u, r)
                    (deliver ev print_id d (λ _. none) (i + 1) xs))
                (live_bus x.envelope w)
              ∙ ap (and_then ev print_id d x.outbox_id) rest,
          same ∙ quiet none x.envelope w,
          still ∙ quiet_held none x.envelope w,
        )

    report-none :
        (before : String) (p : W × Option GoError)
        → p.1 ≡ none
        → report ev print_id d before none p ≡ p.0
    report-none before (w, none) h = refl
    report-none before (w, some e) h = absurd (cc h)

    -- The claim of the whole of `entries`, which begin the queue, ends with the rest of it.
    process_live :
        (w u : W) (c : Claim W E) (rest : List (OutboxEntry E))
        → progress.Ready (spec.state w)
        → d.outbox.claim none (pos (suc n)) w ≡ (u, ok c)
        → queue w ≡ c.entries ++ rest
        → (entries : List (OutboxEntry E)) → c.entries ≡ entries
        → entries ≢ []
        → let v = (process ev print_id d live_tick c entries u).0 in
          (queue v ≡ rest) × progress.Ready (spec.state v)
    process_live w u c rest ready claimed whole [] e some_entries = absurd (some_entries refl)
    process_live w u c rest ready claimed whole (x ∷ xs) e some_entries =
        let (v, delivered, same, still) = deliver_live (x ∷ xs) 0 u in
        let done =
          subst
            (λ l.
              ((c.commit none (ids l) v).1 ≡ none)
              × progress.Ready (spec.state (c.commit none (ids l) v).0))
            e
            (progress.commit_live n w u c ready claimed (λ p. some_entries (sym e ∙ p)) v same
              still) in
        let unmoved : queue v ≡ queue w =
          ap spec.undispatched (same ∙ ap (λ q. spec.state q.0) (sym claimed))
          ∙ spec.claim_keeps none (pos (suc n)) w in
        let marked : queue (c.commit none (ids (x ∷ xs)) v).0 ≡ rest =
          elim (spec.commit_marks none (pos (suc n)) w u c claimed none (x ∷ xs) [] rest v
            (e ∙ sym (append-nil (x ∷ xs))) same (unmoved ∙ whole ∙ ap (λ l. l ++ rest) e)) [
              | inl marked ↦ marked
              | inr unmarked ↦ absurd (unmarked.1 done.0)
            ] in
        let ended : (process ev print_id d live_tick c (x ∷ xs) u).0
            ≡ (c.commit none (ids (x ∷ xs)) v).0 =
          ap (λ q. (after_deliver ev print_id d c none q).0) delivered
          ∙ report-none _ (c.commit none (ids (x ∷ xs)) v) done.0 in
        (ap queue ended ∙ marked, subst (λ t. progress.Ready (spec.state t)) (sym ended) done.1)

    -- A tick on a queue that is not empty makes it shorter.
    tick_live :
        (w : W)
        → progress.Ready (spec.state w)
        → queue w ≢ []
        → let v = (tick ev print_id d live_tick w).0 in
          (suc (length (queue v)) ≤ length (queue w)) × progress.Ready (spec.state v)
    unfolding tick
    tick_live w ready some_entries =
        let (u, c, claimed, taken) = progress.claim_live n w ready some_entries in
        let (rest, whole) = spec.claim_prefix none (pos (suc n)) w u c claimed in
        let ended : (tick ev print_id d live_tick w).0
            ≡ (process ev print_id d live_tick c c.entries u).0 =
          ap (λ q. (after_claim ev print_id d live_tick q).0)
            (ap (λ b. d.outbox.claim none b w) full ∙ claimed) in
        let (left, again) = process_live w u c rest ready claimed whole c.entries refl taken in
        (
          omega (
            arith,
            ap length (ap queue ended ∙ left),
            ap length whole,
            length-append c.entries rest,
            length-pos c.entries taken,
          ),
          subst (λ t. progress.Ready (spec.state t)) (sym ended) again,
        )

    stays_empty : (w : W) → queue w ≡ [] → queue (tick ev print_id d live_tick w).0 ≡ []
    stays_empty w h = by_effect (tick-TickEffect ev print_id d spec quiet quiet_errors live_tick w)
      where
        no_rest : (xs ys : List (OutboxEntry E)) → [] ≡ xs ++ ys → ys ≡ []
        no_rest [] ys h = sym h
        no_rest (x ∷ xs) ys h = absurd (cc h)

        by_effect :
            {w' : W}
            → TickEffect ev print_id d spec quiet quiet_errors live_tick w w'
            → queue w' ≡ []
        by_effect (kept same) = same ∙ h
        by_effect (removed before rest v split took left) =
            left ∙ no_rest before rest (sym h ∙ split)

    ticks_empty : (k : ℕ) (w : W) → queue w ≡ [] → queue (ticks k w) ≡ []
    ticks_empty zero w h = h
    ticks_empty (suc k) w h = ticks_empty k (tick ev print_id d live_tick w).0 (stays_empty w h)

    drain :
        (k : ℕ) (w : W) (l : List (OutboxEntry E))
        → queue w ≡ l
        → progress.Ready (spec.state w)
        → length l ≤ k
        → queue (ticks k w) ≡ []
    drain k w [] e ready h = ticks_empty k w e
    drain zero w (x ∷ l) e ready h = absurd (omega (arith, h))
    drain (suc k) w (x ∷ l) e ready h =
        let (shorter, again) = tick_live w ready (λ q. cc (e, q)) in
        let v = (tick ev print_id d live_tick w).0 in
        drain k v (queue v) refl again (omega (arith, shorter, h, ap length e))

    -- As many ticks as there are undispatched entries leave none.
    pub ticks_drain :
        (k : ℕ) (w : W)
        → progress.Ready (spec.state w)
        → length (queue w) ≤ k
        → queue (ticks k w) ≡ []
    ticks_drain k w = drain k w (queue w) refl
