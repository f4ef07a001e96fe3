-- ===== src/Event/Dispatcher/Delivering.antt =====
-- event/dispatcher.go: the loop of `tick`.
use goaxon.Prelude.{ℕ, ◌+◌, String, List, [], ◌∷◌, ◌++◌, ◌≡◌, refl, ap, arith, map, inl, inr}
use goaxon.Go.Error.{GoError}
use goaxon.Go.Outcome.{Done, ok, err, panics, OrPanic}
use goaxon.Event.{Ctx, Event}
use goaxon.Event.Outbox.{OutboxEntry}
use goaxon.Event.Dispatcher.{Dispatcher, publish_error, and_then, after_publish, deliver}

abbrev pub ids : {E : Type 0} → List (OutboxEntry E) → List ℕ
ids = map (λ x. x.outbox_id)

module _ {W E : Type 0} (ev : Event E) (print_id : ℕ → String) (d : Dispatcher W E)
    (ctx : ℕ → Ctx) where
  -- The bus takes each of the entries without an error, in order, from `w` to `w'`.
  abbrev pub Took : ℕ → W → List (OutboxEntry E) → W → Type 0
  Took i w [] w' = w ≡ w'
  Took i w (x ∷ xs) w' = (v : W) × (d.bus (ctx i) x.envelope w ≡ (v, ok tt)) × Took (i + 1) v xs w'

  -- How the loop over `entries` ended, in `w'` and with `result`.
  pub data DeliverEnd (i : ℕ) (entries : List (OutboxEntry E)) (w w' : W)
      (result : OrPanic (List ℕ)) : Type 0 where
    took_all : Took i w entries w' → result ≡ inl (ids entries) → DeliverEnd i entries w w' result
    stopped :
        (before after : List (OutboxEntry E)) (x : OutboxEntry E) (v u : W) (e : GoError) (c : Ctx)
        → entries ≡ before ++ x ∷ after
        → Took i w before v
        → d.bus c x.envelope v ≡ (u, err e)
        → w' ≡ d.on_error c (publish_error ev print_id d x e) u
        → result ≡ inl (ids before)
        → DeliverEnd i entries w w' result
    crashed :
        (before after : List (OutboxEntry E)) (x : OutboxEntry E) (v : W) (m : String) (c : Ctx)
        → entries ≡ before ++ x ∷ after
        → Took i w before v
        → d.bus c x.envelope v ≡ (w', panics m)
        → result ≡ inr m
        → DeliverEnd i entries w w' result

  later_end :
      (i : ℕ) (x : OutboxEntry E) (xs : List (OutboxEntry E)) (w v : W) (p : W × OrPanic (List ℕ))
      → d.bus (ctx i) x.envelope w ≡ (v, ok tt)
      → DeliverEnd (i + 1) xs v p.0 p.1
      → let q = and_then ev print_id d x.outbox_id p in DeliverEnd i (x ∷ xs) w q.0 q.1
  later_end i x xs w v (w', inl l) h (took_all t r) = took_all (v, h, t) (ground (arith, r))
  later_end i x xs w v (w', inr m) h (took_all t r) = absurd (ground (arith, r))
  later_end i x xs w v (w', inl l) h (stopped before after y u z e c split t b q r) =
      stopped (x ∷ before) after y u z e c (ap (λ l. x ∷ l) split) (v, h, t) b q (ground (arith, r))
  later_end i x xs w v (w', inr m) h (stopped before after y u z e c split t b q r) =
      absurd (ground (arith, r))
  later_end i x xs w v (w', inl l) h (crashed before after y u m c split t b r) =
      absurd (ground (arith, r))
  later_end i x xs w v (w', inr n) h (crashed before after y u m c split t b r) =
      crashed (x ∷ before) after y u m c (ap (λ l. x ∷ l) split) (v, h, t) b r

  after_publish-DeliverEnd :
      (i : ℕ) (x : OutboxEntry E) (xs : List (OutboxEntry E)) (w : W) (p : W × Done)
      → d.bus (ctx i) x.envelope w ≡ p
      → ((v : W)
          → let q = deliver ev print_id d ctx (i + 1) xs v in DeliverEnd (i + 1) xs v q.0 q.1)
      → let q = after_publish ev print_id d (ctx i) x p (deliver ev print_id d ctx (i + 1) xs) in
        DeliverEnd i (x ∷ xs) w q.0 q.1
  after_publish-DeliverEnd i x xs w (v, ok _) h rest = later_end i x xs w v _ h (rest v)
  after_publish-DeliverEnd i x xs w (v, err e) h rest =
      stopped [] xs x w v e (ctx i) refl refl h refl refl
  after_publish-DeliverEnd i x xs w (v, panics m) h rest =
      crashed [] xs x w m (ctx i) refl refl h refl

  -- The loop of a tick delivers the entries in order up to the first that the bus refuses, returns
  -- exactly the identifiers of those, and reports the refused one to the error handler; a panic of
  -- the bus ends it as a panic.
  pub deliver-DeliverEnd :
      (entries : List (OutboxEntry E)) (i : ℕ) (w : W)
      → let q = deliver ev print_id d ctx i entries w in DeliverEnd i entries w q.0 q.1
  unfolding deliver
  deliver-DeliverEnd [] i w = took_all refl refl
  deliver-DeliverEnd (x ∷ xs) i w =
      after_publish-DeliverEnd i x xs w (d.bus (ctx i) x.envelope w) refl
        (deliver-DeliverEnd xs (i + 1))
