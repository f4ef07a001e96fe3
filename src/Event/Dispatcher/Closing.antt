-- ===== src/Event/Dispatcher/Closing.antt =====
-- event/dispatcher.go: the claims that a tick leaves open.
use goaxon.Prelude.{
  ℕ, ◌+◌, String, List, [], ◌∷◌, ◌≡◌, refl, ap, sym, ◌∙◌, inl, inr, Option, none, some,
}
use goaxon.Go.Error.{GoError}
use goaxon.Go.Outcome.{Outcome, Done, ok, err, panics, OrPanic}
use goaxon.Go.Word.{ℤ}
use goaxon.Event.{Ctx, Event}
use goaxon.Event.Delivery.{Keeps}
use goaxon.Event.Outbox.{OutboxEntry, Claim, Outbox}
use goaxon.Event.Dispatcher.{
  Dispatcher, TickCtx, and_then, after_publish, deliver, report, end_claim, after_deliver, process,
  after_claim, tick,
}

-- Each claim is over, by some count of what is open, after one call of its commit or its release,
-- and a claim that fails opens nothing.
abbrev pub Closes : {W E : Type 0} → (W → ℕ) → Outbox W E → Type 0
Closes {W} {E} count o =
    (ctx : Ctx) (n : ℤ) (w : W)
    → ((w' : W) (e : GoError) → o.claim ctx n w ≡ (w', err e) → count w' ≡ count w)
      × ((w' : W) (c : Claim W E) (ctx' : Ctx) (done : List ℕ) (v : W)
          → o.claim ctx n w ≡ (w', ok c)
          → count v ≡ count w'
          → (count (c.commit ctx' done v).0 ≡ count w) × (count (c.release ctx' v).0 ≡ count w))

module _ {W E : Type 0} (ev : Event E) (print_id : ℕ → String) (d : Dispatcher W E) (count : W → ℕ)
    (quiet : Keeps d.bus count)
    (quiet_errors : (ctx : Ctx) (e : GoError) (w : W) → count (d.on_error ctx e w) ≡ count w) where
  and_then_state : (id : ℕ) (p : W × OrPanic (List ℕ)) → (and_then ev print_id d id p).0 ≡ p.0
  and_then_state id (w, inl ids) = refl
  and_then_state id (w, inr m) = refl

  deliver_count :
      (ctx : ℕ → Ctx) (xs : List (OutboxEntry E)) (i : ℕ) (w : W)
      → count (deliver ev print_id d ctx i xs w).0 ≡ count w
  unfolding deliver
  deliver_count ctx [] i w = refl
  deliver_count ctx (x ∷ xs) i w =
      at (d.bus (ctx i) x.envelope w) (quiet (ctx i) x.envelope w) (deliver_count ctx xs (i + 1))
    where
      at :
          (p : W × Done)
          → count p.0 ≡ count w
          → ((v : W) → count (deliver ev print_id d ctx (i + 1) xs v).0 ≡ count v)
          → count (after_publish ev print_id d (ctx i) x p (deliver ev print_id d ctx (i + 1) xs)).0
            ≡ count w
      at (v, ok _) h later = ap count (and_then_state x.outbox_id _) ∙ later v ∙ h
      at (v, err e) h later = quiet_errors (ctx i) _ v ∙ h
      at (v, panics m) h later = h

  report_count :
      (before : String) (ctx : Ctx) (p : W × Option GoError)
      → count (report ev print_id d before ctx p) ≡ count p.0
  report_count before ctx (w, none) = refl
  report_count before ctx (w, some e) = quiet_errors ctx _ w

  end_claim_count :
      (c : Claim W E) (ctx : Ctx) (done : List ℕ) (v w : W)
      → ((done : List ℕ)
          → (count (c.commit ctx done v).0 ≡ count w) × (count (c.release ctx v).0 ≡ count w))
      → count (end_claim ev print_id d c ctx done v) ≡ count w
  end_claim_count c ctx [] v w closes = report_count _ ctx _ ∙ (closes []).1
  end_claim_count c ctx (id ∷ done) v w closes = report_count _ ctx _ ∙ (closes (id ∷ done)).0

  pub tick-Closes :
      Closes count d.outbox
      → (ctx : TickCtx) (w : W) (n : ℕ) → (tick ev print_id d ctx w).1 ≡ inl n
      → count (tick ev print_id d ctx w).0 ≡ count w
  unfolding tick
  tick-Closes closes ctx w n h = by_claim (d.outbox.claim ctx.at_claim d.batch_size w) refl h
    where
      by_deliver :
          (c : Claim W E)
          → ((v : W) (done : List ℕ)
              → count v ≡ count (d.outbox.claim ctx.at_claim d.batch_size w).0
              → (count (c.commit ctx.at_end done v).0 ≡ count w)
                × (count (c.release ctx.at_end v).0 ≡ count w))
          → (p : W × OrPanic (List ℕ))
          → count p.0 ≡ count (d.outbox.claim ctx.at_claim d.batch_size w).0
          → (after_deliver ev print_id d c ctx.at_end p).1 ≡ inl n
          → count (after_deliver ev print_id d c ctx.at_end p).0 ≡ count w
      by_deliver c ends (v, inl done) same q =
          end_claim_count c ctx.at_end done v w (λ done. ends v done same)
      by_deliver c ends (v, inr m) same q = absurd (cc q)

      by_entries :
          (c : Claim W E) (entries : List (OutboxEntry E)) (u : W)
          → ((v : W) (done : List ℕ)
              → count v ≡ count (d.outbox.claim ctx.at_claim d.batch_size w).0
              → (count (c.commit ctx.at_end done v).0 ≡ count w)
                × (count (c.release ctx.at_end v).0 ≡ count w))
          → count u ≡ count (d.outbox.claim ctx.at_claim d.batch_size w).0
          → (process ev print_id d ctx c entries u).1 ≡ inl n
          → count (process ev print_id d ctx c entries u).0 ≡ count w
      by_entries c [] u ends same q = report_count _ ctx.at_end _ ∙ (ends u [] same).1
      by_entries c (x ∷ xs) u ends same q =
          by_deliver c ends (deliver ev print_id d ctx.at_publish 0 (x ∷ xs) u)
            (deliver_count ctx.at_publish (x ∷ xs) 0 u ∙ same) q

      by_claim :
          (p : W × Outcome (Claim W E))
          → d.outbox.claim ctx.at_claim d.batch_size w ≡ p
          → (after_claim ev print_id d ctx p).1 ≡ inl n
          → count (after_claim ev print_id d ctx p).0 ≡ count w
      by_claim (u, ok c) e q =
          by_entries c c.entries u
            (λ v done same.
              (closes ctx.at_claim d.batch_size w).1 u c ctx.at_end done v e
                (same ∙ ap (λ p. count p.0) e))
            (ap (λ p. count p.0) (sym e)) q
      by_claim (u, err x) e q =
          quiet_errors ctx.at_claim _ u ∙ (closes ctx.at_claim d.batch_size w).0 u x e
      by_claim (u, panics m) e q = absurd (cc q)
