-- ===== src/Event/Dispatcher/Spinning.antt =====
-- event/dispatcher.go: `Run` on a full batch that does not get through.
use goaxon.Prelude.{
  ℕ, String, Option, none, some, List, ◌∷◌, ◌≡◌, refl, ap, sym, ◌∙◌, inl, length, nat_beq_iff,
}
use goaxon.Go.Error.{GoError}
use goaxon.Go.Outcome.{ok, err}
use goaxon.Go.Word.{pos}
use goaxon.Event.{Ctx, Event}
use goaxon.Event.Delivery.{Keeps}
use goaxon.Event.Outbox.{OutboxEntry, Claim}
use goaxon.Event.Dispatcher.{
  Dispatcher, TickCtx, Wake, fired, publish_error, after_publish, deliver, report, after_deliver,
  process, after_claim, tick, wait, after_tick, run,
}
use goaxon.Event.Dispatcher.Safety.{OutboxSpec}

module _ {W E : Type 0} (ev : Event E) (print_id : ℕ → String) (d : Dispatcher W E) where
  -- The state and the count of a tick whose claim is `c`, of which the bus refuses the first entry.
  tick_refused :
      (ctx : TickCtx) (w w' v : W) (c : Claim W E) (entry : OutboxEntry E)
      (entries : List (OutboxEntry E)) (e : GoError)
      → d.outbox.claim ctx.at_claim d.batch_size w ≡ (w', ok c)
      → c.entries ≡ entry ∷ entries
      → d.bus (ctx.at_publish 0) entry.envelope w' ≡ (v, err e)
      → let u = d.on_error (ctx.at_publish 0) (publish_error ev print_id d entry e) v in
        tick ev print_id d ctx w ≡ (
          report ev print_id d "dispatcher: release: " ctx.at_end (c.release ctx.at_end u),
          inl (length c.entries),
        )
  unfolding tick deliver
  tick_refused ctx w w' v c entry entries e claimed some_entries refused =
      ap (after_claim ev print_id d ctx) claimed
      ∙ ap (λ l. process ev print_id d ctx c l w') some_entries
      ∙ ap
          (λ q. after_deliver ev print_id d c ctx.at_end (
            after_publish ev print_id d (ctx.at_publish 0) entry q
              (deliver ev print_id d ctx.at_publish 1 entries)))
          refused

  wait_full : (n : ℕ) → d.batch_size ≡ pos n → wait ev print_id d n ≡ pos 0
  unfolding wait
  wait_full n h = rw (h, (nat_beq_iff n n).1 refl)

  module _ {S : Type 0} (spec : OutboxSpec S d.outbox) (quiet : Keeps d.bus spec.state)
      (quiet_errors : (ctx : Ctx) (e : GoError) (w : W)
        → spec.state (d.on_error ctx e w) ≡ spec.state w) where
    report_state :
        (before : String) (ctx : Ctx) (q : W × Option GoError)
        → spec.state (report ev print_id d before ctx q) ≡ spec.state q.0
    report_state before ctx (w, none) = refl
    report_state before ctx (w, some e) = quiet_errors ctx _ w

    -- For an outbox that meets OutboxSpec, and a bus and an error handler that leave it alone:
    -- after a tick that claimed a full batch of which the bus refused the first entry, the queue
    -- of undispatched entries is as it was, and `Run` sets its timer to 0 and goes on from there.
    pub run_refused :
        (ctx : TickCtx) (w w' v : W) (c : Claim W E) (entry : OutboxEntry E)
        (entries : List (OutboxEntry E)) (e : GoError) (wakes : List Wake)
        → d.outbox.claim ctx.at_claim d.batch_size w ≡ (w', ok c)
        → c.entries ≡ entry ∷ entries
        → d.batch_size ≡ pos (length c.entries)
        → d.bus (ctx.at_publish 0) entry.envelope w' ≡ (v, err e)
        → (u : W) × (spec.undispatched (spec.state u) ≡ spec.undispatched (spec.state w))
          × (run ev print_id d (fired ctx ∷ wakes) w ≡ (
            (run ev print_id d wakes u).0,
            pos 0 ∷ (run ev print_id d wakes u).1,
            (run ev print_id d wakes u).2,
          ))
    unfolding run
    run_refused ctx w w' v c entry entries e wakes claimed some_entries full refused = (
      left,
      ap spec.undispatched (report_state "dispatcher: release: " ctx.at_end _)
          ∙ spec.release_keeps ctx.at_claim d.batch_size w w' c claimed ctx.at_end reported
              (quiet_errors _ _ v ∙ ap (λ q. spec.state q.0) (sym refused) ∙ quiet _ _ w')
          ∙ ap spec.undispatched
              (quiet_errors _ _ v ∙ ap (λ q. spec.state q.0) (sym refused) ∙ quiet _ _ w')
          ∙ ap (λ q. spec.undispatched (spec.state q.0)) (sym claimed)
          ∙ spec.claim_keeps ctx.at_claim d.batch_size w,
      ap (λ p. after_tick ev print_id d p (run ev print_id d wakes))
            (tick_refused ctx w w' v c entry entries e claimed some_entries refused)
          ∙ ap
              (λ n. (
                (run ev print_id d wakes left).0,
                n ∷ (run ev print_id d wakes left).1,
                (run ev print_id d wakes left).2,
              ))
              (wait_full (length c.entries) full),
    )
      where
        reported : W
        reported = d.on_error (ctx.at_publish 0) (publish_error ev print_id d entry e) v

        left : W
        left =
            report ev print_id d "dispatcher: release: " ctx.at_end (c.release ctx.at_end reported)
