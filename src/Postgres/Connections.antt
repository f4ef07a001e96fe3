-- ===== src/Postgres/Connections.antt =====
-- store/postgres/postgres.go: the transactions that the outbox leaves open.
use goaxon.Prelude.{
  ℕ, ◌-◌, String, Option, none, some, List, [], ◌∷◌, ◌≡◌, inl, ap, sym, subst, ◌∙◌, arith,
}
use goaxon.Go.Error.{GoError}
use goaxon.Go.Outcome.{ok, ok_injective, err}
use goaxon.Event.{Ctx, Event}
use goaxon.Event.Delivery.{Keeps}
use goaxon.Event.Dispatcher.{Dispatcher, TickCtx, tick}
use goaxon.Event.Dispatcher.Closing.{Closes, tick-Closes}
use goaxon.Event.Outbox.{Claim}
use goaxon.Event.Registry.{Registry}
use goaxon.Postgres.{after_mark, commit_claim, postgres_outbox}
use goaxon.Postgres.Claims.{ClaimEnd, claimed_none, claimed, failed, crashed, claim-ClaimEnd}
use goaxon.Postgres.Database.{Pgx, mark_dispatched}
use goaxon.Postgres.Marking.{wrapped_as_keeps}
use goaxon.Postgres.Scan.{Json}
use goaxon.Postgres.Spec.{PgxSpec}

module _ {W Tx E : Type 0} (registry : Registry E) (json : Json E) (db : Pgx W Tx)
    (spec : PgxSpec db) where
  module _ (tx : Tx) (ctx : Ctx) where
    after_mark-open_count :
        (p : W × Option GoError)
        → spec.open_count (after_mark db tx ctx p).0 ≡ spec.open_count p.0 - 1
    after_mark-open_count (w, none) =
        wrapped_as_keeps spec.open_count _ _ ∙ spec.commit_ends tx ctx w
    after_mark-open_count (w, some e) = spec.rollback_ends tx ctx w

    commit_claim-open_count :
        (done : List ℕ) (w : W)
        → spec.open_count (commit_claim db tx ctx done w).0 ≡ spec.open_count w - 1
    commit_claim-open_count [] w = after_mark-open_count (w, none)
    commit_claim-open_count (id ∷ done) w =
        after_mark-open_count _
        ∙ ap (λ k. k - 1) (spec.exec_keeps tx ctx (mark_dispatched (id ∷ done)) w).1

  pub postgres_outbox-Closes : Closes spec.open_count (postgres_outbox registry json db)
  postgres_outbox-Closes ctx n w = (
    λ w' e h. fails (
        subst (λ q. ClaimEnd registry json db spec w q.0 q.1) h
          (claim-ClaimEnd registry json db spec ctx n w)),
    λ w' c ctx' done v h same.
        closes ctx' done v
          (subst (λ q. ClaimEnd registry json db spec w q.0 q.1) h
            (claim-ClaimEnd registry json db spec ctx n w))
          same,
  )
    where
      fails :
          {w' : W} {e : GoError}
          → ClaimEnd registry json db spec w w' (err e)
          → spec.open_count w' ≡ spec.open_count w
      fails (claimed_none same count r) = count
      fails (claimed tx entry entries rest same count clean front r) = absurd (cc r)
      fails (failed e same count r) = count
      fails (crashed m same r) = absurd (cc r)

      closes :
          {w' : W} {c : Claim W E} (ctx : Ctx) (done : List ℕ) (v : W)
          → ClaimEnd registry json db spec w w' (ok c)
          → spec.open_count v ≡ spec.open_count w'
          → (spec.open_count (c.commit ctx done v).0 ≡ spec.open_count w)
            × (spec.open_count (c.release ctx v).0 ≡ spec.open_count w)
      closes ctx done v (claimed_none same count r) now =
          subst
            (λ d.
              (spec.open_count (d.commit ctx done v).0 ≡ spec.open_count w)
              × (spec.open_count (d.release ctx v).0 ≡ spec.open_count w))
            (sym (ok_injective r)) (now ∙ count, now ∙ count)
      closes ctx done v (claimed tx entry entries rest same count clean front r) now =
          let one_less : spec.open_count v - 1 ≡ spec.open_count w = omega (arith, now, count) in
          subst
            (λ d.
              (spec.open_count (d.commit ctx done v).0 ≡ spec.open_count w)
              × (spec.open_count (d.release ctx v).0 ≡ spec.open_count w))
            (sym (ok_injective r))
            (
              commit_claim-open_count tx ctx done v ∙ one_less,
              wrapped_as_keeps spec.open_count _ (db.rollback tx ctx v)
                  ∙ spec.rollback_ends tx ctx v
                  ∙ one_less,
            )
      closes ctx done v (failed e same count r) now = absurd (cc r)
      closes ctx done v (crashed m same r) now = absurd (cc r)

  -- A tick of a dispatcher over the Postgres outbox that does not panic leaves as many
  -- transactions open as it found, whatever fails in it, on a database that meets PgxSpec and with
  -- a bus and an error handler that open and end none.
  pub tick-open_count :
      (ev : Event E) (print_id : ℕ → String) (d : Dispatcher W E)
      → d.outbox ≡ postgres_outbox registry json db
      → Keeps d.bus spec.open_count
      → ((ctx : Ctx) (e : GoError) (w : W)
          → spec.open_count (d.on_error ctx e w) ≡ spec.open_count w)
      → (ctx : TickCtx) (w : W) (n : ℕ) → (tick ev print_id d ctx w).1 ≡ inl n
      → spec.open_count (tick ev print_id d ctx w).0 ≡ spec.open_count w
  tick-open_count ev print_id d h quiet quiet_errors =
      tick-Closes ev print_id d spec.open_count quiet quiet_errors
        (subst (Closes spec.open_count) (sym h) postgres_outbox-Closes)
