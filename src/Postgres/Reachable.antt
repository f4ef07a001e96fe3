-- ===== src/Postgres/Reachable.antt =====
-- store/postgres/postgres.go: sequences of calls of the store.
use goaxon.Prelude.{ℕ, List, [], ◌≡◌, refl, sym, subst}
use goaxon.Go.Error.{wrapped}
use goaxon.Go.Outcome.{Outcome, ok, wrap_err}
use goaxon.Go.Word.{ℤ}
use goaxon.Event.{Uuid, Ctx, Event, Envelope}
use goaxon.Event.Outbox.{Claim}
use goaxon.Event.Registry.{Registry}
use goaxon.Postgres.{load, append, claim}
use goaxon.Postgres.Claims.{ClaimEnd, claimed_none, claimed, failed, crashed, claim-ClaimEnd}
use goaxon.Postgres.Database.{Pgx}
use goaxon.Postgres.Scan.{Json, load_rows}
use goaxon.Go.Exec.{lift, map_err, bind_keeps}
use goaxon.Postgres.Spec.{PgxSpec, BeginFuncSpec}
use goaxon.Postgres.Sync.{InSync, append-InSync, claim-InSync}

-- The states that calls of the store lead to, one after the other; a claim that is returned is
-- ended at once or never.
pub data Reached {W Tx E : Type 0} (ev : Event E) (registry : Registry E) (json : Json E)
    (db : Pgx W Tx) (start : W) : W → Type 0 where
  at_start : Reached ev registry json db start start
  after_append :
      {w : W} (ctx : Ctx) (id : Uuid) (expected : ℕ) (events : List (Envelope E))
      → Reached ev registry json db start w
      → Reached ev registry json db start (append ev json db ctx id expected events w).0
  after_load :
      {w : W} (ctx : Ctx) (id : Uuid)
      → Reached ev registry json db start w
      → Reached ev registry json db start (load registry json db ctx id w).0
  after_claim :
      {w : W} (ctx : Ctx) (n : ℤ)
      → Reached ev registry json db start w
      → Reached ev registry json db start (claim registry json db ctx n w).0
  after_commit :
      {w w' : W} {c : Claim W E} (ctx ctx' : Ctx) (n : ℤ) (done : List ℕ)
      → Reached ev registry json db start w
      → claim registry json db ctx n w ≡ (w', ok c)
      → Reached ev registry json db start (c.commit ctx' done w').0
  after_release :
      {w w' : W} {c : Claim W E} (ctx ctx' : Ctx) (n : ℤ)
      → Reached ev registry json db start w
      → claim registry json db ctx n w ≡ (w', ok c)
      → Reached ev registry json db start (c.release ctx' w').0

module _ {W Tx E : Type 0} (ev : Event E) (registry : Registry E) (json : Json E) (db : Pgx W Tx)
    (spec : PgxSpec db) where
  load_keeps :
      (ctx : Ctx) (id : Uuid) (w : W)
      → spec.tables (load registry json db ctx id w).0 ≡ spec.tables w
  unfolding load
  load_keeps ctx id w =
      bind_keeps spec.tables
        (map_err (wrap_err (λ e. wrapped "postgres: query: " e "")) (db.select_events ctx id))
        (λ rows. lift (load_rows registry json rows)) w (spec.events_keep ctx id w) (λ rows t. refl)

  claim_keeps :
      {w w' : W} {r : Outcome (Claim W E)}
      → ClaimEnd registry json db spec w w' r
      → spec.tables w' ≡ spec.tables w
  claim_keeps (claimed_none same count r) = same
  claim_keeps (claimed tx entry entries rest same count clean front r) = same
  claim_keeps (failed e same count r) = same
  claim_keeps (crashed m same r) = same

  -- Where the rows of `events` are those of `outbox`, one for one and in the same order, on a
  -- database that meets PgxSpec and BeginFuncSpec, every sequence of calls of `Append`, `Load` and
  -- `Claim`, and of `Commit` or `Release` right after a claim, leaves them so, whatever fails in
  -- it.
  pub Reached-InSync :
      BeginFuncSpec spec
      → (start last : W) → InSync (spec.tables start)
      → Reached ev registry json db start last
      → InSync (spec.tables last)
  Reached-InSync begins start last h at_start = h
  Reached-InSync begins start last h (after_append {w} ctx id expected events r) =
      append-InSync ev json db spec begins ctx id expected events w
        (Reached-InSync begins start w h r)
  Reached-InSync begins start last h (after_load {w} ctx id r) =
      subst InSync (sym (load_keeps ctx id w)) (Reached-InSync begins start w h r)
  Reached-InSync begins start last h (after_claim {w} ctx n r) =
      subst InSync (sym (claim_keeps (claim-ClaimEnd registry json db spec ctx n w)))
        (Reached-InSync begins start w h r)
  Reached-InSync begins start last h (after_commit {w} {w'} {c} ctx ctx' n done r ran) =
      (claim-InSync registry json db spec ctx n w w' c ran (Reached-InSync begins start w h r) ctx'
        done).1
  Reached-InSync begins start last h (after_release {w} {w'} {c} ctx ctx' n r ran) =
      (claim-InSync registry json db spec ctx n w w' c ran (Reached-InSync begins start w h r) ctx'
        []).2
