-- ===== src/Postgres/Claims.antt =====
-- store/postgres/postgres.go: how `Claim` ends, and what the ends of a claim do.
use goaxon.Prelude.{
  if◌then◌else◌, suc, String, Bool, true, false, Option, none, some, List, [], ◌∷◌, ◌++◌, ◌≡◌, refl,
  ap, sym, subst, ◌∙◌, take, drop, take-append-drop, arith,
}
use goaxon.Go.Error.{GoError}
use goaxon.Go.Outcome.{Outcome, ok, err, panics}
use goaxon.Go.Word.{ℤ, is_not_positive}
use goaxon.Event.{Ctx}
use goaxon.Event.Outbox.{OutboxEntry, Claim}
use goaxon.Event.Registry.{Registry}
use goaxon.Postgres.{
  after_empty, empty_claim, open_claim, after_empty, after_scan, after_query, after_begin, claim,
}
use goaxon.Postgres.Database.{OutboxRow, Rows, Pgx}
use goaxon.Postgres.Queue.{decoded, decoded-append, scan_outbox_rows-ok}
use goaxon.Postgres.Scan.{Json, scan_outbox_rows}
use goaxon.Postgres.Spec.{PgxSpec}
use goaxon.Postgres.Tables.{Tables, pending_rows, limit, apply_all}

-- The entries that are not marked dispatched, in the order of their identifiers; a row that does
-- not decode is left out.
abbrev pub queue_in : {E : Type 0} → Registry E → Json E → Tables → List (OutboxEntry E)
queue_in registry json t = decoded registry json (pending_rows t.outbox)

module _ {W Tx E : Type 0} (registry : Registry E) (json : Json E) (db : Pgx W Tx)
    (spec : PgxSpec db) where
  -- How `Claim` ends. The tables are always as they were. `claimed`: with the first entries of the
  -- queue, at least one, and a transaction that has changed nothing. `claimed_none`, `failed`: no
  -- transaction is left open. `crashed`: a panic.
  pub data ClaimEnd (w w' : W) (result : Outcome (Claim W E)) : Type 0 where
    claimed_none :
        spec.tables w' ≡ spec.tables w
        → spec.open_count w' ≡ spec.open_count w
        → result ≡ ok empty_claim
        → ClaimEnd w w' result
    claimed :
        (tx : Tx) (entry : OutboxEntry E) (entries rest : List (OutboxEntry E))
        → spec.tables w' ≡ spec.tables w
        → spec.open_count w' ≡ suc (spec.open_count w)
        → spec.changes w' tx ≡ []
        → queue_in registry json (spec.tables w) ≡ (entry ∷ entries) ++ rest
        → result ≡ ok (open_claim db tx (entry ∷ entries))
        → ClaimEnd w w' result
    failed :
        (e : GoError)
        → spec.tables w' ≡ spec.tables w
        → spec.open_count w' ≡ spec.open_count w
        → result ≡ err e
        → ClaimEnd w w' result
    crashed :
        (m : String) → spec.tables w' ≡ spec.tables w → result ≡ panics m → ClaimEnd w w' result

  module _ (ctx : Ctx) (n : ℤ) (w : W) (tx : Tx) where
    -- A transaction for the claim was begun, and its state is now `u`.
    abbrev Opened : W → Type 0
    Opened u =
        (spec.tables u ≡ spec.tables w)
        × (spec.open_count u ≡ suc (spec.open_count w))
        × (spec.changes u tx ≡ [])

    rolled : (u : W) → Opened u → spec.tables (db.rollback tx ctx u).0 ≡ spec.tables w
    rolled u (same, more, clean) = spec.rollback_keeps tx ctx u ∙ same

    given_back : (u : W) → Opened u → spec.open_count (db.rollback tx ctx u).0 ≡ spec.open_count w
    given_back u (same, more, clean) = omega (arith, spec.rollback_ends tx ctx u, more)

    after_scan-ClaimEnd :
        (u : W) (r : Outcome (List (OutboxEntry E)))
        → Opened u
        → ((entry : OutboxEntry E) (entries : List (OutboxEntry E))
            → r ≡ ok (entry ∷ entries)
            → (rest : List (OutboxEntry E)) × (queue_in registry json (spec.tables w)
                ≡ (entry ∷ entries) ++ rest))
        → let q = after_scan db tx ctx r u in ClaimEnd w q.0 q.1
    after_scan-ClaimEnd u (ok []) o first =
        by_rollback (db.rollback tx ctx u) (rolled u o) (given_back u o)
      where
        by_rollback :
            (p : W × Option GoError)
            → spec.tables p.0 ≡ spec.tables w
            → spec.open_count p.0 ≡ spec.open_count w
            → let q = after_empty db p in ClaimEnd w q.0 q.1
        by_rollback (v, none) same fewer = claimed_none same fewer refl
        by_rollback (v, some e) same fewer = failed _ same fewer refl
    after_scan-ClaimEnd u (ok (entry ∷ entries)) (same, more, clean) first =
        let (rest, front) = first entry entries refl in
        claimed tx entry entries rest same more clean front refl
    after_scan-ClaimEnd u (err e) o first = failed e (rolled u o) (given_back u o) refl
    after_scan-ClaimEnd u (panics m) (same, more, clean) first = crashed m same refl

    -- The rows that the query selected begin the queue.
    scanned :
        (v : W) (rows : Rows OutboxRow)
        → Opened v
        → (db.select_pending tx ctx n v).1 ≡ ok rows
        → (entries : List (OutboxEntry E)) → scan_outbox_rows registry json rows ≡ ok entries
        → (rest : List (OutboxEntry E)) × (queue_in registry json (spec.tables w) ≡ entries ++ rest)
    scanned v rows (same, more, clean) h entries read =
        let (l, all, no_error, made) = scan_outbox_rows-ok registry json rows entries read in
        let pending = pending_rows (spec.tables w).outbox in
        let selected : l ≡ take (limit n) pending =
          spec.pending_ok tx ctx n v rows h l all no_error
          ∙ ap (λ cs. take (limit n) (pending_rows (apply_all cs (spec.tables v)).outbox)) clean
          ∙ ap (λ t. take (limit n) (pending_rows t.outbox)) same in
        (
          decoded registry json (drop (limit n) pending),
          ap (decoded registry json) (sym (take-append-drop (limit n) pending))
              ∙ decoded-append registry json (take (limit n) pending) (drop (limit n) pending)
              ∙ ap (λ s. s ++ decoded registry json (drop (limit n) pending))
                  (sym (made ∙ ap (decoded registry json) selected)),
        )

    after_query-ClaimEnd :
        (v : W)
        → Opened v
        → (p : W × Outcome (Rows OutboxRow)) → db.select_pending tx ctx n v ≡ p
        → let q = after_query registry json db tx ctx p in ClaimEnd w q.0 q.1
    after_query-ClaimEnd v o (u, r) h =
        by_rows r (subst (λ p. Opened p.0) h still) (ap (λ p. p.1) h)
      where
        still : Opened (db.select_pending tx ctx n v).0
        still =
            let (tables', changes', count') = spec.pending_keeps tx ctx n v in
            (tables' ∙ o.0, count' ∙ o.1, changes' ∙ o.2)

        by_rows :
            (r : Outcome (Rows OutboxRow))
            → Opened u
            → (db.select_pending tx ctx n v).1 ≡ r
            → let q = after_query registry json db tx ctx (u, r) in ClaimEnd w q.0 q.1
        by_rows (ok rows) o' e =
            after_scan-ClaimEnd u (scan_outbox_rows registry json rows) o'
              (λ entry entries. scanned v rows o e (entry ∷ entries))
        by_rows (err e) o' _ = failed _ (rolled u o') (given_back u o') refl
        by_rows (panics m) (same, more, clean) _ = crashed m same refl

  -- On a database that meets PgxSpec, every `Claim` leaves the tables as they were, and it returns
  -- a claim without a transaction, with none left open; or a claim on the first entries of the
  -- queue, at least one, with its one transaction open and nothing changed in it; or an error,
  -- with no transaction left open; or it panics.
  pub claim-ClaimEnd :
      (ctx : Ctx) (n : ℤ) (w : W) → let q = claim registry json db ctx n w in ClaimEnd w q.0 q.1
  unfolding claim
  claim-ClaimEnd ctx n w = by_size (is_not_positive n) (db.begin ctx w) refl
    where
      by_begin :
          (p : W × Outcome Tx)
          → db.begin ctx w ≡ p
          → let q = after_begin registry json db ctx n p in ClaimEnd w q.0 q.1
      by_begin (v, ok tx) h =
          let (same, clean, more) = spec.begin_ok ctx w v tx h in
          after_query-ClaimEnd ctx n w tx v (same, more, clean) _ refl
      by_begin (v, err e) h =
          let (same, count) = spec.begin_failed ctx w (λ tx q. cc (h, q)) in
          failed _ (ap (λ p. spec.tables p.0) (sym h) ∙ same)
            (ap (λ p. spec.open_count p.0) (sym h) ∙ count) refl
      by_begin (v, panics m) h =
          let (same, count) = spec.begin_failed ctx w (λ tx q. cc (h, q)) in
          crashed m (ap (λ p. spec.tables p.0) (sym h) ∙ same) refl

      by_size :
          (b : Bool) (p : W × Outcome Tx)
          → db.begin ctx w ≡ p
          → let q = if b then (w, ok empty_claim) else after_begin registry json db ctx n p in
            ClaimEnd w q.0 q.1
      by_size true p h = claimed_none refl refl refl
      by_size false p h = by_begin p h
