-- ===== src/Postgres/Locks.antt =====
-- store/postgres/postgres.go: claims that are open at the same time.
use goaxon.Prelude.{
  ℕ, Bool, true, false, Option, none, some, List, [], ◌∷◌, map, ◌≡◌, ◌≢◌, ◌⊎◌, inl, inr, refl, ap,
  sym, subst, ◌∙◌, if◌then◌else◌,
}
use goaxon.Go.Error.{GoError}
use goaxon.Go.Outcome.{Outcome, ok, err, panics, ok_injective}
use goaxon.Go.Word.{ℤ, is_not_positive}
use goaxon.Event.{Ctx, Envelope}
use goaxon.Event.Outbox.{OutboxEntry, Claim}
use goaxon.Event.Registry.{Registry}
use goaxon.Postgres.{empty_claim, after_empty, after_scan, after_query, after_begin, claim}
use goaxon.Postgres.Database.{OutboxRow, Rows, Pgx}
use goaxon.Postgres.Queue.{with_entry, decoded, scan_outbox_rows-ok}
use goaxon.Postgres.Scan.{Json, envelope_of, scan_outbox_rows}

-- The identifier of an entry of the list; of a row.
abbrev pub Holds : {E : Type 0} → ℕ → List (OutboxEntry E) → Type 0
Holds i [] = ⊥
Holds i (x ∷ xs) = (x.outbox_id ≡ i) ⊎ Holds i xs

abbrev pub Selects : ℕ → List OutboxRow → Type 0
Selects i [] = ⊥
Selects i (row ∷ rows) = (row.id ≡ i) ⊎ Selects i rows

-- What FOR UPDATE SKIP LOCKED relies on, with any number of sessions.
pub record LockSpec {W Tx : Type 0} (db : Pgx W Tx) : Type 1 where
  -- an open transaction holds a lock on the row of the outbox with this identifier
  pub Locked : W → Tx → ℕ → Type 0
  -- A new transaction holds no lock, and to begin it releases none.
  pub begin_fresh :
      (ctx : Ctx) (w w' : W) (tx : Tx) → db.begin ctx w ≡ (w', ok tx) → (i : ℕ) → Locked w tx i → ⊥
  pub begin_keeps :
      (ctx : Ctx) (w : W) (tx : Tx) (i : ℕ) → Locked w tx i → Locked (db.begin ctx w).0 tx i
  -- The query passes over what others have locked, and locks what it selects.
  pub select_skips :
      (tx : Tx) (ctx : Ctx) (n : ℤ) (w : W) (rows : Rows OutboxRow) (l : List OutboxRow)
      → (db.select_pending tx ctx n w).1 ≡ ok rows
      → rows.scans ≡ map ok l
      → (i : ℕ) → Selects i l
      → (other : Tx) → other ≢ tx
      → Locked w other i
      → ⊥
  pub select_locks :
      (tx : Tx) (ctx : Ctx) (n : ℤ) (w : W) (rows : Rows OutboxRow) (l : List OutboxRow)
      → (db.select_pending tx ctx n w).1 ≡ ok rows
      → rows.scans ≡ map ok l
      → (i : ℕ) → Selects i l
      → Locked (db.select_pending tx ctx n w).0 tx i

module _ {W Tx E : Type 0} (registry : Registry E) (json : Json E) (db : Pgx W Tx) where
  -- An entry of a claim is a row that its query selected in its transaction.
  data Origin (ctx : Ctx) (n : ℤ) (w w' : W) (i : ℕ) : Type 0 where
    origin :
        (tx : Tx) (u : W) (rows : Rows OutboxRow) (l : List OutboxRow)
        → db.begin ctx w ≡ (u, ok tx)
        → db.select_pending tx ctx n u ≡ (w', ok rows)
        → rows.scans ≡ map ok l
        → Selects i l
        → Origin ctx n w w' i

  decoded-Selects : (i : ℕ) (l : List OutboxRow) → Holds i (decoded registry json l) → Selects i l
  decoded-Selects i [] h = h
  decoded-Selects i (row ∷ rows) h =
      by_entry (envelope_of registry json "postgres: outbox metadata: " row.event) h
        (decoded-Selects i rows)
    where
      by_entry :
          (r : Outcome (Envelope E))
          → Holds i (with_entry row.id r (decoded registry json rows))
          → (Holds i (decoded registry json rows) → Selects i rows)
          → Selects i (row ∷ rows)
      by_entry (ok env) (inl e) later = inl e
      by_entry (ok env) (inr h) later = inr (later h)
      by_entry (err e) h later = inr (later h)
      by_entry (panics m) h later = inr (later h)

  claim-Origin :
      (ctx : Ctx) (n : ℤ) (w w' : W) (c : Claim W E)
      → claim registry json db ctx n w ≡ (w', ok c)
      → (i : ℕ) → Holds i c.entries
      → Origin ctx n w w' i
  unfolding claim
  claim-Origin ctx n w w' c h i held = by_size (is_not_positive n) h
    where
      nothing : (v : W) → ◌≡◌ {A = W × Outcome (Claim W E)} (v, ok empty_claim) (w', ok c) → ⊥
      nothing v p = subst (λ d. Holds i d.entries) (sym (ok_injective (ap (λ q. q.1) p))) held

      by_scan :
          (tx : Tx) (u v : W) (rows : Rows OutboxRow)
          → db.begin ctx w ≡ (u, ok tx)
          → db.select_pending tx ctx n u ≡ (v, ok rows)
          → (r : Outcome (List (OutboxEntry E))) → scan_outbox_rows registry json rows ≡ r
          → after_scan db tx ctx r v ≡ (w', ok c)
          → Origin ctx n w w' i
      by_scan tx u v rows b s (ok []) read p = absurd (by_rollback (db.rollback tx ctx v) p)
        where
          by_rollback : (q : W × Option GoError) → after_empty db q ≡ (w', ok c) → ⊥
          by_rollback (x, none) p = nothing x p
          by_rollback (x, some e) p = cc (ap (λ q. q.1) p)
      by_scan tx u v rows b s (ok (entry ∷ entries)) read p =
          let (l, all, no_error, made) =
            scan_outbox_rows-ok registry json rows (entry ∷ entries) read in
          let mine : Holds i (decoded registry json l) =
            subst (λ es. Holds i es) made
              (subst (λ d. Holds i d.entries) (sym (ok_injective (ap (λ q. q.1) p))) held) in
          origin tx u rows l b (s ∙ ap (λ x. (x, ok rows)) (ap (λ q. q.0) p)) all
            (decoded-Selects i l mine)
      by_scan tx u v rows b s (err e) read p = absurd (cc (ap (λ q. q.1) p))
      by_scan tx u v rows b s (panics m) read p = absurd (cc (ap (λ q. q.1) p))

      by_query :
          (tx : Tx) (u : W)
          → db.begin ctx w ≡ (u, ok tx)
          → (q : W × Outcome (Rows OutboxRow)) → db.select_pending tx ctx n u ≡ q
          → after_query registry json db tx ctx q ≡ (w', ok c)
          → Origin ctx n w w' i
      by_query tx u b (v, ok rows) s p = by_scan tx u v rows b s _ refl p
      by_query tx u b (v, err e) s p = absurd (cc (ap (λ q. q.1) p))
      by_query tx u b (v, panics m) s p = absurd (cc (ap (λ q. q.1) p))

      by_begin :
          (q : W × Outcome Tx)
          → db.begin ctx w ≡ q
          → after_begin registry json db ctx n q ≡ (w', ok c)
          → Origin ctx n w w' i
      by_begin (u, ok tx) b p = by_query tx u b _ refl p
      by_begin (u, err e) b p = absurd (cc (ap (λ q. q.1) p))
      by_begin (u, panics m) b p = absurd (cc (ap (λ q. q.1) p))

      by_size :
          (b : Bool)
          → (if b then (w, ok empty_claim) else after_begin registry json db ctx n (db.begin ctx w))
            ≡ (w', ok c)
          → Origin ctx n w w' i
      by_size true p = absurd (nothing w p)
      by_size false p = by_begin (db.begin ctx w) refl p

  -- On a database whose query skips the rows that others have locked and locks those that it
  -- selects, a claim that is returned while everything locked after an earlier claim still is
  -- holds no entry of the earlier one, whichever dispatchers made the two.
  pub claims_disjoint :
      (locks : LockSpec db)
      → (ctx ctx' : Ctx) (n n' : ℤ) (w w' v v' : W) (c d : Claim W E)
      → claim registry json db ctx n w ≡ (w', ok c)
      → ((tx : Tx) (i : ℕ) → locks.Locked w' tx i → locks.Locked v tx i)
      → claim registry json db ctx' n' v ≡ (v', ok d)
      → (i : ℕ) → Holds i c.entries
      → ¬ Holds i d.entries
  claims_disjoint locks ctx ctx' n n' w w' v v' c d first still second i held = λ again.
      meet (claim-Origin ctx n w w' c first i held) (claim-Origin ctx' n' v v' d second i again)
    where
      meet : Origin ctx n w w' i → Origin ctx' n' v v' i → ⊥
      meet (origin tx u rows l b s all at) (origin tx' u' rows' l' b' s' all' at') =
          let mine : locks.Locked v tx i = still tx i (
            subst (λ x. locks.Locked x tx i) (ap (λ q. q.0) s)
              (locks.select_locks tx ctx n u rows l (ap (λ q. q.1) s) all i at)) in
          locks.select_skips tx' ctx' n' u' rows' l' (ap (λ q. q.1) s') all' i at' tx
            (λ same.
              locks.begin_fresh ctx' v u' tx' b' i (subst (λ t. locks.Locked v t i) same mine))
            (subst (λ x. locks.Locked x tx i) (ap (λ q. q.0) b')
              (locks.begin_keeps ctx' v tx i mine))
