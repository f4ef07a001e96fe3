-- ===== src/Postgres/Progress.antt =====
-- store/postgres/postgres.go and event/dispatcher.go: a dispatcher over Postgres where the calls of the
-- database succeed.
pub mod Draining
use goaxon.Prelude.{
  ℕ, zero, suc, ◌≤◌, String, Bool, true, false, Option, none, some, List, [], ◌∷◌, ◌++◌, map, take,
  length, ◌≡◌, ◌≢◌, refl, ap, sym, subst, ◌∙◌, arith, Bool-cases, inl, inr, if◌then◌else◌,
}
use goaxon.Go.Error.{GoError}
use goaxon.Go.Outcome.{Outcome, ok, err, panics, wrap_err}
use goaxon.Go.Word.{pos}
use goaxon.Event.{Ctx, Event, Envelope, Time}
use goaxon.Event.Outbox.{OutboxEntry, Claim}
use goaxon.Event.Registry.{Registry}
use goaxon.Postgres.{
  claim, after_query, after_begin, after_scan, open_claim, commit_claim, after_mark,
}
use goaxon.Postgres.Database.{OutboxRow, Rows, Pgx, mark_dispatched}
use goaxon.Postgres.Queue.{decoded, with_entry}
use goaxon.Postgres.Scan.{Json, at_end, envelope_of, scan_outbox, scan_outbox_rows}
use goaxon.Postgres.Spec.{PgxSpec}
use goaxon.Postgres.Tables.{member, mark, when_pending, pending_rows}

-- The calls of a dispatcher on a database that answers: from a context that is not done, a
-- transaction begins, and while it is open its query returns rows without an error, its UPDATE
-- succeeds, and so does its commit.
pub record PgxProgress {W Tx : Type 0} (db : Pgx W Tx) : Type 0 where
  pub is_open : W → Tx → Bool
  pub begin_live :
      (w : W) → (v : W) × (tx : Tx) × (db.begin none w ≡ (v, ok tx)) × (is_open v tx ≡ true)
  pub pending_live :
      (tx : Tx) (n : ℕ) (w : W)
      → is_open w tx ≡ true
      → (v : W) × (rows : Rows OutboxRow) × (l : List OutboxRow) × (db.select_pending tx none
            (pos n)
            w
          ≡ (v, ok rows))
        × (rows.scans ≡ map ok l)
        × (rows.end_error ≡ none)
        × (is_open v tx ≡ true)
  pub mark_live :
      (tx : Tx) (ids : List ℕ) (w : W)
      → is_open w tx ≡ true
      → (v : W) × (db.exec tx none (mark_dispatched ids) w ≡ (v, none)) × (is_open v tx ≡ true)
  pub commit_live : (tx : Tx) (w : W) → is_open w tx ≡ true → (db.commit tx none w).1 ≡ none

module _ {E : Type 0} (registry : Registry E) (json : Json E) where
  -- Each of the rows decodes.
  abbrev pub AllDecode : List OutboxRow → Type 0
  AllDecode [] = Unit
  AllDecode (row ∷ rows) =
      ((env : Envelope E) × (envelope_of registry json "postgres: outbox metadata: " row.event
          ≡ ok env))
      × AllDecode rows

  AllDecode-take : (n : ℕ) (rows : List OutboxRow) → AllDecode rows → AllDecode (take n rows)
  AllDecode-take zero rows a = tt
  AllDecode-take (suc n) [] a = tt
  AllDecode-take (suc n) (row ∷ rows) (one, a) = (one, AllDecode-take n rows a)

  -- Marking rows leaves fewer.
  AllDecode-mark :
      (done : List ℕ) (t : Time) (rows : List OutboxRow)
      → AllDecode (pending_rows rows)
      → AllDecode (pending_rows (map (mark done t) rows))
  AllDecode-mark done t [] a = tt
  AllDecode-mark done t (row ∷ rows) a =
      at (member row.id done) row.dispatched_at a (AllDecode-mark done t rows)
    where
      at :
          (b : Bool) (d : Option Time)
          → AllDecode (when_pending d row (pending_rows rows))
          → (AllDecode (pending_rows rows) → AllDecode (pending_rows (map (mark done t) rows)))
          → let marked =
              if b
              then record row { dispatched_at = some t }
              else record row { dispatched_at = d } in
            AllDecode
              (when_pending marked.dispatched_at marked (pending_rows (map (mark done t) rows)))
      at true none (one, a) rest = rest a
      at true (some s) a rest = rest a
      at false none (one, a) rest = (one, rest a)
      at false (some s) a rest = rest a

  -- Rows that decode are scanned without an error.
  scan_outbox-decoded :
      (l : List OutboxRow)
      → AllDecode l
      → scan_outbox registry json (map ok l) ≡ ok (decoded registry json l)
  unfolding scan_outbox
  scan_outbox-decoded [] a = refl
  scan_outbox-decoded (row ∷ l) ((env, one), a) = rw (one, scan_outbox-decoded l a) refl

  scan_outbox_rows-decoded :
      (rows : Rows OutboxRow) (l : List OutboxRow)
      → rows.scans ≡ map ok l
      → rows.end_error ≡ none
      → AllDecode l
      → scan_outbox_rows registry json rows ≡ ok (decoded registry json l)
  unfolding scan_outbox_rows
  scan_outbox_rows-decoded rows l all no_error a = rw (all, no_error, scan_outbox-decoded l a) refl

  -- The queue of rows that decode is empty only if there are none.
  decoded-ne-nil :
      (n : ℕ) (rows : List OutboxRow)
      → AllDecode rows
      → decoded registry json rows ≢ []
      → decoded registry json (take (suc n) rows) ≢ []
  decoded-ne-nil n [] a some_rows = absurd (some_rows refl)
  decoded-ne-nil n (row ∷ rows) ((env, one), a) some_rows = λ h.
      absurd
        (cc (subst (λ r. with_entry row.id r (decoded registry json (take n rows)) ≡ []) one h))
