-- ===== src/Postgres/Queue.antt =====
-- store/postgres/postgres.go: the rows of the outbox as the entries that `scanOutboxRows` makes of
-- them.
use goaxon.Prelude.{
  inr, subst, inl, ℕ, ◌≤◌, ◌<◌, String, Bool, true, false, Option, none, some, List, [], ◌∷◌, ◌++◌,
  map, ◌≡◌, ap, subst, sym, refl, ◌∙◌, if◌then◌else◌, Bool-cases, arith,
}
use goaxon.Go.Error.{GoError}
use goaxon.Go.Outcome.{Outcome, ok, err, panics, wrap_err, ok_injective, then-eq-ok}
use goaxon.Event.{Envelope, Time}
use goaxon.Event.Outbox.{OutboxEntry}
use goaxon.Event.Dispatcher.Delivering.{ids}
use goaxon.Event.Registry.{Registry}
use goaxon.Postgres.Database.{OutboxRow, Rows}
use goaxon.Postgres.Scan.{Json, at_end, envelope_of, scan_outbox, scan_outbox_rows}
use goaxon.Postgres.Tables.{member, mark, when_pending, pending_rows, AscendsFrom}
use goaxon.Postgres.Inserting.{wrapped-ok}

abbrev pub with_entry :
    {E : Type 0} → ℕ → Outcome (Envelope E) → List (OutboxEntry E) → List (OutboxEntry E)
with_entry id (ok env) l = record { outbox_id = id; envelope = env } ∷ l
with_entry id (err e) l = l
with_entry id (panics m) l = l

-- The entries whose identifier is not in a list.
abbrev pub without : {E : Type 0} → List ℕ → List (OutboxEntry E) → List (OutboxEntry E)
without done [] = []
without done (x ∷ xs) = if member x.outbox_id done then without done xs else x ∷ without done xs

abbrev EntriesFrom : {E : Type 0} → ℕ → List (OutboxEntry E) → Type 0
EntriesFrom k [] = Unit
EntriesFrom k (x ∷ xs) = (k < x.outbox_id) × EntriesFrom x.outbox_id xs

weaken_bound :
    {E : Type 0} (j k : ℕ) (xs : List (OutboxEntry E)) → j ≤ k → EntriesFrom k xs → EntriesFrom j xs
weaken_bound j k [] h a = tt
weaken_bound j k (x ∷ xs) h (p, a) = (omega arith, a)

without-skip :
    {E : Type 0} (done : List ℕ) (i k : ℕ) (xs : List (OutboxEntry E))
    → i ≤ k
    → EntriesFrom k xs
    → without (i ∷ done) xs ≡ without done xs
without-skip done i k [] h a = refl
without-skip done i k (x ∷ xs) h (p, a) =
    let rest = without-skip done i x.outbox_id xs (omega arith) a in ground (arith, rest)

without-before :
    {E : Type 0} (before rest : List (OutboxEntry E)) (k : ℕ)
    → EntriesFrom k (before ++ rest)
    → without (ids before) (before ++ rest) ≡ rest
without-before {E} [] rest k a = without_none rest
  where
    without_none : (xs : List (OutboxEntry E)) → without [] xs ≡ xs
    without_none [] = refl
    without_none (x ∷ xs) = ap (λ l. x ∷ l) (without_none xs)
without-before (x ∷ before) rest k (p, a) =
    let skip = without-skip (ids before) x.outbox_id x.outbox_id (before ++ rest) (omega arith) a in
    let shorter = without-before before rest x.outbox_id a in ground (arith, skip, shorter)

module _ {E : Type 0} (registry : Registry E) (json : Json E) where
  -- The rows that decode, as entries.
  abbrev pub decoded : List OutboxRow → List (OutboxEntry E)
  decoded [] = []
  decoded (row ∷ rows) =
      with_entry row.id (envelope_of registry json "postgres: outbox metadata: " row.event)
        (decoded rows)

  with_entry-append :
      (id : ℕ) (r : Outcome (Envelope E)) (xs ys : List (OutboxEntry E))
      → with_entry id r (xs ++ ys) ≡ with_entry id r xs ++ ys
  with_entry-append id (ok env) xs ys = refl
  with_entry-append id (err e) xs ys = refl
  with_entry-append id (panics m) xs ys = refl

  pub decoded-append : (xs ys : List OutboxRow) → decoded (xs ++ ys) ≡ decoded xs ++ decoded ys
  decoded-append [] ys = refl
  decoded-append (x ∷ xs) ys =
      ap (with_entry x.id _) (decoded-append xs ys)
      ∙ with_entry-append x.id _ (decoded xs) (decoded ys)

  with_entry-EntriesFrom :
      (k id : ℕ) (r : Outcome (Envelope E)) (xs : List (OutboxEntry E))
      → k < id
      → EntriesFrom id xs
      → EntriesFrom k (with_entry id r xs)
  with_entry-EntriesFrom k id (ok env) xs h a = (h, a)
  with_entry-EntriesFrom k id (err e) xs h a = weaken_bound k id xs (omega arith) a
  with_entry-EntriesFrom k id (panics m) xs h a = weaken_bound k id xs (omega arith) a

  decoded-EntriesFrom :
      (k : ℕ) (rows : List OutboxRow)
      → AscendsFrom k rows
      → EntriesFrom k (decoded (pending_rows rows))
  decoded-EntriesFrom k [] a = tt
  decoded-EntriesFrom k (row ∷ rows) (p, a) =
      by_mark row.dispatched_at (decoded-EntriesFrom row.id rows a)
    where
      by_mark :
          (t : Option Time)
          → EntriesFrom row.id (decoded (pending_rows rows))
          → EntriesFrom k (decoded (when_pending t row (pending_rows rows)))
      by_mark none later = with_entry-EntriesFrom k row.id _ _ p later
      by_mark (some t) later = weaken_bound k row.id _ (omega arith) later

  without-entry :
      (done : List ℕ) (id : ℕ) (r : Outcome (Envelope E)) (xs : List (OutboxEntry E))
      → without done (with_entry id r xs)
        ≡ (if member id done then without done xs else with_entry id r (without done xs))
  without-entry done id (ok env) xs = refl
  without-entry done id (err e) xs = elim (Bool-cases (member id done)) [
    | inl h ↦ ground arith
    | inr h ↦ ground arith
  ]
  without-entry done id (panics m) xs = elim (Bool-cases (member id done)) [
    | inl h ↦ ground arith
    | inr h ↦ ground arith
  ]

  decoded-mark :
      (done : List ℕ) (t : Time) (rows : List OutboxRow)
      → decoded (pending_rows (map (mark done t) rows)) ≡ without done (decoded (pending_rows rows))
  decoded-mark done t [] = refl
  decoded-mark done t (row ∷ rows) =
      step (member row.id done) row.dispatched_at refl refl (decoded-mark done t rows)
    where
      step :
          (b : Bool) (d : Option Time)
          → member row.id done ≡ b
          → row.dispatched_at ≡ d
          → decoded (pending_rows (map (mark done t) rows))
            ≡ without done (decoded (pending_rows rows))
          → decoded (pending_rows (map (mark done t) (row ∷ rows)))
            ≡ without done (decoded (pending_rows (row ∷ rows)))
      step true none m e ih = simp (m, e, without-entry done row.id, ih)
      step false none m e ih = simp (m, e, without-entry done row.id, ih)
      step true (some s) m e ih = simp (m, e, ih)
      step false (some s) m e ih = simp (m, e, ih)

  -- Marking the first entries of the queue leaves the others.
  pub decoded-marked :
      (t : Time) (rows : List OutboxRow) (before rest : List (OutboxEntry E))
      → AscendsFrom 0 rows
      → decoded (pending_rows rows) ≡ before ++ rest
      → decoded (pending_rows (map (mark (ids before) t) rows)) ≡ rest
  decoded-marked t rows before rest a h =
      decoded-mark (ids before) t rows
      ∙ ap (without (ids before)) h
      ∙ without-before before rest 0 (subst (EntriesFrom 0) h (decoded-EntriesFrom 0 rows a))

  at_end-ok :
      {A : Type 0} (before : String) (e : Option GoError) (a b : A)
      → at_end before e a ≡ ok b
      → (e ≡ none) × (a ≡ b)
  at_end-ok before none a b h = (refl, ok_injective h)
  at_end-ok before (some e) a b h = absurd (cc h)

  scan_outbox-ok :
      (scans : List (Outcome OutboxRow)) (entries : List (OutboxEntry E))
      → scan_outbox registry json scans ≡ ok entries
      → (rows : List OutboxRow) × (scans ≡ map ok rows) × (entries ≡ decoded rows)
  unfolding scan_outbox
  scan_outbox-ok [] entries h = ([], refl, sym (ok_injective h))
  scan_outbox-ok (scan ∷ scans) entries h =
      let (row, one, more) = then-eq-ok (wrap_err _ scan) _ h in
      let (env, two, last) = then-eq-ok (envelope_of registry json _ row.event) _ more in
      let (rest, three, done) = then-eq-ok (scan_outbox registry json scans) _ last in
      let (rows, all, same) = scan_outbox-ok scans rest three in
      (
        row ∷ rows,
        ap (λ x. x ∷ scans) (wrapped-ok _ scan row one) ∙ ap (λ l. ok row ∷ l) all,
        sym (ok_injective done)
            ∙ ap (λ r. with_entry row.id r rest) (sym two)
            ∙ ap (with_entry row.id _) same,
      )

  -- The rows are all there, and each decodes.
  pub scan_outbox_rows-ok :
      (rows : Rows OutboxRow) (entries : List (OutboxEntry E))
      → scan_outbox_rows registry json rows ≡ ok entries
      → (l : List OutboxRow) × (rows.scans ≡ map ok l)
        × (rows.end_error ≡ none)
        × (entries ≡ decoded l)
  unfolding scan_outbox_rows
  scan_outbox_rows-ok rows entries h =
      let (found, one, last) = then-eq-ok (scan_outbox registry json rows.scans) _ h in
      let (l, all, same) = scan_outbox-ok rows.scans found one in
      let (no_error, kept) = at_end-ok _ rows.end_error found entries last in
      (l, all, no_error, sym kept ∙ same)
