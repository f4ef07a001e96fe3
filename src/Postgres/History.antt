-- ===== src/Postgres/History.antt =====
-- store/postgres/postgres.go: the rows of a stream as the envelopes that were appended to it.
use goaxon.Prelude.{
  ℕ, suc, ◌+◌, ◌<◌, ◌≤◌, String, true, some, List, [], ◌∷◌, ◌++◌, length, ◌≡◌, refl, ap, sym, ◌∙◌,
  append_assoc, append-nil, nat_beq, nat_beq_iff, Bool-cases, inl, inr, arith,
}
use goaxon.Go.Outcome.{ok}
use goaxon.Go.Word.{pos, i64_bound, from_i64, to_i64, to_i64_small}
use goaxon.Event.{Uuid, Event, Envelope}
use goaxon.Event.Spec.{Numbered}
use goaxon.Postgres.{row_of}
use goaxon.Postgres.Database.{EventRow, Pgx}
use goaxon.Postgres.Inserting.{Written, written_none, written_row}
use goaxon.Postgres.Scan.{Json}
use goaxon.Postgres.Spec.{PgxSpec, stored}
use goaxon.Postgres.Tables.{
  Tables, Change, added_event, added_outbox, marked, apply, apply_all, rows_of, insert_row_ordered,
  by_sequence, greater, max_sequence, or_zero, int_leb,
}

-- What the changes add to `events`.
abbrev pub new_rows : List Change → List EventRow
new_rows [] = []
new_rows (added_event row ∷ cs) = row ∷ new_rows cs
new_rows (added_outbox id row ∷ cs) = new_rows cs
new_rows (marked ids t ∷ cs) = new_rows cs

pub events-apply_all :
    (cs : List Change) (t : Tables) → (apply_all cs t).events ≡ t.events ++ new_rows cs
events-apply_all [] t = sym (append-nil t.events)
events-apply_all (added_event row ∷ cs) t =
    events-apply_all cs (apply (added_event row) t) ∙ append_assoc t.events (row ∷ []) (new_rows cs)
events-apply_all (added_outbox id row ∷ cs) t = events-apply_all cs (apply (added_outbox id row) t)
events-apply_all (marked ids time ∷ cs) t = events-apply_all cs (apply (marked ids time) t)

pub rows_of-append :
    (id : Uuid) (xs ys : List EventRow) → rows_of id (xs ++ ys) ≡ rows_of id xs ++ rows_of id ys
rows_of-append id [] ys = refl
rows_of-append id (x ∷ xs) ys =
    let rest = rows_of-append id xs ys in
    elim (Bool-cases (nat_beq x.aggregate_id id)) [
      | inl h ↦ simp (h, rest)
      | inr h ↦ simp (h, rest)
    ]

greater-pos : (a b : ℕ) → a ≤ b → greater (pos a) (pos b) ≡ pos b
greater-pos a b h = ground arith

module _ {W Tx E : Type 0} (ev : Event E) (json : Json E) (db : Pgx W Tx) (spec : PgxSpec db) where
  -- The rows are those that `Append` writes for the envelopes, as they are read back.
  abbrev pub Recorded : List (Envelope E) → List EventRow → Type 0
  Recorded [] [] = Unit
  Recorded [] (row ∷ rows) = ⊥
  Recorded (env ∷ envs) [] = ⊥
  Recorded (env ∷ envs) (row ∷ rows) =
      ((payload : String) × (metadata : String) × (json.marshal env.payload ≡ ok payload)
        × (json.marshal_metadata env.metadata ≡ ok metadata)
        × (row ≡ stored spec (row_of ev env payload metadata)))
      × Recorded envs rows

  pub Recorded-append :
      (xs ys : List (Envelope E)) (rs ss : List EventRow)
      → Recorded xs rs
      → Recorded ys ss
      → Recorded (xs ++ ys) (rs ++ ss)
  Recorded-append [] ys [] ss h k = k
  Recorded-append [] ys (r ∷ rs) ss h k = absurd h
  Recorded-append (x ∷ xs) ys [] ss h k = absurd h
  Recorded-append (x ∷ xs) ys (r ∷ rs) ss (h, hs) k = (h, Recorded-append xs ys rs ss hs k)

  pub Written-Recorded :
      {envs : List (Envelope E)} {cs : List Change}
      → Written ev json db spec envs cs
      → Recorded envs (new_rows cs)
  Written-Recorded written_none = tt
  Written-Recorded (written_row env payload metadata id p m rest) =
      ((payload, metadata, p, m, refl), Written-Recorded rest)

  pub rows_of-Recorded :
      (id : Uuid) (n : ℕ) (envs : List (Envelope E)) (rows : List EventRow)
      → Numbered id n envs
      → Recorded envs rows
      → rows_of id rows ≡ rows
  rows_of-Recorded id n [] [] num h = refl
  rows_of-Recorded id n [] (row ∷ rows) num h = absurd h
  rows_of-Recorded id n (env ∷ envs) [] num h = absurd h
  rows_of-Recorded id n (env ∷ envs) (row ∷ rows) (same, _, num) ((_, _, _, _, is), h) =
      let rest = rows_of-Recorded id (n + 1) envs rows num h in
      let own : nat_beq row.aggregate_id id ≡ true =
        (nat_beq_iff _ _).1 (ap (λ r. r.aggregate_id) is ∙ same) in
      rw own (ap (λ l. row ∷ l) rest)

  sequence_of :
      (n : ℕ) (env : Envelope E) {row : EventRow} (payload metadata : String)
      → env.sequence ≡ n + 1
      → n + 1 < i64_bound
      → row ≡ stored spec (row_of ev env payload metadata)
      → row.sequence ≡ pos (n + 1)
  sequence_of n env payload metadata s small is =
      ap (λ r. r.sequence) is ∙ ap to_i64 s ∙ to_i64_small (n + 1) small

  pub by_sequence-Recorded :
      (id : Uuid) (n : ℕ) (envs : List (Envelope E)) (rows : List EventRow)
      → Numbered id n envs
      → n + length envs < i64_bound
      → Recorded envs rows
      → by_sequence rows ≡ rows
  by_sequence-Recorded id n [] [] num small h = refl
  by_sequence-Recorded id n [] (row ∷ rows) num small h = absurd h
  by_sequence-Recorded id n (env ∷ envs) [] num small h = absurd h
  by_sequence-Recorded id n (env ∷ envs) (row ∷ rows) (_, s, num) small ((p, m, _, _, is), h) =
      ap (insert_row_ordered row)
        (by_sequence-Recorded id (n + 1) envs rows num (omega (arith, small)) h)
      ∙ first envs rows num h small
    where
      first :
          (envs : List (Envelope E)) (rows : List EventRow)
          → Numbered id (n + 1) envs
          → Recorded envs rows
          → n + suc (length envs) < i64_bound
          → insert_row_ordered row rows ≡ row ∷ rows
      first [] [] num h small = refl
      first [] (r ∷ rs) num h small = absurd h
      first (e ∷ es) [] num h small = absurd h
      first (e ∷ es) (r ∷ rs) (_, s', _) ((p', m', _, _, is'), _) small =
          let one = sequence_of n env p m s (omega (arith, small)) is in
          let two = sequence_of (n + 1) e p' m' s' (omega (arith, small)) is' in
          let below : int_leb row.sequence r.sequence ≡ true = rw (one, two) (ground arith) in
          rw below refl

  -- The head of a stream that is recorded.
  pub max_sequence-Recorded :
      (id : Uuid) (n : ℕ) (envs : List (Envelope E)) (env : Envelope E) (rows : List EventRow)
      → Numbered id n (env ∷ envs)
      → n + suc (length envs) < i64_bound
      → Recorded (env ∷ envs) rows
      → max_sequence rows ≡ some (pos (n + suc (length envs)))
  max_sequence-Recorded id n envs env [] num small h = absurd h
  max_sequence-Recorded id n [] env (row ∷ []) (_, s, num) small ((p, m, _, _, is), h) =
      ap some (sequence_of n env p m s (omega (arith, small)) is)
  max_sequence-Recorded id n [] env (row ∷ r ∷ rows) num small (_, h) = absurd h
  max_sequence-Recorded id n (e ∷ envs) env (row ∷ rows) (_, s, num) small ((p, m, _, _, is), h) =
      let rest = max_sequence-Recorded id (n + 1) envs e rows num (omega (arith, small)) h in
      let one = sequence_of n env p m s (omega (arith, small)) is in
      rw (rest, one)
        (ap some
          (greater-pos (n + 1) (n + 1 + suc (length envs)) (omega arith) ∙ ap pos (omega arith)))

  pub head-Recorded :
      (id : Uuid) (envs : List (Envelope E)) (rows : List EventRow)
      → Numbered id 0 envs
      → length envs < i64_bound
      → Recorded envs rows
      → from_i64 (or_zero (max_sequence rows)) ≡ length envs
  head-Recorded id [] [] num small h = omega arith
  head-Recorded id [] (row ∷ rows) num small h = absurd h
  head-Recorded id (env ∷ envs) rows num small h =
      ap (λ o. from_i64 (or_zero o))
        (max_sequence-Recorded id 0 envs env rows num (omega (arith, small)) h)
      ∙ omega (arith, small)
