-- ===== src/Postgres/Tables.antt =====
-- The tables of store/postgres/postgres.go, and what its statements and queries do to them.
use goaxon.Prelude.{
  ℕ, ◌<◌, Bool, true, false, Option, none, some, List, [], ◌∷◌, ◌++◌, map, nat_beq, nat_eq,
  if◌then◌else◌, ◌||◌, leb,
}
use goaxon.Go.Word.{ℤ, pos, negsuc}
use goaxon.Event.{Uuid, Time}
use goaxon.Postgres.Database.{EventRow, OutboxRow}

-- The rows of the two tables; those of the outbox in the order of their identifiers.
pub record Tables : Type 0 where
  pub events : List EventRow
  pub outbox : List OutboxRow

-- What a statement of a transaction did.
pub data Change : Type 0 where
  added_event : EventRow → Change
  added_outbox : ℕ → EventRow → Change
  marked : List ℕ → Time → Change

abbrev pub member : ℕ → List ℕ → Bool
member x [] = false
member x (y ∷ ys) = nat_beq x y || member x ys

abbrev pub mark : List ℕ → Time → OutboxRow → OutboxRow
mark ids t row = if member row.id ids then record row { dispatched_at = some t } else row

abbrev pub apply : Change → Tables → Tables
apply (added_event row) t = record t { events = t.events ++ row ∷ [] }
apply (added_outbox id row) t = record t {
  outbox = t.outbox ++ record { id = id; event = row; dispatched_at = none } ∷ [];
}
apply (marked ids time) t = record t { outbox = map (mark ids time) t.outbox }

abbrev pub apply_all : List Change → Tables → Tables
apply_all [] t = t
apply_all (c ∷ cs) t = apply_all cs (apply c t)

-- The rows of one stream; ORDER BY sequence.
abbrev pub rows_of : Uuid → List EventRow → List EventRow
rows_of id [] = []
rows_of id (row ∷ rows) =
    if nat_beq row.aggregate_id id then row ∷ rows_of id rows else rows_of id rows

abbrev pub int_leb : ℤ → ℤ → Bool
int_leb (pos m) (pos n) = leb m n
int_leb (pos m) (negsuc n) = false
int_leb (negsuc m) (pos n) = true
int_leb (negsuc m) (negsuc n) = leb n m

abbrev pub insert_row_ordered : EventRow → List EventRow → List EventRow
insert_row_ordered row [] = row ∷ []
insert_row_ordered row (r ∷ rows) =
    if int_leb row.sequence r.sequence then row ∷ r ∷ rows else r ∷ insert_row_ordered row rows

abbrev pub by_sequence : List EventRow → List EventRow
by_sequence [] = []
by_sequence (row ∷ rows) = insert_row_ordered row (by_sequence rows)

-- COALESCE(MAX(sequence), 0)
abbrev pub greater : ℤ → ℤ → ℤ
greater m n = if int_leb m n then n else m

abbrev pub max_sequence : List EventRow → Option ℤ
max_sequence [] = none
max_sequence (row ∷ rows) = elim (max_sequence rows) [
  | none ↦ some row.sequence
  | some m ↦ some (greater row.sequence m)
]

abbrev pub or_zero : Option ℤ → ℤ
or_zero none = pos 0
or_zero (some n) = n

-- WHERE dispatched_at IS NULL; LIMIT
abbrev pub when_pending : Option Time → OutboxRow → List OutboxRow → List OutboxRow
when_pending none row rows = row ∷ rows
when_pending (some t) row rows = rows

abbrev pub pending_rows : List OutboxRow → List OutboxRow
pending_rows [] = []
pending_rows (row ∷ rows) = when_pending row.dispatched_at row (pending_rows rows)

abbrev pub limit : ℤ → ℕ
limit (pos n) = n
limit (negsuc n) = 0

-- Ascending from above `k`.
abbrev pub AscendsFrom : ℕ → List OutboxRow → Type 0
AscendsFrom k [] = Unit
AscendsFrom k (row ∷ rows) = (k < row.id) × AscendsFrom row.id rows
