-- ===== src/Tests/Sessions.antt =====
-- Two claims on a database that locks the rows it selects.
use goaxon.Prelude.{
  ℕ, suc, ◌+◌, ◌<◌, Bool, true, false, ◌&&◌, ◌||◌, none, List, [], ◌∷◌, map, take, zero, ◌≡◌, inl,
  inr, refl, ap, sym, subst, ◌∙◌, nat_beq, nat_beq_iff, if◌then◌else◌, arith,
}
use goaxon.Go.Error.{text}
use goaxon.Go.Outcome.{Outcome, ok, err, panics, ok_injective}
use goaxon.Go.Word.{pos}
use goaxon.Go.Map.{lookup}
use goaxon.Event.Outbox.{OutboxEntry, Claim}
use goaxon.Orders.Values.{OrderEvent, order_shipped}
use goaxon.Orders.Wire.Consistent.{envelope}
use goaxon.Event.Registry.{unmarshal}
use goaxon.Postgres.{open_claim, claim}
use goaxon.Postgres.Database.{OutboxRow, Rows, Pgx}
use goaxon.Postgres.Locks.{Holds, Selects, LockSpec, claims_disjoint}
use goaxon.Postgres.Scan.{scan_outbox, scan_outbox_rows}
use goaxon.Postgres.Tables.{pending_rows, limit}
use goaxon.Tests.LocalDb.{map_ok_injective}
use goaxon.Tests.Rows.{json, registry, row as shipped_row}

pub record Sessions : Type 0 where
  pub rows : List OutboxRow
  pub next : ℕ
  pub locks : List (ℕ × ℕ)

abbrev has : ℕ → ℕ → List (ℕ × ℕ) → Bool
has tx i [] = false
has tx i (l ∷ ls) = (nat_beq l.0 tx && nat_beq l.1 i) || has tx i ls

abbrev taken : ℕ → List (ℕ × ℕ) → Bool
taken i [] = false
taken i (l ∷ ls) = nat_beq l.1 i || taken i ls

abbrev free : List (ℕ × ℕ) → List OutboxRow → List OutboxRow
free ls [] = []
free ls (row ∷ rows) = if taken row.id ls then free ls rows else row ∷ free ls rows

abbrev lock_all : ℕ → List OutboxRow → List (ℕ × ℕ) → List (ℕ × ℕ)
lock_all tx [] ls = ls
lock_all tx (row ∷ rows) ls = (tx, row.id) ∷ lock_all tx rows ls

abbrev selected : ℕ → Sessions → List OutboxRow
selected n w = take n (free w.locks (pending_rows w.rows))

abbrev shared : Pgx Sessions ℕ
shared = record {
  begin_func = λ ctx fn w. (w, err (text "read only"));
  begin = λ ctx w. (record w { next = suc w.next }, ok w.next);
  exec = λ tx ctx s w. (w, none);
  select_head = λ tx ctx id w. (w, ok (pos 0));
  select_pending = λ tx ctx n w. (
    record w { next = w.next + suc tx; locks = lock_all tx (selected (limit n) w) w.locks },
    ok (record { scans = map ok (selected (limit n) w); end_error = none }),
  );
  select_events = λ ctx id w. (w, ok (record { scans = []; end_error = none }));
  commit = λ tx ctx w. (w, none);
  rollback = λ tx ctx w. (w, none);
}

Locked : Sessions → ℕ → ℕ → Type 0
Locked w tx i = (tx < w.next) × (has tx i w.locks ≡ true)

taken-has : (tx i : ℕ) (ls : List (ℕ × ℕ)) → has tx i ls ≡ true → taken i ls ≡ true
taken-has tx i [] h = absurd (cc h)
taken-has tx i (l ∷ ls) h = let rest = taken-has tx i ls in ground (arith, h, rest)

Selects-take : (i k : ℕ) (rows : List OutboxRow) → Selects i (take k rows) → Selects i rows
Selects-take i zero rows h = absurd h
Selects-take i (suc k) [] h = h
Selects-take i (suc k) (row ∷ rows) (inl e) = inl e
Selects-take i (suc k) (row ∷ rows) (inr h) = inr (Selects-take i k rows h)

Selects-free :
    (i : ℕ) (ls : List (ℕ × ℕ)) (rows : List OutboxRow)
    → Selects i (free ls rows)
    → taken i ls ≡ false
Selects-free i ls [] h = absurd h
Selects-free i ls (row ∷ rows) h = either (taken row.id ls) refl h (Selects-free i ls rows)
  where
    either :
        (b : Bool)
        → taken row.id ls ≡ b
        → Selects i (if b then free ls rows else row ∷ free ls rows)
        → (Selects i (free ls rows) → taken i ls ≡ false)
        → taken i ls ≡ false
    either true e h later = later h
    either false e (inl same) later = ap (λ j. taken j ls) (sym same) ∙ e
    either false e (inr h) later = later h

has-lock_all :
    (tx i : ℕ) (rows : List OutboxRow) (ls : List (ℕ × ℕ))
    → Selects i rows
    → has tx i (lock_all tx rows ls) ≡ true
has-lock_all tx i [] ls h = absurd h
has-lock_all tx i (row ∷ rows) ls (inl e) =
    rw ((nat_beq_iff tx tx).1 refl, (nat_beq_iff row.id i).1 e) refl
has-lock_all tx i (row ∷ rows) ls (inr h) =
    let rest = has-lock_all tx i rows ls h in ground (arith, rest)

abbrev scans_of : Outcome (Rows OutboxRow) → List (Outcome OutboxRow)
scans_of (ok rows) = rows.scans
scans_of (err e) = []
scans_of (panics m) = []

found :
    (n : ℕ) (w : Sessions) (l : List OutboxRow) {scans : List (Outcome OutboxRow)}
    → map ok (selected n w) ≡ scans
    → scans ≡ map ok l
    → l ≡ selected n w
found n w l h all = map_ok_injective (selected n w) l (h ∙ all)

fresh : (w : Sessions) (i : ℕ) → Locked w w.next i → ⊥
unfolding Locked
fresh w i (below, _) = omega (arith, below)

began : (w : Sessions) (tx i : ℕ) → Locked w tx i → Locked (record w { next = suc w.next }) tx i
unfolding Locked
began w tx i (below, locked) = (omega (arith, below), locked)

skipped : (w : Sessions) (other i n : ℕ) → Selects i (selected n w) → Locked w other i → ⊥
unfolding Locked
skipped w other i n at (_, locked) =
    let free_of =
      Selects-free i w.locks (pending_rows w.rows)
        (Selects-take i n (free w.locks (pending_rows w.rows)) at) in
    cc (taken-has other i w.locks locked, free_of)

locking :
    (tx : ℕ) (w : Sessions) (i n : ℕ)
    → Selects i (selected n w)
    → Locked (record w { next = w.next + suc tx; locks = lock_all tx (selected n w) w.locks }) tx i
unfolding Locked
locking tx w i n at = (omega arith, has-lock_all tx i (selected n w) w.locks at)

shared-LockSpec : LockSpec shared
shared-LockSpec = record {
  Locked = Locked;
  begin_fresh = λ ctx w w' tx h i locked.
      fresh w i (subst (λ t. Locked w t i) (sym (ok_injective (ap (λ q. q.1) h))) locked);
  begin_keeps = λ ctx w tx i locked. began w tx i locked;
  select_skips = λ tx ctx n w rows l h all i at other apart locked.
      skipped w other i (limit n)
        (subst (Selects i) (found (limit n) w l (ap (λ r. scans_of r) h) all) at) locked;
  select_locks = λ tx ctx n w rows l h all i at.
      locking tx w i (limit n)
        (subst (Selects i) (found (limit n) w l (ap (λ r. scans_of r) h) all) at);
}

abbrev two_rows : Sessions
two_rows = record {
  rows =
      record { id = 1; event = shipped_row; dispatched_at = none }
      ∷ record { id = 2; event = shipped_row; dispatched_at = none }
      ∷ [];
  next = 0;
  locks = [];
}

abbrev entry : ℕ → OutboxEntry OrderEvent
entry i = record { outbox_id = i; envelope = envelope 7 1 5 order_shipped }

-- Each claim takes one row.
abbrev first : Claim Sessions OrderEvent
first = open_claim shared 0 (entry 1 ∷ [])

abbrev second : Claim Sessions OrderEvent
second = open_claim shared 2 (entry 2 ∷ [])

abbrev after_first : Sessions
after_first = record two_rows { next = 2; locks = (0, 1) ∷ [] }

abbrev after_second : Sessions
after_second = record two_rows { next = 6; locks = (2, 2) ∷ (0, 1) ∷ [] }

claims_disjoint_example : ¬ Holds 1 second.entries
unfolding claim scan_outbox scan_outbox_rows unmarshal lookup
claims_disjoint_example =
    claims_disjoint registry json shared shared-LockSpec none none (pos 1) (pos 1) two_rows
      after_first after_first after_second first second refl (λ tx i locked. locked) refl 1
      (inl refl)
