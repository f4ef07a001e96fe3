-- ===== src/Tests/Keyed.antt =====
-- A database with a primary key, in which another session may commit during the query of the head.
use mathlib.Core.List.Memᴰ
use mathlib.Core.List.{Memᴰ}
use goaxon.Prelude.{
  Option, ℕ, Bool, true, false, ◌&&◌, ◌||◌, none, some, List, [], ◌∷◌, ◌++◌, ◌≡◌, ◌≢◌, refl, ap,
  subst, nat_beq, nat_beq_iff, if◌then◌else◌, arith, string_eq,
}
use goaxon.Go.Error.{GoError, text, pg_error}
use goaxon.Go.Outcome.{ok, err}
use goaxon.Go.Word.{ℤ, pos, negsuc, to_i64}
use goaxon.Event.{Uuid}
use goaxon.Orders.Values.{order_event, order_shipped}
use goaxon.Orders.Wire.Consistent.{envelope}
use goaxon.Postgres.{row_of, append_in, insert_all, insert_event}
use goaxon.Postgres.Database.{Statement, insert_event_row, insert_outbox_row, mark_dispatched, Pgx}
use goaxon.Postgres.Keys.{KeySpec}
use goaxon.Postgres.Keys.Race.{EndsRefused, append_race}
use goaxon.Tests.Rows.{json}

abbrev Key : Type 0
Key = Uuid × ℤ

pub record Keyed : Type 0 where
  pub committed : List Key
  pub pending : List (ℕ × Key)
  -- what others commit during the next query of a head
  pub arriving : List Key

abbrev int_beq : ℤ → ℤ → Bool
int_beq (pos m) (pos n) = nat_beq m n
int_beq (negsuc m) (negsuc n) = nat_beq m n
int_beq _ _ = false

int_beq_self : (n : ℤ) → int_beq n n ≡ true
int_beq_self (pos n) = (nat_beq_iff n n).1 refl
int_beq_self (negsuc n) = (nat_beq_iff n n).1 refl

abbrev has_key : Key → List Key → Bool
has_key k [] = false
has_key k (x ∷ xs) = (nat_beq x.0 k.0 && int_beq x.1 k.1) || has_key k xs

has_key_member : (k : Key) (l : List Key) → Memᴰ k l → has_key k l ≡ true
has_key_member k [] m = absurd (Memᴰ.not-nil m)
has_key_member k (x ∷ xs) (Memᴰ.head e) =
    subst (λ y. (nat_beq y.0 k.0 && int_beq y.1 k.1) || has_key k xs ≡ true) e
      (rw ((nat_beq_iff k.0 k.0).1 refl, int_beq_self k.1) refl)
has_key_member k (x ∷ xs) (Memᴰ.tail m) = ground (arith, has_key_member k xs m)

abbrev keys_of : ℕ → List (ℕ × Key) → List Key
keys_of tx [] = []
keys_of tx ((t, k) ∷ l) = if nat_beq t tx then k ∷ keys_of tx l else keys_of tx l

keys_of_member : (tx : ℕ) (k : Key) (l : List (ℕ × Key)) → Memᴰ (tx, k) l → Memᴰ k (keys_of tx l)
keys_of_member tx k [] m = absurd (Memᴰ.not-nil m)
keys_of_member tx k ((t, j) ∷ l) (Memᴰ.head e) =
    subst (λ p. Memᴰ k (if nat_beq p.0 tx then p.1 ∷ keys_of tx l else keys_of tx l)) e
      (rw ((nat_beq_iff tx tx).1 refl) (Memᴰ.head refl))
keys_of_member tx k ((t, j) ∷ l) (Memᴰ.tail m) = at (nat_beq t tx) (keys_of_member tx k l m)
  where
    at : (b : Bool) → Memᴰ k (keys_of tx l) → Memᴰ k (if b then j ∷ keys_of tx l else keys_of tx l)
    at true m' = Memᴰ.tail m'
    at false m' = m'

abbrev insert_key : Bool → ℕ → Key → Keyed → Keyed × Option GoError
insert_key true tx k w = (w, some (pg_error "23505" "duplicate key"))
insert_key false tx k w = (record w { pending = (tx, k) ∷ w.pending }, none)

abbrev run_statement : ℕ → Statement → Keyed → Keyed × Option GoError
run_statement tx (insert_event_row row) w =
    insert_key (has_key (row.aggregate_id, row.sequence) w.committed) tx
      (row.aggregate_id, row.sequence) w
run_statement tx (insert_outbox_row row) w = (w, none)
run_statement tx (mark_dispatched ids) w = (w, none)

abbrev keyed : Pgx Keyed ℕ
keyed = record {
  begin_func = λ ctx fn w. (w, err (text "not used"));
  begin = λ ctx w. (w, err (text "not used"));
  exec = λ tx ctx s w. run_statement tx s w;
  select_head = λ tx ctx id w.
      (record w { committed = w.arriving ++ w.committed; arriving = [] }, ok (pos 0));
  select_pending = λ tx ctx n w. (w, err (text "not used"));
  select_events = λ ctx id w. (w, err (text "not used"));
  commit = λ tx ctx w. (record w { committed = keys_of tx w.pending ++ w.committed }, none);
  rollback = λ tx ctx w. (w, none);
}

inserted :
    (b : Bool) (tx : ℕ) (k : Key) (w : Keyed)
    → (insert_key b tx k w).1 ≡ none
    → Memᴰ (tx, k) (insert_key b tx k w).0.pending
inserted true tx k w h = absurd (cc h)
inserted false tx k w h = Memᴰ.head refl

insert_keeps :
    (b : Bool) (tx : ℕ) (k : Key) (w : Keyed) (p : ℕ × Key)
    → Memᴰ p w.pending
    → Memᴰ p (insert_key b tx k w).0.pending
insert_keeps true tx k w p m = m
insert_keeps false tx k w p m = Memᴰ.tail m

keeps :
    (tx : ℕ) (s : Statement) (w : Keyed) (p : ℕ × Key)
    → Memᴰ p w.pending
    → Memᴰ p (run_statement tx s w).0.pending
keeps tx (insert_event_row row) w p m = insert_keeps _ tx (row.aggregate_id, row.sequence) w p m
keeps tx (insert_outbox_row row) w p m = m
keeps tx (mark_dispatched ids) w p m = m

duplicate :
    (tx : ℕ) (k : Key) (w : Keyed)
    → Memᴰ k w.committed
    → (insert_key (has_key k w.committed) tx k w).1 ≢ none
duplicate tx k w m h =
    absurd (cc (ap (λ b. (insert_key b tx k w).1) (has_key_member k w.committed m), h))

abbrev keyed_spec : KeySpec keyed
keyed_spec = record {
  Inserted = λ w tx id n. Memᴰ (tx, (id, n)) w.pending;
  Committed = λ w id n. Memᴰ (id, n) w.committed;
  exec_inserts = λ tx ctx row w h. inserted _ tx (row.aggregate_id, row.sequence) w h;
  exec_keeps = λ tx ctx s w id n m. keeps tx s w (tx, (id, n)) m;
  commit_publishes =
      λ tx ctx w id n done m. Memᴰ.append_left w.committed (keys_of_member tx (id, n) w.pending m);
  exec_duplicate = λ tx ctx row w m. duplicate tx (row.aggregate_id, row.sequence) w m;
}

abbrev nothing : Keyed
nothing = record { committed = []; pending = []; arriving = [] }

-- The other session's event is committed while this one queries the head.
abbrev during : Keyed
during = record nothing { arriving = (7, pos 1) ∷ [] }

append_race_example :
    EndsRefused order_event json keyed keyed_spec 2 none
      (row_of order_event (envelope 7 1 5 order_shipped) "{}" "null")
      (keyed.select_head 2 none 7 during).0
      (append_in order_event json keyed none 7 0 (envelope 7 1 5 order_shipped ∷ []) 2 during).1
unfolding append_in insert_all insert_event to_i64
append_race_example =
    append_race order_event json keyed keyed_spec none none 7 7 0 0 (envelope 7 1 4 order_shipped)
      (envelope 7 1 5 order_shipped) [] [] 1 2 nothing _ refl none refl (pos 0) during _ refl
      (λ j n m. m) refl refl "{}" "null" refl refl
