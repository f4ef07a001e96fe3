-- ===== src/Tests/LocalDb.antt =====
-- A database of one session, with one open transaction at a time, that never fails.
use goaxon.Prelude.{
  ℕ, suc, ◌+◌, ◌-◌, Option, none, some, List, [], ◌∷◌, ◌++◌, map, take, length, length-append, ◌≡◌,
  refl, ap, sym, subst, ◌∙◌, inl, inr, arith, if◌then◌else◌, Bool-cases,
}
use goaxon.Go.Outcome.{Outcome, Done, ok, err, panics, ok_injective}
use goaxon.Event.{Time}
use goaxon.Postgres.Database.{
  EventRow, OutboxRow, Statement, insert_event_row, insert_outbox_row, mark_dispatched, Rows, Pgx,
}
use goaxon.Postgres.Spec.{Selected, PgxSpec, BeginFuncEnd, committed, rolled_back, BeginFuncSpec}
use goaxon.Postgres.Tables.{
  Tables, Change, added_event, added_outbox, marked, member, mark, apply_all, rows_of, by_sequence,
  max_sequence, or_zero, pending_rows, limit, AscendsFrom,
}

-- The rows of the outbox without their identifiers, which are 1, 2, ...
abbrev Entry : Type 0
Entry = EventRow × Option Time

pub record LocalDb : Type 0 where
  pub events : List EventRow
  pub outbox : List Entry
  pub statements : List Statement
  pub open_count : ℕ

abbrev numbered : ℕ → List Entry → List OutboxRow
numbered k [] = []
numbered k (e ∷ es) = record { id = suc k; event = e.0; dispatched_at = e.1 } ∷ numbered (suc k) es

abbrev local_tables : LocalDb → Tables
local_tables w = record { events = w.events; outbox = numbered 0 w.outbox }

-- What the statements did, where `k` rows are in the outbox.
abbrev changes_from : ℕ → List Statement → List Change
changes_from k [] = []
changes_from k (insert_event_row row ∷ ss) = added_event row ∷ changes_from k ss
changes_from k (insert_outbox_row row ∷ ss) = added_outbox (suc k) row ∷ changes_from (suc k) ss
changes_from k (mark_dispatched ids ∷ ss) = marked ids 0 ∷ changes_from k ss

abbrev local_changes : LocalDb → List Change
local_changes w = changes_from (length w.outbox) w.statements

abbrev mark_entries : ℕ → List ℕ → List Entry → List Entry
mark_entries k ids [] = []
mark_entries k ids (e ∷ es) =
    (e.0, (if member (suc k) ids then some 0 else e.1)) ∷ mark_entries (suc k) ids es

abbrev perform : List Statement → LocalDb → LocalDb
perform [] w = w
perform (insert_event_row row ∷ ss) w = perform ss (record w { events = w.events ++ row ∷ [] })
perform (insert_outbox_row row ∷ ss) w =
    perform ss (record w { outbox = w.outbox ++ (row, none) ∷ [] })
perform (mark_dispatched ids ∷ ss) w =
    perform ss (record w { outbox = mark_entries 0 ids w.outbox })

abbrev close : LocalDb → LocalDb
close w = record w { open_count = w.open_count - 1 }

abbrev begun : LocalDb → LocalDb
begun w = record w { statements = []; open_count = suc w.open_count }

abbrev all_rows : {R : Type 0} → List R → Rows R
all_rows l = record { scans = map ok l; end_error = none }

abbrev finish : LocalDb × Done → LocalDb × Done
finish (w, ok _) = (close (perform w.statements w), ok tt)
finish (w, err e) = (close w, err e)
finish (w, panics m) = (close w, panics m)

abbrev pub local : Pgx LocalDb Unit
local = record {
  begin_func = λ ctx fn w. finish (fn tt (begun w));
  begin = λ ctx w. (begun w, ok tt);
  exec = λ tx ctx s w. (record w { statements = w.statements ++ s ∷ [] }, none);
  select_head = λ tx ctx id w. (
    w,
    ok (or_zero (max_sequence (rows_of id (apply_all (local_changes w) (local_tables w)).events))),
  );
  select_pending = λ tx ctx n w. (
    w,
    ok (
        all_rows
          (take (limit n) (pending_rows (apply_all (local_changes w) (local_tables w)).outbox))),
  );
  select_events = λ ctx id w. (w, ok (all_rows (by_sequence (rows_of id w.events))));
  commit = λ tx ctx w. (close (perform w.statements w), none);
  rollback = λ tx ctx w. (close w, none);
}

numbered-append :
    (k : ℕ) (es : List Entry) (row : EventRow)
    → numbered k (es ++ (row, none) ∷ [])
      ≡ numbered k es ++ record { id = suc (length es + k); event = row; dispatched_at = none } ∷ []
numbered-append k [] row =
    ap (λ n. record { id = suc n; event = row; dispatched_at = none } ∷ []) (omega arith)
numbered-append k (e ∷ es) row =
    ap (λ l. record { id = suc k; event = e.0; dispatched_at = e.1 } ∷ l)
      (numbered-append (suc k) es row
        ∙ ap
            (λ n.
              numbered (suc k) es ++ record { id = suc n; event = row; dispatched_at = none } ∷ [])
            (omega arith))

numbered-mark :
    (k : ℕ) (ids : List ℕ) (es : List Entry)
    → numbered k (mark_entries k ids es) ≡ map (mark ids 0) (numbered k es)
numbered-mark k ids [] = refl
numbered-mark k ids (e ∷ es) =
    let rest = numbered-mark (suc k) ids es in
    elim (Bool-cases (member (suc k) ids)) [ inl h ↦ simp (h, rest) | inr h ↦ simp (h, rest) ]

pub numbered-AscendsFrom : (k : ℕ) (es : List Entry) → AscendsFrom k (numbered k es)
numbered-AscendsFrom k [] = tt
numbered-AscendsFrom k (e ∷ es) = (omega arith, numbered-AscendsFrom (suc k) es)

length-mark_entries :
    (k : ℕ) (ids : List ℕ) (es : List Entry) → length (mark_entries k ids es) ≡ length es
length-mark_entries k ids [] = refl
length-mark_entries k ids (e ∷ es) = ap suc (length-mark_entries (suc k) ids es)

tables-perform :
    (ss : List Statement) (w : LocalDb)
    → local_tables (perform ss w) ≡ apply_all (changes_from (length w.outbox) ss) (local_tables w)
tables-perform [] w = refl
tables-perform (insert_event_row row ∷ ss) w = tables-perform ss _
tables-perform (insert_outbox_row row ∷ ss) w =
    tables-perform ss (record w { outbox = w.outbox ++ (row, none) ∷ [] })
    ∙ ap
        (λ n.
          apply_all (changes_from n ss)
            (local_tables (record w { outbox = w.outbox ++ (row, none) ∷ [] })))
        (length-append w.outbox ((row, none) ∷ []) ∙ omega arith)
    ∙ ap
        (λ l.
          apply_all (changes_from (suc (length w.outbox)) ss)
            (record { events = w.events; outbox = l }))
        (numbered-append 0 w.outbox row
          ∙ ap
              (λ n.
                numbered 0 w.outbox
                ++ record { id = suc n; event = row; dispatched_at = none } ∷ [])
              (omega arith))
tables-perform (mark_dispatched ids ∷ ss) w =
    tables-perform ss (record w { outbox = mark_entries 0 ids w.outbox })
    ∙ ap
        (λ n.
          apply_all (changes_from n ss)
            (local_tables (record w { outbox = mark_entries 0 ids w.outbox })))
        (length-mark_entries 0 ids w.outbox)
    ∙ ap
        (λ l.
          apply_all (changes_from (length w.outbox) ss) (record { events = w.events; outbox = l }))
        (numbered-mark 0 ids w.outbox)

abbrev inserted : List Statement → ℕ
inserted [] = 0
inserted (insert_event_row row ∷ ss) = inserted ss
inserted (insert_outbox_row row ∷ ss) = suc (inserted ss)
inserted (mark_dispatched ids ∷ ss) = inserted ss

pub changes_from-append :
    (k : ℕ) (ss : List Statement) (s : Statement)
    → changes_from k (ss ++ s ∷ []) ≡ changes_from k ss ++ changes_from (inserted ss + k) (s ∷ [])
changes_from-append k [] s = ap (λ n. changes_from n (s ∷ [])) (omega arith)
changes_from-append k (insert_event_row row ∷ ss) s =
    ap (λ l. added_event row ∷ l) (changes_from-append k ss s)
changes_from-append k (insert_outbox_row row ∷ ss) s =
    ap (λ l. added_outbox (suc k) row ∷ l)
      (changes_from-append (suc k) ss s
        ∙ ap (λ n. changes_from (suc k) ss ++ changes_from n (s ∷ [])) (omega arith))
changes_from-append k (mark_dispatched ids ∷ ss) s =
    ap (λ l. marked ids 0 ∷ l) (changes_from-append k ss s)

pub map_ok_injective : {A : Type 0} (xs ys : List A) → map ok xs ≡ map ok ys → ys ≡ xs
map_ok_injective [] [] h = refl
map_ok_injective [] (y ∷ ys) h = absurd (cc h)
map_ok_injective (x ∷ xs) [] h = absurd (cc h)
map_ok_injective {A} (x ∷ xs) (y ∷ ys) h =
    cc (map_ok_injective xs ys (ap tail h), ok_injective (ap first h))
  where
    tail : List (Outcome A) → List (Outcome A)
    tail [] = []
    tail (r ∷ rs) = rs

    first : List (Outcome A) → Outcome A
    first [] = ok x
    first (r ∷ rs) = r

pub all_rows-Selected :
    {R : Type 0} (l : List R) (rows : Rows R) → ok (all_rows l) ≡ ok rows → Selected rows l
all_rows-Selected l rows h m scanned ended =
    map_ok_injective l m (ap (λ r. r.scans) (ok_injective h) ∙ scanned)

pub performed :
    (w : LocalDb)
    → local_tables (perform w.statements w) ≡ apply_all (local_changes w) (local_tables w)
performed w = tables-perform w.statements w

pub count-perform : (ss : List Statement) (w : LocalDb) → (perform ss w).open_count ≡ w.open_count
count-perform [] w = refl
count-perform (insert_event_row row ∷ ss) w = count-perform ss _
count-perform (insert_outbox_row row ∷ ss) w = count-perform ss _
count-perform (mark_dispatched ids ∷ ss) w = count-perform ss _

unfoldable pub local-PgxSpec : PgxSpec local
local-PgxSpec = record {
  tables = local_tables;
  changes = λ w tx. local_changes w;
  open_count = λ w. w.open_count;
  jsonb = λ s. s;
  timestamptz = λ t. t;
  ascends = λ w. numbered-AscendsFrom 0 w.outbox;
  begin_ok = λ ctx w w' tx h.
      subst
        (λ v.
          (local_tables v ≡ local_tables w)
          × (local_changes v ≡ [])
          × (v.open_count ≡ suc w.open_count))
        (ap (λ q. q.0) h) (refl, refl, refl);
  begin_failed = λ ctx w h. absurd (h tt refl);
  exec_keeps = λ tx ctx s w. (refl, refl);
  exec_event =
      λ tx ctx row w h. changes_from-append (length w.outbox) w.statements (insert_event_row row);
  exec_outbox = λ tx ctx row w h. (
    suc (inserted w.statements + length w.outbox),
    changes_from-append (length w.outbox) w.statements (insert_outbox_row row),
  );
  exec_mark = λ tx ctx ids w h.
      (0, changes_from-append (length w.outbox) w.statements (mark_dispatched ids));
  head_keeps = λ tx ctx id w. (refl, refl);
  head_ok = λ tx ctx id w n h. sym (ok_injective h);
  pending_keeps = λ tx ctx n w. (refl, refl, refl);
  pending_ok = λ tx ctx n w rows h. all_rows-Selected _ rows h;
  events_keep = λ ctx id w. refl;
  events_ok = λ ctx id w rows h. all_rows-Selected _ rows h;
  commit_ok = λ tx ctx w h. performed w;
  commit_failed = λ tx ctx w. inr (performed w);
  rollback_keeps = λ tx ctx w. refl;
  commit_ends = λ tx ctx w. ap (λ k. k - 1) (count-perform w.statements w);
  rollback_ends = λ tx ctx w. refl;
}

pub local-BeginFuncSpec : BeginFuncSpec local-PgxSpec
unfolding local-PgxSpec
local-BeginFuncSpec ctx fn w = ends (fn tt (begun w)) refl
  where
    ends :
        (p : LocalDb × Done)
        → fn tt (begun w) ≡ p
        → BeginFuncEnd local-PgxSpec ctx fn w (finish p).0 (finish p).1
    ends (u, ok tt) h = committed tt (begun w) u refl refl h refl refl
    ends (u, err e) h =
        rolled_back tt (begun w) refl refl (λ q. cc (h, q)) (ap (λ q. close q.0) (sym h))
          (λ q. cc q) (λ _. ap (λ q. q.1) (sym h))
    ends (u, panics m) h =
        rolled_back tt (begun w) refl refl (λ q. cc (h, q)) (ap (λ q. close q.0) (sym h))
          (λ q. cc q) (λ _. ap (λ q. q.1) (sym h))
