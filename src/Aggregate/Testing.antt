-- ===== src/Aggregate/Testing.antt =====
-- aggregate/aggregatetest/aggregatetest.go: the test helper. Each of its methods that calls
-- `t.Fatal` ends there; a test is a chain of its methods.
pub mod Cycle
use goaxon.Prelude.{
  ℕ, suc, String, Bool, true, false, Option, none, some, List, [], ◌∷◌, length, nat_beq, string_eq,
  ◌==◌, ◌+◌, if◌then◌else◌,
}
use goaxon.Go.Error.{GoError, Sentinel, errors_is, sentinel_text}
use goaxon.Validation.{error_text}
use goaxon.Event.{Uuid}
use goaxon.Aggregate.{Root}
use goaxon.Aggregate.Replay.{apply_all}

pub record AggregateTest (A : Type 0) : Type 0 where
  pub agg : A
  pub error : Option GoError
  pub invoked : Bool

-- The calls of `t.Fatal` and `t.Fatalf`, with what they format.
pub data Failure (E : Type 0) : Type 0 where
  then_without_when then_error_without_when : Failure E
  unexpected_error : GoError → Failure E
  other_count : List E → List E → Failure E
  mismatch : ℕ → E → E → Failure E
  must_embed : String → Failure E
  expected_error : String → Failure E
  other_error : String → GoError → Failure E

-- A test goes on to its end, or is ended by `t.Fatal`.
pub data Verdict (E : Type 0) : Type 0 where
  passed : Verdict E
  fatal : Failure E → Verdict E

-- An error to compare with: a package-level variable, or one that the test makes by `errors.New`,
-- which is identical to no other. Its text is all that the second comparison reads.
pub data Wanted : Type 0 where
  variable : Sentinel → Wanted
  fresh : String → Wanted

abbrev pub is_wanted : GoError → Wanted → Bool
is_wanted e (variable s) = errors_is e s
is_wanted e (fresh m) = false

abbrev pub wanted_text : Wanted → String
wanted_text (variable s) = sentinel_text s
wanted_text (fresh m) = m

-- `New`, with the identifier that `uuid.NewV7` draws
unfoldable pub new_test : {A : Type 0} → (Uuid → A) → Uuid → AggregateTest A
new_test factory id = record { agg = factory id; error = none; invoked = false }

-- `Given`
unfoldable pub given : {A E : Type 0} → Root A E → AggregateTest A → List E → AggregateTest A
given root t [] = t
given root t (e ∷ es) = given root (record t { agg = root.apply t.agg e }) es

-- `When`, of an action that returns. An error does not undo what it changed.
unfoldable pub when_run :
    {A : Type 0} → AggregateTest A → (A → A × Option GoError) → AggregateTest A
when_run t action = let (a, e) = action t.agg in record { agg = a; error = e; invoked = true }

-- The answer of the assertion to `uncommittedReader`.
abbrev pub Reader : Type 0 → Type 0 → Type 0
Reader A E = Option (A → List E)

module _ {A E : Type 0} (root : Root A E) (reader : Reader A E) (deep_equal : E → E → Bool) where
  -- The loop over the events, from index `i` on, of lists of one length.
  unfoldable pub compare_events : ℕ → List E → List E → Verdict E
  compare_events i [] _ = passed
  compare_events i (e ∷ expected) [] = passed
  compare_events i (e ∷ expected) (x ∷ got) =
      let rest = compare_events (i + 1) expected got in
      if deep_equal x e then rest else fatal (mismatch i e x)

  abbrev pub check_events : List E → List E → Verdict E
  check_events expected got =
      if nat_beq (length got) (length expected)
      then compare_events 0 expected got
      else fatal (other_count expected got)

  -- `uncommitted`, and what `Then` does with it
  abbrev pub check_uncommitted : List E → A → Reader A E → Verdict E
  check_uncommitted expected a none = fatal (must_embed root.type_text)
  check_uncommitted expected a (some uncommitted) = check_events expected (uncommitted a)

  abbrev pub check_no_error : List E → A → Option GoError → Verdict E
  check_no_error expected a (some e) = fatal (unexpected_error e)
  check_no_error expected a none = check_uncommitted expected a reader

  -- `Then`
  unfoldable pub then_events : AggregateTest A → List E → Verdict E
  then_events t expected =
      if t.invoked then check_no_error expected t.agg t.error else fatal then_without_when

-- `ThenError`
abbrev pub check_error : {E : Type 0} → Wanted → Option GoError → Verdict E
check_error want none = fatal (expected_error (wanted_text want))
check_error want (some e) =
    if is_wanted e want
    then passed
    else if error_text e == wanted_text want
    then passed
    else fatal (other_error (wanted_text want) e)

unfoldable pub then_error : {A E : Type 0} → AggregateTest A → Wanted → Verdict E
then_error t want = if t.invoked then check_error want t.error else fatal then_error_without_when
