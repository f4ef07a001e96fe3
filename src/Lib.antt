-- ===== src/Lib.antt =====
-- Goaxon is a small framework for event-sourced programs in Go, with an example program for orders.
-- This library models its packages and what they promise each other.
--
-- The parts. An aggregate embeds `Base` and raises events; the repository of package aggregate
-- loads it by replaying its event stream and saves it by appending the raised events to an
-- `event.Store`, at the version that it was loaded at, and then publishes them on an `event.Bus`,
-- unless the store has an outbox. Then a dispatcher claims batches of the outbox and publishes
-- them. Commands and queries go through two buses that find the handler by the name of the request.
-- The orders program has one aggregate, two commands, one projection that subscribes to the events,
-- one query, and a service that parses the inputs.
--
-- The files, and the code that each is about:
--   Event.antt                 event/event.go, event/errors.go
--   Event/Registry.antt        event/registry.go
--   Event/Outbox.antt          event/outbox.go
--   Event/Dispatcher.antt      event/dispatcher.go; its proofs in Event/Dispatcher/
--   Event/Spec.antt            the contract of `event.Store`: StoreSpec and StoreProgress
--   Memory.antt                store/memory/memory.go; that it meets the contract in Memory/Laws.antt
--   Postgres.antt              store/postgres/postgres.go; what it calls of package pgx in
--                              Postgres/Database.antt, from rows to envelopes in Postgres/Scan.antt,
--                              the database as the code relies on it in Postgres/Tables.antt and
--                              Postgres/Spec.antt; the proofs beside it, the order of an append and
--                              a dispatcher's run in Postgres/Delivery.antt, Postgres/Saved.antt and
--                              Postgres/Progress/
--   Aggregate.antt             aggregate/aggregate.go, `Base`
--   Aggregate/Repository.antt  aggregate/aggregate.go, `Repository`; the proofs beside it
--   Aggregate/Testing.antt     aggregate/aggregatetest/aggregatetest.go
--   Command.antt, Query.antt   command/command.go, query/query.go
--   Validation.antt            validation/validation.go
--   Maybe.antt, Maybe/Json.antt  types/maybe/maybe.go
--   Orders/Values.antt, Orders/Order.antt, Orders/Projection.antt, Orders/Wire.antt
--                              examples/orders/domain/orders.go
--   Orders/App.antt            examples/orders/app/orders.go
--   Orders/Http.antt           examples/orders-http/main.go
--   Orders/Program.antt        examples/orders/main.go
--   Pgtest.antt                internal/pgtest/pgtest.go; what it relies on in Pgtest/Leftovers.antt,
--                              `NewPool` in Pgtest/Pool.antt
--   Go.antt and Go/            what the code uses of Go and its standard library: errors, maps,
--                              texts, type assertions, words
--   Prelude.antt               notation and lemmas that all of them share
--   Tests.antt and Tests/      the theorems at concrete inputs
-- A definition has the name of the function that it models, in snake case.
--
-- How the code is modelled. A function that changes state takes the state and returns it beside its
-- result (Go/Exec.antt); a result is a value, an error or a panic (Go/Outcome.antt). An error is a
-- tree of what `fmt.Errorf`, `errors.Join` and the packages make, so that `errors.Is` is a function
-- on it. A pointer to an aggregate is the aggregate's value, returned by each method that changes
-- it. A handler, a store and a bus work on one state W; what belongs to one of them is a part of W
-- (Go/Exec.antt, Part). A method that holds its mutex is one step; `Publish` of the bus in memory
-- copies its handlers first and is one step between two changes of the subscriptions.
-- `context.Context` is what `ctx.Err()` answers at each time that a callee asks; `time.Now` and a
-- new identifier are arguments. A `uuid.UUID` is the number of its bytes, a `uint64` a number with
-- its wrap-around written out, an `int` an integer without bound (no code here adds to one), and a
-- `string` the text of its characters, so that texts which are not valid UTF-8 are left out; `len`
-- counts bytes. `%q` is modelled for texts that need no escapes. The types that the two buses and
-- the type assertions tell apart are codes (Go/Types.antt).
--
-- Loops are structural recursion on the list they go through, so nothing runs on fuel; `Run` of the
-- dispatcher, which has no end, is a function of the sequence of what wakes it.
--
-- Arguments. Package uuid's printing and parsing, encoding/json, the error handler of the dispatcher
-- (taken to return), the store and the bus of a repository, package pgx with its database, and the
-- answers of reflect.DeepEqual are arguments. What the proofs need of them stands in StoreSpec,
-- StoreProgress, OutboxSpec, OutboxProgress, PgxSpec, PgxProgress, BeginFuncSpec, LockSpec, KeySpec,
-- MachineSpec, RootLaws, Keeps (a bus that leaves the event streams alone) and RoundTrips; each is met
-- by a concrete one in Tests/, or by the code itself. StoreSpec asks of an append that fails that it
-- has changed no stream: so does the store in memory, while in Postgres a commit that reports an error
-- may have happened. PgxSpec is the database of one session: nobody else writes the two tables or
-- holds a lock on their rows meanwhile. Its calls may fail at any point; under PgxProgress those of a
-- claim succeed while its transaction is open. The columns of type jsonb and timestamptz may give back
-- another text or time than was written.
--
-- LockSpec and KeySpec have any number of sessions: LockSpec says only what a claim locks, KeySpec
-- only what the primary key of `events` refuses.
--
-- Not modelled: two sessions of the database that write at once, but for the locks and the primary
-- key; requests of HTTP that overlap; package chi, which routes the requests and
-- sets their deadline, and the bytes of a response; what `fmt` makes of a printed value; memory in
-- which two goroutines race without a mutex.
pub mod Prelude
pub mod Go
pub mod Event
pub mod Memory
pub mod Postgres
pub mod Aggregate
pub mod Command
pub mod Query
pub mod Validation
pub mod Maybe
pub mod Orders
pub mod Pgtest
pub mod Tests
