-- ===== src/Pgtest.antt =====
-- internal/pgtest/pgtest.go: the package variables with `boot`, `cleanup` and `runTests`, and the
-- database of one test.
pub mod Leftovers
pub mod Runs
pub mod Pool
use Prim.Native.String.{◌++◌ as cat}
use goaxon.Prelude.{
  ℕ, ◌%◌, String, Bool, true, false, Option, none, some, List, [], ◌∷◌, ◌++◌, ◌⊎◌, inl, inr, ◌==◌,
  string_eq, if◌then◌else◌,
}
use goaxon.Go.Error.{GoError, wrapped}
use goaxon.Go.Outcome.{OrPanic}
use goaxon.Event.{Ctx}
use goaxon.Validation.{error_text}

-- A call outside the program: a result or an error.
abbrev pub Fallible : Type 0 → Type 0 → Type 0
Fallible W A = W → W × (A ⊎ GoError)

-- `embeddedpostgres.Config` as `boot` sets it.
pub record ServerConfig : Type 0 where
  pub port : ℕ
  pub runtime_path : String
  pub cache_path : String
  pub username : String
  pub password : String
  pub database : String

-- `pgtestdb.Config`
pub record TestConfig : Type 0 where
  pub driver_name : String
  pub host : String
  pub port : String
  pub user : String
  pub password : String
  pub database : String
  pub options : String

abbrev pub zero_config : TestConfig
zero_config = record {
  driver_name = "";
  host = "";
  port = "";
  user = "";
  password = "";
  database = "";
  options = "";
}

abbrev pub pg_user : String
pg_user = "postgres"

abbrev pub pg_pass : String
pg_pass = "postgres"

abbrev pub pg_database : String
pg_database = "postgres"

-- Packages net, os, filepath, fmt and embeddedpostgres: a listener `L`, a server `P`.
pub record Machine (W L P : Type 0) : Type 0 where
  pub listen : String → String → Fallible W L
  pub port_of : L → ℕ
  pub close : L → W → W
  pub mkdir_temp : String → String → Fallible W String
  pub user_home_dir : Fallible W String
  pub join : List String → String
  pub mkdir_all : String → ℕ → Fallible W Unit
  pub decimal : ℕ → String
  pub new_database : ServerConfig → P
  pub start : P → Fallible W Unit
  pub stop : P → Fallible W Unit
  pub remove_all : String → Fallible W Unit

-- The package variables, what the package wrote to `os.Stderr`, and the world outside.
pub record State (W P : Type 0) : Type 0 where
  pub world : W
  pub stderr : List String
  pub once : Bool
  pub pg : Option P
  pub base_conf : TestConfig
  pub runtime_dir : String
  pub boot_err : Option GoError

-- `bootErr = fmt.Errorf("before%w", err); return`
abbrev pub boot_failed : {W P : Type 0} → String → GoError → State W P → State W P
boot_failed before e s = record s { boot_err = some (wrapped before e "") }

-- `fmt.Fprintf(os.Stderr, "before%v\n", err)` where there is an error
abbrev pub say : {W P : Type 0} → String → State W P → W × (Unit {0} ⊎ GoError) → State W P
say before s (w, inl _) = record s { world = w }
say before s (w, inr e) = record s {
  world = w;
  stderr = s.stderr ++ cat before (error_text e) ∷ [];
}

module _ {W L P : Type 0} (os : Machine W L P) where
  -- The body of `freePort` once it listens; the listener is closed at its end.
  abbrev pub port_taken : W × (L ⊎ GoError) → W × (ℕ ⊎ GoError)
  port_taken (w, inl l) = (os.close l w, inl (os.port_of l))
  port_taken (w, inr e) = (w, inr e)

  -- `freePort`
  unfoldable pub free_port : Fallible W ℕ
  free_port w = port_taken (os.listen "tcp" "127.0.0.1:0" w)

  abbrev pub made_dir : String → W × (Unit {0} ⊎ GoError) → W × (String ⊎ GoError)
  made_dir dir (w, inl _) = (w, inl dir)
  made_dir dir (w, inr e) = (w, inr e)

  abbrev pub cache_in : W × (String ⊎ GoError) → W × (String ⊎ GoError)
  cache_in (w, inl home) =
      let dir = os.join (home ∷ ".cache" ∷ "goaxon-pgtest" ∷ []) in
      made_dir dir (os.mkdir_all dir 493 w)
  cache_in (w, inr e) = (w, inr e)

  -- `sharedCacheDir`
  unfoldable pub shared_cache_dir : Fallible W String
  shared_cache_dir w = cache_in (os.user_home_dir w)

  -- `boot` once the server is started.
  abbrev pub with_server : ℕ → State W P → W × (Unit {0} ⊎ GoError) → State W P
  with_server port s (w, inl _) = record s {
    world = w;
    base_conf = record {
      driver_name = "pgx";
      host = "localhost";
      port = os.decimal port;
      user = pg_user;
      password = pg_pass;
      database = pg_database;
      options = "sslmode=disable";
    };
  }
  with_server port s (w, inr e) = boot_failed "embedded-postgres start: " e (record s { world = w })

  -- The server of `boot`. `uint32(port)` wraps.
  abbrev pub server_at : ℕ → String → String → P
  server_at port runtime_dir cache_dir = os.new_database (record {
    port = port % 4294967296;
    runtime_path = runtime_dir;
    cache_path = cache_dir;
    username = pg_user;
    password = pg_pass;
    database = pg_database;
  })

  abbrev pub with_cache : ℕ → State W P → W × (String ⊎ GoError) → State W P
  with_cache port s (w, inl cache_dir) =
      let p = server_at port s.runtime_dir cache_dir in
      with_server port (record s { pg = some p }) (os.start p w)
  with_cache port s (w, inr e) = boot_failed "pgtest cache dir: " e (record s { world = w })

  abbrev pub with_dir : ℕ → State W P → W × (String ⊎ GoError) → State W P
  with_dir port s (w, inl dir) =
      with_cache port (record s { runtime_dir = dir }) (shared_cache_dir w)
  with_dir port s (w, inr e) =
      boot_failed "pgtest runtime dir: " e (record s { world = w; runtime_dir = "" })

  abbrev pub with_port : State W P → W × (ℕ ⊎ GoError) → State W P
  with_port s (w, inl port) = with_dir port s (os.mkdir_temp "" "goaxon-pgtest-" w)
  with_port s (w, inr e) = boot_failed "pgtest free port: " e (record s { world = w })

  -- `boot`
  unfoldable pub boot : State W P → State W P
  boot s = with_port s (free_port s.world)

  -- `once.Do(boot)`
  unfoldable pub once_boot : State W P → State W P
  once_boot s = if s.once then s else record (boot s) { once = true }

  abbrev pub stop_server : Option P → State W P → State W P
  stop_server none s = s
  stop_server (some p) s = say "pgtest: stop: " s (os.stop p s.world)

  abbrev pub remove_dir : State W P → State W P
  remove_dir s =
      if s.runtime_dir == ""
      then s
      else say "pgtest: remove runtime dir: " s (os.remove_all s.runtime_dir s.world)

  -- `cleanup`
  unfoldable pub cleanup : State W P → State W P
  cleanup s = remove_dir (stop_server s.pg s)

  -- `defer cleanup(); return m.Run()`: the deferred call runs after a panic too. `tests` is
  -- `m.Run`, which may read the package variables.
  abbrev pub after_tests : State W P → W × OrPanic ℕ → State W P × OrPanic ℕ
  after_tests s (w, result) = (cleanup (record s { world = w }), result)

  abbrev pub run_booted :
      (State W P → W × OrPanic ℕ) → Option GoError → State W P → State W P × OrPanic ℕ
  run_booted tests (some e) s = (record s { stderr = s.stderr ++ error_text e ∷ [] }, inl 1)
  run_booted tests none s = after_tests s (tests s)

  -- `runTests`. `Run` is `os.Exit` of its result.
  unfoldable pub run_tests : (State W P → W × OrPanic ℕ) → State W P → State W P × OrPanic ℕ
  run_tests tests s = let booted = once_boot s in run_booted tests booted.boot_err booted
