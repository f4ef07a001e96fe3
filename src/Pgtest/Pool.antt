-- ===== src/Pgtest/Pool.antt =====
-- internal/pgtest/pgtest.go: `NewPool` and `schemaMigrator`.
use Prim.Native.String.{◌++◌ as cat}
use goaxon.Prelude.{String, Option, none, some, ◌⊎◌, inl, inr}
use goaxon.Go.Error.{GoError}
use goaxon.Event.{Ctx}
use goaxon.Validation.{error_text}
use goaxon.Pgtest.{Fallible, State, TestConfig}

-- The interface `pgtestdb.Migrator`: `D` is a `*sql.DB`.
pub record Migrator (W D : Type 0) : Type 0 where
  pub hash : String × Option GoError
  pub migrate : Ctx → D → TestConfig → W → W × Option GoError

-- Packages sha256, hex, sql, pgtestdb and pgxpool, with the test's `Cleanup`: a sum `S`, a result
-- `R` of a statement, and a pool `Q`. `custom` fails the test itself, with a message.
pub record Tools (W D S R Q : Type 0) : Type 0 where
  pub sum256 : String → S
  pub encode_to_string : S → String
  pub exec_context : Ctx → D → String → Fallible W R
  pub custom : TestConfig → Migrator W D → W → W × (TestConfig ⊎ String)
  pub url : TestConfig → String
  pub new_pgx_pool : Ctx → String → Fallible W Q
  pub close : Q → W → W
  pub on_cleanup : (W → W) → W → W

module _ {W D S R Q : Type 0} (tools : Tools W D S R Q) where
  -- `_, err := ...; return err`
  abbrev pub error_only : W × (R ⊎ GoError) → W × Option GoError
  error_only (w, inl _) = (w, none)
  error_only (w, inr e) = (w, some e)

  -- `schemaMigrator`, with its methods `Hash` and `Migrate`
  abbrev pub schema_migrator : String → Migrator W D
  schema_migrator ddl = record {
    hash = (tools.encode_to_string (tools.sum256 ddl), none);
    migrate = λ ctx db _ w. error_only (tools.exec_context ctx db ddl w);
  }

  abbrev pub with_pool : W × (Q ⊎ GoError) → W × (Q ⊎ String)
  with_pool (w, inl pool) = (tools.on_cleanup (tools.close pool) w, inl pool)
  with_pool (w, inr e) = (w, inr (cat "pgxpool.New: " (error_text e)))

  abbrev pub with_database : W × (TestConfig ⊎ String) → W × (Q ⊎ String)
  with_database (w, inl cfg) = with_pool (tools.new_pgx_pool none (tools.url cfg) w)
  with_database (w, inr fatal) = (w, inr fatal)

  abbrev pub when_booted : {P : Type 0} → Option GoError → String → State W P → W × (Q ⊎ String)
  when_booted (some e) schema s = (s.world, inr (cat "pgtest not booted: " (error_text e)))
  when_booted none schema s =
      with_database (tools.custom s.base_conf (schema_migrator schema) s.world)

  -- `NewPool`: the pool, or what `t.Fatalf` ends the test with.
  unfoldable pub new_pool : {P : Type 0} → String → State W P → W × (Q ⊎ String)
  new_pool schema s = when_booted s.boot_err schema s
