-- ===== src/Tests/Machines.antt =====
-- A machine of lists, on which a directory or a server may fail to start.
use goaxon.Prelude.{
  ℕ, String, Bool, true, false, none, List, [], ◌∷◌, ◌≡◌, refl, ap, ◌⊎◌, inl, inr, string_eq,
}
use goaxon.Go.Error.{GoError, text, wrapped}
use goaxon.Go.Outcome.{OrPanic}
use goaxon.Validation.{error_text}
use goaxon.Pgtest.{
  Machine, State, zero_config, boot, once_boot, run_tests, cleanup, free_port, shared_cache_dir,
}
use goaxon.Pgtest.Leftovers.{Started, MachineSpec, left_dir}
use goaxon.Pgtest.Runs.{run_tests_silent, run_tests_failed}

-- The servers, by their runtime paths, and the temporary directories.
pub record Host : Type 0 where
  pub servers : List String
  pub dirs : List String

abbrev tail_of : List String → List String
tail_of [] = []
tail_of (_ ∷ l) = l

abbrev started_on : Bool → String → Host → Host × (Unit {0} ⊎ GoError)
started_on true p w = (record w { servers = p ∷ w.servers }, inl tt)
started_on false p w = (w, inr (text "no such binary"))

-- `works` says whether servers start.
abbrev machine : Bool → Machine Host Unit String
machine works = record {
  listen = λ network address w. (w, inl tt);
  port_of = λ l. 54321;
  close = λ l w. w;
  mkdir_temp = λ d pattern w. (record w { dirs = "tmp1" ∷ w.dirs }, inl "tmp1");
  user_home_dir = λ w. (w, inl "home");
  join = λ parts. "home/.cache/goaxon-pgtest";
  mkdir_all = λ d mode w. (w, inl tt);
  decimal = λ n. "54321";
  new_database = λ c. c.runtime_path;
  start = λ p w. started_on works p w;
  stop = λ p w. (record w { servers = tail_of w.servers }, inl tt);
  remove_all = λ d w. (record w { dirs = tail_of w.dirs }, inl tt);
}

starts :
    (works : Bool) (p : String) (w : Host)
    → Started (λ v. v.servers) (λ v. v.dirs) p w (started_on works p w)
starts true p w = (refl, refl)
starts false p w = (refl, refl)

abbrev machine_spec : (works : Bool) → MachineSpec (machine works)
machine_spec works = record {
  running = λ w. w.servers;
  dirs = λ w. w.dirs;
  listen_keeps = λ network address w. (refl, refl);
  close_keeps = λ l w. (refl, refl);
  home_keeps = λ w. (refl, refl);
  mkdir_all_keeps = λ d mode w. (refl, refl);
  mkdir_temp_makes = λ d pattern w. (refl, refl, refl);
  start_starts = λ p w. starts works p w;
  stop_stops = λ p rest w r. (ap tail_of r, refl);
  remove_all_removes = λ d rest w r. (ap tail_of r, refl);
}

abbrev process : State Host String
process = record {
  world = record { servers = []; dirs = "other" ∷ [] };
  stderr = [];
  once = false;
  pg = none;
  base_conf = zero_config;
  runtime_dir = "";
  boot_err = none;
}

abbrev passing : State Host String → Host × OrPanic ℕ
passing s = (s.world, inr "a test panics")

run_tests_silent_example :
    ((run_tests (machine true) passing process).1 ≡ inr "a test panics")
    × ((machine_spec true).running (run_tests (machine true) passing process).0.world ≡ [])
    × ((machine_spec true).dirs (run_tests (machine true) passing process).0.world ≡ "other" ∷ [])
unfolding run_tests once_boot boot free_port shared_cache_dir cleanup
run_tests_silent_example =
    run_tests_silent (machine_spec true) passing process refl refl refl (λ b. (refl, refl)) refl

run_tests_failed_example :
    let (t, result) = run_tests (machine false) passing process in
    (result ≡ inl 1)
    × (t.stderr ≡ error_text (wrapped "embedded-postgres start: " (text "no such binary") "") ∷ [])
    × ((machine_spec false).running t.world ≡ [])
    × ((machine_spec false).dirs t.world ≡ left_dir t.runtime_dir ("other" ∷ []))
unfolding once_boot boot free_port shared_cache_dir
run_tests_failed_example =
    run_tests_failed (machine_spec false) passing process refl refl refl _ refl
