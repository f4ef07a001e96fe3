-- ===== src/Pgtest/Runs.antt =====
-- internal/pgtest/pgtest.go: `runTests` from the start of a process.
use goaxon.Prelude.{
  append-nil, ℕ, String, Bool, true, false, none, some, List, [], ◌∷◌, ◌++◌, ◌≡◌, ◌≢◌, refl, ap,
  sym, subst, ◌∙◌, ◌⊎◌, inl, inr, ◌==◌, string_eq, if◌then◌else◌, append-nil, append_assoc, length,
  length-append, arith,
}
use goaxon.Go.Error.{GoError}
use goaxon.Go.Outcome.{OrPanic}
use goaxon.Validation.{error_text}
use goaxon.Pgtest.{
  Machine, State, boot, once_boot, say, stop_server, remove_dir, cleanup, run_booted, run_tests,
}
use goaxon.Pgtest.Leftovers.{MachineSpec, Ended, Booted, failed, up, left_dir, Kept, boot-Booted}

append_ne_self : {A : Type 0} (xs : List A) (x : A) (ys : List A) → (xs ++ x ∷ ys) ≢ xs
append_ne_self xs x ys h = omega (arith, length-append xs (x ∷ ys), ap length h)

module _ {W L P : Type 0} {os : Machine W L P} (spec : MachineSpec os) where
  once_boot-Booted :
      (s : State W P)
      → s.once ≡ false
      → s.runtime_dir ≡ ""
      → s.boot_err ≡ none
      → Booted spec s (once_boot os s)
  unfolding once_boot
  once_boot-Booted s first dir err =
      subst (λ b. Booted spec s (if b then s else record (boot os s) { once = true })) (sym first)
        (at (boot-Booted spec s dir err))
    where
      at : Booted spec s (boot os s) → Booted spec s (record (boot os s) { once = true })
      at (failed e h out r d) = failed e h out r d
      at (up p h out server named r d) = up p h out server named r d

  -- The end of `cleanup` where nothing was written to `os.Stderr`.
  remove_silent :
      (s : State W P) (before : String) (rest : List String) (q : W × (Unit {0} ⊎ GoError))
      → Ended spec.dirs spec.running rest s.world q
      → (say before s q).stderr ≡ s.stderr
      → (spec.dirs (say before s q).world ≡ rest)
        × (spec.running (say before s q).world ≡ spec.running s.world)
  remove_silent s before rest (w, inl _) ended silent = ended
  remove_silent s before rest (w, inr e) ended silent = absurd (append_ne_self _ _ [] silent)

  say_grows :
      (s : State W P) (before : String) (q : W × (Unit {0} ⊎ GoError))
      → (lines : List String) × ((say before s q).stderr ≡ s.stderr ++ lines)
  say_grows s before (w, inl _) = ([], sym (append-nil s.stderr))
  say_grows s before (w, inr e) = (_, refl)

  remove_dir_grows :
      (s : State W P) → (lines : List String) × ((remove_dir os s).stderr ≡ s.stderr ++ lines)
  remove_dir_grows s = at (s.runtime_dir == "")
    where
      at :
          (b : Bool)
          → let t =
              (if b
                then s
                else say "pgtest: remove runtime dir: " s (os.remove_all s.runtime_dir s.world)) in
            (lines : List String) × (t.stderr ≡ s.stderr ++ lines)
      at true = ([], sym (append-nil s.stderr))
      at false = say_grows s _ _

  -- `cleanup` on a server that runs and a directory that is there.
  module _ (t : State W P) (p : P) (rest : List P) (ds : List String)
      (named : (t.runtime_dir == "") ≡ false) (r : spec.running t.world ≡ p ∷ rest)
      (d : spec.dirs t.world ≡ t.runtime_dir ∷ ds) where
    abbrev Clean : State W P → Type 0
    Clean s = (spec.running s.world ≡ rest) × (spec.dirs s.world ≡ ds)

    stopped_silent :
        (q : W × (Unit {0} ⊎ GoError))
        → Ended spec.running spec.dirs rest t.world q
        → (remove_dir os (say "pgtest: stop: " t q)).stderr ≡ t.stderr
        → Clean (remove_dir os (say "pgtest: stop: " t q))
    stopped_silent (w, inl _) (stopped, same) silent =
        subst
          (λ b.
            let s =
              (if b
                then stopped_state
                else say "pgtest: remove runtime dir: " stopped_state
                    (os.remove_all t.runtime_dir w)) in
            s.stderr ≡ t.stderr → Clean s)
          (sym named)
          (λ quiet.
            let (gone, kept) =
              remove_silent stopped_state "pgtest: remove runtime dir: " ds _
                (spec.remove_all_removes t.runtime_dir ds w (same ∙ d)) quiet in
            (kept ∙ stopped, gone))
          silent
      where
        stopped_state : State W P
        stopped_state = record t { world = w }
    stopped_silent (w, inr e) ended silent =
        let (lines, grown) = remove_dir_grows (say "pgtest: stop: " t (w, inr e)) in
        absurd (
          append_ne_self t.stderr _ lines
            (sym (append_assoc t.stderr _ lines) ∙ sym grown ∙ silent))

    cleanup_silent : t.pg ≡ some p → (cleanup os t).stderr ≡ t.stderr → Clean (cleanup os t)
    unfolding cleanup
    cleanup_silent server =
        subst
          (λ o.
            (remove_dir os (stop_server os o t)).stderr ≡ t.stderr
            → Clean (remove_dir os (stop_server os o t)))
          (sym server) (stopped_silent (os.stop p t.world) (spec.stop_stops p rest t.world r))

  module _ (tests : State W P → W × OrPanic ℕ) (s : State W P) (first : s.once ≡ false)
      (dir : s.runtime_dir ≡ "") (err : s.boot_err ≡ none) where
    -- On a machine that meets MachineSpec, `runTests` from the start of a process, with tests that
    -- leave the servers and the temporary directories alone: where it ends with nothing written to
    -- stderr, the servers that run and the temporary directories are those of its start, whether
    -- the tests return or panic, and its result is theirs.
    pub run_tests_silent :
        ((b : State W P) → Kept spec b.world (tests b).0)
        → (run_tests os tests s).0.stderr ≡ s.stderr
        → ((run_tests os tests s).1 ≡ (tests (once_boot os s)).1)
          × (spec.running (run_tests os tests s).0.world ≡ spec.running s.world)
          × (spec.dirs (run_tests os tests s).0.world ≡ spec.dirs s.world)
    unfolding run_tests
    run_tests_silent tests_keep = at (once_boot os s) (once_boot-Booted s first dir err)
      where
        at :
            (b : State W P)
            → Booted spec s b
            → let q = run_booted os tests b.boot_err b in
              q.0.stderr ≡ s.stderr
              → (q.1 ≡ (tests b).1)
                × (spec.running q.0.world ≡ spec.running s.world)
                × (spec.dirs q.0.world ≡ spec.dirs s.world)
        at b (failed e h out r d) silent = absurd (
            append_ne_self b.stderr (error_text e) []
              (sym (ap (λ o. (run_booted os tests o b).0.stderr) h) ∙ silent ∙ sym out))
        at b (up p h out server named r d) silent =
            let (servers, files) = tests_keep b in
            subst
              (λ o.
                let q = run_booted os tests o b in
                q.0.stderr ≡ s.stderr
                → (q.1 ≡ (tests b).1)
                  × (spec.running q.0.world ≡ spec.running s.world)
                  × (spec.dirs q.0.world ≡ spec.dirs s.world))
              (sym h)
              (λ quiet.
                let (stopped, removed) =
                  cleanup_silent (record b { world = (tests b).0 }) p (spec.running s.world)
                    (spec.dirs s.world) named (servers ∙ r) (files ∙ d) server (quiet ∙ sym out) in
                (refl, stopped, removed))
              silent

    -- On a machine that meets MachineSpec, `runTests` from the start of a process in which `boot`
    -- fails returns 1 and writes exactly the error to stderr, and no server is left running; the
    -- runtime directory is left behind where `boot` had made one.
    pub run_tests_failed :
        (e : GoError)
        → (once_boot os s).boot_err ≡ some e
        → let (t, result) = run_tests os tests s in
          (result ≡ inl 1)
          × (t.stderr ≡ s.stderr ++ error_text e ∷ [])
          × (spec.running t.world ≡ spec.running s.world)
          × (spec.dirs t.world ≡ left_dir t.runtime_dir (spec.dirs s.world))
    unfolding run_tests
    run_tests_failed e h =
        subst
          (λ o.
            let (t, result) = run_booted os tests o (once_boot os s) in
            (result ≡ inl 1)
            × (t.stderr ≡ s.stderr ++ error_text e ∷ [])
            × (spec.running t.world ≡ spec.running s.world)
            × (spec.dirs t.world ≡ left_dir t.runtime_dir (spec.dirs s.world)))
          (sym h) (at (once_boot os s) h (once_boot-Booted s first dir err))
      where
        at :
            (b : State W P)
            → b.boot_err ≡ some e
            → Booted spec s b
            → let (t, result) = run_booted os tests (some e) b in
              (result ≡ inl 1)
              × (t.stderr ≡ s.stderr ++ error_text e ∷ [])
              × (spec.running t.world ≡ spec.running s.world)
              × (spec.dirs t.world ≡ left_dir t.runtime_dir (spec.dirs s.world))
        at b h (failed _ _ out r d) = (refl, ap (λ l. l ++ error_text e ∷ []) out, r, d)
        at b h (up _ none_there _ _ _ _ _) = absurd (cc (h, none_there))
