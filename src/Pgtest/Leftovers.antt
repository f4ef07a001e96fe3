-- ===== src/Pgtest/Leftovers.antt =====
-- internal/pgtest/pgtest.go: the servers and the temporary directories that the calls of the
-- package leave.
use goaxon.Prelude.{
  String, false, none, some, List, ◌∷◌, ◌≡◌, refl, sym, ◌∙◌, ◌⊎◌, inl, inr, ◌==◌, string_eq,
  if◌then◌else◌, ℕ, ap,
}
use goaxon.Go.Error.{GoError}
use goaxon.Pgtest.{
  Machine, State, free_port, shared_cache_dir, port_taken, made_dir, cache_in, with_server,
  with_cache, with_dir, with_port, server_at, boot,
}

-- The servers that run and the temporary directories that there are.
abbrev pub Same : {W P : Type 0} → (W → List P) → (W → List String) → W → W → Type 0
Same running dirs w w' = (running w' ≡ running w) × (dirs w' ≡ dirs w)

abbrev pub Made :
    {W P : Type 0} → (W → List P) → (W → List String) → W → W × (String ⊎ GoError) → Type 0
Made running dirs w (w', inl d) =
    ((d == "") ≡ false) × (running w' ≡ running w) × (dirs w' ≡ d ∷ dirs w)
Made running dirs w (w', inr _) = Same running dirs w w'

abbrev pub Started :
    {W P : Type 0} → (W → List P) → (W → List String) → P → W → W × (Unit {0} ⊎ GoError) → Type 0
Started running dirs p w (w', inl _) = (running w' ≡ p ∷ running w) × (dirs w' ≡ dirs w)
Started running dirs p w (w', inr _) = Same running dirs w w'

-- Where a call succeeds, what is left is `rest`, and `other` is as before.
abbrev pub Ended : {W A B : Type 0} → (W → A) → (W → B) → A → W → W × (Unit {0} ⊎ GoError) → Type 0
Ended left other rest w (w', inl _) = (left w' ≡ rest) × (other w' ≡ other w)
Ended left other rest w (w', inr _) = Unit

-- What the packages document of the calls that the program makes.
pub record MachineSpec {W L P : Type 0} (os : Machine W L P) : Type 0 where
  pub running : W → List P
  pub dirs : W → List String
  pub listen_keeps :
      (network address : String) (w : W) → Same running dirs w (os.listen network address w).0
  pub close_keeps : (l : L) (w : W) → Same running dirs w (os.close l w)
  pub home_keeps : (w : W) → Same running dirs w (os.user_home_dir w).0
  pub mkdir_all_keeps :
      (d : String) (mode : ℕ) (w : W) → Same running dirs w (os.mkdir_all d mode w).0
  pub mkdir_temp_makes :
      (d pattern : String) (w : W) → Made running dirs w (os.mkdir_temp d pattern w)
  pub start_starts : (p : P) (w : W) → Started running dirs p w (os.start p w)
  pub stop_stops :
      (p : P) (rest : List P) (w : W)
      → running w ≡ p ∷ rest
      → Ended running dirs rest w (os.stop p w)
  pub remove_all_removes :
      (d : String) (rest : List String) (w : W)
      → dirs w ≡ d ∷ rest
      → Ended dirs running rest w (os.remove_all d w)

-- The directory that `boot` made, if it made one, and the others.
abbrev pub left_dir : String → List String → List String
left_dir d ds = if d == "" then ds else d ∷ ds

module _ {W L P : Type 0} {os : Machine W L P} (spec : MachineSpec os) where
  abbrev pub Kept : W → W → Type 0
  Kept = Same spec.running spec.dirs

  kept : {u v w : W} → Kept u v → Kept v w → Kept u w
  kept (r, d) (r', d') = (r' ∙ r, d' ∙ d)

  free_port_keeps : (w : W) → Kept w (free_port os w).0
  unfolding free_port
  free_port_keeps w = at (os.listen "tcp" "127.0.0.1:0" w) (spec.listen_keeps _ _ w)
    where
      at : (q : W × (L ⊎ GoError)) → Kept w q.0 → Kept w (port_taken os q).0
      at (u, inl l) k = kept k (spec.close_keeps l u)
      at (u, inr e) k = k

  shared_cache_dir_keeps : (w : W) → Kept w (shared_cache_dir os w).0
  unfolding shared_cache_dir
  shared_cache_dir_keeps w = at (os.user_home_dir w) (spec.home_keeps w)
    where
      made :
          (d : String) (u : W) (q : W × (Unit {0} ⊎ GoError))
          → Kept u q.0
          → Kept u (made_dir os d q).0
      made d u (v, inl _) k = k
      made d u (v, inr e) k = k

      at : (q : W × (String ⊎ GoError)) → Kept w q.0 → Kept w (cache_in os q).0
      at (u, inl home) k = kept k (made _ u _ (spec.mkdir_all_keeps _ _ u))
      at (u, inr e) k = k

  -- What `boot` leaves: an error, no server and at most the directory; or no error, the server and the
  -- directory.
  pub data Booted (s b : State W P) : Type 0 where
    failed :
        (e : GoError)
        → b.boot_err ≡ some e
        → b.stderr ≡ s.stderr
        → spec.running b.world ≡ spec.running s.world
        → spec.dirs b.world ≡ left_dir b.runtime_dir (spec.dirs s.world)
        → Booted s b
    up :
        (p : P)
        → b.boot_err ≡ none
        → b.stderr ≡ s.stderr
        → b.pg ≡ some p
        → (b.runtime_dir == "") ≡ false
        → spec.running b.world ≡ p ∷ spec.running s.world
        → spec.dirs b.world ≡ b.runtime_dir ∷ spec.dirs s.world
        → Booted s b

  module _ (s : State W P) (fresh_dir : s.runtime_dir ≡ "") (fresh_err : s.boot_err ≡ none) where
    server-Booted :
        (port : ℕ) (p : P) (dir : String) (w : W) (q : W × (Unit {0} ⊎ GoError))
        → (dir == "") ≡ false
        → spec.running w ≡ spec.running s.world
        → spec.dirs w ≡ dir ∷ spec.dirs s.world
        → Started spec.running spec.dirs p w q
        → Booted s (with_server os port (record s { runtime_dir = dir; pg = some p }) q)
    server-Booted port p dir w (u, inl _) named r d (started, same) =
        up p fresh_err refl refl named (started ∙ ap (λ l. p ∷ l) r) (same ∙ d)
    server-Booted port p dir w (u, inr e) named r d (same_servers, same) =
        failed _ refl refl (same_servers ∙ r) (rw named (same ∙ d))

    cache-Booted :
        (port : ℕ) (dir : String) (w : W) (q : W × (String ⊎ GoError))
        → (dir == "") ≡ false
        → spec.running w ≡ spec.running s.world
        → spec.dirs w ≡ dir ∷ spec.dirs s.world
        → Kept w q.0
        → Booted s (with_cache os port (record s { runtime_dir = dir }) q)
    cache-Booted port dir w (u, inl cache) named r d (r', d') =
        server-Booted port (server_at os port dir cache) dir u _ named (r' ∙ r) (d' ∙ d)
          (spec.start_starts _ u)
    cache-Booted port dir w (u, inr e) named r d (r', d') =
        failed _ refl refl (r' ∙ r) (rw named (d' ∙ d))

    dir-Booted :
        (port : ℕ) (w : W) (q : W × (String ⊎ GoError))
        → Kept s.world w
        → Made spec.running spec.dirs w q
        → Booted s (with_dir os port s q)
    dir-Booted port w (u, inl dir) (r, d) (named, r', d') =
        cache-Booted port dir u _ named (r' ∙ r) (d' ∙ ap (λ l. dir ∷ l) d)
          (shared_cache_dir_keeps u)
    dir-Booted port w (u, inr e) (r, d) (r', d') = failed _ refl refl (r' ∙ r) (d' ∙ d)

    port-Booted : (q : W × (ℕ ⊎ GoError)) → Kept s.world q.0 → Booted s (with_port os s q)
    port-Booted (u, inl port) k = dir-Booted port u _ k (spec.mkdir_temp_makes _ _ u)
    port-Booted (u, inr e) (r, d) =
        failed _ refl refl r (d ∙ ap (λ n. left_dir n (spec.dirs s.world)) (sym fresh_dir))

    pub boot-Booted : Booted s (boot os s)
    unfolding boot
    boot-Booted = port-Booted _ (free_port_keeps s.world)
