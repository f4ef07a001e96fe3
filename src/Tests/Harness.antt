-- ===== src/Tests/Harness.antt =====
-- The test helper on an aggregate that adds up numbers.
use goaxon.Prelude.{ℕ, ◌+◌, none, some, Option, [], ◌∷◌, ◌≡◌, ◌↔◌, refl, nat_beq, nat_beq_iff}
use goaxon.Go.Error.{GoError}
use goaxon.Event.{Uuid}
use goaxon.Aggregate.{Base, BaseAccessor, Root, RootLaws, zero_base, raise}
use goaxon.Aggregate.Replay.{apply_all}
use goaxon.Aggregate.Testing.{passed, new_test, given, when_run, Reader, then_events}
use goaxon.Aggregate.Testing.Cycle.{cycle-raised}

pub record Tally : Type 0 where
  pub base : Base ℕ
  pub total : ℕ

abbrev tally_base : BaseAccessor Tally ℕ
tally_base = record { get_base = λ t. t.base; set_base = λ b t. record t { base = b } }

abbrev tally_root : Root Tally ℕ
tally_root = record {
  aggregate_id = λ t. t.base.id;
  aggregate_type = λ t. "Tally";
  apply = λ t e. record t { total = t.total + e };
  type_text = "*tally.Tally";
  base = some tally_base;
}

tally_root-RootLaws : RootLaws tally_root tally_base
tally_root-RootLaws = record {
  embeds = refl;
  get_set = λ b a. refl;
  set_set = λ b c a. refl;
  set_get = λ a. refl;
  get_apply = λ a e. refl;
  apply_set = λ b a e. refl;
  id_base = λ a. refl;
  type_fixed = λ a b. refl;
}

abbrev new_tally : Uuid → Tally
new_tally id = record { base = record zero_base { id = id }; total = 0 }

abbrev reader : Reader Tally ℕ
reader = some (λ t. t.base.uncommitted)

-- Raises the total once more.
abbrev double : Tally → Tally × Option GoError
double t = (raise tally_root tally_base t t.total, none)

cycle-raised_example :
    (then_events tally_root reader nat_beq
        (when_run (given tally_root (new_test new_tally 7) (2 ∷ 3 ∷ [])) double)
        (5 ∷ [])
      ≡ passed)
    ↔ ((◌≡◌ {A = Option GoError} none none)
        × ((apply_all tally_root tally_base (new_tally 7) (2 ∷ 3 ∷ [])).total ∷ [] ≡ 5 ∷ []))
cycle-raised_example =
    cycle-raised tally_root reader nat_beq nat_beq_iff tally_base tally_root-RootLaws refl new_tally
      7 refl (2 ∷ 3 ∷ []) (5 ∷ []) double (λ t. t.total ∷ []) (λ t. refl)
