-- ===== src/Aggregate.antt =====
-- aggregate/aggregate.go: `Base` and the interfaces around it. An aggregate is a pointer to a
-- struct with an embedded `Base`; a method that mutates it returns the new value, and a change of
-- the base is a change of the aggregate through `BaseAccessor`.
pub mod Versions
pub mod Replay
pub mod Saving
pub mod Sequences
pub mod Restore
pub mod Effect
pub mod Repository
pub mod Testing
use goaxon.Prelude.{
  ℕ, String, Option, none, some, List, [], ◌∷◌, ◌++◌, ◌+◌, ◌≡◌, nat_beq, if◌then◌else◌,
}
use goaxon.Go.Error.{text}
use goaxon.Go.Outcome.{Outcome, ok, err, Exec}
use goaxon.Go.Word.{u64}
use goaxon.Event.{Uuid, nil_uuid}

pub record Base (E : Type 0) : Type 0 where
  pub id : Uuid
  pub current_version : ℕ
  pub committed_version : ℕ
  pub uncommitted : List E

-- `Base{}`
abbrev pub zero_base : {E : Type 0} → Base E
zero_base = record { id = nil_uuid; current_version = 0; committed_version = 0; uncommitted = [] }

-- `SetID`
unfoldable pub set_id : {E : Type 0} → Uuid → Exec (Base E) Unit
set_id id b =
    if nat_beq b.id nil_uuid
    then if nat_beq id nil_uuid
      then (b, err (text "aggregate: ID cannot be the zero UUID"))
      else (record b { id = id }, ok tt)
    else (b, err (text "aggregate: ID already set"))

-- `Version`
abbrev pub version : {E : Type 0} → Base E → ℕ
version b = b.current_version

-- The interface `baseAccessor`, which an aggregate meets by embedding `*Base`.
pub record BaseAccessor (A E : Type 0) : Type 0 where
  pub get_base : A → Base E
  pub set_base : Base E → A → A

-- The interface `Root`, with `%T` of the type and the answer of the assertion to `baseAccessor`.
pub record Root (A E : Type 0) : Type 0 where
  pub aggregate_id : A → Uuid
  pub aggregate_type : A → String
  pub apply : A → E → A
  pub type_text : String
  pub base : Option (BaseAccessor A E)

-- What `Raise` does to the base after `Apply`.
abbrev pub queue : {E : Type 0} → E → Base E → Base E
queue e b = record b {
  current_version = u64 (b.current_version + 1);
  uncommitted = b.uncommitted ++ e ∷ [];
}

-- `Raise`: the receiver is the base of `self`.
unfoldable pub raise : {A E : Type 0} → Root A E → BaseAccessor A E → A → E → A
raise root acc self e =
    let self' = root.apply self e in acc.set_base (queue e (acc.get_base self')) self'

-- `markCommitted`
abbrev pub mark_committed : {E : Type 0} → Base E → Base E
mark_committed b = record b { committed_version = b.current_version; uncommitted = [] }

-- What `rehydrate` does to the base after `Apply`.
abbrev pub advance : {E : Type 0} → Base E → Base E
advance b = record b {
  current_version = u64 (b.current_version + 1);
  committed_version = u64 (b.committed_version + 1);
}

-- `rehydrate`
unfoldable pub rehydrate : {A E : Type 0} → Root A E → BaseAccessor A E → A → E → A
rehydrate root acc self e =
    let self' = root.apply self e in acc.set_base (advance (acc.get_base self')) self'

-- What an aggregate type keeps to: its base is one field among others, `Apply` neither reads nor
-- writes that field, and its identifier is the base's.
pub record RootLaws {A E : Type 0} (root : Root A E) (acc : BaseAccessor A E) : Type 0 where
  pub embeds : root.base ≡ some acc
  pub get_set : (b : Base E) (a : A) → acc.get_base (acc.set_base b a) ≡ b
  pub set_set : (b c : Base E) (a : A) → acc.set_base b (acc.set_base c a) ≡ acc.set_base b a
  pub set_get : (a : A) → acc.set_base (acc.get_base a) a ≡ a
  pub get_apply : (a : A) (e : E) → acc.get_base (root.apply a e) ≡ acc.get_base a
  pub apply_set :
      (b : Base E) (a : A) (e : E)
      → root.apply (acc.set_base b a) e ≡ acc.set_base b (root.apply a e)
  pub id_base : (a : A) → root.aggregate_id a ≡ (acc.get_base a).id
  pub type_fixed : (a b : A) → root.aggregate_type a ≡ root.aggregate_type b
