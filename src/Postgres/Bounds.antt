-- ===== src/Postgres/Bounds.antt =====
-- store/postgres/postgres.go: the `uint64` sequences of the envelopes in a column of type bigint.
use goaxon.Prelude.{
  ℕ, String, ◌<◌, ◌≤◌, List, [], ◌∷◌, ◌≡◌, refl, ◌⊎◌, inl, inr, true, false, arith,
}
use goaxon.Go.Word.{i64_bound, u64_mod, to_i64, from_i64, from_i64-to_i64}
use goaxon.Event.{Event, Envelope}
use goaxon.Postgres.{row_of}
use goaxon.Postgres.Database.{EventRow}
use goaxon.Postgres.Tables.{int_leb, by_sequence, or_zero, max_sequence}

int_leb-to_i64 :
    (a b : ℕ)
    → a < b
    → b < u64_mod
    → ((int_leb (to_i64 a) (to_i64 b) ≡ true) × ((b < i64_bound) ⊎ (i64_bound ≤ a)))
      ⊎ ((int_leb (to_i64 a) (to_i64 b) ≡ false) × (a < i64_bound) × (i64_bound ≤ b))
unfolding to_i64
int_leb-to_i64 a b h small = ground arith

module _ {E : Type 0} (ev : Event E) (env env' : Envelope E)
    (payload metadata payload' metadata' : String) where
  abbrev pub rows : List EventRow
  rows = row_of ev env payload metadata ∷ row_of ev env' payload' metadata' ∷ []

  abbrev pub swapped : List EventRow
  swapped = row_of ev env' payload' metadata' ∷ row_of ev env payload metadata ∷ []

  -- Of the rows that `insertEvent` makes of two envelopes, the sequence of the first below that of
  -- the second and both below 2^64: where both are below 2^63 or neither is, the order by
  -- `sequence` is theirs and the head, MAX(sequence) read as a uint64, is the second's sequence;
  -- where only the second reaches 2^63, the order is reversed and the head is the first's
  -- sequence.
  pub row_of_order :
      env.sequence < env'.sequence
      → env'.sequence < u64_mod
      → (((env'.sequence < i64_bound) ⊎ (i64_bound ≤ env.sequence))
          × (by_sequence rows ≡ rows)
          × (from_i64 (or_zero (max_sequence rows)) ≡ env'.sequence))
        ⊎ ((env.sequence < i64_bound)
            × (i64_bound ≤ env'.sequence)
            × (by_sequence rows ≡ swapped)
            × (from_i64 (or_zero (max_sequence rows)) ≡ env.sequence))
  row_of_order h small = elim (int_leb-to_i64 env.sequence env'.sequence h small) [
    | inl same ↦ inl (same.1, rw same.0 refl, rw same.0 (from_i64-to_i64 env'.sequence small))
    | inr apart ↦
        inr (
          apart.1,
          apart.2,
          rw apart.0 refl,
          rw apart.0 (from_i64-to_i64 env.sequence (omega arith)),
        )
  ]
