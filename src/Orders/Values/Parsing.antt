-- ===== src/Orders/Values/Parsing.antt =====
-- examples/orders/domain/orders.go: `ParseCustomerName` and `ParseNotes`.
use goaxon.Prelude.{
  arith, ◌≤◌, ◌<◌, String, true, false, none, some, ◌≡◌, refl, ap, ◌∙◌, ◌==◌, ◌⊎◌, inl, inr,
  string_eq, if◌then◌else◌, Bool-cases,
}
use goaxon.Go.Error.{GoError, text}
use goaxon.Go.Text.{
  trim_space, starts_clean, ends_clean, trim_space-starts_clean, trim_space-ends_clean,
  trim_space-clean,
}
use Prim.Native.String.{len}
use goaxon.Orders.Values.{Option, ltb, Bool, Notes, parse_customer_name, parse_notes}

-- What holds of an accepted text.
pub record IsTrimmed (s : String) : Type 0 where
  pub starts : starts_clean s ≡ true
  pub ends : ends_clean s ≡ true
  pub not_empty : (s == "") ≡ false

trimmed : (raw : String) → (trim_space raw == "") ≡ false → IsTrimmed (trim_space raw)
trimmed raw ne = record {
  starts = trim_space-starts_clean raw;
  ends = trim_space-ends_clean raw;
  not_empty = ne;
}

-- A text that is not empty and has no space at either end is accepted as it is.
pub parse_customer_name-trimmed : (s : String) → IsTrimmed s → parse_customer_name s ≡ (s, none)
unfolding parse_customer_name
parse_customer_name-trimmed s t =
    ap (λ r. if r == "" then ("", some (text "must not be empty")) else (r, none))
      (trim_space-clean s t.starts t.ends)
    ∙ ap (λ b. if b then ("", some (text "must not be empty")) else (s, none)) t.not_empty

-- `ParseCustomerName` rejects a text that trims to nothing, and of any other it returns the trimmed
-- text, which has no space at either end and which the parser returns unchanged.
pub parse_customer_name_lem :
    (raw : String)
    → ((trim_space raw ≡ "") × (parse_customer_name raw ≡ ("", some (text "must not be empty"))))
      ⊎ (IsTrimmed (trim_space raw)
          × (parse_customer_name raw ≡ (trim_space raw, none))
          × (parse_customer_name (trim_space raw) ≡ (trim_space raw, none)))
unfolding parse_customer_name
parse_customer_name_lem raw = elim (Bool-cases (trim_space raw == "")) [
  | inl empty ↦ inl ((string_eq.beq_iff _ _).0 empty, rw empty refl)
  | inr ne ↦
      inr
        (trimmed raw ne, rw ne refl, parse_customer_name-trimmed (trim_space raw) (trimmed raw ne))
]

-- `ParseNotes` after its two tests.
abbrev note_of : String → Bool → Bool → Notes × Option GoError
note_of s true long = ("", some (text "must not be empty"))
note_of s false true = ("", some (text "must be at most 500 characters"))
note_of s false false = (s, none)

parse_notes-cases :
    (raw : String)
    → parse_notes raw
      ≡ note_of (trim_space raw) (trim_space raw == "") (ltb 500 (len (trim_space raw)))
unfolding parse_notes
parse_notes-cases raw = at (trim_space raw == "") (ltb 500 (len (trim_space raw)))
  where
    at :
        (b long : Bool)
        → (if b
            then ("", some (text "must not be empty"))
            else if long
            then ("", some (text "must be at most 500 characters"))
            else (trim_space raw, none))
          ≡ note_of (trim_space raw) b long
    at true long = refl
    at false true = refl
    at false false = refl

-- `ParseNotes` rejects a text that trims to nothing, as empty, and one that trims to more than 500
-- bytes, as too long; of any other it returns the trimmed text, which has no space at either end
-- and which the parser returns unchanged.
pub parse_notes_lem :
    (raw : String)
    → ((trim_space raw ≡ "") × (parse_notes raw ≡ ("", some (text "must not be empty"))))
      ⊎ ((500 < len (trim_space raw))
          × (parse_notes raw ≡ ("", some (text "must be at most 500 characters"))))
      ⊎ (IsTrimmed (trim_space raw)
          × (len (trim_space raw) ≤ 500)
          × (parse_notes raw ≡ (trim_space raw, none))
          × (parse_notes (trim_space raw) ≡ (trim_space raw, none)))
parse_notes_lem raw =
    at (Bool-cases (trim_space raw == "")) (Bool-cases (ltb 500 (len (trim_space raw))))
  where
    s : String
    s = trim_space raw

    given :
        (b long : Bool)
        → (s == "") ≡ b
        → ltb 500 (len s) ≡ long
        → parse_notes raw ≡ note_of s b long
    given b long e l =
        parse_notes-cases raw ∙ ap (λ c. note_of s c (ltb 500 (len s))) e ∙ ap (note_of s b) l

    again : (s == "") ≡ false → ltb 500 (len s) ≡ false → parse_notes s ≡ (s, none)
    again e l =
        parse_notes-cases s
        ∙ ap (λ r. note_of r (r == "") (ltb 500 (len r)))
            (trim_space-clean s (trim_space-starts_clean raw) (trim_space-ends_clean raw))
        ∙ ap (λ c. note_of s c (ltb 500 (len s))) e
        ∙ ap (note_of s false) l

    at :
        ((s == "") ≡ true) ⊎ ((s == "") ≡ false)
        → (ltb 500 (len s) ≡ true) ⊎ (ltb 500 (len s) ≡ false)
        → ((s ≡ "") × (parse_notes raw ≡ ("", some (text "must not be empty"))))
          ⊎ ((500 < len s) × (parse_notes raw ≡ ("", some (text "must be at most 500 characters"))))
          ⊎ (IsTrimmed s
              × (len s ≤ 500)
              × (parse_notes raw ≡ (s, none))
              × (parse_notes s ≡ (s, none)))
    at (inl empty) _ = inl (
      (string_eq.beq_iff _ _).0 empty,
      parse_notes-cases raw ∙ ap (λ c. note_of s c (ltb 500 (len s))) empty,
    )
    at (inr e) (inl l) = inr (inl (ground (arith, l), given false true e l))
    at (inr e) (inr l) =
        inr (inr (trimmed raw e, ground (arith, l), given false false e l, again e l))
