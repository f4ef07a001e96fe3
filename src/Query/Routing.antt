-- ===== src/Query/Routing.antt =====
-- query/query.go: `Register` and `Ask` together.
use goaxon.Prelude.{
  String, Bool, true, false, Option, none, some, ◌≡◌, ◌≢◌, refl, ap, sym, ◌∙◌, if◌then◌else◌, ◌==◌,
  string_eq, ◌⊎◌, inl, inr,
}
use goaxon.Go.Outcome.{ok_injective, ok, panics}
use goaxon.Go.Map.{lookup, insert, lookup-insert}
use goaxon.Go.Types.{Universe, Handler, Boxed, assert_same}
use goaxon.Event.{Call}
use goaxon.Query.{Bus, register, dispatch, call, add, ask}

not_true : (b : Bool) → (b ≡ true → ⊥) → b ≡ false
not_true true h = absurd (h refl)
not_true false h = refl

module _ (u : Universe) {W : Type 0} where
  lookup-register :
      (c r : u.Code) (h : Handler u W c r) (bus bus' : Bus u W) (name : String)
      → register u c r h bus ≡ ok bus'
      → lookup name bus' ≡ (
          if u.type_name c (u.zero_value c) == name
          then some (record { request = c; result = r; handler = h })
          else lookup name bus)
  unfolding register
  lookup-register c r h bus bus' name e =
      ap (lookup name) (sym (inserted (lookup own bus) e)) ∙ lookup-insert own name raw bus
    where
      raw : Boxed u W
      raw = record { request = c; result = r; handler = h }

      own : String
      own = u.type_name c (u.zero_value c)

      inserted :
          (o : Option (Boxed u W)) → add u own raw bus o ≡ ok bus' → insert own raw bus ≡ bus'
      inserted none p = ok_injective p
      inserted (some x) p = cc p

  -- After a registration on the query bus that did not panic, a query under the registered name,
  -- asked at the registered types, goes to the new handler, and any other goes where it went
  -- before.
  pub ask-register :
      (c r : u.Code) (h : Handler u W c r) (bus bus' : Bus u W)
      → register u c r h bus ≡ ok bus'
      → ((ctx : Call) (q : u.El c) (w : W)
          → u.type_name c (u.zero_value c) ≡ u.type_name c q
          → ask u c r bus' ctx q w ≡ h ctx q w)
        × ((d s : u.Code) (ctx : Call) (q : u.El d) (w : W)
            → u.type_name c (u.zero_value c) ≢ u.type_name d q
            → ask u d s bus' ctx q w ≡ ask u d s bus ctx q w)
  unfolding ask
  ask-register c r h bus bus' e = (
    (λ ctx q w same. hit ctx q w ((string_eq.beq_iff _ _).1 same)),
    (λ d s ctx q w differs. miss d s ctx q w (λ p. differs ((string_eq.beq_iff _ _).0 p))),
  )
    where
      raw : Boxed u W
      raw = record { request = c; result = r; handler = h }

      name : String
      name = u.type_name c (u.zero_value c)

      hit :
          (ctx : Call) (q : u.El c) (w : W)
          → (name == u.type_name c q) ≡ true
          → ask u c r bus' ctx q w ≡ h ctx q w
      hit ctx q w same =
          ap (λ o. dispatch u c r (u.type_name c q) o ctx q w)
            (lookup-register c r h bus bus' (u.type_name c q) e
              ∙ ap (λ b. if b then some raw else lookup (u.type_name c q) bus) same)
          ∙ ap (λ o. call u c r (u.type_name c q) raw o ctx q w) (assert_same u W c r h)

      miss :
          (d s : u.Code) (ctx : Call) (q : u.El d) (w : W)
          → ((name == u.type_name d q) ≡ true → ⊥)
          → ask u d s bus' ctx q w ≡ ask u d s bus ctx q w
      miss d s ctx q w differs =
          ap (λ o. dispatch u d s (u.type_name d q) o ctx q w)
            (lookup-register c r h bus bus' (u.type_name d q) e
              ∙ ap (λ b. if b then some raw else lookup (u.type_name d q) bus)
                  (not_true (name == u.type_name d q) differs))

  -- Registration panics exactly if the name is taken.
  pub register_query_once :
      (c r : u.Code) (h : Handler u W c r) (bus : Bus u W)
      → let name = u.type_name c (u.zero_value c) in
        ((lookup name bus ≡ none)
          × (register u c r h bus
              ≡ ok (insert name (record { request = c; result = r; handler = h }) bus)))
        ⊎ (((m : String) × (register u c r h bus ≡ panics m)) × (lookup name bus ≢ none))
  unfolding register
  register_query_once c r h bus = go (lookup (u.type_name c (u.zero_value c)) bus)
    where
      raw : Boxed u W
      raw = record { request = c; result = r; handler = h }

      name : String
      name = u.type_name c (u.zero_value c)

      go :
          (o : Option (Boxed u W))
          → ((o ≡ none) × (add u name raw bus o ≡ ok (insert name raw bus)))
            ⊎ (((m : String) × (add u name raw bus o ≡ panics m)) × (o ≢ none))
      go none = inl (refl, refl)
      go (some x) = inr ((_, refl), (λ p. cc p))
