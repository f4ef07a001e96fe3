-- ===== src/Maybe/Json.antt =====
-- types/maybe/maybe.go: `MarshalJSON` and `UnmarshalJSON`. The JSON of a `T` is package
-- encoding/json's for that type, an argument here.
use goaxon.Prelude.{
  subst, String, Bool, true, false, Option, none, some, ◌≡◌, ◌≢◌, refl, ap, sym, ◌∙◌, ◌==◌,
  string_eq, if◌then◌else◌,
}
use goaxon.Go.Error.{text}
use goaxon.Go.Outcome.{ok_injective, Outcome, ok, err, panics, Done}
use goaxon.Go.Text.{trim_left, trim_right, is_space, trim_space}
use goaxon.Maybe
use goaxon.Maybe.{not, Zero, Maybe}

-- `json.Marshal` and `json.Unmarshal` at one type.
pub record JsonCodec (T : Type 0) : Type 0 where
  pub marshal : T → Outcome String
  pub unmarshal : String → Outcome T

abbrev is_null : String → Bool
is_null bytes = trim_space bytes == "null"

null_is_null : is_null "null" ≡ true
unfolding trim_space trim_left trim_right is_space
null_is_null = refl

module _ {T : Type 0} ⦃z : Zero T⦄ (json : JsonCodec T) where
  -- `MarshalJSON`
  unfoldable pub marshal_json : Maybe T → Outcome String
  marshal_json m = if not m.present then ok "null" else json.marshal m.value

  abbrev set_value : Maybe T → Outcome T → Maybe T × Done
  set_value m (ok v) = (Maybe.some v, ok tt)
  set_value m (err e) = (m, err e)
  set_value m (panics s) = (m, panics s)

  -- `UnmarshalJSON`, on the bytes or on a nil slice: the receiver after it, and the error.
  unfoldable pub unmarshal_json : Option String → Maybe T → Maybe T × Done
  unmarshal_json none m = (m, err (text "maybe: nil input"))
  unmarshal_json (some bytes) m =
      if is_null bytes then (Maybe.none, ok tt) else set_value m (json.unmarshal bytes)

  -- What the round trip needs of the JSON of `T`: a value's text decodes to the value, and no
  -- value's text is `null`.
  pub record RoundTrips : Type 0 where
    pub decodes : (v : T) (bytes : String) → json.marshal v ≡ ok bytes → json.unmarshal bytes ≡ ok v
    pub not_null : (v : T) (bytes : String) → json.marshal v ≡ ok bytes → is_null bytes ≡ false

  read_null :
      (n : Maybe T) (bytes : String)
      → is_null bytes ≡ true
      → unmarshal_json (some bytes) n ≡ (Maybe.none, ok tt)
  unfolding unmarshal_json
  read_null n bytes e =
      ap (λ b. if b then (Maybe.none, ok tt) else set_value n (json.unmarshal bytes)) e

  read_value :
      (v : T) (n : Maybe T) (bytes : String)
      → is_null bytes ≡ false
      → json.unmarshal bytes ≡ ok v
      → unmarshal_json (some bytes) n ≡ (Maybe.some v, ok tt)
  unfolding unmarshal_json
  read_value v n bytes e d =
      ap (λ b. if b then (Maybe.none, ok tt) else set_value n (json.unmarshal bytes)) e
      ∙ ap (set_value n) d

  -- Where the JSON of the value type round trips and no value is written as null, what
  -- `MarshalJSON` gives for a `Maybe` whose absent value is the zero value, `UnmarshalJSON` into
  -- any receiver reads back.
  pub unmarshal-marshal :
      RoundTrips
      → (m n : Maybe T) (bytes : String) → (m.present ≡ false → m.value ≡ z.zero_value)
      → marshal_json m ≡ ok bytes
      → unmarshal_json (some bytes) n ≡ (m, ok tt)
  unfolding marshal_json unmarshal_json
  unmarshal-marshal rt m n bytes canonical e = at m.value m.present canonical e
    where
      at :
          (v : T) (b : Bool)
          → (b ≡ false → v ≡ z.zero_value)
          → marshal_json (record { value = v; present = b }) ≡ ok bytes
          → unmarshal_json (some bytes) n ≡ (record { value = v; present = b }, ok tt)
      at v true c p = read_value v n bytes (rt.not_null v bytes p) (rt.decodes v bytes p)
      at v false c p =
          subst (λ s. unmarshal_json (some s) n ≡ (record { value = v; present = false }, ok tt))
            (ok_injective p)
            (read_null n "null" null_is_null ∙ λ i.
              (record { value = sym (c refl) i; present = false }, ok tt))

abbrev decoded : {T : Type 0} → Maybe T × Done → Outcome (Maybe T)
decoded (m, ok _) = ok m
decoded (m, err e) = err e
decoded (m, panics s) = panics s

-- A `Maybe` as a Go type of its own, decoded into its zero value.
abbrev pub maybe_codec : {T : Type 0} → ⦃z : Zero T⦄ → JsonCodec T → JsonCodec (Maybe T)
maybe_codec json = record {
  marshal = marshal_json json;
  unmarshal = λ bytes. decoded (unmarshal_json json (some bytes) Maybe.none);
}

instance abbrev pub maybe_zero : {T : Type 0} ⦃z : Zero T⦄ → Zero (Maybe T)
maybe_zero = record { zero_value = Maybe.none }

-- A present value whose own text is `null`, such as an absent `Maybe` inside a `Maybe`, is written
-- as `null` and comes back as absent, into any receiver: the two directions are no inverses there.
pub present_null_lost :
    {T : Type 0} ⦃z : Zero T⦄ (json : JsonCodec T) (v : T) (n : Maybe T)
    → json.marshal v ≡ ok "null"
    → ((bytes : String) × (marshal_json json (Maybe.some v) ≡ ok bytes)
        × (unmarshal_json json (some bytes) n ≡ (Maybe.none, ok tt)))
      × (◌≢◌ {A = Maybe T} (Maybe.some v) Maybe.none)
unfolding marshal_json
present_null_lost json v n e =
    (("null", e, read_null json n "null" null_is_null), (λ p. cc (ap (λ m. m.present) p)))
