-- ===== src/Event/Registry.antt =====
-- event/registry.go: the decoders of the event types, by name.
pub mod Routing
use Prim.Native.String.{◌++◌}
use goaxon.Prelude.{String, Option, none, some, [], string_eq}
use goaxon.Go.Error.{text, wrapped}
use goaxon.Go.Outcome.{Outcome, ok, err, panics, wrap_err}
use goaxon.Go.Map.{Map, lookup, insert}
use goaxon.Go.Text.{quoted}
use goaxon.Event.{Event}

-- What a text decodes to: `json.Unmarshal` into a `T`, and the boxing of the `T` as an event.
abbrev pub Decoder : Type 0 → Type 0
Decoder E = String → Outcome E

pub record Registry (E : Type 0) : Type 0 where
  pub unmarshalers : Map String (Decoder E)

abbrev pub new_registry : {E : Type 0} → Registry E
new_registry = record { unmarshalers = [] }

-- The function that `Register` stores: an error of the decoder is wrapped with the type's name.
unfoldable pub unmarshaler : {E : Type 0} → String → Decoder E → Decoder E
unmarshaler name decode bytes =
    wrap_err (λ e. wrapped ("event: unmarshal " ++ name ++ ": ") e "") (decode bytes)

-- What `Register` does with what stands under the name.
abbrev pub enter :
    {E : Type 0} → String → Decoder E → Registry E → Option (Decoder E) → Outcome (Registry E)
enter name decode r none =
    ok (record r { unmarshalers = insert name (unmarshaler name decode) r.unmarshalers })
enter name decode r (some _) = panics ("event: type " ++ quoted name ++ " already registered")

-- `Register[T]`: `zero` is the zero value of T as an event, `decode` its JSON decoder.
unfoldable pub register : {E : Type 0} → Event E → E → Decoder E → Registry E → Outcome (Registry E)
register ev zero decode r =
    let name = ev.event_type zero in enter name decode r (lookup name r.unmarshalers)

abbrev pub decode_with : {E : Type 0} → String → String → Option (Decoder E) → Outcome E
decode_with event_type bytes none =
    err (text ("event: type " ++ quoted event_type ++ " not registered"))
decode_with event_type bytes (some decode) = decode bytes

-- `Unmarshal`
unfoldable pub unmarshal : {E : Type 0} → Registry E → String → String → Outcome E
unmarshal r event_type bytes = decode_with event_type bytes (lookup event_type r.unmarshalers)
