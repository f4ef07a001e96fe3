-- ===== src/Event/Registry/Routing.antt =====
-- event/registry.go: `Register` and `Unmarshal` together.
use goaxon.Prelude.{
  String, Bool, true, false, Option, none, some, ◌≡◌, refl, ap, sym, ◌∙◌, ◌==◌, string_eq,
  if◌then◌else◌,
}
use goaxon.Go.Outcome.{ok, ok_injective}
use goaxon.Go.Map.{lookup, insert, lookup-insert}
use goaxon.Event.{Event}
use goaxon.Event.Registry.{Decoder, Registry, register, unmarshaler, unmarshal, enter, decode_with}

module _ {E : Type 0} (ev : Event E) (zero : E) (decode : Decoder E) (r r' : Registry E) where
  entered :
      (o : Option (Decoder E))
      → enter (ev.event_type zero) decode r o ≡ ok r'
      → insert (ev.event_type zero) (unmarshaler (ev.event_type zero) decode) r.unmarshalers
        ≡ r'.unmarshalers
  entered none p = ap (λ x. x.unmarshalers) (ok_injective p)
  entered (some d) p = cc p

  -- After a registration of an event type that did not panic, the texts of the registered type are
  -- decoded by its decoder, with the decoder's error wrapped, and the texts of every other type as
  -- before.
  pub unmarshal-register :
      register ev zero decode r ≡ ok r'
      → (t bytes : String)
      → unmarshal r' t bytes ≡ (
          if ev.event_type zero == t
          then unmarshaler (ev.event_type zero) decode bytes
          else unmarshal r t bytes)
  unfolding register unmarshal
  unmarshal-register e t bytes =
      ap (λ m. decode_with t bytes (lookup t m))
        (sym (entered (lookup (ev.event_type zero) r.unmarshalers) e))
      ∙ ap (decode_with t bytes) (
          lookup-insert (ev.event_type zero) t (unmarshaler (ev.event_type zero) decode)
            r.unmarshalers)
      ∙ push (ev.event_type zero == t)
    where
      push :
          (b : Bool)
          → decode_with t bytes (
              if b then some (unmarshaler (ev.event_type zero) decode) else lookup t r.unmarshalers)
            ≡ (if b
                then unmarshaler (ev.event_type zero) decode bytes
                else decode_with t bytes (lookup t r.unmarshalers))
      push true = refl
      push false = refl
