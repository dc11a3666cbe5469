-- ===== src/Dogfood/Accepted.antt =====
-- The event that is built is one that `ValidateEvent` accepts.
use custd_sdk_go.Base.{
  Option, Text, [], arith, codes, inl, none, ok, refl, some, ℕ, ◌≡◌, ◌≢◌, is_empty,
  is_empty_complete,
}
use custd_sdk_go.Event.{EventEnvelope, validate_event, collect_missing_required_fields, entries}
use custd_sdk_go.Event.Accepts.{validate_event_iff}
use custd_sdk_go.Client.{draw, fill_envelope_defaults}
use custd_sdk_go.Dogfood.{
  Fields, DogfoodEventInput, dogfood_payload, missing_dogfood, validate_dogfood_input,
  dogfood_envelope, build_dogfood_event, new_dogfood_event,
}

-- What an input must hold.
abbrev pub IsComplete : DogfoodEventInput → Type 0
IsComplete input =
    (input.event_type_slug ≢ [])
    × (input.schema_version ≢ [])
    × (input.company_slug ≢ [])
    × (input.source_system ≢ [])
    × (input.source_company ≢ [])
    × (input.environment ≢ [])

complete_passes :
    (input : DogfoodEventInput) → IsComplete input → validate_dogfood_input input ≡ none
unfolding validate_dogfood_input missing_dogfood collect_missing_required_fields
complete_passes input (slug, schema, company, system, source, environment) =
    rw
      (
        validate_dogfood_input,
        missing_dogfood,
        collect_missing_required_fields,
        is_empty_complete _ slug,
        is_empty_complete _ schema,
        is_empty_complete _ company,
        is_empty_complete _ system,
        is_empty_complete _ source,
        is_empty_complete _ environment,
      )
      refl

module _ {W : Type 0} (lower_rune : ℕ → ℕ) (marshal : Fields → Option Text) (now : Text)
    (uuid : W → Text × W) where
  -- From a complete input whose payload marshals, on a clock and a source of identifiers that give
  -- no empty text, an event is built, and it is one that `ValidateEvent` accepts.
  pub new_dogfood_event-validate_event :
      (input : DogfoodEventInput) (w : W) (payload : Text)
      → IsComplete input
      → marshal (dogfood_payload lower_rune input) ≡ some payload
      → now ≢ []
      → ((w : W) → (uuid w).0 ≢ [])
      → (event : EventEnvelope) × ((new_dogfood_event lower_rune marshal now uuid (some input) w).0
          ≡ ok event)
        × (validate_event event ≡ none)
  unfolding new_dogfood_event build_dogfood_event fill_envelope_defaults draw dogfood_envelope
      entries codes is_empty
  new_dogfood_event-validate_event input w payload complete marshalled timed fresh = (
    (fill_envelope_defaults uuid (dogfood_envelope now input payload) w).0,
    rw (complete_passes input complete, new_dogfood_event, marshalled, build_dogfood_event) refl,
    (validate_event_iff _).1 (record {
      event_uuid = fresh w;
      event_type_slug = complete.0;
      schema_version = complete.1;
      timestamp = timed;
      session_id = fresh (draw uuid [] w).1;
      anonymous_id = fresh (draw uuid [] (draw uuid [] w).1).1;
      company_slug = complete.2;
      payload = λ e. absurd (ground arith);
      device = (_, refl, λ e. absurd (ground arith));
      environment = inl refl;
      label_count = omega arith;
      labels = tt;
    }),
  )
