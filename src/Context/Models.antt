-- ===== src/Context/Models.antt =====
-- context/models.py: what a context provider answers, what it is asked, and the context of an agent. Times
-- are instants: the field validators have run `_utc` on them. The SHA-256 of a request and of a context
-- are the parameters `request_identity` and `context_identity`.
use the_council.Prelude.{
  ℕ, Bool, true, false, not, ◌&&◌, ◌||◌, Option, none, some, List, [], ◌∷◌, String, ◌==◌, ltb, eqb,
  any,
}
use the_council.Prelude.Int.{ℤ}
use the_council.Floats.{Float}
use the_council.Dict.{Dict}
use the_council.Result.{
  Result, ok, ◌>>=◌, ◌>>◌, guard, refuse, provenance_period, period_order, publication_order,
  ingestion_order, provenance_identity_required, price_history_datum, datum_identity,
  capabilities_overlap, price_history_required, context_clock, unrequested_missing,
  unrequested_capability, missing_mismatch, evidence_unavailable, evidence_ingested_late,
  context_identities, context_id_mismatch, non_finite_json, non_json,
}
use the_council.Schemas.Market.{MarketSnapshot, is_some, same}
use the_council.Context.Capabilities.{
  ContextCapability, price_history, is_capability, Capabilities, only, union, meet, minus, is_none,
  same_capabilities,
}

-- A value that a provider hands over; `other` is one that JSON has no form for.
mutual
  pub data Json (F : Type 0) : Type 0 where
    null : Json F
    bool : Bool → Json F
    int : ℤ → Json F
    float : F → Json F
    text : String → Json F
    array : Items F → Json F
    object : Fields F → Json F
    other : Json F

  pub data Items (F : Type 0) : Type 0 where
    no_items : Items F
    item : Json F → Items F → Items F

  pub data Fields (F : Type 0) : Type 0 where
    no_fields : Fields F
    field : String → Json F → Fields F → Fields F

pub record TemporalProvenance : Type 0 where
  pub provider : String
  pub source_id : String
  pub observed_at : ℕ
  pub period_start : Option ℕ
  pub period_end : Option ℕ
  pub published_at : Option ℕ
  pub provider_available_at : ℕ
  pub ingested_at : ℕ
  pub vintage : String
  pub revision : Option String
  pub source_version : String

pub record ContextDatum (F : Type 0) : Type 0 where
  pub capability : ContextCapability
  pub instrument : String
  pub name : String
  pub value : Json F
  pub unit : String
  pub provenance : TemporalProvenance

pub record ContextRequest (F : Type 0) : Type 0 where
  pub instrument : String
  pub timeframe : String
  pub as_of : ℕ
  pub required : Capabilities
  pub optional : Capabilities
  pub configuration : Dict (Json F)

pub record MarketContext (F : Type 0) : Type 0 where
  pub snapshot : MarketSnapshot F
  pub as_of : ℕ
  pub data_items : List (ContextDatum F)
  pub requested_required : Capabilities
  pub requested_optional : Capabilities
  pub missing_required : Capabilities
  pub missing_optional : Capabilities
  pub context_id : String

abbrev ends_before : Option ℕ → Option ℕ → Bool
ends_before (some end_) (some start) = ltb end_ start
ends_before _ _ = false

abbrev is_unpublished : ℕ → Option ℕ → Bool
is_unpublished available none = false
is_unpublished available (some published) = ltb available published

unfoldable pub validate_timeline : TemporalProvenance → Result TemporalProvenance
validate_timeline p = do
  guard (same (is_some p.period_start) (is_some p.period_end)) provenance_period
  refuse (ends_before p.period_end p.period_start) period_order
  refuse (is_unpublished p.provider_available_at p.published_at) publication_order
  refuse (ltb p.ingested_at p.provider_available_at) ingestion_order
  refuse (p.provider == "" || p.source_id == "" || p.vintage == "" || p.source_version == "")
      provenance_identity_required
  ok p

module _ {F : Type 0} ⦃f : Float F⦄ where
  -- `_json_value`: a value that is JSON throughout is given back.
  unfoldable mutual
    pub json_value : Json F → Result (Json F)
    json_value null = ok null
    json_value (bool b) = ok (bool b)
    json_value (int n) = ok (int n)
    json_value (float x) = guard (f.is_finite x) non_finite_json >> ok (float x)
    json_value (text s) = ok (text s)
    json_value (array items) = do values ← json_items items; ok (array values)
    json_value (object fields) = do values ← json_fields fields; ok (object values)
    json_value other = Result.err non_json

    json_items : Items F → Result (Items F)
    json_items no_items = ok no_items
    json_items (item value items) = do
      v ← json_value value
      values ← json_items items
      ok (item v values)

    json_fields : Fields F → Result (Fields F)
    json_fields no_fields = ok no_fields
    json_fields (field key value fields) = do
      v ← json_value value
      values ← json_fields fields
      ok (field key v values)

  abbrev json_configuration : Dict (Json F) → Result (Dict (Json F))
  json_configuration [] = ok []
  json_configuration ((key, value) ∷ rest) = do
    v ← json_value value
    values ← json_configuration rest
    ok ((key, v) ∷ values)

  unfoldable pub validate_datum : ContextDatum F → Result (ContextDatum F)
  validate_datum d = do
    value ← json_value d.value
    refuse (is_capability d.capability price_history) price_history_datum
    refuse (d.instrument == "" || d.name == "" || d.unit == "") datum_identity
    ok (record d { value = value })

  unfoldable pub validate_context_request : ContextRequest F → Result (ContextRequest F)
  validate_context_request r = do
    configuration ← json_configuration r.configuration
    guard (is_none (meet r.required r.optional)) capabilities_overlap
    guard (r.required price_history) price_history_required
    ok (record r { configuration = configuration })

module _ {F : Type 0} where
  -- `{PRICE_HISTORY, *(item.capability for item in data)}`, also `available_capabilities`.
  unfoldable pub available_in : List (ContextDatum F) → Capabilities
  available_in items c =
      only price_history c || any (λ (d : ContextDatum F). is_capability d.capability c) items

  abbrev same_datum : ContextDatum F → ContextDatum F → Bool
  same_datum a b =
      is_capability a.capability b.capability
      && a.instrument == b.instrument
      && a.name == b.name
      && a.provenance.source_id == b.provenance.source_id

  -- `len(identities) == len(set(identities))`.
  abbrev pub has_unique_identities : List (ContextDatum F) → Bool
  has_unique_identities [] = true
  has_unique_identities (d ∷ items) = not (any (same_datum d) items) && has_unique_identities items

  unfoldable pub validate_market_context :
      (context_identity : MarketContext F → String) → MarketContext F → Result (MarketContext F)
  validate_market_context context_identity c = do
    guard (eqb c.snapshot.as_of c.as_of) context_clock
    guard (is_none (minus c.missing_required c.requested_required)) unrequested_missing
    guard (is_none (minus c.missing_optional c.requested_optional)) unrequested_missing
    let available = available_in c.data_items
    let requested = union c.requested_required c.requested_optional
    refuse (any (λ (d : ContextDatum F). not (requested d.capability)) c.data_items)
        unrequested_capability
    guard (same_capabilities c.missing_required (minus c.requested_required available))
        missing_mismatch
    guard (same_capabilities c.missing_optional (minus c.requested_optional available))
        missing_mismatch
    refuse
        (any (λ (d : ContextDatum F). ltb c.as_of d.provenance.provider_available_at) c.data_items)
        evidence_unavailable
    refuse (any (λ (d : ContextDatum F). ltb c.as_of d.provenance.ingested_at) c.data_items)
        evidence_ingested_late
    guard (has_unique_identities c.data_items) context_identities
    let expected = context_identity c
    guard (c.context_id == "" || c.context_id == expected) context_id_mismatch
    ok (record c { context_id = expected })
