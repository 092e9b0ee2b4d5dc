-- ===== src/Result.antt =====
-- What a function returns or raises. `ValueError`s and the like are one type, with a constructor for each
-- message of the source.
use the_council.Prelude.{
  ◌≡◌, refl, Bool, true, false, not, Option, none, some, List, [], ◌∷◌, String, arith,
}

pub data Error : Type 0 where
  naive_datetime : Error
  index_error : Error
  invalid_field : Error
  invalid_bar : Error
  bar_closes_before_open : Error
  bar_available_before_close : Error
  timeframe_format : Error
  symbol_required : Error
  no_bars : Error
  bars_not_chronological : Error
  bar_unavailable : Error
  bars_overlap : Error
  observed_before_cutoff : Error
  observed_before_newest : Error
  provenance_identity : Error
  provenance_as_of : Error
  provenance_observation : Error
  provenance_availability : Error
  snapshot_id_mismatch : Error
  opening_before_open : Error
  volatility_status : Error
  schema_version : Error
  identity_required : Error
  expires_before_generated : Error
  target_exposure_mismatch : Error
  nonvalid_must_abstain : Error
  expected_return_required : Error
  expected_return_forbidden : Error
  long_negative : Error
  short_positive : Error
  flat_nonzero : Error
  decision_expires_before_decided : Error
  zero_quantity : Error
  duplicate_positions : Error
  equity_mismatch : Error
  cost_bound : Error
  live_order : Error
  fill_before_authorization : Error
  order_expires_before_fill : Error
  status_order_mismatch : Error
  filled_without_details : Error
  rejected_with_details : Error
  position_limit_above_gross : Error
  no_signals : Error
  duplicate_agents : Error
  signal_market_mismatch : Error
  signal_source_mismatch : Error
  signal_too_early : Error
  signal_from_future : Error
  signal_stale : Error
  volatility_source : Error
  volatility_after_cutoff : Error
  invalid_weights : Error
  invalid_settings : Error
  mark_before_state : Error
  duplicate_marks : Error
  missing_marks : List String → Error
  future_mark : Error
  future_snapshot : Error
  future_portfolio_mark : Error
  approved_without_order : Error
  invalid_transition : Error
  duration_format : Error
  agents_required : Error
  duplicate_kinds : Error
  horizon_not_multiple : Error
  context_cutoff : Error
  context_future : Error
  context_snapshot : Error
  context_run : Error
  signals_not_frozen : Error
  forecast_snapshot : Error
  outcome_measurements : Error
  record_identity : Error
  lifecycle_tail : Error
  lifecycle_not_monotonic : Error
  forecast_before_lock : Error
  outcome_before_forecast : Error
  evaluation_without_outcome : Error
  complete_without_evaluation : Error
  date_overflow : Error
  forecast_immutable : Error
  request_immutable : Error
  unknown_experiment : String → Error
  telemetry_limits : Error
  lookup_error : Error
  same_assets : Error
  base_asset : Error
  quote_asset : Error
  range_end : Error
  market_identifier : Error
  unavailable_at_as_of : Error
  outside_range : Error
  history_not_chronological : Error
  cache_key_mismatch : Error
  conflicting_duplicate : Error
  candle_duration : Error
  candles_overlap : Error
  range_together : Error
  unsupported_market : Error
  no_snapshot : Error
  no_completed_bars : Error
  provenance_period : Error
  period_order : Error
  publication_order : Error
  ingestion_order : Error
  provenance_identity_required : Error
  price_history_datum : Error
  datum_identity : Error
  capabilities_overlap : Error
  price_history_required : Error
  context_clock : Error
  unrequested_missing : Error
  unrequested_capability : Error
  missing_mismatch : Error
  evidence_unavailable : Error
  evidence_ingested_late : Error
  context_identities : Error
  context_id_mismatch : Error
  non_finite_json : Error
  non_json : Error
  provider_identity : Error
  provider_price_history : Error
  capability_claimed : Error
  request_mismatch : Error
  provider_failed : String → Error
  undeclared_capability : String → Error
  mismatched_provenance : String → Error
  mismatched_version : String → Error
  invalid_declaration : String → Error
  trend_windows : Error
  reversion_settings : Error
  regime_settings : Error
  volatility_settings : Error
  episode_market : Error
  decision_time_mismatch : Error
  snapshot_after_decision : Error
  outputs_not_frozen : Error
  versions_mismatch : Error
  duplicate_weights : Error
  episode_provenance : Error
  risk_identity_mismatch : Error
  execution_without_risk : Error
  truth_experiments : Error
  truth_incomplete : Error
  truth_before_horizon : Error
  truth_before_judge : Error
  episode_schema : Error
  truth_time_mismatch : Error
  episode_identity_mismatch : Error
  query_range : Error
  version_without_agent : Error
  not_complete : Error
  missing_artifacts : Error
  invalid_identity : Error
  corrupt_payload : Error
  index_conflict : Error
  payload_conflict : Error
  unindexed_conflict : Error
  unknown_episode : String → Error
  incompatible_episode : String → Error
  incompatible_store : String → Error
  learning_schema : Error
  generation_mismatch : Error
  duplicate_entries : Error
  entries_required : Error
  profile_identity : Error
  proposal_before_cutoff : Error
  duplicate_training : Error
  duplicate_changes : Error
  proposal_identity : Error
  accepted_mismatch : Error
  duplicate_held_out : Error
  result_identity : Error
  result_of_another : Error
  different_bases : Error
  confidence_samples : Error
  metric_weights_incomplete : Error
  weight_differs : Error
  undeclared_scope : Error
  wrong_base : Error
  evaluated_before_created : Error
  insufficient_held_out : Error
  training_overlap : Error
  held_out_too_early : Error
  unjudged_outcome : Error
  truth_unavailable : Error
  incomplete_returns : Error
  no_returns : Error
  initial_profile : Error
  already_initialized : Error
  not_initialized : Error
  unknown_generation : String → Error
  generation_id_mismatch : Error
  invalid_generation_id : Error
  base_not_active : Error
  rejected_proposal : Error
  overwrite_generation : Error
  review_conflict : Error
  not_an_ancestor : Error
  looping : Error
  raised : String → Error

-- A call either raises an error or returns a value.
pub data Result {ℓ} (A : Type ℓ) : Type ℓ where
  err : Error → Result A
  ok : A → Result A

abbrev pub of_option {ℓ} : {A : Type ℓ} → Error → Option A → Result A
of_option e none = err e
of_option e (some a) = ok a

-- `if test: raise error`, and `if not test: raise error`.
abbrev pub refuse : Bool → Error → Result (Unit {0})
refuse false e = ok tt
refuse true e = err e

abbrev pub guard : Bool → Error → Result (Unit {0})
guard test e = refuse (not test) e

-- What follows a call runs only if the call returns.
infixl 5 ◌>>=◌ ◌>>◌
abbrev pub ◌>>=◌ {ℓ κ} : {A : Type ℓ} {B : Type κ} → Result A → (A → Result B) → Result B
err e >>= next = err e
ok value >>= next = next value

abbrev pub ◌>>◌ {ℓ κ} : {A : Type ℓ} {B : Type κ} → Result A → Result B → Result B
call >> next = call >>= λ value. next

-- A loop whose body may raise.
abbrev pub each {ℓ} : {A : Type ℓ} → (A → Result (Unit {0})) → List A → Result (Unit {0})
each f [] = ok tt
each f (x ∷ xs) = f x >> each f xs

abbrev pub traverse {ℓ κ} : {A : Type ℓ} {B : Type κ} → (A → Result B) → List A → Result (List B)
traverse f [] = ok []
traverse f (x ∷ xs) = do y ← f x; ys ← traverse f xs; ok (y ∷ ys)

-- If a sequence of two calls returns, then so do both, the second on what the first gave.
pub >>=-eq-ok {ℓ κ} :
    {A : Type ℓ} {B : Type κ} (call : Result A) (next : A → Result B) {b : B}
    → call >>= next ≡ ok b
    → (a : A) × (call ≡ ok a) × (next a ≡ ok b)
>>=-eq-ok (err e) next h = cc
>>=-eq-ok (ok a) next h = (a, refl, h)

pub guard-eq-ok : (b : Bool) (e : Error) (u : Unit {0}) → guard b e ≡ ok u → b ≡ true
guard-eq-ok b e u h = ground arith

pub ok-injective {ℓ} : {A : Type ℓ} {a b : A} → ok a ≡ ok b → a ≡ b
ok-injective h = cc

pub of_option-eq-ok {ℓ} :
    {A : Type ℓ} (failure : Error) (o : Option A) (a : A) → of_option failure o ≡ ok a → o ≡ some a
of_option-eq-ok failure none a h = cc
of_option-eq-ok failure (some b) a h = cc (ok-injective h)
