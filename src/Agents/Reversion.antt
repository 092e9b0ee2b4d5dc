-- ===== src/Agents/Reversion.antt =====
-- `MeanReversionAgent` of agents/mean_reversion.py.
use the_council.Prelude.{ℕ, not, ◌||◌, if◌then◌else◌, none, some, List, length, ltb, get_last?}
use the_council.Floats.{Float, nought, of_nat, fmax, ◌⊖◌, ◌⊗◌, ◌⊘◌, ◌≤?◌, ◌=?◌}
use the_council.Result.{Result, ok, ◌>>=◌, ◌>>◌, refuse, of_option, index_error, reversion_settings}
use the_council.Schemas.Enums.{Direction, flat, target_exposure, SignalValidity}
use the_council.Schemas.Market.{MarketSnapshot}
use the_council.Schemas.Signal.{AgentSignal}
use the_council.Agents.Signals.{
  Identity, View, last_of, closes_of, clamp, direction_for, insufficient, signal_from, is_flat,
}

pub record MeanReversionAgent (F : Type 0) : Type 0 where
  pub identity : Identity
  pub window : ℕ
  pub entry_z_score : F

module _ {F : Type 0} ⦃f : Float F⦄ where
  -- `__post_init__`.
  unfoldable pub new_reversion : MeanReversionAgent F → Result (MeanReversionAgent F)
  new_reversion a = do
    refuse (ltb a.window 2 || not (f.is_finite a.entry_z_score) || a.entry_z_score ≤? nought)
        reversion_settings
    ok a

  -- `z_score`, of the sample and its last close.
  abbrev pub z_score : List F → F → F
  z_score sample last =
      let deviation = f.pstdev sample in
      if deviation =? nought then nought else (last ⊖ f.fmean sample) ⊘ deviation

  abbrev pub raw_target : MeanReversionAgent F → F → F
  raw_target a z =
      if a.entry_z_score ≤? f.abs z
      then clamp (f.neg z ⊘ fmax (a.entry_z_score ⊗ of_nat 3) (of_nat 1)) (f.neg (of_nat 1))
          (of_nat 1)
      else nought

  abbrev reversion_forecast : (expected z raw : F) → Direction × F → View F
  reversion_forecast expected z raw (direction, exposure) = record {
    forecast_direction = direction;
    expected_return = some (if is_flat direction then nought else expected);
    target_exposure = some exposure;
    action = target_exposure;
    validity = SignalValidity.valid;
    confidence =
        if raw =? nought
        then f.scientific 5 2
        else clamp (f.abs z ⊘ of_nat 3) (f.scientific 5 2) (of_nat 1);
    rationale = "Distance from the rolling mean forecasts a decimal reversion return.";
    volatility = none;
  }

  abbrev sampled : MeanReversionAgent F → List F → F → View F
  sampled a sample last =
      let z = z_score sample last in
      let raw = raw_target a z in
      reversion_forecast ((f.fmean sample ⊖ last) ⊘ last) z raw (direction_for raw)

  unfoldable pub reversion_view : MeanReversionAgent F → List F → Result (View F)
  reversion_view a closes =
      if ltb (length closes) a.window then ok (insufficient flat a.window (length closes)) else do
        last ← of_option index_error (get_last? closes)
        ok (sampled a (last_of a.window closes) last)

  -- `analyze`.
  unfoldable pub analyze_reversion :
      MeanReversionAgent F → MarketSnapshot F → Result (AgentSignal F)
  analyze_reversion a snapshot = do
    view ← reversion_view a (closes_of snapshot.bars)
    signal_from a.identity a.window snapshot view
