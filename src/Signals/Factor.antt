-- ===== src/Signals/Factor.antt =====
-- The types of services/strategy_engine/signal_engine/src/zscore_model.rs, and `prepare_factor`, which
-- admits or rejects one factor. `to_ascii_lowercase` is an argument.
use btc_rust_history.Prelude.{
  ℕ, ◌+◌, min, max, String, Bool, true, false, ◌||◌, not, Option, none, some, List, [], ◌∷◌, ltb,
  if◌then◌else◌, get_or, or_else, length, last?, ◌==◌, nat_key, string_key, ℤ, pos,
}
use btc_rust_history.Float.{F64, ◌≺◌, zero_f}
use btc_rust_history.Signals.Statistics.{
  sanitize_series, sanitize_aligned_pair, calculate_mean, calculate_std, calculate_zscore,
  pearson_correlation, detect_factor_correlation_sign, tail, clamp,
}
use btc_rust_history.Signals.Filters.{RegimeFilterConfig, VolatilityFilterConfig}

pub record FactorInput (F : Type 0) : Type 0 where
  pub name : String
  pub series : List F
  pub return_series : List F
  pub weight : F
  pub rolling_window : Option ℕ
  pub current_value : Option F
  pub direction_hint : Option ℤ
  pub enabled : Bool

pub data WeightMode : Type 0 where
  equal manual correlation_weight ranked_correlation : WeightMode

unfoldable pub weight_mode_from_env : (String → String) → String → WeightMode
weight_mode_from_env to_ascii_lowercase value =
    let v = to_ascii_lowercase value in
    if v == "manual"
    then manual
    else if v == "correlation"
    then correlation_weight
    else if v == "ranked-correlation" || v == "ranked_correlation" || v == "ranked"
    then ranked_correlation
    else equal

pub record SignalBuildConfig (F : Type 0) : Type 0 where
  pub rolling_window : ℕ
  pub min_history : ℕ
  pub min_abs_correlation : F
  pub rank_decay : F
  pub weight_mode : WeightMode
  pub winsorize_zscore_at : F
  pub mean_return : Option F
  pub std_return : Option F
  pub regime_filter : Option RegimeFilterConfig
  pub volatility_filter : Option (VolatilityFilterConfig F)

pub record FactorContribution (F : Type 0) : Type 0 where
  pub name : String
  pub correlation : F
  pub sign : ℤ
  pub zscore : F
  pub rank : Option ℕ
  pub raw_weight : F
  pub normalized_weight : F
  pub contribution : F
  pub passed : Bool
  pub reject_reason : Option String

pub record SignalResult (F : Type 0) : Type 0 where
  pub signal : F
  pub predicted_return : F
  pub mean_return : F
  pub std_return : F
  pub suppressed : Bool
  pub suppression_reasons : List String
  pub regime_passed : Bool
  pub volatility_passed : Bool
  pub factors_used : ℕ
  pub total_factors : ℕ
  pub contributions : List (FactorContribution F)

pub record PreparedFactor (F : Type 0) : Type 0 where
  pub factor_index : ℕ
  pub factor : FactorInput F
  pub passed : Bool
  pub reject_reason : Option String
  pub correlation : F
  pub sign : ℤ
  pub zscore : F
  pub raw_weight : F
  pub contribution : F

module _ {F : Type 0} ⦃d : F64 F⦄ where
  open d use {lit, of_nat, nan, is_finite, abs, neg, maxf, powf}

  unfoldable pub default_config : SignalBuildConfig F
  default_config = record {
    rolling_window = 120;
    min_history = 30;
    min_abs_correlation = lit 3 2;
    rank_decay = lit 85 2;
    weight_mode = equal;
    winsorize_zscore_at = lit 4 0;
    mean_return = none;
    std_return = none;
    regime_filter = none;
    volatility_filter = none;
  }

  unfoldable pub rejected_factor : ℕ → FactorInput F → String → F → ℤ → F → PreparedFactor F
  rejected_factor factor_index factor reason correlation sign zscore = record {
    factor_index = factor_index;
    factor = factor;
    passed = false;
    reject_reason = some reason;
    correlation = correlation;
    sign = sign;
    zscore = zscore;
    raw_weight = zero_f;
    contribution = zero_f;
  }

  unfoldable pub prepare_factor : ℕ → FactorInput F → SignalBuildConfig F → PreparedFactor F
  unfolding rejected_factor
  prepare_factor i factor cfg =
      let factor_series = sanitize_series factor.series in
      let return_series = sanitize_series factor.return_series in
      let window = max (get_or factor.rolling_window cfg.rolling_window) 2 in
      let aligned_len = min (min (length factor_series) (length return_series)) window in
      let (aligned_factor, aligned_return) =
        sanitize_aligned_pair (tail factor_series aligned_len) (tail return_series aligned_len) in
      let correlation = pearson_correlation aligned_factor aligned_return in
      let sign =
        get_or factor.direction_hint
          (detect_factor_correlation_sign aligned_factor aligned_return) in
      let current_value = get_or (or_else factor.current_value (last? factor_series)) nan in
      let segment = tail factor_series window in
      let mean = get_or (calculate_mean segment) zero_f in
      let std = get_or (calculate_std segment) zero_f in
      let raw_zscore = calculate_zscore current_value mean std in
      let bounded_zscore = clamp raw_zscore (neg cfg.winsorize_zscore_at) cfg.winsorize_zscore_at in
      let reject = rejected_factor i factor in
      if not factor.enabled
      then reject "factor_disabled" zero_f (pos 0) zero_f
      else if ltb (length factor_series) cfg.min_history
      then reject "insufficient_factor_history" zero_f (pos 0) zero_f
      else if ltb (length return_series) cfg.min_history
      then reject "insufficient_return_history" zero_f (pos 0) zero_f
      else if ltb aligned_len 2
      then reject "insufficient_overlap" zero_f (pos 0) zero_f
      else if ltb (length aligned_factor) 2
      then reject "insufficient_finite_overlap" zero_f (pos 0) zero_f
      else if abs correlation ≺ cfg.min_abs_correlation
      then reject "low_predictive_correlation" correlation sign zero_f
      else if not (is_finite current_value)
      then reject "missing_current_factor_value" correlation sign zero_f
      else record {
        factor_index = i;
        factor = factor;
        passed = true;
        reject_reason = none;
        correlation = correlation;
        sign = sign;
        zscore = bounded_zscore;
        raw_weight = zero_f;
        contribution = zero_f;
      }

  unfoldable pub prepare_all :
      ℕ → List (FactorInput F) → SignalBuildConfig F → List (PreparedFactor F)
  prepare_all i [] cfg = []
  prepare_all i (factor ∷ factors) cfg =
      prepare_factor i factor cfg ∷ prepare_all (i + 1) factors cfg
