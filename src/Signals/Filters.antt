-- ===== src/Signals/Filters.antt =====
-- `evaluate_regime_filter` and `evaluate_volatility_filter` of
-- services/strategy_engine/signal_engine/src/zscore_model.rs. `str::trim` is an argument.
use btc_rust_history.Prelude.{
  String, ◌≡◌, refl, Bool, true, false, ◌&&◌, ◌||◌, not, Option, none, some, List, [], ◌∷◌, arith,
  ltb, if◌then◌else◌, is_some, get_or, or_else, length, is_empty, last?, exists, ◌==◌, nat_key,
  string_key, cat,
}
use btc_rust_history.Float.{F64, ◌≺◌, zero_f}
use mathlib.Core.Option.{map as map_option}
use btc_rust_history.Signals.Statistics.{
  sanitize_series, calculate_mean, calculate_std, calculate_zscore,
}

pub record GateResult : Type 0 where
  pub passed : Bool
  pub reason : Option String

pub record RegimeFilterConfig : Type 0 where
  pub enabled : Bool
  pub current_regime : Option String
  pub allowed_regimes : List String

pub record VolatilityFilterConfig (F : Type 0) : Type 0 where
  pub enabled : Bool
  pub historical_volatility_series : List F
  pub current_volatility : Option F
  pub min_zscore : Option F
  pub max_zscore : Option F

abbrev pub pass : GateResult
pass = record { passed = true; reason = none }

abbrev pub fail : String → GateResult
fail reason = record { passed = false; reason = some reason }

-- The part of `evaluate_regime_filter` after the current regime is trimmed.
unfoldable pub check_regime : List String → Option String → GateResult
check_regime allowed none = fail "regime_filter_missing_current"
check_regime allowed (some current) =
    if current == ""
    then fail "regime_filter_missing_current"
    else if is_empty allowed
    then fail "regime_filter_empty_allowed_set"
    else if not (exists (λ a. a == current) allowed)
    then fail (cat "regime_not_allowed:" current)
    else pass

module _ (trim : String → String) where
  unfoldable pub evaluate_regime_filter : Option RegimeFilterConfig → GateResult
  unfolding check_regime
  evaluate_regime_filter none = pass
  evaluate_regime_filter (some cfg) =
      if not cfg.enabled
      then pass
      else check_regime cfg.allowed_regimes (map_option trim cfg.current_regime)

  -- Whether a trimmed current regime is there, is not empty and is allowed.
  pub admits : List String → Option String → Bool
  admits allowed none = false
  admits allowed (some current) = not (current == "") && exists (λ a. a == current) allowed

  check_regime-admits :
      (allowed : List String) (current : Option String)
      → ((check_regime allowed current).passed ≡ admits allowed current)
        × (is_some (check_regime allowed current).reason ≡ not (admits allowed current))
  unfolding check_regime admits
  check_regime-admits allowed none = (refl, refl)
  check_regime-admits [] (some current) = ground arith
  check_regime-admits (a ∷ allowed) (some current) = ground arith

  -- A regime filter passes exactly when it is disabled, or there is a current regime that, trimmed,
  -- is not empty and is one of the allowed ones; and it gives a reason exactly when it fails.
  pub evaluate_regime_filter-admits :
      (cfg : RegimeFilterConfig)
      → let gate = evaluate_regime_filter (some cfg) in
        let admitted =
          not cfg.enabled || admits cfg.allowed_regimes (map_option trim cfg.current_regime) in
        (gate.passed ≡ admitted) × (is_some gate.reason ≡ not admitted)
  unfolding evaluate_regime_filter
  evaluate_regime_filter-admits cfg =
      ground (arith, check_regime-admits cfg.allowed_regimes (map_option trim cfg.current_regime))

module _ {F : Type 0} ⦃d : F64 F⦄ where
  open d use {nan, neg, infinity, is_finite, show_fixed}

  unfoldable pub evaluate_volatility_filter : Option (VolatilityFilterConfig F) → GateResult
  evaluate_volatility_filter none = pass
  evaluate_volatility_filter (some cfg) =
      let history = sanitize_series cfg.historical_volatility_series in
      let current_vol = get_or (or_else cfg.current_volatility (last? history)) nan in
      let mean = get_or (calculate_mean history) zero_f in
      let std = get_or (calculate_std history) zero_f in
      let zscore = calculate_zscore current_vol mean std in
      let min_z = get_or cfg.min_zscore (neg infinity) in
      let max_z = get_or cfg.max_zscore infinity in
      if not cfg.enabled
      then pass
      else if ltb (length history) 2
      then fail "vol_filter_insufficient_history"
      else if not (is_finite current_vol)
      then fail "vol_filter_missing_current"
      else if zscore ≺ min_z || max_z ≺ zscore
      then fail (cat "vol_z_out_of_range:" (show_fixed 4 zscore))
      else pass
