-- ===== src/Signals/Service/Decide.antt =====
-- From the series of a symbol to the signal, in services/strategy_engine/signal_engine/src/main.rs: the
-- configuration of the model, `build_signal_record`, the message. The two identifiers are what
-- `Uuid::now_v7` answers, the instant what `datetime_from_ms` of Run does.
use btc_rust_history.Prelude.{
  ℕ, String, Bool, ◌||◌, some, List, if◌then◌else◌, nat_key, string_key, pair_key, int_key, ℤ, pos,
  negsuc,
}
use btc_rust_history.Float.{F64, ◌≺◌, zero_f}
use btc_rust_history.Signals.Factor.{SignalBuildConfig, SignalResult}
use btc_rust_history.Signals.Service.{
  FeatureState, RuntimeConfig, SymbolState, current_volatility, regime_label,
}

pub record SignalRecord (F : Type 0) : Type 0 where
  pub signal_id : ℕ
  pub trace_id : ℕ
  pub event_ts : ℤ
  pub side_code : ℤ
  pub side_label : String
  pub confidence : F

-- The message for Kafka.
pub record SignalMessage (F : Type 0) : Type 0 where
  pub signal_id : ℕ
  pub trace_id : ℕ
  pub symbol : String
  pub ts : ℤ
  pub side : ℤ
  pub reason : String
  pub model_version : String
  pub signal : F
  pub predicted_return : F
  pub confidence : F
  pub suppressed : Bool
  pub suppression_reasons : List String
  pub factors_used : ℕ
  pub total_factors : ℕ

module _ {F : Type 0} ⦃d : F64 F⦄ where
  open d use {lit, abs, minf}

  unfoldable pub model_config_of :
      RuntimeConfig F → FeatureState F → SymbolState F → SignalBuildConfig F
  unfolding regime_label current_volatility
  model_config_of cfg feature state = record cfg.model_config {
    regime_filter = some (record {
      enabled = cfg.regime_filter_enabled;
      current_regime = some (regime_label feature.regime);
      allowed_regimes = cfg.allowed_regimes;
    });
    volatility_filter = some (record {
      enabled = cfg.vol_filter_enabled;
      historical_volatility_series = state.volatility_history;
      current_volatility = current_volatility feature;
      min_zscore = some cfg.vol_min_zscore;
      max_zscore = some cfg.vol_max_zscore;
    });
  }

  unfoldable pub side_of : SignalResult F → F → ℤ × String
  side_of result threshold =
      if result.suppressed || (abs result.signal ≺ threshold)
      then (pos 0, "NEUTRAL")
      else if zero_f ≺ result.signal
      then (pos 1, "LONG")
      else (negsuc 0, "SHORT")

  unfoldable pub build_signal_record : ℤ → SignalResult F → F → ℕ → ℕ → SignalRecord F
  unfolding side_of
  build_signal_record event_ts result threshold signal_id trace_id =
      let (side_code, side_label) = side_of result threshold in
      record {
        signal_id = signal_id;
        trace_id = trace_id;
        event_ts = event_ts;
        side_code = side_code;
        side_label = side_label;
        confidence = minf (abs result.signal) (lit 1 0);
      }

  unfoldable pub message_of :
      RuntimeConfig F → FeatureState F → SignalResult F → SignalRecord F → SignalMessage F
  message_of cfg feature result signal = record {
    signal_id = signal.signal_id;
    trace_id = signal.trace_id;
    symbol = feature.symbol;
    ts = feature.ts;
    side = signal.side_code;
    reason = "ZSCORE_MULTI_FACTOR";
    model_version = cfg.model_version;
    signal = result.signal;
    predicted_return = result.predicted_return;
    confidence = signal.confidence;
    suppressed = result.suppressed;
    suppression_reasons = result.suppression_reasons;
    factors_used = result.factors_used;
    total_factors = result.total_factors;
  }
