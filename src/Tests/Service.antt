-- ===== src/Tests/Service.antt =====
-- The signal service on three feature vectors of one symbol.
use btc_rust_history.Prelude.{
  ℕ, ◌+◌, ◌≡◌, refl, true, false, none, some, List, [], ◌∷◌, map, arith, length, All, nat_key,
  string_key, pair_key, int_key, lookup, pos, negsuc, ◌-ℤ◌, ◌*ℤ◌, tdiv,
}
use btc_rust_history.Float.Model.{Fixed, num, not_a_number, fixed_f64}
use btc_rust_history.Database.{Commit}
use btc_rust_history.Signals.Factor.{default_config, SignalResult, SignalBuildConfig}
use btc_rust_history.Signals.Service.{
  FeatureState, RuntimeConfig, SymbolState, push_capped, place, place_if, extract_factor_snapshot,
}
use btc_rust_history.Signals.Service.Histories.{observe, accepts}
use btc_rust_history.Signals.Service.Decide.{SignalRecord}
use btc_rust_history.Signals.Service.Persist.{
  Tables, Answers, signal_row, contrib_row, persist_zscore_signal,
}
use btc_rust_history.Signals.Service.Run.{Event, decoded, Service, state_of, run}
use btc_rust_history.Signals.Service.Series.{history_of, IsDistinct}
use btc_rust_history.Signals.Service.Bounds.{IsBounded, run-IsBounded}
use btc_rust_history.Signals.Service.Warmup.{IsComplete, Follows}
use btc_rust_history.Signals.Service.Cadence.{Stream, run_cadence}
use btc_rust_history.Signals.Service.Outcomes.{AllOrNothing, persist_zscore_signal-AllOrNothing}
use btc_rust_history.Signals.Service.Messages.{IsSane, run-IsSane, observe_lags}
use btc_rust_history.Tests.Data.{fixed}

abbrev model : SignalBuildConfig Fixed
unfolding default_config
model = record default_config { min_history = 2 }

abbrev config : RuntimeConfig Fixed
config = record {
  model_version = "v1";
  signal_threshold = num (pos 200);
  history_capacity = 5;
  model_config = model;
  regime_filter_enabled = true;
  allowed_regimes = "RANGE" ∷ [];
  vol_filter_enabled = false;
  vol_min_zscore = num (negsuc 2499);
  vol_max_zscore = num (pos 2500);
}

-- A vector in the regime RANGE with the volume-weighted price `vwap`.
abbrev feature_at : ℕ → FeatureState Fixed
feature_at vwap = record {
  symbol = "BTCUSDT";
  ts = pos vwap;
  ema_fast = fixed 102;
  ema_slow = fixed 100;
  rsi = fixed 60;
  macd_hist = fixed 1;
  vwap = fixed vwap;
  schema_version = 1;
  adx = fixed 20;
  atr = fixed 3;
  regime = 3;
  vol_zscore = fixed 1;
  oi_change_pct = not_a_number;
}

abbrev answers : Answers Fixed
answers = record {
  begins = true;
  inserts_signal = λ row. true;
  inserts_contrib = λ row. true;
  commits = Commit.committed;
  inserts_log = true;
}

abbrev event_at : ℕ → Event Fixed
event_at vwap = record {
  received = decoded (feature_at vwap);
  answers = answers;
  signal_id = vwap;
  trace_id = vwap + 1;
  utc_now = pos 0;
}

abbrev no_tables : Tables Fixed
no_tables = record { sig_zscore_signals = []; sig_zscore_factor_contribs = []; strat_logs = [] }

abbrev fresh : Service Fixed
fresh = record { states = []; tables = no_tables; sent = [] }

abbrev events : List (Event Fixed)
events = event_at 100 ∷ event_at 110 ∷ event_at 105 ∷ []

run-IsBounded_example :
    IsBounded 5 (state_of "BTCUSDT" (run (λ s. s) (λ t. some t) config events fresh).states)
run-IsBounded_example = run-IsBounded (λ s. s) (λ t. some t) config events fresh "BTCUSDT" refl

run-IsSane_example :
    All (IsSane (num (pos 200))) (run (λ s. s) (λ t. some t) config events fresh).sent
run-IsSane_example = run-IsSane (λ s. s) (λ t. some t) config events fresh tt

abbrev result : SignalResult Fixed
result = record {
  signal = fixed 1;
  predicted_return = fixed 0;
  mean_return = fixed 0;
  std_return = fixed 0;
  suppressed = false;
  suppression_reasons = [];
  regime_passed = true;
  volatility_passed = true;
  factors_used = 0;
  total_factors = 0;
  contributions = [];
}

abbrev signal : SignalRecord Fixed
signal = record {
  signal_id = 1;
  trace_id = 2;
  event_ts = pos 3;
  side_code = pos 1;
  side_label = "LONG";
  confidence = fixed 1;
}

persist_zscore_signal-AllOrNothing_example :
    AllOrNothing
      (signal_row "BTCUSDT" "RANGE" none "v1" result signal)
      (map (contrib_row "BTCUSDT" signal) result.contributions)
      Commit.committed
      no_tables
      (persist_zscore_signal answers "BTCUSDT" "RANGE" none "v1" result signal no_tables)
persist_zscore_signal-AllOrNothing_example =
    persist_zscore_signal-AllOrNothing answers "BTCUSDT" "RANGE" none "v1" result signal no_tables

abbrev lagging : SymbolState Fixed
lagging = record {
  last_vwap = some (fixed 100);
  pending_factors = some (("macd_hist", fixed 1) ∷ []);
  factor_histories = ("rsi_centered", fixed 1 ∷ []) ∷ [];
  return_history = fixed 0 ∷ [];
  volatility_history = [];
}

observe_lags_example :
    let s' = observe 5 (feature_at 110) lagging in
    (history_of "rsi_centered" s'.factor_histories
      ≡ history_of "rsi_centered" lagging.factor_histories)
    × (s'.return_history ≡ push_capped (fixed 0 ∷ []) (num (pos 100)) 5)
unfolding IsDistinct lookup tdiv ◌*ℤ◌ ◌-ℤ◌
observe_lags_example =
    observe_lags 5 "rsi_centered" (feature_at 110) (fixed 100) (("macd_hist", fixed 1) ∷ []) lagging
      refl refl (refl, tt) refl (refl, refl)

feature_100-IsComplete : IsComplete "macd_hist" (feature_at 100)
unfolding accepts extract_factor_snapshot place place_if lookup
feature_100-IsComplete = record { accepted = refl; has_factor = refl }

feature_110-Follows : Follows "macd_hist" (feature_at 100) (feature_at 110)
unfolding accepts extract_factor_snapshot place place_if lookup
feature_110-Follows = record {
  same_symbol = refl;
  complete = record { accepted = refl; has_factor = refl };
  base = refl;
  finite = refl;
}

feature_105-Follows : Follows "macd_hist" (feature_at 110) (feature_at 105)
unfolding accepts extract_factor_snapshot place place_if lookup
feature_105-Follows = record {
  same_symbol = refl;
  complete = record { accepted = refl; has_factor = refl };
  base = refl;
  finite = refl;
}

run_cadence_example : length (run (λ s. s) (λ t. some t) config events fresh).sent ≡ 1
unfolding Stream model
run_cadence_example =
    run_cadence (λ s. s) (λ t. some t) config "macd_hist" (feature_at 100) (event_at 100)
      (event_at 110 ∷ event_at 105 ∷ []) fresh feature_100-IsComplete refl
      (feature_at 110, refl, feature_110-Follows, (feature_at 105, refl, feature_105-Follows, tt))
      refl (omega arith, omega arith)
