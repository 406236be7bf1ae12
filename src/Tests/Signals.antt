-- ===== src/Tests/Signals.antt =====
-- The z-score model on three factors, one of them disabled.
use btc_rust_history.Prelude.{
  String, ◌≡◌, Bool, true, false, none, some, List, [], ◌∷◌, map, nat_key, string_key,
}
use btc_rust_history.Float.Model.{Fixed, not_a_number, fixed_f64}
use btc_rust_history.Signals.Filters.{RegimeFilterConfig}
use btc_rust_history.Signals.Factor.{
  FactorInput, SignalBuildConfig, default_config, ranked_correlation,
}
use btc_rust_history.Signals.Model.{build_zscore_signal}
use btc_rust_history.Signals.Model.Contributions.{build_zscore_signal_names}
use btc_rust_history.Tests.Data.{fixed}

abbrev values : List Fixed
values = fixed 1 ∷ not_a_number ∷ fixed 3 ∷ fixed 2 ∷ fixed 5 ∷ []

abbrev factor : String → Bool → FactorInput Fixed
factor name enabled = record {
  name = name;
  series = values;
  return_series = fixed 2 ∷ values;
  weight = fixed 1;
  rolling_window = none;
  current_value = none;
  direction_hint = none;
  enabled = enabled;
}

abbrev factors : List (FactorInput Fixed)
factors = factor "a" true ∷ factor "b" false ∷ factor "c" true ∷ []

config : SignalBuildConfig Fixed
unfolding default_config
config = record default_config { min_history = 2; weight_mode = ranked_correlation }

build_zscore_signal_names_example :
    let r = build_zscore_signal (λ s. s) factors config in
    (map (λ c. c.name) r.contributions ≡ map (λ f. f.name) factors) × (r.total_factors ≡ 3)
build_zscore_signal_names_example = build_zscore_signal_names (λ s. s) factors config

abbrev regimes : RegimeFilterConfig
regimes = record { enabled = true; current_regime = some "bull"; allowed_regimes = "bull" ∷ [] }
