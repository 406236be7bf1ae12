-- ===== src/Signals/Service/Histories.antt =====
-- The series of a symbol in services/strategy_engine/signal_engine/src/main.rs: what the loop does to a
-- `SymbolState` for an accepted feature vector, up to the point where the model is called.
use btc_rust_history.Prelude.{
  ℕ, Bool, ◌&&◌, not, Option, none, some, List, [], ◌∷◌, if◌then◌else◌, get_or, is_empty, nat_key,
  string_key, pair_key, int_key, lookup,
}
use btc_rust_history.Float.{F64, ◌⊖◌, ◌⊘◌, ◌≺◌, ◌≼◌}
use btc_rust_history.Signals.Service.{
  FeatureState, SymbolState, Tree, place, push_capped, epsilon, current_volatility,
  extract_factor_snapshot,
}

module _ {F : Type 0} ⦃d : F64 F⦄ where
  open d use {is_finite, abs}

  unfoldable pub push_volatility : ℕ → Option F → SymbolState F → SymbolState F
  push_volatility cap none state = state
  push_volatility cap (some vol) state = record state {
    volatility_history = push_capped state.volatility_history vol cap;
  }

  -- The loop over the previous factors.
  unfoldable pub push_factors : ℕ → Tree F → Tree (List F) → Tree (List F)
  push_factors cap [] histories = histories
  push_factors cap ((name, value) ∷ factors) histories =
      push_factors cap factors
        (place name (push_capped (get_or (lookup name histories) []) value cap) histories)

  -- The body of `if let (Some(prev_vwap), Some(prev_factors))`.
  unfoldable pub realize : ℕ → F → Option F → Option (Tree F) → SymbolState F → SymbolState F
  unfolding push_factors
  realize cap vwap none factors state = state
  realize cap vwap (some prev_vwap) none state = state
  realize cap vwap (some prev_vwap) (some prev_factors) state =
      let realized_return = (vwap ⊖ prev_vwap) ⊘ prev_vwap in
      if (epsilon ≺ abs prev_vwap) && is_finite realized_return
      then record state {
        return_history = push_capped state.return_history realized_return cap;
        factor_histories = push_factors cap prev_factors state.factor_histories;
      }
      else state

  -- `!feature.vwap.is_finite() || feature.vwap.abs() <= EPSILON` skips the feature, and so does a
  -- snapshot with no factor.
  unfoldable pub accepts : FeatureState F → Bool
  accepts feature =
      is_finite feature.vwap
      && not (abs feature.vwap ≼ epsilon)
      && not (is_empty (extract_factor_snapshot feature))

  unfoldable pub observe : ℕ → FeatureState F → SymbolState F → SymbolState F
  unfolding push_volatility realize
  observe cap feature state =
      let watched = push_volatility cap (current_volatility feature) state in
      record (realize cap feature.vwap state.last_vwap state.pending_factors watched) {
        last_vwap = some feature.vwap;
        pending_factors = some (extract_factor_snapshot feature);
      }
