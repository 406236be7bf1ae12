-- ===== src/Signals/Model/Suppression.antt =====
-- When the z-score model suppresses its signal, and what the signal then is.
use btc_rust_history.Prelude.{
  String, ◌≡◌, refl, ◌⊎◌, inl, inr, Bool, true, false, ◌&&◌, ◌||◌, not, Option, none, some, List,
  [], ◌∷◌, ◌++◌, map, arith, if◌then◌else◌, is_some, is_empty, nat_key, string_key,
}
use btc_rust_history.Float.{F64, ◌⊕◌, ◌⊗◌, ◌≼◌, zero_f, sum_f}
use btc_rust_history.Signals.Filters.{
  GateResult, RegimeFilterConfig, VolatilityFilterConfig, evaluate_regime_filter,
  evaluate_volatility_filter, evaluate_regime_filter-admits,
}
use btc_rust_history.Signals.Factor.{FactorInput, SignalBuildConfig, prepare_all}
use btc_rust_history.Signals.Model.{gate_reasons, build_zscore_signal, rank_rows}
use btc_rust_history.Signals.Statistics.{epsilon}

-- A gate that gives a reason exactly when it fails.
abbrev IsExplained : GateResult → Type 0
IsExplained gate = is_some gate.reason ≡ not gate.passed

reasons_lem :
    (xs ys : List String) {p q : Bool} (empty low : Bool)
    → is_empty xs ≡ p
    → is_empty ys ≡ q
    → (not p || not q || (empty || low))
      ≡ not (
          is_empty (
            xs
            ++ ys
            ++ (if not empty && low then "all_factor_weights_zero" ∷ [] else [])
            ++ (if empty then "no_valid_factors_after_filters" ∷ [] else [])))
reasons_lem (x ∷ xs) ys empty low ex ey = rw (← ex) refl
reasons_lem [] (y ∷ ys) empty low ex ey = rw (← ex, ← ey) refl
reasons_lem [] [] empty low ex ey = ground (arith, ex, ey)

if_true_lem : {A : Type 0} (b : Bool) (x y : A) → (b ≡ false) ⊎ ((if b then x else y) ≡ x)
if_true_lem true x y = inr refl
if_true_lem false x y = inl refl

regime-IsExplained :
    (trim : String → String) (cfg : Option RegimeFilterConfig)
    → IsExplained (evaluate_regime_filter trim cfg)
unfolding evaluate_regime_filter
regime-IsExplained trim none = refl
regime-IsExplained trim (some cfg) = ground (arith, evaluate_regime_filter-admits trim cfg)

is_empty-gate_reasons :
    (gate : GateResult) → IsExplained gate → is_empty (gate_reasons gate) ≡ gate.passed
unfolding gate_reasons
is_empty-gate_reasons gate h = ground arith

module _ {F : Type 0} ⦃d : F64 F⦄ where
  volatility-IsExplained :
      (cfg : Option (VolatilityFilterConfig F)) → IsExplained (evaluate_volatility_filter cfg)
  unfolding evaluate_volatility_filter
  volatility-IsExplained none = refl
  volatility-IsExplained (some cfg) = ground arith

  -- The model suppresses its signal exactly when it gives at least one reason for it; a suppressed
  -- signal is zero; and the predicted return is the mean plus the deviation times the signal, where
  -- there is a factor.
  pub build_zscore_signal_suppressed :
      (trim : String → String) (f : FactorInput F) (fs : List (FactorInput F))
      (cfg : SignalBuildConfig F)
      → let r = build_zscore_signal trim (f ∷ fs) cfg in
        (r.suppressed ≡ not (is_empty r.suppression_reasons))
        × ((r.suppressed ≡ false) ⊎ (r.signal ≡ zero_f))
        × (r.predicted_return ≡ r.mean_return ⊕ r.std_return ⊗ r.signal)
  unfolding build_zscore_signal
  build_zscore_signal_suppressed trim f fs cfg =
      let regime = evaluate_regime_filter trim cfg.regime_filter in
      let vol = evaluate_volatility_filter cfg.volatility_filter in
      let ranked = rank_rows cfg (prepare_all 0 (f ∷ fs) cfg) in
      let low = sum_f (map (λ row. row.raw_weight) ranked) ≼ epsilon in
      let r = is_empty-gate_reasons regime (regime-IsExplained trim cfg.regime_filter) in
      let v = is_empty-gate_reasons vol (volatility-IsExplained cfg.volatility_filter) in
      (
        reasons_lem (gate_reasons regime) (gate_reasons vol) (is_empty ranked) low r v,
        if_true_lem (not regime.passed || not vol.passed || (is_empty ranked || low)) zero_f _,
        refl,
      )
