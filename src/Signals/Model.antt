-- ===== src/Signals/Model.antt =====
-- `build_zscore_signal` of services/strategy_engine/signal_engine/src/zscore_model.rs. `str::trim` is an
-- argument; the sort is a stable insertion sort. Children: `Suppression` is about when a signal is
-- suppressed, `Contributions` about the report on the factors.
pub mod Suppression
pub mod Contributions
use btc_rust_history.Prelude.{
  ℕ, zero, suc, ◌+◌, ◌-◌, ◌*◌, ◌/◌, ◌%◌, ◌^◌, ◌≤◌, ◌<◌, min, max, String, ◌≡◌, refl, sym, ap, ◌∙◌,
  ◌≢◌, ◌↔◌, ◌⊎◌, inl, inr, Bool, true, false, ◌&&◌, ◌||◌, not, Option, none, some, List, [], ◌∷◌,
  ◌++◌, map, foldl, arith, ltb, leb, eqb, if◌then◌else◌, ltb→lt, leb→le, eqb_iff, Bool-cases,
  Option-cases, is_some, get_or, or_else, length, is_empty, drop, take, last?, keep, exists, All,
  length-append, length-drop, length-take, length-keep-le, keep-All, keep_of_All, All-append,
  All-drop, drop_past, drop-append, drop-drop, length-map, Key, ◌==◌, nat_key, string_key, ==_refl,
  cat, Map, lookup, insert, remove, lookup-insert, lookup-insert_self, lookup-insert_ne,
  lookup-remove, ℤ, pos, negsuc, pos_part, neg_part, ◌+ℤ◌, ◌-ℤ◌, ◌*ℤ◌, tdiv, to_u32, ◌≤ℤ◌, leb_ℤ,
  ltb_ℤ, eqb_ℤ, show_ℕ, show_ℤ,
}
use btc_rust_history.Float.{F64, ◌⊕◌, ◌⊖◌, ◌⊗◌, ◌⊘◌, ◌≺◌, ◌≼◌, zero_f, sum_f, IsOrdered}
use btc_rust_history.Signals.Statistics.{
  epsilon, sanitize_series, calculate_mean, calculate_std, tail,
}
use btc_rust_history.Signals.Filters.{
  GateResult, evaluate_regime_filter, evaluate_volatility_filter,
}
use btc_rust_history.Signals.Factor.{
  FactorInput, WeightMode, equal, manual, correlation_weight, ranked_correlation, SignalBuildConfig,
  FactorContribution, SignalResult, PreparedFactor, default_config, rejected_factor, prepare_factor,
  prepare_all,
}

-- The reason of a gate, where it did not pass.
unfoldable pub gate_reasons : GateResult → List String
gate_reasons gate = if not gate.passed then reasons gate.reason else []
  where
    reasons : Option String → List String
    reasons none = []
    reasons (some r) = r ∷ []

module _ {F : Type 0} ⦃d : F64 F⦄ where
  open d use {lit, of_nat, is_finite, abs, neg, maxf, powf}

  -- `sort_by` on the absolute correlation, the largest first. NaN compares as equal.
  unfoldable pub insert_row : PreparedFactor F → List (PreparedFactor F) → List (PreparedFactor F)
  insert_row x [] = x ∷ []
  insert_row x (y ∷ ys) =
      let rest = insert_row x ys in
      if abs x.correlation ≺ abs y.correlation then y ∷ rest else x ∷ y ∷ ys

  -- Where a correlation is NaN the comparison is not an order, and Rust may leave the rows otherwise.
  unfoldable pub sort_rows : List (PreparedFactor F) → List (PreparedFactor F)
  unfolding insert_row
  sort_rows [] = []
  sort_rows (x ∷ xs) = insert_row x (sort_rows xs)

  -- `f64::from` of a sign.
  unfoldable pub of_sign : ℤ → F
  of_sign (pos n) = of_nat n
  of_sign (negsuc n) = neg (of_nat (n + 1))

  unfoldable pub raw_weight_of : SignalBuildConfig F → WeightMode → ℕ → PreparedFactor F → F
  raw_weight_of cfg equal i row = lit 1 0
  raw_weight_of cfg manual i row = maxf row.factor.weight zero_f
  raw_weight_of cfg correlation_weight i row = maxf row.factor.weight zero_f ⊗ abs row.correlation
  raw_weight_of cfg ranked_correlation i row =
      maxf row.factor.weight zero_f ⊗ abs row.correlation ⊗ powf cfg.rank_decay (of_nat i)

  unfoldable pub weigh : SignalBuildConfig F → ℕ → PreparedFactor F → PreparedFactor F
  unfolding raw_weight_of of_sign
  weigh cfg i row =
      let raw = raw_weight_of cfg cfg.weight_mode i row in
      record row {
        raw_weight = if not (is_finite raw) then zero_f else raw;
        contribution = of_sign row.sign ⊗ row.zscore;
      }

  unfoldable pub weigh_all :
      SignalBuildConfig F → ℕ → List (PreparedFactor F) → List (PreparedFactor F)
  weigh_all cfg i [] = []
  weigh_all cfg i (row ∷ rows) = weigh cfg i row ∷ weigh_all cfg (i + 1) rows

  -- The `ranked` of the signal: the passed rows, sorted and weighted.
  unfoldable pub rank_rows : SignalBuildConfig F → List (PreparedFactor F) → List (PreparedFactor F)
  unfolding sort_rows weigh_all
  rank_rows cfg prepared = weigh_all cfg 0 (sort_rows (keep (λ row. row.passed) prepared))

  -- `rank_lookup` and `row_lookup` in one map: the rank from 1, and the row.
  unfoldable pub row_lookup :
      ℕ → List (PreparedFactor F) → Map ℕ (ℕ × PreparedFactor F) → Map ℕ (ℕ × PreparedFactor F)
  row_lookup i [] m = m
  row_lookup i (row ∷ rows) m = row_lookup (i + 1) rows (insert row.factor_index (i + 1, row) m)

  unfoldable pub contribution_of :
      F → PreparedFactor F → Option (ℕ × PreparedFactor F) → FactorContribution F
  contribution_of denominator row (some (rank, r)) =
      let normalized_weight = r.raw_weight ⊘ denominator in
      record {
        name = r.factor.name;
        correlation = r.correlation;
        sign = r.sign;
        zscore = r.zscore;
        rank = some rank;
        raw_weight = r.raw_weight;
        normalized_weight = normalized_weight;
        contribution = normalized_weight ⊗ r.contribution;
        passed = true;
        reject_reason = none;
      }
  contribution_of denominator row none = record {
    name = row.factor.name;
    correlation = row.correlation;
    sign = row.sign;
    zscore = row.zscore;
    rank = none;
    raw_weight = zero_f;
    normalized_weight = zero_f;
    contribution = zero_f;
    passed = false;
    reject_reason = some (get_or row.reject_reason "filtered_out");
  }

  unfoldable pub reference_returns : SignalBuildConfig F → List (PreparedFactor F) → List F
  reference_returns cfg [] = []
  reference_returns cfg (row ∷ rows) =
      tail (sanitize_series row.factor.return_series)
        (max cfg.min_history (get_or row.factor.rolling_window cfg.rolling_window))

  unfoldable pub build_zscore_signal :
      (String → String) → List (FactorInput F) → SignalBuildConfig F → SignalResult F
  unfolding gate_reasons rank_rows row_lookup contribution_of reference_returns
  build_zscore_signal trim [] cfg = record {
    signal = zero_f;
    predicted_return = zero_f;
    mean_return = zero_f;
    std_return = zero_f;
    suppressed = true;
    suppression_reasons = "no_factors" ∷ [];
    regime_passed = true;
    volatility_passed = true;
    factors_used = 0;
    total_factors = 0;
    contributions = [];
  }
  build_zscore_signal trim (f ∷ fs) cfg =
      let regime_gate = evaluate_regime_filter trim cfg.regime_filter in
      let vol_gate = evaluate_volatility_filter cfg.volatility_filter in
      let prepared = prepare_all 0 (f ∷ fs) cfg in
      let ranked = rank_rows cfg prepared in
      let total_weight = sum_f (map (λ row. row.raw_weight) ranked) in
      let denominator = if epsilon ≺ total_weight then total_weight else lit 1 0 in
      let weighted_signal =
        sum_f (map (λ row. row.raw_weight ⊘ denominator ⊗ row.contribution) ranked) in
      let returns = reference_returns cfg ranked in
      let mean_return = get_or (or_else cfg.mean_return (calculate_mean returns)) zero_f in
      let std_return =
        maxf (get_or (or_else cfg.std_return (calculate_std returns)) zero_f) zero_f in
      let model_invalid = is_empty ranked || total_weight ≼ epsilon in
      let suppressed = not regime_gate.passed || not vol_gate.passed || model_invalid in
      let signal = if suppressed then zero_f else weighted_signal in
      let rows = row_lookup 0 ranked [] in
      record {
        signal = signal;
        predicted_return = mean_return ⊕ std_return ⊗ signal;
        mean_return = mean_return;
        std_return = std_return;
        suppressed = suppressed;
        suppression_reasons =
            gate_reasons regime_gate
            ++ gate_reasons vol_gate
            ++ (if not (is_empty ranked) && total_weight ≼ epsilon
                then "all_factor_weights_zero" ∷ []
                else [])
            ++ (if is_empty ranked then "no_valid_factors_after_filters" ∷ [] else []);
        regime_passed = regime_gate.passed;
        volatility_passed = vol_gate.passed;
        factors_used = length ranked;
        total_factors = length (f ∷ fs);
        contributions =
            map (λ row. contribution_of denominator row (lookup row.factor_index rows)) prepared;
      }
