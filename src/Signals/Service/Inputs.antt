-- ===== src/Signals/Service/Inputs.antt =====
-- `build_factor_inputs` of services/strategy_engine/signal_engine/src/main.rs.
use btc_rust_history.Prelude.{
  ◌≤◌, String, ◌≡◌, refl, sym, ◌⊎◌, inl, inr, true, Option, none, some, List, [], ◌∷◌, arith, ltb,
  if◌then◌else◌, Bool-cases, is_some, length, All, nat_key, string_key, pair_key, int_key, lookup,
}
use btc_rust_history.Float.{F64}
use btc_rust_history.Signals.Factor.{FactorInput, SignalBuildConfig}
use btc_rust_history.Signals.Service.{SymbolState, Tree, default_factor_weight}

module _ {F : Type 0} ⦃d : F64 F⦄ (cfg : SignalBuildConfig F) (return_series : List F) where
  -- The closure of the `filter_map`, from the current value of the factor.
  unfoldable pub input_of : String → List F → Option F → List (FactorInput F) → List (FactorInput F)
  unfolding default_factor_weight
  input_of name history none rest = rest
  input_of name history (some value) rest =
      if ltb (length history) cfg.min_history
      then rest
      else record {
        name = name;
        series = history;
        return_series = return_series;
        weight = default_factor_weight name;
        rolling_window = some cfg.rolling_window;
        current_value = some value;
        direction_hint = none;
        enabled = true;
      }
        ∷ rest

  unfoldable pub inputs_of : Tree (List F) → Tree F → List (FactorInput F)
  unfolding input_of
  inputs_of [] current_factors = []
  inputs_of ((name, history) ∷ histories) current_factors =
      input_of name history (lookup name current_factors) (inputs_of histories current_factors)

module _ {F : Type 0} ⦃d : F64 F⦄ where
  unfoldable pub build_factor_inputs :
      SymbolState F → Tree F → SignalBuildConfig F → List (FactorInput F)
  unfolding inputs_of
  build_factor_inputs state current_factors cfg =
      if ltb (length state.return_history) cfg.min_history
      then []
      else inputs_of cfg state.return_history state.factor_histories current_factors

  -- An input that the model can use.
  pub IsInput : SignalBuildConfig F → List F → Tree F → FactorInput F → Type 0
  IsInput cfg returns current input =
      (input.return_series ≡ returns)
      × (cfg.min_history ≤ length input.series)
      × (input.current_value ≡ lookup input.name current)
      × (is_some input.current_value ≡ true)
      × (input.enabled ≡ true)

  input_of-All :
      (cfg : SignalBuildConfig F) (returns : List F) (name : String) (history : List F)
      (current : Tree F) (o : Option F) (rest : List (FactorInput F))
      → lookup name current ≡ o
      → All (IsInput cfg returns current) rest
      → All (IsInput cfg returns current) (input_of cfg returns name history o rest)
  unfolding input_of IsInput
  input_of-All cfg returns name history current none rest e all = all
  input_of-All cfg returns name history current (some value) rest e all =
      elim (Bool-cases (ltb (length history) cfg.min_history)) [
        | inl short ↦ rw short all
        | inr long ↦ rw long ((refl, ground arith, sym e, refl, refl), all)
      ]

  inputs_of-All :
      (cfg : SignalBuildConfig F) (returns : List F) (histories : Tree (List F)) (current : Tree F)
      → All (IsInput cfg returns current) (inputs_of cfg returns histories current)
  unfolding inputs_of
  inputs_of-All cfg returns [] current = tt
  inputs_of-All cfg returns ((name, history) ∷ histories) current =
      input_of-All cfg returns name history current (lookup name current) _ refl
        (inputs_of-All cfg returns histories current)

  -- Every factor that the model is given is enabled, has at least `min_history` values, the whole return
  -- series of the symbol and the current value of its name; where there are fewer than `min_history`
  -- returns there is none.
  pub build_factor_inputs-All :
      (state : SymbolState F) (current : Tree F) (cfg : SignalBuildConfig F)
      → All (IsInput cfg state.return_history current) (build_factor_inputs state current cfg)
        × ((cfg.min_history ≤ length state.return_history)
            ⊎ (build_factor_inputs state current cfg ≡ []))
  unfolding build_factor_inputs
  build_factor_inputs-All state current cfg =
      elim (Bool-cases (ltb (length state.return_history) cfg.min_history)) [
        | inl short ↦ rw short (tt, inr refl)
        | inr long ↦ rw long (
          inputs_of-All cfg state.return_history state.factor_histories current,
          inl (ground arith),
        )
      ]
