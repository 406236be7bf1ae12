-- ===== src/Signals/Service/Cadence.antt =====
-- How many messages the loop of services/strategy_engine/signal_engine/src/main.rs sends for a symbol.
use btc_rust_history.Prelude.{
  ℕ, suc, ◌+◌, ◌-◌, ◌≤◌, String, ◌≡◌, refl, sym, ap, ◌∙◌, true, List, [], ◌∷◌, arith, ltb,
  if◌then◌else◌, length, is_empty, nat_key, string_key, pair_key, int_key, ==_refl, Map, lookup,
  insert, ℤ, Option,
}
use mathlib.Core.Path.{subst}
use btc_rust_history.Float.{F64}
use btc_rust_history.Signals.Factor.{FactorInput}
use btc_rust_history.Signals.Service.{
  FeatureState, RuntimeConfig, SymbolState, new_state, extract_factor_snapshot,
}
use btc_rust_history.Signals.Service.Histories.{accepts, observe}
use btc_rust_history.Signals.Service.Inputs.{build_factor_inputs}
use btc_rust_history.Signals.Service.Run.{
  Event, Received, decoded, Service, state_of, on_inputs, on_feature, on_received, run,
}
use btc_rust_history.Signals.Service.Bounds.{state_of-on_feature}
use btc_rust_history.Signals.Service.Warmup.{
  IsComplete, Follows, IsWarm, observe-IsWarm, first-IsWarm, is_empty-build_factor_inputs,
}

module _ {F : Type 0} ⦃d : F64 F⦄ (name : String) where
  -- Events that each bring the next feature vector of the symbol.
  unfoldable pub Stream : FeatureState F → List (Event F) → Type 0
  Stream prev [] = Unit
  Stream prev (event ∷ events) =
      (f : FeatureState F) × (event.received ≡ decoded f) × Follows name prev f × Stream f events

module _ {F : Type 0} ⦃d : F64 F⦄ (trim : String → String) (from_timestamp_millis : ℤ → Option ℤ)
    (cfg : RuntimeConfig F) where
  length-on_inputs :
      (event : Event F) (f : FeatureState F) (s : SymbolState F) (inputs : List (FactorInput F))
      (service : Service F)
      → length (on_inputs trim from_timestamp_millis cfg event f s inputs service).sent
        ≡ (if is_empty inputs then length service.sent else length service.sent + 1)
  unfolding on_inputs
  length-on_inputs event f s [] service = refl
  length-on_inputs event f s (input ∷ inputs) service = omega arith

  length-on_feature :
      (event : Event F) (f : FeatureState F) (service : Service F)
      → accepts f ≡ true
      → length (on_feature trim from_timestamp_millis cfg event f service).sent ≡ (
          if is_empty (
            build_factor_inputs
              (observe cfg.history_capacity f (state_of f.symbol service.states))
              (extract_factor_snapshot f)
              cfg.model_config)
          then length service.sent
          else length service.sent + 1)
  unfolding on_feature
  length-on_feature event f service accepted =
      let state = observe cfg.history_capacity f (state_of f.symbol service.states) in
      rw accepted (
        length-on_inputs event f state
          (build_factor_inputs state (extract_factor_snapshot f) cfg.model_config)
          (record service { states = insert f.symbol state service.states }))

  -- One more vector of the symbol.
  on_feature-sends :
      (name : String) (n : ℕ) (event : Event F) (f : FeatureState F) (service : Service F)
      → IsComplete name f
      → IsWarm name cfg.history_capacity n f
          (observe cfg.history_capacity f (state_of f.symbol service.states))
      → 1 ≤ cfg.model_config.min_history
      → cfg.model_config.min_history ≤ cfg.history_capacity
      → length (on_feature trim from_timestamp_millis cfg event f service).sent ≡ (
          if ltb n cfg.model_config.min_history
          then length service.sent
          else length service.sent + 1)
  on_feature-sends name n event f service c w one fits =
      rw
        (← is_empty-build_factor_inputs name cfg.history_capacity n f _ cfg.model_config c w one
          fits)
        (length-on_feature event f service c.accepted)

  on_received-decoded :
      (event : Event F) (r : Received F) (f : FeatureState F) (service : Service F)
      → r ≡ decoded f
      → on_received trim from_timestamp_millis cfg event r service
        ≡ on_feature trim from_timestamp_millis cfg event f service
  unfolding on_received
  on_received-decoded event r f service e = rw e refl

  state_of-observed :
      (event : Event F) (f : FeatureState F) (service : Service F)
      → accepts f ≡ true
      → observe cfg.history_capacity f (state_of f.symbol service.states)
        ≡ state_of f.symbol (on_feature trim from_timestamp_millis cfg event f service).states
  state_of-observed event f service accepted = sym (
      rw (accepted, ==_refl f.symbol) at
        (state_of-on_feature trim from_timestamp_millis cfg f.symbol event f service))

  run-sends :
      (name : String) (n : ℕ) (prev : FeatureState F) (events : List (Event F))
      (service : Service F)
      → Stream name prev events
      → IsComplete name prev
      → IsWarm name cfg.history_capacity n prev (state_of prev.symbol service.states)
      → 1 ≤ cfg.model_config.min_history
      → cfg.model_config.min_history ≤ cfg.history_capacity
      → length (run trim from_timestamp_millis cfg events service).sent
        ≡ length service.sent
          + (n
              + length events
              + 1
              - cfg.model_config.min_history
              - (n + 1 - cfg.model_config.min_history))
  unfolding run Stream
  run-sends name n prev [] service stream c w one fits = omega arith
  run-sends name n prev (event ∷ events) service (f, e, follows, stream) c w one fits =
      let service' = on_feature trim from_timestamp_millis cfg event f service in
      let before =
        subst (λ symbol. IsWarm name cfg.history_capacity n prev (state_of symbol service.states))
          (sym follows.same_symbol) w in
      let observed =
        observe-IsWarm name cfg.history_capacity n prev f (state_of f.symbol service.states) c
          follows before in
      let now =
        subst (λ state. IsWarm name cfg.history_capacity (n + 1) f state)
          (state_of-observed event f service follows.complete.accepted) observed in
      let rest = run-sends name (n + 1) f events service' stream follows.complete now one fits in
      let sends =
        on_feature-sends name (n + 1) event f service follows.complete observed one fits in
      ap (λ (s : Service F). length (run trim from_timestamp_millis cfg events s).sent)
        (on_received-decoded event event.received f service e)
      ∙ (count_lem n (length events) cfg.model_config.min_history (length service.sent)
          (length service'.sent) _ sends rest)
    where
      count_lem :
          (n k m before now after : ℕ)
          → now ≡ (if ltb (n + 1) m then before else before + 1)
          → after ≡ now + (n + 1 + k + 1 - m - (n + 1 + 1 - m))
          → after ≡ before + (n + suc k + 1 - m - (n + 1 - m))
      count_lem n k m before now after sends rest = ground arith

  -- A symbol without a state gets a first complete vector and then a stream in which each vector has the
  -- factor and a finite return from the one before. Where `min_history` is at least one and at most
  -- `history_capacity`, the loop has then sent a message for every vector of the stream from the
  -- `min_history`-th on, and no other.
  pub run_cadence :
      (name : String) (first : FeatureState F) (event : Event F) (events : List (Event F))
      (service : Service F)
      → IsComplete name first
      → event.received ≡ decoded first
      → Stream name first events
      → service.states ≡ []
      → (1 ≤ cfg.model_config.min_history) × (cfg.model_config.min_history ≤ cfg.history_capacity)
      → length (run trim from_timestamp_millis cfg (event ∷ events) service).sent
        ≡ length service.sent + (length events + 1 - cfg.model_config.min_history)
  unfolding run state_of lookup
  run_cadence name first event events service c e stream fresh fits =
      let service' = on_feature trim from_timestamp_millis cfg event first service in
      let observed =
        subst
          (λ state.
            IsWarm name cfg.history_capacity 0 first (observe cfg.history_capacity first state))
          (state_of_nil first.symbol service.states fresh)
          (first-IsWarm name cfg.history_capacity first) in
      let now =
        subst (λ state. IsWarm name cfg.history_capacity 0 first state)
          (state_of-observed event first service c.accepted) observed in
      let rest = run-sends name 0 first events service' stream c now fits.0 fits.1 in
      let sends = on_feature-sends name 0 event first service c observed fits.0 fits.1 in
      ap (λ (s : Service F). length (run trim from_timestamp_millis cfg events s).sent)
        (on_received-decoded event event.received first service e)
      ∙ count_lem (length events) cfg.model_config.min_history (length service.sent)
          (length service'.sent) _ fits.0 sends rest
    where
      count_lem :
          (k m before now after : ℕ)
          → 1 ≤ m
          → now ≡ (if ltb 0 m then before else before + 1)
          → after ≡ now + (0 + k + 1 - m - (0 + 1 - m))
          → after ≡ before + (k + 1 - m)
      count_lem k m before now after one sends rest = ground arith

      state_of_nil :
          (symbol : String) (states : Map String (SymbolState F))
          → states ≡ []
          → new_state ≡ state_of symbol states
      state_of_nil symbol states e = rw e refl
