-- ===== src/Signals/Service/Messages.antt =====
-- The messages that the loop of services/strategy_engine/signal_engine/src/main.rs sends, and the series of
-- a factor that a feature vector lacks.
use btc_rust_history.Prelude.{
  ℕ, String, ◌≡◌, refl, ap, ◌∙◌, ◌⊎◌, true, false, not, Option, none, some, List, [], ◌∷◌, arith,
  if◌then◌else◌, is_empty, All, nat_key, string_key, pair_key, int_key, lookup, insert, ℤ, pos,
  negsuc,
}
use btc_rust_history.Float.{F64, ◌⊖◌, ◌⊘◌, ◌≺◌, zero_f}
use btc_rust_history.Signals.Factor.{FactorInput, SignalResult}
use btc_rust_history.Signals.Model.{build_zscore_signal}
use btc_rust_history.Signals.Model.Suppression.{build_zscore_signal_suppressed}
use btc_rust_history.Signals.Service.{
  FeatureState, RuntimeConfig, SymbolState, Tree, epsilon, push_capped, current_volatility,
  extract_factor_snapshot,
}
use btc_rust_history.Signals.Service.Histories.{accepts, push_volatility, realize, observe}
use btc_rust_history.Signals.Service.Inputs.{build_factor_inputs}
use btc_rust_history.Signals.Service.Series.{
  IsDistinct, history_of, after, history-push_factors, push_volatility_keeps,
}
use btc_rust_history.Signals.Service.Decide.{
  SignalMessage, model_config_of, build_signal_record, message_of,
}
use btc_rust_history.Signals.Service.Run.{
  Event, Received, state_of, receive_error, no_payload, undecodable, decoded, Service, on_inputs,
  on_feature, on_received, run, datetime_from_ms,
}

module _ {F : Type 0} ⦃d : F64 F⦄ (threshold : F) where
  -- A side other than neutral, and the signal that it comes from.
  pub Directed : SignalMessage F → Type 0
  Directed m =
      (m.suppressed ≡ false)
      × ((d.abs m.signal ≺ threshold) ≡ false)
      × ((m.side ≡ pos 1) × ((zero_f ≺ m.signal) ≡ true)
          ⊎ (m.side ≡ negsuc 0) × ((zero_f ≺ m.signal) ≡ false))

  -- A message is suppressed exactly with a reason, and then neutral with the signal zero; one that is
  -- not neutral is not suppressed and reaches the threshold.
  pub IsSane : SignalMessage F → Type 0
  IsSane m =
      (m.suppressed ≡ not (is_empty m.suppression_reasons))
      × ((m.suppressed ≡ false) ⊎ (m.side ≡ pos 0) × (m.signal ≡ zero_f))
      × ((m.side ≡ pos 0) ⊎ Directed m)

module _ {F : Type 0} ⦃d : F64 F⦄ (trim : String → String) (from_timestamp_millis : ℤ → Option ℤ)
    (cfg : RuntimeConfig F) where
  message-IsSane :
      (feature : FeatureState F) (result : SignalResult F) (event_ts : ℤ) (id trace : ℕ)
      → result.suppressed ≡ not (is_empty result.suppression_reasons)
      → (result.suppressed ≡ false) ⊎ (result.signal ≡ zero_f)
      → IsSane cfg.signal_threshold (
          message_of cfg feature result
            (build_signal_record event_ts result cfg.signal_threshold id trace))
  unfolding IsSane Directed build_signal_record message_of
  message-IsSane feature result event_ts id trace e z = ground arith

  on_inputs-IsSane :
      (event : Event F) (feature : FeatureState F) (s : SymbolState F)
      (inputs : List (FactorInput F)) (service : Service F)
      → All (IsSane cfg.signal_threshold) service.sent
      → All
          (IsSane cfg.signal_threshold)
          (on_inputs trim from_timestamp_millis cfg event feature s inputs service).sent
  unfolding on_inputs
  on_inputs-IsSane event feature s [] service h = h
  on_inputs-IsSane event feature s (input ∷ inputs) service h =
      let config = model_config_of cfg feature s in
      let result = build_zscore_signal trim (input ∷ inputs) config in
      let facts = build_zscore_signal_suppressed trim input inputs config in
      (
        message-IsSane feature result
            (datetime_from_ms from_timestamp_millis event.utc_now feature.ts) event.signal_id
            event.trace_id facts.0 facts.1,
        h,
      )

  on_received-IsSane :
      (event : Event F) (r : Received F) (service : Service F)
      → All (IsSane cfg.signal_threshold) service.sent
      → All
          (IsSane cfg.signal_threshold)
          (on_received trim from_timestamp_millis cfg event r service).sent
  unfolding on_received on_feature
  on_received-IsSane event receive_error service h = h
  on_received-IsSane event no_payload service h = h
  on_received-IsSane event undecodable service h = h
  on_received-IsSane event (decoded f) service h =
      let state = observe cfg.history_capacity f (state_of f.symbol service.states) in
      let inputs = build_factor_inputs state (extract_factor_snapshot f) cfg.model_config in
      let service' : Service F = record service { states = insert f.symbol state service.states } in
      elim (accepts f)
        as (λ b.
          All (IsSane cfg.signal_threshold)
            (if b
              then on_inputs trim from_timestamp_millis cfg event f state inputs service'
              else service).sent) [
                | true ↦ on_inputs-IsSane event f state inputs service' h
                | false ↦ h
              ]

  -- Over any events and any answers of the database, of every message sent: it is suppressed exactly
  -- where it gives a reason; a suppressed one has the side 0 and the signal zero; a side of 1 or -1 comes
  -- with a signal that is not below the threshold in absolute value, and 1 with one above zero.
  pub run-IsSane :
      (events : List (Event F)) (service : Service F)
      → All (IsSane cfg.signal_threshold) service.sent
      → All (IsSane cfg.signal_threshold) (run trim from_timestamp_millis cfg events service).sent
  unfolding run
  run-IsSane [] service h = h
  run-IsSane (event ∷ events) service h =
      run-IsSane events (on_received trim from_timestamp_millis cfg event event.received service)
        (on_received-IsSane event event.received service h)

module _ {F : Type 0} ⦃d : F64 F⦄ where
  realize_lags :
      (limit : ℕ) (name : String) (vwap prev : F) (factors : Tree F) (s : SymbolState F)
      (last : Option F) (pending : Option (Tree F))
      → last ≡ some prev
      → pending ≡ some factors
      → IsDistinct factors
      → lookup name factors ≡ none
      → ((epsilon ≺ d.abs prev) ≡ true) × (d.is_finite ((vwap ⊖ prev) ⊘ prev) ≡ true)
      → let s' = realize limit vwap last pending s in
        (history_of name s'.factor_histories ≡ history_of name s.factor_histories)
        × (s'.return_history ≡ push_capped s.return_history ((vwap ⊖ prev) ⊘ prev) limit)
  unfolding realize after
  realize_lags limit name vwap prev factors s last pending el ep distinct lacks realized =
      rw (el, ep, realized.0, realized.1)
        (rw lacks at (history-push_factors limit name factors s.factor_histories distinct), refl)

  -- A vector lacked a factor that has a series, and the return to the next vector is realized: the
  -- series of returns takes the return and that of the factor nothing, so from then on each of its older
  -- values stands against a later return than before.
  pub observe_lags :
      (limit : ℕ) (name : String) (feature : FeatureState F) (prev : F) (factors : Tree F)
      (s : SymbolState F)
      → s.last_vwap ≡ some prev
      → s.pending_factors ≡ some factors
      → IsDistinct factors
      → lookup name factors ≡ none
      → ((epsilon ≺ d.abs prev) ≡ true) × (d.is_finite ((feature.vwap ⊖ prev) ⊘ prev) ≡ true)
      → let s' = observe limit feature s in
        (history_of name s'.factor_histories ≡ history_of name s.factor_histories)
        × (s'.return_history ≡ push_capped s.return_history ((feature.vwap ⊖ prev) ⊘ prev) limit)
  unfolding observe
  observe_lags limit name feature prev factors s el ep distinct lacks realized =
      let kept = push_volatility_keeps limit (current_volatility feature) s in
      let watched = push_volatility limit (current_volatility feature) s in
      let lags =
        realize_lags limit name feature.vwap prev factors watched s.last_vwap s.pending_factors el
          ep distinct lacks realized in
      (
        lags.0 ∙ ap (history_of name) kept.1,
        lags.1 ∙ ap (λ returns. push_capped returns ((feature.vwap ⊖ prev) ⊘ prev) limit) kept.0,
      )
