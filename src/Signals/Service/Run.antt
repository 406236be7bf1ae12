-- ===== src/Signals/Service/Run.antt =====
-- The loop of services/strategy_engine/signal_engine/src/main.rs. `str::trim` and `from_timestamp_millis` are
-- parameters; each event comes with the two identifiers that it draws and with what PostgreSQL answers.
-- What Kafka answers to a message is ignored, so a message counts as sent when it is handed over.
use btc_rust_history.Prelude.{
  ℕ, String, List, [], ◌∷◌, if◌then◌else◌, get_or, nat_key, string_key, pair_key, int_key, cat, Map,
  lookup, insert, ℤ, show_ℤ, Option,
}
use btc_rust_history.Float.{F64}
use btc_rust_history.Signals.Factor.{FactorInput, SignalResult}
use btc_rust_history.Signals.Model.{build_zscore_signal}
use btc_rust_history.Signals.Service.{
  FeatureState, RuntimeConfig, SymbolState, new_state, current_volatility, extract_factor_snapshot,
  regime_label,
}
use btc_rust_history.Signals.Service.Histories.{accepts, observe}
use btc_rust_history.Signals.Service.Inputs.{build_factor_inputs}
use btc_rust_history.Signals.Service.Decide.{
  SignalMessage, model_config_of, build_signal_record, message_of,
}
use btc_rust_history.Signals.Service.Persist.{
  LogRow, Tables, Answers, persist_zscore_signal, write_strat_log,
}

-- What `consumer.recv()` answers, and what the payload decodes to.
pub data Received (F : Type 0) : Type 0 where
  receive_error : Received F
  no_payload : Received F
  undecodable : Received F
  decoded : FeatureState F → Received F

pub record Event (F : Type 0) : Type 0 where
  pub received : Received F
  pub answers : Answers F
  pub signal_id : ℕ
  pub trace_id : ℕ
  pub utc_now : ℤ

-- The states of the symbols, the tables and the messages sent, the newest first.
pub record Service (F : Type 0) : Type 0 where
  pub states : Map String (SymbolState F)
  pub tables : Tables F
  pub sent : List (SignalMessage F)

-- The instant of the event, or that of the clock where the time is out of chrono's range.
unfoldable pub datetime_from_ms : (ℤ → Option ℤ) → ℤ → ℤ → ℤ
datetime_from_ms from_timestamp_millis utc_now ts_ms = get_or (from_timestamp_millis ts_ms) utc_now

-- `states.entry(symbol).or_default()`
unfoldable pub state_of :
    {F : Type 0} ⦃d : F64 F⦄ → String → Map String (SymbolState F) → SymbolState F
state_of symbol states = get_or (lookup symbol states) new_state

module _ {F : Type 0} ⦃d : F64 F⦄ (trim : String → String) (from_timestamp_millis : ℤ → Option ℤ)
    (cfg : RuntimeConfig F) where
  -- What follows the model: the tables, the log, the message.
  unfoldable pub emit : Event F → FeatureState F → SignalResult F → Service F → Service F
  unfolding build_signal_record message_of datetime_from_ms
  emit event feature result service =
      let signal =
        build_signal_record (datetime_from_ms from_timestamp_millis event.utc_now feature.ts) result
          cfg.signal_threshold event.signal_id event.trace_id in
      let persisted =
        (persist_zscore_signal event.answers feature.symbol (regime_label feature.regime)
          (current_volatility feature) cfg.model_version result signal service.tables).0 in
      let text = cat "zscore signal=" (
        cat (d.show result.signal) (
          cat " side=" (
            cat (show_ℤ signal.side_code)
              (cat " pred_return=" (d.show result.predicted_return))))) in
      let row : LogRow = record {
        strategy_version_id = cfg.model_version;
        symbol = feature.symbol;
        event_code = "ZSCORE_SIGNAL";
        message = text;
      } in
      record service {
        tables = write_strat_log event.answers row persisted;
        sent = message_of cfg feature result signal ∷ service.sent;
      }

  -- `if factor_inputs.is_empty() { continue; }`
  unfoldable pub on_inputs :
      Event F → FeatureState F → SymbolState F → List (FactorInput F) → Service F → Service F
  unfolding emit model_config_of
  on_inputs event feature state [] service = service
  on_inputs event feature state (input ∷ inputs) service =
      emit event feature
        (build_zscore_signal trim (input ∷ inputs) (model_config_of cfg feature state)) service

  unfoldable pub on_feature : Event F → FeatureState F → Service F → Service F
  unfolding state_of on_inputs
  on_feature event feature service =
      let state = observe cfg.history_capacity feature (state_of feature.symbol service.states) in
      if accepts feature
      then on_inputs event feature state
          (build_factor_inputs state (extract_factor_snapshot feature) cfg.model_config)
          (record service { states = insert feature.symbol state service.states })
      else service

  unfoldable pub on_received : Event F → Received F → Service F → Service F
  unfolding on_feature
  on_received event receive_error service = service
  on_received event no_payload service = service
  on_received event undecodable service = service
  on_received event (decoded feature) service = on_feature event feature service

  unfoldable pub run : List (Event F) → Service F → Service F
  unfolding on_received
  run [] service = service
  run (event ∷ events) service = run events (on_received event event.received service)
