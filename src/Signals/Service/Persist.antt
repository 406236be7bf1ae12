-- ===== src/Signals/Service/Persist.antt =====
-- `persist_zscore_signal` and `write_strat_log` of services/strategy_engine/signal_engine/src/main.rs on
-- the tables sig_zscore_signals, sig_zscore_factor_contribs and strat_logs, the newest row first. The
-- column `metadata` is left out. What PostgreSQL answers is a parameter.
use btc_rust_history.Prelude.{
  ℕ, String, Bool, false, Option, none, some, List, [], ◌∷◌, map, if◌then◌else◌, nat_key,
  string_key, pair_key, int_key, ℤ,
}
use btc_rust_history.Database.{Commit, finish, and_then}
use btc_rust_history.Signals.Factor.{FactorContribution, SignalResult}
use btc_rust_history.Signals.Service.Decide.{SignalRecord}

-- What a row of sig_zscore_signals is made of.
pub record SignalRow (F : Type 0) : Type 0 where
  pub signal_id : ℕ
  pub trace_id : ℕ
  pub symbol : String
  pub event_ts : ℤ
  pub side : String
  pub signal_value : F
  pub predicted_return : F
  pub mean_return : F
  pub std_return : F
  pub confidence : F
  pub suppressed : Bool
  pub suppression_reasons : List String
  pub regime_passed : Bool
  pub volatility_passed : Bool
  pub factors_used : ℕ
  pub total_factors : ℕ
  pub model_version : String
  pub current_regime : String
  pub current_volatility : Option F

pub record ContribRow (F : Type 0) : Type 0 where
  pub event_ts : ℤ
  pub signal_id : ℕ
  pub symbol : String
  pub factor_name : String
  pub factor_rank : Option ℕ
  pub correlation : F
  pub sign : ℤ
  pub zscore : F
  pub raw_weight : F
  pub normalized_weight : F
  pub contribution : F
  pub passed : Bool
  pub reject_reason : Option String

pub record LogRow : Type 0 where
  pub strategy_version_id : String
  pub symbol : String
  pub event_code : String
  pub message : String

pub record Tables (F : Type 0) : Type 0 where
  pub sig_zscore_signals : List (SignalRow F)
  pub sig_zscore_factor_contribs : List (ContribRow F)
  pub strat_logs : List LogRow

pub record Answers (F : Type 0) : Type 0 where
  pub begins : Bool
  pub inserts_signal : SignalRow F → Bool
  pub inserts_contrib : ContribRow F → Bool
  pub commits : Commit
  pub inserts_log : Bool

unfoldable pub signal_row :
    {F : Type 0}
    → String
    → String
    → Option F
    → String
    → SignalResult F
    → SignalRecord F
    → SignalRow F
signal_row symbol regime volatility model_version result signal = record {
  signal_id = signal.signal_id;
  trace_id = signal.trace_id;
  symbol = symbol;
  event_ts = signal.event_ts;
  side = signal.side_label;
  signal_value = result.signal;
  predicted_return = result.predicted_return;
  mean_return = result.mean_return;
  std_return = result.std_return;
  confidence = signal.confidence;
  suppressed = result.suppressed;
  suppression_reasons = result.suppression_reasons;
  regime_passed = result.regime_passed;
  volatility_passed = result.volatility_passed;
  factors_used = result.factors_used;
  total_factors = result.total_factors;
  model_version = model_version;
  current_regime = regime;
  current_volatility = volatility;
}

unfoldable pub contrib_row :
    {F : Type 0} → String → SignalRecord F → FactorContribution F → ContribRow F
contrib_row symbol signal contrib = record {
  event_ts = signal.event_ts;
  signal_id = signal.signal_id;
  symbol = symbol;
  factor_name = contrib.name;
  factor_rank = contrib.rank;
  correlation = contrib.correlation;
  sign = contrib.sign;
  zscore = contrib.zscore;
  raw_weight = contrib.raw_weight;
  normalized_weight = contrib.normalized_weight;
  contribution = contrib.contribution;
  passed = contrib.passed;
  reject_reason = contrib.reject_reason;
}

module _ {F : Type 0} (a : Answers F) where
  unfoldable pub insert_signal : SignalRow F → Tables F → Option (Tables F)
  insert_signal row db =
      if a.inserts_signal row
      then some (record db { sig_zscore_signals = row ∷ db.sig_zscore_signals })
      else none

  unfoldable pub insert_contrib : ContribRow F → Tables F → Option (Tables F)
  insert_contrib row db =
      if a.inserts_contrib row
      then some (record db { sig_zscore_factor_contribs = row ∷ db.sig_zscore_factor_contribs })
      else none

  -- `for contrib in &result.contributions`
  unfoldable pub insert_contribs : List (ContribRow F) → Tables F → Option (Tables F)
  unfolding insert_contrib
  insert_contribs [] db = some db
  insert_contribs (row ∷ rows) db = and_then (insert_contrib row db) (insert_contribs rows)

  unfoldable pub persist_zscore_signal :
      String
      → String
      → Option F
      → String
      → SignalResult F
      → SignalRecord F
      → Tables F
      → Tables F × Bool
  unfolding finish signal_row contrib_row insert_signal insert_contribs
  persist_zscore_signal symbol regime volatility model_version result signal db =
      if a.begins
      then finish a.commits db (
          and_then
            (insert_signal (signal_row symbol regime volatility model_version result signal) db)
            (insert_contribs (map (contrib_row symbol signal) result.contributions)))
      else (db, false)

  unfoldable pub write_strat_log : LogRow → Tables F → Tables F
  write_strat_log row db =
      if a.inserts_log then record db { strat_logs = row ∷ db.strat_logs } else db
