-- ===== src/Signals.antt =====
-- services/strategy_engine/signal_engine/src/zscore_model.rs: the multi-factor z-score model. Child
-- `Statistics` has the series and their statistics, `Filters` the two gates, `Factor` the types and
-- one factor, `Model` the signal.
pub mod Statistics
pub mod Filters
pub mod Factor
pub mod Model
pub mod Service
