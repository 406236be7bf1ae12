-- ===== src/Lib.antt =====
-- Verification of the Rust core of btc-rust-history, a trading system of small services around Kafka:
-- candles and features come in, a model makes signals of them, orders pass a risk guard and a router.
--
-- Parts, and the files that model them (paths from the repository's root):
--  - Prelude, Prelude/*: Boolean tests, lists, keys, association maps, signed integers and decimal text
--    over the native natural numbers. Float: `f64` as a parameter with the operations that the code
--    uses; Float/Model is an instance for the examples.
--  - Features (services/feature_engine/src): Ema, Macd, Rsi and Vwap are indicators/ema.rs, macd.rs,
--    rsi.rs and vwap.rs; SymbolState is state/symbol_state.rs; Engine is consumer.rs (handle_message),
--    producer.rs (publish) and state/registry.rs. Counters are u32 and wrap.
--  - Oms (proto/oms): OrderCommand, ExecutionReport and the codes of their enumerations.
--  - Risk: Limits and Reasons are libs/rust/hft_risk/src; Guard is
--    services/execution_router/risk_guard/src (checker.rs, audit.rs and the loop of main.rs) with the
--    keys and `get_bool` of libs/rust/hft_redis/src.
--  - Candles (services/marketdata_ingestor/src/candle.rs): Interval, Dedupe (DedupeCache), Parse
--    (parse_closed_candle_message), Worker (run_candle_ws_worker), Sink (sink_loop, flush_batch,
--    refresh_readiness). The sink takes what the workers send.
--  - Signals (services/strategy_engine/signal_engine/src/zscore_model.rs): Statistics, Filters, Factor
--    (prepare_factor) and Model (build_zscore_signal). Signals/Service is main.rs beside it: the series
--    of each symbol (Histories), build_factor_inputs (Inputs), the decision and the message (Decide),
--    persist_zscore_signal and write_strat_log (Persist) and the loop (Run), which calls Model.
--  - Mq (libs/rust/hft_mq/src): Retry is RetryPolicy and run_with_retry, Consumer the loop of
--    consumer.rs with commit.rs and dlq.rs. The feature engine runs in this loop: its
--    handler is called again with the same message after an error.
--  - Router (services/execution_router/src): Dedup is oms/dedup.rs, Reports is
--    producers/execution_reports.rs, Handle is handle_order and the loop of main.rs, with Dedup as its guard. store/writer.rs is
--    Codes (the columns as text), Exits (DecisionMeta, detect_exit_trigger, outcome_from_exit), Tables
--    (db/postgres), Writer with its children Rows, Statements and Fills (the six statements) and Persist
--    (persist_execution); Database is a transaction, also of the signal service.
--  - Reconnect (services/marketdata_ingestor/src/ws/reconnect.rs): ReconnectController.
--  - Redis (libs/rust/hft_redis/src): get_bool, set_bool, del and the keys; KillSwitch and RateLimit are
--    the two halves of rate_limit.rs. Exchange is libs/rust/hft_exchange/src/rate_limit.rs.
--  - Ingest (services/marketdata_ingestor/src): Normalize is normalize of ws/binance.rs and Subscribe its
--    subscriptions; Publish and Handle are the publishers, handle_text and the reading loop of main.rs.
--    Several workers share its counters; Candles and Reconnect stand beside it in the same service.
--  - Tests: the theorems at concrete inputs.
--
-- Stateful code is a function from the state before to the state after; a log of effects stands for
-- what goes to Kafka, to the database and to the exchange. What other systems answer (a broker, a
-- database, Redis, a socket, a clock, a JSON decoder) is a parameter of the definition that asks, or an
-- element of the sequence that a loop runs over, so that a theorem holds for every behaviour of them.
-- Loops are recursion over such sequences or over the bound of the loop (`run_with_retry` over the
-- retries left). Fuel is needed in `show_ℕ`, which writes at most the 20 digits of a 64-bit number, and
-- in `chunks`, where the length of the list is enough, as Ingest/Subscribe shows.
-- Machine integers keep their wrap-around or saturation written out where the code can reach it.
--
-- Not modelled: start-up, configuration from the environment, health servers, logging and tracing; the
-- rest of the strategy engine; how the ingestor connects; the order executor and the paper trader; the Redis,
-- exchange, store and common libraries but what is named above; Handle takes the answer of the database
-- writer as a parameter, not from Writer; the API gateway, the Python services, the dashboard and the
-- infrastructure. They are I/O, generated, in other languages, or later parts of this development.
pub mod Prelude
pub mod Float
pub mod Features
pub mod Oms
pub mod Database
pub mod Risk
pub mod Candles
pub mod Signals
pub mod Mq
pub mod Router
pub mod Reconnect
pub mod Redis
pub mod Exchange
pub mod Ingest
pub mod Tests
