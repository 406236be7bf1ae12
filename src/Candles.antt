-- ===== src/Candles.antt =====
-- services/marketdata_ingestor/src/candle.rs: the intervals, the dedupe cache, the parser of a closed
-- candle, the websocket worker, the sink and the readiness of the candle pipeline.
pub mod Interval
pub mod Dedupe
pub mod Parse
pub mod Worker
pub mod Sink
