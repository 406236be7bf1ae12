-- ===== src/Features.antt =====
-- services/feature_engine: the incremental indicators, the state of a symbol, the registry of symbols
-- and the handler of a candle message.
pub mod Ema
pub mod Macd
pub mod Rsi
pub mod Vwap
pub mod SymbolState
pub mod Engine
