-- ===== src/Tests.antt =====
-- The theorems at concrete inputs, over the numbers of Float/Model.antt.
pub mod Data
pub mod Reconnect
pub mod Risk
pub mod Router
mod Writer
pub mod Mq
pub mod Signals
pub mod Service
mod Redis
mod Ingest
pub mod Features
pub mod Candles
