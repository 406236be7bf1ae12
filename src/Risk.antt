-- ===== src/Risk.antt =====
-- libs/rust/hft_risk and services/execution_router/risk_guard: the limits, the reject codes, position
-- sizing, and the gate pipeline that an order passes before it is forwarded.
pub mod Limits
pub mod Reasons
pub mod Guard
