-- ===== src/Oms/OrderSide.antt =====
-- The codes of the enumeration OrderSide (proto/oms/orders.proto) that the services name.
use btc_rust_history.Prelude.{ℤ, pos}

abbrev pub buy : ℤ
buy = pos 1

abbrev pub sell : ℤ
sell = pos 2
