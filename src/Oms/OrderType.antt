-- ===== src/Oms/OrderType.antt =====
-- The codes of the enumeration OrderType (proto/oms/orders.proto) that the services name.
use btc_rust_history.Prelude.{ℤ, pos}

abbrev pub market : ℤ
market = pos 1

abbrev pub limit : ℤ
limit = pos 2

abbrev pub stop_market : ℤ
stop_market = pos 3

abbrev pub stop_limit : ℤ
stop_limit = pos 4
