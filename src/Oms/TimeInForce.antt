-- ===== src/Oms/TimeInForce.antt =====
-- The codes of the enumeration TimeInForce (proto/oms/orders.proto) that the services name.
use btc_rust_history.Prelude.{ℤ, pos}

abbrev pub ioc : ℤ
ioc = pos 2

abbrev pub fok : ℤ
fok = pos 3

abbrev pub gtx : ℤ
gtx = pos 4
