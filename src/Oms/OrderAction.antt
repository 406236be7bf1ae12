-- ===== src/Oms/OrderAction.antt =====
-- The codes of the enumeration OrderAction (proto/oms/orders.proto) that the services name.
use btc_rust_history.Prelude.{ℤ, pos}

abbrev pub cancel : ℤ
cancel = pos 2
