-- ===== src/Router/Codes.antt =====
-- The columns of an order as text: `map_side` and the functions after it in
-- services/execution_router/src/store/writer.rs, from the `i32` codes of the messages.
use btc_rust_history.Prelude.{
  String, Bool, ◌||◌, if◌then◌else◌, nat_key, string_key, pair_key, int_key, ℤ, eqb_ℤ,
}
use btc_rust_history.Oms
use btc_rust_history.Oms.{ExecutionReport}

unfoldable pub map_side : ℤ → String
map_side side = if eqb_ℤ side Oms.OrderSide.sell then "SELL" else "BUY"

unfoldable pub map_order_type : ℤ → String
map_order_type t =
    if eqb_ℤ t Oms.OrderType.limit
    then "LIMIT"
    else if eqb_ℤ t Oms.OrderType.stop_market
    then "STOP_MARKET"
    else if eqb_ℤ t Oms.OrderType.stop_limit
    then "STOP_LIMIT"
    else "MARKET"

unfoldable pub map_tif : ℤ → String
map_tif tif =
    if eqb_ℤ tif Oms.TimeInForce.ioc
    then "IOC"
    else if eqb_ℤ tif Oms.TimeInForce.fok
    then "FOK"
    else if eqb_ℤ tif Oms.TimeInForce.gtx
    then "GTX"
    else "GTC"

unfoldable pub map_status : ℤ → String
map_status status =
    if eqb_ℤ status Oms.ExecutionStatus.partially_filled
    then "PARTIALLY_FILLED"
    else if eqb_ℤ status Oms.ExecutionStatus.filled
    then "FILLED"
    else if eqb_ℤ status Oms.ExecutionStatus.rejected
    then "REJECTED"
    else if eqb_ℤ status Oms.ExecutionStatus.canceled
    then "CANCELED"
    else if eqb_ℤ status Oms.ExecutionStatus.expired
    then "EXPIRED"
    else "NEW"

unfoldable pub map_event_type : ℤ → String
map_event_type status =
    if eqb_ℤ status Oms.ExecutionStatus.partially_filled
    then "PARTIALLY_FILLED"
    else if eqb_ℤ status Oms.ExecutionStatus.filled
    then "FILLED"
    else if eqb_ℤ status Oms.ExecutionStatus.rejected
    then "REJECTED"
    else if eqb_ℤ status Oms.ExecutionStatus.canceled
    then "CANCELED"
    else if eqb_ℤ status Oms.ExecutionStatus.expired
    then "EXPIRED"
    else "ACKNOWLEDGED"

unfoldable pub is_fill_like : {F : Type 0} → ExecutionReport F → Bool
is_fill_like report =
    eqb_ℤ report.status Oms.ExecutionStatus.partially_filled
    || eqb_ℤ report.status Oms.ExecutionStatus.filled
