-- ===== src/Router/Writer/Rows.antt =====
-- The rows that the statements of services/execution_router/src/store/writer.rs propose, and the guard
-- of a fill.
use btc_rust_history.Prelude.{
  ℕ, String, Bool, ◌&&◌, Option, none, some, if◌then◌else◌, get_or, or_else, nat_key, string_key,
  pair_key, int_key, eqb_ℤ,
}
use btc_rust_history.Float.{F64, ◌⊗◌, ◌≺◌, zero_f}
use btc_rust_history.Oms
use btc_rust_history.Oms.{OrderCommand, ExecutionReport}
use btc_rust_history.Router.Codes.{
  map_side, map_order_type, map_tif, map_status, map_event_type, is_fill_like,
}
use btc_rust_history.Router.Exits.{DecisionMeta, outcome_from_exit}
use btc_rust_history.Router.Tables.{
  OrderRow, EventRow, TrainingRow, TradeRow, Position, SnapshotRow,
}
use btc_rust_history.Router.Writer.{
  Calls, nullif_empty, parse_optional_uuid, ts_from_ns, deterministic_trade_id, decision_meta_json,
  coin_tags_json, nullif_zero, nullif_zero_numeric,
}

module _ {F N J : Type 0} ⦃d : F64 F⦄ (c : Calls F N J) where
  -- The row that the INSERT proposes.
  unfoldable pub proposed_order :
      ℕ → OrderCommand F → ExecutionReport F → DecisionMeta F → OrderRow N
  unfolding nullif_empty nullif_zero coin_tags_json parse_optional_uuid
  proposed_order id order report meta = record {
    client_order_id = id;
    exchange_order_id = nullif_empty report.exchange_order_id;
    account_id = order.account_id;
    symbol = order.symbol;
    side = map_side order.side;
    order_type = map_order_type order.order_type;
    tif = map_tif order.tif;
    qty = c.numeric order.qty;
    price = nullif_zero c order.price;
    stop_price = nullif_zero c order.stop_price;
    take_profit_price = nullif_zero c (get_or meta.take_profit_price zero_f);
    coin_tags = coin_tags_json c meta;
    status = map_status report.status;
    filled_qty = c.numeric report.cumulative_filled_qty;
    avg_price = nullif_zero c report.avg_price;
    reduce_only = order.reduce_only;
    trace_id = parse_optional_uuid c order.trace_id;
  }

  unfoldable pub event_row : ℕ → ExecutionReport F → J → OrderRow N → EventRow N J
  unfolding nullif_empty nullif_zero ts_from_ns
  event_row id report raw found = record {
    order_id = found.client_order_id;
    client_order_id = id;
    event_type = map_event_type report.status;
    filled_qty = nullif_zero c report.last_filled_qty;
    price = nullif_zero c report.last_filled_price;
    commission = nullif_zero c report.commission;
    commission_asset = nullif_empty report.commission_asset;
    event_time = ts_from_ns c report.event_time_ns;
    raw = raw;
  }

  unfoldable pub training_row :
      ℕ
      → OrderCommand F
      → ExecutionReport F
      → String
      → String
      → DecisionMeta F
      → Option String
      → TrainingRow N J
  unfolding nullif_empty nullif_zero ts_from_ns coin_tags_json parse_optional_uuid
      decision_meta_json
  training_row id order report mode exchange meta exit_kind =
      let (label, reason) = outcome_from_exit report exit_kind in
      record {
        client_order_id = id;
        account_id = order.account_id;
        symbol = order.symbol;
        side = map_side order.side;
        order_status = map_status report.status;
        execution_mode = c.texts.to_ascii_uppercase mode;
        exchange = c.texts.to_ascii_uppercase exchange;
        strategy_id = nullif_empty order.strategy_id;
        signal_id = nullif_empty order.signal_id;
        exit_kind = exit_kind;
        outcome_label = label;
        outcome_reason = reason;
        coin_tags = coin_tags_json c meta;
        decision_meta = decision_meta_json c order.decision_reason;
        filled_qty = nullif_zero c report.last_filled_qty;
        fill_price = nullif_zero c report.last_filled_price;
        trace_id = parse_optional_uuid c order.trace_id;
        event_time = ts_from_ns c report.event_time_ns;
      }

  unfoldable pub trade_row : ℕ → OrderCommand F → ExecutionReport F → OrderRow N → TradeRow N
  unfolding nullif_empty ts_from_ns deterministic_trade_id
  trade_row id order report found = record {
    trade_id = deterministic_trade_id c report;
    order_id = found.client_order_id;
    client_order_id = id;
    account_id = order.account_id;
    symbol = order.symbol;
    side = map_side order.side;
    qty = c.numeric report.last_filled_qty;
    price = c.numeric report.last_filled_price;
    quote_qty = c.numeric (report.last_filled_qty ⊗ report.last_filled_price);
    commission = c.numeric report.commission;
    commission_asset = nullif_empty report.commission_asset;
    trade_time = ts_from_ns c report.event_time_ns;
    fill_id = report.fill_id;
  }

  unfoldable pub qty_delta : OrderCommand F → ExecutionReport F → F
  qty_delta order report =
      if eqb_ℤ order.side Oms.OrderSide.buy
      then report.last_filled_qty
      else d.neg report.last_filled_qty

  unfoldable pub move_position : Option (Position N) → N → Option N → Position N
  unfolding nullif_zero_numeric
  move_position none qty price = record { qty = qty; entry_price = price }
  move_position (some old) qty price = record {
    qty = c.plus old.qty qty;
    entry_price = or_else (nullif_zero_numeric c price) old.entry_price;
  }

  unfoldable pub snapshot_row :
      ℕ → OrderCommand F → ExecutionReport F → String → DecisionMeta F → SnapshotRow N
  unfolding ts_from_ns coin_tags_json parse_optional_uuid
  snapshot_row id order report trigger meta = record {
    client_order_id = id;
    account_id = order.account_id;
    symbol = order.symbol;
    exit_trigger = trigger;
    exit_price = c.numeric report.last_filled_price;
    coin_tags = coin_tags_json c meta;
    trace_id = parse_optional_uuid c order.trace_id;
    event_time = ts_from_ns c report.event_time_ns;
  }

  unfoldable pub is_fill_report : ExecutionReport F → Bool
  unfolding is_fill_like
  is_fill_report report = is_fill_like report && (zero_f ≺ report.last_filled_qty)
