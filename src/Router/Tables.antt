-- ===== src/Router/Tables.antt =====
-- The tables of services/execution_router/src/store/writer.rs (db/postgres/001_orders.sql, 002, 010,
-- 013 and 014), as far as its statements write them. Uuids are numbers; an instant is what a
-- TIMESTAMPTZ column holds, in microseconds. NUMERIC is a parameter `N`, JSON a parameter `J`. The
-- surrogate ids and the columns that the database fills are left out: where a statement looks up
-- `orders.id`, the row has the `client_order_id` of the order found, which is unique.
use btc_rust_history.Prelude.{
  ℕ, String, Bool, Option, List, nat_key, string_key, pair_key, int_key, Map, ℤ,
}

pub record OrderRow (N : Type 0) : Type 0 where
  pub client_order_id : ℕ
  pub exchange_order_id : Option String
  pub account_id : String
  pub symbol : String
  pub side : String
  pub order_type : String
  pub tif : String
  pub qty : N
  pub price : Option N
  pub stop_price : Option N
  pub take_profit_price : Option N
  pub coin_tags : List String
  pub status : String
  pub filled_qty : N
  pub avg_price : Option N
  pub reduce_only : Bool
  pub trace_id : Option ℕ

pub record EventRow (N J : Type 0) : Type 0 where
  pub order_id : ℕ
  pub client_order_id : ℕ
  pub event_type : String
  pub filled_qty : Option N
  pub price : Option N
  pub commission : Option N
  pub commission_asset : Option String
  pub event_time : ℤ
  pub raw : J

pub record TrainingRow (N J : Type 0) : Type 0 where
  pub client_order_id : ℕ
  pub account_id : String
  pub symbol : String
  pub side : String
  pub order_status : String
  pub execution_mode : String
  pub exchange : String
  pub strategy_id : Option String
  pub signal_id : Option String
  pub exit_kind : Option String
  pub outcome_label : String
  pub outcome_reason : Option String
  pub coin_tags : List String
  pub decision_meta : J
  pub filled_qty : Option N
  pub fill_price : Option N
  pub trace_id : Option ℕ
  pub event_time : ℤ

-- `realized_pnl` is NULL and `is_maker` FALSE in each row.
pub record TradeRow (N : Type 0) : Type 0 where
  pub trade_id : ℕ
  pub order_id : ℕ
  pub client_order_id : ℕ
  pub account_id : String
  pub symbol : String
  pub side : String
  pub qty : N
  pub price : N
  pub quote_qty : N
  pub commission : N
  pub commission_asset : Option String
  pub trade_time : ℤ
  pub fill_id : String

-- The columns of a position of the side BOTH that change: its key is the account and the symbol.
pub record Position (N : Type 0) : Type 0 where
  pub qty : N
  pub entry_price : Option N

pub record SnapshotRow (N : Type 0) : Type 0 where
  pub client_order_id : ℕ
  pub account_id : String
  pub symbol : String
  pub exit_trigger : String
  pub exit_price : N
  pub coin_tags : List String
  pub trace_id : Option ℕ
  pub event_time : ℤ

-- The tables, the newest row first; orders and positions by their unique keys.
pub record Db (N J : Type 0) : Type 0 where
  pub orders : Map ℕ (OrderRow N)
  pub order_events : List (EventRow N J)
  pub order_training_events : List (TrainingRow N J)
  pub trades : List (TradeRow N)
  pub positions : Map (String × String) (Position N)
  pub order_exit_tag_snapshots : List (SnapshotRow N)
