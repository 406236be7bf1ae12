-- ===== src/Router/Writer/Fills.antt =====
-- The statements of `DbWriter` in services/execution_router/src/store/writer.rs that a fill has: on
-- trades, positions and order_exit_tag_snapshots.
use btc_rust_history.Database.{and_then}
use btc_rust_history.Prelude.{
  ℕ, String, Bool, ◌&&◌, ◌||◌, Option, none, some, List, ◌∷◌, if◌then◌else◌, exists, ◌==◌, nat_key,
  string_key, pair_key, int_key, lookup, insert, ℤ,
}
use btc_rust_history.Float.{F64}
use btc_rust_history.Oms.{OrderCommand, ExecutionReport}
use btc_rust_history.Router.Exits.{DecisionMeta}
use btc_rust_history.Router.Tables.{TradeRow, Db}
use btc_rust_history.Router.Writer.{Calls, Table, Session, execute, nullif_zero}
use btc_rust_history.Router.Writer.Rows.{trade_row, qty_delta, move_position, snapshot_row}

-- The arbiter of `ON CONFLICT (fill_id, trade_time) DO NOTHING`.
unfoldable pub is_fill : {N : Type 0} → String → ℤ → TradeRow N → Bool
is_fill fill_id trade_time row = row.fill_id == fill_id && row.trade_time == trade_time

-- The key of `uq_trades_id_symbol`, which no arbiter covers.
unfoldable pub is_trade : {N : Type 0} → ℕ → String → ℤ → TradeRow N → Bool
is_trade trade_id symbol trade_time row =
    row.trade_id == trade_id && row.symbol == symbol && row.trade_time == trade_time

unfoldable pub insert_trade :
    {N : Type 0} → TradeRow N → List (TradeRow N) → Option (List (TradeRow N))
unfolding is_fill is_trade
insert_trade row trades =
    if exists (is_fill row.fill_id row.trade_time) trades
    then some trades
    else if exists (is_trade row.trade_id row.symbol row.trade_time) trades
    then none
    else some (row ∷ trades)

module _ {F N J : Type 0} ⦃d : F64 F⦄ (c : Calls F N J) (s : Session) where
  unfoldable pub insert_fill_idempotent :
      OrderCommand F → ExecutionReport F → Db N J → Option (Db N J)
  unfolding trade_row insert_trade
  insert_fill_idempotent order report db = and_then (c.parse_str order.client_order_id) λ id.
      and_then (lookup id db.orders) λ found.
        and_then (insert_trade (trade_row c id order report found) db.trades)
          λ trades. execute s Table.trades (record db { trades = trades })

  unfoldable pub update_position : OrderCommand F → ExecutionReport F → Db N J → Option (Db N J)
  unfolding qty_delta move_position nullif_zero
  update_position order report db =
      let key : String × String = (order.account_id, order.symbol) in
      execute s Table.positions (record db {
        positions =
            insert key
              (move_position c (lookup key db.positions) (c.numeric (qty_delta c order report))
                (nullif_zero c report.avg_price))
              db.positions;
      })

  -- The row's `CHECK (exit_trigger IN ('STOP_LOSS', 'TAKE_PROFIT'))`, after the foreign key.
  unfoldable pub check_trigger : String → Bool
  check_trigger trigger = trigger == "STOP_LOSS" || trigger == "TAKE_PROFIT"

  unfoldable pub insert_exit_tag_snapshot :
      OrderCommand F → ExecutionReport F → String → DecisionMeta F → Db N J → Option (Db N J)
  unfolding snapshot_row check_trigger
  insert_exit_tag_snapshot order report trigger meta db =
      and_then (c.parse_str order.client_order_id) λ id. and_then (lookup id db.orders) λ found.
        if check_trigger trigger
        then execute s Table.order_exit_tag_snapshots (record db {
          order_exit_tag_snapshots =
              snapshot_row c id order report trigger meta ∷ db.order_exit_tag_snapshots;
        })
        else none
