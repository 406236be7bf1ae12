-- ===== src/Router/Writer/Statements.antt =====
-- The statements of `DbWriter` in services/execution_router/src/store/writer.rs that each report has: on
-- orders, order_events and order_training_events. They act on the view of the transaction; `none` is an
-- error.
use btc_rust_history.Database.{and_then}
use btc_rust_history.Prelude.{
  String, Option, none, some, ◌∷◌, if◌then◌else◌, or_else, is_empty, nat_key, string_key, pair_key,
  int_key, lookup, insert,
}
use btc_rust_history.Float.{F64}
use btc_rust_history.Oms.{OrderCommand, ExecutionReport}
use btc_rust_history.Router.Exits.{DecisionMeta}
use btc_rust_history.Router.Tables.{OrderRow, Db}
use btc_rust_history.Router.Writer.{Calls, Table, Session, execute}
use btc_rust_history.Router.Writer.Rows.{proposed_order, event_row, training_row}

-- `ON CONFLICT (client_order_id) DO UPDATE SET`, from the row that is there and the one proposed.
unfoldable pub do_update : {N : Type 0} → OrderRow N → OrderRow N → OrderRow N
do_update old excluded = record old {
  exchange_order_id = excluded.exchange_order_id;
  take_profit_price = or_else excluded.take_profit_price old.take_profit_price;
  coin_tags = if is_empty excluded.coin_tags then old.coin_tags else excluded.coin_tags;
  status = excluded.status;
  filled_qty = excluded.filled_qty;
  avg_price = excluded.avg_price;
}

unfoldable pub resolve : {N : Type 0} → Option (OrderRow N) → OrderRow N → OrderRow N
unfolding do_update
resolve none excluded = excluded
resolve (some old) excluded = do_update old excluded

module _ {F N J : Type 0} ⦃d : F64 F⦄ (c : Calls F N J) (s : Session) where
  unfoldable pub upsert_order :
      OrderCommand F → ExecutionReport F → DecisionMeta F → Db N J → Option (Db N J)
  unfolding proposed_order resolve
  upsert_order order report meta db = and_then (c.parse_str order.client_order_id) λ id.
      execute s Table.orders (record db {
        orders =
            insert id (resolve (lookup id db.orders) (proposed_order c id order report meta))
              db.orders;
      })

  -- `order_id` is NOT NULL, so the statement fails where there is no order.
  unfoldable pub append_order_event : OrderCommand F → ExecutionReport F → Db N J → Option (Db N J)
  unfolding event_row
  append_order_event order report db = and_then (c.parse_str order.client_order_id) λ id.
      and_then (c.to_value report) λ raw. and_then (lookup id db.orders) λ found.
        execute s Table.order_events
          (record db { order_events = event_row c id report raw found ∷ db.order_events })

  -- The uuid has to be that of an order (a foreign key).
  unfoldable pub append_training_event :
      OrderCommand F
      → ExecutionReport F
      → String
      → String
      → DecisionMeta F
      → Option String
      → Db N J
      → Option (Db N J)
  unfolding training_row
  append_training_event order report mode exchange meta exit_kind db =
      and_then (c.parse_str order.client_order_id) λ id. and_then (lookup id db.orders) λ found.
        execute s Table.order_training_events (record db {
          order_training_events =
              training_row c id order report mode exchange meta exit_kind
              ∷ db.order_training_events;
        })
