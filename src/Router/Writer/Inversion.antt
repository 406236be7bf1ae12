-- ===== src/Router/Writer/Inversion.antt =====
-- What each statement of services/execution_router/src/store/writer.rs leaves when it does not fail.
use btc_rust_history.Database.{and_then-some}
use btc_rust_history.Prelude.{
  ℕ, suc, ◌+◌, String, ◌≡◌, refl, Bool, true, false, Option, none, some, List, ◌∷◌, arith,
  if◌then◌else◌, nat_key, string_key, pair_key, int_key, lookup, insert,
}
use btc_rust_history.Float.{F64}
use btc_rust_history.Oms.{OrderCommand, ExecutionReport}
use btc_rust_history.Router.Exits.{DecisionMeta}
use btc_rust_history.Router.Tables.{EventRow, TrainingRow, TradeRow, SnapshotRow, Db}
use btc_rust_history.Router.Writer.{Calls, Table, Session, execute, ts_from_ns, nullif_zero}
use btc_rust_history.Router.Writer.Rows.{
  proposed_order, event_row, training_row, trade_row, qty_delta, move_position, snapshot_row,
}
use btc_rust_history.Router.Writer.Statements.{
  resolve, upsert_order, append_order_event, append_training_event,
}
use btc_rust_history.Router.Writer.Fills.{
  insert_trade, insert_fill_idempotent, update_position, insert_exit_tag_snapshot,
}
use btc_rust_history.Router.Writer.Persist.{snapshot_of}

if-some :
    {A : Type 0} (b : Bool) (o : Option A) {a : A} → (if b then o else none) ≡ some a → o ≡ some a
if-some true o e = e
if-some false o e = cc

pub suc_eq_add_one : (n : ℕ) → suc n ≡ n + 1
suc_eq_add_one n = omega arith

pub execute-some :
    {D : Type 0} (s : Session) (t : Table) (new : D) {db : D} → execute s t new ≡ some db → new ≡ db
unfolding execute
execute-some s t new e = ground arith

module _ {F N J : Type 0} ⦃d : F64 F⦄ (c : Calls F N J) (order : OrderCommand F)
    (report : ExecutionReport F) where
  -- A trade of the fill of the report.
  pub record IsTradeOf (row : TradeRow N) : Type 0 where
    pub fill_id : row.fill_id ≡ report.fill_id
    pub trade_time : row.trade_time ≡ ts_from_ns c report.event_time_ns

  module _ (s : Session) where
    pub upsert_order-some :
        (meta : DecisionMeta F) (old : Db N J) {new : Db N J}
        → upsert_order c s order report meta old ≡ some new
        → (id : ℕ) × (c.parse_str order.client_order_id ≡ some id)
          × (record old {
            orders =
                insert id
                  (resolve (lookup id old.orders) (proposed_order c id order report meta))
                  old.orders;
          }
              ≡ new)
    unfolding upsert_order
    upsert_order-some meta old e =
        let (id, p, q) = and_then-some _ _ e in (id, p, execute-some s _ _ q)

    pub append_order_event-some :
        (old : Db N J) {new : Db N J}
        → append_order_event c s order report old ≡ some new
        → (row : EventRow N J) × (record old { order_events = row ∷ old.order_events } ≡ new)
    unfolding append_order_event
    append_order_event-some old e =
        let (id, p, q) = and_then-some _ _ e in
        let (raw, p', q') = and_then-some _ _ q in
        let (found, p'', q'') = and_then-some _ _ q' in
        (event_row c id report raw found, execute-some s _ _ q'')

    pub append_training_event-some :
        (mode exchange : String) (meta : DecisionMeta F) (kind : Option String) (old : Db N J)
        {new : Db N J}
        → append_training_event c s order report mode exchange meta kind old ≡ some new
        → (row : TrainingRow N J) × (record old {
          order_training_events = row ∷ old.order_training_events;
        }
            ≡ new)
    unfolding append_training_event
    append_training_event-some mode exchange meta kind old e =
        let (id, p, q) = and_then-some _ _ e in
        let (found, p', q') = and_then-some _ _ q in
        (training_row c id order report mode exchange meta kind, execute-some s _ _ q')

    pub insert_fill_idempotent-some :
        (old : Db N J) {new : Db N J}
        → insert_fill_idempotent c s order report old ≡ some new
        → (row : TradeRow N) × (trades : List (TradeRow N)) × IsTradeOf row
          × (insert_trade row old.trades ≡ some trades)
          × (record old { trades = trades } ≡ new)
    unfolding insert_fill_idempotent
    insert_fill_idempotent-some old e =
        let (id, p, q) = and_then-some _ _ e in
        let (found, p', q') = and_then-some _ _ q in
        let (trades, p'', q'') = and_then-some _ _ q' in
        (
          trade_row c id order report found,
          trades,
          record { fill_id = refl; trade_time = refl },
          p'',
          execute-some s _ _ q'',
        )

    pub insert_exit_tag_snapshot-some :
        (trigger : String) (meta : DecisionMeta F) (old : Db N J) {new : Db N J}
        → insert_exit_tag_snapshot c s order report trigger meta old ≡ some new
        → (rows : List (SnapshotRow N)) × (record old { order_exit_tag_snapshots = rows } ≡ new)
    unfolding insert_exit_tag_snapshot
    insert_exit_tag_snapshot-some trigger meta old e =
        let (id, p, q) = and_then-some _ _ e in
        let (found, p', q') = and_then-some _ _ q in
        (
          snapshot_row c id order report trigger meta ∷ old.order_exit_tag_snapshots,
          execute-some s _ _ (if-some _ _ q'),
        )

    pub snapshot_of-some :
        (trigger : Option String) (meta : DecisionMeta F) (old : Db N J) {new : Db N J}
        → snapshot_of c s order report trigger meta old ≡ some new
        → (rows : List (SnapshotRow N)) × (record old { order_exit_tag_snapshots = rows } ≡ new)
    unfolding snapshot_of
    snapshot_of-some none meta old e = (old.order_exit_tag_snapshots, cc)
    snapshot_of-some (some trigger) meta old e = insert_exit_tag_snapshot-some trigger meta old e

    pub update_position-some :
        (old : Db N J) {new : Db N J}
        → update_position c s order report old ≡ some new
        → record old {
          positions =
              insert
                (order.account_id, order.symbol)
                (move_position c
                  (lookup (order.account_id, order.symbol) old.positions)
                  (c.numeric (qty_delta c order report))
                  (nullif_zero c report.avg_price))
                old.positions;
        }
          ≡ new
    unfolding update_position
    update_position-some old e = execute-some s _ _ e
