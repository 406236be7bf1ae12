-- ===== src/Router/Writer/Persist.antt =====
-- `DbWriter::persist_execution` of services/execution_router/src/store/writer.rs: the statements in one
-- transaction, which is dropped, and so rolled back, on an error.
use btc_rust_history.Database.{finish, and_then}
use btc_rust_history.Prelude.{
  String, Bool, false, Option, none, some, if◌then◌else◌, nat_key, string_key, pair_key, int_key,
}
use btc_rust_history.Float.{F64}
use btc_rust_history.Oms.{OrderCommand, ExecutionReport}
use btc_rust_history.Router.Exits.{DecisionMeta, detect_exit_trigger}
use btc_rust_history.Router.Tables.{Db}
use btc_rust_history.Router.Writer.{Calls, Session, parse_decision_meta}
use btc_rust_history.Router.Writer.Rows.{is_fill_report}
use btc_rust_history.Router.Writer.Statements.{
  upsert_order, append_order_event, append_training_event,
}
use btc_rust_history.Router.Writer.Fills.{
  insert_fill_idempotent, update_position, insert_exit_tag_snapshot,
}

module _ {F N J : Type 0} ⦃d : F64 F⦄ (c : Calls F N J) (s : Session) where
  unfoldable pub snapshot_of :
      OrderCommand F → ExecutionReport F → Option String → DecisionMeta F → Db N J → Option (Db N J)
  unfolding insert_exit_tag_snapshot
  snapshot_of order report none meta db = some db
  snapshot_of order report (some trigger) meta db =
      insert_exit_tag_snapshot c s order report trigger meta db

  -- The statements of a fill.
  unfoldable pub fill_statements :
      OrderCommand F → ExecutionReport F → Option String → DecisionMeta F → Db N J → Option (Db N J)
  unfolding insert_fill_idempotent update_position snapshot_of
  fill_statements order report trigger meta db =
      and_then (insert_fill_idempotent c s order report db) λ db.
        and_then (update_position c s order report db)
          λ db. snapshot_of order report trigger meta db

  -- The statements of the transaction, in order.
  unfoldable pub statements :
      OrderCommand F → ExecutionReport F → String → String → Db N J → Option (Db N J)
  unfolding parse_decision_meta detect_exit_trigger upsert_order append_order_event
      append_training_event is_fill_report fill_statements
  statements order report mode exchange db =
      let meta = parse_decision_meta c order.decision_reason in
      let trigger = detect_exit_trigger c.texts order report meta in
      and_then (upsert_order c s order report meta db) λ db.
        and_then (append_order_event c s order report db) λ db.
          and_then (append_training_event c s order report mode exchange meta trigger db) λ db.
            if is_fill_report c report
            then fill_statements order report trigger meta db
            else some db

  unfoldable pub persist_execution :
      OrderCommand F → ExecutionReport F → String → String → Db N J → Db N J × Bool
  unfolding finish statements
  persist_execution order report mode exchange db =
      if s.begins
      then finish s.commits db (statements order report mode exchange db)
      else (db, false)
