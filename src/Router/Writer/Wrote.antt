-- ===== src/Router/Writer/Wrote.antt =====
-- What the statements of services/execution_router/src/store/writer.rs leave in the tables when none
-- fails, in one record for a report.
use btc_rust_history.Database.{and_then-some, some_inj}
use btc_rust_history.Prelude.{
  ℕ, ◌+◌, String, ◌≡◌, refl, ap, ◌∙◌, ◌⊎◌, inl, inr, true, false, Option, some, if◌then◌else◌,
  Bool-cases, length, nat_key, string_key, pair_key, int_key, lookup, insert,
}
use btc_rust_history.Float.{F64}
use btc_rust_history.Oms.{OrderCommand, ExecutionReport}
use btc_rust_history.Router.Exits.{DecisionMeta}
use btc_rust_history.Router.Tables.{TradeRow, Db}
use btc_rust_history.Router.Writer.{Calls, Session, parse_decision_meta, nullif_zero}
use btc_rust_history.Router.Writer.Rows.{proposed_order, qty_delta, move_position, is_fill_report}
use btc_rust_history.Router.Writer.Statements.{resolve}
use btc_rust_history.Router.Writer.Fills.{insert_trade}
use btc_rust_history.Router.Writer.Persist.{fill_statements, statements}
use btc_rust_history.Router.Writer.Inversion.{
  suc_eq_add_one, IsTradeOf, upsert_order-some, append_order_event-some, append_training_event-some,
  insert_fill_idempotent-some, snapshot_of-some, update_position-some,
}

module _ {F N J : Type 0} ⦃d : F64 F⦄ (c : Calls F N J) (order : OrderCommand F)
    (report : ExecutionReport F) where
  -- The tables before and after.
  pub record Wrote (old new : Db N J) : Type 0 where
    pub id : ℕ
    pub parses : c.parse_str order.client_order_id ≡ some id
    pub upserted :
        new.orders
        ≡ insert id
            (resolve
              (lookup id old.orders)
              (proposed_order c id order report (parse_decision_meta c order.decision_reason)))
            old.orders
    pub one_event : length new.order_events ≡ length old.order_events + 1
    pub one_training_event : length new.order_training_events ≡ length old.order_training_events + 1
    pub moved : new.positions ≡ (
        if is_fill_report c report
        then insert
            (order.account_id, order.symbol)
            (move_position c
              (lookup (order.account_id, order.symbol) old.positions)
              (c.numeric (qty_delta c order report))
              (nullif_zero c report.avg_price))
            old.positions
        else old.positions)
    pub traded :
        (is_fill_report c report ≡ false) × (new.trades ≡ old.trades)
        ⊎ (is_fill_report c report ≡ true)
          × ((row : TradeRow N) × IsTradeOf c order report row
              × (insert_trade row old.trades ≡ some new.trades))

  module _ (s : Session) where
    -- The tables after the statements of a fill.
    record Filled (old new : Db N J) : Type 0 where
      row : TradeRow N
      of_report : IsTradeOf c order report row
      traded : insert_trade row old.trades ≡ some new.trades
      moved :
          new.positions
          ≡ insert
              (order.account_id, order.symbol)
              (move_position c
                (lookup (order.account_id, order.symbol) old.positions)
                (c.numeric (qty_delta c order report))
                (nullif_zero c report.avg_price))
              old.positions
      kept :
          (new.orders ≡ old.orders)
          × (new.order_events ≡ old.order_events)
          × (new.order_training_events ≡ old.order_training_events)

    fill_statements-Filled :
        (trigger : Option String) (meta : DecisionMeta F) (old : Db N J) {new : Db N J}
        → fill_statements c s order report trigger meta old ≡ some new
        → Filled old new
    unfolding fill_statements
    fill_statements-Filled trigger meta old e =
        let (db1, p, q) = and_then-some _ _ e in
        let (db2, p', q') = and_then-some _ _ q in
        let (row, trades, of_report, inserted, e1) =
          insert_fill_idempotent-some c order report s old p in
        let e2 = update_position-some c order report s db1 p' in
        let (rows, e3) = snapshot_of-some c order report s trigger meta db2 q' in
        let trades_of = λ (db : Db N J). db.trades in
        let same = ap trades_of e1 ∙ ap trades_of e2 ∙ ap trades_of e3 in
        record {
          row = row;
          of_report = of_report;
          traded = rw (← same) inserted;
          moved = rw (← e3, ← e2, ← e1) refl;
          kept = rw (← e3, ← e2, ← e1) (refl, refl, refl);
        }

    -- The statements of a fill or of any other report, from the same tables.
    rest-Filled :
        (trigger : Option String) (meta : DecisionMeta F) (old : Db N J) {new : Db N J}
        → (if is_fill_report c report
            then fill_statements c s order report trigger meta old
            else some old)
          ≡ some new
        → (is_fill_report c report ≡ true) × Filled old new
          ⊎ (is_fill_report c report ≡ false) × (old ≡ new)
    rest-Filled trigger meta old e = elim (Bool-cases (is_fill_report c report)) [
      | inl yes_fill ↦ inl (yes_fill, fill_statements-Filled trigger meta old (rw yes_fill at e))
      | inr no_fill ↦ inr (no_fill, some_inj (rw no_fill at e))
    ]

    -- From the tables before the statements of a fill.
    rest-Wrote :
        (old mid : Db N J) {new : Db N J} (id : ℕ)
        → c.parse_str order.client_order_id ≡ some id
        → mid.orders
          ≡ insert id
              (resolve
                (lookup id old.orders)
                (proposed_order c id order report (parse_decision_meta c order.decision_reason)))
              old.orders
        → length mid.order_events ≡ length old.order_events + 1
        → length mid.order_training_events ≡ length old.order_training_events + 1
        → (mid.trades ≡ old.trades) × (mid.positions ≡ old.positions)
        → (is_fill_report c report ≡ true) × Filled mid new
          ⊎ (is_fill_report c report ≡ false) × (mid ≡ new)
        → Wrote old new
    rest-Wrote old mid id parsed upserted events training same (inl (is_fill, filled)) = record {
      id = id;
      parses = parsed;
      upserted = filled.kept.0 ∙ upserted;
      one_event = rw filled.kept.1 events;
      one_training_event = rw filled.kept.2 training;
      moved = rw (is_fill, ← same.1) filled.moved;
      traded = inr (is_fill, (filled.row, filled.of_report, rw (← same.0) filled.traded));
    }
    rest-Wrote old mid id parsed upserted events training same (inr (no_fill, e)) = record {
      id = id;
      parses = parsed;
      upserted = rw (← e) upserted;
      one_event = rw (← e) events;
      one_training_event = rw (← e) training;
      moved = rw (← e, no_fill) same.1;
      traded = inl (no_fill, rw (← e) same.0);
    }

    -- The statements of the transaction, where none fails.
    pub statements-Wrote :
        (mode exchange : String) (old : Db N J) {new : Db N J}
        → statements c s order report mode exchange old ≡ some new
        → Wrote old new
    unfolding statements
    statements-Wrote mode exchange old e =
        let (db1, p, q) = and_then-some _ _ e in
        let (db2, p', q') = and_then-some _ _ q in
        let (db3, p'', q'') = and_then-some _ _ q' in
        let (id, parsed, e1) =
          upsert_order-some c order report s (parse_decision_meta c order.decision_reason) old p in
        let (event, e2) = append_order_event-some c order report s db1 p' in
        let (training, e3) =
          append_training_event-some c order report s mode exchange
            (parse_decision_meta c order.decision_reason) _ db2 p'' in
        rest-Wrote old db3 id parsed (rw (← e3, ← e2, ← e1) refl)
          (rw (← e3, ← e2, ← e1) (suc_eq_add_one (length old.order_events)))
          (rw (← e3, ← e2, ← e1) (suc_eq_add_one (length old.order_training_events)))
          (rw (← e3, ← e2, ← e1) (refl, refl)) (rest-Filled _ _ db3 q'')
