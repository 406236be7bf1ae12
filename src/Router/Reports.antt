-- ===== src/Router/Reports.antt =====
-- services/execution_router/src/producers/execution_reports.rs. Each `now` is what `now_ns` answers;
-- a report made of one call of `base_report` has one, an acknowledgement of the exchange two.
use btc_rust_history.Prelude.{
  ℕ, ◌+◌, String, ◌≡◌, ◌⊎◌, true, false, Option, none, some, List, [], ◌∷◌, arith, if◌then◌else◌,
  All, nat_key, string_key, cat, ℤ, pos, ◌*ℤ◌, wrap_i64, show_ℤ,
}
use btc_rust_history.Float.{F64, ◌⊖◌, ◌⊗◌, ◌≺◌, ◌≼◌, zero_f}
use btc_rust_history.Oms
use btc_rust_history.Oms.{OrderCommand, ExecutionReport}

-- The fields of `BinanceOrderAck` that are read.
pub record BinanceOrderAck : Type 0 where
  pub order_id : ℤ
  pub transact_time : ℤ

module _ {F : Type 0} ⦃d : F64 F⦄ where
  open d use {lit, maxf}

  unfoldable pub base_report : OrderCommand F → ℤ → ExecutionReport F
  base_report order now = record {
    account_id = order.account_id;
    symbol = order.symbol;
    client_order_id = order.client_order_id;
    exchange_order_id = cat "sim-" order.client_order_id;
    status = Oms.ExecutionStatus.new;
    side = order.side;
    last_filled_qty = zero_f;
    last_filled_price = zero_f;
    cumulative_filled_qty = zero_f;
    avg_price = zero_f;
    commission = zero_f;
    commission_asset = "USDT";
    reject_reason = "";
    event_time_ns = now;
    recv_time_ns = now;
    trace_id = order.trace_id;
    fill_id = "";
    fill_seq = pos 0;
    schema_version = 1;
    strategy_id = order.strategy_id;
    signal_id = order.signal_id;
  }

  unfoldable pub build_exchange_ack : OrderCommand F → BinanceOrderAck → ℤ → ℤ → ExecutionReport F
  unfolding base_report wrap_i64
  build_exchange_ack order ack now recv = record (base_report order now) {
    status = Oms.ExecutionStatus.new;
    exchange_order_id = show_ℤ ack.order_id;
    event_time_ns = wrap_i64 (ack.transact_time *ℤ pos 1000000);
    recv_time_ns = recv;
    fill_id = cat "ack-" (show_ℤ ack.order_id);
  }

  unfoldable pub build_reject : OrderCommand F → String → ℤ → ExecutionReport F
  unfolding base_report
  build_reject order reason now = record (base_report order now) {
    status = Oms.ExecutionStatus.rejected;
    reject_reason = reason;
  }

  unfoldable pub build_cancel : OrderCommand F → ℤ → ExecutionReport F
  unfolding base_report
  build_cancel order now = record (base_report order now) { status = Oms.ExecutionStatus.canceled }

  unfoldable pub choose_price : OrderCommand F → F
  choose_price order = if zero_f ≺ order.price then order.price else lit 62000 0

  -- One of the three filling reports of `build_reports`.
  unfoldable pub fill : OrderCommand F → ℤ → F → F → ℤ → String → ℤ → ExecutionReport F
  unfolding base_report choose_price
  fill order status last cumulative now id seq = record (base_report order now) {
    status = status;
    last_filled_qty = last;
    last_filled_price = choose_price order;
    cumulative_filled_qty = cumulative;
    avg_price = choose_price order;
    commission = last ⊗ choose_price order ⊗ lit 1 4;
    fill_id = cat order.client_order_id id;
    fill_seq = seq;
  }

  -- The three instants are those of the reports in turn.
  unfoldable pub build_reports : OrderCommand F → ℤ → ℤ → ℤ → List (ExecutionReport F)
  unfolding base_report build_reject fill
  build_reports order now0 now1 now2 =
      let ack = record (base_report order now0) {
        status = Oms.ExecutionStatus.new;
        fill_id = cat "ack-" order.client_order_id;
      } in
      let partial_qty = maxf (order.qty ⊗ lit 4 1) (lit 1 4) in
      let partial =
        fill order Oms.ExecutionStatus.partially_filled partial_qty partial_qty now1 "-p1"
          (pos 1) in
      let rest =
        fill order Oms.ExecutionStatus.filled (order.qty ⊖ partial_qty) order.qty now2 "-p2"
          (pos 2) in
      let whole = fill order Oms.ExecutionStatus.filled order.qty order.qty now1 "-f1" (pos 1) in
      if order.qty ≼ zero_f
      then build_reject order "qty must be > 0" now0 ∷ []
      else if partial_qty ≺ order.qty
      then ack ∷ partial ∷ rest ∷ []
      else ack ∷ whole ∷ []

  pub BelongsTo : OrderCommand F → ExecutionReport F → Type 0
  BelongsTo order r =
      (r.client_order_id ≡ order.client_order_id)
      × (r.account_id ≡ order.account_id)
      × (r.symbol ≡ order.symbol)
      × (r.side ≡ order.side)

  -- A report that fills a quantity at the simulated price, with a commission of a hundredth of a percent.
  pub Fills : OrderCommand F → F → F → ExecutionReport F → Type 0
  Fills order quantity cumulative r =
      (r.last_filled_qty ≡ quantity)
      × (r.cumulative_filled_qty ≡ cumulative)
      × (r.last_filled_price ≡ choose_price order)
      × (r.avg_price ≡ choose_price order)
      × (r.commission ≡ quantity ⊗ choose_price order ⊗ lit 1 4)

  pub FillsNothing : ExecutionReport F → Type 0
  FillsNothing r = (r.last_filled_qty ≡ zero_f) × (r.cumulative_filled_qty ≡ zero_f)

  -- The fills of an order, numbered from `seq` on, after those that filled nothing yet (`none`) or a
  -- quantity that is less than the order's. The last fill completes the order; an earlier one is partial.
  pub IsFilledBy : OrderCommand F → ℕ → Option F → List (ExecutionReport F) → Type 0
  IsFilledBy order seq before [] = ⊥
  IsFilledBy order seq before (r ∷ []) =
      (r.status ≡ Oms.ExecutionStatus.filled)
      × (r.fill_seq ≡ pos seq)
      × Fills order (remaining before) order.qty r
    where
      remaining : Option F → F
      remaining none = order.qty
      remaining (some filled) = order.qty ⊖ filled
  IsFilledBy order seq before (r ∷ r' ∷ rs) =
      (before ≡ none)
      × (r.status ≡ Oms.ExecutionStatus.partially_filled)
      × (r.fill_seq ≡ pos seq)
      × Fills order r.last_filled_qty r.last_filled_qty r
      × ((r.cumulative_filled_qty ≺ order.qty) ≡ true)
      × IsFilledBy order (seq + 1) (some r.cumulative_filled_qty) (r' ∷ rs)

  -- A rejection, or an acknowledgement and the fills of the whole order.
  pub IsStory : OrderCommand F → List (ExecutionReport F) → Type 0
  IsStory order [] = ⊥
  IsStory order (r ∷ rs) =
      FillsNothing r
      × (((order.qty ≼ zero_f) ≡ true) × (r.status ≡ Oms.ExecutionStatus.rejected) × (rs ≡ [])
          ⊎ ((order.qty ≼ zero_f) ≡ false)
            × (r.status ≡ Oms.ExecutionStatus.new)
            × IsFilledBy order 1 none rs)

  -- The simulated reports of an order all have its identifiers and its side. Where the quantity is at most
  -- zero there is one report, a rejection; otherwise an acknowledgement, and then fills, numbered from
  -- one, which fill the order: either one of the whole quantity, or a partial one of less than that and
  -- then one of exactly what it left. Each fill is at the simulated price, with its commission, and only
  -- the last has the status FILLED and the whole quantity as its cumulative one.
  pub build_reports_lem :
      (order : OrderCommand F) (now0 now1 now2 : ℤ)
      → let rs = build_reports order now0 now1 now2 in All (BelongsTo order) rs × IsStory order rs
  unfolding build_reports BelongsTo Fills FillsNothing IsFilledBy IsStory
  build_reports_lem order now0 now1 now2 = ground arith
