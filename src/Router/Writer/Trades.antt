-- ===== src/Router/Writer/Trades.antt =====
-- The trades table under the INSERT of `insert_fill_idempotent` in
-- services/execution_router/src/store/writer.rs.
use btc_rust_history.Prelude.{
  ◌≡◌, refl, inl, inr, true, some, List, arith, Bool-cases, exists, nat_key, string_key, pair_key,
  int_key, ==_refl,
}
use btc_rust_history.Router.Tables.{TradeRow}
use btc_rust_history.Router.Writer.Fills.{insert_trade, is_fill}

is_fill_self : {N : Type 0} (row : TradeRow N) → is_fill row.fill_id row.trade_time row ≡ true
unfolding is_fill
is_fill_self row = rw (==_refl row.fill_id, ==_refl row.trade_time) refl

pub exists-insert_trade :
    {N : Type 0} (row : TradeRow N) (old : List (TradeRow N)) {new : List (TradeRow N)}
    → insert_trade row old ≡ some new
    → exists (is_fill row.fill_id row.trade_time) new ≡ true
unfolding insert_trade
exists-insert_trade row old e =
    elim (Bool-cases (exists (is_fill row.fill_id row.trade_time) old)) [
      | inl there ↦ ground arith
      | inr new_fill ↦ ground (arith, is_fill_self row)
    ]

pub insert_trade_again :
    {N : Type 0} (row : TradeRow N) (old : List (TradeRow N)) {new : List (TradeRow N)}
    → insert_trade row old ≡ some new
    → exists (is_fill row.fill_id row.trade_time) old ≡ true
    → new ≡ old
unfolding insert_trade
insert_trade_again row old e there = ground arith
