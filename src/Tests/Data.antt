-- ===== src/Tests/Data.antt =====
-- Orders, texts and answers that the examples share.
use btc_rust_history.Prelude.{
  ℕ, ◌*◌, ◌≡◌, refl, true, false, Option, none, some, arith, is_some, nat_key, string_key, pos,
}
use btc_rust_history.Float.Model.{Fixed, num, fixed_f64}
use btc_rust_history.Oms
use btc_rust_history.Oms.{OrderCommand, ExecutionReport}

-- A whole number.
abbrev pub fixed : ℕ → Fixed
fixed n = num (pos (n * 1000))

abbrev pub market_order : OrderCommand Fixed
market_order = record {
  account_id = "a1";
  symbol = "BTCUSDT";
  client_order_id = "o1";
  side = Oms.OrderSide.buy;
  order_type = Oms.OrderType.market;
  tif = Oms.TimeInForce.ioc;
  qty = fixed 2;
  price = fixed 100;
  reduce_only = false;
  stop_price = fixed 0;
  decision_reason = "";
  trace_id = "t1";
  decision_time_ns = pos 5;
  schema_version = 1;
  action = pos 1;
  strategy_id = "s1";
  signal_id = "g1";
}

-- A command to cancel, of type MARKET.
abbrev pub cancel_order : OrderCommand Fixed
cancel_order = record market_order { action = Oms.OrderAction.cancel }

pub none_lem : false ≡ true → ⊥
none_lem h = ground arith

-- The value of an option that has one.
unfoldable pub the : {A : Type 0} (o : Option A) → is_some o ≡ true → A
the none h = absurd (none_lem h)
the (some a) h = a

pub the_lem : {A : Type 0} (o : Option A) (h : is_some o ≡ true) → o ≡ some (the o h)
unfolding the
the_lem none h = absurd (none_lem h)
the_lem (some a) h = refl
