-- ===== src/Tests/Writer.antt =====
-- The database writer of the router on reports that fill, fail and come again.
use btc_rust_history.Float.{zero_f}
use btc_rust_history.Database.{Commit, and_then}
use btc_rust_history.Prelude.{
  String, ◌≡◌, refl, true, false, none, some, [], ◌∷◌, foldl, if◌then◌else◌, ◌==◌, nat_key,
  string_key, pair_key, int_key, lookup, insert, pos, ◌↔◌,
}
use btc_rust_history.Float.Model.{Fixed, fixed_f64}
use btc_rust_history.Oms
use btc_rust_history.Oms.{OrderCommand, ExecutionReport}
use btc_rust_history.Router.Reports.{base_report, fill}
use btc_rust_history.Router.Handle.{Texts}
use btc_rust_history.Router.Codes.{is_fill_like}
use btc_rust_history.Router.Exits.Labels.{IsWin, IsLoss, outcome_from_exit_iff}
use btc_rust_history.Router.Exits.{DecisionMeta, detect_exit_trigger, outcome_from_exit}
use btc_rust_history.Router.Tables.{Db}
use btc_rust_history.Router.Writer.{Calls, Table, Session, execute}
use btc_rust_history.Router.Writer.Rows.{qty_delta}
use btc_rust_history.Router.Writer.Persist.{persist_execution}
use btc_rust_history.Router.Writer.Atomic.{Atomic, persist_execution-Atomic}
use btc_rust_history.Router.Writer.History.{
  Call, qty_of, add_qty, persist_all, booked, positions_booked, replay_moves_position_again,
}
use btc_rust_history.Tests.Data.{fixed, market_order}

abbrev texts : Texts
texts = record {
  trim = λ s. s;
  to_ascii_uppercase = λ s. s;
  eq_ignore_ascii_case = λ s s'. s == s';
}

abbrev calls : Calls Fixed Fixed String
calls = record {
  texts = texts;
  parse_str = λ s. if s == "o1" then some 1 else none;
  meta_from_str = λ s. none;
  json_from_str = λ s. none;
  empty_object = "{}";
  raw_decision_reason = λ s. s;
  to_value = λ r. some r.fill_id;
  from_timestamp = λ secs nanos. some secs;
  utc_now = pos 0;
  hash = λ a b t q p. 7;
  numeric = λ x. x;
  plus = fixed_f64.add;
  is_zero = λ x. fixed_f64.eq x zero_f;
}

abbrev answers : Session
answers = record { begins = true; executes = λ t. true; commits = Commit.committed }

abbrev refuses_positions : Session
refuses_positions = record answers { executes = λ t. elim t [ Table.positions ↦ false | _ ↦ true ] }

abbrev empty_tables : Db Fixed String
empty_tables = record {
  orders = [];
  order_events = [];
  order_training_events = [];
  trades = [];
  positions = [];
  order_exit_tag_snapshots = [];
}

abbrev fill_report : ExecutionReport Fixed
fill_report = fill market_order Oms.ExecutionStatus.filled (fixed 2) (fixed 2) (pos 5) "-f1" (pos 1)

abbrev fill_call : Call Fixed
fill_call = record { session = answers; order = market_order; report = fill_report }

-- A statement that fails leaves nothing of the ones before it.
test_rollback :
    persist_execution calls refuses_positions market_order fill_report "paper" "sim" empty_tables
    ≡ (empty_tables, false)
unfolding persist_execution execute and_then fill lookup insert
test_rollback = refl

persist_execution-Atomic_example :
    Atomic calls market_order fill_report Commit.committed empty_tables
      (persist_execution calls answers market_order fill_report "paper" "sim" empty_tables)
persist_execution-Atomic_example =
    persist_execution-Atomic calls answers market_order fill_report "paper" "sim" empty_tables

positions_booked_example :
    qty_of (
      lookup
        ("a1", "BTCUSDT")
        (persist_all calls "paper" "sim"
          (fill_call ∷ record fill_call { session = refuses_positions } ∷ [])
          empty_tables).positions)
    ≡ foldl (add_qty calls) none (
        booked calls "paper" "sim"
          ("a1", "BTCUSDT")
          (fill_call ∷ record fill_call { session = refuses_positions } ∷ [])
          empty_tables)
unfolding lookup
positions_booked_example =
    positions_booked calls "paper" "sim" ("a1", "BTCUSDT")
      (fill_call ∷ record fill_call { session = refuses_positions } ∷ []) empty_tables
      ((λ e. cc), ((λ e. cc), tt))

replay_moves_position_again_example :
    let once =
      persist_execution calls answers market_order fill_report "paper" "sim" empty_tables in
    let twice = persist_execution calls answers market_order fill_report "paper" "sim" once.0 in
    (twice.0.trades ≡ once.0.trades)
    × (qty_of (lookup ("a1", "BTCUSDT") twice.0.positions)
        ≡ add_qty calls
            (qty_of (lookup ("a1", "BTCUSDT") once.0.positions))
            (qty_delta calls market_order fill_report))
unfolding persist_execution execute and_then fill is_fill_like lookup insert
replay_moves_position_again_example =
    replay_moves_position_again calls "paper" "sim" answers answers market_order fill_report
      empty_tables refl refl refl

-- A reduce-only order to sell with a take-profit at 110 and a stop at 90.
abbrev exit_order : OrderCommand Fixed
exit_order = record market_order {
  side = Oms.OrderSide.sell;
  reduce_only = true;
  stop_price = fixed 90;
}

abbrev exit_meta : DecisionMeta Fixed
exit_meta = record { take_profit_price = some (fixed 110); coin_tags = none; exit_kind = none }

-- A report that fills nothing is labelled a loss.
test_unfilled_is_loss :
    (outcome_from_exit
      (base_report exit_order (pos 5))
      (detect_exit_trigger texts exit_order (base_report exit_order (pos 5)) exit_meta)).0
    ≡ "LOSS"
unfolding base_report detect_exit_trigger outcome_from_exit
test_unfilled_is_loss = refl

outcome_from_exit_iff_example :
    let report = base_report exit_order (pos 5) in
    let label =
      (outcome_from_exit report (detect_exit_trigger texts exit_order report exit_meta)).0 in
    ((label ≡ "WIN") ↔ IsWin texts exit_order report exit_meta)
    × ((label ≡ "LOSS") ↔ IsLoss texts exit_order report exit_meta)
outcome_from_exit_iff_example =
    outcome_from_exit_iff texts exit_order (base_report exit_order (pos 5)) exit_meta
