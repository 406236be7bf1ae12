-- ===== src/Tests/Risk.antt =====
-- The risk guard on an order.
use btc_rust_history.Prelude.{
  String, ◌≡◌, refl, ◌↔◌, Option, none, some, List, [], ◌∷◌, if◌then◌else◌, get_or, or_else, ◌==◌,
  nat_key, string_key, cat, lookup, ℤ, ◌*ℤ◌, tdiv,
}
use btc_rust_history.Float.{◌⊗◌, ◌≼◌}
use btc_rust_history.Float.Model.{Fixed, num, fixed_f64}
use btc_rust_history.Risk.Reasons.{notional_limit_exceeded, from_str, as_str, from_str_iff}
use btc_rust_history.Risk.Guard.{
  Reply, reply, failed, Config, DynamicLimits, LimitRow, run_gates, fetch_dynamic_limits,
  notional_limit_of, global_gate, account_gate, notional_gate,
}
use btc_rust_history.Risk.Guard.Gates.{
  reason_of, first_failure, is_active, Trail, run_gates-first_failure, run_gates-Trail,
}
use btc_rust_history.Risk.Guard.Overrides.{last_notional, last_leverage, fetch_dynamic_limits-last}
use btc_rust_history.Tests.Data.{fixed, market_order}

abbrev to_ℤ : Fixed → Option ℤ
to_ℤ (num a) = some a
to_ℤ a = none

-- The global kill switch is off, that of account a1 fails to answer.
abbrev redis : String → Reply (Option String)
redis key = if key == "risk:kill" then reply (some "0") else failed

abbrev config : Config Fixed
config = record {
  max_notional_per_order = fixed 1000;
  max_leverage = fixed 5;
  notional_limits = ("BTCUSDT", fixed 150) ∷ [];
}

abbrev limits : DynamicLimits Fixed
limits = record { symbol_notional = []; max_leverage = none }

-- The order is rejected: 200 is more than the 150 of its symbol.
test_rejected :
    reason_of (run_gates to_ℤ redis config market_order limits).0 ≡ some notional_limit_exceeded
unfolding run_gates ◌*ℤ◌ tdiv notional_limit_of global_gate account_gate notional_gate lookup
test_rejected = refl

run_gates-first_failure_example :
    reason_of (run_gates to_ℤ redis config market_order limits).0
    ≡ first_failure
        (is_active (redis "risk:kill"))
        (is_active (redis (cat "risk:kill:" "a1")))
        (fixed 2 ⊗ fixed 100 ≼ notional_limit_of config "BTCUSDT" limits)
        (fixed 5 ≼ fixed 5)
run_gates-first_failure_example = run_gates-first_failure to_ℤ redis config market_order limits

run_gates-Trail_example :
    let (result, events) = run_gates to_ℤ redis config market_order limits in
    Trail to_ℤ market_order (reason_of result) events
run_gates-Trail_example = run_gates-Trail to_ℤ redis config market_order limits

abbrev rows : List (LimitRow Fixed)
rows =
    (record {
      scope_ref = "BTCUSDT";
      limit_name = "MAX_POSITION_NOTIONAL";
      limit_value = some (fixed 7);
    })
    ∷ (record {
      scope_ref = "BTCUSDT";
      limit_name = "MAX_POSITION_NOTIONAL";
      limit_value = some (fixed 9);
    })
    ∷ (record { scope_ref = ""; limit_name = "MAX_LEVERAGE"; limit_value = some (fixed 3) })
    ∷ []

fetch_dynamic_limits-last_example :
    (notional_limit_of config "BTCUSDT" (fetch_dynamic_limits (reply rows))
      ≡ get_or
          (or_else (last_notional "BTCUSDT" rows) (lookup "BTCUSDT" config.notional_limits))
          (fixed 1000))
    × ((fetch_dynamic_limits (reply rows)).max_leverage ≡ last_leverage rows)
fetch_dynamic_limits-last_example = fetch_dynamic_limits-last config "BTCUSDT" (reply rows)

from_str_iff_example :
    (from_str "NOTIONAL_LIMIT_EXCEEDED" ≡ some notional_limit_exceeded)
    ↔ ("NOTIONAL_LIMIT_EXCEEDED" ≡ as_str notional_limit_exceeded)
from_str_iff_example = from_str_iff "NOTIONAL_LIMIT_EXCEEDED" notional_limit_exceeded
