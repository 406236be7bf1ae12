-- ===== src/Risk/Guard.antt =====
-- services/execution_router/risk_guard/src: checker.rs, audit.rs and the event loop of main.rs. What
-- Redis answers to a `GET`, whether a message encodes, and the conversion of an `f64` to a decimal are
-- parameters. A risk event stands for the insert into `risk_events`, whose failure is only logged.
-- Children: `Gates` is about the pipeline, `Overrides` about the limits from the database.
pub mod Gates
pub mod Overrides
use btc_rust_history.Prelude.{
  ℕ, zero, suc, ◌+◌, ◌-◌, ◌*◌, ◌/◌, ◌%◌, ◌^◌, ◌≤◌, ◌<◌, min, max, String, ◌≡◌, refl, sym, ap, ◌∙◌,
  ◌≢◌, ◌↔◌, ◌⊎◌, inl, inr, Bool, true, false, ◌&&◌, ◌||◌, not, Option, none, some, List, [], ◌∷◌,
  ◌++◌, map, foldl, arith, ltb, leb, eqb, if◌then◌else◌, ltb→lt, leb→le, eqb_iff, Bool-cases,
  Option-cases, is_some, get_or, or_else, length, is_empty, drop, take, last?, keep, exists, All,
  length-append, length-drop, length-take, length-keep-le, keep-All, keep_of_All, All-append,
  All-drop, drop_past, drop-append, length-map, Key, ◌==◌, nat_key, string_key, ==_refl, cat, Map,
  lookup, insert, remove, lookup-insert, lookup-insert_self, lookup-insert_ne, lookup-remove, ℤ,
  pos, negsuc, pos_part, neg_part, ◌+ℤ◌, ◌-ℤ◌, ◌*ℤ◌, tdiv, to_u32, ◌≤ℤ◌, leb_ℤ, ltb_ℤ, eqb_ℤ,
}
use btc_rust_history.Float.{F64, ◌⊕◌, ◌⊖◌, ◌⊗◌, ◌⊘◌, ◌≺◌, ◌≼◌, zero_f, sum_f, IsOrdered}
use btc_rust_history.Oms
use btc_rust_history.Oms.{OrderCommand, ExecutionReport}
use btc_rust_history.Risk.Limits.{GateResult, check_notional_limit, check_leverage_limit}
use btc_rust_history.Risk.Reasons.{
  RejectReason, kill_switch, kill_switch_account, notional_limit_exceeded, leverage_limit_exceeded,
  as_str,
}

-- A reply of Redis: an error, or a value.
pub data Reply {ℓ} (A : Type ℓ) : Type ℓ where
  reply : A → Reply A
  failed : Reply A

-- `RedisStore::get_bool`: the text "1" is true, anything else, or nothing, is false.
unfoldable pub to_bool : Reply (Option String) → Reply Bool
to_bool failed = failed
to_bool (reply none) = reply false
to_bool (reply (some v)) = reply (v == "1")

-- keys.rs
abbrev pub kill_switch_key : String
kill_switch_key = "risk:kill"

unfoldable pub kill_switch_account_key : String → String
kill_switch_account_key id = cat "risk:kill:" id

pub record Config (F : Type 0) : Type 0 where
  pub max_notional_per_order : F
  pub max_leverage : F
  pub notional_limits : Map String F

pub record DynamicLimits (F : Type 0) : Type 0 where
  pub symbol_notional : Map String F
  pub max_leverage : Option F

pub data CheckResult : Type 0 where
  approved : CheckResult
  rejected : RejectReason → String → CheckResult

pub record RiskEvent (D : Type 0) : Type 0 where
  pub check_type : String
  pub scope_ref : String
  pub pass_flag : Bool
  pub current_value : Option D
  pub limit_value : Option D
  pub action_taken : String
  pub severity : String
  pub related_order_id : String
  pub trace_id : String

-- What the service sends: a report on the reports topic, or the order on the approved topic.
pub data Output (F : Type 0) : Type 0 where
  report : ExecutionReport F → Output F
  forward : OrderCommand F → Output F

pub record LimitRow (F : Type 0) : Type 0 where
  pub scope_ref : String
  pub limit_name : String
  pub limit_value : Option F

unfoldable pub notional_limit_of : {F : Type 0} → Config F → String → DynamicLimits F → F
notional_limit_of cfg symbol dynamic =
    get_or (or_else (lookup symbol dynamic.symbol_notional) (lookup symbol cfg.notional_limits))
      cfg.max_notional_per_order

module _ {F D : Type 0} ⦃d : F64 F⦄ (from_f64 : F → Option D) where
  open d use {lit, show_fixed}

  to_decimal : Option F → Option D
  to_decimal none = none
  to_decimal (some x) = from_f64 x

  unfoldable pub risk_event :
      OrderCommand F → String → Bool → Option F → Option F → String → String → RiskEvent D
  unfolding to_decimal
  risk_event order check_type pass current limit action severity = record {
    check_type = check_type;
    scope_ref = order.symbol;
    pass_flag = pass;
    current_value = to_decimal current;
    limit_value = to_decimal limit;
    action_taken = action;
    severity = severity;
    related_order_id = order.client_order_id;
    trace_id = order.trace_id;
  }

  abbrev pub Run : Type 0
  Run = CheckResult × List (RiskEvent D)

  -- One gate: the event that it writes first, then the rest of the pipeline.
  abbrev before : RiskEvent D → Run → Run
  before e (r, es) = (r, e ∷ es)

  unfoldable pub leverage_gate : Config F → OrderCommand F → DynamicLimits F → Run
  unfolding check_leverage_limit risk_event
  leverage_gate cfg order dynamic =
      let limit = get_or dynamic.max_leverage cfg.max_leverage in
      let result = check_leverage_limit limit limit in
      if not result.pass
      then (
        rejected leverage_limit_exceeded result.reason,
        risk_event order "LEVERAGE_LIMIT" false none (some limit) "REJECTED" "CRITICAL" ∷ [],
      )
      else (approved, risk_event order "LEVERAGE_LIMIT" true none (some limit) "PASSED" "INFO" ∷ [])

  unfoldable pub notional_gate : Config F → OrderCommand F → DynamicLimits F → Run
  unfolding check_notional_limit risk_event
  notional_gate cfg order dynamic =
      let notional = order.qty ⊗ order.price in
      let limit = notional_limit_of cfg order.symbol dynamic in
      let result = check_notional_limit notional limit in
      if not result.pass
      then (
        rejected notional_limit_exceeded (
            cat "Notional " (
              cat (show_fixed 2 notional) (
                cat " exceeds limit "
                  (cat (show_fixed 2 limit) (cat " for symbol " order.symbol))))),
        risk_event order "NOTIONAL_LIMIT" false (some notional) (some limit) "REJECTED" "CRITICAL"
            ∷ [],
      )
      else before
          (risk_event order "NOTIONAL_LIMIT" true (some notional) (some limit) "PASSED" "INFO")
          (leverage_gate cfg order dynamic)

  unfoldable pub account_gate : Reply Bool → Config F → OrderCommand F → DynamicLimits F → Run
  unfolding risk_event
  account_gate (reply true) cfg order dynamic = (
    rejected kill_switch_account (cat "Kill switch active for account " order.account_id),
    risk_event order "ACCOUNT_KILL" false (some (lit 1 0)) (some zero_f) "REJECTED" "CRITICAL" ∷ [],
  )
  account_gate (reply false) cfg order dynamic =
      before (risk_event order "ACCOUNT_KILL" true (some zero_f) (some zero_f) "PASSED" "INFO")
        (notional_gate cfg order dynamic)
  account_gate failed cfg order dynamic = notional_gate cfg order dynamic

  unfoldable pub global_gate :
      Reply Bool → Reply Bool → Config F → OrderCommand F → DynamicLimits F → Run
  unfolding risk_event
  global_gate (reply true) account cfg order dynamic = (
    rejected kill_switch "Global kill switch is active",
    risk_event order "GLOBAL_KILL" false (some (lit 1 0)) (some zero_f) "REJECTED" "CRITICAL" ∷ [],
  )
  global_gate (reply false) account cfg order dynamic =
      before (risk_event order "GLOBAL_KILL" true (some zero_f) (some zero_f) "PASSED" "INFO")
        (account_gate account cfg order dynamic)
  global_gate failed account cfg order dynamic = account_gate account cfg order dynamic

  unfoldable pub run_gates :
      (String → Reply (Option String)) → Config F → OrderCommand F → DynamicLimits F → Run
  unfolding to_bool kill_switch_account_key
  run_gates get cfg order dynamic =
      global_gate (to_bool (get kill_switch_key))
        (to_bool (get (kill_switch_account_key order.account_id))) cfg order dynamic

module _ {F : Type 0} ⦃d : F64 F⦄ where
  unfoldable pub no_limits : DynamicLimits F
  no_limits = record { symbol_notional = []; max_leverage = none }

  -- The loop over the rows; a decimal that is no `f64` counts as 0.0.
  unfoldable pub add_row : DynamicLimits F → LimitRow F → DynamicLimits F
  add_row limits row =
      if row.limit_name == "MAX_POSITION_NOTIONAL"
      then record limits {
        symbol_notional =
            insert row.scope_ref (get_or row.limit_value zero_f) limits.symbol_notional;
      }
      else if row.limit_name == "MAX_LEVERAGE"
      then record limits { max_leverage = some (get_or row.limit_value zero_f) }
      else limits

  -- `fetch_dynamic_limits(..).await.unwrap_or_default()`
  unfoldable pub fetch_dynamic_limits : Reply (List (LimitRow F)) → DynamicLimits F
  unfolding no_limits
  fetch_dynamic_limits failed = no_limits
  fetch_dynamic_limits (reply rows) = foldl add_row no_limits rows

  unfoldable pub rejection_report :
      OrderCommand F → RejectReason → String → ℤ → ℤ → ExecutionReport F
  rejection_report order reason detail event_time recv_time = record {
    account_id = order.account_id;
    symbol = order.symbol;
    client_order_id = order.client_order_id;
    exchange_order_id = "";
    status = Oms.ExecutionStatus.rejected;
    side = order.side;
    last_filled_qty = zero_f;
    last_filled_price = zero_f;
    cumulative_filled_qty = zero_f;
    avg_price = zero_f;
    commission = zero_f;
    commission_asset = "";
    reject_reason = cat (as_str reason) (cat "|" detail);
    event_time_ns = event_time;
    recv_time_ns = recv_time;
    trace_id = order.trace_id;
    fill_id = "";
    fill_seq = pos 0;
    schema_version = 1;
    strategy_id = order.strategy_id;
    signal_id = order.signal_id;
  }

  -- The arms of the event loop on the result of the gates.
  unfoldable pub respond :
      (ExecutionReport F → Bool)
      → (OrderCommand F → Bool)
      → ℤ
      → ℤ
      → OrderCommand F
      → CheckResult
      → List (Output F)
  unfolding rejection_report
  respond encodes_report encodes_order event_time recv_time order (rejected reason detail) =
      let r = rejection_report order reason detail event_time recv_time in
      if encodes_report r then report r ∷ [] else []
  respond encodes_report encodes_order event_time recv_time order approved =
      if encodes_order order then forward order ∷ [] else []
