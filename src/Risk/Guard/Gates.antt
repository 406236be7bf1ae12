-- ===== src/Risk/Guard/Gates.antt =====
-- What the gate pipeline decides, in which order, what it writes, and what follows from it.
use btc_rust_history.Prelude.{
  String, ◌≡◌, Bool, true, false, not, Option, none, some, List, [], ◌∷◌, arith, if◌then◌else◌,
  is_some, get_or, ◌==◌, nat_key, string_key, cat,
}
use btc_rust_history.Float.{F64, ◌⊗◌, ◌≼◌}
use btc_rust_history.Oms.{OrderCommand}
use btc_rust_history.Risk.Reasons.{
  RejectReason, kill_switch, kill_switch_account, notional_limit_exceeded, leverage_limit_exceeded,
}
use btc_rust_history.Risk.Guard.{
  Reply, reply, failed, Config, DynamicLimits, CheckResult, approved, rejected, RiskEvent,
  leverage_gate, notional_limit_of, notional_gate, account_gate, global_gate, run_gates,
}

-- Redis holds the text "1" at the key. An error counts as "no".
abbrev pub is_active : Reply (Option String) → Bool
is_active failed = false
is_active (reply none) = false
is_active (reply (some v)) = v == "1"

abbrev pub reason_of : CheckResult → Option RejectReason
reason_of approved = none
reason_of (rejected r _) = some r

-- The documented priority of the four gates.
abbrev pub first_failure : Bool → Bool → Bool → Bool → Option RejectReason
first_failure global account notional_fits leverage_fits =
    if global
    then some kill_switch
    else if account
    then some kill_switch_account
    else if not notional_fits
    then some notional_limit_exceeded
    else if not leverage_fits
    then some leverage_limit_exceeded
    else none

module _ {F D : Type 0} ⦃d : F64 F⦄ (from_f64 : F → Option D) where
  -- All events but the last say "passed"; the last says what the pipeline decided.
  abbrev pub Trail : OrderCommand F → Option RejectReason → List (RiskEvent D) → Type 0
  Trail order decision [] = ⊥
  Trail order decision (e ∷ []) =
      (e.pass_flag ≡ not (is_some decision)) × (e.related_order_id ≡ order.client_order_id)
  Trail order decision (e ∷ e' ∷ es) =
      (e.pass_flag ≡ true)
      × (e.related_order_id ≡ order.client_order_id)
      × Trail order decision (e' ∷ es)

  -- The pipeline answers with the first gate that fails, in the order global kill switch, kill
  -- switch of the account, notional limit (of the symbol in the database, else in the
  -- configuration, else the general one), leverage limit. A kill switch that Redis fails to
  -- answer for counts as off, and a notional that is not a number fails its gate. The leverage
  -- gate compares the limit with itself.
  pub run_gates-first_failure :
      (get : String → Reply (Option String)) (cfg : Config F) (order : OrderCommand F)
      (dynamic : DynamicLimits F)
      → let leverage = get_or dynamic.max_leverage cfg.max_leverage in
        reason_of (run_gates from_f64 get cfg order dynamic).0
        ≡ first_failure
            (is_active (get "risk:kill"))
            (is_active (get (cat "risk:kill:" order.account_id)))
            (order.qty ⊗ order.price ≼ notional_limit_of cfg order.symbol dynamic)
            (leverage ≼ leverage)
  unfolding run_gates global_gate account_gate notional_gate leverage_gate
  run_gates-first_failure get cfg order dynamic = ground arith

  -- Every run writes at least one risk event. Each carries the order's id; all but the last are
  -- passes, and the last is a pass exactly when the order is approved.
  pub run_gates-Trail :
      (get : String → Reply (Option String)) (cfg : Config F) (order : OrderCommand F)
      (dynamic : DynamicLimits F)
      → let (result, events) = run_gates from_f64 get cfg order dynamic in
        Trail order (reason_of result) events
  unfolding run_gates global_gate account_gate notional_gate leverage_gate
  run_gates-Trail get cfg order dynamic = ground arith
