-- ===== src/Router/Exits.antt =====
-- The exit of a position that a report is: `DecisionMeta`, `normalize_exit_kind`,
-- `detect_exit_trigger` and `outcome_from_exit` of services/execution_router/src/store/writer.rs.
-- Child `Labels` says which reports are labelled a win or a loss.
pub mod Labels
use btc_rust_history.Prelude.{
  String, ◌≡◌, refl, ◌⊎◌, inl, inr, true, false, ◌||◌, not, Option, none, some, List, arith,
  if◌then◌else◌, or_else, ◌==◌, nat_key, string_key, pair_key, int_key, eqb_ℤ,
}
use btc_rust_history.Float.{F64, ◌≺◌, ◌≼◌, zero_f}
use btc_rust_history.Oms
use btc_rust_history.Oms.{OrderCommand, ExecutionReport}
use btc_rust_history.Router.Handle.{Texts}

pub record DecisionMeta (F : Type 0) : Type 0 where
  pub take_profit_price : Option F
  pub coin_tags : Option (List String)
  pub exit_kind : Option String

-- The arms of the match on the trimmed text in capitals.
unfoldable pub exit_kind_of : String → Option String
exit_kind_of raw =
    if raw == "STOP_LOSS" || raw == "SL"
    then some "STOP_LOSS"
    else if raw == "TAKE_PROFIT" || raw == "TP"
    then some "TAKE_PROFIT"
    else none

unfoldable pub normalize_kind : Texts → Option String → Option String
unfolding exit_kind_of
normalize_kind t none = none
normalize_kind t (some raw) = exit_kind_of (t.to_ascii_uppercase (t.trim raw))

unfoldable pub normalize_exit_kind : {F : Type 0} → Texts → DecisionMeta F → Option String
unfolding normalize_kind
normalize_exit_kind t meta = normalize_kind t meta.exit_kind

module _ {F : Type 0} ⦃d : F64 F⦄ where
  -- The comparisons with the two limits, once there are both.
  unfoldable pub trigger_at : OrderCommand F → F → F → F → Option String
  trigger_at order tp sl px =
      if eqb_ℤ order.side Oms.OrderSide.sell
      then (if tp ≼ px then some "TAKE_PROFIT" else if px ≼ sl then some "STOP_LOSS" else none)
      else if px ≼ tp
      then some "TAKE_PROFIT"
      else if sl ≼ px
      then some "STOP_LOSS"
      else none

  unfoldable pub trigger_of_price : OrderCommand F → ExecutionReport F → Option F → Option String
  unfolding trigger_at
  trigger_of_price order report none = none
  trigger_of_price order report (some tp) =
      if zero_f ≺ order.stop_price
      then trigger_at order tp order.stop_price report.last_filled_price
      else none

  unfoldable pub detect_exit_trigger :
      Texts → OrderCommand F → ExecutionReport F → DecisionMeta F → Option String
  unfolding normalize_exit_kind trigger_of_price
  detect_exit_trigger t order report meta =
      or_else (normalize_exit_kind t meta) (
        if not order.reduce_only
        then none
        else trigger_of_price order report meta.take_profit_price)

-- The outcome where no exit kind decides it.
unfoldable pub outcome_of_status : {F : Type 0} → ExecutionReport F → String × Option String
outcome_of_status report =
    if eqb_ℤ report.status Oms.ExecutionStatus.rejected
    then ("UNKNOWN", some "order_rejected")
    else if eqb_ℤ report.status Oms.ExecutionStatus.canceled
    then ("UNKNOWN", some "order_canceled")
    else ("UNKNOWN", none)

unfoldable pub outcome_from_exit :
    {F : Type 0} → ExecutionReport F → Option String → String × Option String
unfolding outcome_of_status
outcome_from_exit report none = outcome_of_status report
outcome_from_exit report (some kind) =
    if kind == "TAKE_PROFIT"
    then ("WIN", some "take_profit_hit")
    else if kind == "STOP_LOSS"
    then ("LOSS", some "stop_loss_hit")
    else outcome_of_status report

-- What a trigger and an outcome are to one another, for a report.
pub Agree : {F : Type 0} → ExecutionReport F → Option String → String × Option String → Type 0
Agree report trigger outcome =
    (trigger ≡ some "TAKE_PROFIT") × (outcome ≡ ("WIN", some "take_profit_hit"))
    ⊎ (trigger ≡ some "STOP_LOSS") × (outcome ≡ ("LOSS", some "stop_loss_hit"))
    ⊎ (trigger ≡ none) × (outcome ≡ outcome_of_status report)

-- The texts that `detect_exit_trigger` answers.
abbrev pub IsTrigger : Option String → Type 0
IsTrigger trigger = (trigger ≡ some "TAKE_PROFIT") ⊎ (trigger ≡ some "STOP_LOSS") ⊎ (trigger ≡ none)

exit_kind_of-IsTrigger : (raw : String) → IsTrigger (exit_kind_of raw)
unfolding exit_kind_of
exit_kind_of-IsTrigger raw = ground arith

normalize_kind-IsTrigger : (t : Texts) (o : Option String) → IsTrigger (normalize_kind t o)
unfolding normalize_kind
normalize_kind-IsTrigger t none = inr (inr refl)
normalize_kind-IsTrigger t (some raw) = exit_kind_of-IsTrigger (t.to_ascii_uppercase (t.trim raw))

or_else-IsTrigger : (o o' : Option String) → IsTrigger o → IsTrigger o' → IsTrigger (or_else o o')
or_else-IsTrigger none o' h h' = h'
or_else-IsTrigger (some k) o' h h' = h

outcome_from_exit-Agree :
    {F : Type 0} (report : ExecutionReport F) (trigger : Option String)
    → IsTrigger trigger
    → Agree report trigger (outcome_from_exit report trigger)
unfolding Agree outcome_from_exit
outcome_from_exit-Agree report trigger (inl e) = rw e (inl (refl, refl))
outcome_from_exit-Agree report trigger (inr (inl e)) = rw e (inr (inl (refl, refl)))
outcome_from_exit-Agree report trigger (inr (inr e)) = rw e (inr (inr (refl, refl)))

module _ {F : Type 0} ⦃d : F64 F⦄ where
  trigger_of_price-IsTrigger :
      (order : OrderCommand F) (report : ExecutionReport F) (o : Option F)
      → IsTrigger (trigger_of_price order report o)
  unfolding trigger_of_price
  trigger_of_price-IsTrigger order report none = inr (inr refl)
  trigger_of_price-IsTrigger order report (some tp) = ground arith

  pub detect-IsTrigger :
      (t : Texts) (order : OrderCommand F) (report : ExecutionReport F) (meta : DecisionMeta F)
      → IsTrigger (detect_exit_trigger t order report meta)
  unfolding detect_exit_trigger
  detect-IsTrigger t order report meta =
      or_else-IsTrigger _ _ (normalize_kind-IsTrigger t meta.exit_kind)
        (elim order.reduce_only
          as (λ b.
            IsTrigger
              (if not b then none else trigger_of_price order report meta.take_profit_price)) [
                | true ↦ trigger_of_price-IsTrigger order report meta.take_profit_price
                | false ↦ inr (inr refl)
              ])

  -- The trigger of an order and a report is TAKE_PROFIT, and then the outcome is WIN, or it is
  -- STOP_LOSS, and then the outcome is LOSS, or there is none, and then the outcome is UNKNOWN with a
  -- reason by the status.
  pub outcome-detect :
      (t : Texts) (order : OrderCommand F) (report : ExecutionReport F) (meta : DecisionMeta F)
      → let trigger = detect_exit_trigger t order report meta in
        Agree report trigger (outcome_from_exit report trigger)
  outcome-detect t order report meta =
      outcome_from_exit-Agree report _ (detect-IsTrigger t order report meta)
