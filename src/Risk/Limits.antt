-- ===== src/Risk/Limits.antt =====
-- libs/rust/hft_risk/src: gates.rs, limits.rs and sizing.rs.
use btc_rust_history.Prelude.{
  String, ◌≡◌, Bool, true, false, ◌||◌, Option, none, some, arith, if◌then◌else◌, nat_key,
  string_key, cat,
}
use btc_rust_history.Float.{F64, ◌⊖◌, ◌⊗◌, ◌⊘◌, ◌≼◌, zero_f}

pub record GateResult : Type 0 where
  pub pass : Bool
  pub reason : String
  pub note : Option String

pub record QtyPlan (F : Type 0) : Type 0 where
  pub qty : F
  pub risk_pct : F

unfoldable pub passed : GateResult
passed = record { pass = true; reason = "Passed"; note = none }

unfoldable pub fail : String → GateResult
fail reason = record { pass = false; reason = reason; note = none }

unfoldable pub with_note : GateResult → String → GateResult
with_note r note = record r { note = some note }

module _ {F : Type 0} ⦃d : F64 F⦄ where
  open d use {lit, show, abs, eq}

  unfoldable pub check_notional_limit : F → F → GateResult
  unfolding passed fail
  check_notional_limit notional limit =
      if notional ≼ limit
      then passed
      else fail (
          cat "Notional limit exceeded: current="
            (cat (show notional) (cat ", limit=" (show limit))))

  unfoldable pub check_leverage_limit : F → F → GateResult
  unfolding passed fail
  check_leverage_limit leverage limit =
      if leverage ≼ limit
      then passed
      else fail (
          cat "Leverage limit exceeded: current="
            (cat (show leverage) (cat ", limit=" (show limit))))

  unfoldable pub compute_qty_by_risk : F → F → F → F → QtyPlan F
  compute_qty_by_risk account_value entry_price stop_loss_price risk_pct_of_account =
      if entry_price ≼ zero_f || stop_loss_price ≼ zero_f || eq entry_price stop_loss_price
      then record { qty = zero_f; risk_pct = zero_f }
      else let risk_amount = account_value ⊗ (risk_pct_of_account ⊘ lit 100 0) in
        let risk_per_unit = abs (entry_price ⊖ stop_loss_price) in
        record { qty = risk_amount ⊘ risk_per_unit; risk_pct = risk_pct_of_account }

  -- A long and a short position with the same two prices get the same plan, where the distance of
  -- two prices and their equality do not depend on the order.
  pub compute_qty_by_risk_swap :
      (account entry stop pct : F)
      → abs (entry ⊖ stop) ≡ abs (stop ⊖ entry)
      → eq entry stop ≡ eq stop entry
      → compute_qty_by_risk account entry stop pct ≡ compute_qty_by_risk account stop entry pct
  unfolding compute_qty_by_risk
  compute_qty_by_risk_swap account entry stop pct dist same = ground arith
