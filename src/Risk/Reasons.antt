-- ===== src/Risk/Reasons.antt =====
-- libs/rust/hft_risk/src/reject_reason.rs: the codes of the reasons to reject an order.
use btc_rust_history.Prelude.{
  String, ◌≡◌, refl, ◌↔◌, Option, none, some, arith, if◌then◌else◌, ◌==◌, nat_key, string_key,
}

pub data RejectReason : Type 0 where
  kill_switch : RejectReason
  kill_switch_account : RejectReason
  notional_limit_exceeded : RejectReason
  leverage_limit_exceeded : RejectReason
  symbol_not_allowed : RejectReason
  rate_limit_exceeded : RejectReason
  malformed_order : RejectReason
  internal_error : RejectReason

unfoldable pub as_str : RejectReason → String
as_str kill_switch = "KILL_SWITCH"
as_str kill_switch_account = "KILL_SWITCH_ACCOUNT"
as_str notional_limit_exceeded = "NOTIONAL_LIMIT_EXCEEDED"
as_str leverage_limit_exceeded = "LEVERAGE_LIMIT_EXCEEDED"
as_str symbol_not_allowed = "SYMBOL_NOT_ALLOWED"
as_str rate_limit_exceeded = "RATE_LIMIT_EXCEEDED"
as_str malformed_order = "MALFORMED_ORDER"
as_str internal_error = "INTERNAL_ERROR"

unfoldable pub from_str : String → Option RejectReason
from_str s =
    if s == "KILL_SWITCH"
    then some kill_switch
    else if s == "KILL_SWITCH_ACCOUNT"
    then some kill_switch_account
    else if s == "NOTIONAL_LIMIT_EXCEEDED"
    then some notional_limit_exceeded
    else if s == "LEVERAGE_LIMIT_EXCEEDED"
    then some leverage_limit_exceeded
    else if s == "SYMBOL_NOT_ALLOWED"
    then some symbol_not_allowed
    else if s == "RATE_LIMIT_EXCEEDED"
    then some rate_limit_exceeded
    else if s == "MALFORMED_ORDER"
    then some malformed_order
    else if s == "INTERNAL_ERROR"
    then some internal_error
    else none

from_str-as_str : (r : RejectReason) → from_str (as_str r) ≡ some r
unfolding from_str as_str
from_str-as_str kill_switch = refl
from_str-as_str kill_switch_account = refl
from_str-as_str notional_limit_exceeded = refl
from_str-as_str leverage_limit_exceeded = refl
from_str-as_str symbol_not_allowed = refl
from_str-as_str rate_limit_exceeded = refl
from_str-as_str malformed_order = refl
from_str-as_str internal_error = refl

as_str_of_from_str : (s : String) (r : RejectReason) → from_str s ≡ some r → s ≡ as_str r
unfolding from_str as_str
as_str_of_from_str s r e = ground (
  arith,
  string_key.same_iff s "KILL_SWITCH",
  string_key.same_iff s "KILL_SWITCH_ACCOUNT",
  string_key.same_iff s "NOTIONAL_LIMIT_EXCEEDED",
  string_key.same_iff s "LEVERAGE_LIMIT_EXCEEDED",
  string_key.same_iff s "SYMBOL_NOT_ALLOWED",
  string_key.same_iff s "RATE_LIMIT_EXCEEDED",
  string_key.same_iff s "MALFORMED_ORDER",
  string_key.same_iff s "INTERNAL_ERROR",
)

-- A code parses to a reason exactly when it is that reason's code: the two tables agree in both
-- directions, and no other text parses.
pub from_str_iff : (s : String) (r : RejectReason) → (from_str s ≡ some r) ↔ (s ≡ as_str r)
from_str_iff s r = (as_str_of_from_str s r, λ e. rw e (from_str-as_str r))
