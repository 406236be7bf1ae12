-- ===== src/Oms.antt =====
-- The messages of proto/oms, as the services hold them: enumerations are `i32` codes.
pub mod ExecutionStatus
pub mod OrderSide
pub mod OrderAction
pub mod OrderType
pub mod TimeInForce
use btc_rust_history.Prelude.{
  ℕ, zero, suc, ◌+◌, ◌-◌, ◌*◌, ◌/◌, ◌%◌, ◌^◌, ◌≤◌, ◌<◌, min, max, String, ◌≡◌, refl, sym, ap, ◌∙◌,
  ◌≢◌, ◌↔◌, ◌⊎◌, inl, inr, Bool, true, false, ◌&&◌, ◌||◌, not, Option, none, some, List, [], ◌∷◌,
  ◌++◌, map, foldl, arith, ltb, leb, eqb, if◌then◌else◌, ltb→lt, leb→le, eqb_iff, Bool-cases,
  Option-cases, is_some, get_or, or_else, length, is_empty, drop, take, last?, keep, exists, All,
  length-append, length-drop, length-take, length-keep-le, keep-All, keep_of_All, All-append,
  All-drop, drop_past, drop-append, length-map, Key, ◌==◌, nat_key, string_key, ==_refl, cat, Map,
  lookup, insert, remove, lookup-insert, lookup-insert_self, lookup-insert_ne, lookup-remove, ℤ,
  pos, negsuc, pos_part, neg_part, ◌+ℤ◌, ◌-ℤ◌, ◌*ℤ◌, tdiv, to_u32, ◌≤ℤ◌, leb_ℤ, ltb_ℤ, eqb_ℤ,
}

pub record OrderCommand (F : Type 0) : Type 0 where
  pub account_id : String
  pub symbol : String
  pub client_order_id : String
  pub side : ℤ
  pub order_type : ℤ
  pub tif : ℤ
  pub qty : F
  pub price : F
  pub reduce_only : Bool
  pub stop_price : F
  pub decision_reason : String
  pub trace_id : String
  pub decision_time_ns : ℤ
  pub schema_version : ℕ
  pub action : ℤ
  pub strategy_id : String
  pub signal_id : String

pub record ExecutionReport (F : Type 0) : Type 0 where
  pub account_id : String
  pub symbol : String
  pub client_order_id : String
  pub exchange_order_id : String
  pub status : ℤ
  pub side : ℤ
  pub last_filled_qty : F
  pub last_filled_price : F
  pub cumulative_filled_qty : F
  pub avg_price : F
  pub commission : F
  pub commission_asset : String
  pub reject_reason : String
  pub event_time_ns : ℤ
  pub recv_time_ns : ℤ
  pub trace_id : String
  pub fill_id : String
  pub fill_seq : ℤ
  pub schema_version : ℕ
  pub strategy_id : String
  pub signal_id : String
