-- ===== src/Router/Writer.antt =====
-- `DbWriter` of services/execution_router/src/store/writer.rs: one transaction for each report. What
-- the code calls is a parameter: `Calls` has the parsers, the cast to NUMERIC and the sum of two,
-- chrono and the hasher, `Session` what the database answers. A statement that violates a constraint
-- of the tables which the model states fails; any other failure is an answer of the session.
pub mod Rows
pub mod Statements
pub mod Fills
pub mod Persist
pub mod Inversion
pub mod Trades
pub mod Wrote
pub mod Atomic
pub mod History
use btc_rust_history.Database.{Commit, commit, finish, and_then, and_then-some, some_inj}
use btc_rust_history.Prelude.{
  ℕ, zero, suc, ◌+◌, ◌-◌, ◌*◌, ◌/◌, ◌%◌, ◌^◌, ◌≤◌, ◌<◌, min, max, String, ◌≡◌, refl, sym, ap, ◌∙◌,
  ◌≢◌, ◌↔◌, ◌⊎◌, inl, inr, Bool, true, false, ◌&&◌, ◌||◌, not, Option, none, some, List, [], ◌∷◌,
  ◌++◌, map, foldl, arith, ltb, leb, eqb, if◌then◌else◌, ltb→lt, leb→le, eqb_iff, Bool-cases,
  Option-cases, is_some, get_or, or_else, length, is_empty, drop, take, last?, keep, exists, All,
  length-append, length-drop, length-take, length-keep-le, keep-All, keep_of_All, All-append,
  All-drop, drop_past, drop-append, drop-drop, length-map, Key, ◌==◌, nat_key, string_key, pair_key,
  int_key, ==_refl, cat, Map, lookup, insert, remove, lookup-insert, lookup-insert_self,
  lookup-insert_ne, lookup-remove, ℤ, pos, negsuc, pos_part, neg_part, ◌+ℤ◌, ◌-ℤ◌, ◌*ℤ◌, tdiv,
  to_u32, ◌≤ℤ◌, leb_ℤ, ltb_ℤ, eqb_ℤ, show_ℕ, show_ℤ,
}
use btc_rust_history.Float.{F64, ◌⊕◌, ◌⊖◌, ◌⊗◌, ◌⊘◌, ◌≺◌, ◌≼◌, zero_f, sum_f, IsOrdered}
use btc_rust_history.Oms
use btc_rust_history.Oms.{OrderCommand, ExecutionReport}
use btc_rust_history.Router.Handle.{Texts}
use btc_rust_history.Router.Codes.{
  map_side, map_order_type, map_tif, map_status, map_event_type, is_fill_like,
}
use btc_rust_history.Router.Exits.{DecisionMeta, detect_exit_trigger, outcome_from_exit}
use btc_rust_history.Router.Tables.{
  OrderRow, EventRow, TrainingRow, TradeRow, Position, SnapshotRow, Db,
}

pub record Calls (F N J : Type 0) : Type 0 where
  pub texts : Texts
  pub parse_str : String → Option ℕ
  pub meta_from_str : String → Option (DecisionMeta F)
  pub json_from_str : String → Option J
  -- `json!({})` and `json!({ "raw_decision_reason": reason })`
  pub empty_object : J
  pub raw_decision_reason : String → J
  pub to_value : ExecutionReport F → Option J
  pub from_timestamp : ℤ → ℕ → Option ℤ
  pub utc_now : ℤ
  pub hash : String → String → ℤ → F → F → ℕ
  pub numeric : F → N
  pub plus : N → N → N
  pub is_zero : N → Bool

pub data Table : Type 0 where
  orders : Table
  order_events : Table
  order_training_events : Table
  trades : Table
  positions : Table
  order_exit_tag_snapshots : Table

pub record Session : Type 0 where
  pub begins : Bool
  pub executes : Table → Bool
  pub commits : Commit

-- `NULLIF($n, '')`
unfoldable pub nullif_empty : String → Option String
nullif_empty s = if s == "" then none else some s

-- `Euclidean` division of nanoseconds by those of a second.
unfoldable pub div_euclid : ℤ → ℕ → ℤ
div_euclid (pos n) k = pos (n / k)
div_euclid (negsuc n) k = negsuc (n / k)

unfoldable pub rem_euclid : ℤ → ℕ → ℕ
rem_euclid (pos n) k = n % k
rem_euclid (negsuc n) k = k - 1 - n % k

-- A statement of the session on a table, and what it does where it does not fail.
unfoldable pub execute {ℓ} : {D : Type ℓ} → Session → Table → D → Option D
execute s table db = if s.executes table then some db else none

module _ {F N J : Type 0} ⦃d : F64 F⦄ (c : Calls F N J) where
  unfoldable pub parse_optional_uuid : String → Option ℕ
  parse_optional_uuid value = if value == "" then none else c.parse_str value

  unfoldable pub ts_from_ns : ℤ → ℤ
  unfolding div_euclid rem_euclid
  ts_from_ns ns =
      get_or (c.from_timestamp (div_euclid ns 1000000000) (rem_euclid ns 1000000000)) c.utc_now

  -- `& 0x7FFF_FFFF_FFFF_FFFF`
  unfoldable pub deterministic_trade_id : ExecutionReport F → ℕ
  deterministic_trade_id r =
      c.hash r.client_order_id r.symbol r.event_time_ns r.last_filled_qty r.last_filled_price
      % 2 ^ 63

  unfoldable pub no_meta : DecisionMeta F
  no_meta = record { take_profit_price = none; coin_tags = none; exit_kind = none }

  unfoldable pub parse_decision_meta : String → DecisionMeta F
  unfolding no_meta
  parse_decision_meta reason =
      if c.texts.trim reason == "" then no_meta else get_or (c.meta_from_str reason) no_meta

  unfoldable pub decision_meta_json : String → J
  decision_meta_json reason =
      if c.texts.trim reason == ""
      then c.empty_object
      else get_or (c.json_from_str reason) (c.raw_decision_reason reason)

  unfoldable pub coin_tags_json : DecisionMeta F → List String
  coin_tags_json meta = get_or meta.coin_tags []

  -- `NULLIF($n, 0)`, cast to the column.
  unfoldable pub nullif_zero : F → Option N
  nullif_zero x = if d.eq x zero_f then none else some (c.numeric x)

  -- `NULLIF(x, 0)` on what the column holds, where a price may be rounded to zero.
  unfoldable pub nullif_zero_numeric : Option N → Option N
  nullif_zero_numeric none = none
  nullif_zero_numeric (some x) = if c.is_zero x then none else some x
