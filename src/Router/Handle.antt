-- ===== src/Router/Handle.antt =====
-- `handle_order`, `build_binance_client` and the loop of services/execution_router/src/main.rs. What
-- the database answers to `persist_execution` of a report, Kafka to a send of it and Binance to
-- `place_order` are parameters, as are `trim`, `to_ascii_uppercase` and `eq_ignore_ascii_case`; each
-- answer to `now_ns` is the same `now`. The log of the effects has the newest first.
-- Child `Logs` is about the effects of an order, `Once` about messages with the same id.
pub mod Logs
pub mod Once
use btc_rust_history.Prelude.{
  ℕ, zero, suc, ◌+◌, ◌-◌, ◌*◌, ◌/◌, ◌%◌, ◌^◌, ◌≤◌, ◌<◌, min, max, String, ◌≡◌, refl, sym, ap, ◌∙◌,
  ◌≢◌, ◌↔◌, ◌⊎◌, inl, inr, Bool, true, false, ◌&&◌, ◌||◌, not, Option, none, some, List, [], ◌∷◌,
  ◌++◌, map, foldl, arith, ltb, leb, eqb, if◌then◌else◌, ltb→lt, leb→le, eqb_iff, Bool-cases,
  Option-cases, is_some, get_or, or_else, length, is_empty, drop, take, last?, keep, exists, All,
  length-append, length-drop, length-take, length-keep-le, keep-All, keep_of_All, All-append,
  All-drop, drop_past, drop-append, drop-drop, length-map, Key, ◌==◌, nat_key, string_key, ==_refl,
  cat, Map, lookup, insert, remove, lookup-insert, lookup-insert_self, lookup-insert_ne,
  lookup-remove, ℤ, pos, negsuc, pos_part, neg_part, ◌+ℤ◌, ◌-ℤ◌, ◌*ℤ◌, tdiv, to_u32, ◌≤ℤ◌, leb_ℤ,
  ltb_ℤ, eqb_ℤ, show_ℕ, show_ℤ,
}
use btc_rust_history.Float.{F64, ◌⊕◌, ◌⊖◌, ◌⊗◌, ◌⊘◌, ◌≺◌, ◌≼◌, zero_f, sum_f, IsOrdered}
use btc_rust_history.Oms
use btc_rust_history.Oms.{OrderCommand, ExecutionReport}
use btc_rust_history.Router.Reports.{
  BinanceOrderAck, build_exchange_ack, build_reject, build_cancel, build_reports,
}
use btc_rust_history.Router.Dedup.{DedupCache, seen_recently_or_insert}

-- The fields of `Config` that the handler reads.
pub record Config : Type 0 where
  pub execution_mode : String
  pub exchange : String
  pub binance_api_key : String
  pub binance_api_secret : String

-- The answer of Binance to an order: an acknowledgement, or an error.
pub data Placed : Type 0 where
  accepted : BinanceOrderAck → Placed
  refused : String → Placed

-- The services around the router.
pub record World (F : Type 0) : Type 0 where
  pub persists : ExecutionReport F → Bool
  pub publishes : ExecutionReport F → Bool
  pub place_order : OrderCommand F → Placed
  pub now : ℤ

pub record Texts : Type 0 where
  pub trim : String → String
  pub to_ascii_uppercase : String → String
  pub eq_ignore_ascii_case : String → String → Bool

pub data Effect (F : Type 0) : Type 0 where
  persisted : ExecutionReport F → Effect F
  published : ExecutionReport F → Effect F
  placed : OrderCommand F → Effect F

abbrev pub Log : Type 0 → Type 0
Log F = List (Effect F)

-- The log, and whether the call returned `Ok`.
abbrev pub Outcome : Type 0 → Type 0
Outcome F = Log F × Bool

unfoldable pub build_binance_client : Texts → Config → Bool
build_binance_client t cfg =
    t.eq_ignore_ascii_case cfg.execution_mode "REAL"
    && t.eq_ignore_ascii_case cfg.exchange "BINANCE"
    && not (cfg.binance_api_key == "" || cfg.binance_api_secret == "")

module _ {F : Type 0} ⦃d : F64 F⦄ (t : Texts) (w : World F) where
  -- `persist_execution(..).await?` and `publish_report(..).await?`.
  unfoldable pub emit : ExecutionReport F → Log F → Outcome F
  emit r log =
      if w.persists r
      then (if w.publishes r
          then (published r ∷ persisted r ∷ log, true)
          else (persisted r ∷ log, false))
      else (log, false)

  unfoldable pub and_then : Outcome F → (Log F → Outcome F) → Outcome F
  and_then (log, true) k = k log
  and_then (log, false) k = (log, false)

  unfoldable pub emit_all : List (ExecutionReport F) → Log F → Outcome F
  unfolding emit and_then
  emit_all [] log = (log, true)
  emit_all (r ∷ rs) log = and_then (emit r log) (emit_all rs)

  unfoldable pub on_answer : OrderCommand F → Placed → Log F → Outcome F
  unfolding emit
  on_answer order (accepted ack) log = emit (build_exchange_ack order ack w.now w.now) log
  on_answer order (refused e) log = emit (build_reject order (cat "BINANCE_ERROR:" e) w.now) log

  -- The "BINANCE" arm, from whether there is a client.
  unfoldable pub handle_binance : OrderCommand F → Bool → Log F → Outcome F
  unfolding emit on_answer
  handle_binance order client log =
      if not client
      then emit (build_reject order "BINANCE_CLIENT_NOT_CONFIGURED" w.now) log
      else if not (eqb_ℤ order.order_type Oms.OrderType.market)
      then emit (build_reject order "REAL_BINANCE_ONLY_SUPPORTS_MARKET" w.now) log
      else on_answer order (w.place_order order) (placed order ∷ log)

  unfoldable pub handle_order : Config → Bool → OrderCommand F → Log F → Outcome F
  unfolding emit emit_all handle_binance
  handle_order cfg client order log =
      let exchange = t.to_ascii_uppercase (t.trim cfg.exchange) in
      if t.eq_ignore_ascii_case cfg.execution_mode "PAPER"
      then (if eqb_ℤ order.action Oms.OrderAction.cancel
          then emit (build_cancel order w.now) log
          else emit_all (build_reports order w.now w.now w.now) log)
      else if exchange == "BINANCE"
      then handle_binance order client log
      else if exchange == "OKX"
      then emit (build_reject order "OKX_NOT_IMPLEMENTED" w.now) log
      else emit (build_reject order "UNSUPPORTED_EXCHANGE" w.now) log

  -- One message of the loop that decodes to an order, at an instant.
  unfoldable pub receive : Config → OrderCommand F → ℕ → DedupCache × Log F → DedupCache × Log F
  unfolding handle_order
  receive cfg order instant (cache, log) =
      let (cache', seen) = seen_recently_or_insert cache order.client_order_id instant in
      if order.client_order_id == ""
      then (cache, log)
      else if seen
      then (cache', log)
      else (cache', (handle_order cfg (build_binance_client t cfg) order log).0)

-- A message of the loop that decodes to an order, with its instant and the answers that it gets.
pub record Message (F : Type 0) : Type 0 where
  pub order : OrderCommand F
  pub instant : ℕ
  pub world : World F

unfoldable pub receive_all :
    {F : Type 0} ⦃d : F64 F⦄
    → Texts
    → Config
    → List (Message F)
    → DedupCache × Log F
    → DedupCache × Log F
unfolding receive
receive_all t cfg [] s = s
receive_all t cfg (m ∷ ms) s = receive_all t cfg ms (receive t m.world cfg m.order m.instant s)
