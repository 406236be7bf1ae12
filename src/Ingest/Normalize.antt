-- ===== src/Ingest/Normalize.antt =====
-- `normalize` of services/marketdata_ingestor/src/ws/binance.rs, with one function for each stream.
use btc_rust_history.Prelude.{
  to_i64, ℕ, String, Option, none, some, List, if◌then◌else◌, ◌==◌, nat_key, string_key, pair_key,
  int_key, ℤ, pos, negsuc, tdiv,
}
use btc_rust_history.Float.{F64}
use btc_rust_history.Ingest.{
  Outcome, TradeData, BookData, DepthData, MarkPriceData, OpenInterestData, ForceOrderData, Wire,
  Level, NormalizedEvent, saturating_mul, contains, number, levels,
}

-- `serde_json::from_value(msg.payload)?`
unfoldable pub decoded : {D E : Type 0} → Option D → (D → Outcome E) → Outcome E
decoded none event = Outcome.fails
decoded (some payload) event = event payload

module _ {F V : Type 0} ⦃d : F64 F⦄ (w : Wire F V) (recv_time_ns : ℤ) where
  unfoldable pub trade_event : ℕ → TradeData → Outcome (Option (NormalizedEvent F))
  unfolding number to_i64 saturating_mul
  trade_event trade_seq payload = Outcome.ok (
      some (
        NormalizedEvent.trade payload.s payload.t (number w payload.p) (number w payload.q)
          payload.m (to_i64 payload.e) (saturating_mul (to_i64 payload.e) 1000000) recv_time_ns
          trade_seq))

  -- The stream has no event time.
  unfoldable pub book_event : ℕ → BookData → Outcome (Option (NormalizedEvent F))
  unfolding number
  book_event book_seq payload = Outcome.ok (
      some (
        NormalizedEvent.book payload.s (number w payload.b) (number w payload.cap_b)
          (number w payload.a) (number w payload.cap_a) (tdiv recv_time_ns 1000000) recv_time_ns
          recv_time_ns book_seq))

  unfoldable pub depth_of :
      DepthData
      → Outcome (List (Level F))
      → Outcome (List (Level F))
      → Outcome (Option (NormalizedEvent F))
  unfolding to_i64
  depth_of payload (Outcome.ok bids) (Outcome.ok asks) = Outcome.ok (
      some (
        NormalizedEvent.order_book_l2 payload.s bids asks (to_i64 payload.e_time) recv_time_ns
          payload.u_first payload.u_final))
  depth_of payload bids asks = Outcome.panics

  unfoldable pub depth_event : DepthData → Outcome (Option (NormalizedEvent F))
  unfolding levels depth_of
  depth_event payload = depth_of payload (levels w payload.b) (levels w payload.a)

  unfoldable pub mark_price_event : MarkPriceData → Outcome (Option (NormalizedEvent F))
  unfolding number to_i64
  mark_price_event payload = Outcome.ok (
      some (
        NormalizedEvent.mark_price payload.s (number w payload.p) (number w payload.i)
          (number w payload.p_est) (number w payload.r) (to_i64 payload.t) (to_i64 payload.e_time)
          recv_time_ns))

  unfoldable pub open_interest_event : OpenInterestData → Outcome (Option (NormalizedEvent F))
  unfolding number to_i64
  open_interest_event payload = Outcome.ok (
      some (
        NormalizedEvent.open_interest payload.s (number w payload.oo) (to_i64 payload.e_time)
          recv_time_ns))

  unfoldable pub liquidation_event : ForceOrderData → Outcome (Option (NormalizedEvent F))
  unfolding number to_i64
  liquidation_event payload = Outcome.ok (
      some (
        NormalizedEvent.liquidation payload.s (if payload.side == "BUY" then pos 1 else negsuc 0)
          (number w payload.p) (number w payload.q) (number w payload.z) (to_i64 payload.e_time)
          recv_time_ns))

  unfoldable pub on_stream : ℕ → ℕ → String → V → Outcome (Option (NormalizedEvent F))
  unfolding decoded trade_event book_event depth_event mark_price_event open_interest_event
      liquidation_event contains
  on_stream trade_seq book_seq stream payload =
      if contains stream "@trade"
      then decoded (w.trade payload) (trade_event trade_seq)
      else if contains stream "@bookTicker"
      then decoded (w.book payload) (book_event book_seq)
      else if contains stream "@depth"
      then decoded (w.depth payload) depth_event
      else if contains stream "@markPrice"
      then decoded (w.mark_price payload) mark_price_event
      else if contains stream "@openInterest"
      then decoded (w.open_interest payload) open_interest_event
      else if contains stream "@forceOrder"
      then decoded (w.force_order payload) liquidation_event
      else Outcome.ok none

  unfoldable pub of_combined : ℕ → ℕ → Option (String × V) → Outcome (Option (NormalizedEvent F))
  unfolding on_stream
  of_combined trade_seq book_seq none = Outcome.ok none
  of_combined trade_seq book_seq (some (stream, payload)) =
      on_stream trade_seq book_seq stream payload

  unfoldable pub normalize : ℕ → ℕ → String → Outcome (Option (NormalizedEvent F))
  unfolding of_combined
  normalize trade_seq book_seq text = of_combined trade_seq book_seq (w.combined text)
