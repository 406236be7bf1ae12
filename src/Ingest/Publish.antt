-- ===== src/Ingest/Publish.antt =====
-- The publishers of services/marketdata_ingestor/src/main.rs. The rows are those that the task writes
-- which a publisher spawns for ClickHouse; what becomes of them there, nobody waits for.
use btc_rust_history.Prelude.{
  wrap_i64, ℕ, String, Bool, true, false, List, [], ◌∷◌, ◌++◌, if◌then◌else◌, nat_key, string_key,
  pair_key, int_key, ℤ, pos, negsuc, ◌*ℤ◌, tdiv, eqb_ℤ,
}
use btc_rust_history.Float.{F64, zero_f}
use btc_rust_history.Ingest.{Outcome, Level, NormalizedEvent}

pub record Topics : Type 0 where
  pub kafka_topic_raw_trades : String
  pub kafka_topic_raw_book : String
  pub kafka_topic_raw_orderbook : String
  pub kafka_topic_raw_open_interest : String
  pub kafka_topic_raw_mark_price : String
  pub kafka_topic_raw_liquidation : String

-- `prev_final_update_id` and `is_snapshot` are 0 and `venue` is "binance" in each row.
pub record OrderBookRow (F : Type 0) : Type 0 where
  pub symbol : String
  pub exchange_ts : ℤ
  pub receive_ts : ℤ
  pub first_update_id : ℕ
  pub final_update_id : ℕ
  pub side : ℕ
  pub price : F
  pub quantity : F

pub record FuturesContextRow (F : Type 0) : Type 0 where
  pub symbol : String
  pub ts : ℤ
  pub open_interest : F
  pub funding_rate : F
  pub liq_buy_vol : F
  pub liq_sell_vol : F

pub data Output (F : Type 0) : Type 0 where
  sent : (topic key : String) (payload : NormalizedEvent F) → Output F
  orderbook_l2_updates : List (OrderBookRow F) → Output F
  futures_context_1m : FuturesContextRow F → Output F

module _ {F : Type 0} ⦃d : F64 F⦄ where
  unfoldable pub symbol_of : NormalizedEvent F → String
  symbol_of (NormalizedEvent.trade s i p q m e n r k) = s
  symbol_of (NormalizedEvent.book s b bq a aq e n r k) = s
  symbol_of (NormalizedEvent.order_book_l2 s bs as_ e r u v) = s
  symbol_of (NormalizedEvent.mark_price s p i x f t e r) = s
  symbol_of (NormalizedEvent.open_interest s o e r) = s
  symbol_of (NormalizedEvent.liquidation s x p o q e r) = s

  unfoldable pub exch_ts_ms : NormalizedEvent F → ℤ
  exch_ts_ms (NormalizedEvent.trade s i p q m e n r k) = e
  exch_ts_ms (NormalizedEvent.book s b bq a aq e n r k) = e
  exch_ts_ms (NormalizedEvent.order_book_l2 s bs as_ e r u v) = e
  exch_ts_ms (NormalizedEvent.mark_price s p i x f t e r) = e
  exch_ts_ms (NormalizedEvent.open_interest s o e r) = e
  exch_ts_ms (NormalizedEvent.liquidation s x p o q e r) = e

  -- The loops of `publish_orderbook`, on the bids with side 1 and on the asks with side 2.
  unfoldable pub book_rows : String → ℤ → ℤ → ℕ → ℕ → ℕ → List (Level F) → List (OrderBookRow F)
  unfolding wrap_i64
  book_rows symbol e r u v side [] = []
  book_rows symbol e r u v side (level ∷ rest) =
      record {
        symbol = symbol;
        exchange_ts = wrap_i64 (e *ℤ pos 1000);
        receive_ts = tdiv r 1000;
        first_update_id = u;
        final_update_id = v;
        side = side;
        price = level.price;
        quantity = level.qty;
      }
      ∷ book_rows symbol e r u v side rest

  unfoldable pub context_row : String → ℤ → F → F → F → F → FuturesContextRow F
  context_row symbol ts open_interest funding_rate buy_vol sell_vol = record {
    symbol = symbol;
    ts = ts;
    open_interest = open_interest;
    funding_rate = funding_rate;
    liq_buy_vol = buy_vol;
    liq_sell_vol = sell_vol;
  }

  -- Each publisher: `to_bytes`, the send, then the task that it spawns.
  unfoldable pub sending :
      Bool → (topic : String) → NormalizedEvent F → List (Output F) → Outcome (List (Output F))
  unfolding symbol_of
  sending false topic tick task = Outcome.fails
  sending true topic tick task = Outcome.ok (Output.sent topic (symbol_of tick) tick ∷ task)

  unfoldable pub publish_trade : Topics → Bool → NormalizedEvent F → Outcome (List (Output F))
  unfolding sending
  publish_trade cfg delivered tick = sending delivered cfg.kafka_topic_raw_trades tick []

  unfoldable pub publish_book : Topics → Bool → NormalizedEvent F → Outcome (List (Output F))
  unfolding sending
  publish_book cfg delivered tick = sending delivered cfg.kafka_topic_raw_book tick []

  unfoldable pub publish_orderbook :
      Topics
      → Bool
      → NormalizedEvent F
      → List (OrderBookRow F)
      → List (OrderBookRow F)
      → Outcome (List (Output F))
  unfolding sending
  publish_orderbook cfg delivered tick bids asks =
      sending delivered cfg.kafka_topic_raw_orderbook tick
        (Output.orderbook_l2_updates (bids ++ asks) ∷ [])

  unfoldable pub publish_open_interest :
      Topics → Bool → NormalizedEvent F → String → ℤ → F → Outcome (List (Output F))
  unfolding sending context_row
  publish_open_interest cfg delivered tick symbol ts interest =
      sending delivered cfg.kafka_topic_raw_open_interest tick
        (Output.futures_context_1m (context_row symbol ts interest zero_f zero_f zero_f) ∷ [])

  unfoldable pub publish_mark_price :
      Topics → Bool → NormalizedEvent F → String → ℤ → F → Outcome (List (Output F))
  unfolding sending context_row
  publish_mark_price cfg delivered tick symbol ts funding_rate =
      sending delivered cfg.kafka_topic_raw_mark_price tick
        (Output.futures_context_1m (context_row symbol ts zero_f funding_rate zero_f zero_f) ∷ [])

  unfoldable pub publish_liquidation :
      Topics → Bool → NormalizedEvent F → String → ℤ → ℤ → F → Outcome (List (Output F))
  unfolding sending context_row
  publish_liquidation cfg delivered tick symbol ts side executed_qty =
      let buy_vol = if eqb_ℤ side (pos 1) then executed_qty else zero_f in
      let sell_vol = if eqb_ℤ side (negsuc 0) then executed_qty else zero_f in
      sending delivered cfg.kafka_topic_raw_liquidation tick
        (Output.futures_context_1m (context_row symbol ts zero_f zero_f buy_vol sell_vol) ∷ [])

  -- The second `match` of `handle_text`.
  unfoldable pub publish : Topics → Bool → NormalizedEvent F → Outcome (List (Output F))
  unfolding publish_trade publish_book publish_orderbook publish_open_interest publish_mark_price
      publish_liquidation book_rows
  publish cfg ok (NormalizedEvent.trade s i p q m e n r k) =
      publish_trade cfg ok (NormalizedEvent.trade s i p q m e n r k)
  publish cfg ok (NormalizedEvent.book s b bq a aq e n r k) =
      publish_book cfg ok (NormalizedEvent.book s b bq a aq e n r k)
  publish cfg ok (NormalizedEvent.order_book_l2 s bids asks e r u v) =
      publish_orderbook cfg ok (NormalizedEvent.order_book_l2 s bids asks e r u v)
        (book_rows s e r u v 1 bids) (book_rows s e r u v 2 asks)
  publish cfg ok (NormalizedEvent.mark_price s p i x f t e r) =
      publish_mark_price cfg ok (NormalizedEvent.mark_price s p i x f t e r) s e f
  publish cfg ok (NormalizedEvent.open_interest s o e r) =
      publish_open_interest cfg ok (NormalizedEvent.open_interest s o e r) s e o
  publish cfg ok (NormalizedEvent.liquidation s side p o q e r) =
      publish_liquidation cfg ok (NormalizedEvent.liquidation s side p o q e r) s e side q
