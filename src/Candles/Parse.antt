-- ===== src/Candles/Parse.antt =====
-- `parse_closed_candle_message` of services/marketdata_ingestor/src/candle.rs. The JSON decoder, the
-- parser of an `f64` and the JSON encoder are parameters.
use btc_rust_history.Prelude.{
  ℕ, String, ◌≡◌, inl, inr, Bool, true, not, Option, none, some, List, [], ◌∷◌, map, arith,
  if◌then◌else◌, Option-cases, nat_key, string_key, cat, ℤ, show_ℤ,
}
use btc_rust_history.Candles.Interval
use btc_rust_history.Candles.Interval.{KlineInterval}

pub record Kline : Type 0 where
  pub t : ℤ
  pub cap_t : ℤ
  pub s : String
  pub o : String
  pub c : String
  pub h : String
  pub l : String
  pub v : String
  pub n : ℕ
  pub x : Bool
  pub q : String
  pub cap_v : String
  pub cap_q : String

pub record CandleRow (F : Type 0) : Type 0 where
  pub symbol : String
  pub interval : String
  pub open_time : ℤ
  pub open_price : F
  pub high : F
  pub low : F
  pub close : F
  pub volume : F
  pub close_time : ℤ
  pub quote_asset_volume : F
  pub number_of_trades : ℕ
  pub taker_buy_base_asset_volume : F
  pub taker_buy_quote_asset_volume : F
  pub exchange : String
  pub market : String
  pub event_ingested_at_ms : ℤ

-- The event has the fields of the row, and the flag.
pub record ClosedCandleEvent (F : Type 0) : Type 0 where
  pub row : CandleRow F
  pub is_closed : Bool

pub record ParsedClosedCandle (F : Type 0) : Type 0 where
  pub row : CandleRow F
  pub kafka_key : String
  pub kafka_payload : List ℕ

-- `Ok(None)`, `Ok(Some(candle))` and `Err`.
pub data Parsed (F : Type 0) : Type 0 where
  ignored : Parsed F
  candle : ParsedClosedCandle F → Parsed F
  failed : Parsed F

-- The eight texts of a kline that must parse, in the order of the code.
abbrev pub fields : Kline → List String
fields k = k.o ∷ k.h ∷ k.l ∷ k.c ∷ k.v ∷ k.q ∷ k.cap_v ∷ k.cap_q ∷ []

module _ {F : Type 0} (from_json : String → Option Kline) (parse_f64 : String → Option F)
    (to_json : ClosedCandleEvent F → Option (List ℕ)) where
  infixl 5 ◌>>=◌
  abbrev ◌>>=◌ : {A : Type 0} → Option A → (A → Parsed F) → Parsed F
  none >>= f = failed
  some a >>= f = f a

  unfoldable pub build : Kline → KlineInterval → ℤ → Parsed F
  build k interval now = do
    open_price ← parse_f64 k.o
    high ← parse_f64 k.h
    low ← parse_f64 k.l
    close ← parse_f64 k.c
    volume ← parse_f64 k.v
    quote_asset_volume ← parse_f64 k.q
    taker_buy_base_asset_volume ← parse_f64 k.cap_v
    taker_buy_quote_asset_volume ← parse_f64 k.cap_q
    let row : CandleRow F = record {
      symbol = k.s;
      interval = Interval.as_str interval;
      open_time = k.t;
      open_price = open_price;
      high = high;
      low = low;
      close = close;
      volume = volume;
      close_time = k.cap_t;
      quote_asset_volume = quote_asset_volume;
      number_of_trades = k.n;
      taker_buy_base_asset_volume = taker_buy_base_asset_volume;
      taker_buy_quote_asset_volume = taker_buy_quote_asset_volume;
      exchange = "binance";
      market = "futures";
      event_ingested_at_ms = now;
    }
    payload ← to_json (record { row = row; is_closed = true })
    candle (record {
      row = row;
      kafka_key = cat row.symbol (cat ":" (cat row.interval (cat ":" (show_ℤ row.open_time))));
      kafka_payload = payload;
    })

  unfoldable pub parse_closed_candle_message : String → KlineInterval → ℤ → Parsed F
  unfolding build
  parse_closed_candle_message text interval now = elim (from_json text) [
    | none ↦ ignored
    | some k ↦ if not k.x then ignored else build k interval now
  ]

  -- A message makes a candle only if it decodes to a closed kline whose eight numbers parse. The
  -- row then has the kline's symbol, times, trades and numbers, each in its own field, and the
  -- key is `symbol:interval:open_time`, and the payload the row encoded as a closed event.
  pub parse-candle :
      (text : String) (interval : KlineInterval) (now : ℤ) (p : ParsedClosedCandle F)
      → parse_closed_candle_message text interval now ≡ candle p
      → (k : Kline) × (from_json text ≡ some k)
        × (k.x ≡ true)
        × (map parse_f64 (fields k)
            ≡ map some (
                p.row.open_price ∷ p.row.high ∷ p.row.low ∷ p.row.close ∷ p.row.volume
                ∷ p.row.quote_asset_volume ∷ p.row.taker_buy_base_asset_volume
                ∷ p.row.taker_buy_quote_asset_volume ∷ []))
        × ((p.row.symbol ≡ k.s) × (p.row.interval ≡ Interval.as_str interval))
        × ((p.row.open_time ≡ k.t) × (p.row.close_time ≡ k.cap_t) × (p.row.number_of_trades ≡ k.n))
        × (p.kafka_key ≡ cat k.s (cat ":" (cat (Interval.as_str interval) (cat ":" (show_ℤ k.t)))))
        × (to_json (record { row = p.row; is_closed = true }) ≡ some p.kafka_payload)
  unfolding parse_closed_candle_message
  parse-candle text interval now p e = elim (Option-cases (from_json text)) [
    | inl miss ↦ absurd (ground arith)
    | inr (k, found) ↦ (
      k,
      found,
      ground arith,
      ground arith,
      ground arith,
      ground arith,
      ground arith,
      ground arith,
    )
  ]
