-- ===== src/Ingest.antt =====
-- The raw market data of services/marketdata_ingestor/src/ws/binance.rs: the wire types and the
-- events. The JSON decoder and the parser of `f64` are parameters. `trace_id`, which is random, and
-- `schema_version`, which is 1, are left out of the events. Child `Normalize` has `normalize`,
-- `Subscribe` the subscriptions, `Publish` and `Handle` the publishers and `handle_text` of main.rs,
-- `Numbered` and `Sequence` are about the sequence numbers.
use btc_rust_history.Prelude.{
  ℕ, ◌+◌, ◌-◌, ◌*◌, ◌%◌, ◌^◌, min, String, Bool, Option, List, [], ◌∷◌, ltb, if◌then◌else◌, is_some,
  get_or, ℤ, pos, negsuc, ◌-ℤ◌, to_i64, wrap_i64,
}
use btc_rust_history.Float.{F64, zero_f}
use text.Mathlib.Text.{find?}
pub mod Normalize
pub mod Subscribe
pub mod Publish
pub mod Handle
pub mod Numbered
pub mod Sequence

-- What a call does: it returns `Ok`, it returns an error, or it panics.
pub data Outcome (A : Type 0) : Type 0 where
  ok : A → Outcome A
  fails : Outcome A
  panics : Outcome A

-- The payloads, after the decoder.
pub record TradeData : Type 0 where
  pub e : ℕ
  pub s : String
  pub t : ℕ
  pub p : String
  pub q : String
  pub m : Bool

pub record BookData : Type 0 where
  pub s : String
  pub b : String
  pub cap_b : String
  pub a : String
  pub cap_a : String

pub record DepthData : Type 0 where
  pub e_time : ℕ
  pub s : String
  pub u_first : ℕ
  pub u_final : ℕ
  pub b : List (List String)
  pub a : List (List String)

pub record MarkPriceData : Type 0 where
  pub e_time : ℕ
  pub s : String
  pub p : String
  pub i : String
  pub p_est : String
  pub r : String
  pub t : ℕ

pub record OpenInterestData : Type 0 where
  pub e_time : ℕ
  pub s : String
  pub oo : String

-- With the time of the wrapper.
pub record ForceOrderData : Type 0 where
  pub e_time : ℕ
  pub s : String
  pub side : String
  pub p : String
  pub q : String
  pub z : String

-- `serde_json` on the whole message (its stream and its data) and on the data, and `parse::<f64>`.
pub record Wire (F V : Type 0) : Type 0 where
  pub combined : String → Option (String × V)
  pub trade : V → Option TradeData
  pub book : V → Option BookData
  pub depth : V → Option DepthData
  pub mark_price : V → Option MarkPriceData
  pub open_interest : V → Option OpenInterestData
  pub force_order : V → Option ForceOrderData
  pub parse_f64 : String → Option F

pub record Level (F : Type 0) : Type 0 where
  pub price : F
  pub qty : F

pub data NormalizedEvent (F : Type 0) : Type 0 where
  trade :
      (symbol : String) (trade_id : ℕ) (price qty : F) (is_buyer_maker : Bool)
      (exchange_event_time_ms event_time_ns recv_time_ns : ℤ) (seq : ℕ)
      → NormalizedEvent F
  book :
      (symbol : String) (best_bid best_bid_qty best_ask best_ask_qty : F)
      (exchange_event_time_ms event_time_ns recv_time_ns : ℤ) (seq : ℕ)
      → NormalizedEvent F
  order_book_l2 :
      (symbol : String) (bids asks : List (Level F)) (exchange_event_time_ms recv_time_ns : ℤ)
      (first_update_id final_update_id : ℕ)
      → NormalizedEvent F
  mark_price :
      (symbol : String) (price index_price estimated_settle_price funding_rate : F)
      (next_funding_time_ms exchange_event_time_ms recv_time_ns : ℤ)
      → NormalizedEvent F
  open_interest :
      (symbol : String) (interest : F) (exchange_event_time_ms recv_time_ns : ℤ) → NormalizedEvent F
  liquidation :
      (symbol : String) (side : ℤ) (price orig_qty executed_qty : F)
      (exchange_event_time_ms recv_time_ns : ℤ)
      → NormalizedEvent F

-- `as u64` on an `i64`.
unfoldable pub to_u64 : ℤ → ℕ
to_u64 (pos n) = n
to_u64 (negsuc n) = 2 ^ 64 - 1 - n

-- `i64::saturating_sub`
unfoldable pub saturating_sub : ℤ → ℤ → ℤ
saturating_sub a b = clamp (a -ℤ b)
  where
    clamp : ℤ → ℤ
    clamp (pos n) = pos (min n (2 ^ 63 - 1))
    clamp (negsuc n) = negsuc (min n (2 ^ 63 - 1))

-- `i64::saturating_mul` by a positive number.
unfoldable pub saturating_mul : ℤ → ℕ → ℤ
saturating_mul (pos n) k = pos (min (n * k) (2 ^ 63 - 1))
saturating_mul (negsuc n) k = negsuc (min ((n + 1) * k - 1) (2 ^ 63 - 1))

unfoldable pub contains : String → String → Bool
contains text part = is_some (find? text part)

module _ {F V : Type 0} ⦃d : F64 F⦄ (w : Wire F V) where
  -- `parse().unwrap_or(0.0)`
  unfoldable pub number : String → F
  number text = get_or (w.parse_f64 text) zero_f

  -- `v[0]` and `v[1]` panic where the entry is shorter.
  unfoldable pub levels : List (List String) → Outcome (List (Level F))
  unfolding number
  levels [] = ok []
  levels ((price ∷ qty ∷ more) ∷ rest) =
      with_level (record { price = number price; qty = number qty }) (levels rest)
    where
      with_level : Level F → Outcome (List (Level F)) → Outcome (List (Level F))
      with_level l (ok ls) = ok (l ∷ ls)
      with_level l fails = fails
      with_level l panics = panics
  levels (short ∷ rest) = panics
