-- ===== src/Features/Engine.antt =====
-- services/feature_engine/src: state/registry.rs, consumer.rs (`handle_message`) and producer.rs
-- (`publish`). The JSON decoder and the outcome of a Kafka send are parameters; the log `published`
-- stands for the features topic. Instants are nanoseconds, the two of a call are read before the
-- throttle check and after the publish. The spawned ClickHouse write has no effect on the state.
-- Child `Throttle` is about which candles reach the indicators.
pub mod Throttle
use btc_rust_history.Prelude.{
  ℕ, zero, suc, ◌+◌, ◌-◌, ◌*◌, ◌/◌, ◌%◌, ◌^◌, ◌≤◌, ◌<◌, min, max, String, ◌≡◌, refl, sym, ap, ◌∙◌,
  ◌≢◌, ◌↔◌, ◌⊎◌, inl, inr, Bool, true, false, ◌&&◌, ◌||◌, not, Option, none, some, List, [], ◌∷◌,
  ◌++◌, map, foldl, arith, ltb, leb, eqb, if◌then◌else◌, ltb→lt, leb→le, eqb_iff, Bool-cases,
  Option-cases, is_some, get_or, or_else, length, is_empty, drop, take, last?, keep, exists, All,
  length-append, length-drop, length-take, length-keep-le, keep-All, keep_of_All, All-append,
  All-drop, drop_past, drop-append, length-map, Key, ◌==◌, nat_key, string_key, ==_refl, Map,
  lookup, insert, remove, lookup-insert, lookup-remove, ℤ, pos, negsuc, pos_part, neg_part, ◌+ℤ◌,
  ◌-ℤ◌, ◌*ℤ◌, tdiv, to_u32, ◌≤ℤ◌, leb_ℤ, ltb_ℤ, eqb_ℤ,
}
use btc_rust_history.Float.{F64, ◌⊕◌, ◌⊖◌, ◌⊗◌, ◌⊘◌, ◌≺◌, ◌≼◌, zero_f, sum_f, IsOrdered}
use btc_rust_history.Features.Vwap.{Bar}
use btc_rust_history.Features.SymbolState
use btc_rust_history.Features.SymbolState.{SymbolState, FeatureVector}

pub record Config : Type 0 where
  pub ema_fast_period : ℕ
  pub ema_slow_period : ℕ
  pub rsi_period : ℕ
  pub macd_signal_period : ℕ
  pub throttle_ms : ℕ

pub record Candle (F : Type 0) : Type 0 where
  pub symbol : String
  pub open_time : ℤ
  pub close_time : ℤ
  pub high : F
  pub low : F
  pub close : F
  pub volume : F
  pub is_closed : Bool

-- The message on the features topic: the key, the body and the header `x-quality`.
pub record Message (F : Type 0) : Type 0 where
  pub key : String
  pub body : FeatureVector F
  pub schema_version : ℕ
  pub x_quality : ℕ

-- The registry, the times of the last publishes, and the topic, newest first.
pub record Engine (F : Type 0) : Type 0 where
  pub registry : Map String (SymbolState F)
  pub throttle : Map String ℕ
  pub published : List (Message F)

-- `panic` is the failed assertion on a period.
pub data Handled (F : Type 0) : Type 0 where
  ok : Engine F → Handled F
  err : Engine F → Handled F
  panic : Handled F

module _ {F : Type 0} ⦃d : F64 F⦄ where
  unfoldable pub get_or_create :
      Config
      → String
      → Map String (SymbolState F)
      → Option (SymbolState F × Map String (SymbolState F))
  get_or_create cfg symbol m = elim (lookup symbol m) [
    | some s ↦ some (s, m)
    | none ↦
        elim (SymbolState.new symbol cfg.ema_fast_period cfg.ema_slow_period cfg.rsi_period
          cfg.macd_signal_period) [ none ↦ none | some s ↦ some (s, insert symbol s m) ]
  ]

  unfoldable pub message_of : FeatureVector F → Message F
  message_of fv = record { key = fv.symbol; body = fv; schema_version = 1; x_quality = fv.quality }

  -- `Err` if the broker refuses; the body cannot fail to encode.
  unfoldable pub publish : (Message F → Bool) → FeatureVector F → Engine F → Bool × Engine F
  unfolding message_of
  publish sent fv e =
      if sent (message_of fv)
      then (true, record e { published = message_of fv ∷ e.published })
      else (false, e)

  unfoldable pub bar_of : Candle F → Bar F
  bar_of c = record {
    high = c.high;
    low = c.low;
    close = c.close;
    volume = c.volume;
    open_time_ms = c.open_time;
  }

  -- `now.duration_since(*last) < Duration::from_millis(throttle_ms)`
  unfoldable pub is_throttled : Config → Engine F → String → ℕ → Bool
  is_throttled cfg e symbol now = ltb 0 cfg.throttle_ms && elim (lookup symbol e.throttle) [
    | none ↦ false
    | some last ↦ ltb (now - last) (cfg.throttle_ms * 1_000_000)
  ]

  -- The record of the publish time.
  unfoldable pub record_publish : Config → String → ℕ → Engine F → Engine F
  record_publish cfg symbol later e =
      if ltb 0 cfg.throttle_ms then record e { throttle = insert symbol later e.throttle } else e

  unfoldable pub update_and_publish :
      Config → (Message F → Bool) → Candle F → ℕ → Engine F → Handled F
  unfolding get_or_create bar_of record_publish
  update_and_publish cfg sent c later e = elim (get_or_create cfg c.symbol e.registry) [
    | none ↦ panic
    | some (s, m) ↦
        let (s', fv) = SymbolState.update s (bar_of c) c.close_time in
        let (done, e') = publish sent fv (record e { registry = insert c.symbol s' m }) in
        if done then ok (record_publish cfg fv.symbol later e') else err e'
  ]

  unfoldable pub handle_candle :
      Config → (Message F → Bool) → Candle F → ℕ → ℕ → Engine F → Handled F
  unfolding update_and_publish is_throttled
  handle_candle cfg sent c now later e =
      if not c.is_closed
      then ok e
      else if is_throttled cfg e c.symbol now
      then ok e
      else update_and_publish cfg sent c later e

  unfoldable pub handle_message {ℓ} :
      {P : Type ℓ}
      → (P → Option (Candle F))
      → Config
      → (Message F → Bool)
      → P
      → ℕ
      → ℕ
      → Engine F
      → Handled F
  handle_message decode cfg sent payload now later e = elim (decode payload) [
    | none ↦ ok e
    | some c ↦ handle_candle cfg sent c now later e
  ]
