-- ===== src/Features/Engine/Throttle.antt =====
-- Which candles reach the indicators, under the throttle and when a publish fails.
use btc_rust_history.Prelude.{
  ℕ, ◌+◌, ◌*◌, ◌<◌, String, ◌≡◌, refl, ◌≢◌, Bool, true, false, some, ◌∷◌, arith, nat_key,
  string_key, Map, lookup, insert, lookup-insert_self, lookup-insert_ne, ℤ,
}
use btc_rust_history.Float.{F64}
use btc_rust_history.Features.Vwap.{Bar}
use btc_rust_history.Features.SymbolState
use btc_rust_history.Features.SymbolState.{SymbolState, FeatureVector}
use btc_rust_history.Features.Engine.{
  Config, Candle, Message, Engine, Handled, ok, err, panic, get_or_create, message_of, publish,
  bar_of, is_throttled, record_publish, update_and_publish, handle_candle,
}

module _ {F : Type 0} ⦃d : F64 F⦄ where
  update_symbol :
      (s : SymbolState F) (b : Bar F) (t : ℤ) → (SymbolState.update s b t).1.symbol ≡ s.symbol
  unfolding SymbolState.update
  update_symbol s b t = refl

  -- After a candle is published at `later`, a closed candle of the same symbol that comes less than
  -- `throttle_ms` after it changes nothing: neither the topic nor the indicators.
  pub handle_candle_throttled :
      (cfg : Config) (sent sent' : Message F → Bool) (c c' : Candle F) (now later : ℕ)
      (now' later' : ℕ) (e : Engine F) {e' : Engine F} {s : SymbolState F}
      → 0 < cfg.throttle_ms
      → lookup c.symbol e.registry ≡ some s
      → s.symbol ≡ c.symbol
      → c.is_closed ≡ true
      → is_throttled cfg e c.symbol now ≡ false
      → handle_candle cfg sent c now later e ≡ ok e'
      → c'.symbol ≡ c.symbol
      → now' < later + cfg.throttle_ms * 1_000_000
      → (handle_candle cfg sent' c' now' later' e' ≡ ok e')
        × (lookup c.symbol e'.registry ≡ some (SymbolState.update s (bar_of c) c.close_time).0)
  unfolding handle_candle update_and_publish get_or_create publish
  handle_candle_throttled cfg sent sent' c c' now later now' later' e {e'} {s} positive found name
        closed free done same soon =
      ground (
        arith,
        update_symbol s (bar_of c) c.close_time,
        lookup-insert_self c.symbol later e.throttle,
        lookup-insert_self c.symbol (SymbolState.update s (bar_of c) c.close_time).0 e.registry,
      )

  -- A candle whose publish fails has still advanced the indicators of its symbol, and nothing else:
  -- when the consumer repeats the call, past the throttle, and the publish succeeds, the vector that
  -- goes out is that of the candle taken twice, and so is the state that stays.
  pub handle_candle_retried :
      (cfg : Config) (sent sent' : Message F → Bool) (c : Candle F) (now later : ℕ)
      (now' later' : ℕ) (e : Engine F) {e' : Engine F} {s : SymbolState F}
      → lookup c.symbol e.registry ≡ some s
      → handle_candle cfg sent c now later e ≡ err e'
      → is_throttled cfg e c.symbol now' ≡ false
      → sent' (
          message_of
            (SymbolState.update
              (SymbolState.update s (bar_of c) c.close_time).0
              (bar_of c)
              c.close_time).1)
        ≡ true
      → let once = (SymbolState.update s (bar_of c) c.close_time).0 in
        let (twice, fv) = SymbolState.update once (bar_of c) c.close_time in
        (e'' : Engine F) × (lookup c.symbol e'.registry ≡ some once)
        × (e'.published ≡ e.published)
        × (handle_candle cfg sent' c now' later' e' ≡ ok e'')
        × (e''.published ≡ message_of fv ∷ e.published)
        × (lookup c.symbol e''.registry ≡ some twice)
  unfolding handle_candle update_and_publish get_or_create publish
  handle_candle_retried cfg sent sent' c now later now' later' e {e'} {s} found failed free
        accepted =
      let once = (SymbolState.update s (bar_of c) c.close_time).0 in
      let twice = (SymbolState.update once (bar_of c) c.close_time).0 in
      let fv = (SymbolState.update once (bar_of c) c.close_time).1 in
      let a = lookup-insert_self c.symbol once e.registry in
      let b = lookup-insert_self c.symbol twice e'.registry in
      (
        record_publish cfg fv.symbol later' (record e' {
          registry = insert c.symbol twice e'.registry;
          published = message_of fv ∷ e'.published;
        }),
        ground (arith, a),
        ground arith,
        ground (arith, a),
        ground arith,
        ground (arith, b),
      )

  -- The engine that a call leaves; a panic leaves the one before.
  abbrev pub after : Engine F → Handled F → Engine F
  after e (ok e') = e'
  after e (err e') = e'
  after e panic = e

  update_and_publish_other :
      (cfg : Config) (sent : Message F → Bool) (c : Candle F) (later : ℕ) (e : Engine F)
      (other : String)
      → c.symbol ≢ other
      → lookup other (after e (update_and_publish cfg sent c later e)).registry
        ≡ lookup other e.registry
  unfolding update_and_publish get_or_create publish
  update_and_publish_other cfg sent c later e other ne = grind (
    arith,
    λ (s : SymbolState F) (m : Map String (SymbolState F)). lookup-insert_ne other c.symbol s m ne,
  )

  -- A call about one symbol leaves the indicators of every other symbol as they were, whatever its
  -- outcome.
  pub handle_candle_other :
      (cfg : Config) (sent : Message F → Bool) (c : Candle F) (now later : ℕ) (e : Engine F)
      (other : String)
      → c.symbol ≢ other
      → lookup other (after e (handle_candle cfg sent c now later e)).registry
        ≡ lookup other e.registry
  unfolding handle_candle
  handle_candle_other cfg sent c now later e other ne =
      ground (arith, update_and_publish_other cfg sent c later e other ne)
