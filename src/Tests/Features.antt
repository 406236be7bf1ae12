-- ===== src/Tests/Features.antt =====
-- The feature engine on a few bars.
use btc_rust_history.Prelude.{
  ℕ, ◌+◌, ◌/◌, ◌%◌, ◌≡◌, refl, Bool, true, false, none, some, List, [], ◌∷◌, arith, leb,
  if◌then◌else◌, nat_key, string_key, lookup, ℤ, pos,
}
use btc_rust_history.Float.{◌⊕◌, ◌⊘◌, zero_f}
use mathlib.Core.List.{reverse}
use btc_rust_history.Float.Model.{Fixed, fixed_f64}
use btc_rust_history.Features.Ema
use btc_rust_history.Features.Macd
use btc_rust_history.Features.Macd.{At, MacdState, update-some_iff}
use btc_rust_history.Features.Rsi
use btc_rust_history.Features.Rsi.{
  rsi_formula, wilder, changes, gain_of, loss_of, update-rsi_formula,
}
use btc_rust_history.Features.Vwap.{Bar}
use btc_rust_history.Features.SymbolState
use btc_rust_history.Features.SymbolState.{SymbolState}
use btc_rust_history.Features.SymbolState.Quality.{weight, quality-feed, macd_flag_early}
use btc_rust_history.Features.Engine.{
  Config, Candle, Message, Engine, Handled, ok, err, handle_candle, is_throttled, bar_of,
  message_of, publish,
}
use btc_rust_history.Features.Engine.Throttle.{handle_candle_throttled, handle_candle_retried}
use btc_rust_history.Tests.Data.{fixed, the, the_lem}

abbrev closes : List Fixed
closes = fixed 3 ∷ fixed 5 ∷ fixed 4 ∷ []

abbrev ema : Ema.EmaState Fixed
unfolding Ema.new
ema = the (Ema.new 2) refl

new-ema_example :
    let t = Ema.feed ema (reverse closes) in
    (Ema.ready t ≡ leb 2 3) × (t.value ≡ Ema.ema_formula (fixed 2 ⊘ (fixed 2 ⊕ fixed 1)) closes)
unfolding Ema.new
new-ema_example = Ema.new-ema_formula 2 closes (the_lem (Ema.new 2) refl) (omega arith)

abbrev rsi : Rsi.RsiState Fixed
unfolding Rsi.new
rsi = the (Rsi.new 2) refl

update-rsi_formula_example :
    let r = Rsi.update (Rsi.feed rsi (reverse (fixed 5 ∷ fixed 4 ∷ []))) (fixed 3) in
    (r.1 ≡ (
      if leb 2 2
      then some
          (rsi_formula (wilder 2 (changes gain_of closes)) (wilder 2 (changes loss_of closes)))
      else none))
    × (Rsi.ready r.0 ≡ leb 2 2)
unfolding Rsi.new
update-rsi_formula_example =
    update-rsi_formula 2 (fixed 3) (fixed 5) (fixed 4 ∷ []) (the_lem (Rsi.new 2) refl) (omega arith)

abbrev bar : ℕ → Bar Fixed
bar n = record {
  high = fixed (n + 1);
  low = fixed n;
  close = fixed n;
  volume = fixed 2;
  open_time_ms = pos (86_400_000 + n);
}

abbrev macd : MacdState Fixed
unfolding Macd.new Ema.new
macd = the (Macd.new 1 2 2) refl

abbrev symbol : SymbolState Fixed
unfolding SymbolState.new Macd.new Rsi.new Ema.new
symbol = the (SymbolState.new "S" 1 2 2 2) refl

abbrev bars : List (Bar Fixed × ℤ)
bars = (bar 5, pos 1) ∷ (bar 6, pos 2) ∷ (bar 7, pos 3) ∷ []

quality-feed_example :
    (SymbolState.update (SymbolState.feed symbol bars) (bar 8) (pos 4)).1.quality
    ≡ weight (leb 1 4) 1 + weight (leb 2 4) 2 + weight (leb 2 3) 4 + weight (leb (2 + 2) 4) 8 + 16
unfolding SymbolState.new Macd.new Rsi.new Ema.new
quality-feed_example =
    quality-feed "S" 1 2 2 2 bars (bar 8) (pos 4) (the_lem (SymbolState.new "S" 1 2 2 2) refl)
      (omega arith)

macd_flag_early_example :
    let v = (SymbolState.update (SymbolState.feed symbol bars) (bar 8) (pos 4)).1 in
    (v.quality / 8 % 2 ≡ 1) × (v.macd ≡ zero_f) × (v.macd_signal ≡ zero_f) × (v.macd_hist ≡ zero_f)
unfolding SymbolState.new Macd.new Rsi.new Ema.new
macd_flag_early_example =
    macd_flag_early "S" 1 2 2 2 bars (bar 8) (pos 4) (the_lem (SymbolState.new "S" 1 2 2 2) refl)
      (omega arith) refl

abbrev engine_config : Config
engine_config = record {
  ema_fast_period = 1;
  ema_slow_period = 2;
  rsi_period = 2;
  macd_signal_period = 2;
  throttle_ms = 10;
}

abbrev engine : Engine Fixed
engine = record { registry = ("S", symbol) ∷ []; throttle = []; published = [] }

abbrev closed_candle : Candle Fixed
closed_candle = record {
  symbol = "S";
  open_time = pos 1;
  close_time = pos 2;
  high = fixed 3;
  low = fixed 1;
  close = fixed 2;
  volume = fixed 4;
  is_closed = true;
}

abbrev engine_of : Engine Fixed → Handled Fixed → Engine Fixed
engine_of e (ok e') = e'
engine_of e (err e') = e'
engine_of e _ = e

abbrev good : Message Fixed → Bool
good m = true

abbrev bad : Message Fixed → Bool
bad m = false

abbrev engine_ok : Engine Fixed
engine_ok = engine_of engine (handle_candle engine_config good closed_candle 5 6 engine)

abbrev engine_err : Engine Fixed
engine_err = engine_of engine (handle_candle engine_config bad closed_candle 5 6 engine)

done_ok : handle_candle engine_config good closed_candle 5 6 engine ≡ ok engine_ok
unfolding handle_candle publish lookup
done_ok = refl

done_err : handle_candle engine_config bad closed_candle 5 6 engine ≡ err engine_err
unfolding handle_candle publish lookup
done_err = refl

handle_candle_throttled_example :
    (handle_candle engine_config bad closed_candle 9 9 engine_ok ≡ ok engine_ok)
    × (lookup "S" engine_ok.registry
        ≡ some (SymbolState.update symbol (bar_of closed_candle) (pos 2)).0)
unfolding lookup SymbolState.new Macd.new Rsi.new Ema.new the is_throttled
handle_candle_throttled_example =
    handle_candle_throttled engine_config good bad closed_candle closed_candle 5 6 9 9 engine
      (omega arith) refl refl refl refl done_ok refl (omega arith)

handle_candle_retried_example :
    let once = (SymbolState.update symbol (bar_of closed_candle) (pos 2)).0 in
    let (twice, fv) = SymbolState.update once (bar_of closed_candle) (pos 2) in
    (e'' : Engine Fixed) × (lookup "S" engine_err.registry ≡ some once)
    × (engine_err.published ≡ [])
    × (handle_candle engine_config good closed_candle 7 8 engine_err ≡ ok e'')
    × (e''.published ≡ message_of fv ∷ [])
    × (lookup "S" e''.registry ≡ some twice)
unfolding lookup is_throttled
handle_candle_retried_example =
    handle_candle_retried engine_config bad good closed_candle 5 6 7 8 engine refl done_err refl
      refl
