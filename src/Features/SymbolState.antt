-- ===== src/Features/SymbolState.antt =====
-- services/feature_engine/src/state/symbol_state.rs: all the indicators of one symbol, and the feature
-- vector of a bar with its quality bitmask. The fields that the code fills with constants are kept.
-- Child `Quality` is about the bitmask.
pub mod Quality
use Prim.Native.Nat.{bit_or}
use btc_rust_history.Prelude.{
  ℕ, zero, suc, ◌+◌, ◌-◌, ◌*◌, ◌/◌, ◌%◌, ◌^◌, ◌≤◌, ◌<◌, min, max, String, ◌≡◌, refl, sym, ap, ◌∙◌,
  ◌≢◌, ◌↔◌, ◌⊎◌, inl, inr, Bool, true, false, ◌&&◌, ◌||◌, not, Option, none, some, List, [], ◌∷◌,
  ◌++◌, map, foldl, arith, ltb, leb, eqb, if◌then◌else◌, ltb→lt, leb→le, eqb_iff, Bool-cases,
  Option-cases, is_some, get_or, or_else, length, is_empty, drop, take, last?, keep, exists, All,
  length-append, length-drop, length-take, length-keep-le, keep-All, keep_of_All, All-append,
  All-drop, drop_past, drop-append, length-map, Key, ◌==◌, nat_key, string_key, ==_refl, Map,
  lookup, insert, remove, lookup-insert, lookup-remove, ℤ, pos, negsuc, pos_part, neg_part, ◌+ℤ◌,
  ◌-ℤ◌, ◌*ℤ◌, tdiv, to_u32, ◌≤ℤ◌, leb_ℤ, ltb_ℤ, eqb_ℤ,
}
use btc_rust_history.Float.{F64, ◌⊕◌, ◌⊖◌, ◌⊗◌, ◌⊘◌, ◌≺◌, ◌≼◌, zero_f, sum_f, IsOrdered}
use btc_rust_history.Features.Ema
use btc_rust_history.Features.Ema.{EmaState}
use btc_rust_history.Features.Macd
use btc_rust_history.Features.Macd.{MacdState, MacdValues}
use btc_rust_history.Features.Rsi
use btc_rust_history.Features.Rsi.{RsiState}
use btc_rust_history.Features.Vwap
use btc_rust_history.Features.Vwap.{VwapState, Bar}

abbrev pub quality_ema_fast : ℕ
quality_ema_fast = 1

abbrev pub quality_ema_slow : ℕ
quality_ema_slow = 2

abbrev pub quality_rsi : ℕ
quality_rsi = 4

abbrev pub quality_macd : ℕ
quality_macd = 8

abbrev pub quality_vwap : ℕ
quality_vwap = 16

pub record FeatureVector (F : Type 0) : Type 0 where
  pub symbol : String
  pub ts : ℤ
  pub ema_fast : F
  pub ema_slow : F
  pub rsi : F
  pub macd : F
  pub macd_signal : F
  pub macd_hist : F
  pub vwap : F
  pub adx : F
  pub atr : F
  pub regime : ℕ
  pub vol_zscore : F
  pub oi_change_pct : F
  pub quality : ℕ

pub record SymbolState (F : Type 0) : Type 0 where
  pub symbol : String
  pub ema_fast : EmaState F
  pub ema_slow : EmaState F
  pub rsi : RsiState F
  pub macd : MacdState F
  pub vwap : VwapState F

infixl 5 ◌>>=◌
abbrev ◌>>=◌ : {A B : Type 0} → Option A → (A → Option B) → Option B
none >>= f = none
some a >>= f = f a

-- `if ready { quality |= bit }`
unfoldable pub flag : Bool → ℕ → ℕ → ℕ
flag ready bit quality = if ready then bit_or quality bit else quality

module _ {F : Type 0} ⦃d : F64 F⦄ where
  open d use {lit}

  unfoldable pub new : String → ℕ → ℕ → ℕ → ℕ → Option (SymbolState F)
  new symbol ema_fast ema_slow rsi_period signal_period = do
    fast ← Ema.new ema_fast
    slow ← Ema.new ema_slow
    rsi ← Rsi.new rsi_period
    macd ← Macd.new ema_fast ema_slow signal_period
    some (record {
      symbol = symbol;
      ema_fast = fast;
      ema_slow = slow;
      rsi = rsi;
      macd = macd;
      vwap = Vwap.new;
    })

  -- The values of the MACD, or zeros.
  unfoldable pub macd_or_zero : Option (MacdValues F) → F × F × F
  macd_or_zero none = (zero_f, zero_f, zero_f)
  macd_or_zero (some v) = (v.macd, v.signal, v.hist)

  -- The state after a bar.
  unfoldable pub advance : SymbolState F → Bar F → SymbolState F
  advance s b = record s {
    ema_fast = (Ema.update_raw s.ema_fast b.close).0;
    ema_slow = (Ema.update_raw s.ema_slow b.close).0;
    rsi = (Rsi.update s.rsi b.close).0;
    macd = (Macd.update s.macd b.close).0;
    vwap = (Vwap.update s.vwap b).0;
  }

  unfoldable pub quality_of : SymbolState F → ℕ
  unfolding flag
  quality_of t = flag (Vwap.ready t.vwap) quality_vwap (
      flag (Macd.ready t.macd) quality_macd (
        flag (Rsi.ready t.rsi) quality_rsi (
          flag (Ema.ready t.ema_slow) quality_ema_slow
            (flag (Ema.ready t.ema_fast) quality_ema_fast 0))))

  unfoldable pub update : SymbolState F → Bar F → ℤ → SymbolState F × FeatureVector F
  unfolding advance quality_of macd_or_zero
  update s b close_time_ms =
      let (macd, macd_signal, macd_hist) = macd_or_zero (Macd.update s.macd b.close).1 in
      (
        advance s b,
        record {
          symbol = s.symbol;
          ts = close_time_ms;
          ema_fast = (Ema.update_raw s.ema_fast b.close).1;
          ema_slow = (Ema.update_raw s.ema_slow b.close).1;
          rsi = get_or (Rsi.update s.rsi b.close).1 (lit 50 0);
          macd = macd;
          macd_signal = macd_signal;
          macd_hist = macd_hist;
          vwap = (Vwap.update s.vwap b).1;
          adx = zero_f;
          atr = zero_f;
          regime = 0;
          vol_zscore = zero_f;
          oi_change_pct = zero_f;
          quality = quality_of (advance s b);
        },
      )

  pub feed : SymbolState F → List (Bar F × ℤ) → SymbolState F
  feed s [] = s
  feed s ((b, t) ∷ bs) = feed (update s b t).0 bs
