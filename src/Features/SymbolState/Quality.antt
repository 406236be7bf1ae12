-- ===== src/Features/SymbolState/Quality.antt =====
-- What the quality bitmask of a feature vector says after n bars.
use btc_rust_history.Prelude.{
  ℕ, suc, ◌+◌, ◌-◌, ◌/◌, ◌%◌, ◌^◌, ◌≤◌, ◌<◌, String, ◌≡◌, Bool, true, false, some, List, [], ◌∷◌,
  arith, ltb, leb, is_some, length, nat_key, string_key, ℤ,
}
use btc_rust_history.Float.{F64, zero_f}
use btc_rust_history.Features.Ema
use btc_rust_history.Features.Ema.{incr_u32}
use btc_rust_history.Features.Macd
use btc_rust_history.Features.Rsi
use btc_rust_history.Features.Vwap
use btc_rust_history.Features.Vwap.{Bar}
use btc_rust_history.Features.SymbolState.{SymbolState, flag, new, advance, update, feed}

abbrev pub weight : Bool → ℕ → ℕ
weight true bit = bit
weight false bit = 0

flags :
    (a b c e v : Bool)
    → flag v 16 (flag e 8 (flag c 4 (flag b 2 (flag a 1 0))))
      ≡ weight a 1 + weight b 2 + weight c 4 + weight e 8 + weight v 16
unfolding flag
flags a b c e v = ground arith

module _ {F : Type 0} ⦃d : F64 F⦄ where
  open d use {lit}

  -- The counters after `n` bars.
  pub record Warmed (f w r g n : ℕ) (s : SymbolState F) : Type 0 where
    pub fast_count : s.ema_fast.count ≡ n
    pub fast_bound : s.ema_fast.period ≡ f
    pub slow_count : s.ema_slow.count ≡ n
    pub slow_bound : s.ema_slow.period ≡ w
    pub rsi_count : s.rsi.deltas ≡ n - 1
    pub rsi_bound : s.rsi.period ≡ r
    pub rsi_seed : is_some s.rsi.prev_close ≡ ltb 0 n
    pub macd : Macd.At w g n s.macd
    pub vwap : s.vwap.bars_in_session ≤ n

  pub new-Warmed :
      (symbol : String) (f w r g : ℕ) {s : SymbolState F}
      → new symbol f w r g ≡ some s
      → Warmed f w r g 0 s × (1 ≤ g) × (2 ≤ r)
  unfolding new Ema.new Rsi.new Macd.new Vwap.new
  new-Warmed symbol f w r g e = ground arith

  advance-Warmed :
      (f w r g n : ℕ) (s : SymbolState F) (b : Bar F)
      → suc n < 2 ^ 32
      → Warmed f w r g n s
      → Warmed f w r g (suc n) (advance s b)
  advance-Warmed f w r g n s b h v = record {
    fast_count = unfold advance Ema.update_raw in (ground arith);
    fast_bound = unfold advance Ema.update_raw in (ground arith);
    slow_count = unfold advance Ema.update_raw in (ground arith);
    slow_bound = unfold advance Ema.update_raw in (ground arith);
    rsi_count = unfold advance Rsi.update in (ground arith);
    rsi_bound = unfold advance Rsi.update in (ground arith);
    rsi_seed = unfold advance Rsi.update in (ground arith);
    macd = unfold advance in Macd.update-At w g n s.macd b.close h v.macd;
    vwap = unfold advance Vwap.update Vwap.session Vwap.accumulate in (ground arith);
  }

  advance_vwap_ready :
      (f w r g n : ℕ) (s : SymbolState F) (b : Bar F)
      → suc n < 2 ^ 32
      → Warmed f w r g n s
      → Vwap.ready (advance s b).vwap ≡ true
  unfolding advance Vwap.update Vwap.session Vwap.accumulate Vwap.ready
  advance_vwap_ready f w r g n s b h v = ground arith

  -- What `update` answers after `n` bars, in terms of `n` alone.
  pub update_quality :
      (f w r g n : ℕ) (s : SymbolState F) (b : Bar F) (t : ℤ)
      → suc n < 2 ^ 32
      → 1 ≤ g
      → Warmed f w r g n s
      → let v = (update s b t).1 in
        (v.quality
          ≡ weight (leb f (suc n)) 1
            + weight (leb w (suc n)) 2
            + weight (leb r n) 4
            + weight (leb (w + g) (suc n)) 8
            + 16)
  unfolding update
  update_quality f w r g n s b t h one v =
      let v' = advance-Warmed f w r g n s b h v in
      let vw = advance_vwap_ready f w r g n s b h v in
      let m = Macd.ready_iff w g (suc n) (advance s b).macd v'.macd one in
      rw (flags _ _ _ _ _, vw, m)
        (unfold Ema.ready Rsi.ready in
          rw
            (v'.fast_count, v'.fast_bound, v'.slow_count, v'.slow_bound, v'.rsi_count, v'.rsi_bound)
            (ground arith))

  feed-Warmed :
      (f w r g n m : ℕ) (s : SymbolState F) (bars : List (Bar F × ℤ))
      → m ≡ n + length bars
      → m < 2 ^ 32
      → Warmed f w r g n s
      → Warmed f w r g m (feed s bars)
  unfolding feed update
  feed-Warmed f w r g n m s [] e h v = let same : m ≡ n = omega arith in rw same v
  feed-Warmed f w r g n m s ((b, t) ∷ bars) e h v =
      feed-Warmed f w r g (suc n) m (advance s b) bars (omega arith) h
        (advance-Warmed f w r g n s b (omega arith) v)

  macd_zero :
      (f w r g n : ℕ) (s : SymbolState F) (b : Bar F) (t : ℤ)
      → n < w + g
      → Warmed f w r g n s
      → let v = (update s b t).1 in
        (v.macd ≡ zero_f) × (v.macd_signal ≡ zero_f) × (v.macd_hist ≡ zero_f)
  unfolding update
  macd_zero f w r g n s b t h v = ground (arith, Macd.update-some_iff w g n s.macd b.close v.macd)

  -- The bitmask of bar `n + 1` of a new symbol, fewer than 2^32 bars on, is a function of the number
  -- of bars and the periods alone: bit 0 from bar `ema_fast`, bit 1 from bar `ema_slow`, bit 2 from
  -- bar `rsi_period + 1`, bit 3 from bar `ema_slow + signal_period`, and bit 4 always.
  pub quality-feed :
      (symbol : String) (f w r g : ℕ) {s : SymbolState F} (bars : List (Bar F × ℤ)) (b : Bar F)
      (t : ℤ)
      → new symbol f w r g ≡ some s
      → suc (length bars) < 2 ^ 32
      → let n = length bars in
        (update (feed s bars) b t).1.quality
        ≡ weight (leb f (suc n)) 1
          + weight (leb w (suc n)) 2
          + weight (leb r n) 4
          + weight (leb (w + g) (suc n)) 8
          + 16
  quality-feed symbol f w r g {s} bars b t e h =
      let (base, one, _) = new-Warmed symbol f w r g e in
      update_quality f w r g (length bars) (feed s bars) b t h one
        (feed-Warmed f w r g 0 (length bars) s bars (omega arith) (omega arith) base)

  -- On bar `ema_slow + signal_period` the bitmask says that the MACD is warmed up, and the three
  -- MACD fields of the same vector are the zeros that stand for no value.
  pub macd_flag_early :
      (symbol : String) (f w r g : ℕ) {s : SymbolState F} (bars : List (Bar F × ℤ)) (b : Bar F)
      (t : ℤ)
      → new symbol f w r g ≡ some s
      → suc (length bars) < 2 ^ 32
      → suc (length bars) ≡ w + g
      → let v = (update (feed s bars) b t).1 in
        (v.quality / 8 % 2 ≡ 1)
        × (v.macd ≡ zero_f)
        × (v.macd_signal ≡ zero_f)
        × (v.macd_hist ≡ zero_f)
  macd_flag_early symbol f w r g {s} bars b t e h k =
      let (base, one, _) = new-Warmed symbol f w r g e in
      let warmed = feed-Warmed f w r g 0 (length bars) s bars (omega arith) (omega arith) base in
      let (x, y, z) = macd_zero f w r g (length bars) (feed s bars) b t (omega arith) warmed in
      let q = quality-feed symbol f w r g bars b t e h in (ground arith, x, y, z)
