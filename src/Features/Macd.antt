-- ===== src/Features/Macd.antt =====
-- services/feature_engine/src/indicators/macd.rs.
use btc_rust_history.Prelude.{
  ℕ, suc, ◌+◌, ◌-◌, ◌^◌, ◌≤◌, ◌<◌, ◌≡◌, Bool, ◌&&◌, not, Option, none, some, List, [], ◌∷◌, arith,
  leb, if◌then◌else◌, is_some, nat_key, string_key,
}
use btc_rust_history.Float.{F64, ◌⊖◌}
use btc_rust_history.Features.Ema
use btc_rust_history.Features.Ema.{EmaState, incr_u32}

pub record MacdState (F : Type 0) : Type 0 where
  pub fast : EmaState F
  pub slow : EmaState F
  pub signal : EmaState F

pub record MacdValues (F : Type 0) : Type 0 where
  pub macd : F
  pub signal : F
  pub hist : F

infixl 5 ◌>>=◌
abbrev ◌>>=◌ : {A B : Type 0} → Option A → (A → Option B) → Option B
none >>= f = none
some a >>= f = f a

module _ {F : Type 0} ⦃d : F64 F⦄ where
  unfoldable pub new : ℕ → ℕ → ℕ → Option (MacdState F)
  new fast_period slow_period signal_period = do
    fast ← Ema.new fast_period
    slow ← Ema.new slow_period
    signal ← Ema.new signal_period
    some (record { fast = fast; slow = slow; signal = signal })

  unfoldable pub update : MacdState F → F → MacdState F × Option (MacdValues F)
  update s close =
      let (fast, fast_val) = Ema.update_raw s.fast close in
      let slow_ready = Ema.ready s.slow in
      let (slow, slow_val) = Ema.update_raw s.slow close in
      let macd = fast_val ⊖ slow_val in
      let signal_ready = Ema.ready s.signal in
      let (signal, sig_val) = Ema.update_raw s.signal macd in
      if not slow_ready then (record s { fast = fast; slow = slow }, none) else (
        record { fast = fast; slow = slow; signal = signal },
        if not signal_ready
            then none
            else some (record { macd = macd; signal = sig_val; hist = macd ⊖ sig_val }),
      )

  unfoldable pub ready : MacdState F → Bool
  ready s = Ema.ready s.slow && Ema.ready s.signal

  pub feed : MacdState F → List F → MacdState F
  feed s [] = s
  feed s (p ∷ ps) = feed (update s p).0 ps

  -- The counters after `n` bars.
  pub record At (slow_period signal_period n : ℕ) (s : MacdState F) : Type 0 where
    pub slow_count : s.slow.count ≡ n
    pub slow_bound : s.slow.period ≡ slow_period
    pub signal_count : s.signal.count ≡ n - slow_period
    pub signal_bound : s.signal.period ≡ signal_period

  pub new-At : (f w g : ℕ) {s : MacdState F} → new f w g ≡ some s → At w g 0 s × (1 ≤ w) × (1 ≤ g)
  unfolding new Ema.new
  new-At f w g e = ground arith

  pub update-At :
      (w g n : ℕ) (s : MacdState F) (close : F)
      → suc n < 2 ^ 32
      → At w g n s
      → At w g (suc n) (update s close).0
  unfolding update Ema.update_raw Ema.update Ema.ready incr_u32
  update-At w g n s close h a = ground arith

  -- With `n` bars behind it (`At`), the MACD answers a value on the next bar exactly when `n` is at
  -- least the slow period and at least the slow period plus the signal period.
  pub update-some_iff :
      (w g n : ℕ) (s : MacdState F) (close : F)
      → At w g n s
      → is_some (update s close).1 ≡ (leb w n && leb (w + g) n)
  unfolding update Ema.ready
  update-some_iff w g n s close a = ground arith

  pub ready_iff : (w g n : ℕ) (s : MacdState F) → At w g n s → 1 ≤ g → ready s ≡ leb (w + g) n
  unfolding ready Ema.ready
  ready_iff w g n s a h = ground arith
