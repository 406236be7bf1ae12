-- ===== src/Features/Vwap.antt =====
-- services/feature_engine/src/indicators/vwap.rs. Times are in milliseconds.
use btc_rust_history.Prelude.{
  ℕ, ◌+◌, ◌^◌, ◌<◌, ◌≡◌, refl, ◌≢◌, Bool, true, not, List, [], ◌∷◌, foldl, arith, ltb, eqb,
  if◌then◌else◌, length, All, nat_key, string_key, ℤ, tdiv, to_u32,
}
use btc_rust_history.Float.{F64, ◌⊕◌, ◌⊗◌, ◌⊘◌, zero_f}
use btc_rust_history.Features.Ema.{incr_u32}

pub record VwapState (F : Type 0) : Type 0 where
  pub cumulative_pv : F
  pub cumulative_vol : F
  pub session_day : ℕ
  pub bars_in_session : ℕ

pub record Bar (F : Type 0) : Type 0 where
  pub high : F
  pub low : F
  pub close : F
  pub volume : F
  pub open_time_ms : ℤ

-- `(open_time_ms / 86_400_000) as u32`
unfoldable pub day_of : ℤ → ℕ
day_of t = to_u32 (tdiv t 86_400_000)

module _ {F : Type 0} ⦃d : F64 F⦄ where
  open d use {lit, eq}

  unfoldable pub new : VwapState F
  new = record {
    cumulative_pv = zero_f;
    cumulative_vol = zero_f;
    session_day = 0;
    bars_in_session = 0;
  }

  unfoldable pub vwap : VwapState F → F
  vwap s = if eq s.cumulative_vol zero_f then zero_f else s.cumulative_pv ⊘ s.cumulative_vol

  -- The reset at a day boundary.
  unfoldable pub session : VwapState F → ℕ → VwapState F
  session s day =
      if not (eqb day s.session_day)
      then record {
        cumulative_pv = zero_f;
        cumulative_vol = zero_f;
        bars_in_session = 0;
        session_day = day;
      }
      else s

  unfoldable pub typical : Bar F → F
  typical b = (b.high ⊕ b.low ⊕ b.close) ⊘ lit 3 0

  unfoldable pub accumulate : VwapState F → Bar F → VwapState F
  unfolding typical incr_u32
  accumulate s b = record s {
    cumulative_pv = s.cumulative_pv ⊕ typical b ⊗ b.volume;
    cumulative_vol = s.cumulative_vol ⊕ b.volume;
    bars_in_session = incr_u32 s.bars_in_session;
  }

  unfoldable pub update : VwapState F → Bar F → VwapState F × F
  update s b = let t = accumulate (session s (day_of b.open_time_ms)) b in (t, vwap t)

  unfoldable pub ready : VwapState F → Bool
  ready s = ltb 0 s.bars_in_session

  pub feed : VwapState F → List (Bar F) → VwapState F
  feed s [] = s
  feed s (b ∷ bs) = feed (update s b).0 bs

  -- Σ(typical × volume) and Σ(volume), from the left.
  pub weighted : List (Bar F) → F
  weighted bs = foldl (λ acc b. acc ⊕ typical b ⊗ b.volume) zero_f bs

  pub volumes : List (Bar F) → F
  volumes bs = foldl (λ acc b. acc ⊕ b.volume) zero_f bs

  feed_same_day :
      (day : ℕ) (s : VwapState F) (bs : List (Bar F))
      → s.session_day ≡ day
      → All (λ b. day_of b.open_time_ms ≡ day) bs
      → s.bars_in_session + length bs < 2 ^ 32
      → ((feed s bs).cumulative_pv ≡ foldl (λ acc b. acc ⊕ typical b ⊗ b.volume) s.cumulative_pv bs)
        × ((feed s bs).cumulative_vol ≡ foldl (λ acc b. acc ⊕ b.volume) s.cumulative_vol bs)
        × ((feed s bs).bars_in_session ≡ s.bars_in_session + length bs)
        × ((feed s bs).session_day ≡ day)
  unfolding feed update session accumulate
  feed_same_day day s [] e h k = (refl, refl, omega arith, e)
  feed_same_day day s (b ∷ bs) e (h, hs) k = ground (arith, feed_same_day day (update s b).0 bs)

  -- The first bar of a new day discards the old session: after the bars of one day, all that is
  -- left of the state before is nothing, and the VWAP is the quotient of the day's two sums.
  vwap-feed_new_day :
      (day : ℕ) (s : VwapState F) (b : Bar F) (bs : List (Bar F))
      → s.session_day ≢ day
      → All (λ c. day_of c.open_time_ms ≡ day) (b ∷ bs)
      → length (b ∷ bs) < 2 ^ 32
      → let t = feed s (b ∷ bs) in
        (vwap t
          ≡ (if eq (volumes (b ∷ bs)) zero_f then zero_f else weighted (b ∷ bs) ⊘ volumes (b ∷ bs)))
        × (t.bars_in_session ≡ length (b ∷ bs))
        × (t.session_day ≡ day)
        × (ready t ≡ true)
  unfolding feed update session accumulate vwap weighted volumes ready
  vwap-feed_new_day day s b bs ne (h, hs) k = ground (arith, feed_same_day day (update s b).0 bs)
