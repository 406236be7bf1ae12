-- ===== src/Features/Ema.antt =====
-- services/feature_engine/src/indicators/ema.rs. `none` of `new` is the failed `assert!`. Counters are
-- `u32` and wrap. Feeding a list of prices stands for the calls that the service makes bar by bar.
use mathlib.Core.List.{reverse, reverse-cons}
use btc_rust_history.Prelude.{
  ℕ, ◌+◌, ◌%◌, ◌^◌, ◌<◌, ◌≡◌, refl, ap, Bool, Option, none, some, List, [], ◌∷◌, ◌++◌, arith, leb,
  eqb, if◌then◌else◌, length, length-append,
}
use btc_rust_history.Float.{F64, ◌⊕◌, ◌⊖◌, ◌⊗◌, ◌⊘◌, zero_f}

-- `n += 1` on a `u32`.
unfoldable pub incr_u32 : ℕ → ℕ
incr_u32 n = (n + 1) % 2 ^ 32

pub record EmaState (F : Type 0) : Type 0 where
  pub alpha : F
  pub value : F
  pub count : ℕ
  pub period : ℕ

module _ {F : Type 0} ⦃d : F64 F⦄ where
  open d use {lit, of_nat}

  unfoldable pub new : ℕ → Option (EmaState F)
  new period =
      if leb 1 period
      then some (record {
        alpha = lit 2 0 ⊘ (of_nat period ⊕ lit 1 0);
        value = zero_f;
        count = 0;
        period = period;
      })
      else none

  unfoldable pub ready : EmaState F → Bool
  ready s = leb s.period s.count

  unfoldable pub update : EmaState F → F → EmaState F × Option F
  unfolding ready incr_u32
  update s price = (s', if ready s' then some s'.value else none)
    where
      s' : EmaState F
      s' = record s {
        value = if eqb s.count 0 then price else s.alpha ⊗ price ⊕ (lit 1 0 ⊖ s.alpha) ⊗ s.value;
        count = incr_u32 s.count;
      }

  unfoldable pub update_raw : EmaState F → F → EmaState F × F
  unfolding update
  update_raw s price = let (s', _) = update s price in (s', s'.value)

  pub feed : EmaState F → List F → EmaState F
  feed s [] = s
  feed s (p ∷ ps) = feed (update s p).0 ps

  -- The formula of the module's documentation, on the prices with the newest first.
  pub ema_formula : F → List F → F
  ema_formula alpha [] = zero_f
  ema_formula alpha (p ∷ []) = p
  ema_formula alpha (p ∷ q ∷ ps) = alpha ⊗ p ⊕ (lit 1 0 ⊖ alpha) ⊗ ema_formula alpha (q ∷ ps)

  pub feed_fields :
      (s : EmaState F) (ps : List F)
      → s.count + length ps < 2 ^ 32
      → ((feed s ps).count ≡ s.count + length ps)
        × ((feed s ps).period ≡ s.period)
        × ((feed s ps).alpha ≡ s.alpha)
  unfolding feed update
  feed_fields s [] h = (omega arith, refl, refl)
  feed_fields s (p ∷ ps) h =
      let (c, q, a) = feed_fields (update s p).0 ps (omega arith) in (omega arith, q, a)

  feed-snoc :
      (s : EmaState F) (ps : List F) (p : F) → feed s (ps ++ (p ∷ [])) ≡ (update (feed s ps) p).0
  unfolding feed
  feed-snoc s [] p = refl
  feed-snoc s (q ∷ ps) p = feed-snoc (update s q).0 ps p

  length-reverse : (ps : List F) → length (reverse ps) ≡ length ps
  length-reverse [] = refl
  length-reverse (p ∷ ps) =
      omega (
        arith,
        ap length (reverse-cons p ps),
        length-append (reverse ps) (p ∷ []),
        length-reverse ps,
      )

  value-feed :
      (s : EmaState F) (history : List F)
      → s.count ≡ 0
      → s.value ≡ zero_f
      → length history < 2 ^ 32
      → (feed s (reverse history)).value ≡ ema_formula s.alpha history
  unfolding update ema_formula
  value-feed s [] c v h = unfold feed in v
  value-feed s (p ∷ []) c v h = unfold feed in rw c
  value-feed s (p ∷ q ∷ ps) c v h =
      let n = length-reverse (q ∷ ps) in
      let (count, _, a) = feed_fields s (reverse (q ∷ ps)) (omega arith) in
      rw (reverse-cons p (q ∷ ps), feed-snoc s (reverse (q ∷ ps)) p)
        (ground (arith, value-feed s (q ∷ ps) c v))

  -- A new EMA fed fewer than 2^32 prices is ready exactly when at least `period` were fed, and
  -- its value is the documented recursion over the prices, the newest first, that starts from
  -- the first price as it is.
  pub new-ema_formula :
      (period : ℕ) (history : List F) {s : EmaState F}
      → new period ≡ some s
      → length history < 2 ^ 32
      → let t = feed s (reverse history) in
        (ready t ≡ leb period (length history))
        × (t.value ≡ ema_formula (lit 2 0 ⊘ (of_nat period ⊕ lit 1 0)) history)
  unfolding new ready
  new-ema_formula period history {s} e h =
      let n = length-reverse history in
      ground (arith, feed_fields s (reverse history), value-feed s history)
