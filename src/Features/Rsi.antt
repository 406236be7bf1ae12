-- ===== src/Features/Rsi.antt =====
-- services/feature_engine/src/indicators/rsi.rs.
use mathlib.Core.List.{reverse, reverse-cons}
use btc_rust_history.Prelude.{
  ℕ, suc, ◌^◌, ◌<◌, ◌≡◌, refl, ap, Bool, Option, none, some, List, [], ◌∷◌, ◌++◌, arith, ltb, leb,
  eqb, if◌then◌else◌, length, length-append, nat_key, string_key,
}
use btc_rust_history.Float.{F64, ◌⊕◌, ◌⊖◌, ◌⊗◌, ◌⊘◌, ◌≺◌, zero_f, sum_f}
use btc_rust_history.Features.Ema.{incr_u32}

pub record RsiState (F : Type 0) : Type 0 where
  pub period : ℕ
  pub prev_close : Option F
  pub avg_gain : F
  pub avg_loss : F
  pub deltas : ℕ
  pub warmup_gains : List F
  pub warmup_losses : List F

module _ {F : Type 0} ⦃d : F64 F⦄ where
  open d use {lit, of_nat, eq, neg}

  unfoldable pub new : ℕ → Option (RsiState F)
  new period =
      if leb 2 period
      then some (record {
        period = period;
        prev_close = none;
        avg_gain = zero_f;
        avg_loss = zero_f;
        deltas = 0;
        warmup_gains = [];
        warmup_losses = [];
      })
      else none

  unfoldable pub rsi : RsiState F → F
  rsi s =
      if eq s.avg_loss zero_f
      then lit 100 0
      else lit 100 0 ⊖ lit 100 0 ⊘ (lit 1 0 ⊕ s.avg_gain ⊘ s.avg_loss)

  unfoldable pub gain_of : F → F
  gain_of delta = if zero_f ≺ delta then delta else zero_f

  unfoldable pub loss_of : F → F
  loss_of delta = if delta ≺ zero_f then neg delta else zero_f

  -- The end of the warmup, and the mean over it.
  unfoldable pub finalize : RsiState F → F → F → RsiState F
  finalize s gain loss = record s {
    avg_gain = (sum_f s.warmup_gains ⊕ gain) ⊘ (of_nat (length s.warmup_gains) ⊕ lit 1 0);
    avg_loss = (sum_f s.warmup_losses ⊕ loss) ⊘ (of_nat (length s.warmup_gains) ⊕ lit 1 0);
    warmup_gains = [];
    warmup_losses = [];
  }

  -- Wilder's smoothing.
  unfoldable pub smooth : RsiState F → F → F → RsiState F
  smooth s gain loss =
      let p = of_nat s.period in
      record s {
        avg_gain = (s.avg_gain ⊗ (p ⊖ lit 1 0) ⊕ gain) ⊘ p;
        avg_loss = (s.avg_loss ⊗ (p ⊖ lit 1 0) ⊕ loss) ⊘ p;
      }

  -- What follows the first bar: `s` has the new `prev_close` and the new count of deltas.
  unfoldable pub advance : RsiState F → F → F → RsiState F × Option F
  unfolding finalize smooth
  advance s gain loss =
      if ltb s.deltas s.period
      then (
        record s {
          warmup_gains = s.warmup_gains ++ (gain ∷ []);
          warmup_losses = s.warmup_losses ++ (loss ∷ []);
        },
        none,
      )
      else let t = if eqb s.deltas s.period then finalize s gain loss else smooth s gain loss in
        (t, some (rsi t))

  unfoldable pub update_from : Option F → RsiState F → F → RsiState F × Option F
  unfolding advance incr_u32
  update_from none s close = (record s { prev_close = some close }, none)
  update_from (some prev) s close =
      advance (record s { prev_close = some close; deltas = incr_u32 s.deltas })
        (gain_of (close ⊖ prev)) (loss_of (close ⊖ prev))

  unfoldable pub update : RsiState F → F → RsiState F × Option F
  unfolding update_from
  update s close = update_from s.prev_close s close

  unfoldable pub ready : RsiState F → Bool
  ready s = leb s.period s.deltas

  pub feed : RsiState F → List F → RsiState F
  feed s [] = s
  feed s (p ∷ ps) = feed (update s p).0 ps

  -- The differences of neighbouring closes, the closes and the differences newest first.
  pub changes : (F → F) → List F → List F
  changes f [] = []
  changes f (p ∷ []) = []
  changes f (p ∷ q ∷ ps) = f (p ⊖ q) ∷ changes f (q ∷ ps)

  -- The documented average: the mean of the first `period` values, then the smoothing formula.
  pub wilder : ℕ → List F → F
  wilder period [] = zero_f
  wilder period (g ∷ older) =
      if ltb (suc (length older)) period
      then zero_f
      else if eqb (suc (length older)) period
      then (sum_f (reverse older) ⊕ g) ⊘ (of_nat (length older) ⊕ lit 1 0)
      else (wilder period older ⊗ (of_nat period ⊖ lit 1 0) ⊕ g) ⊘ of_nat period

  -- What the state holds after the closes `prices`, the newest first.
  pub record Tracks (period : ℕ) (last : F) (older : List F) (s : RsiState F) : Type 0 where
    pub bound : s.period ≡ period
    pub prev : s.prev_close ≡ some last
    pub count : s.deltas ≡ length older
    pub gain : s.avg_gain ≡ wilder period (changes gain_of (last ∷ older))
    pub loss : s.avg_loss ≡ wilder period (changes loss_of (last ∷ older))
    pub gains :
        s.warmup_gains
        ≡ (if ltb (length older) period then reverse (changes gain_of (last ∷ older)) else [])
    pub losses :
        s.warmup_losses
        ≡ (if ltb (length older) period then reverse (changes loss_of (last ∷ older)) else [])

  length-changes : (f : F → F) (p : F) (ps : List F) → length (changes f (p ∷ ps)) ≡ length ps
  unfolding changes
  length-changes f p [] = refl
  length-changes f p (q ∷ ps) = ap suc (length-changes f q ps)

  length-reverse : (ps : List F) → length (reverse ps) ≡ length ps
  length-reverse [] = refl
  length-reverse (p ∷ ps) =
      omega (
        arith,
        ap length (reverse-cons p ps),
        length-append (reverse ps) (p ∷ []),
        length-reverse ps,
      )

  update-Tracks :
      (period : ℕ) (q : F) (ps : List F) (s : RsiState F) (p : F)
      → Tracks period q ps s
      → suc (length ps) < 2 ^ 32
      → Tracks period p (q ∷ ps) (update s p).0
  unfolding update wilder changes
  update-Tracks period q ps s p t h =
      let ng = length-changes gain_of q ps in
      let nl = length-changes loss_of q ps in
      let rg = length-reverse (changes gain_of (q ∷ ps)) in
      let rl = length-reverse (changes loss_of (q ∷ ps)) in
      let cg = reverse-cons (gain_of (p ⊖ q)) (changes gain_of (q ∷ ps)) in
      let cl = reverse-cons (loss_of (p ⊖ q)) (changes loss_of (q ∷ ps)) in
      record {
        bound = ground arith;
        prev = ground arith;
        count = ground arith;
        gain = ground arith;
        loss = ground arith;
        gains = ground arith;
        losses = ground arith;
      }

  -- The index as the documentation gives it, 100 where there is no loss.
  pub rsi_formula : F → F → F
  rsi_formula gain loss =
      if eq loss zero_f then lit 100 0 else lit 100 0 ⊖ lit 100 0 ⊘ (lit 1 0 ⊕ gain ⊘ loss)

  rsi-rsi_formula : (s : RsiState F) → rsi s ≡ rsi_formula s.avg_gain s.avg_loss
  unfolding rsi rsi_formula
  rsi-rsi_formula s = refl

  update_result :
      (period : ℕ) (q : F) (ps : List F) (s : RsiState F) (p : F)
      → Tracks period q ps s
      → suc (length ps) < 2 ^ 32
      → (update s p).1 ≡ (if leb period (suc (length ps)) then some (rsi (update s p).0) else none)
  unfolding update
  update_result period q ps s p t h = ground arith

  feed-snoc :
      (s : RsiState F) (ps : List F) (p : F) → feed s (ps ++ (p ∷ [])) ≡ (update (feed s ps) p).0
  unfolding feed
  feed-snoc s [] p = refl
  feed-snoc s (q ∷ ps) p = feed-snoc (update s q).0 ps p

  pub feed-Tracks :
      (period : ℕ) (s : RsiState F) (p : F) (ps : List F)
      → new period ≡ some s
      → length ps < 2 ^ 32
      → Tracks period p ps (feed s (reverse (p ∷ ps)))
  unfolding new
  feed-Tracks period s p [] e h =
      let base : Tracks period p [] (update s p).0 =
        unfold update wilder changes in
        (record {
          bound = ground arith;
          prev = ground arith;
          count = ground arith;
          gain = ground arith;
          loss = ground arith;
          gains = ground arith;
          losses = ground arith;
        }) in
      unfold feed in base
  feed-Tracks period s p (q ∷ ps) e h =
      rw (reverse-cons p (q ∷ ps), feed-snoc s (reverse (q ∷ ps)) p)
        (update-Tracks period q ps _ p (feed-Tracks period s q ps e (omega arith)) h)

  -- A new RSI fed fewer than 2^32 closes `p`, `q`, ... (the newest first) answers nothing while
  -- fewer than `period` differences were seen, and from then on the documented index of Wilder's
  -- averages of the gains and of the losses. It is then `ready`, and not before.
  pub update-rsi_formula :
      (period : ℕ) {s : RsiState F} (p q : F) (ps : List F)
      → new period ≡ some s
      → length (q ∷ ps) < 2 ^ 32
      → let r = update (feed s (reverse (q ∷ ps))) p in
        let closes = p ∷ q ∷ ps in
        (r.1 ≡ (
          if leb period (length (q ∷ ps))
          then some (
              rsi_formula
                (wilder period (changes gain_of closes))
                (wilder period (changes loss_of closes)))
          else none))
        × (ready r.0 ≡ leb period (length (q ∷ ps)))
  unfolding ready
  update-rsi_formula period {s} p q ps e h =
      let t = feed-Tracks period s q ps e (omega arith) in
      let t' = update-Tracks period q ps _ p t h in
      let r = update_result period q ps _ p t h in
      let v = rsi-rsi_formula (update (feed s (reverse (q ∷ ps))) p).0 in ground (arith, r, v)
