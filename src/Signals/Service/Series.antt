-- ===== src/Signals/Service/Series.antt =====
-- The lengths of the series that `observe` of the signal service keeps
-- (services/strategy_engine/signal_engine/src/main.rs).
use btc_rust_history.Prelude.{
  ℕ, ◌+◌, min, String, ◌≡◌, refl, ◌∙◌, inl, inr, Bool, Option, none, some, List, [], ◌∷◌, ◌++◌,
  arith, Bool-cases, get_or, length, length-append, ◌==◌, nat_key, string_key, pair_key, int_key,
  Map, lookup,
}
use btc_rust_history.Float.{F64}
use btc_rust_history.Signals.Service.{
  FeatureState, SymbolState, Tree, place, lookup-place, pop_past, push_capped, place_if,
  extract_factor_snapshot,
}
use btc_rust_history.Signals.Service.Histories.{push_volatility, push_factors}

length-pop_past {ℓ} :
    {A : Type ℓ} (max_len : ℕ) (xs : List A)
    → length (pop_past max_len xs) ≡ min (length xs) max_len
unfolding pop_past
length-pop_past max_len [] = omega arith
length-pop_past max_len (x ∷ xs) = ground (arith, length-pop_past max_len xs)

pub length-push_capped {ℓ} :
    {A : Type ℓ} (queue : List A) (value : A) (max_len : ℕ)
    → length (push_capped queue value max_len) ≡ min (length queue + 1) max_len
unfolding push_capped
length-push_capped queue value max_len =
    omega (arith, length-pop_past max_len (queue ++ value ∷ []), length-append queue (value ∷ []))

-- No key stands twice.
unfoldable pub IsDistinct : {V : Type 0} → Map String V → Type 0
IsDistinct [] = Unit
IsDistinct ((key, v) ∷ rest) = (lookup key rest ≡ none) × IsDistinct rest

module _ {F : Type 0} ⦃d : F64 F⦄ where
  six-IsDistinct :
      (b1 b2 b3 b4 b5 b6 : Bool) (v1 v2 v3 v4 v5 v6 : F)
      → IsDistinct (
          place_if b6 "vol_zscore" v6 (
            place_if b5 "adx_centered" v5 (
              place_if b4 "oi_change_pct" v4 (
                place_if b3 "rsi_centered" v3
                  (place_if b2 "macd_hist" v2 (place_if b1 "ema_spread" v1 []))))))
  unfolding place_if IsDistinct lookup
  six-IsDistinct b1 b2 b3 b4 b5 b6 v1 v2 v3 v4 v5 v6 = ground arith

  pub extract-IsDistinct : (feature : FeatureState F) → IsDistinct (extract_factor_snapshot feature)
  unfolding extract_factor_snapshot IsDistinct
  extract-IsDistinct feature = six-IsDistinct _ _ _ _ _ _ _ _ _ _ _ _

  abbrev pub history_of : String → Tree (List F) → List F
  history_of name histories = get_or (lookup name histories) []

  unfoldable pub after : Option F → ℕ → List F → List F
  after none limit history = history
  after (some value) limit history = push_capped history value limit

  pub history-push_factors :
      (limit : ℕ) (asked : String) (factors : Tree F) (histories : Tree (List F))
      → IsDistinct factors
      → history_of asked (push_factors limit factors histories)
        ≡ after (lookup asked factors) limit (history_of asked histories)
  unfolding push_factors IsDistinct lookup after
  history-push_factors limit asked [] histories h = refl
  history-push_factors limit asked ((name, value) ∷ factors) histories h =
      let pushed = push_capped (get_or (lookup name histories) []) value limit in
      history-push_factors limit asked factors (place name pushed histories) h.1
      ∙ elim (Bool-cases (name == asked)) [
        | inl same ↦
            rw
              (
                lookup-place asked name pushed histories,
                same,
                ← (string_key.same_iff name asked).0 same,
                h.0,
              )
              refl
        | inr other ↦ rw (lookup-place asked name pushed histories, other) refl
      ]

  -- The series of volatilities is apart from the others.
  pub push_volatility_keeps :
      (limit : ℕ) (o : Option F) (s : SymbolState F)
      → ((push_volatility limit o s).return_history ≡ s.return_history)
        × ((push_volatility limit o s).factor_histories ≡ s.factor_histories)
  unfolding push_volatility
  push_volatility_keeps limit none s = (refl, refl)
  push_volatility_keeps limit (some v) s = (refl, refl)
