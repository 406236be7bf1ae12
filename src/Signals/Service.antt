-- ===== src/Signals/Service.antt =====
-- The service of services/strategy_engine/signal_engine/src/main.rs: its types and the functions that
-- read one feature vector. Child `Histories` keeps the series of a symbol, `Inputs` builds the factors
-- of the model, `Decide` the signal, `Persist` writes it, `Run` is the loop, `Bounds` and `Warmup` are
-- about the series over a run.

pub mod Histories
pub mod Inputs
pub mod Decide
pub mod Persist
pub mod Run
pub mod Series
pub mod Bounds
pub mod Warmup
pub mod Cadence
pub mod Outcomes
pub mod Messages
use btc_rust_history.Prelude.{
  ℕ, zero, suc, ◌+◌, ◌-◌, ◌*◌, ◌/◌, ◌%◌, ◌^◌, ◌≤◌, ◌<◌, min, max, String, ◌≡◌, refl, sym, ap, ◌∙◌,
  ◌≢◌, ◌↔◌, ◌⊎◌, inl, inr, Bool, true, false, ◌&&◌, ◌||◌, not, Option, none, some, List, [], ◌∷◌,
  ◌++◌, map, foldl, arith, ltb, leb, eqb, if◌then◌else◌, ltb→lt, leb→le, eqb_iff, Bool-cases,
  Option-cases, is_some, get_or, or_else, length, is_empty, drop, take, last?, keep, exists, All,
  length-append, length-drop, length-take, length-keep-le, keep-All, keep_of_All, All-append,
  All-drop, drop_past, drop-append, drop-drop, length-map, Key, ◌==◌, nat_key, string_key, pair_key,
  int_key, ==_refl, cat, Map, lookup, insert, remove, lookup-insert, lookup-insert_self,
  lookup-insert_ne, lookup-remove, ℤ, pos, negsuc, pos_part, neg_part, ◌+ℤ◌, ◌-ℤ◌, ◌*ℤ◌, tdiv,
  to_u32, ◌≤ℤ◌, leb_ℤ, ltb_ℤ, eqb_ℤ, show_ℕ, show_ℤ,
}
use btc_rust_history.Float.{F64, ◌⊕◌, ◌⊖◌, ◌⊗◌, ◌⊘◌, ◌≺◌, ◌≼◌, zero_f, sum_f, IsOrdered}
use Prim.Native.String.{compare as compare_text}
use Prim.Native.Nat.{Ordering}
use btc_rust_history.Signals.Filters.{RegimeFilterConfig, VolatilityFilterConfig}
use btc_rust_history.Signals.Factor.{FactorInput, SignalBuildConfig, SignalResult}

-- The fields of `FeatureState` (proto/md/features.proto) that the service reads.
pub record FeatureState (F : Type 0) : Type 0 where
  pub symbol : String
  pub ts : ℤ
  pub ema_fast : F
  pub ema_slow : F
  pub rsi : F
  pub macd_hist : F
  pub vwap : F
  pub schema_version : ℕ
  pub adx : F
  pub atr : F
  pub regime : ℕ
  pub vol_zscore : F
  pub oi_change_pct : F

-- The fields of `RuntimeConfig` that the loop reads.
pub record RuntimeConfig (F : Type 0) : Type 0 where
  pub model_version : String
  pub signal_threshold : F
  pub history_capacity : ℕ
  pub model_config : SignalBuildConfig F
  pub regime_filter_enabled : Bool
  pub allowed_regimes : List String
  pub vol_filter_enabled : Bool
  pub vol_min_zscore : F
  pub vol_max_zscore : F

-- A `BTreeMap<String, _>`: its entries in the order of the keys.
abbrev pub Tree : Type 0 → Type 0
Tree V = Map String V

unfoldable pub precedes : String → String → Bool
precedes a b = elim (compare_text a b) [ Ordering.lt ↦ true | _ ↦ false ]

unfoldable pub place {κ} : {V : Type κ} → String → V → Map String V → Map String V
unfolding precedes
place key new [] = (key, new) ∷ []
place key new ((at, old) ∷ rest) =
    if at == key
    then (key, new) ∷ rest
    else if precedes key at
    then (key, new) ∷ (at, old) ∷ rest
    else (at, old) ∷ place key new rest

pub lookup-place {κ} :
    {V : Type κ} (asked key : String) (new : V) (entries : Map String V)
    → lookup asked (place key new entries)
      ≡ (if key == asked then some new else lookup asked entries)
unfolding lookup place
lookup-place asked key new [] = refl
lookup-place asked key new ((at, old) ∷ rest) = ground (
  arith,
  lookup-place asked key new rest,
  string_key.same_iff key asked,
  string_key.same_iff at key,
  string_key.same_iff at asked,
)

-- Deques have the oldest value first.
pub record SymbolState (F : Type 0) : Type 0 where
  pub last_vwap : Option F
  pub pending_factors : Option (Tree F)
  pub factor_histories : Tree (List F)
  pub return_history : List F
  pub volatility_history : List F

-- The loop of `push_capped`.
unfoldable pub pop_past {ℓ} : {A : Type ℓ} → ℕ → List A → List A
pop_past max_len [] = []
pop_past max_len (x ∷ xs) = if ltb max_len (length (x ∷ xs)) then pop_past max_len xs else x ∷ xs

unfoldable pub push_capped {ℓ} : {A : Type ℓ} → List A → A → ℕ → List A
unfolding pop_past
push_capped queue value max_len = pop_past max_len (queue ++ value ∷ [])

unfoldable pub regime_label : ℕ → String
regime_label regime =
    if eqb regime 1
    then "TREND_UP"
    else if eqb regime 2
    then "TREND_DOWN"
    else if eqb regime 3
    then "RANGE"
    else if eqb regime 4
    then "VOL_COMPRESSION"
    else if eqb regime 5
    then "VOL_EXPANSION"
    else if eqb regime 6
    then "PANIC"
    else if eqb regime 7
    then "ILLIQUID"
    else if eqb regime 8
    then "HIGH_SPREAD_NO_TRADE"
    else "UNKNOWN"

module _ {F : Type 0} ⦃d : F64 F⦄ where
  open d use {lit, is_finite, abs}

  abbrev pub epsilon : F
  epsilon = lit 1 12

  unfoldable pub new_state : SymbolState F
  new_state = record {
    last_vwap = none;
    pending_factors = none;
    factor_histories = [];
    return_history = [];
    volatility_history = [];
  }

  unfoldable pub current_volatility : FeatureState F → Option F
  current_volatility feature =
      let by_zscore : Option F =
        if is_finite feature.vol_zscore then some (abs feature.vol_zscore) else none in
      let value = abs (feature.atr ⊘ feature.vwap) in
      if is_finite feature.atr && is_finite feature.vwap && (epsilon ≺ abs feature.vwap)
      then (if is_finite value then some value else by_zscore)
      else by_zscore

  -- `if .. { factors.insert(..); }`
  unfoldable pub place_if : Bool → String → F → Tree F → Tree F
  unfolding place
  place_if test name value factors = if test then place name value factors else factors

  unfoldable pub extract_factor_snapshot : FeatureState F → Tree F
  extract_factor_snapshot feature =
      let f1 =
        place_if
          ((epsilon ≺ abs feature.ema_slow)
            && is_finite feature.ema_fast
            && is_finite feature.ema_slow)
          "ema_spread" ((feature.ema_fast ⊖ feature.ema_slow) ⊘ abs feature.ema_slow) [] in
      let f2 = place_if (is_finite feature.macd_hist) "macd_hist" feature.macd_hist f1 in
      let f3 =
        place_if (is_finite feature.rsi) "rsi_centered" ((feature.rsi ⊖ lit 50 0) ⊘ lit 50 0) f2 in
      let f4 =
        place_if (is_finite feature.oi_change_pct) "oi_change_pct" feature.oi_change_pct f3 in
      let f5 =
        place_if (is_finite feature.adx) "adx_centered" ((feature.adx ⊖ lit 25 0) ⊘ lit 25 0) f4 in
      place_if (is_finite feature.vol_zscore) "vol_zscore" feature.vol_zscore f5

  unfoldable pub default_factor_weight : String → F
  default_factor_weight name =
      if name == "ema_spread"
      then lit 12 1
      else if name == "macd_hist"
      then lit 11 1
      else if name == "rsi_centered"
      then lit 10 1
      else if name == "adx_centered"
      then lit 9 1
      else if name == "oi_change_pct"
      then lit 8 1
      else if name == "vol_zscore"
      then lit 7 1
      else lit 10 1
