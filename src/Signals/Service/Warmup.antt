-- ===== src/Signals/Service/Warmup.antt =====
-- When the loop of services/strategy_engine/signal_engine/src/main.rs sends its messages: a symbol whose
-- feature vectors all have one factor and a finite return.
use btc_rust_history.Prelude.{
  ℕ, ◌+◌, ◌≤◌, min, String, ◌≡◌, refl, inl, inr, true, false, Option, none, some, List, [], ◌∷◌,
  arith, ltb, Bool-cases, is_some, length, is_empty, ◌==◌, nat_key, string_key, pair_key, int_key,
  lookup,
}
use btc_rust_history.Float.{F64, ◌⊖◌, ◌⊘◌, ◌≺◌}
use btc_rust_history.Signals.Factor.{FactorInput, SignalBuildConfig}
use btc_rust_history.Signals.Service.{
  FeatureState, SymbolState, Tree, new_state, epsilon, current_volatility, extract_factor_snapshot,
}
use btc_rust_history.Signals.Service.Histories.{accepts, push_volatility, realize, observe}
use btc_rust_history.Signals.Service.Inputs.{input_of, inputs_of, build_factor_inputs}
use btc_rust_history.Signals.Service.Series.{
  length-push_capped, extract-IsDistinct, history_of, after, history-push_factors,
  push_volatility_keeps,
}

module _ {F : Type 0} ⦃d : F64 F⦄ (name : String) where
  -- A feature vector that the loop accepts, with a value of the factor.
  pub record IsComplete (f : FeatureState F) : Type 0 where
    pub accepted : accepts f ≡ true
    pub has_factor : is_some (lookup name (extract_factor_snapshot f)) ≡ true

  -- The return from one vector to the next is realized.
  pub record Follows (prev f : FeatureState F) : Type 0 where
    pub same_symbol : f.symbol ≡ prev.symbol
    pub complete : IsComplete f
    pub base : (epsilon ≺ d.abs prev.vwap) ≡ true
    pub finite : d.is_finite ((f.vwap ⊖ prev.vwap) ⊘ prev.vwap) ≡ true

  -- After `n` returns, the last vector being `prev`.
  pub record IsWarm (limit n : ℕ) (prev : FeatureState F) (s : SymbolState F) : Type 0 where
    returns : length s.return_history ≡ min n limit
    history : length (history_of name s.factor_histories) ≡ min n limit
    last : s.last_vwap ≡ some prev.vwap
    pending : s.pending_factors ≡ some (extract_factor_snapshot prev)

  length-after :
      (limit n : ℕ) (o : Option F) (history : List F)
      → is_some o ≡ true
      → length history ≡ min n limit
      → length (after o limit history) ≡ min (n + 1) limit
  unfolding after
  length-after limit n none history h e = absurd (cc)
  length-after limit n (some v) history h e = omega (arith, length-push_capped history v limit)

  realized-IsWarm :
      (limit n : ℕ) (prev f : FeatureState F) (s : SymbolState F) (last : Option F)
      (pending : Option (Tree F))
      → last ≡ some prev.vwap
      → pending ≡ some (extract_factor_snapshot prev)
      → length s.return_history ≡ min n limit
      → length (history_of name s.factor_histories) ≡ min n limit
      → IsComplete prev
      → Follows prev f
      → IsWarm limit (n + 1) f (record (realize limit f.vwap last pending s) {
        last_vwap = some f.vwap;
        pending_factors = some (extract_factor_snapshot f);
      })
  unfolding realize
  realized-IsWarm limit n prev f s last pending el ep er eh c follows =
      rw (el, ep, follows.base, follows.finite)
        (record {
          returns =
              omega (
                arith,
                length-push_capped s.return_history ((f.vwap ⊖ prev.vwap) ⊘ prev.vwap) limit,
              );
          history =
              rw
                (history-push_factors limit name (extract_factor_snapshot prev) s.factor_histories
                  (extract-IsDistinct prev))
                (length-after limit n (lookup name (extract_factor_snapshot prev))
                  (history_of name s.factor_histories) c.has_factor eh);
          last = refl;
          pending = refl;
        })

  pub observe-IsWarm :
      (limit n : ℕ) (prev f : FeatureState F) (s : SymbolState F)
      → IsComplete prev
      → Follows prev f
      → IsWarm limit n prev s
      → IsWarm limit (n + 1) f (observe limit f s)
  unfolding observe
  observe-IsWarm limit n prev f s c follows w =
      let kept = push_volatility_keeps limit (current_volatility f) s in
      realized-IsWarm limit n prev f (push_volatility limit (current_volatility f) s) s.last_vwap
        s.pending_factors w.last w.pending (rw kept.0 w.returns) (rw kept.1 w.history) c follows

  pub first-IsWarm : (limit : ℕ) (f : FeatureState F) → IsWarm limit 0 f (observe limit f new_state)
  unfolding observe new_state realize lookup
  first-IsWarm limit f =
      let kept = push_volatility_keeps limit (current_volatility f) new_state in
      record {
        returns = rw kept.0 (omega arith);
        history = rw kept.1 (omega arith);
        last = refl;
        pending = refl;
      }

  input_of-ne-nil :
      (cfg : SignalBuildConfig F) (returns : List F) (at : String) (history : List F) (o : Option F)
      (rest : List (FactorInput F))
      → is_some o ≡ true
      → cfg.min_history ≤ length history
      → is_empty (input_of cfg returns at history o rest) ≡ false
  unfolding input_of
  input_of-ne-nil cfg returns at history none rest h k = absurd (cc)
  input_of-ne-nil cfg returns at history (some v) rest h k = ground arith

  input_of-keeps :
      (cfg : SignalBuildConfig F) (returns : List F) (at : String) (history : List F) (o : Option F)
      (rest : List (FactorInput F))
      → is_empty rest ≡ false
      → is_empty (input_of cfg returns at history o rest) ≡ false
  unfolding input_of
  input_of-keeps cfg returns at history none rest h = h
  input_of-keeps cfg returns at history (some v) rest h = ground arith

  -- A factor that has enough values, and a current one, is an input.
  inputs_of-ne-nil :
      (cfg : SignalBuildConfig F) (returns : List F) (histories : Tree (List F)) (current : Tree F)
      → 1 ≤ cfg.min_history
      → is_some (lookup name current) ≡ true
      → cfg.min_history ≤ length (history_of name histories)
      → is_empty (inputs_of cfg returns histories current) ≡ false
  unfolding inputs_of lookup
  inputs_of-ne-nil cfg returns [] current one h k = absurd (omega arith)
  inputs_of-ne-nil cfg returns ((at, history) ∷ histories) current one h k =
      elim (Bool-cases (at == name)) [
        | inl same ↦
            input_of-ne-nil cfg returns at history (lookup at current) _
              (rw ((string_key.same_iff at name).0 same) h) (rw same at k)
        | inr other ↦
            input_of-keeps cfg returns at history (lookup at current) _
              (inputs_of-ne-nil cfg returns histories current one h (rw other at k))
      ]

  -- Whether the model is called, after `n` returns.
  pub is_empty-build_factor_inputs :
      (limit n : ℕ) (f : FeatureState F) (s : SymbolState F) (cfg : SignalBuildConfig F)
      → IsComplete f
      → IsWarm limit n f s
      → 1 ≤ cfg.min_history
      → cfg.min_history ≤ limit
      → is_empty (build_factor_inputs s (extract_factor_snapshot f) cfg) ≡ ltb n cfg.min_history
  unfolding build_factor_inputs
  is_empty-build_factor_inputs limit n f s cfg c w one fits =
      elim (Bool-cases (ltb n cfg.min_history)) [
        | inl short ↦
            let e : ltb (length s.return_history) cfg.min_history ≡ true =
              ground (arith, w.returns) in
            rw (e, short) refl
        | inr long ↦
            let e : ltb (length s.return_history) cfg.min_history ≡ false =
              ground (arith, w.returns) in
            rw (e, long)
              (inputs_of-ne-nil cfg s.return_history s.factor_histories (extract_factor_snapshot f)
                one c.has_factor (ground (arith, w.history)))
      ]
