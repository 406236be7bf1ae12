-- ===== src/Signals/Service/Bounds.antt =====
-- The series of every symbol over a run of services/strategy_engine/signal_engine/src/main.rs.
use btc_rust_history.Prelude.{
  ℕ, ◌+◌, ◌≤◌, min, String, ◌≡◌, refl, inl, inr, true, false, ◌&&◌, Option, none, some, List, [],
  ◌∷◌, arith, if◌then◌else◌, Bool-cases, length, ◌==◌, nat_key, string_key, pair_key, int_key,
  lookup, lookup-insert, ℤ,
}
use btc_rust_history.Float.{F64, ◌⊖◌, ◌⊘◌, ◌≺◌}
use btc_rust_history.Signals.Factor.{FactorInput}
use btc_rust_history.Signals.Service.{
  FeatureState, RuntimeConfig, SymbolState, Tree, push_capped, epsilon, new_state,
  current_volatility,
}
use btc_rust_history.Signals.Service.Histories.{
  accepts, push_volatility, push_factors, realize, observe,
}
use btc_rust_history.Signals.Service.Series.{
  length-push_capped, IsDistinct, extract-IsDistinct, history_of, after, history-push_factors,
}
use btc_rust_history.Signals.Service.Run.{
  Event, Received, receive_error, no_payload, undecodable, decoded, Service, state_of, on_inputs,
  on_feature, on_received, run,
}

module _ {F : Type 0} ⦃d : F64 F⦄ where
  abbrev pub Pending : Option (Tree F) → Type 0
  Pending none = Unit
  Pending (some factors) = IsDistinct factors

  -- At most `limit` values in each series, and no factor has more values than there are returns.
  pub record IsBounded (limit : ℕ) (s : SymbolState F) : Type 0 where
    pub returns : length s.return_history ≤ limit
    pub volatility : length s.volatility_history ≤ limit
    pub factors :
        (name : String) → length (history_of name s.factor_histories) ≤ length s.return_history
    pub pending : Pending s.pending_factors

  new_state-IsBounded : (limit : ℕ) → IsBounded limit new_state
  unfolding new_state lookup
  new_state-IsBounded limit = record {
    returns = omega arith;
    volatility = omega arith;
    factors = λ name. omega arith;
    pending = tt;
  }

  length-after :
      (o : Option F) (limit n : ℕ) (history : List F)
      → length history ≤ n
      → n ≤ limit
      → length (after o limit history) ≤ min (n + 1) limit
  unfolding after
  length-after none limit n history h k = omega arith
  length-after (some v) limit n history h k = omega (arith, length-push_capped history v limit)

  push_volatility-IsBounded :
      (limit : ℕ) (o : Option F) (s : SymbolState F)
      → IsBounded limit s
      → IsBounded limit (push_volatility limit o s)
  unfolding push_volatility
  push_volatility-IsBounded limit none s h = h
  push_volatility-IsBounded limit (some vol) s h = record {
    returns = h.returns;
    volatility = omega (arith, length-push_capped s.volatility_history vol limit);
    factors = h.factors;
    pending = h.pending;
  }

  push-IsBounded :
      (limit : ℕ) (r : F) (factors : Tree F) (s : SymbolState F)
      → IsDistinct factors
      → IsBounded limit s
      → IsBounded limit (record s {
        return_history = push_capped s.return_history r limit;
        factor_histories = push_factors limit factors s.factor_histories;
      })
  push-IsBounded limit r factors s distinct h = record {
    returns = omega (arith, length-push_capped s.return_history r limit);
    volatility = h.volatility;
    factors = λ name.
        rw
          (
            history-push_factors limit name factors s.factor_histories distinct,
            length-push_capped s.return_history r limit,
          )
          (length-after (lookup name factors) limit (length s.return_history)
            (history_of name s.factor_histories) (h.factors name) h.returns);
    pending = h.pending;
  }

  realize-IsBounded :
      (limit : ℕ) (vwap : F) (last : Option F) (factors : Option (Tree F)) (s : SymbolState F)
      → Pending factors
      → IsBounded limit s
      → IsBounded limit (realize limit vwap last factors s)
  unfolding realize
  realize-IsBounded limit vwap none factors s p h = h
  realize-IsBounded limit vwap (some prev) none s p h = h
  realize-IsBounded limit vwap (some prev) (some factors) s p h =
      let r = (vwap ⊖ prev) ⊘ prev in
      elim (Bool-cases ((epsilon ≺ d.abs prev) && d.is_finite r)) [
        | inl pushes ↦ rw pushes (push-IsBounded limit r factors s p h)
        | inr keeps ↦ rw keeps h
      ]

  observe-IsBounded :
      (limit : ℕ) (feature : FeatureState F) (s : SymbolState F)
      → IsBounded limit s
      → IsBounded limit (observe limit feature s)
  unfolding observe
  observe-IsBounded limit feature s h =
      let watched = push_volatility limit (current_volatility feature) s in
      let kept =
        realize-IsBounded limit feature.vwap s.last_vwap s.pending_factors watched h.pending
          (push_volatility-IsBounded limit (current_volatility feature) s h) in
      record {
        returns = kept.returns;
        volatility = kept.volatility;
        factors = kept.factors;
        pending = extract-IsDistinct feature;
      }

module _ {F : Type 0} ⦃d : F64 F⦄ (trim : String → String) (from_timestamp_millis : ℤ → Option ℤ)
    (cfg : RuntimeConfig F) where
  -- The model and what follows it leave the series as they are.
  pub on_inputs-states :
      (event : Event F) (feature : FeatureState F) (s : SymbolState F)
      (inputs : List (FactorInput F)) (service : Service F)
      → (on_inputs trim from_timestamp_millis cfg event feature s inputs service).states
        ≡ service.states
  unfolding on_inputs
  on_inputs-states event feature s [] service = refl
  on_inputs-states event feature s (input ∷ inputs) service = refl

  -- What a feature vector does to the state of a symbol.
  pub state_of-on_feature :
      (symbol : String) (event : Event F) (feature : FeatureState F) (service : Service F)
      → state_of symbol (on_feature trim from_timestamp_millis cfg event feature service).states ≡ (
          if accepts feature && feature.symbol == symbol
          then observe cfg.history_capacity feature (state_of symbol service.states)
          else state_of symbol service.states)
  unfolding on_feature state_of
  state_of-on_feature symbol event feature service = elim (Bool-cases (accepts feature)) [
    | inl accepted ↦ elim (Bool-cases (feature.symbol == symbol)) [
      | inl same ↦
          rw
            (
              accepted,
              on_inputs-states,
              lookup-insert,
              same,
              ← (string_key.same_iff feature.symbol symbol).0 same,
            )
            refl
      | inr other ↦ rw (accepted, on_inputs-states, lookup-insert, other) refl
    ]
    | inr skipped ↦ rw skipped refl
  ]

  -- Every state that the loop keeps.
  AllBounded : Service F → Type 0
  AllBounded service =
      (symbol : String) → IsBounded cfg.history_capacity (state_of symbol service.states)

  on_feature-AllBounded :
      (event : Event F) (feature : FeatureState F) (service : Service F)
      → AllBounded service
      → AllBounded (on_feature trim from_timestamp_millis cfg event feature service)
  unfolding AllBounded
  on_feature-AllBounded event feature service h symbol =
      rw (state_of-on_feature symbol event feature service)
        (elim (accepts feature && feature.symbol == symbol)
          as (λ b. IsBounded cfg.history_capacity (
            if b
            then observe cfg.history_capacity feature (state_of symbol service.states)
            else state_of symbol service.states)) [
              | true ↦ observe-IsBounded cfg.history_capacity feature _ (h symbol)
              | false ↦ h symbol
            ])

  on_received-AllBounded :
      (event : Event F) (r : Received F) (service : Service F)
      → AllBounded service
      → AllBounded (on_received trim from_timestamp_millis cfg event r service)
  unfolding on_received
  on_received-AllBounded event receive_error service h = h
  on_received-AllBounded event no_payload service h = h
  on_received-AllBounded event undecodable service h = h
  on_received-AllBounded event (decoded feature) service h =
      on_feature-AllBounded event feature service h

  run-AllBounded :
      (events : List (Event F)) (service : Service F)
      → AllBounded service
      → AllBounded (run trim from_timestamp_millis cfg events service)
  unfolding run
  run-AllBounded [] service h = h
  run-AllBounded (event ∷ events) service h =
      run-AllBounded events
        (on_received trim from_timestamp_millis cfg event event.received service)
        (on_received-AllBounded event event.received service h)

  -- From a service without states, over any events, for every symbol: the series of returns and of
  -- volatilities have at most `history_capacity` values, and no factor has more values than there are
  -- returns.
  pub run-IsBounded :
      (events : List (Event F)) (service : Service F) (symbol : String)
      → service.states ≡ []
      → IsBounded cfg.history_capacity
          (state_of symbol (run trim from_timestamp_millis cfg events service).states)
  unfolding state_of AllBounded lookup
  run-IsBounded events service symbol e =
      run-AllBounded events service (λ s. rw e (new_state-IsBounded cfg.history_capacity)) symbol
