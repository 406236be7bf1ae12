-- ===== src/Signals/Statistics.antt =====
-- The series and their statistics, of services/strategy_engine/signal_engine/src/zscore_model.rs.
-- `EPSILON` is 1e-12.
use btc_rust_history.Prelude.{
  ℕ, suc, ◌-◌, min, ◌≡◌, refl, ap, inl, inr, true, ◌&&◌, ◌||◌, not, Option, none, some, List, [],
  ◌∷◌, map, arith, ltb, leb, eqb, if◌then◌else◌, Bool-cases, length, is_empty, drop, keep, All,
  length-drop, nat_key, string_key, ℤ, pos, negsuc,
}
use btc_rust_history.Float.{F64, ◌⊕◌, ◌⊖◌, ◌⊗◌, ◌⊘◌, ◌≺◌, ◌≼◌, zero_f, sum_f, IsOrdered}

module _ {F : Type 0} ⦃d : F64 F⦄ where
  open d use {lit, of_nat, nan, is_finite, abs, sqrt, maxf, minf}

  abbrev pub epsilon : F
  epsilon = lit 1 12

  unfoldable pub sanitize_series : List F → List F
  sanitize_series values = keep is_finite values

  unfoldable pub calculate_mean : List F → Option F
  unfolding sanitize_series
  calculate_mean values =
      let clean = sanitize_series values in
      if is_empty clean then none else some (sum_f clean ⊘ of_nat (length clean))

  -- `calculate_mean(&data)?`
  unfoldable pub std_of : List F → Option F → Option F
  std_of clean none = none
  std_of clean (some mean) =
      let squares = map (λ value. (value ⊖ mean) ⊗ (value ⊖ mean)) clean in
      let variance = sum_f squares ⊘ of_nat (length clean) in some (sqrt (maxf variance (lit 0 0)))

  unfoldable pub calculate_std : List F → Option F
  unfolding sanitize_series calculate_mean std_of
  calculate_std values =
      let clean = sanitize_series values in
      if is_empty clean
      then none
      else if eqb (length clean) 1
      then some (lit 0 0)
      else std_of clean (calculate_mean clean)

  unfoldable pub calculate_zscore : F → F → F → F
  calculate_zscore value mean std =
      if not (is_finite value) || not (is_finite mean) || not (is_finite std)
      then zero_f
      else if abs std ≼ epsilon
      then zero_f
      else (value ⊖ mean) ⊘ std

  unfoldable pub tail : List F → ℕ → List F
  tail values n =
      if eqb n 0
      then []
      else if leb (length values) n
      then values
      else drop (length values - n) values

  unfoldable pub clamp : F → F → F → F
  clamp value low high = minf (maxf value low) high

  -- The loop of `sanitize_aligned_pair`, on two series of one length.
  unfoldable pub finite_pairs : List F → List F → List F × List F
  finite_pairs [] bs = ([], [])
  finite_pairs (a ∷ as') [] = ([], [])
  finite_pairs (a ∷ as') (b ∷ bs) =
      let (fa, fb) = finite_pairs as' bs in
      if is_finite a && is_finite b then (a ∷ fa, b ∷ fb) else (fa, fb)

  unfoldable pub sanitize_aligned_pair : List F → List F → List F × List F
  unfolding finite_pairs
  sanitize_aligned_pair a b =
      let len = min (length a) (length b) in
      finite_pairs (drop (length a - len) a) (drop (length b - len) b)

  -- The loop of `pearson_correlation`: covariance and the two variances.
  unfoldable pub moments : F → F → List F → List F → F → F → F → F × F × F
  moments mean_a mean_b [] bs covariance var_a var_b = (covariance, var_a, var_b)
  moments mean_a mean_b (a ∷ as') [] covariance var_a var_b = (covariance, var_a, var_b)
  moments mean_a mean_b (a ∷ as') (b ∷ bs) covariance var_a var_b =
      let da = a ⊖ mean_a in
      let db = b ⊖ mean_b in
      moments mean_a mean_b as' bs (covariance ⊕ da ⊗ db) (var_a ⊕ da ⊗ da) (var_b ⊕ db ⊗ db)

  -- The rest of `pearson_correlation`, from the two means.
  unfoldable pub correlation_of : List F → List F → Option F → Option F → F
  unfolding moments
  correlation_of a b none mean_b = zero_f
  correlation_of a b (some mean_a) none = zero_f
  correlation_of a b (some mean_a) (some mean_b) =
      let (covariance, var_a, var_b) = moments mean_a mean_b a b zero_f zero_f zero_f in
      if var_a ≼ epsilon || var_b ≼ epsilon then zero_f else covariance ⊘ sqrt (var_a ⊗ var_b)

  unfoldable pub pearson_correlation : List F → List F → F
  unfolding calculate_mean correlation_of
  pearson_correlation series_a series_b =
      let len = min (length series_a) (length series_b) in
      let a = drop (length series_a - len) series_a in
      let b = drop (length series_b - len) series_b in
      if ltb len 2 then zero_f else correlation_of a b (calculate_mean a) (calculate_mean b)

  unfoldable pub detect_factor_correlation_sign : List F → List F → ℤ
  unfolding sanitize_aligned_pair pearson_correlation
  detect_factor_correlation_sign factor_series return_series =
      let (factor, returns) = sanitize_aligned_pair factor_series return_series in
      let correlation = pearson_correlation factor returns in
      if abs correlation ≼ epsilon then pos 0 else if zero_f ≺ correlation then pos 1 else negsuc 0

  abbrev pub Finite : F → Type 0
  Finite x = is_finite x ≡ true

  finite_pairs-All :
      (a b : List F)
      → let (fa, fb) = finite_pairs a b in All Finite fa × All Finite fb × (length fa ≡ length fb)
  unfolding finite_pairs
  finite_pairs-All [] bs = (tt, tt, refl)
  finite_pairs-All (a ∷ as') [] = (tt, tt, refl)
  finite_pairs-All (a ∷ as') (b ∷ bs) =
      let (fa, fb, n) = finite_pairs-All as' bs in
      elim (Bool-cases (is_finite a && is_finite b)) [
        | inl both ↦ rw both ((ground arith, fa), (ground arith, fb), ap suc n)
        | inr skip ↦ rw skip (fa, fb, n)
      ]

  -- Whatever two series go in, the two that come out have one length and only finite values.
  pub sanitize_aligned_pair-All :
      (a b : List F)
      → let (fa, fb) = sanitize_aligned_pair a b in
        All Finite fa × All Finite fb × (length fa ≡ length fb)
  unfolding sanitize_aligned_pair
  sanitize_aligned_pair-All a b =
      let len = min (length a) (length b) in
      finite_pairs-All (drop (length a - len) a) (drop (length b - len) b)

  pub length-tail : (values : List F) (n : ℕ) → length (tail values n) ≡ min n (length values)
  unfolding tail
  length-tail values n = elim (Bool-cases (eqb n 0)) [
    | inl z ↦ rw z (ground arith)
    | inr p ↦ rw p (elim (Bool-cases (leb (length values) n)) [
      | inl short ↦ rw short (ground arith)
      | inr long ↦ rw long (ground (arith, length-drop (length values - n) values))
    ])
  ]

  -- With ordered floats a clamped value is between the two bounds, where the value and the bounds
  -- are finite and the bounds in order.
  pub clamp_bounds :
      (laws : IsOrdered d) (value low high : F)
      → Finite value
      → Finite low
      → Finite high
      → (low ≼ high) ≡ true
      → ((low ≼ clamp value low high) ≡ true) × ((clamp value low high ≼ high) ≡ true)
  unfolding clamp
  clamp_bounds laws value low high fv fl fh h =
      let (_, low-max, chosen) = laws.le-max value low fv fl in
      let fm : Finite (maxf value low) = elim chosen [ inl e ↦ rw e fv | inr e ↦ rw e fl ] in
      let (_, below, least) = laws.min-le (maxf value low) high fm fh in
      (elim least [ inl e ↦ rw e low-max | inr e ↦ rw e h ], below)
