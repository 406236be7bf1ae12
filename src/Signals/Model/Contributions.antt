-- ===== src/Signals/Model/Contributions.antt =====
-- Which factors the report of the z-score model is about.
use btc_rust_history.Prelude.{
  ℕ, ◌+◌, ◌≤◌, String, ◌≡◌, refl, ◌∙◌, inl, inr, Option, none, some, List, [], ◌∷◌, map, arith, eqb,
  if◌then◌else◌, eqb_iff, Bool-cases, length, keep, All, nat_key, string_key, Map, lookup, insert,
  lookup-insert,
}
use btc_rust_history.Float.{F64}
use btc_rust_history.Signals.Factor.{
  FactorInput, SignalBuildConfig, PreparedFactor, prepare_all, prepare_factor,
}
use btc_rust_history.Signals.Model.{
  build_zscore_signal, rank_rows, insert_row, sort_rows, weigh_all, weigh, row_lookup,
  contribution_of,
}

module _ {F : Type 0} ⦃d : F64 F⦄ where
  -- A row whose factor is the one at its index.
  abbrev Indexed : (ℕ → Option (FactorInput F)) → PreparedFactor F → Type 0
  Indexed at row = at row.factor_index ≡ some row.factor

  abbrev at : ℕ → List (FactorInput F) → ℕ → Option (FactorInput F)
  at i [] j = none
  at i (f ∷ fs) j = if eqb i j then some f else at (i + 1) fs j

  prepare_factor_fields :
      (i : ℕ) (f : FactorInput F) (cfg : SignalBuildConfig F)
      → ((prepare_factor i f cfg).factor_index ≡ i) × ((prepare_factor i f cfg).factor ≡ f)
  unfolding prepare_factor
  prepare_factor_fields i f cfg = (ground arith, ground arith)

  abbrev Agrees : ℕ → List (FactorInput F) → (ℕ → Option (FactorInput F)) → Type 0
  Agrees i fs table = (j : ℕ) → i ≤ j → at i fs j ≡ table j

  prepare_all-Indexed :
      (i : ℕ) (fs : List (FactorInput F)) (cfg : SignalBuildConfig F)
      (table : ℕ → Option (FactorInput F))
      → Agrees i fs table
      → All (Indexed table) (prepare_all i fs cfg)
  unfolding prepare_all
  prepare_all-Indexed i [] cfg table h = tt
  prepare_all-Indexed i (f ∷ fs) cfg table h =
      let (e, e') = prepare_factor_fields i f cfg in
      let here : table i ≡ some f = ground (arith, h i (omega arith)) in
      (
        rw (e, e') here,
        prepare_all-Indexed (i + 1) fs cfg table (λ j l. ground (arith, h j (omega arith))),
      )

  map_name-prepare_all :
      (i : ℕ) (fs : List (FactorInput F)) (cfg : SignalBuildConfig F)
      → map (λ r. r.factor.name) (prepare_all i fs cfg) ≡ map (λ f. f.name) fs
  unfolding prepare_all
  map_name-prepare_all i [] cfg = refl
  map_name-prepare_all i (f ∷ fs) cfg =
      let (_, e) = prepare_factor_fields i f cfg in rw (e, map_name-prepare_all (i + 1) fs cfg) refl

  module _ (P : PreparedFactor F → Type 0) where
    insert_row-All :
        (x : PreparedFactor F) (ys : List (PreparedFactor F))
        → P x
        → All P ys
        → All P (insert_row x ys)
    unfolding insert_row
    insert_row-All x [] p q = (p, tt)
    insert_row-All x (y ∷ ys) p (q, qs) = let rest = insert_row-All x ys p qs in ground arith

    sort_rows-All : (xs : List (PreparedFactor F)) → All P xs → All P (sort_rows xs)
    unfolding sort_rows
    sort_rows-All [] p = tt
    sort_rows-All (x ∷ xs) (p, ps) = insert_row-All x (sort_rows xs) p (sort_rows-All xs ps)

  weigh_all-Indexed :
      (cfg : SignalBuildConfig F) (i : ℕ) (rows : List (PreparedFactor F))
      (table : ℕ → Option (FactorInput F))
      → All (Indexed table) rows
      → All (Indexed table) (weigh_all cfg i rows)
  unfolding weigh_all weigh
  weigh_all-Indexed cfg i [] table p = tt
  weigh_all-Indexed cfg i (row ∷ rows) table (p, ps) =
      (p, weigh_all-Indexed cfg (i + 1) rows table ps)

  keep-Indexed :
      (rows : List (PreparedFactor F)) (table : ℕ → Option (FactorInput F))
      → All (Indexed table) rows
      → All (Indexed table) (keep (λ r. r.passed) rows)
  keep-Indexed [] table p = tt
  keep-Indexed (row ∷ rows) table (p, ps) =
      let rest = keep-Indexed rows table ps in
      elim (Bool-cases row.passed) [ inl e ↦ rw e (p, rest) | inr e ↦ rw e rest ]

  -- What a row map finds at an index is a row of that index's factor.
  abbrev Tabled : (ℕ → Option (FactorInput F)) → Map ℕ (ℕ × PreparedFactor F) → Type 0
  Tabled table m =
      (j rank : ℕ) (r : PreparedFactor F) → lookup j m ≡ some (rank, r) → table j ≡ some r.factor

  row_lookup-Tabled :
      (i : ℕ) (rows : List (PreparedFactor F)) (m : Map ℕ (ℕ × PreparedFactor F))
      (table : ℕ → Option (FactorInput F))
      → All (Indexed table) rows
      → Tabled table m
      → Tabled table (row_lookup i rows m)
  unfolding row_lookup
  row_lookup-Tabled i [] m table p t = t
  row_lookup-Tabled i (row ∷ rows) m table (p, ps) t =
      row_lookup-Tabled (i + 1) rows (insert row.factor_index (i + 1, row) m) table ps
        (λ j rank r found. ground (
          arith,
          lookup-insert j row.factor_index (i + 1, row) m,
          t j rank r,
          eqb_iff j row.factor_index,
        ))

  name-contribution_of :
      (denominator : F) (row : PreparedFactor F) (found : Option (ℕ × PreparedFactor F))
      (table : ℕ → Option (FactorInput F))
      → Indexed table row
      → ((rank : ℕ) (r : PreparedFactor F)
          → found ≡ some (rank, r)
          → table row.factor_index ≡ some r.factor)
      → (contribution_of denominator row found).name ≡ row.factor.name
  unfolding contribution_of
  name-contribution_of denominator row none table p t = refl
  name-contribution_of denominator row (some (rank, r)) table p t =
      let e = t rank r refl in grind (arith, p, e)

  map_name-contributions :
      (denominator : F) (rows : List (PreparedFactor F)) (m : Map ℕ (ℕ × PreparedFactor F))
      (table : ℕ → Option (FactorInput F))
      → All (Indexed table) rows
      → Tabled table m
      → map
          (λ c. c.name)
          (map (λ row. contribution_of denominator row (lookup row.factor_index m)) rows)
        ≡ map (λ r. r.factor.name) rows
  map_name-contributions denominator [] m table p t = refl
  map_name-contributions denominator (row ∷ rows) m table (p, ps) t =
      rw
        (
          name-contribution_of denominator row (lookup row.factor_index m) table p
              (t row.factor_index),
          map_name-contributions denominator rows m table ps t,
        )
        refl

  -- The report has one contribution for each factor, of the same name and in the order of the
  -- input, whatever the filters, the sort and the weights do; and the total counts the factors.
  pub build_zscore_signal_names :
      (trim : String → String) (fs : List (FactorInput F)) (cfg : SignalBuildConfig F)
      → let r = build_zscore_signal trim fs cfg in
        (map (λ c. c.name) r.contributions ≡ map (λ f. f.name) fs) × (r.total_factors ≡ length fs)
  unfolding build_zscore_signal rank_rows
  build_zscore_signal_names trim [] cfg = (refl, refl)
  build_zscore_signal_names trim (f ∷ fs) cfg =
      let table = at 0 (f ∷ fs) in
      let rows = prepare_all 0 (f ∷ fs) cfg in
      let indexed = prepare_all-Indexed 0 (f ∷ fs) cfg table (λ j l. refl) in
      let ranked = weigh_all-Indexed cfg 0 (sort_rows (keep (λ r. r.passed) rows)) table (
        sort_rows-All (Indexed table) (keep (λ r. r.passed) rows)
          (keep-Indexed rows table indexed)) in
      let tabled =
        row_lookup-Tabled 0 (rank_rows cfg rows) [] table ranked
          (unfold lookup in λ j rank r e. ground arith) in
      (
        map_name-contributions _ rows _ table indexed tabled ∙ map_name-prepare_all 0 (f ∷ fs) cfg,
        refl,
      )
