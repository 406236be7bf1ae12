-- ===== src/Risk/Guard/Overrides.antt =====
-- Which rows of the database decide the limits.
use btc_rust_history.Prelude.{
  String, ◌≡◌, refl, true, false, ◌&&◌, Option, none, some, List, [], ◌∷◌, foldl, arith,
  if◌then◌else◌, get_or, or_else, ◌==◌, nat_key, string_key, lookup, lookup-insert,
}
use btc_rust_history.Float.{F64, zero_f}
use btc_rust_history.Risk.Guard.{
  Reply, reply, failed, Config, DynamicLimits, LimitRow, notional_limit_of, no_limits, add_row,
  fetch_dynamic_limits,
}

distinct_names :
    (s : String) → (s == "MAX_POSITION_NOTIONAL") ≡ true → (s == "MAX_LEVERAGE") ≡ false
distinct_names s h = rw ((string_key.same_iff s "MAX_POSITION_NOTIONAL").0 h) refl

module _ {F : Type 0} ⦃d : F64 F⦄ where
  -- The value of the last row of that name and symbol.
  pub last_notional : String → List (LimitRow F) → Option F
  last_notional symbol [] = none
  last_notional symbol (row ∷ rows) = or_else (last_notional symbol rows) (
      if row.limit_name == "MAX_POSITION_NOTIONAL" && row.scope_ref == symbol
      then some (get_or row.limit_value zero_f)
      else none)

  pub last_leverage : List (LimitRow F) → Option F
  last_leverage [] = none
  last_leverage (row ∷ rows) =
      or_else (last_leverage rows)
        (if row.limit_name == "MAX_LEVERAGE" then some (get_or row.limit_value zero_f) else none)

  fold_notional :
      (symbol : String) (rows : List (LimitRow F)) (l : DynamicLimits F)
      → lookup symbol (foldl add_row l rows).symbol_notional
        ≡ or_else (last_notional symbol rows) (lookup symbol l.symbol_notional)
  unfolding last_notional add_row
  fold_notional symbol [] l = refl
  fold_notional symbol (row ∷ rows) l = ground (
    arith,
    fold_notional symbol rows (add_row l row),
    lookup-insert symbol row.scope_ref (get_or row.limit_value zero_f) l.symbol_notional,
  )

  fold_leverage :
      (rows : List (LimitRow F)) (l : DynamicLimits F)
      → (foldl add_row l rows).max_leverage ≡ or_else (last_leverage rows) l.max_leverage
  unfolding last_leverage add_row
  fold_leverage [] l = refl
  fold_leverage (row ∷ rows) l =
      ground (arith, fold_leverage rows (add_row l row), distinct_names row.limit_name)

  -- With the rows that the database returns, the notional limit of a symbol is that of the last
  -- `MAX_POSITION_NOTIONAL` row for it, else the configured one of the symbol, else the general
  -- one; the leverage limit is that of the last `MAX_LEVERAGE` row. If the query fails, the
  -- configuration alone counts.
  pub fetch_dynamic_limits-last :
      (cfg : Config F) (symbol : String) (answer : Reply (List (LimitRow F)))
      → let rows : List (LimitRow F) = elim answer [ failed ↦ [] | reply rows ↦ rows ] in
        (notional_limit_of cfg symbol (fetch_dynamic_limits answer)
          ≡ get_or
              (or_else (last_notional symbol rows) (lookup symbol cfg.notional_limits))
              cfg.max_notional_per_order)
        × ((fetch_dynamic_limits answer).max_leverage ≡ last_leverage rows)
  unfolding fetch_dynamic_limits notional_limit_of
  fetch_dynamic_limits-last cfg symbol failed =
      unfold last_notional last_leverage lookup in (refl, refl)
  fetch_dynamic_limits-last cfg symbol (reply rows) =
      let l = fold_notional symbol rows no_limits in
      let m = fold_leverage rows no_limits in unfold lookup in (ground arith, ground arith)
