-- ===== src/Prelude/Maps.antt =====
-- Finite maps as association lists (HashMap, BTreeMap and DashMap, up to the order of iteration).
use mathlib.Core.Path.{◌≡◌, refl}
use mathlib.Core.Logic.{◌≢◌}
use mathlib.Core.List.{List, [], ◌∷◌}
use mathlib.Core.Option.{Option, none, some}
use native.Mathlib.Omega.{arith}
use btc_rust_history.Prelude.Tests.{if◌then◌else◌}
use btc_rust_history.Prelude.Keys.{Key, ◌==◌, ==_refl}

abbrev pub Map {ℓ κ} : Type ℓ → Type κ → Type (ℓ ⊔ κ)
Map K V = List (K × V)

module _ {ℓ κ} {K : Type ℓ} {V : Type κ} ⦃e : Key K⦄ where
  unfoldable pub remove : K → Map K V → Map K V
  remove key [] = []
  remove key ((at, old) ∷ rest) = if at == key then remove key rest else (at, old) ∷ remove key rest

  unfoldable pub lookup : K → Map K V → Option V
  lookup key [] = none
  lookup key ((at, found) ∷ rest) = if at == key then some found else lookup key rest

  unfoldable pub insert : K → V → Map K V → Map K V
  insert key new [] = (key, new) ∷ []
  insert key new ((at, old) ∷ rest) =
      if at == key then (key, new) ∷ rest else (at, old) ∷ insert key new rest

  pub lookup-remove :
      (asked gone : K) (entries : Map K V)
      → lookup asked (remove gone entries) ≡ (if gone == asked then none else lookup asked entries)
  unfolding lookup remove
  lookup-remove asked gone [] = ground arith
  lookup-remove asked gone ((at, old) ∷ rest) = ground (
    arith,
    lookup-remove asked gone rest,
    e.same_iff gone asked,
    e.same_iff at gone,
    e.same_iff at asked,
  )

  pub lookup-insert :
      (asked key : K) (new : V) (entries : Map K V)
      → lookup asked (insert key new entries)
        ≡ (if key == asked then some new else lookup asked entries)
  unfolding lookup insert
  lookup-insert asked key new [] = refl
  lookup-insert asked key new ((at, old) ∷ rest) = ground (
    arith,
    lookup-insert asked key new rest,
    e.same_iff key asked,
    e.same_iff at key,
    e.same_iff at asked,
  )

  pub lookup-insert_ne :
      (asked key : K) (new : V) (entries : Map K V)
      → key ≢ asked
      → lookup asked (insert key new entries) ≡ lookup asked entries
  lookup-insert_ne asked key new entries ne =
      ground (arith, lookup-insert asked key new entries, e.same_iff key asked)

  pub lookup-insert_self :
      (key : K) (new : V) (entries : Map K V) → lookup key (insert key new entries) ≡ some new
  lookup-insert_self key new entries = rw (lookup-insert key key new entries, ==_refl key)
