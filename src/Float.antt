-- ===== src/Float.antt =====
-- The `f64` of Rust: a type with the operations that the code uses, taken as a parameter. Arithmetic
-- rounds, so nothing is assumed of it; a theorem names the laws of the order and of `is_finite` that
-- it needs (`IsOrdered`, which IEEE 754 guarantees). Child `Model` is a concrete instance.
pub mod Model
use btc_rust_history.Prelude.{ℕ, String, ◌≡◌, ◌⊎◌, Bool, true, List, foldl}

pub record F64 (F : Type 0) : Type 0 where
  -- `lit m e` is the double nearest to m / 10^e.
  pub lit : ℕ → ℕ → F
  -- `n as f64`
  pub of_nat : ℕ → F
  pub nan : F
  pub infinity : F
  pub add : F → F → F
  pub sub : F → F → F
  pub mul : F → F → F
  pub div : F → F → F
  pub maxf : F → F → F
  pub minf : F → F → F
  pub powf : F → F → F
  pub neg : F → F
  pub abs : F → F
  pub sqrt : F → F
  pub lt : F → F → Bool
  pub le : F → F → Bool
  pub eq : F → F → Bool
  pub is_finite : F → Bool
  -- `{}` and `{:.n}` of `format!`
  pub show : F → String
  pub show_fixed : ℕ → F → String

infixl 65 ◌⊕◌ ◌⊖◌
infixl 70 ◌⊗◌ ◌⊘◌
infix 50 ◌≺◌ ◌≼◌
module _ {F : Type 0} ⦃d : F64 F⦄ where
  abbrev pub ◌⊕◌ : F → F → F
  ◌⊕◌ = d.add

  abbrev pub ◌⊖◌ : F → F → F
  ◌⊖◌ = d.sub

  abbrev pub ◌⊗◌ : F → F → F
  ◌⊗◌ = d.mul

  abbrev pub ◌⊘◌ : F → F → F
  ◌⊘◌ = d.div

  abbrev pub ◌≺◌ : F → F → Bool
  ◌≺◌ = d.lt

  abbrev pub ◌≼◌ : F → F → Bool
  ◌≼◌ = d.le

  abbrev pub zero_f : F
  zero_f = d.lit 0 0

  -- `iter().sum()`, up to the sign of the zero of an empty sum.
  abbrev pub sum_f : List F → F
  sum_f = foldl d.add (d.lit 0 0)

-- What IEEE 754 says of comparisons, `min`, `max` and `abs` on numbers that are finite.
pub record IsOrdered {F : Type 0} (d : F64 F) : Type 0 where
  pub le_trans : (x y z : F) → d.le x y ≡ true → d.le y z ≡ true → d.le x z ≡ true
  pub le_total :
      (x y : F)
      → d.is_finite x ≡ true
      → d.is_finite y ≡ true
      → (d.le x y ≡ true) ⊎ (d.le y x ≡ true)
  pub le-max :
      (x y : F)
      → d.is_finite x ≡ true
      → d.is_finite y ≡ true
      → (d.le x (d.maxf x y) ≡ true)
        × (d.le y (d.maxf x y) ≡ true)
        × ((d.maxf x y ≡ x) ⊎ (d.maxf x y ≡ y))
  pub min-le :
      (x y : F)
      → d.is_finite x ≡ true
      → d.is_finite y ≡ true
      → (d.le (d.minf x y) x ≡ true)
        × (d.le (d.minf x y) y ≡ true)
        × ((d.minf x y ≡ x) ⊎ (d.minf x y ≡ y))
