-- ===== src/Prelude/Keys.antt =====
-- Key types: a Boolean test that decides `≡`, for Rust's `Eq` and `Hash` keys.
use Prim.Native.Nat.{ℕ}
use Prim.Native.String.{String, ◌++◌ as append}
use mathlib.Core.Path.{◌≡◌, refl}
use mathlib.Core.Logic.{◌↔◌}
use mathlib.Core.Bool.{Bool, true, ◌&&◌}
use native.Mathlib.Omega.{arith}
use btc_rust_history.Prelude.Int.{ℤ, eqb_ℤ}
use text.Mathlib.TextEquality.{eq_iff}
use text.Mathlib.Text.{◌==◌ as same_text}
use btc_rust_history.Prelude.Tests.{eqb, eqb_iff}

-- Concatenation of texts, for `format!`.
abbrev pub cat : String → String → String
cat = append

pub record Key {ℓ} (K : Type ℓ) : Type ℓ where
  pub same : K → K → Bool
  pub same_iff : (x y : K) → (same x y ≡ true) ↔ (x ≡ y)

instance abbrev pub string_key : Key String
string_key = record { same_iff = eq_iff; same = same_text }

instance abbrev pub nat_key : Key ℕ
nat_key = record { same_iff = eqb_iff; same = eqb }

infix 50 ◌==◌
abbrev pub ◌==◌ {ℓ} : {K : Type ℓ} ⦃key : Key K⦄ → K → K → Bool
◌==◌ ⦃key⦄ x y = key.same x y

pub ==_refl {ℓ} : {K : Type ℓ} ⦃key : Key K⦄ (x : K) → (x == x) ≡ true
==_refl ⦃key⦄ x = (key.same_iff x x).1 refl

pub same_pair {ℓ κ} :
    {A : Type ℓ} {B : Type κ} (a : Key A) (b : Key B) (x y : A × B)
    → ((a.same x.0 y.0 && b.same x.1 y.1) ≡ true) ↔ (x ≡ y)
same_pair a b x y = ground (arith, a.same_iff x.0 y.0, b.same_iff x.1 y.1)

-- A key of two columns.
instance abbrev pub pair_key {ℓ κ} : {A : Type ℓ} {B : Type κ} ⦃a : Key A⦄ ⦃b : Key B⦄ → Key (A × B)
pair_key ⦃a⦄ ⦃b⦄ = record {
  same_iff = same_pair a b;
  same = λ x y. a.same x.0 y.0 && b.same x.1 y.1;
}

pub eqb_ℤ_iff : (x y : ℤ) → (eqb_ℤ x y ≡ true) ↔ (x ≡ y)
eqb_ℤ_iff x y = ground arith

instance abbrev pub int_key : Key ℤ
int_key = record { same_iff = eqb_ℤ_iff; same = eqb_ℤ }
