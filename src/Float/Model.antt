-- ===== src/Float/Model.antt =====
-- A concrete `F64` for examples: numbers with three decimals that round towards zero, NaN and the two
-- infinities. It stands for no code.
use btc_rust_history.Prelude.{
  ℕ, zero, suc, ◌+◌, ◌*◌, ◌/◌, ◌^◌, String, ◌≡◌, ◌⊎◌, Bool, true, false, ◌&&◌, not, arith, leb,
  if◌then◌else◌, nat_key, string_key, cat, ℤ, pos, negsuc, ◌+ℤ◌, ◌-ℤ◌, ◌*ℤ◌, tdiv, leb_ℤ, show_ℤ,
}
use btc_rust_history.Float.{F64, IsOrdered}

pub data Fixed : Type 0 where
  num : ℤ → Fixed
  not_a_number : Fixed
  plus_infinity : Fixed
  minus_infinity : Fixed

abbrev negate_ℤ : ℤ → ℤ
negate_ℤ n = pos 0 -ℤ n

-- Division by an integer that is not zero.
abbrev quotient : ℤ → ℤ → ℤ
quotient n (pos m) = tdiv n m
quotient n (negsuc m) = tdiv (negate_ℤ n) (m + 1)

abbrev lift : (ℤ → ℤ → ℤ) → Fixed → Fixed → Fixed
lift f (num a) (num b) = num (f a b)
lift f (num a) b = b
lift f a b = a

abbrev divide : Fixed → Fixed → Fixed
divide (num a) (num (pos zero)) = not_a_number
divide (num a) (num b) = num (quotient (a *ℤ pos 1000) b)
divide (num a) b = not_a_number
divide a b = a

abbrev negate : Fixed → Fixed
negate (num a) = num (negate_ℤ a)
negate not_a_number = not_a_number
negate plus_infinity = minus_infinity
negate minus_infinity = plus_infinity

abbrev pub le_fixed : Fixed → Fixed → Bool
le_fixed not_a_number b = false
le_fixed a not_a_number = false
le_fixed minus_infinity b = true
le_fixed a plus_infinity = true
le_fixed (num a) (num b) = leb_ℤ a b
le_fixed a b = false

abbrev lt_fixed : Fixed → Fixed → Bool
lt_fixed a b = le_fixed a b && not (le_fixed b a)

abbrev max_fixed : Fixed → Fixed → Fixed
max_fixed a b = if le_fixed a b then b else a

abbrev min_fixed : Fixed → Fixed → Fixed
min_fixed a b = if le_fixed a b then a else b

abbrev abs_fixed : Fixed → Fixed
abs_fixed a = if le_fixed (num (pos 0)) a then a else negate a

abbrev finite : Fixed → Bool
finite (num a) = true
finite a = false

-- The largest number at most `k` whose square is at most `n`.
unfoldable pub root : ℕ → ℕ → ℕ
root zero n = 0
root (suc k) n = let below = root k n in if leb (suc k * suc k) n then suc k else below

abbrev square_root : Fixed → Fixed
square_root (num (pos n)) = num (pos (root 3000 (n * 1000)))
square_root a = a

abbrev times : Fixed → Fixed → Fixed
times = lift (λ a b. tdiv (a *ℤ b) 1000)

unfoldable pub power : Fixed → ℕ → Fixed
power a zero = num (pos 1000)
power a (suc n) = times a (power a n)

abbrev to_power : Fixed → Fixed → Fixed
to_power a (num (pos n)) = power a (n / 1000)
to_power a b = not_a_number

abbrev show_fixed_point : Fixed → String
show_fixed_point (num a) = cat (show_ℤ a) "e-3"
show_fixed_point not_a_number = "NaN"
show_fixed_point plus_infinity = "inf"
show_fixed_point minus_infinity = "-inf"

instance abbrev pub fixed_f64 : F64 Fixed
fixed_f64 = record {
  lit = λ m e. num (pos (m * 1000 / 10 ^ e));
  of_nat = λ n. num (pos (n * 1000));
  nan = not_a_number;
  infinity = plus_infinity;
  add = lift (λ a b. a +ℤ b);
  sub = lift (λ a b. a -ℤ b);
  mul = times;
  div = divide;
  maxf = max_fixed;
  minf = min_fixed;
  powf = to_power;
  neg = negate;
  abs = abs_fixed;
  sqrt = square_root;
  lt = lt_fixed;
  le = le_fixed;
  eq = λ a b. le_fixed a b && le_fixed b a;
  is_finite = finite;
  show = show_fixed_point;
  show_fixed = λ n a. show_fixed_point a;
}

le_trans_fixed : (x y z : Fixed) → le_fixed x y ≡ true → le_fixed y z ≡ true → le_fixed x z ≡ true
le_trans_fixed x y z h k = ground arith

le_total_fixed :
    (x y : Fixed)
    → finite x ≡ true
    → finite y ≡ true
    → (le_fixed x y ≡ true) ⊎ (le_fixed y x ≡ true)
le_total_fixed x y h k = ground arith

pub fixed-IsOrdered : IsOrdered fixed_f64
fixed-IsOrdered = record {
  le_trans = le_trans_fixed;
  le_total = le_total_fixed;
  le-max = λ x y h k.
      ground (arith, le_total_fixed x y h k, le_total_fixed x x h h, le_total_fixed y y k k);
  min-le = λ x y h k.
      ground (arith, le_total_fixed x y h k, le_total_fixed x x h h, le_total_fixed y y k k);
}
