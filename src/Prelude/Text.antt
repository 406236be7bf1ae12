-- ===== src/Prelude/Text.antt =====
-- `{}` of `format!` on integers, in decimal.
use Prim.Native.Nat.{ℕ, zero, suc, ◌+◌, ◌/◌, ◌%◌}
use Prim.Native.String.{String}
use btc_rust_history.Prelude.Tests.{ltb, eqb, if◌then◌else◌}
use btc_rust_history.Prelude.Keys.{cat}
use btc_rust_history.Prelude.Int.{ℤ, pos, negsuc}

unfoldable pub digit : ℕ → String
digit n =
    if eqb n 0
    then "0"
    else if eqb n 1
    then "1"
    else if eqb n 2
    then "2"
    else if eqb n 3
    then "3"
    else if eqb n 4
    then "4"
    else if eqb n 5
    then "5"
    else if eqb n 6
    then "6"
    else if eqb n 7
    then "7"
    else if eqb n 8
    then "8"
    else "9"

-- With `fuel` digits at most.
unfoldable pub decimal : ℕ → ℕ → String
unfolding digit
decimal zero n = ""
decimal (suc fuel) n =
    let front = decimal fuel (n / 10) in if ltb n 10 then digit n else cat front (digit (n % 10))

-- A 64-bit integer has at most 20 digits.
unfoldable pub show_ℕ : ℕ → String
unfolding decimal
show_ℕ n = decimal 20 n

unfoldable pub show_ℤ : ℤ → String
unfolding show_ℕ
show_ℤ (pos n) = show_ℕ n
show_ℤ (negsuc n) = cat "-" (show_ℕ (n + 1))
