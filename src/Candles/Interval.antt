-- ===== src/Candles/Interval.antt =====
-- `KlineInterval` of services/marketdata_ingestor/src/candle.rs.
use btc_rust_history.Prelude.{
  String, ◌≡◌, refl, ◌↔◌, Option, none, some, List, [], ◌∷◌, arith, if◌then◌else◌, All, ◌==◌,
  nat_key, string_key,
}

pub data KlineInterval : Type 0 where
  m1 m3 m5 m15 m30 h1 h2 h4 h6 h8 h12 d1 d3 w1 mo1 : KlineInterval

unfoldable pub as_str : KlineInterval → String
as_str m1 = "1m"
as_str m3 = "3m"
as_str m5 = "5m"
as_str m15 = "15m"
as_str m30 = "30m"
as_str h1 = "1h"
as_str h2 = "2h"
as_str h4 = "4h"
as_str h6 = "6h"
as_str h8 = "8h"
as_str h12 = "12h"
as_str d1 = "1d"
as_str d3 = "3d"
as_str w1 = "1w"
as_str mo1 = "1M"

-- `none` is the error "unsupported INTERVAL".
unfoldable pub from_env_value : String → Option KlineInterval
from_env_value v =
    if v == "1m"
    then some m1
    else if v == "3m"
    then some m3
    else if v == "5m"
    then some m5
    else if v == "15m"
    then some m15
    else if v == "30m"
    then some m30
    else if v == "1h"
    then some h1
    else if v == "2h"
    then some h2
    else if v == "4h"
    then some h4
    else if v == "6h"
    then some h6
    else if v == "8h"
    then some h8
    else if v == "12h"
    then some h12
    else if v == "1d"
    then some d1
    else if v == "3d"
    then some d3
    else if v == "1w"
    then some w1
    else if v == "1M"
    then some mo1
    else none

from_env_value-as_str : (i : KlineInterval) → from_env_value (as_str i) ≡ some i
unfolding from_env_value as_str
from_env_value-as_str m1 = refl
from_env_value-as_str _ = refl

-- The table that the match stands for.
abbrev table : List (String × KlineInterval)
table =
    ("1m", m1)
    ∷ ("3m", m3)
    ∷ ("5m", m5)
    ∷ ("15m", m15)
    ∷ ("30m", m30)
    ∷ ("1h", h1)
    ∷ ("2h", h2)
    ∷ ("4h", h4)
    ∷ ("6h", h6)
    ∷ ("8h", h8)
    ∷ ("12h", h12)
    ∷ ("1d", d1)
    ∷ ("3d", d3)
    ∷ ("1w", w1)
    ∷ ("1M", mo1)
    ∷ []

abbrev find : String → List (String × KlineInterval) → Option KlineInterval
find v [] = none
find v ((t, i) ∷ rest) = if v == t then some i else find v rest

find_sound :
    (v : String) (i : KlineInterval) (rows : List (String × KlineInterval))
    → All (λ row. row.0 ≡ as_str row.1) rows
    → find v rows ≡ some i
    → v ≡ as_str i
find_sound v i [] h e = cc
find_sound v i ((t, j) ∷ rows) (h, hs) e =
    ground (arith, find_sound v i rows hs, string_key.same_iff v t)

table-All : All (λ row. row.0 ≡ as_str row.1) table
unfolding as_str
table-All = (
  refl,
  (
    refl,
    (
      refl,
      (
        refl,
        (refl, (refl, (refl, (refl, (refl, (refl, (refl, (refl, (refl, (refl, (refl, tt))))))))))),
      ),
    ),
  ),
)

as_str_of_from_env_value :
    (v : String) (i : KlineInterval) → from_env_value v ≡ some i → v ≡ as_str i
unfolding from_env_value
as_str_of_from_env_value v i e = find_sound v i table table-All e

-- The environment names an interval exactly by the text that the interval is written as.
pub from_env_value_iff :
    (v : String) (i : KlineInterval) → (from_env_value v ≡ some i) ↔ (v ≡ as_str i)
from_env_value_iff v i = (as_str_of_from_env_value v i, λ e. rw e (from_env_value-as_str i))
