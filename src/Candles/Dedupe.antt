-- ===== src/Candles/Dedupe.antt =====
-- `DedupeCache` of services/marketdata_ingestor/src/candle.rs, over any type of keys. The front of
-- the deque is the head of the list. Child `Window` says which keys the cache remembers.
pub mod Window
use btc_rust_history.Prelude.{
  ℕ, zero, suc, ◌+◌, ◌-◌, ◌*◌, ◌/◌, ◌%◌, ◌^◌, ◌≤◌, ◌<◌, min, max, String, ◌≡◌, refl, sym, ap, ◌∙◌,
  ◌≢◌, ◌↔◌, ◌⊎◌, inl, inr, Bool, true, false, ◌&&◌, ◌||◌, not, Option, none, some, List, [], ◌∷◌,
  ◌++◌, map, foldl, arith, ltb, leb, eqb, if◌then◌else◌, ltb→lt, leb→le, eqb_iff, Bool-cases,
  Option-cases, is_some, get_or, or_else, length, is_empty, drop, take, last?, keep, exists, All,
  length-append, length-drop, length-take, length-keep-le, keep-All, keep_of_All, All-append,
  All-drop, drop_past, drop-append, length-map, Key, ◌==◌, nat_key, string_key, ==_refl, cat, Map,
  lookup, insert, remove, lookup-insert, lookup-insert_self, lookup-insert_ne, lookup-remove, ℤ,
  pos, negsuc, pos_part, neg_part, ◌+ℤ◌, ◌-ℤ◌, ◌*ℤ◌, tdiv, to_u32, ◌≤ℤ◌, leb_ℤ, ltb_ℤ, eqb_ℤ,
}

pub record CandleKey : Type 0 where
  pub symbol : String
  pub interval : String
  pub open_time : ℤ

pub record DedupeCache (K : Type 0) : Type 0 where
  pub capacity : ℕ
  pub order : List K
  pub seen : Map K (Unit {0})

unfoldable pub candle_key_same : CandleKey → CandleKey → Bool
candle_key_same a b =
    a.symbol == b.symbol && a.interval == b.interval && eqb_ℤ a.open_time b.open_time

pub candle_key_same_iff : (a b : CandleKey) → (candle_key_same a b ≡ true) ↔ (a ≡ b)
unfolding candle_key_same
candle_key_same_iff a b =
    ground (arith, string_key.same_iff a.symbol b.symbol, string_key.same_iff a.interval b.interval)

instance abbrev pub candle_key_instance : Key CandleKey
unfolding candle_key_same
candle_key_instance = record { same = candle_key_same; same_iff = candle_key_same_iff }

module _ {K : Type 0} ⦃e : Key K⦄ where
  unfoldable pub new : ℕ → DedupeCache K
  new capacity = record { capacity = capacity; order = []; seen = [] }

  -- `while self.order.len() > self.capacity`
  unfoldable pub evict : ℕ → List K → Map K (Unit {0}) → List K × Map K (Unit {0})
  evict capacity [] seen = ([], seen)
  evict capacity (k ∷ order) seen =
      if ltb capacity (length (k ∷ order))
      then evict capacity order (remove k seen)
      else (k ∷ order, seen)

  unfoldable pub insert_if_new : DedupeCache K → K → DedupeCache K × Bool
  insert_if_new c key =
      if is_some (lookup key c.seen)
      then (c, false)
      else let (order, seen) = evict c.capacity (c.order ++ (key ∷ [])) (insert key tt c.seen) in
        (record c { order = order; seen = seen }, true)

  -- The answers to a sequence of calls, and the cache after it.
  unfoldable pub run : DedupeCache K → List K → DedupeCache K × List Bool
  run c [] = (c, [])
  run c (k ∷ ks) =
      let (c', new) = insert_if_new c k in let (c'', rest) = run c' ks in (c'', new ∷ rest)
