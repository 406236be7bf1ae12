-- ===== src/Redis/RateLimit.antt =====
-- `RateLimiter` of libs/rust/hft_redis/src/rate_limit.rs. Each call says whether the server answers;
-- one that it does not answer is modelled as one that did not reach it. Child `Window` is about the
-- time to live of a counter.
pub mod Window
use btc_rust_history.Prelude.{
  ℕ, zero, suc, ◌+◌, ◌-◌, ◌*◌, ◌/◌, ◌%◌, ◌^◌, ◌≤◌, ◌<◌, min, max, String, ◌≡◌, refl, sym, ap, ◌∙◌,
  ◌≢◌, ◌↔◌, ◌⊎◌, inl, inr, Bool, true, false, ◌&&◌, ◌||◌, not, Option, none, some, List, [], ◌∷◌,
  ◌++◌, map, foldl, arith, ltb, leb, eqb, if◌then◌else◌, ltb→lt, leb→le, eqb_iff, Bool-cases,
  Option-cases, is_some, get_or, or_else, length, is_empty, drop, take, last?, keep, exists, All,
  length-append, length-drop, length-take, length-keep-le, keep-All, keep_of_All, All-append,
  All-drop, drop_past, drop-append, drop-drop, length-map, Key, ◌==◌, nat_key, string_key, pair_key,
  int_key, ==_refl, cat, Map, lookup, insert, remove, lookup-insert, lookup-insert_self,
  lookup-insert_ne, lookup-remove, ℤ, pos, negsuc, pos_part, neg_part, ◌+ℤ◌, ◌-ℤ◌, ◌*ℤ◌, tdiv,
  to_u32, ◌≤ℤ◌, leb_ℤ, ltb_ℤ, eqb_ℤ, show_ℕ, show_ℤ,
}
use mathlib.Core.Path.{subst}
use btc_rust_history.Redis.{Server, IsServer}

-- `count.max(0) as u64`
unfoldable pub clamp_count : ℤ → ℕ
clamp_count (pos n) = n
clamp_count (negsuc n) = 0

module _ {S : Type 0} (r : Server S) where
  -- The Lua script `INCR_WITH_TTL_LUA`.
  unfoldable pub incr_script : String → ℕ → S → S × ℤ
  incr_script key ttl_secs s =
      let counted = r.incr key s in
      let count = r.number key counted in
      if eqb_ℤ count (pos 1) then (r.expire key ttl_secs counted, count) else (counted, count)

  unfoldable pub incr_with_ttl : Bool → String → ℕ → S → S × Option ℕ
  unfolding clamp_count incr_script
  incr_with_ttl answers key ttl_secs s =
      let (s', count) = incr_script key ttl_secs s in
      if answers then (s', some (clamp_count count)) else (s, none)

  unfoldable pub count : Bool → String → S → Option ℕ
  unfolding clamp_count
  count answers key s = if answers then some (clamp_count (r.number key s)) else none

  -- `self.count(key).await? >= limit`
  unfoldable pub at_limit : ℕ → Option ℕ → Option Bool
  at_limit limit none = none
  at_limit limit (some n) = some (leb limit n)

  unfoldable pub is_exceeded : Bool → String → ℕ → S → Option Bool
  unfolding at_limit count
  is_exceeded answers key limit s = at_limit limit (count answers key s)

  unfoldable pub over_limit : ℕ → Option ℕ → Option (ℕ × Bool)
  over_limit limit none = none
  over_limit limit (some n) = some (n, ltb limit n)

  unfoldable pub incr_check : Bool → String → ℕ → ℕ → S → S × Option (ℕ × Bool)
  unfolding over_limit incr_with_ttl
  incr_check answers key ttl_secs limit s =
      let (s', n) = incr_with_ttl answers key ttl_secs s in (s', over_limit limit n)

  unfoldable pub reset : Bool → String → S → S
  reset answers key s = if answers then r.del key s else s

-- Calls of `incr_check` with one limit: the key and the time to live of each.
module _ {S : Type 0} (r : Server S) (limit : ℕ) where
  -- The calls on a key that are answered as not exceeded.
  abbrev passes : Option (ℕ × Bool) → Bool
  passes none = false
  passes (some (n, exceeded)) = not exceeded

  pub allowed : String → List (String × ℕ) → S → ℕ
  allowed key [] s = 0
  allowed key ((at, ttl_secs) ∷ calls) s =
      let (s', answer) = incr_check r true at ttl_secs limit s in
      (if at == key && passes answer then 1 else 0) + allowed key calls s'

  pub state_after : List (String × ℕ) → S → S
  state_after [] s = s
  state_after ((at, ttl_secs) ∷ calls) s =
      state_after calls (incr_check r true at ttl_secs limit s).0

abbrev pub requests : String → List (String × ℕ) → ℕ
requests key [] = 0
requests key ((at, ttl_secs) ∷ calls) = (if at == key then 1 else 0) + requests key calls

-- The time to live of the first call on a key.
abbrev pub first_ttl : String → List (String × ℕ) → Option ℕ
first_ttl key [] = none
first_ttl key ((at, ttl_secs) ∷ calls) = if at == key then some ttl_secs else first_ttl key calls

module _ {S : Type 0} (r : Server S) (laws : IsServer r) (limit : ℕ) where
  pub number-incr_script :
      (asked key : String) (ttl_secs m : ℕ) (s : S)
      → r.number asked s ≡ pos m
      → m + 1 < 2 ^ 63
      → 0 < ttl_secs
      → r.number asked (incr_script r key ttl_secs s).0
        ≡ (if key == asked then pos (m + 1) else pos m)
  unfolding incr_script
  number-incr_script asked key ttl_secs m s e b h =
      elim (Bool-cases (eqb_ℤ (r.number key (r.incr key s)) (pos 1))) [
        | inl first ↦ rw first (
            laws.number-expire asked key ttl_secs (r.incr key s) h
            ∙ laws.number-incr asked key m s e b)
        | inr later ↦ rw later (laws.number-incr asked key m s e b)
      ]

  answer-incr_script :
      (key : String) (ttl_secs m : ℕ) (s : S)
      → r.number key s ≡ pos m
      → m + 1 < 2 ^ 63
      → (incr_script r key ttl_secs s).1 ≡ pos (m + 1)
  unfolding incr_script
  answer-incr_script key ttl_secs m s e b =
      elim (Bool-cases (eqb_ℤ (r.number key (r.incr key s)) (pos 1))) [
        | inl first ↦ rw first (rw (==_refl key) at (laws.number-incr key key m s e b))
        | inr later ↦ rw later (rw (==_refl key) at (laws.number-incr key key m s e b))
      ]

  passes-incr_check :
      (key : String) (ttl_secs m : ℕ) (s : S)
      → r.number key s ≡ pos m
      → m + 1 < 2 ^ 63
      → passes r limit (incr_check r true key ttl_secs limit s).1 ≡ not (ltb limit (m + 1))
  unfolding incr_check clamp_count
  passes-incr_check key ttl_secs m s e b = rw (answer-incr_script key ttl_secs m s e b) refl

  -- In one window of a key, in which it does not expire and no call resets it, `m` calls being counted
  -- before, every time to live more than zero and the count below 2^63: of the calls on the key, whatever
  -- other keys are called in between, those that `incr_check` answers as not exceeded are as many as the
  -- limit has left, or all.
  pub allowed_lem :
      (key : String) (calls : List (String × ℕ)) (m : ℕ) (s : S)
      → r.number key s ≡ pos m
      → m + length calls < 2 ^ 63
      → All (λ call. 0 < call.1) calls
      → allowed r limit key calls s + min m limit ≡ min (m + requests key calls) limit
  unfolding allowed incr_check
  allowed_lem key [] m s e b h = omega arith
  allowed_lem key ((at, ttl_secs) ∷ calls) m s e b (h, hs) =
      let s' = (incr_check r true at ttl_secs limit s).0 in
      let bound : m + 1 < 2 ^ 63 = omega arith in
      elim (Bool-cases (at == key)) [
        | inl same ↦
            let is_key = (string_key.same_iff at key).0 same in
            let passed =
              subst
                (λ k.
                  passes r limit (incr_check r true k ttl_secs limit s).1 ≡ not (ltb limit (m + 1)))
                (sym is_key) (passes-incr_check key ttl_secs m s e bound) in
            let counted : r.number key s' ≡ pos (m + 1) =
              rw (number-incr_script key at ttl_secs m s e bound h, same) refl in
            rw same
              (ground (arith, passed, allowed_lem key calls (m + 1) s' counted (omega arith) hs))
        | inr other ↦
            let uncounted : r.number key s' ≡ pos m =
              rw (number-incr_script key at ttl_secs m s e bound h, other) refl in
            rw other (ground (arith, allowed_lem key calls m s' uncounted (omega arith) hs))
      ]
