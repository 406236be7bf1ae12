-- ===== src/Redis/RateLimit/Window.antt =====
-- The time to live of a counter of `RateLimiter` in libs/rust/hft_redis/src/rate_limit.rs.
use btc_rust_history.Prelude.{
  ℕ, suc, ◌+◌, ◌^◌, ◌<◌, String, ◌≡◌, refl, sym, ap, ◌∙◌, inl, inr, false, some, List, [], ◌∷◌,
  arith, Bool-cases, length, All, or_else, ◌==◌, nat_key, string_key, pair_key, int_key, ==_refl,
  pos, eqb_ℤ,
}
use mathlib.Core.Path.{subst}
use btc_rust_history.Redis.{Server, IsServer}
use btc_rust_history.Redis.RateLimit.{
  incr_script, incr_check, state_after, first_ttl, number-incr_script,
}

module _ {S : Type 0} (r : Server S) (laws : IsServer r) (limit : ℕ) where
  counted_self :
      (key : String) (m : ℕ) (s : S)
      → r.number key s ≡ pos m
      → m + 1 < 2 ^ 63
      → r.number key (r.incr key s) ≡ pos (m + 1)
  counted_self key m s e b = rw (==_refl key) at (laws.number-incr key key m s e b)

  ttl_first :
      (key : String) (ttl_secs : ℕ) (s : S)
      → r.number key s ≡ pos 0
      → 0 < ttl_secs
      → r.ttl key (incr_script r key ttl_secs s).0 ≡ some ttl_secs
  unfolding incr_script
  ttl_first key ttl_secs s e h =
      rw (counted_self key 0 s e (omega arith))
        (rw (==_refl key) at (laws.ttl-expire key key ttl_secs (r.incr key s) h))

  later_count : (m : ℕ) → eqb_ℤ (pos (suc m + 1)) (pos 1) ≡ false
  later_count m = ground arith

  ttl_later :
      (key : String) (ttl_secs m : ℕ) (s : S)
      → r.number key s ≡ pos (suc m)
      → suc m + 1 < 2 ^ 63
      → r.ttl key (incr_script r key ttl_secs s).0 ≡ r.ttl key s
  unfolding incr_script
  ttl_later key ttl_secs m s e b =
      rw (counted_self key (suc m) s e b, later_count m) (laws.ttl-incr key key s)

  ttl_other :
      (asked key : String) (ttl_secs : ℕ) (s : S)
      → 0 < ttl_secs
      → (key == asked) ≡ false
      → r.ttl asked (incr_script r key ttl_secs s).0 ≡ r.ttl asked s
  unfolding incr_script
  ttl_other asked key ttl_secs s h other =
      elim (Bool-cases (eqb_ℤ (r.number key (r.incr key s)) (pos 1))) [
        | inl first ↦ rw first (
            rw other at (laws.ttl-expire asked key ttl_secs (r.incr key s) h)
            ∙ laws.ttl-incr asked key s)
        | inr later ↦ rw later (laws.ttl-incr asked key s)
      ]

  suc_count : (m : ℕ) → pos (suc m + 1) ≡ pos (suc (suc m))
  suc_count m = ap pos (omega arith)

  ttl_kept :
      (key : String) (calls : List (String × ℕ)) (m : ℕ) (s : S)
      → r.number key s ≡ pos (suc m)
      → suc m + length calls < 2 ^ 63
      → All (λ call. 0 < call.1) calls
      → r.ttl key (state_after r limit calls s) ≡ r.ttl key s
  unfolding state_after incr_check
  ttl_kept key [] m s e b h = refl
  ttl_kept key ((at, ttl_secs) ∷ calls) m s e b (h, hs) =
      let bound : suc m + 1 < 2 ^ 63 = omega arith in
      let counted = number-incr_script r laws limit key at ttl_secs (suc m) s e bound h in
      elim (Bool-cases (at == key)) [
        | inl same ↦
            ttl_kept key calls (suc m) (incr_script r at ttl_secs s).0
              (rw same at counted ∙ suc_count m) (omega arith) hs
            ∙ subst (λ k. r.ttl key (incr_script r k ttl_secs s).0 ≡ r.ttl key s)
                (sym ((string_key.same_iff at key).0 same)) (ttl_later key ttl_secs m s e bound)
        | inr other ↦
            ttl_kept key calls m (incr_script r at ttl_secs s).0 (rw other at counted) (omega arith)
              hs
            ∙ ttl_other key at ttl_secs s h other
      ]

  -- A key without a counter, every time to live more than zero and fewer than 2^63 calls: after the calls
  -- of `incr_check`, its time to live is the one that the first call on it gave, and later calls do not
  -- renew it; calls on other keys leave it alone.
  pub ttl-state_after :
      (key : String) (calls : List (String × ℕ)) (s : S)
      → r.number key s ≡ pos 0
      → 1 + length calls < 2 ^ 63
      → All (λ call. 0 < call.1) calls
      → r.ttl key (state_after r limit calls s) ≡ or_else (first_ttl key calls) (r.ttl key s)
  unfolding state_after incr_check
  ttl-state_after key [] s e b h = refl
  ttl-state_after key ((at, ttl_secs) ∷ calls) s e b (h, hs) =
      let counted = number-incr_script r laws limit key at ttl_secs 0 s e (omega arith) h in
      elim (Bool-cases (at == key)) [
        | inl same ↦ rw same (
            ttl_kept key calls 0 (incr_script r at ttl_secs s).0 (rw same at counted) (omega arith)
              hs
            ∙ subst (λ k. r.ttl key (incr_script r k ttl_secs s).0 ≡ some ttl_secs)
                (sym ((string_key.same_iff at key).0 same)) (ttl_first key ttl_secs s e h))
        | inr other ↦ rw other (
            ttl-state_after key calls (incr_script r at ttl_secs s).0 (rw other at counted)
              (omega arith) hs
            ∙ ap (or_else (first_ttl key calls)) (ttl_other key at ttl_secs s h other))
      ]
