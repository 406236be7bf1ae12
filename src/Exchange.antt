-- ===== src/Exchange.antt =====
-- libs/rust/hft_exchange/src/rate_limit.rs: the token bucket. A call of `acquire` goes through its loop
-- once for each time that it wakes; the list has the seconds that `duration_since` answers each time.
use btc_rust_history.Prelude.{
  max, ◌≡◌, refl, inl, inr, Bool, true, false, List, [], ◌∷◌, if◌then◌else◌, Bool-cases, nat_key,
  string_key, pair_key, int_key,
}
use mathlib.Core.Path.{subst}
use btc_rust_history.Float.{F64, ◌⊕◌, ◌⊖◌, ◌⊗◌, ◌⊘◌, ◌≼◌, IsOrdered}

pub record RateLimiter (F : Type 0) : Type 0 where
  pub tokens : F
  pub max_tokens : F
  pub refill_rate : F

-- Where a call stands: it returned, or it sleeps for so many seconds.
pub data Progress (F : Type 0) : Type 0 where
  returned : RateLimiter F → Progress F
  asleep : RateLimiter F → F → Progress F

module _ {F : Type 0} ⦃d : F64 F⦄ where
  -- `RateLimiter::new`
  unfoldable pub new : F → F → RateLimiter F
  new max_tokens refill_rate_per_sec = record {
    tokens = max_tokens;
    max_tokens = max_tokens;
    refill_rate = refill_rate_per_sec;
  }

  unfoldable pub refill : F → RateLimiter F → RateLimiter F
  refill elapsed rl = record rl {
    tokens = d.minf (rl.tokens ⊕ elapsed ⊗ rl.refill_rate) rl.max_tokens;
  }

  -- The body of the loop.
  unfoldable pub attempt : F → F → RateLimiter F → Progress F
  unfolding refill
  attempt amount elapsed rl =
      let filled = refill elapsed rl in
      if amount ≼ filled.tokens
      then returned (record filled { tokens = filled.tokens ⊖ amount })
      else asleep filled ((amount ⊖ filled.tokens) ⊘ filled.refill_rate)

  -- The loop, up to its last waking in the list.
  unfoldable pub resume : F → List F → Progress F → Progress F
  resume amount [] p = p
  resume amount (elapsed ∷ rest) (returned rl) = returned rl
  resume amount (elapsed ∷ rest) (asleep rl wait) = resume amount rest (attempt amount elapsed rl)

  unfoldable pub acquire : F → F → List F → RateLimiter F → Progress F
  unfolding attempt resume
  acquire amount elapsed wakings rl = resume amount wakings (attempt amount elapsed rl)

  -- A call that sleeps, on a limiter with that capacity.
  pub Sleeps : F → Progress F → Type 0
  Sleeps max (returned rl) = ⊥
  Sleeps max (asleep rl wait) = rl.max_tokens ≡ max

  attempt-Sleeps :
      (laws : IsOrdered d) (amount elapsed : F) (rl : RateLimiter F)
      → ((x : F) → (d.minf x rl.max_tokens ≼ rl.max_tokens) ≡ true)
      → (amount ≼ rl.max_tokens) ≡ false
      → Sleeps rl.max_tokens (attempt amount elapsed rl)
  unfolding attempt Sleeps
  attempt-Sleeps laws amount elapsed rl capped more =
      let t = d.minf (rl.tokens ⊕ elapsed ⊗ rl.refill_rate) rl.max_tokens in
      elim (Bool-cases (amount ≼ t)) [
        | inl enough ↦
            absurd (contradiction (laws.le_trans amount t rl.max_tokens enough (capped _)) more)
        | inr short ↦ rw short refl
      ]
    where
      contradiction : {b : Bool} → b ≡ true → b ≡ false → ⊥
      contradiction t f = cc

  resume-Sleeps :
      (laws : IsOrdered d) (amount max : F) (wakings : List F) (p : Progress F)
      → ((x : F) → (d.minf x max ≼ max) ≡ true)
      → (amount ≼ max) ≡ false
      → Sleeps max p
      → Sleeps max (resume amount wakings p)
  unfolding resume Sleeps
  resume-Sleeps laws amount max [] p capped more h = h
  resume-Sleeps laws amount max (elapsed ∷ rest) (returned rl) capped more h = h
  resume-Sleeps laws amount max (elapsed ∷ rest) (asleep rl wait) capped more h =
      resume-Sleeps laws amount max rest (attempt amount elapsed rl) capped more (
        subst (λ m. Sleeps m (attempt amount elapsed rl)) h
          (attempt-Sleeps laws amount elapsed rl (rw h capped) (rw h more)))

  -- A call for more tokens than the bucket holds still sleeps after any number of wakings, however long
  -- it slept: where the order of floats is transitive, and the smaller of a number and the capacity is
  -- at most the capacity.
  pub acquire-Sleeps :
      (laws : IsOrdered d) (amount elapsed : F) (wakings : List F) (rl : RateLimiter F)
      → ((x : F) → (d.minf x rl.max_tokens ≼ rl.max_tokens) ≡ true)
      → (amount ≼ rl.max_tokens) ≡ false
      → Sleeps rl.max_tokens (acquire amount elapsed wakings rl)
  unfolding acquire
  acquire-Sleeps laws amount elapsed wakings rl capped more =
      resume-Sleeps laws amount rl.max_tokens wakings (attempt amount elapsed rl) capped more
        (attempt-Sleeps laws amount elapsed rl capped more)
