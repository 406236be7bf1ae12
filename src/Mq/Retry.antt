-- ===== src/Mq/Retry.antt =====
-- `RetryPolicy` of libs/rust/hft_mq/src/config.rs and `run_with_retry` of consumer.rs. The handler
-- is a parameter: what its calls answer in turn, `none` for `Ok(())` and otherwise the error.
use btc_rust_history.Prelude.{
  ℕ, zero, suc, ◌+◌, ◌-◌, ◌*◌, ◌^◌, ◌≤◌, min, String, ◌≡◌, refl, sym, ap, ◌∙◌, ◌⊎◌, inl, inr, Bool,
  true, ◌&&◌, Option, none, some, List, [], ◌∷◌, arith, Option-cases, is_some, All, nat_key,
  string_key,
}

pub record RetryPolicy : Type 0 where
  pub max_retries : ℕ
  pub initial_backoff_ms : ℕ
  pub max_backoff_ms : ℕ

unfoldable pub default_policy : RetryPolicy
default_policy = record { max_retries = 3; initial_backoff_ms = 100; max_backoff_ms = 5000 }

unfoldable pub saturating_mul_u64 : ℕ → ℕ → ℕ
saturating_mul_u64 a b = min (a * b) (2 ^ 64 - 1)

unfoldable pub backoff_ms : RetryPolicy → ℕ → ℕ
unfolding saturating_mul_u64
backoff_ms p attempt =
    min (saturating_mul_u64 p.initial_backoff_ms (2 ^ min attempt 10)) p.max_backoff_ms

-- What a retry loop did: the calls of the handler, the sleeps between them, and its result.
pub record Attempts : Type 0 where
  pub calls : ℕ
  pub slept : List ℕ
  pub error : Option String

-- One iteration that is not the last: return on `Ok(())`, else sleep and go on.
unfoldable pub or_retry : RetryPolicy → ℕ → Option String → Attempts → Attempts
or_retry p attempt none rest = record { calls = 1; slept = []; error = none }
or_retry p attempt (some e) rest = record {
  calls = rest.calls + 1;
  slept = backoff_ms p attempt ∷ rest.slept;
  error = rest.error;
}

-- The loop from one attempt on, with `left` more attempts allowed after it.
unfoldable pub retry_from : RetryPolicy → (ℕ → Option String) → ℕ → ℕ → Attempts
retry_from p handler zero attempt = record { calls = 1; slept = []; error = handler attempt }
retry_from p handler (suc left) attempt =
    or_retry p attempt (handler attempt) (retry_from p handler left (attempt + 1))

unfoldable pub run_with_retry : RetryPolicy → (ℕ → Option String) → Attempts
unfolding retry_from
run_with_retry p handler = retry_from p handler p.max_retries 0

-- The `n` attempts from one on all failed.
pub all_fail : (ℕ → Option String) → ℕ → ℕ → Bool
all_fail handler attempt zero = true
all_fail handler attempt (suc n) = is_some (handler attempt) && all_fail handler (attempt + 1) n

-- The backoffs of the `n` attempts from one on.
pub backoffs : RetryPolicy → ℕ → ℕ → List ℕ
backoffs p attempt zero = []
backoffs p attempt (suc n) = backoff_ms p attempt ∷ backoffs p (attempt + 1) n

-- What a retry loop from `attempt` on with `left` more attempts has done. `k` is the last attempt.
pub record Retried (p : RetryPolicy) (handler : ℕ → Option String) (left attempt k : ℕ)
    (r : Attempts) : Type 0 where
  pub calls : r.calls ≡ suc k
  pub bound : k ≤ left
  pub failed : all_fail handler attempt k ≡ true
  pub result : r.error ≡ handler (attempt + k)
  pub exhausted : (r.error ≡ none) ⊎ (k ≡ left)
  pub slept : r.slept ≡ backoffs p attempt k

retry_from-Retried :
    (p : RetryPolicy) (handler : ℕ → Option String) (left attempt : ℕ)
    → (k : ℕ) × Retried p handler left attempt k (retry_from p handler left attempt)
unfolding retry_from or_retry all_fail backoffs
retry_from-Retried p handler zero attempt = (
  0,
  record {
    calls = refl;
    bound = omega arith;
    failed = refl;
    result = ap handler (omega arith);
    exhausted = inr refl;
    slept = refl;
  },
)
retry_from-Retried p handler (suc left) attempt = elim (Option-cases (handler attempt)) [
  | inl ok ↦ (
    0,
    rw ok (record {
      calls = refl;
      bound = omega arith;
      failed = refl;
      result = sym ok ∙ ap handler (omega arith);
      exhausted = inl refl;
      slept = refl;
    }),
  )
  | inr (e, err) ↦
      let (k, v) = retry_from-Retried p handler left (attempt + 1) in
      (
        suc k,
        rw err (record {
          calls = ground (arith, v.calls);
          bound = omega (arith, v.bound);
          failed = ground (arith, v.failed, err);
          result = v.result ∙ ap handler (omega arith);
          exhausted = elim v.exhausted [
            | inl none_left ↦ inl none_left
            | inr last ↦ inr (ap suc last)
          ];
          slept = ap (◌∷◌ (backoff_ms p attempt)) v.slept;
        }),
      )
]

backoffs-bounded :
    (p : RetryPolicy) (attempt n : ℕ) → All (λ ms. ms ≤ p.max_backoff_ms) (backoffs p attempt n)
unfolding backoffs backoff_ms
backoffs-bounded p attempt zero = tt
backoffs-bounded p attempt (suc n) = (omega arith, backoffs-bounded p (attempt + 1) n)

-- The handler is called some number k + 1 of times, at most `max_retries` + 1. The first k calls all
-- failed; the result is that of the last call, and is an error only when the retries are used up. The
-- loop slept the backoffs of the k failed attempts in turn, none longer than `max_backoff_ms`.
pub run_with_retry_lem :
    (p : RetryPolicy) (handler : ℕ → Option String)
    → let r = run_with_retry p handler in
      (k : ℕ) × (r.calls ≡ suc k)
      × (k ≤ p.max_retries)
      × (all_fail handler 0 k ≡ true)
      × (r.error ≡ handler k)
      × ((r.error ≡ none) ⊎ (k ≡ p.max_retries))
      × (r.slept ≡ backoffs p 0 k)
      × All (λ ms. ms ≤ p.max_backoff_ms) r.slept
unfolding run_with_retry
run_with_retry_lem p handler =
    let (k, v) = retry_from-Retried p handler p.max_retries 0 in
    (
      k,
      v.calls,
      v.bound,
      v.failed,
      v.result ∙ ap handler (omega arith),
      v.exhausted,
      v.slept,
      rw (v.slept) (backoffs-bounded p 0 k),
    )
