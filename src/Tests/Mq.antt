-- ===== src/Tests/Mq.antt =====
-- The consumer loop on two messages, the first of which fails for good.
use btc_rust_history.Prelude.{
  ℕ, suc, ◌≤◌, String, ◌≡◌, refl, ◌⊎◌, true, Option, none, some, List, [], ◌∷◌, leb, if◌then◌else◌,
  All, nat_key, string_key, pos,
}
use btc_rust_history.Mq.Retry.{
  RetryPolicy, or_retry, run_with_retry, run_with_retry_lem, all_fail, backoffs,
}
use btc_rust_history.Mq.Consumer.{
  KafkaConsumer, Delivery, Polled, recv_error, received, Effect, Flow, running, run,
}
use btc_rust_history.Mq.Account.{commits, offsets, Fate, commits-run, Fate-run}

abbrev policy : RetryPolicy
policy = record { max_retries = 2; initial_backoff_ms = 100; max_backoff_ms = 150 }

-- A handler that succeeds on its third call.
abbrev third_time : ℕ → Option String
third_time n = if leb 2 n then none else some "busy"

run_with_retry_example :
    let r = run_with_retry policy third_time in
    (k : ℕ) × (r.calls ≡ suc k)
    × (k ≤ 2)
    × (all_fail third_time 0 k ≡ true)
    × (r.error ≡ third_time k)
    × ((r.error ≡ none) ⊎ (k ≡ 2))
    × (r.slept ≡ backoffs policy 0 k)
    × All (λ ms. ms ≤ 150) r.slept
run_with_retry_example = run_with_retry_lem policy third_time

abbrev consumer : KafkaConsumer
consumer = record {
  retry = policy;
  dlq_config = record { enabled = true; topic_suffix = ".dlq"; halt_on_failure = true };
  dlq = some ".dlq";
}

abbrev delivery : (ℕ → Option String) → ℕ → Delivery String
delivery handler n = record {
  ctx = record {
    topic = "orders";
    key = none;
    payload = "p";
    headers = [];
    partition = pos 0;
    offset = pos n;
  };
  handler = handler;
  failed_at_ms = 9;
  send_ok = true;
  commit_ok = true;
}

abbrev polls : List (Polled String)
polls =
    received (delivery (λ n. some "broken") 4) ∷ recv_error ∷ received (delivery third_time 5) ∷ []

abbrev log_of : Flow String → List (Effect String)
log_of (running log) = log
log_of _ = []

abbrev final_log : List (Effect String)
final_log = log_of (run "" (λ s. s) consumer polls [])

runs : run "" (λ s. s) consumer polls [] ≡ running final_log
unfolding run run_with_retry or_retry
runs = refl

commits-run_example : commits final_log ≡ offsets polls []
commits-run_example = commits-run "" (λ s. s) consumer polls runs

Fate-run_example : All (Fate "" (λ s. s) policy ".dlq" final_log) polls
Fate-run_example = Fate-run "" (λ s. s) consumer ".dlq" refl refl polls runs
