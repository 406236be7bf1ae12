-- ===== src/Mq/Consumer.antt =====
-- `run` of libs/rust/hft_mq/src/consumer.rs, with commit.rs and the `publish` of dlq.rs. `B` are the
-- bytes of a payload. A `Polled` is one answer of the broker to `recv`, with what the handler, the
-- DLQ producer and the commit will answer for it, which are not code of the repository. The log
-- of the effects has the newest first. Offsets are below 2^63 - 1, so that the next one exists.
use btc_rust_history.Prelude.{
  ℕ, String, Bool, false, Option, none, some, List, [], ◌∷◌, ◌++◌, if◌then◌else◌, get_or, nat_key,
  string_key, cat, Map, ℤ, pos, ◌+ℤ◌, show_ℕ, show_ℤ,
}
use btc_rust_history.Mq.Retry.{RetryPolicy, run_with_retry}

pub record MessageCtx (B : Type 0) : Type 0 where
  pub topic : String
  pub key : Option B
  pub payload : B
  pub headers : Map String B
  pub partition : ℤ
  pub offset : ℤ

pub record DlqConfig : Type 0 where
  pub enabled : Bool
  pub topic_suffix : String
  pub halt_on_failure : Bool

unfoldable pub default_dlq : DlqConfig
default_dlq = record { enabled = false; topic_suffix = ".dlq"; halt_on_failure = false }

-- `suffix` of the attached `DlqPublisher`, where there is one.
pub record KafkaConsumer : Type 0 where
  pub retry : RetryPolicy
  pub dlq_config : DlqConfig
  pub dlq : Option String

-- A message on the dead-letter topic.
pub record DeadLetter (B : Type 0) : Type 0 where
  pub topic : String
  pub key : B
  pub payload : B
  pub headers : List (String × B)

pub record Delivery (B : Type 0) : Type 0 where
  pub ctx : MessageCtx B
  pub handler : ℕ → Option String
  pub failed_at_ms : ℕ
  pub send_ok : Bool
  pub commit_ok : Bool

pub data Polled (B : Type 0) : Type 0 where
  recv_error : Polled B
  received : Delivery B → Polled B

pub data Effect (B : Type 0) : Type 0 where
  called : MessageCtx B → ℕ → Effect B
  sent : DeadLetter B → Effect B
  committed : String → ℤ → ℤ → Effect B

-- The loop goes on, or returns its error.
pub data Flow (B : Type 0) : Type 0 where
  running : List (Effect B) → Flow B
  fatal : List (Effect B) → Flow B

module _ {B : Type 0} where
  -- The offset stored is that of the next message.
  unfoldable pub commit_offset : Delivery B → List (Effect B) → Flow B
  commit_offset m log =
      if m.commit_ok
      then running (committed m.ctx.topic m.ctx.partition (m.ctx.offset +ℤ pos 1) ∷ log)
      else fatal log

  unfoldable pub and_then : Flow B → (List (Effect B) → Flow B) → Flow B
  and_then (running log) k = k log
  and_then (fatal log) k = fatal log

module _ {B : Type 0} (empty : B) (as_bytes : String → B) where
  unfoldable pub dead_letter : String → MessageCtx B → String → ℕ → DeadLetter B
  dead_letter suffix ctx error failed_at_ms = record {
    topic = cat ctx.topic suffix;
    key = get_or ctx.key empty;
    payload = ctx.payload;
    headers =
        ctx.headers
        ++ (("dlq.original-topic", as_bytes ctx.topic)
            ∷ ("dlq.original-partition", as_bytes (show_ℤ ctx.partition))
            ∷ ("dlq.original-offset", as_bytes (show_ℤ ctx.offset))
            ∷ ("dlq.error", as_bytes error)
            ∷ ("dlq.failed-at-ms", as_bytes (show_ℕ failed_at_ms))
            ∷ []);
  }

  -- After a failure: the DLQ, where one is attached, and the commit past the message.
  unfoldable pub bury :
      KafkaConsumer → Delivery B → String → Option String → List (Effect B) → Flow B
  unfolding commit_offset dead_letter
  bury c m error none log = commit_offset m log
  bury c m error (some suffix) log =
      if m.send_ok
      then commit_offset m (sent (dead_letter suffix m.ctx error m.failed_at_ms) ∷ log)
      else if c.dlq_config.halt_on_failure
      then fatal log
      else commit_offset m log

  unfoldable pub settle : KafkaConsumer → Delivery B → Option String → List (Effect B) → Flow B
  unfolding commit_offset bury
  settle c m none log = commit_offset m log
  settle c m (some error) log = bury c m error c.dlq log

  -- One turn of the loop.
  unfoldable pub step : KafkaConsumer → Polled B → List (Effect B) → Flow B
  unfolding settle
  step c recv_error log = running log
  step c (received m) log =
      let r = run_with_retry c.retry m.handler in settle c m r.error (called m.ctx r.calls ∷ log)

  unfoldable pub run : KafkaConsumer → List (Polled B) → List (Effect B) → Flow B
  unfolding step and_then
  run c [] log = running log
  run c (p ∷ ps) log = and_then (step c p log) (run c ps)
