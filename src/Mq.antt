-- ===== src/Mq.antt =====
-- libs/rust/hft_mq/src: the Kafka consumer loop. Child `Retry` has the retry policy and the retry
-- loop, `Consumer` the loop with its commits and the dead-letter queue, `Account` what becomes of
-- each message.
pub mod Retry
pub mod Consumer
pub mod Account
