-- ===== src/Ingest/Handle.antt =====
-- `handle_text` of services/marketdata_ingestor/src/main.rs and the loop that calls it. The atomic
-- counters of the sequence numbers are shared with the other workers: `Arrival` says how far these
-- advanced them.
use btc_rust_history.Prelude.{
  ℕ, ◌+◌, ◌%◌, ◌^◌, String, Bool, Option, none, some, List, [], ◌∷◌, ◌++◌, get_or, nat_key,
  string_key, pair_key, int_key, Map, lookup, insert, ℤ, tdiv,
}
use btc_rust_history.Float.{F64}
use btc_rust_history.Ingest.{Outcome, Wire, NormalizedEvent, to_u64, saturating_sub}
use btc_rust_history.Ingest.Normalize.{normalize}
use btc_rust_history.Ingest.Publish.{Topics, Output, symbol_of, exch_ts_ms, publish}

pub record HeartbeatStats : Type 0 where
  pub last_msg_ts : ℕ
  pub msg_count : ℕ
  pub latency_sum_ms : ℕ

-- The state that the workers share.
pub record Shared : Type 0 where
  pub trade_seq : ℕ
  pub book_seq : ℕ
  pub stats : Map String HeartbeatStats

-- A text from the websocket: the clock, whether `to_bytes` and the send of the broker succeed, and by how
-- much the other workers moved the counters since the last text of this worker.
pub record Arrival : Type 0 where
  pub text : String
  pub now_ns : ℤ
  pub delivered : Bool
  pub other_trades : ℕ
  pub other_books : ℕ

module _ {F : Type 0} ⦃d : F64 F⦄ where
  -- The heartbeat of the symbol of an event.
  unfoldable pub record_metrics :
      ℤ → NormalizedEvent F → Map String HeartbeatStats → Map String HeartbeatStats
  unfolding lookup insert symbol_of exch_ts_ms saturating_sub to_u64
  record_metrics recv_time_ns ev stats =
      let fresh : HeartbeatStats = record { last_msg_ts = 0; msg_count = 0; latency_sum_ms = 0 } in
      let s = get_or (lookup (symbol_of ev) stats) fresh in
      let latency_ms = saturating_sub (tdiv recv_time_ns 1000000) (exch_ts_ms ev) in
      insert (symbol_of ev)
        (record {
          last_msg_ts = to_u64 recv_time_ns;
          msg_count = (s.msg_count + 1) % 2 ^ 64;
          latency_sum_ms = (s.latency_sum_ms + to_u64 latency_ms) % 2 ^ 64;
        })
        stats

  -- With the metrics of an event that is not published.
  unfoldable pub on_event :
      Topics
      → Arrival
      → Outcome (Option (NormalizedEvent F))
      → Shared
      → Shared × Outcome (List (Output F))
  unfolding publish record_metrics
  on_event cfg arrival (Outcome.ok (some ev)) shared = (
    record {
      trade_seq = shared.trade_seq;
      book_seq = shared.book_seq;
      stats = record_metrics arrival.now_ns ev shared.stats;
    },
    publish cfg arrival.delivered ev,
  )
  on_event cfg arrival (Outcome.ok none) shared = (shared, Outcome.ok [])
  on_event cfg arrival Outcome.fails shared = (shared, Outcome.fails)
  on_event cfg arrival Outcome.panics shared = (shared, Outcome.panics)

  -- An error is logged, a panic ends the task.
  unfoldable pub continued :
      Outcome (List (Output F)) → Shared → List (Output F) × Shared → List (Output F) × Shared
  continued (Outcome.ok outs) next more = (outs ++ more.0, more.1)
  continued Outcome.fails next more = more
  continued Outcome.panics next more = ([], next)

  module _ {V : Type 0} (w : Wire F V) (cfg : Topics) where
    unfoldable pub handle_text : Arrival → Shared → Shared × Outcome (List (Output F))
    unfolding normalize on_event
    handle_text arrival shared =
        let next_trade_seq = (shared.trade_seq + arrival.other_trades + 1) % 2 ^ 64 in
        let next_book_seq = (shared.book_seq + arrival.other_books + 1) % 2 ^ 64 in
        on_event cfg arrival (normalize w arrival.now_ns next_trade_seq next_book_seq arrival.text)
          (record { trade_seq = next_trade_seq; book_seq = next_book_seq; stats = shared.stats })

    -- The `while let` loop of a worker on the texts of a connection: what it published, with the state
    -- after it.
    unfoldable pub read_texts : List Arrival → Shared → List (Output F) × Shared
    unfolding handle_text continued
    read_texts [] shared = ([], shared)
    read_texts (arrival ∷ rest) shared =
        let after = handle_text arrival shared in
        let more = read_texts rest after.0 in continued after.1 after.0 more
