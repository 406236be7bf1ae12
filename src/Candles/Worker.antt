-- ===== src/Candles/Worker.antt =====
-- `run_candle_ws_worker` of services/marketdata_ingestor/src/candle.rs. What the socket delivers, the
-- clock and whether the pipeline channel is open are parameters. One session of the outer loop is a
-- refused connection or the list of what `read.next()` returns; a list that runs out is the end of the
-- stream. Child `Output` is about what reaches the pipeline, `Backoff` about the waits.
pub mod Output
pub mod Backoff
use btc_rust_history.Prelude.{
  ℕ, zero, suc, ◌+◌, ◌-◌, ◌*◌, ◌/◌, ◌%◌, ◌^◌, ◌≤◌, ◌<◌, min, max, String, ◌≡◌, refl, sym, ap, ◌∙◌,
  ◌≢◌, ◌↔◌, ◌⊎◌, inl, inr, Bool, true, false, ◌&&◌, ◌||◌, not, Option, none, some, List, [], ◌∷◌,
  ◌++◌, map, foldl, arith, ltb, leb, eqb, if◌then◌else◌, ltb→lt, leb→le, eqb_iff, Bool-cases,
  Option-cases, is_some, get_or, or_else, length, is_empty, drop, take, last?, keep, exists, All,
  length-append, length-drop, length-take, length-keep-le, keep-All, keep_of_All, All-append,
  All-drop, drop_past, drop-append, drop-drop, length-map, Key, ◌==◌, nat_key, string_key, ==_refl,
  cat, Map, lookup, insert, remove, lookup-insert, lookup-insert_self, lookup-insert_ne,
  lookup-remove, ℤ, pos, negsuc, pos_part, neg_part, ◌+ℤ◌, ◌-ℤ◌, ◌*ℤ◌, tdiv, to_u32, ◌≤ℤ◌, leb_ℤ,
  ltb_ℤ, eqb_ℤ, show_ℕ, show_ℤ,
}
use btc_rust_history.Candles.Interval.{KlineInterval}
use btc_rust_history.Candles.Dedupe
use btc_rust_history.Candles.Dedupe.{CandleKey, DedupeCache, candle_key_instance}
use btc_rust_history.Candles.Parse.{
  Kline, ClosedCandleEvent, ParsedClosedCandle, Parsed, ignored, candle, failed,
  parse_closed_candle_message,
}

abbrev pub initial_backoff_ms : ℕ
initial_backoff_ms = 500

abbrev pub max_backoff_ms : ℕ
max_backoff_ms = 30_000

-- `fetch_add(1)` and `fetch_sub(1)` on an `AtomicU64`.
unfoldable pub add_one : ℕ → ℕ
add_one n = (n + 1) % 2 ^ 64

unfoldable pub sub_one : ℕ → ℕ
sub_one n = (n + (2 ^ 64 - 1)) % 2 ^ 64

pub record Metrics : Type 0 where
  pub connected_workers : ℕ
  pub last_ws_message_at_ms : ℤ
  pub last_kafka_success_at_ms : ℤ
  pub last_ch_success_at_ms : ℤ
  pub parsed_candle_count : ℕ
  pub duplicate_candle_count : ℕ
  pub parse_error_count : ℕ
  pub sink_error_count : ℕ

-- What one turn of the inner loop reads; `stale` is the timeout.
pub data Incoming : Type 0 where
  text : String → ℤ → Incoming
  ping pong binary frame : Incoming
  stale closed read_error : Incoming

pub data Session : Type 0 where
  refused : Session
  connected : List Incoming → Session

-- `sent` and `slept` are the candles put on the channel and the waits, oldest first.
pub record Worker (F : Type 0) : Type 0 where
  pub cache : DedupeCache CandleKey
  pub backoff_ms : ℕ
  pub metrics : Metrics
  pub sent : List (ParsedClosedCandle F)
  pub slept : List ℕ

-- `bail` is the error "candle pipeline channel closed".
pub data Flow (F : Type 0) : Type 0 where
  next : Worker F → Flow F
  break : Worker F → Flow F
  bail : Worker F → Flow F

-- Only `next` stays in the loop.
abbrev pub and_then : {F : Type 0} → Flow F → (Worker F → Flow F) → Flow F
and_then (next w) f = f w
and_then (break w) f = break w
and_then (bail w) f = bail w

abbrev pub or_stop :
    {F : Type 0} → Option (Worker F) → (Worker F → Option (Worker F)) → Option (Worker F)
or_stop none f = none
or_stop (some w) f = f w

unfoldable pub key_of : {F : Type 0} → ParsedClosedCandle F → CandleKey
key_of p = record { symbol = p.row.symbol; interval = p.row.interval; open_time = p.row.open_time }

module _ {F : Type 0} where
  unfoldable pub connect : Worker F → Worker F
  unfolding add_one
  connect w = record w {
    metrics = record w.metrics { connected_workers = add_one w.metrics.connected_workers };
    backoff_ms = initial_backoff_ms;
  }

  unfoldable pub disconnect : Worker F → Worker F
  unfolding sub_one
  disconnect w = record w {
    metrics = record w.metrics { connected_workers = sub_one w.metrics.connected_workers };
  }

  -- The wait before the next attempt, and the doubling (`*` on `u64` wraps).
  unfoldable pub wait : Worker F → Worker F
  wait w = record w {
    slept = w.slept ++ (w.backoff_ms ∷ []);
    backoff_ms = min (w.backoff_ms * 2 % 2 ^ 64) max_backoff_ms;
  }

  -- What follows the inner loop; `none` is the return with an error.
  unfoldable pub end_session : Flow F → Option (Worker F)
  unfolding disconnect wait
  end_session (next w) = some (wait (disconnect w))
  end_session (break w) = some (wait (disconnect w))
  end_session (bail w) = none

module _ {F : Type 0} (from_json : String → Option Kline) (parse_f64 : String → Option F)
    (to_json : ClosedCandleEvent F → Option (List ℕ)) (interval : KlineInterval)
    (is_open : Bool) where
  -- A candle that parsed: dropped if its key is known, else put on the channel.
  unfoldable pub offer : ParsedClosedCandle F → Worker F → Flow F
  unfolding add_one key_of
  offer p w =
      let (cache, is_new) = Dedupe.insert_if_new w.cache (key_of p) in
      if not is_new
      then next (record w {
        cache = cache;
        metrics = record w.metrics {
          duplicate_candle_count = add_one w.metrics.duplicate_candle_count;
        };
      })
      else let w' = record w {
        cache = cache;
        metrics = record w.metrics { parsed_candle_count = add_one w.metrics.parsed_candle_count };
      } in
        if is_open then next (record w' { sent = w.sent ++ (p ∷ []) }) else bail w'

  unfoldable pub on_parsed : Parsed F → Worker F → Flow F
  unfolding offer
  on_parsed (candle p) w = offer p w
  on_parsed ignored w = next w
  on_parsed failed w = next (record w {
    metrics = record w.metrics { parse_error_count = add_one w.metrics.parse_error_count };
  })

  unfoldable pub on_message : Incoming → Worker F → Flow F
  unfolding on_parsed
  on_message (text s now) w =
      on_parsed (parse_closed_candle_message from_json parse_f64 to_json s interval now)
        (record w { metrics = record w.metrics { last_ws_message_at_ms = now } })
  on_message ping w = next w
  on_message pong w = next w
  on_message binary w = next w
  on_message frame w = next w
  on_message stale w = break w
  on_message closed w = break w
  on_message read_error w = break w

  -- The inner loop.
  unfoldable pub read_all : List Incoming → Worker F → Flow F
  read_all [] w = break w
  read_all (m ∷ ms) w = and_then (on_message m w) (read_all ms)

  -- One turn of the outer loop. An error ends the worker.
  unfoldable pub run_session : Session → Worker F → Option (Worker F)
  run_session refused w = some (wait w)
  run_session (connected ms) w = end_session (read_all ms (connect w))

  unfoldable pub run_worker : List Session → Worker F → Option (Worker F)
  run_worker [] w = some w
  run_worker (s ∷ ss) w = or_stop (run_session s w) (run_worker ss)

unfoldable pub start : {F : Type 0} → ℕ → Worker F
unfolding Dedupe.new
start capacity = record {
  cache = Dedupe.new capacity;
  backoff_ms = initial_backoff_ms;
  metrics = record {
    connected_workers = 0;
    last_ws_message_at_ms = pos 0;
    last_kafka_success_at_ms = pos 0;
    last_ch_success_at_ms = pos 0;
    parsed_candle_count = 0;
    duplicate_candle_count = 0;
    parse_error_count = 0;
    sink_error_count = 0;
  };
  sent = [];
  slept = [];
}
