-- ===== src/Tests/Candles.antt =====
-- The candle pipeline on a few messages.
use btc_rust_history.Prelude.{
  ℕ, String, ◌≡◌, refl, true, false, Option, none, some, List, [], ◌∷◌, map, if◌then◌else◌, ◌==◌,
  nat_key, string_key, cat, lookup, insert, remove, pos, show_ℤ,
}
use btc_rust_history.Candles.Interval.{
  KlineInterval, m1, from_env_value, as_str, from_env_value_iff,
}
use btc_rust_history.Candles.Interval
use btc_rust_history.Candles.Dedupe
use btc_rust_history.Candles.Dedupe.{candle_key_instance}
use btc_rust_history.Candles.Dedupe.Window.{answers, run-answers}
use btc_rust_history.Candles.Parse.{
  Kline, ClosedCandleEvent, ParsedClosedCandle, Parsed, candle, fields, parse_closed_candle_message,
  parse-candle,
}
use btc_rust_history.Candles.Worker.{
  Worker, Session, refused, connected, text, ping, stale, run_worker, start, key_of,
}
use btc_rust_history.Candles.Worker.Output.{arrivals, choose, sent-run_worker}
use btc_rust_history.Candles.Sink.{
  SinkConfig, Sink, Env, Pick, item, tick, channel_closed, sink_loop,
}
use btc_rust_history.Candles.Sink.Delivery.{After, picked, sink_loop-Delivers}
use btc_rust_history.Tests.Data.{the}

-- With room for two keys, the third one pushes the first one out.
abbrev keys : List ℕ
keys = 1 ∷ 2 ∷ 1 ∷ 3 ∷ 1 ∷ []

test_answers : (Dedupe.run (Dedupe.new 2) keys).1 ≡ true ∷ true ∷ false ∷ true ∷ true ∷ []
unfolding Dedupe.run Dedupe.new Dedupe.insert_if_new Dedupe.evict lookup insert remove
test_answers = refl

run-answers_example : (Dedupe.run (Dedupe.new 2) keys).1 ≡ answers 2 [] keys
run-answers_example = run-answers 2 keys

abbrev kline : Kline
kline = record {
  t = pos 1;
  cap_t = pos 2;
  s = "BTCUSDT";
  o = "1";
  c = "1";
  h = "1";
  l = "1";
  v = "1";
  n = 3;
  x = true;
  q = "1";
  cap_v = "1";
  cap_q = "1";
}

abbrev from_json : String → Option Kline
from_json s = if s == "kline" then some kline else none

abbrev parse_f64 : String → Option ℕ
parse_f64 s = if s == "1" then some 1 else none

abbrev to_json : ClosedCandleEvent ℕ → Option (List ℕ)
to_json e = some (e.row.open_price ∷ [])

abbrev parsed_of : (p : Parsed ℕ) → Option (ParsedClosedCandle ℕ)
parsed_of (candle p) = some p
parsed_of _ = none

abbrev parsed : ParsedClosedCandle ℕ
unfolding parse_closed_candle_message
parsed =
    the (parsed_of (parse_closed_candle_message from_json parse_f64 to_json "kline" m1 (pos 9)))
      refl

parse-candle_example :
    (k : Kline) × (from_json "kline" ≡ some k)
    × (k.x ≡ true)
    × (map parse_f64 (fields k)
        ≡ map some (
            parsed.row.open_price ∷ parsed.row.high ∷ parsed.row.low ∷ parsed.row.close
            ∷ parsed.row.volume ∷ parsed.row.quote_asset_volume
            ∷ parsed.row.taker_buy_base_asset_volume ∷ parsed.row.taker_buy_quote_asset_volume
            ∷ []))
    × ((parsed.row.symbol ≡ k.s) × (parsed.row.interval ≡ Interval.as_str m1))
    × ((parsed.row.open_time ≡ k.t)
        × (parsed.row.close_time ≡ k.cap_t)
        × (parsed.row.number_of_trades ≡ k.n))
    × (parsed.kafka_key ≡ cat k.s (cat ":" (cat (Interval.as_str m1) (cat ":" (show_ℤ k.t)))))
    × (to_json (record { row = parsed.row; is_closed = true }) ≡ some parsed.kafka_payload)
unfolding parse_closed_candle_message the
parse-candle_example = parse-candle from_json parse_f64 to_json "kline" m1 (pos 9) parsed refl

-- Two connections that bring the same kline, around a refused one.
abbrev sessions : List Session
sessions =
    connected (text "kline" (pos 5) ∷ ping ∷ stale ∷ [])
    ∷ refused
    ∷ connected (text "kline" (pos 6) ∷ [])
    ∷ []

sent-run_worker_example :
    (w : Worker ℕ) × (run_worker from_json parse_f64 to_json m1 true sessions (start 10) ≡ some w)
    × (w.sent
        ≡ choose from_json parse_f64 to_json m1
            (answers 10 [] (map key_of (arrivals from_json parse_f64 to_json m1 sessions)))
            (arrivals from_json parse_f64 to_json m1 sessions))
sent-run_worker_example = sent-run_worker from_json parse_f64 to_json m1 10 sessions

abbrev sink_config : SinkConfig
sink_config = record { candle_ch_batch_size = 2; candle_ws_stale_timeout_ms = pos 100 }

abbrev sink : Sink ℕ
sink = record {
  batch = [];
  rows = [];
  messages = [];
  metrics = record {
    connected_workers = 0;
    last_ws_message_at_ms = pos 0;
    last_kafka_success_at_ms = pos 0;
    last_ch_success_at_ms = pos 0;
    parsed_candle_count = 0;
    duplicate_candle_count = 0;
    parse_error_count = 0;
    sink_error_count = 0;
  };
  is_ready = false;
}

abbrev env : Env ℕ
env = record { clickhouse = λ ps. true; kafka = λ p. true; clock = λ n. pos n }

abbrev picks : List (Env ℕ × Pick ℕ)
picks = (env, item parsed) ∷ (env, tick) ∷ (env, item parsed) ∷ (env, channel_closed) ∷ []

sink_loop-Delivers_example : After (picked picks) (sink_loop sink_config picks sink)
sink_loop-Delivers_example = sink_loop-Delivers sink_config picks sink refl refl refl
