-- ===== src/Candles/Sink.antt =====
-- `sink_loop`, `flush_batch`, `write_clickhouse_batch` and `refresh_readiness` of
-- services/marketdata_ingestor/src/candle.rs. Whether ClickHouse takes a batch and Kafka a message,
-- and the clock, are parameters; `rows` and `messages` stand for the table and the topic, oldest first.
-- Child `Delivery` is about what is delivered.
pub mod Delivery
use btc_rust_history.Prelude.{
  ℕ, zero, suc, ◌+◌, ◌-◌, ◌*◌, ◌/◌, ◌%◌, ◌^◌, ◌≤◌, ◌<◌, min, max, String, ◌≡◌, refl, sym, ap, ◌∙◌,
  ◌≢◌, ◌↔◌, ◌⊎◌, inl, inr, Bool, true, false, ◌&&◌, ◌||◌, not, Option, none, some, List, [], ◌∷◌,
  ◌++◌, map, foldl, arith, ltb, leb, eqb, if◌then◌else◌, ltb→lt, leb→le, eqb_iff, Bool-cases,
  Option-cases, is_some, get_or, or_else, length, is_empty, drop, take, last?, keep, exists, All,
  length-append, length-drop, length-take, length-keep-le, keep-All, keep_of_All, All-append,
  All-drop, drop_past, drop-append, drop-drop, length-map, Key, ◌==◌, nat_key, string_key, ==_refl,
  cat, Map, lookup, insert, remove, lookup-insert, lookup-insert_self, lookup-insert_ne,
  lookup-remove, ℤ, pos, negsuc, pos_part, neg_part, ◌+ℤ◌, ◌-ℤ◌, wrap_i64, ◌*ℤ◌, tdiv, to_u32, ◌≤ℤ◌,
  leb_ℤ, ltb_ℤ, eqb_ℤ, show_ℕ, show_ℤ,
}
use btc_rust_history.Candles.Parse.{ParsedClosedCandle}
use btc_rust_history.Candles.Worker.{Metrics}

pub record SinkConfig : Type 0 where
  pub candle_ch_batch_size : ℕ
  pub candle_ws_stale_timeout_ms : ℤ

pub record Sink (F : Type 0) : Type 0 where
  pub batch : List (ParsedClosedCandle F)
  pub rows : List (ParsedClosedCandle F)
  pub messages : List (ParsedClosedCandle F)
  pub metrics : Metrics
  pub is_ready : Bool

-- What the environment does during one flush: the clock by the number of the reading.
pub record Env (F : Type 0) : Type 0 where
  pub clickhouse : List (ParsedClosedCandle F) → Bool
  pub kafka : ParsedClosedCandle F → Bool
  pub clock : ℕ → ℤ

pub data Result (F : Type 0) : Type 0 where
  ok : Sink F → Result F
  err : Sink F → Result F

-- What `select!` picks: an item, the end of the channel, or the tick.
pub data Pick (F : Type 0) : Type 0 where
  item : ParsedClosedCandle F → Pick F
  channel_closed : Pick F
  tick : Pick F

-- `last > 0 && now - last <= limit`
unfoldable pub is_recent : ℤ → ℤ → ℤ → Bool
unfolding wrap_i64
is_recent now last limit = ltb_ℤ (pos 0) last && leb_ℤ (wrap_i64 (now -ℤ last)) limit

unfoldable pub refresh_readiness : {F : Type 0} → ℤ → ℤ → Sink F → Sink F
unfolding is_recent wrap_i64
refresh_readiness timeout now s = record s {
  is_ready =
      ltb 0 s.metrics.connected_workers
      && is_recent now s.metrics.last_ws_message_at_ms timeout
      && is_recent now s.metrics.last_kafka_success_at_ms (wrap_i64 (timeout *ℤ pos 2))
      && is_recent now s.metrics.last_ch_success_at_ms (wrap_i64 (timeout *ℤ pos 2));
}

-- The loop over the batch; the `n`-th reading of the clock follows the message.
unfoldable pub send_all : {F : Type 0} → Env F → ℕ → List (ParsedClosedCandle F) → Sink F → Result F
send_all env n [] s = ok s
send_all env n (p ∷ ps) s =
    let rest = send_all env (n + 1) ps (record s {
      messages = s.messages ++ (p ∷ []);
      metrics = record s.metrics { last_kafka_success_at_ms = env.clock n };
    }) in
    if env.kafka p then rest else err s

-- `batch.clear()` and the readiness, on success.
unfoldable pub finish_flush : {F : Type 0} → SinkConfig → Env F → ℕ → Result F → Result F
unfolding refresh_readiness
finish_flush cfg env n (ok s) =
    ok (refresh_readiness cfg.candle_ws_stale_timeout_ms (env.clock n) (record s { batch = [] }))
finish_flush cfg env n (err s) = err s

unfoldable pub flush_batch : {F : Type 0} → SinkConfig → Env F → Sink F → Result F
flush_batch cfg env s =
    let written = record s {
      rows = s.rows ++ s.batch;
      metrics = record s.metrics { last_ch_success_at_ms = env.clock 0 };
    } in
    if is_empty s.batch
    then ok s
    else if env.clickhouse s.batch
    then finish_flush cfg env (length s.batch + 1) (send_all env 1 s.batch written)
    else err s

abbrev pub and_then : {F : Type 0} → Result F → (Sink F → Result F) → Result F
and_then (ok s) f = f s
and_then (err s) f = err s

-- One turn of the loop.
unfoldable pub on_pick : {F : Type 0} → SinkConfig → Env F → Pick F → Sink F → Result F
on_pick cfg env (item p) s =
    let s' = record s { batch = s.batch ++ (p ∷ []) } in
    if leb cfg.candle_ch_batch_size (length s'.batch) then flush_batch cfg env s' else ok s'
on_pick cfg env channel_closed s = if not (is_empty s.batch) then flush_batch cfg env s else ok s
on_pick cfg env tick s =
    and_then (if not (is_empty s.batch) then flush_batch cfg env s else ok s)
      λ t. ok (refresh_readiness cfg.candle_ws_stale_timeout_ms (env.clock (length s.batch + 2)) t)

-- The loop over what is picked; it returns at the end of the channel.
unfoldable pub sink_loop : {F : Type 0} → SinkConfig → List (Env F × Pick F) → Sink F → Result F
sink_loop cfg [] s = ok s
sink_loop cfg ((env, item p) ∷ es) s = and_then (on_pick cfg env (item p) s) (sink_loop cfg es)
sink_loop cfg ((env, tick) ∷ es) s = and_then (on_pick cfg env tick s) (sink_loop cfg es)
sink_loop cfg ((env, channel_closed) ∷ es) s = on_pick cfg env channel_closed s
