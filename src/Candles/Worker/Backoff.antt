-- ===== src/Candles/Worker/Backoff.antt =====
-- The waits between the connections of a candle worker.
use btc_rust_history.Prelude.{
  ℕ, suc, ◌+◌, ◌≤◌, String, ◌≡◌, refl, Bool, Option, none, some, List, [], ◌∷◌, arith, length, All,
  length-append, All-append, nat_key, string_key,
}
use btc_rust_history.Candles.Interval.{KlineInterval}
use btc_rust_history.Candles.Parse.{
  Kline, ClosedCandleEvent, Parsed, ignored, candle, failed, parse_closed_candle_message,
}
use btc_rust_history.Candles.Worker.{
  Incoming, text, ping, pong, binary, frame, stale, closed, read_error, Session, refused, connected,
  Worker, Flow, next, break, bail, and_then, or_stop, on_parsed, on_message, read_all, connect,
  disconnect, wait, end_session, run_session, run_worker, start,
}

module _ {F : Type 0} (from_json : String → Option Kline) (parse_f64 : String → Option F)
    (to_json : ClosedCandleEvent F → Option (List ℕ)) (interval : KlineInterval)
    (is_open : Bool) where
  abbrev pub InRange : ℕ → Type 0
  InRange ms = (500 ≤ ms) × (ms ≤ 30_000)

  record Waits (n : ℕ) (w : Worker F) : Type 0 where
    now : InRange w.backoff_ms
    past : All InRange w.slept
    count : length w.slept ≡ n

  abbrev Keeps : Worker F → Flow F → Type 0
  Keeps w (next w') = (w'.slept ≡ w.slept) × (w'.backoff_ms ≡ w.backoff_ms)
  Keeps w (break w') = (w'.slept ≡ w.slept) × (w'.backoff_ms ≡ w.backoff_ms)
  Keeps w (bail w') = Unit {0}

  Keeps-and_then :
      (w : Worker F) (r : Flow F) (f : Worker F → Flow F)
      → Keeps w r
      → ((u : Worker F) → Keeps u (f u))
      → Keeps w (and_then r f)
  Keeps-and_then w (next u) f k h = ground (arith, h u)
  Keeps-and_then w (break u) f k h = k
  Keeps-and_then w (bail u) f k h = tt

  on_parsed-Keeps :
      (q : Parsed F) (w : Worker F)
      → Keeps w (on_parsed from_json parse_f64 to_json interval is_open q w)
  unfolding on_parsed
  on_parsed-Keeps ignored w = (refl, refl)
  on_parsed-Keeps failed w = (refl, refl)
  on_parsed-Keeps (candle p) w = ground arith

  on_message-Keeps :
      (m : Incoming) (w : Worker F)
      → Keeps w (on_message from_json parse_f64 to_json interval is_open m w)
  unfolding on_message
  on_message-Keeps (text s now) w =
      on_parsed-Keeps (parse_closed_candle_message from_json parse_f64 to_json s interval now)
        (record w { metrics = record w.metrics { last_ws_message_at_ms = now } })
  on_message-Keeps ping w = (refl, refl)
  on_message-Keeps pong w = (refl, refl)
  on_message-Keeps binary w = (refl, refl)
  on_message-Keeps frame w = (refl, refl)
  on_message-Keeps stale w = (refl, refl)
  on_message-Keeps closed w = (refl, refl)
  on_message-Keeps read_error w = (refl, refl)

  read_all-Keeps :
      (ms : List Incoming) (w : Worker F)
      → Keeps w (read_all from_json parse_f64 to_json interval is_open ms w)
  unfolding read_all
  read_all-Keeps [] w = (refl, refl)
  read_all-Keeps (m ∷ ms) w =
      Keeps-and_then w (on_message from_json parse_f64 to_json interval is_open m w)
        (read_all from_json parse_f64 to_json interval is_open ms) (on_message-Keeps m w)
        (read_all-Keeps ms)

  wait-Waits : (n : ℕ) (w : Worker F) → Waits n w → Waits (suc n) (wait w)
  unfolding wait
  wait-Waits n w v = record {
    now = ground arith;
    past = All-append InRange w.slept (w.backoff_ms ∷ []) v.past (v.now, tt);
    count = omega (arith, length-append w.slept (w.backoff_ms ∷ []), v.count);
  }

  abbrev StillWaits : ℕ → Option (Worker F) → Type 0
  StillWaits n none = Unit {0}
  StillWaits n (some w) = Waits n w

  end_session-Waits :
      (n : ℕ) (w : Worker F) (r : Flow F)
      → Waits n w
      → Keeps (connect w) r
      → StillWaits (suc n) (end_session r)
  unfolding end_session connect disconnect
  end_session-Waits n w (next u) v k =
      wait-Waits n (disconnect u)
        (record { now = ground arith; past = rw (k.0) v.past; count = ground (arith, v.count) })
  end_session-Waits n w (break u) v k =
      wait-Waits n (disconnect u)
        (record { now = ground arith; past = rw (k.0) v.past; count = ground (arith, v.count) })
  end_session-Waits n w (bail u) v k = tt

  run_session-Waits :
      (n : ℕ) (s : Session) (w : Worker F)
      → Waits n w
      → StillWaits (suc n) (run_session from_json parse_f64 to_json interval is_open s w)
  unfolding run_session
  run_session-Waits n refused w v = wait-Waits n w v
  run_session-Waits n (connected ms) w v =
      end_session-Waits n w (read_all from_json parse_f64 to_json interval is_open ms (connect w)) v
        (read_all-Keeps ms (connect w))

  run_worker-Waits :
      (n m : ℕ) (ss : List Session) (w : Worker F)
      → m ≡ n + length ss
      → Waits n w
      → StillWaits m (run_worker from_json parse_f64 to_json interval is_open ss w)
  unfolding run_worker
  run_worker-Waits n m [] w e v = let same : m ≡ n = omega arith in rw same v
  run_worker-Waits n m (s ∷ ss) w e v =
      go (run_session from_json parse_f64 to_json interval is_open s w) (run_session-Waits n s w v)
        (λ u h. run_worker-Waits (suc n) m ss u (omega arith) h)
    where
      go :
          (o : Option (Worker F))
          → StillWaits (suc n) o
          → ((u : Worker F)
              → Waits (suc n) u
              → StillWaits m (run_worker from_json parse_f64 to_json interval is_open ss u))
          → StillWaits m (or_stop o (run_worker from_json parse_f64 to_json interval is_open ss))
      go none h k = tt
      go (some u) h k = k u h

  -- A worker that is still running after any sessions has waited once after each of them, and every
  -- wait was between half a second and half a minute.
  slept-run_worker :
      (capacity : ℕ) (ss : List Session) {w : Worker F}
      → run_worker from_json parse_f64 to_json interval is_open ss (start capacity) ≡ some w
      → All InRange w.slept × (length w.slept ≡ length ss)
  unfolding start
  slept-run_worker capacity ss {w} e =
      let v =
        run_worker-Waits 0 (length ss) ss (start capacity) (omega arith)
          (record { now = omega arith; past = tt; count = refl }) in
      let u : Waits (length ss) w = rw e at v in (u.past, u.count)
