-- ===== src/Candles/Worker/Output.antt =====
-- What a worker puts on the pipeline, over reconnections too.
use btc_rust_history.Prelude.{
  ℕ, String, ◌≡◌, refl, sym, ap, ◌∙◌, Bool, true, false, Option, some, List, [], ◌∷◌, ◌++◌, map,
  arith, if◌then◌else◌, nat_key, string_key,
}
use btc_rust_history.Candles.Interval.{KlineInterval}
use btc_rust_history.Candles.Dedupe
use btc_rust_history.Candles.Dedupe.{CandleKey, DedupeCache, candle_key_instance}
use btc_rust_history.Candles.Dedupe.Window.{answers, run-answers}
use mathlib.Core.List.{append_assoc, append-nil}
use btc_rust_history.Candles.Parse.{
  Kline, ClosedCandleEvent, ParsedClosedCandle, Parsed, ignored, candle, failed,
  parse_closed_candle_message,
}
use btc_rust_history.Candles.Worker.{
  Incoming, text, ping, pong, binary, frame, stale, closed, read_error, Session, refused, connected,
  Worker, Flow, next, break, bail, and_then, key_of, offer, on_parsed, on_message, read_all,
  connect, disconnect, wait, end_session, run_session, run_worker, start,
}

module _ {F : Type 0} (from_json : String → Option Kline) (parse_f64 : String → Option F)
    (to_json : ClosedCandleEvent F → Option (List ℕ)) (interval : KlineInterval) where
  abbrev of_parsed : Parsed F → List (ParsedClosedCandle F)
  of_parsed (candle p) = p ∷ []
  of_parsed ignored = []
  of_parsed failed = []

  -- The candles that a session delivers: those of the texts up to the first thing that ends it.
  pub candles_in : List Incoming → List (ParsedClosedCandle F)
  candles_in [] = []
  candles_in (text s now ∷ ms) =
      of_parsed (parse_closed_candle_message from_json parse_f64 to_json s interval now)
      ++ candles_in ms
  candles_in (ping ∷ ms) = candles_in ms
  candles_in (pong ∷ ms) = candles_in ms
  candles_in (binary ∷ ms) = candles_in ms
  candles_in (frame ∷ ms) = candles_in ms
  candles_in (stale ∷ ms) = []
  candles_in (closed ∷ ms) = []
  candles_in (read_error ∷ ms) = []

  pub arrivals : List Session → List (ParsedClosedCandle F)
  arrivals [] = []
  arrivals (refused ∷ ss) = arrivals ss
  arrivals (connected ms ∷ ss) = candles_in ms ++ arrivals ss

  -- The elements at which the answer is `true`.
  abbrev pub choose : List Bool → List (ParsedClosedCandle F) → List (ParsedClosedCandle F)
  choose (b ∷ bs) (p ∷ ps) = if b then p ∷ choose bs ps else choose bs ps
  choose bs [] = []
  choose [] (p ∷ ps) = []

  abbrev keys : List (ParsedClosedCandle F) → List CandleKey
  keys = map key_of

  -- The effect of a list of candles on the cache and the channel.
  record Effect (ps : List (ParsedClosedCandle F)) (w w' : Worker F) : Type 0 where
    cached : w'.cache ≡ (Dedupe.run w.cache (keys ps)).0
    emitted : w'.sent ≡ w.sent ++ choose (Dedupe.run w.cache (keys ps)).1 ps

  abbrev after : Flow F → Worker F
  after (next w) = w
  after (break w) = w
  after (bail w) = w

  abbrev is_bail : Flow F → Bool
  is_bail (bail w) = true
  is_bail (next w) = false
  is_bail (break w) = false

  Effect-nil : (w w' : Worker F) → w'.cache ≡ w.cache → w'.sent ≡ w.sent → Effect [] w w'
  Effect-nil w w' c s = record {
    cached = unfold Dedupe.run in c;
    emitted = s ∙ sym (append-nil w.sent);
  }

  Effect-offer :
      (p : ParsedClosedCandle F) (w : Worker F) (ps : List (ParsedClosedCandle F)) (w' : Worker F)
      → Effect ps (after (offer from_json parse_f64 to_json interval true p w)) w'
      → Effect (p ∷ ps) w w'
  unfolding offer Dedupe.run
  Effect-offer p w ps w' r =
      let rest = Dedupe.run (Dedupe.insert_if_new w.cache (key_of p)).0 (keys ps) in
      let regroup = append_assoc w.sent (p ∷ []) (choose rest.1 ps) in
      record { cached = ground (arith, r.cached); emitted = ground (arith, r.emitted, regroup) }

  offer-next :
      (p : ParsedClosedCandle F) (w : Worker F)
      → let r = offer from_json parse_f64 to_json interval true p w in r ≡ next (after r)
  unfolding offer
  offer-next p w = ground arith

  abbrev Carries : (Worker F → Flow F) → List (ParsedClosedCandle F) → Type 0
  Carries f qs =
      (w w' : Worker F) (ps : List (ParsedClosedCandle F))
      → Effect ps (after (f w)) w'
      → Effect (qs ++ ps) w w'

  on_parsed-Carries :
      (f : Worker F → Flow F) (qs : List (ParsedClosedCandle F)) (q : Parsed F)
      → Carries f qs
      → Carries
          (λ w. and_then (on_parsed from_json parse_f64 to_json interval true q w) f)
          (of_parsed q ++ qs)
  unfolding on_parsed
  on_parsed-Carries f qs ignored k w w' ps r = k w w' ps r
  on_parsed-Carries f qs failed k w w' ps r =
      let done = k _ w' ps r in record { cached = done.cached; emitted = done.emitted }
  on_parsed-Carries f qs (candle p) k w w' ps r =
      let w1 = after (offer from_json parse_f64 to_json interval true p w) in
      Effect-offer p w (qs ++ ps) w' (k w1 w' ps (rw (offer-next p w) at r))

  read_all-Carries :
      (ms : List Incoming)
      → Carries (read_all from_json parse_f64 to_json interval true ms) (candles_in ms)
  unfolding read_all candles_in on_message
  read_all-Carries [] w w' ps r = r
  read_all-Carries (text s now ∷ ms) w w' ps r =
      let done =
        on_parsed-Carries (read_all from_json parse_f64 to_json interval true ms) (candles_in ms)
          (parse_closed_candle_message from_json parse_f64 to_json s interval now)
          (read_all-Carries ms)
          (record w { metrics = record w.metrics { last_ws_message_at_ms = now } }) w' ps r in
      record { cached = done.cached; emitted = done.emitted }
  read_all-Carries (ping ∷ ms) w w' ps r = read_all-Carries ms w w' ps r
  read_all-Carries (pong ∷ ms) w w' ps r = read_all-Carries ms w w' ps r
  read_all-Carries (binary ∷ ms) w w' ps r = read_all-Carries ms w w' ps r
  read_all-Carries (frame ∷ ms) w w' ps r = read_all-Carries ms w w' ps r
  read_all-Carries (stale ∷ ms) w w' ps r = r
  read_all-Carries (closed ∷ ms) w w' ps r = r
  read_all-Carries (read_error ∷ ms) w w' ps r = r

  on_message-stays :
      (f : Worker F → Flow F) (m : Incoming) (w : Worker F)
      → ((w' : Worker F) → is_bail (f w') ≡ false)
      → is_bail (and_then (on_message from_json parse_f64 to_json interval true m w) f) ≡ false
  unfolding on_message
  on_message-stays f (text s now) w h =
      on_parsed_stays (parse_closed_candle_message from_json parse_f64 to_json s interval now)
        (record w { metrics = record w.metrics { last_ws_message_at_ms = now } })
    where
      on_parsed_stays :
          (q : Parsed F) (u : Worker F)
          → is_bail (and_then (on_parsed from_json parse_f64 to_json interval true q u) f) ≡ false
      on_parsed_stays ignored u = unfold on_parsed in h u
      on_parsed_stays failed u = unfold on_parsed in h _
      on_parsed_stays (candle p) u = unfold on_parsed in rw (offer-next p u) (h _)
  on_message-stays f ping w h = h w
  on_message-stays f pong w h = h w
  on_message-stays f binary w h = h w
  on_message-stays f frame w h = h w
  on_message-stays f stale w h = refl
  on_message-stays f closed w h = refl
  on_message-stays f read_error w h = refl

  read_all-stays :
      (ms : List Incoming) (w : Worker F)
      → is_bail (read_all from_json parse_f64 to_json interval true ms w) ≡ false
  unfolding read_all
  read_all-stays [] w = refl
  read_all-stays (m ∷ ms) w =
      on_message-stays (read_all from_json parse_f64 to_json interval true ms) m w
        (read_all-stays ms)

  end_session-stays :
      (r : Flow F) → is_bail r ≡ false → end_session r ≡ some (wait (disconnect (after r)))
  unfolding end_session
  end_session-stays (next w) h = refl
  end_session-stays (break w) h = refl
  end_session-stays (bail w) h = cc

  abbrev run_open : List Session → Worker F → Option (Worker F)
  run_open = run_worker from_json parse_f64 to_json interval true

  run_worker-Effect :
      (ss : List Session) (w : Worker F)
      → (w' : Worker F) × (run_open ss w ≡ some w') × Effect (arrivals ss) w w'
  unfolding run_worker run_session arrivals connect disconnect wait
  run_worker-Effect [] w = (w, refl, Effect-nil w w refl refl)
  run_worker-Effect (refused ∷ ss) w =
      let (w', done, r) = run_worker-Effect ss (wait w) in
      (w', done, record { cached = r.cached; emitted = r.emitted })
  run_worker-Effect (connected ms ∷ ss) w =
      let flow = read_all from_json parse_f64 to_json interval true ms (connect w) in
      let ended = end_session-stays flow (read_all-stays ms (connect w)) in
      let (w', done, r) = run_worker-Effect ss (wait (disconnect (after flow))) in
      let r' =
        read_all-Carries ms (connect w) w' (arrivals ss)
          (record { cached = r.cached; emitted = r.emitted }) in
      (w', rw ended done, record { cached = r'.cached; emitted = r'.emitted })

  -- While the channel is open a worker never returns, whatever the connections do, and what it puts on
  -- the channel is the candles that arrive, in order, less those whose symbol, interval and open
  -- time are among the last `capacity` that it passed on, also before a reconnection.
  pub sent-run_worker :
      (capacity : ℕ) (ss : List Session)
      → (w : Worker F) × (run_worker from_json parse_f64 to_json interval true ss (start capacity)
          ≡ some w)
        × (w.sent ≡ choose (answers capacity [] (map key_of (arrivals ss))) (arrivals ss))
  unfolding start
  sent-run_worker capacity ss =
      let (w, done, r) = run_worker-Effect ss (start capacity) in
      (
        w,
        done,
        r.emitted
            ∙ ap (λ bs. choose bs (arrivals ss)) (run-answers capacity (map key_of (arrivals ss))),
      )
