-- ===== src/Candles/Sink/Delivery.antt =====
-- What the sink delivers to ClickHouse and to Kafka, and in which order.
use btc_rust_history.Prelude.{
  ℕ, ◌+◌, ◌≡◌, refl, sym, ap, ◌∙◌, inl, inr, Bool, true, false, not, List, [], ◌∷◌, ◌++◌, leb,
  if◌then◌else◌, Bool-cases, length, is_empty, nat_key, string_key,
}
use mathlib.Core.List.{append_assoc, append-nil}
use btc_rust_history.Candles.Parse.{ParsedClosedCandle}
use btc_rust_history.Candles.Sink.{
  SinkConfig, Sink, Env, Result, ok, err, Pick, item, channel_closed, tick, refresh_readiness,
  send_all, finish_flush, flush_batch, and_then, on_pick, sink_loop,
}

module _ {F : Type 0} where
  -- `messages` is a prefix of what was written to the table, and the batch is what is in neither.
  pub record Delivers (items : List (ParsedClosedCandle F)) (s : Sink F) : Type 0 where
    pub rows : s.rows ++ s.batch ≡ items
    pub messages : s.messages ≡ s.rows

  -- After an error the table may be ahead of the topic by a part of one batch.
  pub record Stopped (items : List (ParsedClosedCandle F)) (s : Sink F) : Type 0 where
    pub unsent : List (ParsedClosedCandle F)
    pub rows : s.messages ++ unsent ≡ s.rows
    pub unwritten : List (ParsedClosedCandle F)
    pub all : s.rows ++ unwritten ≡ items

  abbrev pub After : List (ParsedClosedCandle F) → Result F → Type 0
  After items (ok s) = Delivers items s
  After items (err s) = Stopped items s

  -- `send_all` has sent a prefix of its list, all of it if it succeeds.
  abbrev Sends : List (ParsedClosedCandle F) → Sink F → Result F → Type 0
  Sends ps s (ok t) = (t.messages ≡ s.messages ++ ps) × (t.rows ≡ s.rows)
  Sends ps s (err t) =
      (rest : List (ParsedClosedCandle F)) × (t.messages ++ rest ≡ s.messages ++ ps)
      × (t.rows ≡ s.rows)
      × (t.batch ≡ s.batch)

  Sends-cons :
      (p : ParsedClosedCandle F) (ps : List (ParsedClosedCandle F)) (s u : Sink F) (r : Result F)
      → u.messages ≡ s.messages ++ (p ∷ [])
      → u.rows ≡ s.rows
      → u.batch ≡ s.batch
      → Sends ps u r
      → Sends (p ∷ ps) s r
  Sends-cons p ps s u (ok t) m r b (x, y) =
      (x ∙ ap (λ l. l ++ ps) m ∙ append_assoc s.messages (p ∷ []) ps, y ∙ r)
  Sends-cons p ps s u (err t) m r b (rest, x, y, z) =
      (rest, x ∙ ap (λ l. l ++ ps) m ∙ append_assoc s.messages (p ∷ []) ps, y ∙ r, z ∙ b)

  send_all-Sends :
      (env : Env F) (n : ℕ) (ps : List (ParsedClosedCandle F)) (s : Sink F)
      → Sends ps s (send_all env n ps s)
  unfolding send_all
  send_all-Sends env n [] s = (sym (append-nil s.messages), refl)
  send_all-Sends env n (p ∷ ps) s =
      let u = record s {
        messages = s.messages ++ (p ∷ []);
        metrics = record s.metrics { last_kafka_success_at_ms = env.clock n };
      } in
      let rest = send_all-Sends env (n + 1) ps u in
      elim (Bool-cases (env.kafka p)) [
        | inl sent ↦ rw sent (Sends-cons p ps s u (send_all env (n + 1) ps u) refl refl refl rest)
        | inr lost ↦ rw lost (p ∷ ps, refl, refl, refl)
      ]

  finish_flush-After :
      (cfg : SinkConfig) (env : Env F) (n : ℕ) (items : List (ParsedClosedCandle F)) (s w : Sink F)
      (r : Result F)
      → Delivers items s
      → w.rows ≡ s.rows ++ s.batch
      → w.messages ≡ s.messages
      → Sends s.batch w r
      → After items (finish_flush cfg env n r)
  unfolding finish_flush refresh_readiness
  finish_flush-After cfg env n items s w (ok t) v wr wm (x, y) = record {
    rows = append-nil t.rows ∙ y ∙ wr ∙ v.rows;
    messages = x ∙ ap (λ l. l ++ s.batch) (wm ∙ v.messages) ∙ sym wr ∙ sym y;
  }
  finish_flush-After cfg env n items s w (err t) v wr wm (rest, x, y, z) = record {
    unsent = rest;
    rows = x ∙ ap (λ l. l ++ s.batch) (wm ∙ v.messages) ∙ sym wr ∙ sym y;
    unwritten = [];
    all = append-nil t.rows ∙ y ∙ wr ∙ v.rows;
  }

  flush_batch-After :
      (cfg : SinkConfig) (env : Env F) (items : List (ParsedClosedCandle F)) (s : Sink F)
      → Delivers items s
      → After items (flush_batch cfg env s)
  unfolding flush_batch
  flush_batch-After cfg env items s v =
      let w = record s {
        rows = s.rows ++ s.batch;
        metrics = record s.metrics { last_ch_success_at_ms = env.clock 0 };
      } in
      let sent =
        finish_flush-After cfg env (length s.batch + 1) items s w (send_all env 1 s.batch w) v refl
          refl (send_all-Sends env 1 s.batch w) in
      elim (Bool-cases (is_empty s.batch)) [
        | inl none_left ↦ rw none_left v
        | inr some_left ↦ elim (Bool-cases (env.clickhouse s.batch)) [
          | inl taken ↦ rw (some_left, taken) sent
          | inr refused ↦
              rw (some_left, refused)
                (record {
                  unsent = [];
                  rows = append-nil s.messages ∙ v.messages;
                  unwritten = s.batch;
                  all = v.rows;
                })
        ]
      ]

  -- The items that are picked up to the end of the channel.
  abbrev pub picked : List (Env F × Pick F) → List (ParsedClosedCandle F)
  picked [] = []
  picked ((env, item p) ∷ es) = p ∷ picked es
  picked ((env, tick) ∷ es) = picked es
  picked ((env, channel_closed) ∷ es) = []

  maybe_flush-After :
      (cfg : SinkConfig) (env : Env F) (items : List (ParsedClosedCandle F)) (s : Sink F) (b : Bool)
      → Delivers items s
      → After items (if b then flush_batch cfg env s else ok s)
  maybe_flush-After cfg env items s true v = flush_batch-After cfg env items s v
  maybe_flush-After cfg env items s false v = v

  push-Delivers :
      (items : List (ParsedClosedCandle F)) (s : Sink F) (p : ParsedClosedCandle F)
      → Delivers items s
      → Delivers (items ++ (p ∷ [])) (record s { batch = s.batch ++ (p ∷ []) })
  push-Delivers items s p v = record {
    rows = sym (append_assoc s.rows s.batch (p ∷ [])) ∙ ap (λ l. l ++ (p ∷ [])) v.rows;
    messages = v.messages;
  }

  Stopped-more :
      (items more : List (ParsedClosedCandle F)) (s : Sink F)
      → Stopped items s
      → Stopped (items ++ more) s
  Stopped-more items more s v = record {
    unsent = v.unsent;
    rows = v.rows;
    unwritten = v.unwritten ++ more;
    all = sym (append_assoc s.rows v.unwritten more) ∙ ap (λ l. l ++ more) v.all;
  }

  and_then-After :
      (items more : List (ParsedClosedCandle F)) (r : Result F) (f : Sink F → Result F)
      → After items r
      → ((t : Sink F) → Delivers items t → After (items ++ more) (f t))
      → After (items ++ more) (and_then r f)
  and_then-After items more (ok t) f v h = h t v
  and_then-After items more (err t) f v h = Stopped-more items more t v

  on_tick-After :
      (cfg : SinkConfig) (env : Env F) (items : List (ParsedClosedCandle F)) (s : Sink F)
      → Delivers items s
      → After items (on_pick cfg env tick s)
  unfolding on_pick refresh_readiness
  on_tick-After cfg env items s v =
      by_result (if not (is_empty s.batch) then flush_batch cfg env s else ok s)
        (maybe_flush-After cfg env items s (not (is_empty s.batch)) v)
    where
      by_result :
          (r : Result F)
          → After items r
          → After items (
              and_then r λ t. ok (
                refresh_readiness cfg.candle_ws_stale_timeout_ms
                  (env.clock (length s.batch + 2))
                  t))
      by_result (ok t) h = record { rows = h.rows; messages = h.messages }
      by_result (err t) h = h

  on_item-After :
      (cfg : SinkConfig) (env : Env F) (items : List (ParsedClosedCandle F)) (s : Sink F)
      (p : ParsedClosedCandle F)
      → Delivers items s
      → After (items ++ (p ∷ [])) (on_pick cfg env (item p) s)
  unfolding on_pick
  on_item-After cfg env items s p v =
      let s' = record s { batch = s.batch ++ (p ∷ []) } in
      maybe_flush-After cfg env (items ++ (p ∷ [])) s'
        (leb cfg.candle_ch_batch_size (length s'.batch)) (push-Delivers items s p v)

  sink_loop-After :
      (cfg : SinkConfig) (es : List (Env F × Pick F)) (items : List (ParsedClosedCandle F))
      (s : Sink F)
      → Delivers items s
      → After (items ++ picked es) (sink_loop cfg es s)
  unfolding sink_loop
  sink_loop-After cfg [] items s v = rw (append-nil items) v
  sink_loop-After cfg ((env, item p) ∷ es) items s v =
      rw (← append_assoc items (p ∷ []) (picked es)) (
        and_then-After (items ++ (p ∷ [])) (picked es) (on_pick cfg env (item p) s)
          (sink_loop cfg es) (on_item-After cfg env items s p v)
          λ t h. sink_loop-After cfg es (items ++ (p ∷ [])) t h)
  sink_loop-After cfg ((env, tick) ∷ es) items s v =
      and_then-After items (picked es) (on_pick cfg env tick s) (sink_loop cfg es)
        (on_tick-After cfg env items s v) λ t h. sink_loop-After cfg es items t h
  sink_loop-After cfg ((env, channel_closed) ∷ es) items s v =
      rw (append-nil items)
        (unfold on_pick in maybe_flush-After cfg env items s (not (is_empty s.batch)) v)

  -- From an empty sink, whatever is picked and whatever the stores do: while the loop has no error,
  -- the rows are the picked items less the batch, in order, and the messages are the rows. After
  -- an error the messages are a prefix of the rows and the rows a prefix of the items, so nothing
  -- is out of order, invented or sent without having been written.
  pub sink_loop-Delivers :
      (cfg : SinkConfig) (es : List (Env F × Pick F)) (s : Sink F)
      → s.batch ≡ []
      → s.rows ≡ []
      → s.messages ≡ []
      → After (picked es) (sink_loop cfg es s)
  sink_loop-Delivers cfg es s b r m =
      sink_loop-After cfg es [] s (record { rows = rw (r, b); messages = m ∙ sym r })
