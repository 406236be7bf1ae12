-- ===== src/Router/Handle/Logs.antt =====
-- What the handling of an order writes, publishes and places.
use btc_rust_history.Prelude.{
  String, ◌≡◌, refl, ap, ◌∙◌, ◌⊎◌, inl, inr, Bool, true, false, ◌&&◌, not, List, [], ◌∷◌, arith,
  if◌then◌else◌, Bool-cases, ◌==◌, nat_key, string_key, eqb_ℤ,
}
use btc_rust_history.Float.{F64}
use btc_rust_history.Oms
use btc_rust_history.Oms.{OrderCommand, ExecutionReport}
use btc_rust_history.Router.Reports.{build_reject, build_cancel, build_reports}
use btc_rust_history.Router.Handle.{
  Config, Placed, accepted, refused, World, Texts, persisted, published, placed, Log, Outcome, emit,
  and_then, emit_all, on_answer, handle_binance, handle_order,
}

module _ {F : Type 0} where
  -- The reports persisted, and those published, the newest first.
  pub persisted_of : Log F → List (ExecutionReport F)
  persisted_of [] = []
  persisted_of (persisted r ∷ log) = r ∷ persisted_of log
  persisted_of (published r ∷ log) = persisted_of log
  persisted_of (placed o ∷ log) = persisted_of log

  pub published_of : Log F → List (ExecutionReport F)
  published_of [] = []
  published_of (persisted r ∷ log) = published_of log
  published_of (published r ∷ log) = r ∷ published_of log
  published_of (placed o ∷ log) = published_of log

  unfoldable pub placed_of : Log F → List (OrderCommand F)
  placed_of [] = []
  placed_of (persisted r ∷ log) = placed_of log
  placed_of (published r ∷ log) = placed_of log
  placed_of (placed o ∷ log) = o ∷ placed_of log

  -- A log after some reports went out whole: each was written and then published; the last one, where
  -- the call failed, may be written and not published.
  pub Paired : Outcome F → Type 0
  Paired (log, true) = persisted_of log ≡ published_of log
  Paired (log, false) =
      (persisted_of log ≡ published_of log)
      ⊎ ((r : ExecutionReport F) × (persisted_of log ≡ r ∷ published_of log))

module _ {F : Type 0} ⦃d : F64 F⦄ (t : Texts) (w : World F) where
  abbrev Even : Log F → Type 0
  Even log = persisted_of log ≡ published_of log

  emit-Paired : (r : ExecutionReport F) (log : Log F) → Even log → Paired (emit t w r log)
  unfolding emit Paired persisted_of published_of
  emit-Paired r log h = elim (Bool-cases (w.persists r)) [
    | inl p ↦ rw p (elim (Bool-cases (w.publishes r)) [
      | inl q ↦ rw q (ap (◌∷◌ r) h)
      | inr q ↦ rw q (inr (r, ap (◌∷◌ r) h))
    ])
    | inr p ↦ rw p (inl h)
  ]

  and_then-Paired :
      (o : Outcome F) (k : Log F → Outcome F)
      → Paired o
      → ((log : Log F) → Even log → Paired (k log))
      → Paired (and_then t w o k)
  unfolding and_then Paired
  and_then-Paired (log, true) k h g = g log h
  and_then-Paired (log, false) k h g = h

  emit_all-Paired :
      (rs : List (ExecutionReport F)) (log : Log F) → Even log → Paired (emit_all t w rs log)
  unfolding emit_all Paired
  emit_all-Paired [] log h = h
  emit_all-Paired (r ∷ rs) log h =
      and_then-Paired (emit t w r log) (emit_all t w rs) (emit-Paired r log h) (emit_all-Paired rs)

  on_answer-Paired :
      (order : OrderCommand F) (answer : Placed) (log : Log F)
      → Even log
      → Paired (on_answer t w order answer log)
  unfolding on_answer
  on_answer-Paired order (accepted ack) log h = emit-Paired _ log h
  on_answer-Paired order (refused e) log h = emit-Paired _ log h

  if-Paired : (b : Bool) (x y : Outcome F) → Paired x → Paired y → Paired (if b then x else y)
  if-Paired true x y h k = h
  if-Paired false x y h k = k

  handle_binance-Paired :
      (order : OrderCommand F) (client : Bool) (log : Log F)
      → Even log
      → Paired (handle_binance t w order client log)
  unfolding handle_binance persisted_of published_of
  handle_binance-Paired order client log h = if-Paired (not client) _ _ (emit-Paired _ log h) (
      if-Paired _ _ _ (emit-Paired _ log h)
        (on_answer-Paired order (w.place_order order) (placed order ∷ log) h))

  handle_order-Paired :
      (cfg : Config) (client : Bool) (order : OrderCommand F) (log : Log F)
      → Even log
      → Paired (handle_order t w cfg client order log)
  unfolding handle_order
  handle_order-Paired cfg client order log h =
      if-Paired _ _ _ (if-Paired _ _ _ (emit-Paired _ log h) (emit_all-Paired _ log h)) (
        if-Paired _ _ _ (handle_binance-Paired order client log h)
          (if-Paired _ _ _ (emit-Paired _ log h) (emit-Paired _ log h)))

  -- The handling of one order from an empty log, in either mode and on every answer of the database,
  -- of Kafka and of the exchange: where it returns `Ok`, the reports written and those published are
  -- the same in the same order; where it fails, at most the last one written is not published.
  pub handle_order_persists :
      (cfg : Config) (client : Bool) (order : OrderCommand F)
      → Paired (handle_order t w cfg client order [])
  unfolding persisted_of published_of
  handle_order_persists cfg client order = handle_order-Paired cfg client order [] refl

  placed_of-emit :
      (r : ExecutionReport F) (log : Log F) → placed_of (emit t w r log).0 ≡ placed_of log
  unfolding emit placed_of
  placed_of-emit r log = ground arith

  placed_of-and_then :
      (o : Outcome F) (k : Log F → Outcome F) (os : List (OrderCommand F))
      → placed_of o.0 ≡ os
      → ((log : Log F) → placed_of log ≡ os → placed_of (k log).0 ≡ os)
      → placed_of (and_then t w o k).0 ≡ os
  unfolding and_then
  placed_of-and_then (log, true) k os h g = g log h
  placed_of-and_then (log, false) k os h g = h

  placed_of-emit_all :
      (rs : List (ExecutionReport F)) (log : Log F) (os : List (OrderCommand F))
      → placed_of log ≡ os
      → placed_of (emit_all t w rs log).0 ≡ os
  unfolding emit_all
  placed_of-emit_all [] log os h = h
  placed_of-emit_all (r ∷ rs) log os h =
      placed_of-and_then (emit t w r log) (emit_all t w rs) os (placed_of-emit r log ∙ h)
        (λ log' h'. placed_of-emit_all rs log' os h')

  placed_of-on_answer :
      (order : OrderCommand F) (answer : Placed) (log : Log F)
      → placed_of (on_answer t w order answer log).0 ≡ placed_of log
  unfolding on_answer
  placed_of-on_answer order (accepted ack) log = placed_of-emit _ log
  placed_of-on_answer order (refused e) log = placed_of-emit _ log

  branches_lem :
      (paper cancels binance client market okx : Bool) {os ps : List (OrderCommand F)}
      (a b c e f g h : Outcome F)
      → placed_of a.0 ≡ ps
      → placed_of b.0 ≡ ps
      → placed_of c.0 ≡ ps
      → placed_of e.0 ≡ ps
      → placed_of f.0 ≡ os
      → placed_of g.0 ≡ ps
      → placed_of h.0 ≡ ps
      → placed_of
          (if paper
            then (if cancels then a else b)
            else if binance
            then (if not client then c else if not market then e else f)
            else if okx
            then g
            else h).0
        ≡ (if not paper && binance && client && market then os else ps)
  branches_lem true true binance client market okx a b c e f g h ha hb hc he hf hg hh = ha
  branches_lem true false binance client market okx a b c e f g h ha hb hc he hf hg hh = hb
  branches_lem false cancels true false market okx a b c e f g h ha hb hc he hf hg hh = hc
  branches_lem false cancels true true false okx a b c e f g h ha hb hc he hf hg hh = he
  branches_lem false cancels true true true okx a b c e f g h ha hb hc he hf hg hh = hf
  branches_lem false cancels false client market true a b c e f g h ha hb hc he hf hg hh = hg
  branches_lem false cancels false client market false a b c e f g h ha hb hc he hf hg hh = hh

  -- When an order reaches the exchange.
  unfoldable pub reaches_exchange : Config → Bool → OrderCommand F → Bool
  reaches_exchange cfg client order =
      not (t.eq_ignore_ascii_case cfg.execution_mode "PAPER")
      && t.to_ascii_uppercase (t.trim cfg.exchange) == "BINANCE"
      && client
      && eqb_ℤ order.order_type Oms.OrderType.market

  pub placed_of-handle_order :
      (cfg : Config) (client : Bool) (order : OrderCommand F) (log : Log F)
      → placed_of (handle_order t w cfg client order log).0
        ≡ (if reaches_exchange cfg client order then order ∷ placed_of log else placed_of log)
  unfolding handle_order handle_binance reaches_exchange placed_of
  placed_of-handle_order cfg client order log =
      let exchange = t.to_ascii_uppercase (t.trim cfg.exchange) in
      let reports = build_reports order w.now w.now w.now in
      let reject = λ (reason : String). build_reject order reason w.now in
      let quiet = λ (r : ExecutionReport F). placed_of-emit r log in
      let sends = λ (r : ExecutionReport F). emit t w r log in
      branches_lem (t.eq_ignore_ascii_case cfg.execution_mode "PAPER")
        (eqb_ℤ order.action Oms.OrderAction.cancel) (exchange == "BINANCE") client
        (eqb_ℤ order.order_type Oms.OrderType.market) (exchange == "OKX")
        (sends (build_cancel order w.now)) (emit_all t w reports log)
        (sends (reject "BINANCE_CLIENT_NOT_CONFIGURED"))
        (sends (reject "REAL_BINANCE_ONLY_SUPPORTS_MARKET"))
        (on_answer t w order (w.place_order order) (placed order ∷ log))
        (sends (reject "OKX_NOT_IMPLEMENTED")) (sends (reject "UNSUPPORTED_EXCHANGE"))
        (quiet (build_cancel order w.now)) (placed_of-emit_all reports log (placed_of log) refl)
        (quiet (reject "BINANCE_CLIENT_NOT_CONFIGURED"))
        (quiet (reject "REAL_BINANCE_ONLY_SUPPORTS_MARKET"))
        (placed_of-on_answer order (w.place_order order) (placed order ∷ log))
        (quiet (reject "OKX_NOT_IMPLEMENTED")) (quiet (reject "UNSUPPORTED_EXCHANGE"))

  -- An order goes to the exchange, and then once, exactly where the mode is not PAPER, the exchange
  -- is BINANCE, there is a client and its type is MARKET. The action of the command plays no role: a
  -- command to cancel is placed as an order.
  pub handle_order_places :
      (cfg : Config) (client : Bool) (order : OrderCommand F)
      → placed_of (handle_order t w cfg client order []).0
        ≡ (if reaches_exchange cfg client order then order ∷ [] else [])
  unfolding placed_of
  handle_order_places cfg client order = placed_of-handle_order cfg client order []
