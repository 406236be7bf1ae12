-- ===== src/Tests/Router.antt =====
-- The router on orders that pass through it.
use btc_rust_history.Prelude.{
  ◌≡◌, refl, true, false, not, [], ◌∷◌, arith, if◌then◌else◌, All, ◌==◌, nat_key, string_key,
  lookup, pos, eqb_ℤ, ℕ, List, ◌++◌,
}
use btc_rust_history.Float.Model.{Fixed, fixed_f64}
use btc_rust_history.Oms
use btc_rust_history.Oms.{OrderCommand, ExecutionReport}
use btc_rust_history.Router.Dedup
use btc_rust_history.Router.Dedup.{DedupCache, seen_recently_or_insert, seen_recently_lem}
use btc_rust_history.Router.Reports.{
  BelongsTo, IsStory, build_exchange_ack, build_reports, build_reports_lem,
}
use btc_rust_history.Router.Handle.{
  Config, accepted, World, Texts, handle_order, build_binance_client, Message, receive_all,
}
use btc_rust_history.Router.Handle.Once.{with_id, first_with, decided, placed-receive_all}
use btc_rust_history.Router.Handle.Logs.{
  Paired, placed_of, reaches_exchange, handle_order_persists, handle_order_places,
}
use btc_rust_history.Tests.Data.{market_order, cancel_order}

abbrev texts : Texts
texts = record {
  trim = λ s. s;
  to_ascii_uppercase = λ s. s;
  eq_ignore_ascii_case = λ s s'. s == s';
}

-- A world in which the database answers, Kafka does not take a fill and the exchange accepts.
abbrev world : World Fixed
world = record {
  persists = λ r. true;
  publishes = λ r. not (eqb_ℤ r.status Oms.ExecutionStatus.filled);
  place_order = λ o. accepted (record { order_id = pos 7; transact_time = pos 8 });
  now = pos 9;
}

abbrev real_config : Config
real_config = record {
  execution_mode = "REAL";
  exchange = "BINANCE";
  binance_api_key = "k";
  binance_api_secret = "s";
}

abbrev paper_config : Config
paper_config = record real_config { execution_mode = "PAPER" }

-- A command to cancel becomes an order at the exchange.
test_cancel_places :
    placed_of (handle_order texts world real_config true cancel_order []).0 ≡ cancel_order ∷ []
unfolding handle_order placed_of build_exchange_ack
test_cancel_places = refl

handle_order_places_example :
    placed_of (handle_order texts world real_config true cancel_order []).0
    ≡ (if reaches_exchange texts world real_config true cancel_order then cancel_order ∷ [] else [])
handle_order_places_example = handle_order_places texts world real_config true cancel_order

handle_order_persists_example : Paired (handle_order texts world paper_config false market_order [])
handle_order_persists_example = handle_order_persists texts world paper_config false market_order

seen_recently_example :
    (seen_recently_or_insert
      (Dedup.run (seen_recently_or_insert (Dedup.new 100) "o1" 5).0 (("o2", 6) ∷ []))
      "o1"
      90).1
    ≡ true
unfolding Dedup.new seen_recently_or_insert lookup
seen_recently_example =
    seen_recently_lem (Dedup.new 100) "o1" 5 90 (("o2", 6) ∷ []) refl (omega arith, tt)
      (omega arith)

build_reports_example :
    let rs = build_reports market_order (pos 1) (pos 2) (pos 3) in
    All (BelongsTo market_order) rs × IsStory market_order rs
build_reports_example = build_reports_lem market_order (pos 1) (pos 2) (pos 3)

-- A world in which the database does not answer, so that the handling of an order fails.
abbrev dead_world : World Fixed
dead_world = record world { persists = λ r. false }

abbrev message : OrderCommand Fixed → ℕ → World Fixed → Message Fixed
message order instant w = record { order = order; instant = instant; world = w }

-- The order of the first message comes three times.
abbrev messages : List (Message Fixed)
messages =
    message market_order 10 dead_world
    ∷ message (record market_order { client_order_id = "o2" }) 12 world
    ∷ message market_order 15 world
    ∷ message (record market_order { client_order_id = "" }) 16 world
    ∷ message market_order 100 world
    ∷ []

placed-receive_all_example :
    with_id market_order.client_order_id
      (placed_of (receive_all texts real_config messages (Dedup.new 100, [])).1)
    ≡ decided texts real_config (first_with market_order.client_order_id messages) ++ []
unfolding Dedup.new lookup with_id placed_of
placed-receive_all_example =
    placed-receive_all texts real_config market_order.client_order_id messages 10 100
      (Dedup.new 100) [] refl
      (
        (omega arith, omega arith),
        (
          (omega arith, omega arith),
          (
            (omega arith, omega arith),
            ((omega arith, omega arith), ((omega arith, omega arith), tt)),
          ),
        ),
      )
      (refl, refl)

-- It is placed once.
test_placed_once :
    decided texts real_config (first_with market_order.client_order_id messages) ≡ market_order ∷ []
unfolding decided first_with reaches_exchange build_binance_client
test_placed_once = refl
