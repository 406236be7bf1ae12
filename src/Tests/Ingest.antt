-- ===== src/Tests/Ingest.antt =====
-- The ingestor on the texts of one connection, with a decoder that knows five texts.
use btc_rust_history.Prelude.{
  ℕ, ◌*◌, String, ◌≡◌, refl, Bool, true, false, Option, none, some, List, [], ◌∷◌, map, arith,
  if◌then◌else◌, length, All, ◌==◌, nat_key, string_key, pair_key, int_key, pos,
}
use btc_rust_history.Float.Model.{Fixed, num, fixed_f64}
use btc_rust_history.Ingest.{Wire}
use btc_rust_history.Ingest.Publish.{Topics}
use btc_rust_history.Ingest.Handle.{Shared, Arrival, read_texts}
use btc_rust_history.Ingest.Sequence.{
  IsAscending, trade_seqs, book_seqs, trades_ahead, books_ahead, read_texts-IsAscending,
}
use btc_rust_history.Ingest.Subscribe.{
  streams, flatten, IsChunk, build_subscribe_messages, build_subscribe_messages-Chunks,
}

abbrev on_text : String → Option (String × String)
on_text text =
    if text == "trade"
    then some ("btcusdt@trade", "100.5")
    else if text == "book"
    then some ("btcusdt@bookTicker", "99")
    else if text == "short depth"
    then some ("btcusdt@depth20@100ms", "98")
    else if text == "aggregate"
    then some ("btcusdt@aggTrade", "97")
    else none

abbrev wire : Wire Fixed String
wire = record {
  combined = on_text;
  trade = λ v. some (record { e = 1700; s = "BTCUSDT"; t = 12; p = v; q = "2"; m = true });
  book = λ v. some (record { s = "BTCUSDT"; b = v; cap_b = "1"; a = v; cap_a = "1" });
  depth = λ v. some (record {
    e_time = 1700;
    s = "BTCUSDT";
    u_first = 1;
    u_final = 2;
    b = (v ∷ []) ∷ [];
    a = [];
  });
  mark_price = λ v. none;
  open_interest = λ v. none;
  force_order = λ v. none;
  parse_f64 = λ text. if text == "100.5" then some (num (pos 100)) else none;
}

abbrev topics : Topics
topics = record {
  kafka_topic_raw_trades = "trades";
  kafka_topic_raw_book = "book";
  kafka_topic_raw_orderbook = "orderbook";
  kafka_topic_raw_open_interest = "interest";
  kafka_topic_raw_mark_price = "mark";
  kafka_topic_raw_liquidation = "liquidation";
}

abbrev arrival : String → Bool → ℕ → Arrival
arrival text delivered others = record {
  text = text;
  now_ns = pos 1700000000;
  delivered = delivered;
  other_trades = others;
  other_books = others;
}

abbrev arrivals : List Arrival
arrivals =
    arrival "trade" true 0
    ∷ arrival "book" true 0
    ∷ arrival "trade" false 3
    ∷ arrival "aggregate" true 0
    ∷ arrival "trade" true 0
    ∷ arrival "short depth" true 0
    ∷ arrival "trade" true 0
    ∷ []

abbrev shared : Shared
shared = record { trade_seq = 7; book_seq = 20; stats = [] }

-- A failed send and the texts of other kinds leave gaps, and after the short depth entry the worker reads no
-- more.
trade_seqs_of_run : trade_seqs (read_texts wire topics arrivals shared).0 ≡ 8 ∷ 15 ∷ []
unfolding trade_seqs read_texts
trade_seqs_of_run = refl

read_texts-IsAscending_example :
    IsAscending 7 (trade_seqs (read_texts wire topics arrivals shared).0)
    × IsAscending 20 (book_seqs (read_texts wire topics arrivals shared).0)
unfolding trades_ahead books_ahead
read_texts-IsAscending_example =
    read_texts-IsAscending wire topics arrivals shared (omega arith) (omega arith)

abbrev symbols : List String
symbols = "a" ∷ "b" ∷ "c" ∷ "d" ∷ "e" ∷ "f" ∷ "g" ∷ "h" ∷ "i" ∷ []

build_subscribe_messages-Chunks_example :
    (chunked : List (List String)) × (build_subscribe_messages
        (λ s. s)
        20
        (λ params. "request")
        symbols
      ≡ map (λ params. "request") chunked)
    × (flatten chunked ≡ streams (λ s. s) 20 symbols)
    × All (IsChunk 50) chunked
    × (length (flatten chunked) ≡ 6 * length symbols)
build_subscribe_messages-Chunks_example =
    build_subscribe_messages-Chunks (λ s. s) 20 (λ params. "request") symbols

messages_of_symbols :
    build_subscribe_messages (λ s. s) 20 (λ params. "request") symbols ≡ "request" ∷ "request" ∷ []
unfolding build_subscribe_messages
messages_of_symbols = refl
