-- ===== src/Ingest/Sequence.antt =====
-- The sequence numbers that the texts of a worker put on the ticks it publishes,
-- services/marketdata_ingestor/src/main.rs.
use btc_rust_history.Prelude.{
  ℕ, ◌+◌, ◌%◌, ◌^◌, ◌≤◌, ◌<◌, ◌≡◌, refl, ap, ◌∙◌, ◌⊎◌, inl, inr, Bool, true, false, Option, none,
  some, List, [], ◌∷◌, ◌++◌, arith, nat_key, string_key, pair_key, int_key,
}
use btc_rust_history.Float.{F64}
use btc_rust_history.Ingest.{Outcome, Wire, NormalizedEvent}
use btc_rust_history.Ingest.Normalize.{normalize}
use btc_rust_history.Ingest.Numbered.{IsNumbered, OfEvent, normalize-IsNumbered}
use btc_rust_history.Ingest.Publish.{
  Topics, Output, sending, publish_trade, publish_book, publish_orderbook, publish_open_interest,
  publish_mark_price, publish_liquidation, publish,
}
use btc_rust_history.Ingest.Handle.{Shared, Arrival, on_event, handle_text, continued, read_texts}
use mathlib.Core.Path.{subst}

-- At most one tick of each kind, with the next number.
unfoldable IsNext : ℕ → List ℕ → Type 0
IsNext n seqs = (seqs ≡ []) ⊎ (seqs ≡ n ∷ [])

-- Each number is above the one before.
unfoldable pub IsAscending : ℕ → List ℕ → Type 0
IsAscending above [] = Unit
IsAscending above (n ∷ seqs) = (above < n) × IsAscending n seqs

IsAscending-weaken :
    (low n : ℕ) (seqs : List ℕ) → low ≤ n → IsAscending n seqs → IsAscending low seqs
unfolding IsAscending
IsAscending-weaken low n [] h k = tt
IsAscending-weaken low n (m ∷ seqs) h (k, ks) = (omega arith, ks)

IsAscending-IsNext :
    (low n : ℕ) (first rest : List ℕ)
    → low < n
    → IsNext n first
    → IsAscending n rest
    → IsAscending low (first ++ rest)
unfolding IsNext IsAscending
IsAscending-IsNext low n first rest h (inl e) k =
    rw e (IsAscending-weaken low n rest (omega arith) k)
IsAscending-IsNext low n first rest h (inr e) k = rw e (h, k)

unfoldable pub prepend : Option ℕ → List ℕ → List ℕ
prepend none seqs = seqs
prepend (some n) seqs = n ∷ seqs

prepend-append : (o : Option ℕ) (xs ys : List ℕ) → prepend o (xs ++ ys) ≡ prepend o xs ++ ys
unfolding prepend
prepend-append none xs ys = refl
prepend-append (some n) xs ys = refl

module _ {F : Type 0} where
  -- The number on a trade that is sent, and on a book ticker.
  unfoldable pub trade_number : Output F → Option ℕ
  trade_number (Output.sent t k (NormalizedEvent.trade s i p q m e n r seq)) = some seq
  trade_number out = none

  unfoldable pub book_number : Output F → Option ℕ
  book_number (Output.sent t k (NormalizedEvent.book s b bq a aq e n r seq)) = some seq
  book_number out = none

  unfoldable pub numbers : (Output F → Option ℕ) → List (Output F) → List ℕ
  unfolding prepend
  numbers number [] = []
  numbers number (out ∷ rest) = prepend (number out) (numbers number rest)

  -- The numbers of the trades that were sent, and of the book tickers, in order.
  unfoldable pub trade_seqs : List (Output F) → List ℕ
  unfolding numbers trade_number
  trade_seqs outs = numbers trade_number outs

  unfoldable pub book_seqs : List (Output F) → List ℕ
  unfolding numbers book_number
  book_seqs outs = numbers book_number outs

  numbers-append :
      (number : Output F → Option ℕ) (xs ys : List (Output F))
      → numbers number (xs ++ ys) ≡ numbers number xs ++ numbers number ys
  unfolding numbers
  numbers-append number [] ys = refl
  numbers-append number (x ∷ xs) ys =
      ap (λ seqs. prepend (number x) seqs) (numbers-append number xs ys)
      ∙ prepend-append (number x) (numbers number xs) (numbers number ys)

  unfoldable IsSent : ℕ → ℕ → Outcome (List (Output F)) → Type 0
  IsSent t b (Outcome.ok outs) = IsNext t (trade_seqs outs) × IsNext b (book_seqs outs)
  IsSent t b o = Unit

module _ {F : Type 0} ⦃d : F64 F⦄ (cfg : Topics) (t b : ℕ) where
  publish-IsSent :
      (delivered : Bool) (ev : NormalizedEvent F)
      → IsNumbered t b ev
      → IsSent t b (publish cfg delivered ev)
  unfolding publish publish_trade publish_book publish_orderbook publish_open_interest
      publish_mark_price publish_liquidation sending IsNumbered IsSent IsNext trade_seqs book_seqs
  publish-IsSent false (NormalizedEvent.trade s i p q m e n r k) h = tt
  publish-IsSent false (NormalizedEvent.book s x xq a aq e n r k) h = tt
  publish-IsSent false (NormalizedEvent.order_book_l2 s bids asks e r u v) h = tt
  publish-IsSent false (NormalizedEvent.mark_price s p i x f n e r) h = tt
  publish-IsSent false (NormalizedEvent.open_interest s o e r) h = tt
  publish-IsSent false (NormalizedEvent.liquidation s x p o q e r) h = tt
  publish-IsSent true (NormalizedEvent.trade s i p q m e n r k) h = (inr cc, inl refl)
  publish-IsSent true (NormalizedEvent.book s x xq a aq e n r k) h = (inl refl, inr cc)
  publish-IsSent true (NormalizedEvent.order_book_l2 s bids asks e r u v) h = (inl refl, inl refl)
  publish-IsSent true (NormalizedEvent.mark_price s p i x f n e r) h = (inl refl, inl refl)
  publish-IsSent true (NormalizedEvent.open_interest s o e r) h = (inl refl, inl refl)
  publish-IsSent true (NormalizedEvent.liquidation s x p o q e r) h = (inl refl, inl refl)

  on_event-IsSent :
      (arrival : Arrival) (o : Outcome (Option (NormalizedEvent F))) (shared : Shared)
      → OfEvent (IsNumbered t b) o
      → IsSent t b (on_event cfg arrival o shared).1
  unfolding on_event OfEvent IsSent IsNext trade_seqs book_seqs
  on_event-IsSent arrival (Outcome.ok (some ev)) shared h = publish-IsSent arrival.delivered ev h
  on_event-IsSent arrival (Outcome.ok none) shared h = (inl refl, inl refl)
  on_event-IsSent arrival Outcome.fails shared h = tt
  on_event-IsSent arrival Outcome.panics shared h = tt

  trade_seq-on_event :
      (arrival : Arrival) (o : Outcome (Option (NormalizedEvent F))) (shared : Shared)
      → ((on_event cfg arrival o shared).0.trade_seq ≡ shared.trade_seq)
        × ((on_event cfg arrival o shared).0.book_seq ≡ shared.book_seq)
  unfolding on_event
  trade_seq-on_event arrival (Outcome.ok (some ev)) shared = (refl, refl)
  trade_seq-on_event arrival (Outcome.ok none) shared = (refl, refl)
  trade_seq-on_event arrival Outcome.fails shared = (refl, refl)
  trade_seq-on_event arrival Outcome.panics shared = (refl, refl)

-- How far the texts move a counter, those of the other workers included.
unfoldable pub trades_ahead : List Arrival → ℕ
trades_ahead [] = 0
trades_ahead (arrival ∷ rest) = arrival.other_trades + 1 + trades_ahead rest

unfoldable pub books_ahead : List Arrival → ℕ
books_ahead [] = 0
books_ahead (arrival ∷ rest) = arrival.other_books + 1 + books_ahead rest

module _ {F : Type 0} ⦃d : F64 F⦄ (t b low_t low_b : ℕ) (above_t : low_t < t)
    (above_b : low_b < b) where
  continued-IsAscending :
      (o : Outcome (List (Output F))) (next : Shared) (more : List (Output F) × Shared)
      → IsSent t b o
      → IsAscending t (trade_seqs more.0)
      → IsAscending b (book_seqs more.0)
      → IsAscending low_t (trade_seqs (continued o next more).0)
        × IsAscending low_b (book_seqs (continued o next more).0)
  unfolding continued IsSent trade_seqs book_seqs IsAscending numbers
  continued-IsAscending (Outcome.ok outs) next more (ht, hb) kt kb = (
    rw (numbers-append trade_number outs more.0)
        (IsAscending-IsNext low_t t (trade_seqs outs) (trade_seqs more.0) above_t ht kt),
    rw (numbers-append book_number outs more.0)
        (IsAscending-IsNext low_b b (book_seqs outs) (book_seqs more.0) above_b hb kb),
  )
  continued-IsAscending Outcome.fails next more h kt kb = (
    IsAscending-weaken low_t t (trade_seqs more.0) (omega arith) kt,
    IsAscending-weaken low_b b (book_seqs more.0) (omega arith) kb,
  )
  continued-IsAscending Outcome.panics next more h kt kb = (tt, tt)

module _ {F V : Type 0} ⦃d : F64 F⦄ (w : Wire F V) (cfg : Topics) where
  handle_text-IsSent :
      (arrival : Arrival) (shared : Shared)
      → shared.trade_seq + arrival.other_trades + 1 < 2 ^ 64
      → shared.book_seq + arrival.other_books + 1 < 2 ^ 64
      → IsSent
          (shared.trade_seq + arrival.other_trades + 1)
          (shared.book_seq + arrival.other_books + 1)
          (handle_text w cfg arrival shared).1
        × ((handle_text w cfg arrival shared).0.trade_seq
            ≡ shared.trade_seq + arrival.other_trades + 1)
        × ((handle_text w cfg arrival shared).0.book_seq
            ≡ shared.book_seq + arrival.other_books + 1)
  unfolding handle_text
  handle_text-IsSent arrival shared ht hb =
      let t = shared.trade_seq + arrival.other_trades + 1 in
      let b = shared.book_seq + arrival.other_books + 1 in
      let et : t % 2 ^ 64 ≡ t = omega arith in
      let eb : b % 2 ^ 64 ≡ b = omega arith in
      let o = normalize w arrival.now_ns t b arrival.text in
      let next : Shared = record { trade_seq = t; book_seq = b; stats = shared.stats } in
      rw (et, eb)
        (
          on_event-IsSent cfg t b arrival o next
              (normalize-IsNumbered w arrival.now_ns t b arrival.text),
          (trade_seq-on_event cfg t b arrival o next).0,
          (trade_seq-on_event cfg t b arrival o next).1,
        )

  -- For any texts that a worker reads on a connection, whatever they are, whatever the broker answers and
  -- however the other workers move the counters in between, as long as no counter reaches 2^64: the
  -- numbers of the trades that it published ascend strictly from above the count that it started with,
  -- and so do those of the book tickers.
  pub read_texts-IsAscending :
      (arrivals : List Arrival) (shared : Shared)
      → shared.trade_seq + trades_ahead arrivals < 2 ^ 64
      → shared.book_seq + books_ahead arrivals < 2 ^ 64
      → IsAscending shared.trade_seq (trade_seqs (read_texts w cfg arrivals shared).0)
        × IsAscending shared.book_seq (book_seqs (read_texts w cfg arrivals shared).0)
  unfolding read_texts trades_ahead books_ahead IsAscending trade_seqs book_seqs numbers
  read_texts-IsAscending [] shared ht hb = (tt, tt)
  read_texts-IsAscending (arrival ∷ rest) shared ht hb =
      let t = shared.trade_seq + arrival.other_trades + 1 in
      let b = shared.book_seq + arrival.other_books + 1 in
      let after = handle_text w cfg arrival shared in
      let step = handle_text-IsSent arrival shared (omega arith) (omega arith) in
      let et : after.0.trade_seq ≡ t = step.1 in
      let eb : after.0.book_seq ≡ b = step.2 in
      let more = read_texts-IsAscending rest after.0 (omega arith) (omega arith) in
      continued-IsAscending t b shared.trade_seq shared.book_seq (omega arith) (omega arith) after.1
        after.0 (read_texts w cfg rest after.0) step.0
        (subst (λ n. IsAscending n (trade_seqs (read_texts w cfg rest after.0).0)) et more.0)
        (subst (λ n. IsAscending n (book_seqs (read_texts w cfg rest after.0).0)) eb more.1)
