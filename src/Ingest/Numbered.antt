-- ===== src/Ingest/Numbered.antt =====
-- The sequence number of the event that `normalize` of
-- services/marketdata_ingestor/src/ws/binance.rs makes of a text.
use btc_rust_history.Prelude.{
  ℕ, String, ◌≡◌, refl, Bool, true, false, Option, none, some, List, if◌then◌else◌, nat_key,
  string_key, pair_key, int_key, ℤ,
}
use btc_rust_history.Float.{F64}
use btc_rust_history.Ingest.{Outcome, DepthData, Wire, Level, NormalizedEvent, levels, contains}
use btc_rust_history.Ingest.Normalize.{
  decoded, trade_event, book_event, depth_of, depth_event, mark_price_event, open_interest_event,
  liquidation_event, on_stream, of_combined, normalize,
}

module _ {F : Type 0} where
  -- An event with the next numbers.
  unfoldable pub IsNumbered : ℕ → ℕ → NormalizedEvent F → Type 0
  IsNumbered t b (NormalizedEvent.trade s i p q m e n r seq) = seq ≡ t
  IsNumbered t b (NormalizedEvent.book s x xq a aq e n r seq) = seq ≡ b
  IsNumbered t b ev = Unit

  unfoldable pub OfEvent :
      (NormalizedEvent F → Type 0) → Outcome (Option (NormalizedEvent F)) → Type 0
  OfEvent P (Outcome.ok (some ev)) = P ev
  OfEvent P o = Unit

  OfEvent-if :
      (P : NormalizedEvent F → Type 0) (c : Bool) (x y : Outcome (Option (NormalizedEvent F)))
      → OfEvent P x
      → OfEvent P y
      → OfEvent P (if c then x else y)
  OfEvent-if P true x y h k = h
  OfEvent-if P false x y h k = k

  OfEvent-decoded :
      {D : Type 0} (P : NormalizedEvent F → Type 0) (o : Option D)
      (event : D → Outcome (Option (NormalizedEvent F)))
      → ((payload : D) → OfEvent P (event payload))
      → OfEvent P (decoded o event)
  unfolding decoded OfEvent
  OfEvent-decoded P none event h = tt
  OfEvent-decoded P (some payload) event h = h payload

module _ {F V : Type 0} ⦃d : F64 F⦄ (w : Wire F V) (recv_time_ns : ℤ) (t b : ℕ) where
  depth_of-IsNumbered :
      (payload : DepthData) (bids asks : Outcome (List (Level F)))
      → OfEvent (IsNumbered t b) (depth_of w recv_time_ns payload bids asks)
  unfolding depth_of OfEvent IsNumbered
  depth_of-IsNumbered payload (Outcome.ok bids) (Outcome.ok asks) = tt
  depth_of-IsNumbered payload (Outcome.ok bids) Outcome.fails = tt
  depth_of-IsNumbered payload (Outcome.ok bids) Outcome.panics = tt
  depth_of-IsNumbered payload Outcome.fails asks = tt
  depth_of-IsNumbered payload Outcome.panics asks = tt

  on_stream-IsNumbered :
      (stream : String) (payload : V)
      → OfEvent (IsNumbered t b) (on_stream w recv_time_ns t b stream payload)
  unfolding on_stream OfEvent IsNumbered trade_event book_event depth_event mark_price_event
      open_interest_event liquidation_event
  on_stream-IsNumbered stream payload =
      OfEvent-if (IsNumbered t b) (contains stream "@trade") _ _
        (OfEvent-decoded (IsNumbered t b) (w.trade payload) _ (λ x. refl))
        (OfEvent-if (IsNumbered t b) (contains stream "@bookTicker") _ _
          (OfEvent-decoded (IsNumbered t b) (w.book payload) _ (λ x. refl))
          (OfEvent-if (IsNumbered t b) (contains stream "@depth") _ _
            (OfEvent-decoded (IsNumbered t b) (w.depth payload) _
              (λ x. depth_of-IsNumbered x (levels w x.b) (levels w x.a)))
            (OfEvent-if (IsNumbered t b) (contains stream "@markPrice") _ _
              (OfEvent-decoded (IsNumbered t b) (w.mark_price payload) _ (λ x. tt))
              (OfEvent-if (IsNumbered t b) (contains stream "@openInterest") _ _
                (OfEvent-decoded (IsNumbered t b) (w.open_interest payload) _ (λ x. tt))
                (OfEvent-if (IsNumbered t b) (contains stream "@forceOrder") _ _
                  (OfEvent-decoded (IsNumbered t b) (w.force_order payload) _ (λ x. tt)) tt)))))

  of_combined-IsNumbered :
      (o : Option (String × V)) → OfEvent (IsNumbered t b) (of_combined w recv_time_ns t b o)
  unfolding of_combined OfEvent
  of_combined-IsNumbered none = tt
  of_combined-IsNumbered (some (stream, payload)) = on_stream-IsNumbered stream payload

  pub normalize-IsNumbered :
      (text : String) → OfEvent (IsNumbered t b) (normalize w recv_time_ns t b text)
  unfolding normalize
  normalize-IsNumbered text = of_combined-IsNumbered (w.combined text)
