-- ===== src/Ingest/Subscribe.antt =====
-- `build_subscribe_messages` of services/marketdata_ingestor/src/ws/binance.rs: the streams of the
-- symbols, in requests of 50 at most. The JSON of a request and `to_lowercase` are parameters.
use btc_rust_history.Prelude.{
  ℕ, zero, suc, ◌*◌, ◌≤◌, String, ◌≡◌, refl, ap, ◌∙◌, List, [], ◌∷◌, ◌++◌, map, arith, length, drop,
  take, All, length-drop, length-take, nat_key, string_key, pair_key, int_key, cat, show_ℕ,
}

-- `[T]::chunks`, with as much fuel as the list is long.
unfoldable pub chunks_from {ℓ} : {A : Type ℓ} → ℕ → ℕ → List A → List (List A)
chunks_from size fuel [] = []
chunks_from size zero (x ∷ xs) = []
chunks_from size (suc fuel) (x ∷ xs) =
    take size (x ∷ xs) ∷ chunks_from size fuel (drop size (x ∷ xs))

unfoldable pub chunks {ℓ} : {A : Type ℓ} → ℕ → List A → List (List A)
unfolding chunks_from
chunks size xs = chunks_from size (length xs) xs

module _ (to_lowercase : String → String) (order_book_depth : ℕ) where
  unfoldable pub streams_of : String → List String
  streams_of s =
      let ss = to_lowercase s in
      (cat ss "@trade"
        ∷ cat ss "@bookTicker"
        ∷ cat ss (cat "@depth" (cat (show_ℕ order_book_depth) "@100ms"))
        ∷ cat ss "@markPrice@1s"
        ∷ cat ss "@openInterest"
        ∷ cat ss "@forceOrder"
        ∷ [])

  unfoldable pub streams : List String → List String
  unfolding streams_of
  streams [] = []
  streams (s ∷ symbols) = streams_of s ++ streams symbols

  -- `request` is the text of the JSON object with the streams of a chunk as its `params`.
  unfoldable pub build_subscribe_messages : (List String → String) → List String → List String
  unfolding streams chunks
  build_subscribe_messages request symbols = map request (chunks 50 (streams symbols))

unfoldable pub flatten {ℓ} : {A : Type ℓ} → List (List A) → List A
flatten [] = []
flatten (xs ∷ rest) = xs ++ flatten rest

module _ {A : Type 0} where
  take-drop : (n : ℕ) (xs : List A) → take n xs ++ drop n xs ≡ xs
  take-drop zero xs = refl
  take-drop (suc n) [] = refl
  take-drop (suc n) (x ∷ xs) = ap (λ ys. x ∷ ys) (take-drop n xs)

  flatten-chunks_from :
      (n fuel : ℕ) (xs : List A) → length xs ≤ fuel → flatten (chunks_from (suc n) fuel xs) ≡ xs
  unfolding flatten chunks_from
  flatten-chunks_from n fuel [] h = refl
  flatten-chunks_from n zero (x ∷ xs) h = absurd (omega arith)
  flatten-chunks_from n (suc fuel) (x ∷ xs) h =
      ap (λ ys. (x ∷ take n xs) ++ ys)
        (flatten-chunks_from n fuel (drop n xs) (omega (arith, length-drop n xs)))
      ∙ ap (λ ys. x ∷ ys) (take-drop n xs)

  pub IsChunk : ℕ → List A → Type 0
  IsChunk size chunk = (1 ≤ length chunk) × (length chunk ≤ size)

  chunks_from-All : (n fuel : ℕ) (xs : List A) → All (IsChunk (suc n)) (chunks_from (suc n) fuel xs)
  unfolding chunks_from IsChunk
  chunks_from-All n fuel [] = tt
  chunks_from-All n zero (x ∷ xs) = tt
  chunks_from-All n (suc fuel) (x ∷ xs) =
      ((omega arith, omega (arith, length-take n xs)), chunks_from-All n fuel (drop n xs))

length-streams :
    (to_lowercase : String → String) (depth : ℕ) (symbols : List String)
    → length (streams to_lowercase depth symbols) ≡ 6 * length symbols
unfolding streams streams_of
length-streams to_lowercase depth [] = omega arith
length-streams to_lowercase depth (s ∷ symbols) =
    omega (arith, length-streams to_lowercase depth symbols)

-- The requests that a worker sends, for any symbols and depth, are the JSON texts of lists of streams,
-- each with at least one and at most 50 of them, which together are the six streams of each symbol, in
-- order, none lost and none repeated.
pub build_subscribe_messages-Chunks :
    (to_lowercase : String → String) (depth : ℕ) (request : List String → String)
    (symbols : List String)
    → (chunked : List (List String)) × (build_subscribe_messages to_lowercase depth request symbols
        ≡ map request chunked)
      × (flatten chunked ≡ streams to_lowercase depth symbols)
      × All (IsChunk 50) chunked
      × (length (flatten chunked) ≡ 6 * length symbols)
unfolding build_subscribe_messages chunks
build_subscribe_messages-Chunks to_lowercase depth request symbols =
    let xs = streams to_lowercase depth symbols in
    let e = flatten-chunks_from 49 (length xs) xs (omega arith) in
    (
      chunks 50 xs,
      refl,
      e,
      chunks_from-All 49 (length xs) xs,
      ap length e ∙ length-streams to_lowercase depth symbols,
    )
