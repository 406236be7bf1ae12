-- ===== src/Candles/Dedupe/Window.antt =====
-- Which keys the dedupe cache remembers, and how many.
use btc_rust_history.Prelude.{
  ℕ, suc, ◌+◌, ◌-◌, ◌≤◌, ◌≡◌, refl, sym, ap, ◌∙◌, inl, inr, Bool, true, false, ◌||◌, not, List, [],
  ◌∷◌, ◌++◌, arith, ltb, if◌then◌else◌, Bool-cases, is_some, length, drop, exists, length-append,
  length-drop, drop_past, drop-append, drop-drop, Key, ◌==◌, nat_key, string_key, Map, lookup,
  insert, remove, lookup-insert, lookup-remove,
}
use btc_rust_history.Candles.Dedupe.{DedupeCache, new, evict, insert_if_new, run}

module _ {K : Type 0} ⦃e : Key K⦄ where
  abbrev pub mem : K → List K → Bool
  mem k = exists λ j. j == k

  -- The specification: answer `true` for a key that is not among the last `capacity` accepted ones.
  -- `accepted` has the oldest first.
  pub window : ℕ → List K → List K
  window capacity accepted = drop (length accepted - capacity) accepted

  pub answers : ℕ → List K → List K → List Bool
  answers capacity accepted [] = []
  answers capacity accepted (k ∷ ks) =
      if mem k (window capacity accepted)
      then false ∷ answers capacity accepted ks
      else true ∷ answers capacity (accepted ++ (k ∷ [])) ks

  abbrev Distinct : List K → Type 0
  Distinct [] = Unit
  Distinct (k ∷ ks) = (mem k ks ≡ false) × Distinct ks

  abbrev Agree : Map K (Unit {0}) → List K → Type 0
  Agree seen order = (k : K) → is_some (lookup k seen) ≡ mem k order

  mem-append : (j : K) (xs ys : List K) → mem j (xs ++ ys) ≡ (mem j xs || mem j ys)
  mem-append j [] ys = refl
  mem-append j (x ∷ xs) ys = ground (arith, mem-append j xs ys)

  Distinct-snoc : (xs : List K) (k : K) → Distinct xs → mem k xs ≡ false → Distinct (xs ++ (k ∷ []))
  Distinct-snoc [] k d m = (refl, tt)
  Distinct-snoc (x ∷ xs) k (h, hs) m =
      ground
        (arith, mem-append x xs (k ∷ []), Distinct-snoc xs k hs, e.same_iff k x, e.same_iff x k)

  Agree-remove :
      (k : K) (seen : Map K (Unit {0})) (order : List K)
      → mem k order ≡ false
      → Agree seen (k ∷ order)
      → Agree (remove k seen) order
  Agree-remove k seen order h a j = ground (arith, lookup-remove j k seen, a j, e.same_iff k j)

  record Evicted (capacity : ℕ) (order : List K) (r : List K × Map K (Unit {0})) : Type 0 where
    kept : r.0 ≡ window capacity order
    distinct : Distinct r.0
    agree : Agree r.1 r.0

  evict-Evicted :
      (capacity : ℕ) (order : List K) (seen : Map K (Unit {0}))
      → Distinct order
      → Agree seen order
      → Evicted capacity order (evict capacity order seen)
  unfolding evict window
  evict-Evicted capacity [] seen d a = record {
    kept = sym (drop_past (0 - capacity) [] (omega arith));
    distinct = tt;
    agree = a;
  }
  evict-Evicted capacity (k ∷ order) seen (h, hs) a =
      elim (Bool-cases (ltb capacity (length (k ∷ order)))) [
        | inl full ↦
            let rest =
              evict-Evicted capacity order (remove k seen) hs (Agree-remove k seen order h a) in
            let n : suc (length order) - capacity ≡ suc (length order - capacity) = ground arith in
            rw full (record {
              kept = rest.kept ∙ ap (λ m. drop m (k ∷ order)) (sym n);
              distinct = rest.distinct;
              agree = rest.agree;
            })
        | inr room ↦
            let n : suc (length order) - capacity ≡ 0 = ground arith in
            rw room (record {
              kept = ap (λ m. drop m (k ∷ order)) (sym n);
              distinct = (h, hs);
              agree = a;
            })
      ]

  window-snoc :
      (capacity : ℕ) (accepted : List K) (k : K)
      → window capacity (window capacity accepted ++ (k ∷ []))
        ≡ window capacity (accepted ++ (k ∷ []))
  unfolding window
  window-snoc capacity accepted k =
      let n = length accepted in
      let gone = n - capacity in
      let whole : drop gone accepted ++ (k ∷ []) ≡ drop gone (accepted ++ (k ∷ [])) =
        sym (drop-append gone accepted (k ∷ []) (omega arith)) in
      let len : length (drop gone (accepted ++ (k ∷ []))) - capacity ≡ n + 1 - capacity - gone =
        omega (arith, length-drop gone (accepted ++ (k ∷ [])), length-append accepted (k ∷ [])) in
      let all : gone + (n + 1 - capacity - gone) ≡ length (accepted ++ (k ∷ [])) - capacity =
        omega (arith, length-append accepted (k ∷ [])) in
      rw (whole, len, drop-drop (n + 1 - capacity - gone) gone (accepted ++ (k ∷ [])), all) refl

  -- The order holds the window of the accepted keys, and the map the same keys.
  pub record Remembers (capacity : ℕ) (accepted : List K) (c : DedupeCache K) : Type 0 where
    pub bound : c.capacity ≡ capacity
    pub kept : c.order ≡ window capacity accepted
    pub distinct : Distinct c.order
    pub agree : Agree c.seen c.order

  abbrev accept : Bool → List K → K → List K
  accept new accepted k = if new then accepted ++ (k ∷ []) else accepted

  Agree-insert :
      (k : K) (seen : Map K (Unit {0})) (order : List K)
      → Agree seen order
      → Agree (insert k tt seen) (order ++ (k ∷ []))
  Agree-insert k seen order a j =
      ground (arith, lookup-insert j k tt seen, mem-append j order (k ∷ []), a j)

  insert_if_new-Remembers :
      (capacity : ℕ) (accepted : List K) (c : DedupeCache K) (k : K)
      → Remembers capacity accepted c
      → let (c', new) = insert_if_new c k in
        (new ≡ not (mem k (window capacity accepted)))
        × Remembers capacity (accept new accepted k) c'
  unfolding insert_if_new
  insert_if_new-Remembers capacity accepted c k r =
      let same : is_some (lookup k c.seen) ≡ mem k (window capacity accepted) =
        rw (← r.kept) (r.agree k) in
      elim (Bool-cases (is_some (lookup k c.seen))) [
        | inl old ↦ (ground arith, rw old r)
        | inr fresh ↦
            let absent : mem k c.order ≡ false = sym (r.agree k) ∙ fresh in
            let v =
              evict-Evicted c.capacity (c.order ++ (k ∷ [])) (insert k tt c.seen)
                (Distinct-snoc c.order k r.distinct absent)
                (Agree-insert k c.seen c.order r.agree) in
            (
              ground arith,
              rw fresh (record {
                bound = r.bound;
                kept = rw (v.kept, r.kept, r.bound) (window-snoc capacity accepted k);
                distinct = v.distinct;
                agree = v.agree;
              }),
            )
      ]

  run-answers_from :
      (capacity : ℕ) (accepted : List K) (c : DedupeCache K) (keys : List K)
      → Remembers capacity accepted c
      → (run c keys).1 ≡ answers capacity accepted keys
  unfolding run answers
  run-answers_from capacity accepted c [] r = refl
  run-answers_from capacity accepted c (k ∷ keys) r =
      let (new, r') = insert_if_new-Remembers capacity accepted c k r in
      elim (Bool-cases (mem k (window capacity accepted))) [
        | inl old ↦
            let e : (insert_if_new c k).1 ≡ false = new ∙ ap not old in
            rw (e, old)
              (ap (◌∷◌ false)
                (run-answers_from capacity accepted (insert_if_new c k).0 keys (rw e at r')))
        | inr fresh ↦
            let e : (insert_if_new c k).1 ≡ true = new ∙ ap not fresh in
            rw (e, fresh)
              (ap (◌∷◌ true) (
                run-answers_from capacity (accepted ++ (k ∷ [])) (insert_if_new c k).0 keys
                  (rw e at r')))
      ]

  new-Remembers : (capacity : ℕ) → Remembers capacity [] (new capacity)
  unfolding new window lookup
  new-Remembers capacity = record {
    bound = refl;
    kept = sym (drop_past (0 - capacity) [] (omega arith));
    distinct = tt;
    agree = λ k. refl;
  }

  -- A new cache answers `true` to a key exactly when the key is not among the last `capacity` keys
  -- that it answered `true` to, over any sequence of calls.
  pub run-answers :
      (capacity : ℕ) (keys : List K) → (run (new capacity) keys).1 ≡ answers capacity [] keys
  run-answers capacity keys =
      run-answers_from capacity [] (new capacity) keys (new-Remembers capacity)

  run-Remembers :
      (capacity : ℕ) (accepted : List K) (c : DedupeCache K) (keys : List K)
      → Remembers capacity accepted c
      → let c' = (run c keys).0 in
        (length c'.order ≤ capacity) × ((k : K) → is_some (lookup k c'.seen) ≡ mem k c'.order)
  unfolding run window
  run-Remembers capacity accepted c [] r =
      (omega (arith, ap length r.kept, length-drop (length accepted - capacity) accepted), r.agree)
  run-Remembers capacity accepted c (k ∷ keys) r =
      let (_, r') = insert_if_new-Remembers capacity accepted c k r in
      run-Remembers capacity (accept (insert_if_new c k).1 accepted k) (insert_if_new c k).0 keys r'

  -- After any sequence of calls on a new cache the deque holds at most `capacity` keys, and the map
  -- has exactly the keys of the deque.
  pub run_bounded :
      (capacity : ℕ) (keys : List K)
      → let c = (run (new capacity) keys).0 in
        (length c.order ≤ capacity) × ((k : K) → is_some (lookup k c.seen) ≡ mem k c.order)
  run_bounded capacity keys = run-Remembers capacity [] (new capacity) keys (new-Remembers capacity)
