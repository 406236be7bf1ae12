-- ===== src/Router/Handle/Once.antt =====
-- Orders that the loop of services/execution_router/src/main.rs receives more than once.
use mathlib.Core.Path.{subst}
use btc_rust_history.Prelude.{
  ℕ, ◌+◌, ◌≤◌, String, ◌≡◌, refl, sym, ap, ◌∙◌, inl, inr, true, false, Option, none, some, List, [],
  ◌∷◌, ◌++◌, arith, if◌then◌else◌, Bool-cases, keep, All, ◌==◌, nat_key, string_key, pair_key,
  int_key,
}
use btc_rust_history.Float.{F64}
use btc_rust_history.Oms.{OrderCommand}
use btc_rust_history.Router.Dedup.{
  DedupCache, seen_recently_or_insert, Holds, Lacks, seen-Holds, seen_recently_or_insert-Holds,
  seen_again, seen-Lacks, lets_through,
}
use btc_rust_history.Router.Handle.{
  Config, Texts, Log, build_binance_client, handle_order, receive, Message, receive_all,
}
use btc_rust_history.Router.Handle.Logs.{placed_of, reaches_exchange, placed_of-handle_order}

module _ {F : Type 0} where
  -- The orders with an id.
  unfoldable pub with_id : String → List (OrderCommand F) → List (OrderCommand F)
  with_id id orders = keep (λ o. o.client_order_id == id) orders

  -- The first message with an id.
  unfoldable pub first_with : String → List (Message F) → Option (Message F)
  first_with id [] = none
  first_with id (m ∷ ms) = if m.order.client_order_id == id then some m else first_with id ms

  abbrev OnTime : ℕ → List (Message F) → Type 0
  OnTime limit = All (λ m. m.instant ≤ limit)

  -- The instants of the messages stay within the time to live of the earliest.
  abbrev pub Within : ℕ → ℕ → List (Message F) → Type 0
  Within start ttl = All (λ m. (start ≤ m.instant) × (m.instant ≤ start + ttl))

  Within-OnTime :
      (ms : List (Message F)) (start ttl now : ℕ)
      → start ≤ now
      → Within start ttl ms
      → OnTime (now + ttl) ms
  Within-OnTime [] start ttl now l h = tt
  Within-OnTime (m ∷ ms) start ttl now l ((low, high), hs) =
      (omega (arith, l, high), Within-OnTime ms start ttl now l hs)

module _ {F : Type 0} ⦃d : F64 F⦄ (t : Texts) (cfg : Config) where
  -- What the first message with the id puts on the exchange.
  unfoldable pub decided : Option (Message F) → List (OrderCommand F)
  decided none = []
  decided (some m) =
      if reaches_exchange t m.world cfg (build_binance_client t cfg) m.order
      then m.order ∷ []
      else []

module _ {F : Type 0} ⦃d : F64 F⦄ (t : Texts) (cfg : Config) (id : String) where
  handled_other :
      (m : Message F) (log : Log F)
      → (m.order.client_order_id == id) ≡ false
      → with_id id
          (placed_of (handle_order t m.world cfg (build_binance_client t cfg) m.order log).0)
        ≡ with_id id (placed_of log)
  unfolding with_id
  handled_other m log other =
      rw (placed_of-handle_order t m.world cfg (build_binance_client t cfg) m.order log)
        (elim (Bool-cases (reaches_exchange t m.world cfg (build_binance_client t cfg) m.order)) [
          | inl goes ↦ rw (goes, other) refl
          | inr stays ↦ rw stays refl
        ])

  handled_own :
      (m : Message F) (log : Log F)
      → (m.order.client_order_id == id) ≡ true
      → with_id id
          (placed_of (handle_order t m.world cfg (build_binance_client t cfg) m.order log).0)
        ≡ decided t cfg (some m) ++ with_id id (placed_of log)
  unfolding with_id decided
  handled_own m log same =
      rw (placed_of-handle_order t m.world cfg (build_binance_client t cfg) m.order log)
        (elim (Bool-cases (reaches_exchange t m.world cfg (build_binance_client t cfg) m.order)) [
          | inl goes ↦ rw (goes, same) refl
          | inr stays ↦ rw stays refl
        ])

  -- A message while the cache remembers the id.
  receive-Holds :
      (m : Message F) (ts ttl : ℕ) (cache : DedupCache) (log : Log F)
      → m.instant ≤ ts + ttl
      → Holds id ts ttl cache
      → let s = receive t m.world cfg m.order m.instant (cache, log) in
        Holds id ts ttl s.0 × (with_id id (placed_of s.1) ≡ with_id id (placed_of log))
  unfolding receive
  receive-Holds m ts ttl cache log l h = elim (Bool-cases (m.order.client_order_id == "")) [
    | inl empty ↦ rw empty (h, refl)
    | inr given ↦
        let k = seen-Holds cache id m.order.client_order_id ts ttl m.instant (omega (arith, l)) h in
        elim (Bool-cases (seen_recently_or_insert cache m.order.client_order_id m.instant).1) [
          | inl seen ↦ rw (given, seen) (k, refl)
          | inr new ↦ rw (given, new) (k, handled_other m log (is_other new))
        ]
  ]
    where
      is_other :
          (seen_recently_or_insert cache m.order.client_order_id m.instant).1 ≡ false
          → (m.order.client_order_id == id) ≡ false
      is_other new = elim (Bool-cases (m.order.client_order_id == id)) [
        | inl same ↦
            let e = (string_key.same_iff m.order.client_order_id id).0 same in
            let again = seen_again cache id ts ttl m.instant l h in
            let again' : (seen_recently_or_insert cache m.order.client_order_id m.instant).1
                ≡ true =
              subst (λ i. (seen_recently_or_insert cache i m.instant).1 ≡ true) (sym e) again in
            absurd (cc)
        | inr other ↦ other
      ]

  receive_all-Holds :
      (ms : List (Message F)) (ts ttl : ℕ) (cache : DedupCache) (log : Log F)
      → OnTime (ts + ttl) ms
      → Holds id ts ttl cache
      → with_id id (placed_of (receive_all t cfg ms (cache, log)).1) ≡ with_id id (placed_of log)
  unfolding receive_all
  receive_all-Holds [] ts ttl cache log l h = refl
  receive_all-Holds (m ∷ ms) ts ttl cache log (l, ls) h =
      let s = receive t m.world cfg m.order m.instant (cache, log) in
      let (k, e) = receive-Holds m ts ttl cache log l h in
      receive_all-Holds ms ts ttl s.0 s.1 ls k ∙ e

  -- A message with the id, where the cache lacks it.
  receive-own :
      (m : Message F) (ttl : ℕ) (cache : DedupCache) (log : Log F)
      → (id == "") ≡ false
      → (m.order.client_order_id == id) ≡ true
      → Lacks id ttl cache
      → let s = receive t m.world cfg m.order m.instant (cache, log) in
        Holds id m.instant ttl s.0
        × (with_id id (placed_of s.1) ≡ decided t cfg (some m) ++ with_id id (placed_of log))
  unfolding receive
  receive-own m ttl cache log given same h =
      let e = sym ((string_key.same_iff m.order.client_order_id id).0 same) in
      let new = lets_through cache id ttl m.instant h in
      let held : Holds id m.instant ttl (seen_recently_or_insert cache id m.instant).0 =
        subst (λ n. Holds id m.instant n (seen_recently_or_insert cache id m.instant).0) h.1
          (seen_recently_or_insert-Holds cache id m.instant new) in
      let given' : (m.order.client_order_id == "") ≡ false =
        subst (λ i. (i == "") ≡ false) e given in
      let new' : (seen_recently_or_insert cache m.order.client_order_id m.instant).1 ≡ false =
        subst (λ i. (seen_recently_or_insert cache i m.instant).1 ≡ false) e new in
      rw (given', new')
        (
          subst (λ i. Holds id m.instant ttl (seen_recently_or_insert cache i m.instant).0) e held,
          handled_own m log same,
        )

  -- A message with another id leaves the id alone.
  receive-other :
      (m : Message F) (ttl : ℕ) (cache : DedupCache) (log : Log F)
      → (m.order.client_order_id == id) ≡ false
      → Lacks id ttl cache
      → let s = receive t m.world cfg m.order m.instant (cache, log) in
        Lacks id ttl s.0 × (with_id id (placed_of s.1) ≡ with_id id (placed_of log))
  unfolding receive
  receive-other m ttl cache log other h = elim (Bool-cases (m.order.client_order_id == "")) [
    | inl empty ↦ rw empty (h, refl)
    | inr given ↦
        let k = seen-Lacks cache id m.order.client_order_id ttl m.instant other h in
        elim (Bool-cases (seen_recently_or_insert cache m.order.client_order_id m.instant).1) [
          | inl seen ↦ rw (given, seen) (k, refl)
          | inr new ↦ rw (given, new) (k, handled_other m log other)
        ]
  ]

  -- Over any messages whose instants lie within the time to live of the earliest, from a cache that
  -- lacks a non-empty id, and whatever the database, Kafka and the exchange answer to each: the orders
  -- with the id that were put on the exchange are those before and, where the first message with the id
  -- reaches the exchange, its order once. No later message with the id places anything, even where the
  -- handling of the first failed.
  pub placed-receive_all :
      (ms : List (Message F)) (start ttl : ℕ) (cache : DedupCache) (log : Log F)
      → (id == "") ≡ false
      → Within start ttl ms
      → Lacks id ttl cache
      → with_id id (placed_of (receive_all t cfg ms (cache, log)).1)
        ≡ decided t cfg (first_with id ms) ++ with_id id (placed_of log)
  unfolding receive_all first_with decided
  placed-receive_all [] start ttl cache log given l h = refl
  placed-receive_all (m ∷ ms) start ttl cache log given ((low, high), ls) h =
      let s = receive t m.world cfg m.order m.instant (cache, log) in
      elim (Bool-cases (m.order.client_order_id == id)) [
        | inl same ↦
            let (held, once) = receive-own m ttl cache log given same h in
            rw same (
              receive_all-Holds ms m.instant ttl s.0 s.1
                (Within-OnTime ms start ttl m.instant low ls) held
              ∙ once)
        | inr other ↦
            let (lacks, kept) = receive-other m ttl cache log other h in
            rw other (
              placed-receive_all ms start ttl s.0 s.1 given ls lacks
              ∙ ap (λ os. decided t cfg (first_with id ms) ++ os) kept)
      ]
