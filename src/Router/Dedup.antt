-- ===== src/Router/Dedup.antt =====
-- `DedupCache` of services/execution_router/src/oms/dedup.rs. Instants and the time to live are
-- nanoseconds.
use btc_rust_history.Prelude.{
  ℕ, ◌+◌, ◌-◌, ◌≤◌, String, ◌≡◌, refl, ◌∙◌, inl, inr, Bool, true, false, Option, none, some, List,
  [], ◌∷◌, arith, ltb, leb, if◌then◌else◌, Bool-cases, length, keep, All, ◌==◌, nat_key, string_key,
  Map, lookup, insert, lookup-insert, lookup-insert_self,
}

pub record DedupCache : Type 0 where
  pub entries : Map String ℕ
  pub ttl : ℕ

unfoldable pub new : ℕ → DedupCache
new ttl = record { entries = []; ttl = ttl }

unfoldable pub cleanup_if_needed : DedupCache → ℕ → DedupCache
cleanup_if_needed c now =
    if ltb (length c.entries) 10000
    then c
    else record c { entries = keep (λ e. leb (now - e.1) c.ttl) c.entries }

-- Whether an entry is there and not older than the time to live.
unfoldable pub is_recent : ℕ → ℕ → Option ℕ → Bool
is_recent ttl now none = false
is_recent ttl now (some ts) = leb (now - ts) ttl

-- The call after the cleanup.
unfoldable pub check_or_insert : DedupCache → String → ℕ → DedupCache × Bool
unfolding is_recent
check_or_insert c id now =
    if is_recent c.ttl now (lookup id c.entries)
    then (c, true)
    else (record c { entries = insert id now c.entries }, false)

unfoldable pub seen_recently_or_insert : DedupCache → String → ℕ → DedupCache × Bool
unfolding cleanup_if_needed check_or_insert
seen_recently_or_insert c id now = check_or_insert (cleanup_if_needed c now) id now

-- The calls for other messages in between, each with its id and its instant.
unfoldable pub run : DedupCache → List (String × ℕ) → DedupCache
run c [] = c
run c ((id, now) ∷ calls) = run (seen_recently_or_insert c id now).0 calls

lookup-keep :
    (p : String × ℕ → Bool) (id : String) (m : Map String ℕ) {ts : ℕ}
    → ((j : String) → p (j, ts) ≡ true)
    → lookup id m ≡ some ts
    → lookup id (keep p m) ≡ some ts
unfolding lookup
lookup-keep p id [] h e = e
lookup-keep p id ((j, w) ∷ m) {ts} h e = elim (Bool-cases (j == id)) [
  | inl same ↦ let k : p (j, w) ≡ true = ground (arith, h j) in rw (k, same) (ground arith)
  | inr other ↦
      let rest : lookup id (keep p m) ≡ some ts = lookup-keep p id m h (rw other at e) in
      elim (Bool-cases (p (j, w))) [ inl kept ↦ rw (kept, other) rest | inr gone ↦ rw gone rest ]
]

abbrev pub Holds : String → ℕ → ℕ → DedupCache → Type 0
Holds id ts ttl c = (lookup id c.entries ≡ some ts) × (c.ttl ≡ ttl)

cleanup-Holds :
    (c : DedupCache) (id : String) (ts ttl now : ℕ)
    → now - ts ≤ ttl
    → Holds id ts ttl c
    → Holds id ts ttl (cleanup_if_needed c now)
unfolding cleanup_if_needed
cleanup-Holds c id ts ttl now l (h, t) = elim (Bool-cases (ltb (length c.entries) 10000)) [
  | inl few ↦ rw few (h, t)
  | inr many ↦
      rw many (lookup-keep (λ e. leb (now - e.1) c.ttl) id c.entries (λ j. ground arith) h, t)
]

check-Holds :
    (c : DedupCache) (id other : String) (ts ttl now : ℕ)
    → now - ts ≤ ttl
    → Holds id ts ttl c
    → Holds id ts ttl (check_or_insert c other now).0
unfolding check_or_insert is_recent
check-Holds c id other ts ttl now l (k, t) =
    let i = lookup-insert id other now c.entries in
    elim (Bool-cases (is_recent c.ttl now (lookup other c.entries))) [
      | inl recent ↦ rw recent (k, t)
      | inr old ↦ rw old (ground (arith, i, string_key.same_iff other id, k, t, old), t)
    ]

pub seen-Holds :
    (c : DedupCache) (id other : String) (ts ttl now : ℕ)
    → now - ts ≤ ttl
    → Holds id ts ttl c
    → Holds id ts ttl (seen_recently_or_insert c other now).0
unfolding seen_recently_or_insert
seen-Holds c id other ts ttl now l h =
    check-Holds (cleanup_if_needed c now) id other ts ttl now l (cleanup-Holds c id ts ttl now l h)

abbrev Before : ℕ → List (String × ℕ) → Type 0
Before limit = All (λ call. call.1 ≤ limit)

run-Holds :
    (c : DedupCache) (calls : List (String × ℕ)) (id : String) (ts ttl : ℕ)
    → Before (ts + ttl) calls
    → Holds id ts ttl c
    → Holds id ts ttl (run c calls)
unfolding run
run-Holds c [] id ts ttl b h = h
run-Holds c ((other, now) ∷ calls) id ts ttl (b, bs) h =
    run-Holds (seen_recently_or_insert c other now).0 calls id ts ttl bs
      (seen-Holds c id other ts ttl now (omega (arith, b)) h)

check-accept :
    (c : DedupCache) (id : String) (now : ℕ)
    → (check_or_insert c id now).1 ≡ false
    → Holds id now c.ttl (check_or_insert c id now).0
unfolding check_or_insert
check-accept c id now e = elim (Bool-cases (is_recent c.ttl now (lookup id c.entries))) [
  | inl recent ↦ let no : true ≡ false = (rw recent at e) in ground arith
  | inr old ↦ rw old (lookup-insert_self id now c.entries, refl)
]

check-recent :
    (c : DedupCache) (id : String) (ts now : ℕ)
    → lookup id c.entries ≡ some ts
    → now - ts ≤ c.ttl
    → (check_or_insert c id now).1 ≡ true
unfolding check_or_insert is_recent
check-recent c id ts now e l = rw e (ground (arith, l))

cleanup-ttl : (c : DedupCache) (now : ℕ) → (cleanup_if_needed c now).ttl ≡ c.ttl
unfolding cleanup_if_needed
cleanup-ttl c now = ground arith

pub seen_recently_or_insert-Holds :
    (c : DedupCache) (id : String) (now : ℕ)
    → (seen_recently_or_insert c id now).1 ≡ false
    → Holds id now c.ttl (seen_recently_or_insert c id now).0
unfolding seen_recently_or_insert
seen_recently_or_insert-Holds c id now e =
    let (k, t) = check-accept (cleanup_if_needed c now) id now e in (k, t ∙ cleanup-ttl c now)

pub seen_again :
    (c : DedupCache) (id : String) (ts ttl now : ℕ)
    → now ≤ ts + ttl
    → Holds id ts ttl c
    → (seen_recently_or_insert c id now).1 ≡ true
unfolding seen_recently_or_insert
seen_again c id ts ttl now l h =
    let (k, t) = cleanup-Holds c id ts ttl now (omega (arith, l)) h in
    check-recent (cleanup_if_needed c now) id ts now k (omega (arith, l, t))

lookup-keep-none :
    (p : String × ℕ → Bool) (id : String) (m : Map String ℕ)
    → lookup id m ≡ none
    → lookup id (keep p m) ≡ none
unfolding lookup
lookup-keep-none p id [] e = e
lookup-keep-none p id ((j, w) ∷ m) e = elim (Bool-cases (j == id)) [
  | inl same ↦ let no : some w ≡ none = (rw same at e) in absurd (cc)
  | inr other ↦
      let rest : lookup id (keep p m) ≡ none = lookup-keep-none p id m (rw other at e) in
      elim (Bool-cases (p (j, w))) [ inl kept ↦ rw (kept, other) rest | inr gone ↦ rw gone rest ]
]

-- An id that the cache does not have, and its time to live.
abbrev pub Lacks : String → ℕ → DedupCache → Type 0
Lacks id ttl c = (lookup id c.entries ≡ none) × (c.ttl ≡ ttl)

cleanup-Lacks :
    (c : DedupCache) (id : String) (ttl now : ℕ)
    → Lacks id ttl c
    → Lacks id ttl (cleanup_if_needed c now)
unfolding cleanup_if_needed
cleanup-Lacks c id ttl now (h, t) = elim (Bool-cases (ltb (length c.entries) 10000)) [
  | inl few ↦ rw few (h, t)
  | inr many ↦ rw many (lookup-keep-none (λ e. leb (now - e.1) c.ttl) id c.entries h, t)
]

check-Lacks :
    (c : DedupCache) (id other : String) (ttl now : ℕ)
    → (other == id) ≡ false
    → Lacks id ttl c
    → Lacks id ttl (check_or_insert c other now).0
unfolding check_or_insert
check-Lacks c id other ttl now ne (h, t) =
    elim (Bool-cases (is_recent c.ttl now (lookup other c.entries))) [
      | inl recent ↦ rw recent (h, t)
      | inr old ↦ rw old ((rw (lookup-insert id other now c.entries, ne) h), t)
    ]

-- A call for another id does not add the id.
pub seen-Lacks :
    (c : DedupCache) (id other : String) (ttl now : ℕ)
    → (other == id) ≡ false
    → Lacks id ttl c
    → Lacks id ttl (seen_recently_or_insert c other now).0
unfolding seen_recently_or_insert
seen-Lacks c id other ttl now ne h =
    check-Lacks (cleanup_if_needed c now) id other ttl now ne (cleanup-Lacks c id ttl now h)

pub lets_through :
    (c : DedupCache) (id : String) (ttl now : ℕ)
    → Lacks id ttl c
    → (seen_recently_or_insert c id now).1 ≡ false
unfolding seen_recently_or_insert check_or_insert is_recent
lets_through c id ttl now h = rw (cleanup-Lacks c id ttl now h).0 refl

-- An order that the cache let through at an instant is not let through again within the time to
-- live, whatever other orders come in between and however often the cache is cleaned up.
pub seen_recently_lem :
    (c : DedupCache) (id : String) (ts later : ℕ) (calls : List (String × ℕ))
    → (seen_recently_or_insert c id ts).1 ≡ false
    → Before (ts + c.ttl) calls
    → later ≤ ts + c.ttl
    → (seen_recently_or_insert (run (seen_recently_or_insert c id ts).0 calls) id later).1 ≡ true
unfolding seen_recently_or_insert
seen_recently_lem c id ts later calls e b l =
    let h =
      run-Holds (seen_recently_or_insert c id ts).0 calls id ts c.ttl b
        (seen_recently_or_insert-Holds c id ts e) in
    let (k, t) =
      cleanup-Holds (run (seen_recently_or_insert c id ts).0 calls) id ts c.ttl later
        (omega (arith, l)) h in
    check-recent (cleanup_if_needed (run (seen_recently_or_insert c id ts).0 calls) later) id ts
      later k (omega (arith, l, t))
