-- ===== src/Mq/Account.antt =====
-- What becomes of the messages that the consumer loop receives.
use btc_rust_history.Prelude.{
  String, ◌≡◌, refl, ap, ◌⊎◌, inl, inr, true, Option, none, some, List, [], ◌∷◌, ◌++◌, Bool-cases,
  All, nat_key, string_key, ℤ, pos, ◌+ℤ◌,
}
use btc_rust_history.Mq.Retry.{RetryPolicy, run_with_retry}
use btc_rust_history.Mq.Consumer.{
  KafkaConsumer, Delivery, Polled, recv_error, received, Effect, called, sent, committed, Flow,
  running, fatal, dead_letter, commit_offset, bury, settle, step, and_then, run,
}

module _ {B : Type 0} where
  -- The offsets that a log commits, the newest first.
  pub commits : List (Effect B) → List (String × ℤ × ℤ)
  commits [] = []
  commits (called ctx n ∷ log) = commits log
  commits (sent letter ∷ log) = commits log
  commits (committed topic partition offset ∷ log) = (topic, partition, offset) ∷ commits log

  -- One commit for each message received, of the offset after it.
  pub offsets : List (Polled B) → List (String × ℤ × ℤ) → List (String × ℤ × ℤ)
  offsets [] done = done
  offsets (recv_error ∷ ps) done = offsets ps done
  offsets (received m ∷ ps) done =
      offsets ps ((m.ctx.topic, m.ctx.partition, m.ctx.offset +ℤ pos 1) ∷ done)

  abbrev OnRun : (List (Effect B) → Type 0) → Flow B → Type 0
  OnRun P (running log) = P log
  OnRun P (fatal log) = Unit {0}

  abbrev Has : Effect B → List (Effect B) → Type 0
  Has e log = (before after : List (Effect B)) × (log ≡ before ++ (e ∷ after))

  Has-here : (e : Effect B) (log : List (Effect B)) → Has e (e ∷ log)
  Has-here e log = ([], log, refl)

  Has-there : (e x : Effect B) (log : List (Effect B)) → Has e log → Has e (x ∷ log)
  Has-there e x log (before, after, h) = (x ∷ before, after, ap (◌∷◌ x) h)

  and_then-OnRun :
      (P Q : List (Effect B) → Type 0) (o : Flow B) (k : List (Effect B) → Flow B)
      → OnRun P o
      → ((log : List (Effect B)) → P log → OnRun Q (k log))
      → OnRun Q (and_then o k)
  unfolding and_then
  and_then-OnRun P Q (running log) k p h = h log p
  and_then-OnRun P Q (fatal log) k p h = tt

  OnRun-weaken :
      (P Q : List (Effect B) → Type 0) (o : Flow B)
      → ((log : List (Effect B)) → P log → Q log)
      → OnRun P o
      → OnRun Q o
  OnRun-weaken P Q (running log) h p = h log p
  OnRun-weaken P Q (fatal log) h p = tt

  commit_offset-OnRun :
      (P : List (Effect B) → Type 0) (m : Delivery B) (log : List (Effect B))
      → P (committed m.ctx.topic m.ctx.partition (m.ctx.offset +ℤ pos 1) ∷ log)
      → OnRun P (commit_offset m log)
  unfolding commit_offset
  commit_offset-OnRun P m log p = elim (Bool-cases m.commit_ok) [ inl e ↦ rw e p | inr e ↦ rw e tt ]

module _ {B : Type 0} (empty : B) (as_bytes : String → B) where
  abbrev Commits : Delivery B → List (Effect B) → List (Effect B) → Type 0
  Commits m log log' =
      commits log' ≡ (m.ctx.topic, m.ctx.partition, m.ctx.offset +ℤ pos 1) ∷ commits log

  bury-Commits :
      (c : KafkaConsumer) (m : Delivery B) (error : String) (dlq : Option String)
      (log : List (Effect B))
      → OnRun (Commits m log) (bury empty as_bytes c m error dlq log)
  unfolding bury commits
  bury-Commits c m error none log = commit_offset-OnRun (Commits m log) m log refl
  bury-Commits c m error (some suffix) log = elim (Bool-cases m.send_ok) [
    | inl ok ↦ rw ok (commit_offset-OnRun (Commits m log) m _ refl)
    | inr lost ↦ rw lost (elim (Bool-cases c.dlq_config.halt_on_failure) [
      | inl halt ↦ rw halt tt
      | inr on ↦ rw on (commit_offset-OnRun (Commits m log) m log refl)
    ])
  ]

  settle-Commits :
      (c : KafkaConsumer) (m : Delivery B) (error : Option String) (log : List (Effect B))
      → OnRun (Commits m log) (settle empty as_bytes c m error log)
  unfolding settle commits
  settle-Commits c m none log = commit_offset-OnRun (Commits m log) m log refl
  settle-Commits c m (some error) log = bury-Commits c m error c.dlq log

  step-OnRun :
      (c : KafkaConsumer) (p : Polled B) (log : List (Effect B))
      → OnRun (λ log'. commits log' ≡ offsets (p ∷ []) (commits log)) (step empty as_bytes c p log)
  unfolding step commits offsets
  step-OnRun c recv_error log = refl
  step-OnRun c (received m) log = settle-Commits c m _ _

  offsets-cons :
      (p : Polled B) (ps : List (Polled B)) (done : List (String × ℤ × ℤ))
      → offsets (p ∷ ps) done ≡ offsets ps (offsets (p ∷ []) done)
  unfolding offsets
  offsets-cons recv_error ps done = refl
  offsets-cons (received m) ps done = refl

  run-OnRun :
      (c : KafkaConsumer) (ps : List (Polled B)) (log : List (Effect B))
      → OnRun (λ log'. commits log' ≡ offsets ps (commits log)) (run empty as_bytes c ps log)
  unfolding run offsets
  run-OnRun c [] log = refl
  run-OnRun c (p ∷ ps) log =
      and_then-OnRun _ _ (step empty as_bytes c p log) (run empty as_bytes c ps)
        (step-OnRun c p log)
        (λ log' h. rw (offsets-cons p ps (commits log), ← h) (run-OnRun c ps log'))

  -- While the loop runs, the offsets that it has committed are those after the messages that it
  -- received, each once and in the order of receipt.
  pub commits-run :
      (c : KafkaConsumer) (ps : List (Polled B)) {log : List (Effect B)}
      → run empty as_bytes c ps [] ≡ running log
      → commits log ≡ offsets ps []
  unfolding commits
  commits-run c ps e = let h = run-OnRun c ps [] in rw e at h

  abbrev Extends : List (Effect B) → List (Effect B) → Type 0
  Extends log log' = (e : Effect B) → Has e log → Has e log'

  -- A message that a handler accepted, or that is on the dead-letter topic with its last error.
  abbrev pub Fate : RetryPolicy → String → List (Effect B) → Polled B → Type 0
  Fate policy suffix log recv_error = Unit
  Fate policy suffix log (received m) =
      let result = (run_with_retry policy m.handler).error in
      (result ≡ none)
      ⊎ ((error : String) × (result ≡ some error)
          × Has (sent (dead_letter empty as_bytes suffix m.ctx error m.failed_at_ms)) log)

  Fate-Extends :
      (policy : RetryPolicy) (suffix : String) (log log' : List (Effect B)) (p : Polled B)
      → Extends log log'
      → Fate policy suffix log p
      → Fate policy suffix log' p
  Fate-Extends policy suffix log log' recv_error x f = tt
  Fate-Extends policy suffix log log' (received m) x (inl ok) = inl ok
  Fate-Extends policy suffix log log' (received m) x (inr (error, e, h)) = inr (error, e, x _ h)

  module _ (c : KafkaConsumer) (suffix : String) (dlq : c.dlq ≡ some suffix)
      (halt : c.dlq_config.halt_on_failure ≡ true) where
    settle-Fate :
        (m : Delivery B) (error : Option String) (log : List (Effect B))
        → OnRun
            (λ log'.
              Extends log log'
              × ((error ≡ none)
                  ⊎ ((e : String) × (error ≡ some e)
                      × Has
                          (sent (dead_letter empty as_bytes suffix m.ctx e m.failed_at_ms))
                          log')))
            (settle empty as_bytes c m error log)
    unfolding settle bury
    settle-Fate m none log = commit_offset-OnRun _ m log (λ e h. Has-there e _ log h, inl refl)
    settle-Fate m (some error) log = rw dlq (elim (Bool-cases m.send_ok) [
      | inl ok ↦ rw ok (
          commit_offset-OnRun _ m _ (
            λ e h. Has-there e _ _ (Has-there e _ log h),
            inr (error, refl, Has-there _ _ _ (Has-here _ log)),
          ))
      | inr lost ↦ rw (lost, halt) tt
    ])

    step-Fate :
        (p : Polled B) (log : List (Effect B))
        → OnRun
            (λ log'. Extends log log' × Fate c.retry suffix log' p)
            (step empty as_bytes c p log)
    unfolding step
    step-Fate recv_error log = (λ e h. h, tt)
    step-Fate (received m) log =
        OnRun-weaken _ _ (settle empty as_bytes c m _ _)
          (λ log' h. (λ e k. h.0 e (Has-there e _ log k), h.1))
          (settle-Fate m _ (called m.ctx (run_with_retry c.retry m.handler).calls ∷ log))

    run-Fate :
        (ps : List (Polled B)) (log : List (Effect B))
        → OnRun
            (λ log'. Extends log log' × All (Fate c.retry suffix log') ps)
            (run empty as_bytes c ps log)
    unfolding run
    run-Fate [] log = (λ e h. h, tt)
    run-Fate (p ∷ ps) log =
        and_then-OnRun _ _ (step empty as_bytes c p log) (run empty as_bytes c ps) (step-Fate p log)
          (λ log' h.
            OnRun-weaken _ _ (run empty as_bytes c ps log')
              (λ log2 k.
                (λ e i. k.0 e (h.0 e i), (Fate-Extends c.retry suffix log' log2 p k.0 h.1, k.1)))
              (run-Fate ps log'))

    -- With a DLQ attached and `halt_on_failure`, while the loop runs every message received was
    -- accepted by its handler or is on the dead-letter topic with the last error: none is lost.
    pub Fate-run :
        (ps : List (Polled B)) {log : List (Effect B)}
        → run empty as_bytes c ps [] ≡ running log
        → All (Fate c.retry suffix log) ps
    Fate-run ps {log} e =
        let h = run-Fate ps [] in
        let k : Extends [] log × All (Fate c.retry suffix log) ps = rw e at h in k.1
