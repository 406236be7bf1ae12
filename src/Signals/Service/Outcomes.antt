-- ===== src/Signals/Service/Outcomes.antt =====
-- What `persist_zscore_signal` of services/strategy_engine/signal_engine/src/main.rs leaves in the tables.
use btc_rust_history.Prelude.{
  String, ◌≡◌, refl, sym, ap, ◌∙◌, ◌⊎◌, inl, inr, Bool, true, false, Option, none, some, List, [],
  ◌∷◌, map, foldl, arith, if◌then◌else◌, nat_key, string_key, pair_key, int_key,
}
use btc_rust_history.Database.{Commit, finish, and_then, and_then-some}
use btc_rust_history.Signals.Factor.{SignalResult}
use btc_rust_history.Signals.Service.Decide.{SignalRecord}
use btc_rust_history.Signals.Service.Persist.{
  SignalRow, ContribRow, Tables, Answers, signal_row, contrib_row, insert_signal, insert_contrib,
  insert_contribs, persist_zscore_signal,
}

-- The rows put on a table in turn.
abbrev pub put_all : {A : Type 0} → List A → List A → List A
put_all rows table = foldl (λ acc row. row ∷ acc) table rows

module _ {F : Type 0} (row : SignalRow F) (rows : List (ContribRow F)) where
  -- The whole of a signal is in the tables.
  pub record Recorded (old new : Tables F) : Type 0 where
    pub signals : new.sig_zscore_signals ≡ row ∷ old.sig_zscore_signals
    pub contribs : new.sig_zscore_factor_contribs ≡ put_all rows old.sig_zscore_factor_contribs
    pub logs : new.strat_logs ≡ old.strat_logs

  -- Nothing and an error, or the whole of the signal; then `Ok`, or an error of the commit that hides
  -- its effect.
  pub AllOrNothing : Commit → Tables F → Tables F × Bool → Type 0
  AllOrNothing answer old (new, ok) =
      (new ≡ old) × (ok ≡ false)
      ⊎ Recorded old new × (answer ≡ Commit.committed) × (ok ≡ true)
      ⊎ Recorded old new × (answer ≡ Commit.answer_lost) × (ok ≡ false)

  finish-AllOrNothing :
      (answer : Commit) (old : Tables F) (o : Option (Tables F))
      → ((new : Tables F) → o ≡ some new → Recorded old new)
      → AllOrNothing answer old (finish answer old o)
  unfolding AllOrNothing finish
  finish-AllOrNothing answer old none recorded = inl (refl, refl)
  finish-AllOrNothing Commit.committed old (some new) recorded =
      inr (inl (recorded new refl, refl, refl))
  finish-AllOrNothing Commit.rolled_back old (some new) recorded = inl (refl, refl)
  finish-AllOrNothing Commit.answer_lost old (some new) recorded =
      inr (inr (recorded new refl, refl, refl))

insert_contrib-some :
    {F : Type 0} (a : Answers F) (row : ContribRow F) (old : Tables F) {new : Tables F}
    → insert_contrib a row old ≡ some new
    → record old { sig_zscore_factor_contribs = row ∷ old.sig_zscore_factor_contribs } ≡ new
unfolding insert_contrib
insert_contrib-some a row old e = ground arith

insert_contribs-some :
    {F : Type 0} (a : Answers F) (rows : List (ContribRow F)) (old : Tables F) {new : Tables F}
    → insert_contribs a rows old ≡ some new
    → (new.sig_zscore_signals ≡ old.sig_zscore_signals)
      × (new.sig_zscore_factor_contribs ≡ put_all rows old.sig_zscore_factor_contribs)
      × (new.strat_logs ≡ old.strat_logs)
unfolding insert_contribs
insert_contribs-some a [] old e = ground arith
insert_contribs-some a (row ∷ rows) old e =
    let (mid, p, q) = and_then-some _ _ e in
    let inserted = insert_contrib-some a row old p in
    let (signals, contribs, logs) = insert_contribs-some a rows mid q in
    (
      signals ∙ ap (λ (t : Tables _). t.sig_zscore_signals) (sym inserted),
      contribs ∙ ap (λ (t : Tables _). put_all rows t.sig_zscore_factor_contribs) (sym inserted),
      logs ∙ ap (λ (t : Tables _). t.strat_logs) (sym inserted),
    )

insert_signal-some :
    {F : Type 0} (a : Answers F) (row : SignalRow F) (old : Tables F) {new : Tables F}
    → insert_signal a row old ≡ some new
    → record old { sig_zscore_signals = row ∷ old.sig_zscore_signals } ≡ new
unfolding insert_signal
insert_signal-some a row old e = ground arith

statements-Recorded :
    {F : Type 0} (a : Answers F) (row : SignalRow F) (rows : List (ContribRow F)) (old : Tables F)
    {new : Tables F}
    → and_then (insert_signal a row old) (insert_contribs a rows) ≡ some new
    → Recorded row rows old new
statements-Recorded a row rows old e =
    let (mid, p, q) = and_then-some _ _ e in
    let inserted = insert_signal-some a row old p in
    let (signals, contribs, logs) = insert_contribs-some a rows mid q in
    record {
      signals = signals ∙ ap (λ (t : Tables _). t.sig_zscore_signals) (sym inserted);
      contribs =
          contribs
          ∙ ap (λ (t : Tables _). put_all rows t.sig_zscore_factor_contribs) (sym inserted);
      logs = logs ∙ ap (λ (t : Tables _). t.strat_logs) (sym inserted);
    }

-- On every answer of the database, the tables are left as they were and the call fails, or they have the
-- signal and then a row for each contribution of the report, in order, with the identifier of the signal;
-- the call then returns `Ok`, unless the answer to the commit was lost.
pub persist_zscore_signal-AllOrNothing :
    {F : Type 0} (a : Answers F) (symbol regime : String) (volatility : Option F)
    (model_version : String) (result : SignalResult F) (signal : SignalRecord F) (old : Tables F)
    → AllOrNothing
        (signal_row symbol regime volatility model_version result signal)
        (map (contrib_row symbol signal) result.contributions)
        a.commits
        old
        (persist_zscore_signal a symbol regime volatility model_version result signal old)
unfolding persist_zscore_signal AllOrNothing
persist_zscore_signal-AllOrNothing a symbol regime volatility model_version result signal old =
    let row = signal_row symbol regime volatility model_version result signal in
    let rows = map (contrib_row symbol signal) result.contributions in
    elim a.begins
      as (λ b. AllOrNothing row rows a.commits old (
        if b
        then finish a.commits old (and_then (insert_signal a row old) (insert_contribs a rows))
        else (old, false))) [
          | true ↦
              finish-AllOrNothing row rows a.commits old _
                (λ new e. statements-Recorded a row rows old e)
          | false ↦ inl (refl, refl)
        ]
