-- ===== src/Router/Writer/Atomic.antt =====
-- One call of `persist_execution` of services/execution_router/src/store/writer.rs on the tables.
use btc_rust_history.Database.{Commit, finish}
use btc_rust_history.Prelude.{
  String, ◌≡◌, refl, ◌⊎◌, inl, inr, Bool, true, false, Option, none, some, if◌then◌else◌, nat_key,
  string_key, pair_key, int_key,
}
use btc_rust_history.Float.{F64}
use btc_rust_history.Oms.{OrderCommand, ExecutionReport}
use btc_rust_history.Router.Tables.{Db}
use btc_rust_history.Router.Writer.{Calls, Session}
use btc_rust_history.Router.Writer.Persist.{statements, persist_execution}
use btc_rust_history.Router.Writer.Wrote.{Wrote, statements-Wrote}

module _ {F N J : Type 0} ⦃d : F64 F⦄ (c : Calls F N J) where
  -- What a call did: nothing and an error, or the whole transaction. The last is the answer `Ok`, or an
  -- error of the commit that hides its effect.
  unfoldable pub Atomic :
      OrderCommand F → ExecutionReport F → Commit → Db N J → Db N J × Bool → Type 0
  Atomic order report answer old (new, ok) =
      (new ≡ old) × (ok ≡ false)
      ⊎ Wrote c order report old new × (answer ≡ Commit.committed) × (ok ≡ true)
      ⊎ Wrote c order report old new × (answer ≡ Commit.answer_lost) × (ok ≡ false)

  finish-Atomic :
      (order : OrderCommand F) (report : ExecutionReport F) (answer : Commit) (old : Db N J)
      (o : Option (Db N J))
      → ((new : Db N J) → o ≡ some new → Wrote c order report old new)
      → Atomic order report answer old (finish answer old o)
  unfolding Atomic finish
  finish-Atomic order report answer old none wrote = inl (refl, refl)
  finish-Atomic order report Commit.committed old (some new) wrote =
      inr (inl (wrote new refl, refl, refl))
  finish-Atomic order report Commit.rolled_back old (some new) wrote = inl (refl, refl)
  finish-Atomic order report Commit.answer_lost old (some new) wrote =
      inr (inr (wrote new refl, refl, refl))

  -- On every answer of the database, a call leaves the tables as they were and returns an error, or it
  -- writes the whole of the report: the order upserted, one row more in order_events and in
  -- order_training_events, and for a fill of a positive quantity the trade and the position. It then
  -- returns `Ok`, unless the answer to the commit was lost.
  pub persist_execution-Atomic :
      (s : Session) (order : OrderCommand F) (report : ExecutionReport F) (mode exchange : String)
      (db : Db N J)
      → Atomic order report s.commits db (persist_execution c s order report mode exchange db)
  unfolding persist_execution Atomic
  persist_execution-Atomic s order report mode exchange db =
      elim s.begins
        as (λ b. Atomic order report s.commits db (
          if b
          then finish s.commits db (statements c s order report mode exchange db)
          else (db, false))) [
            | true ↦
                finish-Atomic order report s.commits db _
                  (λ new e. statements-Wrote c order report s mode exchange db e)
            | false ↦ inl (refl, refl)
          ]
