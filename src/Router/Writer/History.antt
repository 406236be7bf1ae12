-- ===== src/Router/Writer/History.antt =====
-- Sequences of calls of `persist_execution` of services/execution_router/src/store/writer.rs.
use btc_rust_history.Database.{Commit}
use btc_rust_history.Prelude.{
  String, ◌≡◌, refl, sym, ◌∙◌, ◌≢◌, ◌⊎◌, inl, inr, Bool, true, false, ◌&&◌, Option, none, some,
  List, [], ◌∷◌, foldl, if◌then◌else◌, Bool-cases, All, ◌==◌, nat_key, string_key, pair_key,
  int_key, ==_refl, lookup, lookup-insert, eqb_ℤ,
}
use btc_rust_history.Float.{F64}
use btc_rust_history.Oms
use btc_rust_history.Oms.{OrderCommand, ExecutionReport}
use btc_rust_history.Router.Tables.{TradeRow, Position, Db}
use btc_rust_history.Router.Writer.{Calls, Session}
use btc_rust_history.Router.Writer.Rows.{is_fill_report, qty_delta, move_position}
use btc_rust_history.Router.Writer.Fills.{insert_trade, is_fill}
use btc_rust_history.Router.Writer.Persist.{persist_execution}
use btc_rust_history.Router.Writer.Inversion.{IsTradeOf}
use btc_rust_history.Router.Writer.Wrote.{Wrote}
use btc_rust_history.Router.Writer.Atomic.{Atomic, persist_execution-Atomic}
use btc_rust_history.Router.Writer.Trades.{exists-insert_trade, insert_trade_again}

-- A report to persist, and what the database answers.
pub record Call (F : Type 0) : Type 0 where
  pub session : Session
  pub order : OrderCommand F
  pub report : ExecutionReport F

-- The quantity of a position.
abbrev pub qty_of : {N : Type 0} → Option (Position N) → Option N
qty_of none = none
qty_of (some p) = some p.qty

module _ {F N J : Type 0} (c : Calls F N J) where
  -- A quantity that a fill adds to.
  abbrev pub add_qty : Option N → N → Option N
  add_qty none q = some q
  add_qty (some old) q = some (c.plus old q)

module _ {F N J : Type 0} ⦃d : F64 F⦄ (c : Calls F N J) (mode exchange : String) where
  unfoldable pub persist_call : Call F → Db N J → Db N J × Bool
  persist_call call db = persist_execution c call.session call.order call.report mode exchange db

  unfoldable pub persist_all : List (Call F) → Db N J → Db N J
  unfolding persist_call
  persist_all [] db = db
  persist_all (call ∷ calls) db = persist_all calls (persist_call call db).0

  -- Plus for BUY, minus for any other side.
  abbrev pub signed : Call F → F
  signed call =
      if eqb_ℤ call.order.side Oms.OrderSide.buy
      then call.report.last_filled_qty
      else d.neg call.report.last_filled_qty

  -- The signed quantities of the fills of a key that were answered `Ok`, in order.
  unfoldable pub booked_by : Call F → Bool → String × String → List N → List N
  booked_by call ok key rest =
      if ok && is_fill_report c call.report && (call.order.account_id, call.order.symbol) == key
      then c.numeric (signed call) ∷ rest
      else rest

  unfoldable pub booked : String × String → List (Call F) → Db N J → List N
  unfolding booked_by persist_call
  booked key [] db = []
  booked key (call ∷ calls) db =
      let (db', ok) = persist_call call db in booked_by call ok key (booked key calls db')

  qty-move :
      (o : Option (Position N)) (q : N) (p : Option N)
      → qty_of (some (move_position c o q p)) ≡ add_qty c (qty_of o) q
  unfolding move_position
  qty-move none q p = refl
  qty-move (some old) q p = refl

  -- What one call does to the quantity of a key.
  Wrote-qty :
      (order : OrderCommand F) (report : ExecutionReport F) (old new : Db N J)
      (key : String × String)
      → Wrote c order report old new
      → qty_of (lookup key new.positions) ≡ (
          if is_fill_report c report && (order.account_id, order.symbol) == key
          then add_qty c (qty_of (lookup key old.positions)) (c.numeric (qty_delta c order report))
          else qty_of (lookup key old.positions))
  Wrote-qty order report old new key w = elim (Bool-cases (is_fill_report c report)) [
    | inl is_fill ↦ elim (Bool-cases ((order.account_id, order.symbol) == key)) [
      | inl same ↦ rw (w.moved, is_fill, lookup-insert, same, ← key_eq same) (qty-move _ _ _)
      | inr other ↦ rw (w.moved, is_fill, lookup-insert, other) refl
    ]
    | inr no_fill ↦ rw (w.moved, no_fill) refl
  ]
    where
      key_eq :
          ((order.account_id, order.symbol) == key) ≡ true → (order.account_id, order.symbol) ≡ key
      key_eq e = (pair_key.same_iff _ _).0 e

  booked_by-step :
      (call : Call F) (old : Db N J) (r : Db N J × Bool) (key : String × String) (rest : List N)
      → call.session.commits ≢ Commit.answer_lost
      → Atomic c call.order call.report call.session.commits old r
      → foldl (add_qty c) (qty_of (lookup key old.positions)) (booked_by call r.1 key rest)
        ≡ foldl (add_qty c) (qty_of (lookup key r.0.positions)) rest
  unfolding booked_by Atomic qty_delta
  booked_by-step call old (new, ok) key rest kept (inl (same, failed)) = rw (same, failed) refl
  booked_by-step call old (new, ok) key rest kept (inr (inl (wrote, answer, done))) =
      rw (done, Wrote-qty call.order call.report old new key wrote)
        (elim (Bool-cases
          (is_fill_report c call.report && (call.order.account_id, call.order.symbol) == key)) [
            | inl counts ↦ rw counts refl
            | inr other ↦ rw other refl
          ])
  booked_by-step call old (new, ok) key rest kept (inr (inr (wrote, answer, failed))) =
      absurd (kept answer)

  -- Over any sequence of reports, where no answer to a commit is lost: the quantity of each account and
  -- symbol is the one before with the signed quantities of the fills answered `Ok` added in turn, plus
  -- for BUY and minus for any other side; reports that failed add nothing.
  pub positions_booked :
      (key : String × String) (calls : List (Call F)) (db : Db N J)
      → All (λ call. call.session.commits ≢ Commit.answer_lost) calls
      → qty_of (lookup key (persist_all calls db).positions)
        ≡ foldl (add_qty c) (qty_of (lookup key db.positions)) (booked key calls db)
  unfolding persist_all booked persist_call
  positions_booked key [] db kept = refl
  positions_booked key (call ∷ calls) db kept =
      let r = persist_execution c call.session call.order call.report mode exchange db in
      positions_booked key calls r.0 kept.1
      ∙ sym (
          booked_by-step call db r key (booked key calls r.0) kept.0
            (persist_execution-Atomic c call.session call.order call.report mode exchange db))

  answered-Wrote :
      (call : Call F) (old : Db N J) (r : Db N J × Bool)
      → Atomic c call.order call.report call.session.commits old r
      → r.1 ≡ true
      → Wrote c call.order call.report old r.0
  unfolding Atomic
  answered-Wrote call old (new, ok) (inl (same, failed)) done = absurd (cc)
  answered-Wrote call old (new, ok) (inr (inl (wrote, answer, ok_))) done = wrote
  answered-Wrote call old (new, ok) (inr (inr (wrote, answer, failed))) done = wrote

  -- The trade of a fill that the tables have is not inserted again.
  Wrote-trades :
      (order : OrderCommand F) (report : ExecutionReport F) (old mid new : Db N J)
      → is_fill_report c report ≡ true
      → Wrote c order report old mid
      → Wrote c order report mid new
      → new.trades ≡ mid.trades
  Wrote-trades order report old mid new fill w w' = again w.traded w'.traded
    where
      again :
          (is_fill_report c report ≡ false) × (mid.trades ≡ old.trades)
            ⊎ (is_fill_report c report ≡ true)
              × ((row : TradeRow N) × IsTradeOf c order report row
                  × (insert_trade row old.trades ≡ some mid.trades))
          → (is_fill_report c report ≡ false) × (new.trades ≡ mid.trades)
            ⊎ (is_fill_report c report ≡ true)
              × ((row : TradeRow N) × IsTradeOf c order report row
                  × (insert_trade row mid.trades ≡ some new.trades))
          → new.trades ≡ mid.trades
      again (inl (no_fill, same)) t = absurd (cc)
      again (inr t) (inl (no_fill, same)) = absurd (cc)
      again (inr (is, (row, of, ins))) (inr (is', (row', of', ins'))) =
          insert_trade_again row' mid.trades ins' (
            rw (of'.fill_id, of'.trade_time, ← of.fill_id, ← of.trade_time)
              (exists-insert_trade row old.trades ins))

  -- A fill that was persisted and is persisted again, both answered `Ok`: the trades stay as they are,
  -- and the quantity of the position moves a second time.
  pub replay_moves_position_again :
      (s s' : Session) (order : OrderCommand F) (report : ExecutionReport F) (db : Db N J)
      → is_fill_report c report ≡ true
      → (persist_execution c s order report mode exchange db).1 ≡ true
      → (persist_execution c s' order report mode exchange
          (persist_execution c s order report mode exchange db).0).1
        ≡ true
      → let once = persist_execution c s order report mode exchange db in
        let twice = persist_execution c s' order report mode exchange once.0 in
        let key : String × String = (order.account_id, order.symbol) in
        (twice.0.trades ≡ once.0.trades)
        × (qty_of (lookup key twice.0.positions)
            ≡ add_qty c
                (qty_of (lookup key once.0.positions))
                (c.numeric (qty_delta c order report)))
  replay_moves_position_again s s' order report db fill done done' =
      let once = persist_execution c s order report mode exchange db in
      let twice = persist_execution c s' order report mode exchange once.0 in
      let w =
        answered-Wrote (record { session = s; order = order; report = report }) db once
          (persist_execution-Atomic c s order report mode exchange db) done in
      let w' =
        answered-Wrote (record { session = s'; order = order; report = report }) once.0 twice
          (persist_execution-Atomic c s' order report mode exchange once.0) done' in
      (
        Wrote-trades order report db once.0 twice.0 fill w w',
        rw (fill, ==_refl {K = String × String} (order.account_id, order.symbol)) at
            (Wrote-qty order report once.0 twice.0 (order.account_id, order.symbol) w'),
      )
