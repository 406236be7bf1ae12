-- ===== src/Router/Exits/Labels.antt =====
-- The label of a training event, by `detect_exit_trigger` and `outcome_from_exit` of
-- services/execution_router/src/store/writer.rs.
use btc_rust_history.Prelude.{
  String, ◌≡◌, refl, sym, ap, ◌∙◌, ◌≢◌, ◌↔◌, ◌⊎◌, inl, inr, Bool, true, false, ◌||◌, not, Option,
  none, some, arith, if◌then◌else◌, Bool-cases, get_or, or_else, take, ◌==◌, nat_key, string_key,
  pair_key, int_key, eqb_ℤ,
}
use mathlib.Core.Path.{subst}
use btc_rust_history.Float.{F64, ◌≺◌, ◌≼◌, zero_f}
use btc_rust_history.Oms
use btc_rust_history.Oms.{OrderCommand, ExecutionReport}
use btc_rust_history.Router.Handle.{Texts}
use btc_rust_history.Router.Exits.{
  DecisionMeta, exit_kind_of, normalize_kind, normalize_exit_kind, trigger_at, trigger_of_price,
  detect_exit_trigger, outcome_of_status, outcome_from_exit, IsTrigger, detect-IsTrigger,
}

unfoldable pub named : Texts → Option String → String → String → Bool
named t none long short = false
named t (some raw) long short =
    t.to_ascii_uppercase (t.trim raw) == long || t.to_ascii_uppercase (t.trim raw) == short

-- The decision names an exit by the long or the short word.
unfoldable pub names : {F : Type 0} → Texts → DecisionMeta F → String → String → Bool
unfolding named
names t meta long short = named t meta.exit_kind long short

-- What the named kind is.
Kinds : Option String → Bool → Bool → Type 0
Kinds kind stop profit =
    (kind ≡ some "STOP_LOSS") × (stop ≡ true) × (profit ≡ false)
    ⊎ (kind ≡ some "TAKE_PROFIT") × (stop ≡ false) × (profit ≡ true)
    ⊎ (kind ≡ none) × (stop ≡ false) × (profit ≡ false)

word-Kinds :
    (word : String)
    → Kinds
        (exit_kind_of word)
        (word == "STOP_LOSS" || word == "SL")
        (word == "TAKE_PROFIT" || word == "TP")
unfolding Kinds exit_kind_of
word-Kinds word = elim (Bool-cases (word == "STOP_LOSS")) [
  | inl e ↦ rw ((string_key.same_iff word "STOP_LOSS").0 e) (inl (refl, refl, refl))
  | inr n ↦ elim (Bool-cases (word == "SL")) [
    | inl e ↦ rw ((string_key.same_iff word "SL").0 e) (inl (refl, refl, refl))
    | inr m ↦ rw (n, m) (ground arith)
  ]
]

named-Kinds :
    (t : Texts) (o : Option String)
    → Kinds (normalize_kind t o) (named t o "STOP_LOSS" "SL") (named t o "TAKE_PROFIT" "TP")
unfolding Kinds normalize_kind named
named-Kinds t none = inr (inr (refl, refl, refl))
named-Kinds t (some raw) = word-Kinds (t.to_ascii_uppercase (t.trim raw))

abbrev take_profit : Option String
take_profit = some "TAKE_PROFIT"

abbrev stop_loss : Option String
stop_loss = some "STOP_LOSS"

profit_ne_stop : take_profit ≢ stop_loss
profit_ne_stop e = let b : true ≡ false = ap (λ o. get_or o "" == "TAKE_PROFIT") e in absurd (cc)

labels_ne : (a b : String) → (a == b) ≡ false → a ≢ b
labels_ne a b n e = let y = (string_key.same_iff a b).1 e in absurd (cc)

-- The label that a trigger gives.
Labelled : {F : Type 0} → ExecutionReport F → Option String → Type 0
Labelled report o =
    (((outcome_from_exit report o).0 ≡ "WIN") ↔ (o ≡ some "TAKE_PROFIT"))
    × (((outcome_from_exit report o).0 ≡ "LOSS") ↔ (o ≡ some "STOP_LOSS"))

unknown_label : {F : Type 0} (report : ExecutionReport F) → (outcome_of_status report).0 ≡ "UNKNOWN"
unfolding outcome_of_status
unknown_label report = ground arith

IsTrigger-Labelled :
    {F : Type 0} (report : ExecutionReport F) (o : Option String) → IsTrigger o → Labelled report o
unfolding Labelled outcome_from_exit
IsTrigger-Labelled report o (inl e) = rw e (
  ((λ h. refl), (λ h. refl)),
  ((λ h. absurd (labels_ne "WIN" "LOSS" refl h)), (λ h. absurd (profit_ne_stop h))),
)
IsTrigger-Labelled report o (inr (inl e)) = rw e (
  ((λ h. absurd (labels_ne "LOSS" "WIN" refl h)), (λ h. absurd (profit_ne_stop (sym h)))),
  ((λ h. refl), (λ h. refl)),
)
IsTrigger-Labelled report o (inr (inr e)) = rw e (
  (
    (λ h. absurd (labels_ne "UNKNOWN" "WIN" refl (sym (unknown_label report) ∙ h))),
    (λ h. absurd (cc)),
  ),
  (
    (λ h. absurd (labels_ne "UNKNOWN" "LOSS" refl (sym (unknown_label report) ∙ h))),
    (λ h. absurd (cc)),
  ),
)

-- A choice by whether there is a stop price, the price takes the profit, and it stops.
select : Bool → Bool → Bool → Option String
select limit take stop =
    if limit
    then (if take then some "TAKE_PROFIT" else if stop then some "STOP_LOSS" else none)
    else none

Selects : Option String → Bool → Bool → Bool → Type 0
Selects o limit take stop =
    ((o ≡ some "TAKE_PROFIT") ↔ (limit ≡ true) × (take ≡ true))
    × ((o ≡ some "STOP_LOSS") ↔ (limit ≡ true) × (take ≡ false) × (stop ≡ true))

select-Selects : (limit take stop : Bool) → Selects (select limit take stop) limit take stop
unfolding select Selects
select-Selects false take stop = ground arith
select-Selects true false false = ground arith
select-Selects true false true = ground (arith, profit_ne_stop)
select-Selects true true stop = ground (arith, profit_ne_stop)

-- A named kind before what the prices say.
combined :
    {P Q : Type 0} (kind prices : Option String) (stop profit : Bool)
    → Kinds kind stop profit
    → (prices ≡ some "TAKE_PROFIT") ↔ P
    → (prices ≡ some "STOP_LOSS") ↔ Q
    → ((or_else kind prices ≡ some "TAKE_PROFIT") ↔ (profit ≡ true) ⊎ (stop ≡ false) × P)
      × ((or_else kind prices ≡ some "STOP_LOSS") ↔ (stop ≡ true) ⊎ (profit ≡ false) × Q)
unfolding Kinds
combined kind prices stop profit (inl (k, s, p)) won lost =
    rw (k, s, p)
      (
        (
          (λ h. absurd (profit_ne_stop (sym h))),
          (λ h. elim h [ inl e ↦ absurd (cc) | inr (e, w) ↦ absurd (cc) ]),
        ),
        ((λ h. inl refl), (λ h. refl)),
      )
combined kind prices stop profit (inr (inl (k, s, p))) won lost =
    rw (k, s, p)
      (
        ((λ h. inl refl), (λ h. refl)),
        (
          (λ h. absurd (profit_ne_stop h)),
          (λ h. elim h [ inl e ↦ absurd (cc) | inr (e, w) ↦ absurd (cc) ]),
        ),
      )
combined kind prices stop profit (inr (inr (k, s, p))) won lost =
    rw (k, s, p)
      (
        ((λ h. inr (refl, won.0 h)), (λ h. elim h [ inl e ↦ absurd (cc) | inr (e, w) ↦ won.1 w ])),
        (
          (λ h. inr (refl, lost.0 h)),
          (λ h. elim h [ inl e ↦ absurd (cc) | inr (e, w) ↦ lost.1 w ]),
        ),
      )

module _ {F : Type 0} ⦃d : F64 F⦄ (t : Texts) (order : OrderCommand F) (report : ExecutionReport F)
    (meta : DecisionMeta F) where
  -- The price has reached the take-profit, or the stop, as the side of the order asks.
  unfoldable pub takes : F → Bool
  takes tp =
      if eqb_ℤ order.side Oms.OrderSide.sell
      then tp ≼ report.last_filled_price
      else report.last_filled_price ≼ tp

  unfoldable pub stops : Bool
  stops =
      if eqb_ℤ order.side Oms.OrderSide.sell
      then report.last_filled_price ≼ order.stop_price
      else order.stop_price ≼ report.last_filled_price

  -- The prices decide only where the order closes a position and has both limits.
  unfoldable pub HasLimits : Option F → F → Type 0
  HasLimits o tp = (order.reduce_only ≡ true) × (o ≡ some tp) × ((zero_f ≺ order.stop_price) ≡ true)

  unfoldable pub IsWin : Type 0
  IsWin =
      (names t meta "TAKE_PROFIT" "TP" ≡ true)
      ⊎ (names t meta "STOP_LOSS" "SL" ≡ false)
        × ((tp : F) × HasLimits meta.take_profit_price tp × (takes tp ≡ true))

  unfoldable pub IsLoss : Type 0
  IsLoss =
      (names t meta "STOP_LOSS" "SL" ≡ true)
      ⊎ (names t meta "TAKE_PROFIT" "TP" ≡ false)
        × ((tp : F) × HasLimits meta.take_profit_price tp × (takes tp ≡ false) × (stops ≡ true))

  abbrev by_prices : Bool → Option F → Option String
  by_prices closes o = if not closes then none else trigger_of_price order report o

  trigger_of_price-Selects :
      (tp : F)
      → Selects
          (trigger_of_price order report (some tp))
          (zero_f ≺ order.stop_price)
          (takes tp)
          stops
  unfolding trigger_of_price trigger_at takes stops select
  trigger_of_price-Selects tp =
      subst (λ o. Selects o (zero_f ≺ order.stop_price) (takes tp) stops)
        (elim (Bool-cases (eqb_ℤ order.side Oms.OrderSide.sell)) [
          | inl sell ↦ rw sell refl
          | inr other ↦ rw other refl
        ])
        (select-Selects (zero_f ≺ order.stop_price) (takes tp) stops)

  takes_iff :
      (closes : Bool) (o : Option F)
      → order.reduce_only ≡ closes
      → (by_prices closes o ≡ some "TAKE_PROFIT") ↔ ((tp : F) × HasLimits o tp × (takes tp ≡ true))
  unfolding HasLimits trigger_of_price Selects
  takes_iff true none e = ground arith
  takes_iff false o e = ground arith
  takes_iff true (some tp) e =
      let w = (trigger_of_price-Selects tp).0 in
      ((λ h. (tp, (e, refl, (w.0 h).0), (w.0 h).1)), (λ (x, (r, s, z), k). w.1 (z, own s k)))
    where
      own : {x : F} → some tp ≡ some x → takes x ≡ true → takes tp ≡ true
      own s k = cc

  stops_iff :
      (closes : Bool) (o : Option F)
      → order.reduce_only ≡ closes
      → (by_prices closes o ≡ some "STOP_LOSS")
        ↔ ((tp : F) × HasLimits o tp × (takes tp ≡ false) × (stops ≡ true))
  unfolding HasLimits trigger_of_price Selects
  stops_iff true none e = ground arith
  stops_iff false o e = ground arith
  stops_iff true (some tp) e =
      let w = (trigger_of_price-Selects tp).1 in
      (
        (λ h. (tp, (e, refl, (w.0 h).0), (w.0 h).1, (w.0 h).2)),
        (λ (x, (r, s, z), k, l). w.1 (z, own s k, l)),
      )
    where
      own : {x : F} → some tp ≡ some x → takes x ≡ false → takes tp ≡ false
      own s k = cc

  -- The label of an order and a report is WIN exactly where the decision names a take-profit, or names no
  -- stop and the order closes a position, has both limits and the fill price has reached the
  -- take-profit; it is LOSS exactly where the decision names a stop, or names no take-profit and, the
  -- order closing a position with both limits, the fill price has not reached the take-profit and has
  -- reached the stop. Whether the report fills anything is not asked.
  pub outcome_from_exit_iff :
      let label = (outcome_from_exit report (detect_exit_trigger t order report meta)).0 in
      ((label ≡ "WIN") ↔ IsWin) × ((label ≡ "LOSS") ↔ IsLoss)
  unfolding names detect_exit_trigger normalize_exit_kind IsWin IsLoss Labelled
  outcome_from_exit_iff =
      let labelled =
        IsTrigger-Labelled report (detect_exit_trigger t order report meta)
          (detect-IsTrigger t order report meta) in
      let parts =
        combined (normalize_kind t meta.exit_kind)
          (by_prices order.reduce_only meta.take_profit_price)
          (named t meta.exit_kind "STOP_LOSS" "SL") (named t meta.exit_kind "TAKE_PROFIT" "TP")
          (named-Kinds t meta.exit_kind) (takes_iff order.reduce_only meta.take_profit_price refl)
          (stops_iff order.reduce_only meta.take_profit_price refl) in
      (
        ((λ h. parts.0.0 (labelled.0.0 h)), (λ h. labelled.0.1 (parts.0.1 h))),
        ((λ h. parts.1.0 (labelled.1.0 h)), (λ h. labelled.1.1 (parts.1.1 h))),
      )
