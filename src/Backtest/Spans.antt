-- ===== src/Backtest/Spans.antt =====
-- The bars that the trades of a run take up, and those that it bar_counted.
use binance_momentu.Prelude.{
  ℕ, ◌+◌, ◌-◌, ◌≤◌, ◌<◌, ◌≡◌, refl, ap, sym, Option, some, none, List, [], ◌∷◌, ◌++◌, length,
  Result, Error, ok, raise, ◌>>=◌, arith, option-cases, ok-injective, subst,
}
use binance_momentu.Float.{Float, ◌⊖◌, abs, divide}
use binance_momentu.Domain.Enums.{SignalState, entry_pending, rejected}
use binance_momentu.Domain.Events.{kline, KlineEvent}
use binance_momentu.Features.Store.{SymbolFeatureState, ingest, get}
use binance_momentu.Signals.Engine.{SignalResult, Evaluation}
use binance_momentu.Backtest.{
  BacktestEngine, BacktestTrade, BacktestReport, OpenTrade, Outside, Progress,
  resolve_intrabar_exit, closed_trade, apply_pessimistic_breakout_fill, enter, after_fill,
  after_close, seek, hold, handle_bar, run_from, count_no_trade, count_rejected,
}

-- The trades follow one another between two bars, each from its entry to a later exit.
abbrev pub InOrder : {F : Type 0} → ℕ → List (BacktestTrade F) → ℕ → Type 0
InOrder a [] b = a ≤ b
InOrder a (t ∷ ts) b =
    (a ≤ t.entry_bar_index)
    × (t.entry_bar_index < t.exit_bar_index)
    × InOrder (t.exit_bar_index + 1) ts b

-- The bars from the entries to the exits.
abbrev pub bars_of : {F : Type 0} → List (BacktestTrade F) → ℕ
bars_of [] = 0
bars_of (t ∷ ts) = t.exit_bar_index + 1 - t.entry_bar_index + bars_of ts

-- The first bar of the open trade, or the next bar.
abbrev pub free_until : {F : Type 0} → Option (OpenTrade F) → ℕ → ℕ
free_until none i = i
free_until (some t) i = t.entry_bar

-- The trade, if one is open, was entered before the next bar.
abbrev pub Precedes : {F : Type 0} → Option (OpenTrade F) → ℕ → Type 0
Precedes none i = Unit
Precedes (some t) i = t.entry_bar < i

-- Before the bar with index `i`: the trades follow one another up to the open one, and each bar was
-- counted as one without a trade or as rejected, or belongs to one trade.
pub record IsBalanced {F : Type 0} (i : ℕ) (r : BacktestReport F) (held : Option (OpenTrade F))
    : Type 0 where
  pub in_order : InOrder 0 r.trades (free_until held i)
  pub precedes : Precedes held i
  pub accounts : r.no_trade_count + r.rejected_count + bars_of r.trades ≡ free_until held i

abbrev pub IsLedger : {F : Type 0} → ℕ → Progress F → Type 0
IsLedger i s = IsBalanced i s.report s.open_trade

module _ {F : Type 0} where
  InOrder-le : (a b c : ℕ) (ts : List (BacktestTrade F)) → InOrder a ts b → b ≤ c → InOrder a ts c
  InOrder-le a b c [] h l = omega arith
  InOrder-le a b c (t ∷ ts) h l = (h.0, h.1, InOrder-le (t.exit_bar_index + 1) b c ts h.2 l)

  InOrder-append :
      (a : ℕ) (ts : List (BacktestTrade F)) (t : BacktestTrade F)
      → InOrder a ts t.entry_bar_index
      → t.entry_bar_index < t.exit_bar_index
      → InOrder a (ts ++ t ∷ []) (t.exit_bar_index + 1)
  InOrder-append a [] t h l = (h, l, omega arith)
  InOrder-append a (u ∷ ts) t h l = (h.0, h.1, InOrder-append (u.exit_bar_index + 1) ts t h.2 l)

  bars-append :
      (ts : List (BacktestTrade F)) (t : BacktestTrade F)
      → bars_of (ts ++ t ∷ []) ≡ bars_of ts + (t.exit_bar_index + 1 - t.entry_bar_index)
  bars-append [] t = omega arith
  bars-append (u ∷ ts) t = omega (arith, bars-append ts t)

-- A property of a choice by the state of a result, from its branches.
pending-cases :
    {A : Type 0} (P : A → Type 0) (s : SignalState) {x y : A}
    → P x
    → P y
    → P (elim s [ entry_pending ↦ x | _ ↦ y ])
pending-cases P entry_pending p q = p
pending-cases P _ p q = q

state-cases :
    {A : Type 0} (P : A → Type 0) (s : SignalState) {x y z : A}
    → P x
    → P y
    → P z
    → P (elim s [ rejected ↦ x | entry_pending ↦ y | _ ↦ z ])
state-cases P rejected p q r = p
state-cases P entry_pending p q r = q
state-cases P _ p q r = r

module _ {A : Type 0} where
  -- Where the outcome is not an exception, it has the property.
  abbrev Lands : (A → Type 0) → Result A → Type 0
  Lands P m = (a : A) → m ≡ ok a → P a

  Lands-ok : (P : A → Type 0) (a : A) → P a → Lands P (ok a)
  Lands-ok P a p t e = subst P (ok-injective e) p

  Lands-raise : (P : A → Type 0) (e : Error) → Lands P (raise e)
  Lands-raise P e t h = cc

  Lands-bind :
      {B : Type 0} (P : A → Type 0) (m : Result B) (g : B → Result A)
      → ((b : B) → m ≡ ok b → Lands P (g b))
      → Lands P (m >>= g)
  Lands-bind P (ok b) g h = h b refl
  Lands-bind P (raise e) g h = Lands-raise P e

module _ {F : Type 0} ⦃f : Float F⦄ (b : BacktestEngine F) (o : Outside) where
  closed_trade-indices :
      (i : ℕ) (t : OpenTrade F) (price : F) (state : SignalState)
      → Lands
          (λ (trade : BacktestTrade F).
            (trade.entry_bar_index ≡ t.entry_bar) × (trade.exit_bar_index ≡ i))
          (closed_trade b i t price state)
  unfolding closed_trade
  closed_trade-indices i t price state =
      Lands-bind _ (divide (price ⊖ t.entry_price) t.entry_price) _ (λ gain _.
        Lands-bind _ (divide (abs (t.entry_price ⊖ t.stop_loss)) t.entry_price) _
          (λ risk _. Lands-ok _ _ (refl, refl)))

  -- The open trade is closed on the bar with index `i`.
  closes :
      (i : ℕ) (t : OpenTrade F) (r : BacktestReport F) (trade : BacktestTrade F)
      → trade.entry_bar_index ≡ t.entry_bar
      → trade.exit_bar_index ≡ i
      → IsBalanced i r (some t)
      → IsBalanced (i + 1) (record r { trades = r.trades ++ trade ∷ [] }) none
  closes i t r trade entry exit h =
      let order =
        InOrder-append 0 r.trades trade (subst (InOrder 0 r.trades) (sym entry) h.in_order)
          (omega (arith, h.precedes)) in
      record {
        in_order = subst (λ j. InOrder 0 (r.trades ++ trade ∷ []) (j + 1)) exit order;
        precedes = tt;
        accounts = omega (arith, bars-append r.trades trade, h.accounts, h.precedes);
      }

  hold-IsLedger :
      (i : ℕ) (bar : KlineEvent F) (t : OpenTrade F) (s : Progress F)
      → s.open_trade ≡ some t
      → IsLedger i s
      → Lands (IsLedger (i + 1)) (hold b o i bar t s)
  unfolding hold
  hold-IsLedger i bar t s e l =
      let h = subst (IsBalanced i s.report) e l in
      option-cases (Lands (IsLedger (i + 1))) (resolve_intrabar_exit bar t)
        (λ _. Lands-ok (IsLedger (i + 1)) s (
          subst (IsBalanced (i + 1) s.report) (sym e) (record {
            in_order = h.in_order;
            precedes = omega (arith, h.precedes);
            accounts = h.accounts;
          })))
        (λ exit _.
          Lands-bind (IsLedger (i + 1)) (closed_trade b i t exit.0 exit.1) _ (λ trade known.
            let (entry, exit_bar) = closed_trade-indices i t exit.0 exit.1 trade known in
            Lands-ok (IsLedger (i + 1)) _ (closes i t s.report trade entry exit_bar h)))

  -- The bar with index `i` is counted.
  bar_counted :
      (i : ℕ) (r r' : BacktestReport F)
      → r'.trades ≡ r.trades
      → r'.no_trade_count + r'.rejected_count ≡ r.no_trade_count + r.rejected_count + 1
      → IsBalanced i r none
      → IsBalanced (i + 1) r' none
  bar_counted i r r' same more h = record {
    in_order =
        subst (λ ts. InOrder 0 ts (i + 1)) (sym same)
          (InOrder-le 0 i (i + 1) r.trades h.in_order (omega arith));
    precedes = tt;
    accounts = omega (arith, more, ap bars_of same, h.accounts);
  }

  enter-IsLedger :
      (i : ℕ) (r : SignalResult F) (s : Progress F)
      → IsBalanced i s.report none
      → Lands (IsLedger (i + 1)) (enter b i r s)
  unfolding enter
  enter-IsLedger i r s h =
      let P = Lands (IsLedger (i + 1)) in
      option-cases P r.entry_price (λ _. Lands-raise _ _)
        (λ entry _.
          option-cases P r.stop_loss_result (λ _. Lands-raise _ _)
            (λ stop _.
              option-cases P r.take_profit_result (λ _. Lands-raise _ _)
                (λ profit _. Lands-bind _ (divide _ b.account_equity_usd) _ (λ size _.
                  Lands-ok (IsLedger (i + 1)) _ (record {
                    in_order = h.in_order;
                    precedes = omega arith;
                    accounts = h.accounts;
                  })))))

  counted :
      (i : ℕ) (s s' : Progress F)
      → s'.open_trade ≡ none
      → s'.report.trades ≡ s.report.trades
      → s'.report.no_trade_count + s'.report.rejected_count
        ≡ s.report.no_trade_count + s.report.rejected_count + 1
      → IsBalanced i s.report none
      → Lands (IsLedger (i + 1)) (ok s')
  counted i s s' e same more h =
      Lands-ok (IsLedger (i + 1)) s' (
        subst (IsBalanced (i + 1) s'.report) (sym e) (bar_counted i s.report s'.report same more h))

  after_fill-IsLedger :
      (i : ℕ) (s : Progress F) (v : Evaluation F)
      → s.open_trade ≡ none
      → IsBalanced i s.report none
      → Lands (IsLedger (i + 1)) (after_fill b i s v)
  unfolding after_fill
  after_fill-IsLedger i s (risk, r) e h = Lands-bind _ r _ (λ result _.
      let s' = record s { risk_engine = risk } in
      pending-cases (Lands (IsLedger (i + 1))) result.state (enter-IsLedger i result s' h)
        (counted i s' (count_no_trade s') e refl (omega arith) h))

  after_close-IsLedger :
      (i : ℕ) (bar : KlineEvent F) (state : SymbolFeatureState F) (s : Progress F)
      (v : Evaluation F)
      → s.open_trade ≡ none
      → IsBalanced i s.report none
      → Lands (IsLedger (i + 1)) (after_close b o i bar state s v)
  unfolding after_close
  after_close-IsLedger i bar state s (risk, r) e h = Lands-bind _ r _ (λ result _.
      let s' = record s { risk_engine = risk } in
      let idle = counted i s' (count_no_trade s') e refl (omega arith) h in
      let P = Lands (IsLedger (i + 1)) in
      state-cases P result.state (counted i s' (count_rejected s') e refl (omega arith) h)
        (option-cases P result.breakout_result (λ _. Lands-raise _ _)
          (λ breakout _.
            option-cases P (apply_pessimistic_breakout_fill b bar breakout.breakout_level)
              (λ _. idle) (λ fill _. after_fill-IsLedger i s' _ e h)))
        idle)

  seek-IsLedger :
      (i : ℕ) (bar : KlineEvent F) (s : Progress F)
      → s.open_trade ≡ none
      → IsBalanced i s.report none
      → Lands (IsLedger (i + 1)) (seek b o i bar s)
  unfolding seek
  seek-IsLedger i bar s e h =
      option-cases (Lands (IsLedger (i + 1))) (get b.exchange b.symbol s.store)
        (λ _. counted i s (count_no_trade s) e refl (omega arith) h)
        (λ state _. after_close-IsLedger i bar state s _ e h)

  handle_bar-IsLedger :
      (i : ℕ) (bar : KlineEvent F) (s : Progress F)
      → IsLedger i s
      → Lands (IsLedger (i + 1)) (handle_bar b o i bar s)
  unfolding handle_bar
  handle_bar-IsLedger i bar s h =
      let s' = record s { store = ingest (kline bar) s.store } in
      option-cases (Lands (IsLedger (i + 1))) s.open_trade
        (λ e. seek-IsLedger i bar s' e (subst (IsBalanced i s.report) e h))
        (λ t e. hold-IsLedger i bar t s' e h)

  -- If the bars before the one with index `i` are accounted for, then after any further bars on
  -- which the run does not raise, all are: the trades follow one another, each from its entry to a
  -- later exit and up to the open one, and each bar was counted exactly once, as one without a
  -- trade, as rejected, or as a bar of exactly one trade.
  pub run_from-IsLedger :
      (i : ℕ) (bars : List (KlineEvent F)) (s s' : Progress F)
      → IsLedger i s
      → run_from b o i bars s ≡ ok s'
      → IsLedger (i + length bars) s'
  unfolding run_from
  run_from-IsLedger i [] s s' h e =
      subst (IsLedger (i + 0)) (ok-injective e) (subst (λ j. IsLedger j s) (omega arith) h)
  run_from-IsLedger i (bar ∷ bars) s s' h e =
      Lands-bind (λ t. IsLedger (i + length (bar ∷ bars)) t) (handle_bar b o i bar s) _
        (λ t known u rest.
          subst (λ j. IsLedger j u) (omega arith)
            (run_from-IsLedger (i + 1) bars t u (handle_bar-IsLedger i bar s h t known) rest))
        s' e
