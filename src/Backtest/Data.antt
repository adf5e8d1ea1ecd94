-- ===== src/Backtest/Data.antt =====
-- What a run can come to with the data that it has: klines alone.
use binance_momentu.Prelude.{
  ℕ, ◌+◌, ◌≡◌, refl, ap, sym, ◌∙◌, false, some, none, List, [], ◌∷◌, length, ok, ◌>>=◌, arith,
  if-cases, result-cases, Option-cases, option-cases, inl, inr, String, Bool-cases, subst,
}
use binance_momentu.Prelude.Dict.{lookup, insert, lookup-insert}
use binance_momentu.Float.{Float, ◌<?◌, nought}
use binance_momentu.Float.Laws.{IsOrdered}
use binance_momentu.Domain.Enums.{Exchange}
use binance_momentu.Domain.Events.{kline, KlineEvent}
use binance_momentu.Features.Store.{
  SymbolFeatureState, FeatureStore, empty_store, default_kline_window, get_or_create, ingest, get,
  put_state, same_symbol, symbol_key,
}
use binance_momentu.Features.Engine.{spread_percent}
use binance_momentu.Risk.Engine.{RiskEngine}
use binance_momentu.Signals.Quant.{QuantScoreResult, compute_quant_score}
use binance_momentu.Signals.Breakout.{
  evaluate_breakout_trigger, evaluate_breakout_trigger_iff, short_of,
}
use binance_momentu.Signals.Engine.{Context, Evaluation, after_quant, evaluate_signal}
use binance_momentu.Signals.Engine.Bybit.{Refuses}
use binance_momentu.Signals.Engine.Gates.{compute_quant_score-Returns}
use binance_momentu.Backtest.{
  BacktestEngine, Outside, Progress, after_close, seek, hold, handle_bar, run_from, run,
  count_no_trade, at_start, context_at,
}

-- No symbol has a book ticker.
abbrev HasNoBooks : {F : Type 0} → FeatureStore F → Type 0
HasNoBooks {F} store =
    (x : Exchange) (s : String) (state : SymbolFeatureState F)
    → get x s store ≡ some state
    → state.latest_book_ticker ≡ none

module _ {F : Type 0} where
  get_or_create-book :
      (x : Exchange) (s : String) (store : FeatureStore F)
      → HasNoBooks store
      → (get_or_create x s store).latest_book_ticker ≡ none
  unfolding get_or_create get
  get_or_create-book x s store h = elim (Option-cases (lookup (x, s) store.states)) [
    | inl e ↦ rw (e, get_or_create) refl
    | inr (state, e) ↦ rw (e, get_or_create) (h x s state e)
  ]

  put_state-HasNoBooks :
      (x : Exchange) (s : String) (state : SymbolFeatureState F) (store : FeatureStore F)
      → HasNoBooks store
      → state.latest_book_ticker ≡ none
      → HasNoBooks (put_state x s state store)
  unfolding get
  put_state-HasNoBooks x s state store h n y t found e =
      elim (Bool-cases (same_symbol (x, s) (y, t))) [
        | inl hit ↦
            let here : lookup (y, t) (insert (x, s) state store.states) ≡ some state =
              ground (arith, lookup-insert (x, s) (y, t) state store.states) in
            let same : state ≡ found = cc here in
            ap (λ (r : SymbolFeatureState F). r.latest_book_ticker) (sym same) ∙ n
        | inr miss ↦ h y t found (ground (arith, lookup-insert (x, s) (y, t) state store.states))
      ]

  empty-HasNoBooks : HasNoBooks {F = F} (empty_store default_kline_window)
  unfolding get lookup
  empty-HasNoBooks x s state found = absurd (ground arith)

  ingest-HasNoBooks :
      (e : KlineEvent F) (store : FeatureStore F)
      → HasNoBooks store
      → HasNoBooks (ingest (kline e) store)
  unfolding ingest
  ingest-HasNoBooks e store h =
      let n = get_or_create-book e.exchange e.symbol store h in
      put_state-HasNoBooks _ _ _ store h (
        if-cases (λ (r : SymbolFeatureState F). r.latest_book_ticker ≡ none) e.is_closed (λ _. n)
          (λ _. n))

module _ {F : Type 0} ⦃f : Float F⦄ where
  no_spread :
      (state : SymbolFeatureState F) → state.latest_book_ticker ≡ none → spread_percent state ≡ none
  unfolding spread_percent
  no_spread state e = rw e refl

  not_triggered :
      (c : Context F) (q : QuantScoreResult F)
      → c.features.latest_book_ticker ≡ none
      → (evaluate_breakout_trigger c.features c.current_price q c.strategy
          c.btc_pause_active).triggered
        ≡ false
  not_triggered c q e = elim (Bool-cases _) [
    | inl t ↦
        let within =
          ((evaluate_breakout_trigger_iff c.features c.current_price q c.strategy
              c.btc_pause_active).0
            t).spread in
        let missing = no_spread c.features e in let there = within.1 in absurd (ground arith)
    | inr n ↦ n
  ]

  after_quant-Refuses :
      (c : Context F) (q : QuantScoreResult F) (risk : RiskEngine F)
      → c.features.latest_book_ticker ≡ none
      → Refuses risk (after_quant c q risk)
  unfolding after_quant
  after_quant-Refuses c q risk e =
      if-cases (Refuses risk) q.computable
        (λ _.
          if-cases (Refuses risk) (short_of q.quant_score c.strategy.claude_score_threshold)
            (λ _. (_, refl, refl))
            (λ _.
              if-cases (Refuses risk)
                (evaluate_breakout_trigger c.features c.current_price q c.strategy
                  c.btc_pause_active).triggered
                (λ t. let n = not_triggered c q e in cc) (λ _. (_, refl, refl))))
        (λ _. (_, refl, refl))

module _ {F : Type 0} ⦃f : Float F⦄ (laws : IsOrdered F) where
  -- Without a book ticker an evaluation ends in NO_TRADE.
  no_book-Refuses :
      (c : Context F) (risk : RiskEngine F)
      → (c.strategy.reference_order_size_usd <? nought) ≡ false
      → c.features.latest_book_ticker ≡ none
      → Refuses risk (evaluate_signal c risk)
  unfolding evaluate_signal
  no_book-Refuses c risk h e =
      let (q, scored) = compute_quant_score-Returns laws c.features c.current_price c.strategy h in
      result-cases (Refuses risk) (compute_quant_score c.features c.current_price c.strategy)
        (λ y bad. cc) (λ q' known. after_quant-Refuses c q' risk e)

  refused :
      (b : BacktestEngine F) (o : Outside) (i : ℕ) (bar : KlineEvent F)
      (state : SymbolFeatureState F) (s : Progress F) (e : Evaluation F)
      → Refuses s.risk_engine e
      → after_close b o i bar state s e ≡ ok (count_no_trade s)
  unfolding after_close
  refused b o i bar state s e (r, same, refuses) =
      subst (λ v. after_close b o i bar state s v ≡ ok (count_no_trade s)) (sym same)
        (rw refuses refl)

  idle_seek :
      (b : BacktestEngine F) (o : Outside) (i : ℕ) (bar : KlineEvent F) (s : Progress F)
      → (b.strategy.reference_order_size_usd <? nought) ≡ false
      → HasNoBooks s.store
      → seek b o i bar s ≡ ok (count_no_trade s)
  unfolding seek
  idle_seek b o i bar s h n =
      option-cases (λ r. r ≡ ok (count_no_trade s)) (get b.exchange b.symbol s.store) (λ _. refl)
        (λ state found. refused b o i bar state s _ (
          no_book-Refuses (context_at b state bar bar.close (o.close_id i) (o.today i))
            s.risk_engine h (n b.exchange b.symbol state found)))

  -- Such a bar counts as one without a trade, and changes nothing else but the store.
  idle_bar :
      (b : BacktestEngine F) (o : Outside) (i : ℕ) (bar : KlineEvent F) (s : Progress F)
      → (b.strategy.reference_order_size_usd <? nought) ≡ false
      → HasNoBooks s.store
      → s.open_trade ≡ none
      → handle_bar b o i bar s
        ≡ ok (count_no_trade (record s { store = ingest (kline bar) s.store }))
  unfolding handle_bar
  idle_bar b o i bar s h n e =
      let s' = record s { store = ingest (kline bar) s.store } in
      ap (λ t. elim t [ none ↦ seek b o i bar s' | some t ↦ hold b o i bar t s' ]) e
      ∙ idle_seek b o i bar s' h (ingest-HasNoBooks bar s.store n)

  -- A run from a state without a trade or a book ticker counts each of the bars.
  idle_run :
      (b : BacktestEngine F) (o : Outside) (i : ℕ) (bars : List (KlineEvent F)) (s : Progress F)
      → (b.strategy.reference_order_size_usd <? nought) ≡ false
      → HasNoBooks s.store
      → s.open_trade ≡ none
      → (run_from b o i bars s >>= λ t. ok t.report)
        ≡ ok (record s.report { no_trade_count = s.report.no_trade_count + length bars })
  unfolding run_from
  idle_run b o i [] s h n e = ground arith
  idle_run b o i (bar ∷ bars) s h n e =
      let s' = count_no_trade (record s { store = ingest (kline bar) s.store }) in
      ap (λ r. r >>= run_from b o (i + 1) bars >>= λ t. ok t.report) (idle_bar b o i bar s h n e)
      ∙ idle_run b o (i + 1) bars s' h (ingest-HasNoBooks bar s.store n) e
      ∙ ap (λ k. ok (record s.report { no_trade_count = k })) (omega arith)

  -- A run never takes a trade: whatever the bars, it counts every one of them as one without a
  -- trade, if the configured reference order size is not negative. The gate on the spread needs a
  -- book ticker, and a run feeds the store klines alone.
  pub run_idle :
      (b : BacktestEngine F) (o : Outside) (bars : List (KlineEvent F))
      → (b.strategy.reference_order_size_usd <? nought) ≡ false
      → run b o bars
        ≡ ok (record {
          symbol = b.symbol;
          total_bars = length bars;
          trades = [];
          no_trade_count = length bars;
          rejected_count = 0;
        })
  unfolding run
  run_idle b o bars h =
      idle_run b o 0 bars (at_start b o (length bars)) h empty-HasNoBooks refl
      ∙ ap (λ (k : ℕ). ok (record (at_start b o (length bars)).report { no_trade_count = k }))
          (omega arith)
