-- ===== src/Pipeline/Reach.antt =====
-- The steps of the pipeline's loops in any order, and what holds of every state that they reach.
use binance_momentu.Prelude.{
  ℕ, ◌+◌, ◌≡◌, refl, sym, ap, ◌∙◌, Bool, true, false, Option, none, some, [], ◌∷◌, ◌++◌, String,
  eq_iff, Result, ok, arith, length, option-cases, result-cases, length-append,
}
use binance_momentu.Prelude.Dict.{Dict, lookup, insert, string_key, lookup-insert, insert_fresh}
use binance_momentu.Float.{Float, nought, epsilon}
use binance_momentu.Float.Laws.{IsOrdered}
use binance_momentu.Config.{StrategyConfig}
use binance_momentu.Domain.Enums.{Exchange, entry_pending}
use binance_momentu.Domain.Events.{
  Event, ticker, kline, book, trade, oi, economic, signal, execution, system,
}
use binance_momentu.Features.Store.{FeatureStore, empty_store, default_kline_window}
use binance_momentu.Execution.Paper.{
  PaperPosition, open_position, empty_engine, new_position, or_now,
}
use binance_momentu.Execution.Paper.Exits.{IsKeyed}
use binance_momentu.Risk.Engine.{
  RiskEngine, check_trade_allowed, register_open_position, new_engine,
}
use binance_momentu.Signals.Candidates.{empty_manager}
use binance_momentu.Signals.Engine.{Context, SignalResult, evaluate_signal}
use binance_momentu.Signals.Engine.Entry.{evaluate_signal-IsEntry}
use binance_momentu.Signals.Engine.Gates.{price-positive}
use binance_momentu.Ai.Auditor.{
  ClaudeContextAuditor, ClaudeDecisionResult, Decision, approved, rejected_judgment,
  rejected_failure,
}
use binance_momentu.Pipeline.{
  claude_decision, SignalPipeline, EntryOrder, order_of, consume_event, run_stage1_cycle,
  evaluate_candidate, begin_entry, open_entry, finish_entry, notify_entry, shown_score,
}
use binance_momentu.Signals.Quant.{QuantScoreResult}
use binance_momentu.Pipeline.Keys.{insert_key, keys-insert}
use binance_momentu.Pipeline.Lockstep.{InStep, check_exits-InStep}
use binance_momentu.Pipeline.Books.{
  SameBooks-InStep, begin_entry-SameBooks, evaluate_candidate-SameBooks,
}

module _ {F : Type 0} where
  -- The pipeline as its constructor makes it.
  abbrev pub new_pipeline :
      StrategyConfig F → RiskEngine F → Option (ClaudeContextAuditor F) → SignalPipeline F
  new_pipeline strategy risk auditor = record {
    strategy = strategy;
    feature_store = empty_store default_kline_window;
    candidate_manager = empty_manager;
    risk_engine = risk;
    paper_engine = empty_engine;
    claude_auditor = auditor;
    signals_evaluated_total = 0;
    entries_opened_total = 0;
    sent = [];
  }

-- A step of one of the loops. An entry is finished for the result of an evaluation that ended in
-- ENTRY_PENDING, under an identifier that no open position has; between its evaluation and its end
-- other steps may come.
pub data Step {F : Type 0} ⦃f : Float F⦄ : SignalPipeline F → SignalPipeline F → Type 0 where
  consumes :
      (e : Event F) (now today : ℕ) (s : SignalPipeline F) → Step s (consume_event e now today s).0
  screens : (s : SignalPipeline F) → Step s (run_stage1_cycle s).0
  evaluates :
      (x : Exchange) (symbol signal_id : String) (now today : ℕ) (s : SignalPipeline F)
      → Step s (evaluate_candidate x symbol signal_id now today s).0
  begins : (r : SignalResult F) (now : F) (s : SignalPipeline F) → Step s (begin_entry r now s).0
  finishes :
      (c : Context F) (risk : RiskEngine F) (r : SignalResult F) (d : ClaudeDecisionResult F)
      (clock : ℕ) (s : SignalPipeline F)
      → (evaluate_signal c risk).1 ≡ ok r
      → r.state ≡ entry_pending
      → lookup r.signal_id s.paper_engine.open_positions ≡ none
      → Step s (finish_entry r d clock s).0

pub data Reach {F : Type 0} ⦃f : Float F⦄ (s : SignalPipeline F) : SignalPipeline F → Type 0 where
  start : Reach s s
  later : {t u : SignalPipeline F} → Reach s t → Step t u → Reach s u

decision-cases :
    {A : Type 0} (P : A → Type 0) (d : Decision) {x y : A}
    → P x
    → P y
    → P (elim d [ approved ↦ x | _ ↦ y ])
decision-cases P approved p q = p
decision-cases P rejected_judgment p q = q
decision-cases P rejected_failure p q = q

module _ {F : Type 0} ⦃f : Float F⦄ where
  -- The feature store has no part in the invariant.
  stored-InStep :
      (store : FeatureStore F) (s : SignalPipeline F)
      → InStep s
      → InStep (record s { feature_store = store })
  stored-InStep store s h =
      SameBooks-InStep (record { paper = refl; risk = refl; settings = refl; opened = refl }) h

  consume_event-InStep :
      (e : Event F) (now today : ℕ) (s : SignalPipeline F)
      → InStep s
      → InStep (consume_event e now today s).0
  unfolding consume_event
  consume_event-InStep (ticker t) now today s h =
      (check_exits-InStep t now today _ (stored-InStep _ s h)).1
  consume_event-InStep (kline e) now today s h = stored-InStep _ s h
  consume_event-InStep (book e) now today s h = stored-InStep _ s h
  consume_event-InStep (trade e) now today s h = stored-InStep _ s h
  consume_event-InStep (oi e) now today s h = stored-InStep _ s h
  consume_event-InStep (economic e) now today s h = stored-InStep _ s h
  consume_event-InStep (signal e) now today s h = stored-InStep _ s h
  consume_event-InStep (execution e) now today s h = stored-InStep _ s h
  consume_event-InStep (system e) now today s h = stored-InStep _ s h

  IsKeyed-insert :
      (k : String) (p : PaperPosition F) (m : Dict String (PaperPosition F))
      → IsKeyed m
      → lookup k m ≡ none
      → p.signal_id ≡ k
      → f.eq p.entry_price nought ≡ false
      → IsKeyed (insert k p m)
  unfolding insert lookup
  IsKeyed-insert k p [] h fresh e n = (e, refl, n, tt)
  IsKeyed-insert k p ((j, q) ∷ m) h fresh e n =
      ground (arith, lookup-insert k j p m, eq_iff j k, eq_iff k j, IsKeyed-insert k p m)

  open_entry-InStep :
      (r : SignalResult F) (o : EntryOrder F) (clock : ℕ) (s : SignalPipeline F)
      → InStep s
      → lookup r.signal_id s.paper_engine.open_positions ≡ none
      → f.eq o.entry_price nought ≡ false
      → InStep (open_entry r o clock s)
  unfolding open_entry open_position register_open_position
  open_entry-InStep r o clock s h fresh n =
      let k = r.signal_id in
      let m = s.paper_engine.open_positions in
      let p : PaperPosition F =
        new_position k r.symbol r.exchange o.entry_price o.stop_loss o.take_profit o.size_usd
          (or_now none clock) in
      record {
        keyed = IsKeyed-insert k p m h.keyed fresh refl n;
        same_keys =
            keys-insert k _ s.risk_engine.open_positions
            ∙ ap (insert_key k) h.same_keys
            ∙ sym (keys-insert k p m);
        tally = ground (arith, h.tally, insert_fresh k p m fresh, length-append m ((k, p) ∷ []));
        equity = h.equity;
      }

  -- The order of an entry is at the price that was evaluated, which is above zero.
  order-positive :
      (laws : IsOrdered F) (c : Context F) (risk : RiskEngine F) (r : SignalResult F)
      (o : EntryOrder F)
      → (evaluate_signal c risk).1 ≡ ok r
      → r.state ≡ entry_pending
      → order_of r ≡ some o
      → f.eq o.entry_price nought ≡ false
  unfolding order_of
  order-positive laws c risk r o e h known =
      let (v, g, same) = evaluate_signal-IsEntry c risk r e h in
      let above = price-positive laws c v.atr g.size_positive in
      let price : r.entry_price ≡ some c.current_price = ap (λ x. x.entry_price) same in
      let stop : r.stop_loss_result ≡ _ = ap (λ x. x.stop_loss_result) same in
      let profit : r.take_profit_result ≡ _ = ap (λ x. x.take_profit_result) same in
      let size : r.final_position_size_usd ≡ _ = ap (λ x. x.final_position_size_usd) same in
      ground (
        arith,
        price,
        stop,
        profit,
        size,
        known,
        laws.not_eq_of_lt c.current_price,
        laws.le_of_lt nought epsilon laws.nought-lt-epsilon,
        laws.lt_of_le_of_lt nought epsilon c.current_price,
      )

  notify_entry-InStep :
      (r : SignalResult F) (s : SignalPipeline F) → InStep s → InStep (notify_entry r s).0
  unfolding notify_entry
  notify_entry-InStep r s h =
      result-cases (λ (x : SignalPipeline F × Result Bool). InStep x.0) (shown_score r) (λ e _. h)
        (λ score _.
          SameBooks-InStep (record { paper = refl; risk = refl; settings = refl; opened = refl }) h)

  finish_entry-InStep :
      (laws : IsOrdered F) (c : Context F) (risk : RiskEngine F) (r : SignalResult F)
      (d : ClaudeDecisionResult F) (clock : ℕ) (s : SignalPipeline F)
      → (evaluate_signal c risk).1 ≡ ok r
      → r.state ≡ entry_pending
      → lookup r.signal_id s.paper_engine.open_positions ≡ none
      → InStep s
      → InStep (finish_entry r d clock s).0
  unfolding finish_entry
  finish_entry-InStep laws c risk r d clock s e h fresh i =
      let s' = record s { sent = s.sent ++ claude_decision r.signal_id d.decision ∷ [] } in
      let i' : InStep s' =
        SameBooks-InStep (record { paper = refl; risk = refl; settings = refl; opened = refl }) i in
      decision-cases (λ (x : SignalPipeline F × Result Bool). InStep x.0) d.decision
        (option-cases (λ (x : SignalPipeline F × Result Bool). InStep x.0) (order_of r) (λ _. i')
          (λ o known.
            notify_entry-InStep r (open_entry r o clock s')
              (open_entry-InStep r o clock s' i' fresh (order-positive laws c risk r o e h known))))
        i'

  Step-InStep : (laws : IsOrdered F) {s t : SignalPipeline F} → Step s t → InStep s → InStep t
  Step-InStep laws (consumes e now today s) h = consume_event-InStep e now today s h
  Step-InStep laws (screens s) h =
      unfold run_stage1_cycle in
      SameBooks-InStep (record { paper = refl; risk = refl; settings = refl; opened = refl }) h
  Step-InStep laws (evaluates x symbol id now today s) h =
      SameBooks-InStep (evaluate_candidate-SameBooks x symbol id now today s) h
  Step-InStep laws (begins r now s) h = SameBooks-InStep (begin_entry-SameBooks r now s) h
  Step-InStep laws (finishes c risk r d clock s e p fresh) h =
      finish_entry-InStep laws c risk r d clock s e p fresh h

  kept-InStep : (laws : IsOrdered F) {s t : SignalPipeline F} → Reach s t → InStep s → InStep t
  kept-InStep laws start h = h
  kept-InStep laws (later r u) h = Step-InStep laws u (kept-InStep laws r h)

  -- From a new pipeline with a starting equity other than 0, whatever steps its loops take and in
  -- whatever order, if each entry is finished for an evaluation that ended in ENTRY_PENDING and
  -- under an identifier that no open position has, the risk engine and the paper engine hold the same positions in the same order,
  -- and every entry that was opened is one open or one closed position.
  pub Reach-InStep :
      (laws : IsOrdered F) (strategy : StrategyConfig F) (today : ℕ)
      (auditor : Option (ClaudeContextAuditor F)) (t : SignalPipeline F)
      → f.eq strategy.paper_starting_equity_usd nought ≡ false
      → Reach (new_pipeline strategy (new_engine strategy today) auditor) t
      → InStep t
  Reach-InStep laws strategy today auditor t n r =
      kept-InStep laws r (record { keyed = tt; same_keys = refl; tally = refl; equity = n })

  -- The risk check of the evaluation is not repeated after the auditor's answer: an approved entry
  -- with its levels, a score and a new identifier is opened, one position more than before, and the
  -- call ends without an exception, even if by then, because a closing in between has frozen the
  -- day for example, the risk engine refuses every trade.
  pub finish_entry_unchecked :
      (btc_pause : Bool) (today : ℕ) (r : SignalResult F) (d : ClaudeDecisionResult F)
      (o : EntryOrder F) (q : QuantScoreResult F) (score : F) (clock : ℕ) (s : SignalPipeline F)
      → (check_trade_allowed btc_pause today s.risk_engine).1.allowed ≡ false
      → d.decision ≡ approved
      → order_of r ≡ some o
      → r.quant_result ≡ some q
      → q.quant_score ≡ some score
      → lookup r.signal_id s.paper_engine.open_positions ≡ none
      → let (s', answer) = finish_entry r d clock s in
        (answer ≡ ok true)
        × (length s'.paper_engine.open_positions ≡ length s.paper_engine.open_positions + 1)
  unfolding finish_entry open_entry open_position notify_entry
  finish_entry_unchecked btc_pause today r d o q score clock s refused a known scored has fresh =
      let k = r.signal_id in
      let m = s.paper_engine.open_positions in
      let p : PaperPosition F =
        new_position k r.symbol r.exchange o.entry_price o.stop_loss o.take_profit o.size_usd
          (or_now none clock) in
      let shown : shown_score r ≡ ok score = unfold shown_score in ground (arith, scored, has) in
      ground (arith, shown, insert_fresh k p m fresh, length-append m ((k, p) ∷ []))
