-- ===== src/Pipeline.antt =====
-- app/signals/pipeline.py: `SignalPipeline`, over the engines that it owns. Its three loops are
-- tasks of one event loop, so each stretch between two `await`s is one step: the handling of an
-- event, a stage 1 cycle, the evaluation of a candidate, and the two halves of
-- `_handle_entry_pending` around the auditor's answer. What goes to the storage queue and to the
-- notifications is the list `sent`; the texts of the messages are left out.
pub mod Keys
pub mod Lockstep
pub mod Books
pub mod Reach
pub mod Stage
use binance_momentu.Prelude.{
  ℕ, ◌+◌, Bool, true, false, if◌then◌else◌, Option, none, some, List, [], ◌∷◌, ◌++◌, last?, String,
  Result, Error, ok, raise, ◌>>=◌,
}
use binance_momentu.Float.{Float, ◌⊗◌, lit, divide}
use binance_momentu.Config.{StrategyConfig}
use binance_momentu.Domain.Enums.{Exchange, exchange_value, SignalState, entry_pending}
use binance_momentu.Domain.Events.{Event, ticker, MarketTickerEvent}
use binance_momentu.Features.Store.{SymbolFeatureState, FeatureStore, ingest, get}
use binance_momentu.Risk.Engine.{RiskEngine, register_open_position, register_closed_position}
use binance_momentu.Execution.Paper.{
  PaperPosition, PaperTradingEngine, open_position, on_price_update,
}
use binance_momentu.Signals.Candidates.{
  CandidateStreamManager, SubscriptionDiff, screen_stage1, rank_and_promote, update,
}
use binance_momentu.Signals.Engine.{
  AuditTrail, SignalResult, Context, evaluate_signal, compute_btc_pause,
}
use binance_momentu.Ai.Auditor.{
  ClaudeContextAuditor, ClaudeDecisionResult, Decision, approved, Reply, should_call, record_call,
  evaluate,
}

pub data Sent (F : Type 0) : Type 0 where
  signal : AuditTrail F → Sent F
  claude_decision : String → Decision → Sent F
  paper_trade_open : PaperPosition F → Sent F
  paper_trade_close : PaperPosition F → Sent F
  notified_entry : (symbol exchange : String) → Sent F
  notified_exit : SignalState → (symbol exchange : String) → Sent F

pub record SignalPipeline (F : Type 0) : Type 0 where
  pub strategy : StrategyConfig F
  pub feature_store : FeatureStore F
  pub candidate_manager : CandidateStreamManager
  pub risk_engine : RiskEngine F
  pub paper_engine : PaperTradingEngine F
  pub claude_auditor : Option (ClaudeContextAuditor F)
  pub signals_evaluated_total : ℕ
  pub entries_opened_total : ℕ
  pub sent : List (Sent F)

-- What an approved entry opens a position with.
pub record EntryOrder (F : Type 0) : Type 0 where
  pub entry_price : F
  pub stop_loss : F
  pub take_profit : F
  pub size_usd : F

abbrev pub is_pending : SignalState → Bool
is_pending SignalState.entry_pending = true
is_pending _ = false

module _ {F : Type 0} where
  unfoldable pub current_price_for : SymbolFeatureState F → Option F
  current_price_for state = elim state.latest_ticker [
    | some t ↦ some t.last_price
    | none ↦ elim (last? state.closed_klines) [ none ↦ none | some k ↦ some k.close ]
  ]

  -- The prices and the size of a result; an attribute of a missing one raises.
  unfoldable pub order_of : SignalResult F → Option (EntryOrder F)
  order_of r = elim r.entry_price [
    | none ↦ none
    | some entry ↦ elim r.stop_loss_result [
      | none ↦ none
      | some stop ↦ elim r.take_profit_result [
        | none ↦ none
        | some profit ↦ elim r.final_position_size_usd [
          | none ↦ none
          | some size ↦ some (record {
            entry_price = entry;
            stop_loss = stop.stop_loss;
            take_profit = profit.take_profit;
            size_usd = size;
          })
        ]
      ]
    ]
  ]

module _ {F : Type 0} ⦃f : Float F⦄ where
  -- The result of a position in percent of the starting equity.
  unfoldable pub pnl_percent_of_equity : StrategyConfig F → PaperPosition F → Result F
  pnl_percent_of_equity s p = elim p.realized_pnl_usd [
    | none ↦ raise Error.type_error
    | some pnl ↦ divide pnl s.paper_starting_equity_usd >>= λ q. ok (q ⊗ lit 100 0)
  ]

  abbrev pub closing_sent : PaperPosition F → List (Sent F)
  closing_sent p = paper_trade_close p ∷ notified_exit p.state p.symbol p.exchange ∷ []

  -- The loop of `_check_exits` over the positions that the tick closed.
  unfoldable pub register_closings :
      ℕ → List (PaperPosition F) → SignalPipeline F → SignalPipeline F × Result {0} Unit
  register_closings today [] s = (s, ok tt)
  register_closings today (p ∷ ps) s = elim (pnl_percent_of_equity s.strategy p) [
    | raise x ↦ (record s { sent = s.sent ++ paper_trade_close p ∷ [] }, raise x)
    | ok percent ↦ register_closings today ps (record s {
      risk_engine = register_closed_position p.signal_id percent today s.risk_engine;
      sent = s.sent ++ closing_sent p;
    })
  ]

  -- What `_check_exits` does with the outcome of the tick.
  unfoldable pub after_tick :
      ℕ
      → SignalPipeline F
      → PaperTradingEngine F × Result (List (PaperPosition F))
      → SignalPipeline F × Result {0} Unit
  after_tick today s (paper, r) =
      let s' = record s { paper_engine = paper } in
      elim r [ raise x ↦ (s', raise x) | ok closed ↦ register_closings today closed s' ]

  unfoldable pub check_exits :
      MarketTickerEvent F → (now today : ℕ) → SignalPipeline F → SignalPipeline F × Result {0} Unit
  check_exits t now today s =
      after_tick today s
        (on_price_update t.symbol (exchange_value t.exchange) t.last_price now s.paper_engine)

  -- The body of `_consume_loop` for one event.
  unfoldable pub consume_event :
      Event F → (now today : ℕ) → SignalPipeline F → SignalPipeline F × Result {0} Unit
  consume_event (ticker t) now today s =
      check_exits t now today (record s { feature_store = ingest (ticker t) s.feature_store })
  consume_event e now today s = (record s { feature_store = ingest e s.feature_store }, ok tt)

  unfoldable pub run_stage1_cycle :
      SignalPipeline F → SignalPipeline F × (Exchange → SubscriptionDiff)
  run_stage1_cycle s =
      let promoted = rank_and_promote (screen_stage1 s.feature_store s.strategy) s.strategy in
      let (m, diffs) = update promoted s.candidate_manager in
      (record s { candidate_manager = m }, diffs)

  -- The arguments of `evaluate_signal` for a candidate with a price.
  abbrev pub context_of :
      SymbolFeatureState F → F → String → (now today : ℕ) → SignalPipeline F → Context F
  context_of state price signal_id now today s = record {
    features = state;
    current_price = price;
    strategy = s.strategy;
    account_equity_usd = s.strategy.paper_starting_equity_usd;
    btc_pause_active = compute_btc_pause s.feature_store s.strategy;
    signal_id = signal_id;
    decision_timestamp_ms = now;
    today = today;
  }

  -- The body of `_run_signal_cycle` for one candidate, up to `_handle_entry_pending`, with the
  -- result that this is called on.
  unfoldable pub evaluate_in :
      Context F → SignalPipeline F → SignalPipeline F × Result (Option (SignalResult F))
  evaluate_in c s =
      let (risk, r) = evaluate_signal c s.risk_engine in
      let s' = record s { risk_engine = risk } in
      elim r [
        | raise x ↦ (s', raise x)
        | ok result ↦ (
          record s' {
            signals_evaluated_total = s.signals_evaluated_total + 1;
            sent = s.sent ++ signal result.audit_trail ∷ [];
          },
          ok (if is_pending result.state then some result else none),
        )
      ]

  unfoldable pub evaluate_candidate :
      Exchange
      → (symbol signal_id : String) → (now today : ℕ) → SignalPipeline F
      → SignalPipeline F × Result (Option (SignalResult F))
  evaluate_candidate x symbol signal_id now today s = elim (get x symbol s.feature_store) [
    | none ↦ (s, ok none)
    | some state ↦ elim (current_price_for state) [
      | none ↦ (s, ok none)
      | some price ↦ evaluate_in (context_of state price signal_id now today s) s
    ]
  ]

  -- `_handle_entry_pending` up to the auditor's answer: whether it asks.
  unfoldable pub begin_entry : SignalResult F → F → SignalPipeline F → SignalPipeline F × Bool
  begin_entry r now s = elim s.claude_auditor [
    | none ↦ (s, false)
    | some a ↦
        if should_call r.exchange r.symbol now a
        then (record s { claude_auditor = some (record_call r.exchange r.symbol now a) }, true)
        else (s, false)
  ]

  unfoldable pub open_entry :
      SignalResult F → EntryOrder F → ℕ → SignalPipeline F → SignalPipeline F
  open_entry r o clock s =
      let (paper, position) =
        open_position r.signal_id r.symbol r.exchange o.entry_price o.stop_loss o.take_profit
          o.size_usd none clock s.paper_engine in
      record s {
        paper_engine = paper;
        risk_engine = register_open_position r.signal_id r.symbol s.risk_engine;
        entries_opened_total = s.entries_opened_total + 1;
        sent = s.sent ++ paper_trade_open position ∷ [];
      }

  -- The score that the message of an entry shows; it raises without a result or without a score.
  unfoldable pub shown_score : SignalResult F → Result F
  shown_score r = elim r.quant_result [
    | none ↦ raise Error.attribute_error
    | some q ↦ elim q.quant_score [ none ↦ raise Error.type_error | some x ↦ ok x ]
  ]

  -- The notification of an entry that has been opened.
  unfoldable pub notify_entry : SignalResult F → SignalPipeline F → SignalPipeline F × Result Bool
  unfolding shown_score
  notify_entry r s = elim (shown_score r) [
    | raise e ↦ (s, raise e)
    | ok score ↦ (record s { sent = s.sent ++ notified_entry r.symbol r.exchange ∷ [] }, ok true)
  ]

  -- The rest of it, when the decision of the auditor has come.
  unfoldable pub finish_entry :
      SignalResult F
      → ClaudeDecisionResult F
      → ℕ
      → SignalPipeline F
      → SignalPipeline F × Result Bool
  finish_entry r d clock s =
      let s' = record s { sent = s.sent ++ claude_decision r.signal_id d.decision ∷ [] } in
      elim d.decision [
        | approved ↦ elim (order_of r) [
          | none ↦ (s', raise Error.type_error)
          | some o ↦ notify_entry r (open_entry r o clock s')
        ]
        | _ ↦ (s', ok false)
      ]
