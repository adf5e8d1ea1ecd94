-- ===== src/Signals/Engine/Entry.antt =====
-- What an evaluation that ends in ENTRY_PENDING has passed.
use binance_momentu.Prelude.{
  ◌≡◌, false, none, some, [], ◌∷◌, ok, if-cases, option-cases, result-cases, ok-injective, ◌≢◌, sym,
  ap, ◌∙◌,
}
use binance_momentu.Float.{Float, ◌≤?◌, ◌≼◌, ◌≺◌, ◌⊗◌, nought}
use binance_momentu.Domain.Enums.{no_trade, entry_pending}
use binance_momentu.Features.Engine.{range_1m, volume_1m_usd, spread_percent}
use binance_momentu.Risk.Sizing.{compute_raw_position_size, apply_position_constraints}
use binance_momentu.Risk.Engine.{RiskEngine, check_trade_allowed}
use binance_momentu.Risk.Engine.Limits.{IsOpenFor, check_trade_allowed_iff}
use binance_momentu.Signals.Friction.{
  estimated_slippage_percent, total_friction_percent, friction_coverage, friction_gate_passes,
}
use binance_momentu.Signals.ExitLevels.{
  StopLossResult, TakeProfitResult, compute_stop_loss, compute_take_profit,
}
use binance_momentu.Signals.Quant.{QuantScoreResult, compute_quant_score}
use binance_momentu.Signals.Breakout.{
  evaluate_breakout_trigger, evaluate_breakout_trigger_iff, IsBreakout, short_of,
}
use binance_momentu.Signals.Engine.{
  SignalDraft, SignalResult, Context, Evaluation, finalize, first_draft, after_gate, after_friction,
  after_inputs, after_size, after_stop, after_breakout, after_quant, evaluate_signal,
}

-- What holds of the risk engine and the result, if the evaluation ends in ENTRY_PENDING.
abbrev pub Ensures : {F : Type 0} → (RiskEngine F → SignalResult F → Type 0) → Evaluation F → Type 0
Ensures {F} P e = (r : SignalResult F) → e.1 ≡ ok r → r.state ≡ entry_pending → P e.0 r

-- The values that an entry was decided on.
pub record Decision (F : Type 0) : Type 0 where
  pub quant : QuantScoreResult F
  pub atr : F
  pub range : F
  pub volume : F
  pub spread : F
  pub slippage : F

module _ {F : Type 0} ⦃f : Float F⦄ (c : Context F) where
  abbrev pub stop_of : F → StopLossResult F
  stop_of atr = compute_stop_loss c.current_price atr c.strategy.sl_atr_multiplier

  abbrev pub profit_of : F → TakeProfitResult F
  profit_of atr =
      compute_take_profit c.current_price (stop_of atr).stop_loss c.strategy.take_profit_rr

  abbrev pub raw_of : F → F
  raw_of atr =
      (compute_raw_position_size c.account_equity_usd c.strategy.risk_per_trade_percent
        (stop_of atr).stop_distance_percent).1

  abbrev pub final_of : F → F
  final_of raw =
      (apply_position_constraints raw c.strategy.min_position_size_usd
        c.strategy.max_position_size_usd).final_position_size_usd

  abbrev pub friction_of : F → F → F
  friction_of spread slippage = total_friction_percent c.strategy.taker_fee_percent spread slippage

  -- The draft of an entry: every field is set, from the decision's values.
  abbrev pub entry_draft : Decision F → SignalDraft F
  entry_draft v = record (first_draft c v.quant) {
    breakout_result = some (
        evaluate_breakout_trigger c.features c.current_price v.quant c.strategy c.btc_pause_active);
    entry_price = some c.current_price;
    stop_loss_result = some (stop_of v.atr);
    take_profit_result = some (profit_of v.atr);
    raw_position_size_usd = some (raw_of v.atr);
    final_position_size_usd = some (final_of (raw_of v.atr));
    real_total_friction_percent = some (friction_of v.spread v.slippage);
    real_friction_coverage =
        some (
          friction_coverage (profit_of v.atr).net_expected_profit
            (friction_of v.spread v.slippage));
  }

  -- The gates that an entry has passed.
  pub record PassesGates (v : Decision F) (risk : RiskEngine F) : Type 0 where
    pub scored : compute_quant_score c.features c.current_price c.strategy ≡ ok v.quant
    pub breakout : IsBreakout c.features c.current_price v.quant c.strategy c.btc_pause_active
    pub atr_known : v.quant.atr_1m ≡ some v.atr
    pub stop_below : (stop_of v.atr).stop_loss ≺ c.current_price
    pub size_positive : (raw_of v.atr ≤? nought) ≡ false
    pub range_known : range_1m c.features ≡ some v.range
    pub volume_known : volume_1m_usd c.features ≡ some v.volume
    pub spread_known : spread_percent c.features ≡ some v.spread
    pub slippage_known :
        estimated_slippage_percent
          (raw_of v.atr)
          v.range
          v.atr
          v.volume
          c.strategy.base_slippage_percent
          c.strategy.slippage_gamma
        ≡ ok v.slippage
    pub covered :
        c.strategy.friction_coverage_ratio ⊗ friction_of v.spread v.slippage
        ≼ (profit_of v.atr).net_expected_profit
    pub risk_open : IsOpenFor c.btc_pause_active risk

  other-Ensures :
      (P : RiskEngine F → SignalResult F → Type 0) (risk : RiskEngine F) (x : SignalResult F)
      → x.state ≢ entry_pending
      → Ensures P (risk, ok x)
  other-Ensures P risk x n r e h = absurd (n (ap (λ y. y.state) (ok-injective e) ∙ h))

  -- An entry: its result is determined by the values that passed the gates.
  abbrev pub IsEntry : RiskEngine F → SignalResult F → Type 0
  IsEntry risk r =
      (v : Decision F) × PassesGates v risk × (r ≡ finalize c (entry_draft v) entry_pending [])

  after_gate-Ensures :
      (v : Decision F) (risk : RiskEngine F)
      → ((risk' : RiskEngine F) → IsOpenFor c.btc_pause_active risk' → PassesGates v risk')
      → Ensures IsEntry (
          after_gate c
            (record (entry_draft v) { final_position_size_usd = none })
            (raw_of v.atr)
            risk)
  unfolding after_gate
  after_gate-Ensures v risk k =
      let (risk', check) = check_trade_allowed c.btc_pause_active c.today risk in
      if-cases (Ensures IsEntry) check.allowed
        (λ t r e h. (
          v,
          k risk' ((check_trade_allowed_iff c.btc_pause_active c.today risk).0 t),
          sym (ok-injective e),
        ))
        (λ _. other-Ensures IsEntry risk' _ (λ x. cc))

  module _ (q : QuantScoreResult F) (atr : F)
      (scored : compute_quant_score c.features c.current_price c.strategy ≡ ok q)
      (breakout : IsBreakout c.features c.current_price q c.strategy c.btc_pause_active)
      (atr_known : q.atr_1m ≡ some atr) (stop_below : (stop_of atr).stop_loss ≺ c.current_price)
      (size_positive : (raw_of atr ≤? nought) ≡ false) where
    -- The draft when the raw size is known.
    abbrev sized_draft : SignalDraft F
    sized_draft = record (first_draft c q) {
      breakout_result =
          some
            (evaluate_breakout_trigger c.features c.current_price q c.strategy c.btc_pause_active);
      entry_price = some c.current_price;
      stop_loss_result = some (stop_of atr);
      take_profit_result = some (profit_of atr);
      raw_position_size_usd = some (raw_of atr);
    }

    after_inputs-Ensures :
        (range volume spread : F) (risk : RiskEngine F)
        → range_1m c.features ≡ some range
        → volume_1m_usd c.features ≡ some volume
        → spread_percent c.features ≡ some spread
        → Ensures IsEntry
            (after_inputs c sized_draft atr (profit_of atr) (raw_of atr) range volume spread risk)
    unfolding after_inputs after_friction friction_gate_passes
    after_inputs-Ensures range volume spread risk er ev es =
        result-cases (Ensures IsEntry)
          (estimated_slippage_percent (raw_of atr) range atr volume c.strategy.base_slippage_percent
            c.strategy.slippage_gamma)
          (λ e _ r h. cc)
          (λ slippage el.
            let v : Decision F = record {
              quant = q;
              atr = atr;
              range = range;
              volume = volume;
              spread = spread;
              slippage = slippage;
            } in
            if-cases (Ensures IsEntry)
              (friction_gate_passes (profit_of atr).net_expected_profit
                (friction_of spread slippage) c.strategy.friction_coverage_ratio)
              (λ t. after_gate-Ensures v risk (λ risk' open_for. record {
                scored = scored;
                breakout = breakout;
                atr_known = atr_known;
                stop_below = stop_below;
                size_positive = size_positive;
                range_known = er;
                volume_known = ev;
                spread_known = es;
                slippage_known = el;
                covered = t;
                risk_open = open_for;
              }))
              (λ _. other-Ensures IsEntry risk _ (λ x. cc)))

    after_size-Ensures :
        (risk : RiskEngine F)
        → Ensures IsEntry (after_size c sized_draft atr (profit_of atr) (raw_of atr) risk)
    unfolding after_size
    after_size-Ensures risk =
        let lost =
          other-Ensures IsEntry risk
            (finalize c sized_draft no_trade ("real_friction_inputs_unavailable" ∷ [])) (λ x. cc) in
        option-cases (Ensures IsEntry) (range_1m c.features) (λ _. lost)
          (λ range er.
            option-cases (Ensures IsEntry) (volume_1m_usd c.features) (λ _. lost)
              (λ volume ev.
                option-cases (Ensures IsEntry) (spread_percent c.features) (λ _. lost)
                  (λ spread es. after_inputs-Ensures range volume spread risk er ev es)))

  after_breakout-Ensures :
      (q : QuantScoreResult F) (risk : RiskEngine F)
      → compute_quant_score c.features c.current_price c.strategy ≡ ok q
      → IsBreakout c.features c.current_price q c.strategy c.btc_pause_active
      → Ensures IsEntry (
          after_breakout c
            (record (first_draft c q) {
              breakout_result = some (
                  evaluate_breakout_trigger c.features c.current_price q c.strategy
                    c.btc_pause_active);
            })
            q
            risk)
  unfolding after_breakout after_stop
  after_breakout-Ensures q risk scored breakout =
      option-cases (Ensures IsEntry) q.atr_1m (λ _. other-Ensures IsEntry risk _ (λ x. cc))
        (λ atr ea.
          if-cases (Ensures IsEntry) (stop_of atr).valid
            (λ below.
              if-cases (Ensures IsEntry) (raw_of atr ≤? nought)
                (λ _. other-Ensures IsEntry risk _ (λ x. cc))
                (λ positive.
                  after_size-Ensures q atr scored breakout ea (unfold compute_stop_loss in below)
                    positive risk))
            (λ _. other-Ensures IsEntry risk _ (λ x. cc)))

  evaluate_signal-Ensures : (risk : RiskEngine F) → Ensures IsEntry (evaluate_signal c risk)
  unfolding evaluate_signal after_quant
  evaluate_signal-Ensures risk =
      result-cases (Ensures IsEntry) (compute_quant_score c.features c.current_price c.strategy)
        (λ e _ r h. cc)
        (λ q scored.
          let trigger =
            evaluate_breakout_trigger c.features c.current_price q c.strategy c.btc_pause_active in
          if-cases (Ensures IsEntry) q.computable
            (λ _.
              if-cases (Ensures IsEntry) (short_of q.quant_score c.strategy.claude_score_threshold)
                (λ _. other-Ensures IsEntry risk _ (λ x. cc))
                (λ _.
                  if-cases (Ensures IsEntry) trigger.triggered
                    (λ t. after_breakout-Ensures q risk scored (
                      (evaluate_breakout_trigger_iff c.features c.current_price q c.strategy
                          c.btc_pause_active).0
                        t))
                    (λ _. other-Ensures IsEntry risk _ (λ x. cc))))
            (λ _. other-Ensures IsEntry risk _ (λ x. cc)))

  -- An evaluation that ends in ENTRY_PENDING has passed every gate, on values that are there, and
  -- its result is the one that these values determine: the entry at the evaluated price, the stop
  -- and the profit of the ATR, the raw size of the stop, and the friction at the raw size. No later
  -- stage has changed an earlier value.
  pub evaluate_signal-IsEntry :
      (risk : RiskEngine F) (r : SignalResult F)
      → (evaluate_signal c risk).1 ≡ ok r
      → r.state ≡ entry_pending
      → IsEntry (evaluate_signal c risk).0 r
  evaluate_signal-IsEntry risk r e h = evaluate_signal-Ensures risk r e h
