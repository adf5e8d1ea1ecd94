-- ===== src/Pipeline/Lockstep.antt =====
-- The risk engine and the paper engine hold the same positions, through everything that the loops
-- of the pipeline do.
use binance_momentu.Prelude.{
  ℕ, ◌+◌, ◌≡◌, refl, sym, ap, ◌∙◌, subst, false, none, some, List, [], ◌∷◌, ◌++◌, All, String, ok,
  arith, option-cases, length, length-append,
}
use binance_momentu.Prelude.Dict.{Dict, lookup, string_key}
use binance_momentu.Float.{Float, ◌⊘◌, ◌⊗◌, nought, lit}
use binance_momentu.Config.{StrategyConfig}
use binance_momentu.Domain.Enums.{exchange_value}
use binance_momentu.Domain.Events.{MarketTickerEvent}
use binance_momentu.Execution.Paper.{PaperPosition, PaperTradingEngine, exit_of, on_price_update}
use binance_momentu.Execution.Paper.Exits.{
  IsKeyed, staying, leaving, conserved, on_price_update_lem,
}
use binance_momentu.Risk.Engine.{RiskEngine, maybe_reset_day, register_closed_position}
use binance_momentu.Pipeline.{
  SignalPipeline, pnl_percent_of_equity, register_closings, after_tick, check_exits, closing_sent,
}
use binance_momentu.Pipeline.Keys.{
  keys, remove_key, remove_keys, keys-remove, update_loop-TakesKeys,
}

module _ {F : Type 0} ⦃f : Float F⦄ where
  HasPnl : PaperPosition F → Type 0
  HasPnl p = (x : F) × (p.realized_pnl_usd ≡ some x)

  leaving-HasPnl :
      (symbol exchange : String) (price : F) (now : ℕ) (m : Dict String (PaperPosition F))
      → All HasPnl (leaving symbol exchange price now m)
  unfolding HasPnl
  leaving-HasPnl symbol exchange price now [] = tt
  leaving-HasPnl symbol exchange price now ((k, p) ∷ m) =
      option-cases (All HasPnl) (exit_of symbol exchange price p)
        (λ _. leaving-HasPnl symbol exchange price now m)
        (λ s e. ((_, refl), leaving-HasPnl symbol exchange price now m))

  staying-fresh :
      (symbol exchange : String) (price : F) (now : ℕ) (k : String)
      (m : Dict String (PaperPosition F))
      → lookup k m ≡ none
      → lookup k (staying symbol exchange price now m) ≡ none
  unfolding lookup
  staying-fresh symbol exchange price now k [] h = h
  staying-fresh symbol exchange price now k ((j, p) ∷ m) h =
      option-cases (λ (n : Dict String (PaperPosition F)). lookup k n ≡ none)
        (exit_of symbol exchange price p)
        (λ _. ground (arith, staying-fresh symbol exchange price now k m))
        (λ s e. ground (arith, staying-fresh symbol exchange price now k m))

  staying-IsKeyed :
      (symbol exchange : String) (price : F) (now : ℕ) (m : Dict String (PaperPosition F))
      → IsKeyed m
      → IsKeyed (staying symbol exchange price now m)
  staying-IsKeyed symbol exchange price now [] h = tt
  staying-IsKeyed symbol exchange price now ((k, p) ∷ m) h =
      option-cases IsKeyed (exit_of symbol exchange price p)
        (λ _. (
          h.0,
          staying-fresh symbol exchange price now k m h.1,
          h.2,
          staying-IsKeyed symbol exchange price now m h.3,
        ))
        (λ s e. staying-IsKeyed symbol exchange price now m h.3)

  register_closed-keys :
      (id : String) (pnl : F) (today : ℕ) (r : RiskEngine F)
      → keys (register_closed_position id pnl today r).open_positions
        ≡ remove_key id (keys r.open_positions)
  unfolding register_closed_position maybe_reset_day
  register_closed-keys id pnl today r = ground (arith, keys-remove id r.open_positions)

  pnl_percent_of_equity_lem :
      (c : StrategyConfig F) (p : PaperPosition F) (x : F)
      → p.realized_pnl_usd ≡ some x
      → f.eq c.paper_starting_equity_usd nought ≡ false
      → pnl_percent_of_equity c p ≡ ok (x ⊘ c.paper_starting_equity_usd ⊗ lit 100 0)
  unfolding pnl_percent_of_equity
  pnl_percent_of_equity_lem c p x e n = ground arith

  -- The closings of positions with a result are all registered.
  register_closings_lem :
      (today : ℕ) (ps : List (PaperPosition F)) (s : SignalPipeline F)
      → All HasPnl ps
      → f.eq s.strategy.paper_starting_equity_usd nought ≡ false
      → let (s', r) = register_closings today ps s in
        (r ≡ ok tt)
        × (s'.paper_engine ≡ s.paper_engine)
        × (s'.strategy ≡ s.strategy)
        × (s'.entries_opened_total ≡ s.entries_opened_total)
        × (keys s'.risk_engine.open_positions ≡ remove_keys ps (keys s.risk_engine.open_positions))
  unfolding register_closings HasPnl
  register_closings_lem today [] s h n = (refl, refl, refl, refl, refl)
  register_closings_lem today (p ∷ ps) s h n =
      let ((x, e), rest) = h in
      let percent = x ⊘ s.strategy.paper_starting_equity_usd ⊗ lit 100 0 in
      let s' = record s {
        risk_engine = register_closed_position p.signal_id percent today s.risk_engine;
        sent = s.sent ++ closing_sent p;
      } in
      let (returns, paper, strategy, opened, left) = register_closings_lem today ps s' rest n in
      rw (register_closings, pnl_percent_of_equity_lem s.strategy p x e n)
        (
          returns,
          paper,
          strategy,
          opened,
          left ∙ ap (remove_keys ps) (register_closed-keys p.signal_id percent today s.risk_engine),
        )

  -- The two engines in step: the positions of the paper engine are well keyed, the risk engine has
  -- the same identifiers in the same order, every entry is open or closed, and the starting equity
  -- is not 0.
  pub record InStep (s : SignalPipeline F) : Type 0 where
    pub keyed : IsKeyed s.paper_engine.open_positions
    pub same_keys : keys s.risk_engine.open_positions ≡ keys s.paper_engine.open_positions
    pub tally :
        s.entries_opened_total
        ≡ length s.paper_engine.open_positions + length s.paper_engine.closed_positions
    pub equity : f.eq s.strategy.paper_starting_equity_usd nought ≡ false

  staying-keys :
      (symbol exchange : String) (price : F) (now : ℕ) (e : PaperTradingEngine F)
      → IsKeyed e.open_positions
      → keys (staying symbol exchange price now e.open_positions)
        ≡ remove_keys (leaving symbol exchange price now e.open_positions) (keys e.open_positions)
  unfolding on_price_update
  staying-keys symbol exchange price now e h =
      let tick = (on_price_update_lem symbol exchange price now e h).0 in
      let (new, same, left) =
        update_loop-TakesKeys symbol exchange price now e.open_positions [] e
          (leaving symbol exchange price now e.open_positions) (ap (λ x. x.1) tick) in
      sym (ap (λ x. keys x.0.open_positions) tick)
      ∙ left
      ∙ ap (λ ps. remove_keys ps (keys e.open_positions)) (sym same)

  -- From two engines in step, the exit check of a ticker does not raise, and leaves them in step.
  pub check_exits-InStep :
      (t : MarketTickerEvent F) (now today : ℕ) (s : SignalPipeline F)
      → InStep s
      → let (s', r) = check_exits t now today s in (r ≡ ok tt) × InStep s'
  unfolding check_exits after_tick
  check_exits-InStep t now today s h =
      let symbol = t.symbol in
      let exchange = exchange_value t.exchange in
      let m = s.paper_engine.open_positions in
      let gone = leaving symbol exchange t.last_price now m in
      let stays = staying symbol exchange t.last_price now m in
      let paper : PaperTradingEngine F = record {
        open_positions = stays;
        closed_positions = s.paper_engine.closed_positions ++ gone;
      } in
      let (returns, kept, strategy, opened, closed) =
        register_closings_lem today gone (record s { paper_engine = paper })
          (leaving-HasPnl symbol exchange t.last_price now m) h.equity in
      let moved : length m + length s.paper_engine.closed_positions
          ≡ length stays + length (s.paper_engine.closed_positions ++ gone) =
        omega (
          arith,
          conserved symbol exchange t.last_price now m,
          length-append s.paper_engine.closed_positions gone,
        ) in
      subst (λ out. let (s', r) = after_tick today s out in (r ≡ ok tt) × InStep s')
        (sym (on_price_update_lem symbol exchange t.last_price now s.paper_engine h.keyed).0)
        (
          returns,
          record {
            keyed =
                subst (λ (x : PaperTradingEngine F). IsKeyed x.open_positions) (sym kept)
                  (staying-IsKeyed symbol exchange t.last_price now m h.keyed);
            same_keys =
                closed
                ∙ ap (remove_keys gone) h.same_keys
                ∙ sym (staying-keys symbol exchange t.last_price now s.paper_engine h.keyed)
                ∙ sym (ap (λ x. keys x.open_positions) kept);
            tally =
                opened
                ∙ h.tally
                ∙ moved
                ∙ sym (ap (λ x. length x.open_positions + length x.closed_positions) kept);
            equity =
                subst (λ c. f.eq c.paper_starting_equity_usd nought ≡ false) (sym strategy)
                  h.equity;
          },
        )
