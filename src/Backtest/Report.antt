-- ===== src/Backtest/Report.antt =====
-- The figures of a `BacktestReport`, properties of its trades.
use binance_momentu.Prelude.{
  ℕ, ◌≡◌, refl, Bool, false, if◌then◌else◌, Option, none, some, List, [], ◌∷◌, ◌++◌, length, map,
  Result, ok, ◌>>=◌, is_empty, arith,
}
use binance_momentu.Float.{
  Float, ◌⊕◌, ◌⊖◌, ◌⊗◌, ◌⊘◌, ◌≤?◌, ◌<?◌, ◌≼◌, neg, lit, of_int, nought, max, sum, divide,
}
use binance_momentu.Float.Laws.{IsOrdered, le-max}
use binance_momentu.Backtest.{BacktestTrade, BacktestReport}

module _ {F : Type 0} ⦃f : Float F⦄ where
  -- The trades whose result passes a test.
  abbrev pub trades_where : (F → Bool) → List (BacktestTrade F) → List (BacktestTrade F)
  trades_where test [] = []
  trades_where test (t ∷ ts) =
      let rest = trades_where test ts in if test t.pnl_percent then t ∷ rest else rest

  abbrev pub winners : BacktestReport F → List (BacktestTrade F)
  winners r = trades_where (λ x. nought <? x) r.trades

  abbrev pub losers : BacktestReport F → List (BacktestTrade F)
  losers r = trades_where (λ x. x <? nought) r.trades

  unfoldable pub trade_count : BacktestReport F → ℕ
  trade_count r = length r.trades

  unfoldable pub win_rate : BacktestReport F → Option F
  win_rate r =
      if is_empty r.trades
      then none
      else some (of_int (length (winners r)) ⊘ of_int (length r.trades))

  unfoldable pub expectancy_r : BacktestReport F → Option F
  expectancy_r r =
      if is_empty r.trades
      then none
      else some (sum (map (λ t. t.r_multiple) r.trades) ⊘ of_int (length r.trades))

  unfoldable pub profit_factor : BacktestReport F → Option F
  profit_factor r =
      let gains = sum (map (λ t. t.pnl_percent) (winners r)) in
      let losses = sum (map (λ t. neg t.pnl_percent) (losers r)) in
      if losses ≤? nought then none else some (gains ⊘ losses)

  -- The loop of `max_drawdown_percent`.
  unfoldable pub drawdown_from : F → F → F → List (BacktestTrade F) → Result F
  drawdown_from equity peak max_dd [] = ok max_dd
  drawdown_from equity peak max_dd (t ∷ ts) =
      let equity' = equity ⊗ (lit 1 0 ⊕ t.pnl_percent ⊘ lit 100 0) in
      let peak' = max peak equity' in
      divide (peak' ⊖ equity') peak' >>= λ below.
      drawdown_from equity' peak' (max max_dd (below ⊗ lit 100 0)) ts

  unfoldable pub max_drawdown_percent : BacktestReport F → Result (Option F)
  max_drawdown_percent r =
      if is_empty r.trades
      then ok none
      else (drawdown_from (lit 100 0) (lit 100 0) nought r.trades >>= λ d. ok (some d))

is_empty-append : {A : Type 0} (xs ys : List A) → is_empty xs ≡ false → is_empty (xs ++ ys) ≡ false
is_empty-append [] ys e = absurd (ground arith)
is_empty-append (x ∷ xs) ys e = refl

module _ {F : Type 0} ⦃f : Float F⦄ (laws : IsOrdered F) where
  positive_peak : (peak : F) → lit 100 0 ≼ peak → f.eq peak nought ≡ false
  positive_peak peak h =
      let above =
        laws.lt_of_lt_of_le _ _ _ laws.nought-lt-one (laws.lit_mono 1 100 0 (omega arith)) in
      laws.not_eq_of_lt peak (laws.lt_of_lt_of_le _ _ _ above h)

  -- From a peak of at least 100 and a drawdown that is a number on, the loop does not raise, and
  -- what it returns is at least the drawdown so far.
  drawdown_from-le :
      (equity peak max_dd : F) (ts : List (BacktestTrade F))
      → lit 100 0 ≼ peak
      → max_dd ≼ max_dd
      → (d : F) × (drawdown_from equity peak max_dd ts ≡ ok d) × (max_dd ≼ d)
  unfolding drawdown_from
  drawdown_from-le equity peak max_dd [] h n = (max_dd, refl, n)
  drawdown_from-le equity peak max_dd (t ∷ ts) h n =
      let equity' = equity ⊗ (lit 1 0 ⊕ t.pnl_percent ⊘ lit 100 0) in
      let peak' = max peak equity' in
      let dd = max max_dd ((peak' ⊖ equity') ⊘ peak' ⊗ lit 100 0) in
      let grows = le-max laws max_dd _ n in
      let h' = laws.le_trans _ _ _ h (le-max laws peak equity' (laws.number_right _ _ h)) in
      let (d, known, more) =
        drawdown_from-le equity' peak' dd ts h' (laws.number_right _ _ grows) in
      (d, rw (positive_peak peak' h') known, laws.le_trans _ _ _ grows more)

  -- Going on with further trades does not lower it.
  drawdown_from-append :
      (equity peak max_dd : F) (ts us : List (BacktestTrade F))
      → lit 100 0 ≼ peak
      → max_dd ≼ max_dd
      → (d : F) × (d' : F) × (drawdown_from equity peak max_dd ts ≡ ok d)
        × (drawdown_from equity peak max_dd (ts ++ us) ≡ ok d')
        × (max_dd ≼ d)
        × (d ≼ d')
  unfolding drawdown_from
  drawdown_from-append equity peak max_dd [] us h n =
      let (d', known, more) = drawdown_from-le equity peak max_dd us h n in
      (max_dd, d', refl, known, n, more)
  drawdown_from-append equity peak max_dd (t ∷ ts) us h n =
      let equity' = equity ⊗ (lit 1 0 ⊕ t.pnl_percent ⊘ lit 100 0) in
      let peak' = max peak equity' in
      let dd = max max_dd ((peak' ⊖ equity') ⊘ peak' ⊗ lit 100 0) in
      let grows = le-max laws max_dd _ n in
      let h' = laws.le_trans _ _ _ h (le-max laws peak equity' (laws.number_right _ _ h)) in
      let (d, d', one, two, low, more) =
        drawdown_from-append equity' peak' dd ts us h' (laws.number_right _ _ grows) in
      (
        d,
        d',
        rw (positive_peak peak' h') one,
        rw (positive_peak peak' h') two,
        laws.le_trans _ _ _ grows low,
        more,
      )

  -- The maximum drawdown of a report with trades is a number, never an exception: it is not
  -- negative, and the report with any further trades has at least that one.
  pub max_drawdown_percent_lem :
      (r : BacktestReport F) (more : List (BacktestTrade F))
      → is_empty r.trades ≡ false
      → (d : F) × (d' : F) × (max_drawdown_percent r ≡ ok (some d))
        × (max_drawdown_percent (record r { trades = r.trades ++ more }) ≡ ok (some d'))
        × (nought ≼ d)
        × (d ≼ d')
  unfolding max_drawdown_percent
  max_drawdown_percent_lem r more e =
      let hundred = lit 100 0 in
      let (d, d', one, two, low, up) =
        drawdown_from-append hundred hundred nought r.trades more
          (laws.lit_mono 100 100 0 (omega arith)) (laws.lit_mono 0 0 0 (omega arith)) in
      (d, d', rw (e, one) refl, rw (is_empty-append r.trades more e, two) refl, low, up)
