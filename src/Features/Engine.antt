-- ===== src/Features/Engine.antt =====
-- app/features/feature_engine.py: the pure feature functions over a `SymbolFeatureState`. `none` is
-- `None`. `median` is `statistics.median`. A window that the callers leave at its default is a
-- constant here.
use binance_momentu.Prelude.{
  ℕ, ◌+◌, ◌-◌, ◌/◌, ◌%◌, Bool, ◌&&◌, ◌||◌, if◌then◌else◌, Option, none, some, List, [], ◌∷◌, length,
  take, drop, last?, map, ltb, ◌==◌, is_empty,
}
use binance_momentu.Float.{
  Float, ◌⊕◌, ◌⊖◌, ◌⊗◌, ◌⊘◌, ◌≤?◌, ◌<?◌, abs, lit, of_int, nought, epsilon, max, sum,
}
use binance_momentu.Config.{StrategyConfig}
use binance_momentu.Domain.Events.{KlineEvent, kline_net_taker_delta, book_spread_percent}
use binance_momentu.Features.Store.{SymbolFeatureState, net_taker_delta_available}

-- Chaining of optional values.
infixl 5 ◌>>=◌
abbrev pub ◌>>=◌ {ℓ κ} : {A : Type ℓ} {B : Type κ} → Option A → (A → Option B) → Option B
none >>= g = none
some a >>= g = g a

-- The slice `xs[-n:]` of a list that holds at least n items.
abbrev pub last_n : {A : Type 0} → ℕ → List A → List A
last_n n xs = drop (length xs - n) xs

abbrev pub head? : {A : Type 0} → List A → Option A
head? [] = none
head? (x ∷ xs) = some x

abbrev pub atr_period : ℕ
atr_period = 14

abbrev pub baseline_period : ℕ
baseline_period = 20

abbrev pub recent_window : ℕ
recent_window = 3

abbrev pub lookback_period : ℕ
lookback_period = 20

pub record BreakoutInputs (F : Type 0) : Type 0 where
  pub prior_high : F
  pub breakout_buffer : F
  pub breakout_level : F
  pub breakout_distance_atr : F

module _ {F : Type 0} ⦃f : Float F⦄ where
  -- `sorted`, by insertion.
  unfoldable pub insert_sorted : F → List F → List F
  insert_sorted x [] = x ∷ []
  insert_sorted x (y ∷ ys) = if x <? y then x ∷ y ∷ ys else y ∷ insert_sorted x ys

  unfoldable pub sorted : List F → List F
  unfolding insert_sorted
  sorted [] = []
  sorted (x ∷ xs) = insert_sorted x (sorted xs)

  unfoldable pub middle : List F → ℕ → F
  middle xs i = elim (head? (drop i xs)) [ none ↦ nought | some x ↦ x ]

  -- Of a list with at least one item: the middle one, or the mean of the middle two.
  unfoldable pub median : List F → F
  unfolding sorted middle
  median xs =
      let s = sorted xs in
      let half = length xs / 2 in
      if length xs % 2 == 1 then middle s half else (middle s (half - 1) ⊕ middle s half) ⊘ lit 2 0

  -- The builtin `max` of a list with at least one item, from its first item on.
  unfoldable pub max_from : F → List F → F
  max_from best [] = best
  max_from best (x ∷ xs) = max_from (max best x) xs

  unfoldable pub true_range : KlineEvent F → F → F
  true_range current prev_close =
      max (max (current.high ⊖ current.low) (abs (current.high ⊖ prev_close)))
        (abs (current.low ⊖ prev_close))

  -- The true ranges of a window, each against the close before it.
  unfoldable pub true_ranges : List (KlineEvent F) → List F
  true_ranges [] = []
  true_ranges (k ∷ []) = []
  true_ranges (k ∷ j ∷ ks) = true_range j k.close ∷ true_ranges (j ∷ ks)

  unfoldable pub atr_1m : SymbolFeatureState F → Option F
  atr_1m state =
      if ltb (length state.closed_klines) (atr_period + 1)
      then none
      else (let trs = true_ranges (last_n (atr_period + 1) state.closed_klines) in
          if is_empty trs then none else some (sum trs ⊘ of_int (length trs)))

  -- A volume relative to a median that is not near zero.
  unfoldable pub over_median : F → F → Option F
  over_median volume median_volume =
      if median_volume ≤? epsilon then none else some (volume ⊘ median_volume)

  unfoldable pub rvol : SymbolFeatureState F → Option F
  unfolding over_median
  rvol state =
      let klines = state.closed_klines in
      if ltb (length klines) (baseline_period + 1) then none else (do
        current ← last? klines
        let window = take baseline_period (last_n (baseline_period + 1) klines)
        over_median current.base_volume (median (map (λ k. k.base_volume) window)))

  unfoldable pub trade_acceleration : SymbolFeatureState F → Option F
  unfolding over_median
  trade_acceleration state =
      let klines = state.closed_klines in
      let total_needed = recent_window + baseline_period in
      if ltb (length klines) total_needed
      then none
      else (let recent = last_n recent_window klines in
          let baseline = take baseline_period (last_n total_needed klines) in
          over_median (sum (map (λ k. k.base_volume) recent) ⊘ of_int (length recent))
            (median (map (λ k. k.base_volume) baseline)))

  unfoldable pub price_change_percent : KlineEvent F → F
  price_change_percent k =
      if k.open_price ≤? epsilon then nought else abs (k.close ⊖ k.open_price) ⊘ k.open_price

  unfoldable pub net_taker_delta : SymbolFeatureState F → Option F
  net_taker_delta state =
      if net_taker_delta_available state
      then (do latest ← last? state.closed_klines; some (kline_net_taker_delta latest))
      else none

  unfoldable pub pde : SymbolFeatureState F → Option F
  pde state = do
    latest ← last? state.closed_klines
    delta ← net_taker_delta state
    some (price_change_percent latest ⊘ max (abs delta) epsilon)

  unfoldable pub absorption_gate : SymbolFeatureState F → Option Bool
  absorption_gate state = do
    latest ← last? state.closed_klines
    delta ← net_taker_delta state
    atr ← atr_1m state
    if latest.open_price ≤? epsilon
        then none
        else some
            (lit 30 2 ≤? delta && price_change_percent latest <? lit 25 2 ⊗ atr ⊘ latest.open_price)

  unfoldable pub momentum_ratio : ℕ → SymbolFeatureState F → Option F
  momentum_ratio window_minutes state =
      let klines = state.closed_klines in
      if ltb (length klines) (window_minutes + 1) then none else (do
        latest ← last? klines
        ago ← head? (last_n (window_minutes + 1) klines)
        if ago.close ≤? epsilon || latest.close ≤? epsilon then none else (do
          atr ← atr_1m state
          let move = abs (latest.close ⊖ ago.close) ⊘ ago.close
          let baseline = atr ⊘ latest.close
          if baseline ≤? epsilon then none else some (move ⊘ baseline)))

  unfoldable pub breakout_inputs :
      SymbolFeatureState F → F → StrategyConfig F → Option (BreakoutInputs F)
  breakout_inputs state current_price strategy =
      let klines = state.closed_klines in
      if ltb (length klines) lookback_period then none else (do
        first ← head? (last_n lookback_period klines)
        atr ← atr_1m state
        let prior_high =
            max_from first.high (map (λ k. k.high) (drop 1 (last_n lookback_period klines)))
        let buffer = strategy.breakout_atr_multiplier ⊗ atr
        some (record {
          prior_high = prior_high;
          breakout_buffer = buffer;
          breakout_level = prior_high ⊕ buffer;
          breakout_distance_atr =
              if epsilon <? atr then (current_price ⊖ prior_high) ⊘ atr else nought;
        }))

  unfoldable pub volume_1m_usd : SymbolFeatureState F → Option F
  volume_1m_usd state = do latest ← last? state.closed_klines; some latest.quote_volume

  unfoldable pub range_1m : SymbolFeatureState F → Option F
  range_1m state = do latest ← last? state.closed_klines; some (latest.high ⊖ latest.low)

  unfoldable pub dollar_volume_24h : SymbolFeatureState F → Option F
  dollar_volume_24h state = do t ← state.latest_ticker; t.volume_24h_quote

  unfoldable pub spread_percent : SymbolFeatureState F → Option F
  spread_percent state = do b ← state.latest_book_ticker; book_spread_percent b
