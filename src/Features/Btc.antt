-- ===== src/Features/Btc.antt =====
-- app/features/btc_filter.py: the market safety filter on the 15 minute change of BTC.
use binance_momentu.Prelude.{Bool, false, if◌then◌else◌, Option, none, some, length, last?, ltb}
use binance_momentu.Float.{Float, ◌⊖◌, ◌⊗◌, ◌⊘◌, ◌≤?◌, ◌<?◌, abs, lit, nought}
use binance_momentu.Domain.Enums.{binance}
use binance_momentu.Features.Store.{FeatureStore, get}
use binance_momentu.Features.Engine.{◌>>=◌, last_n, head?}

module _ {F : Type 0} ⦃f : Float F⦄ where
  unfoldable pub btc_15m_price_change_percent : FeatureStore F → Option F
  btc_15m_price_change_percent store = do
    state ← get binance "BTCUSDT" store
    if ltb (length state.closed_klines) 15 then none else (do
      current ← last? state.closed_klines
      ago ← head? (last_n 15 state.closed_klines)
      if ago.close ≤? nought
          then none
          else some ((current.close ⊖ ago.close) ⊘ ago.close ⊗ lit 100 0))

  unfoldable pub btc_volatility_pause_active : FeatureStore F → F → Bool
  btc_volatility_pause_active store threshold_percent = elim (btc_15m_price_change_percent store) [
    | none ↦ false
    | some change ↦ threshold_percent <? abs change
  ]
