-- ===== src/Signals/ExitLevels.antt =====
-- app/signals/exit_levels.py: stop loss and take profit of a long entry.
use binance_momentu.Prelude.{Bool, if◌then◌else◌}
use binance_momentu.Float.{Float, ◌⊕◌, ◌⊖◌, ◌⊗◌, ◌⊘◌, ◌<?◌, abs, lit, nought, epsilon}

pub record StopLossResult (F : Type 0) : Type 0 where
  pub stop_loss : F
  pub stop_distance_absolute : F
  pub stop_distance_percent : F
  pub valid : Bool

pub record TakeProfitResult (F : Type 0) : Type 0 where
  pub take_profit : F
  pub expected_move_absolute : F
  pub expected_move_percent : F
  pub net_expected_profit : F
  pub reward_risk_ratio : F

module _ {F : Type 0} ⦃f : Float F⦄ where
  unfoldable pub compute_stop_loss : (entry_price atr sl_atr_multiplier : F) → StopLossResult F
  compute_stop_loss entry_price atr sl_atr_multiplier =
      let stop_distance = sl_atr_multiplier ⊗ atr in
      let stop_loss = entry_price ⊖ stop_distance in
      record {
        stop_loss = stop_loss;
        stop_distance_absolute = stop_distance;
        stop_distance_percent =
            if epsilon <? entry_price then stop_distance ⊘ entry_price else nought;
        valid = stop_loss <? entry_price;
      }

  unfoldable pub compute_take_profit :
      (entry_price stop_loss take_profit_rr : F) → TakeProfitResult F
  compute_take_profit entry_price stop_loss take_profit_rr =
      let risk_per_unit = abs (entry_price ⊖ stop_loss) in
      let expected_move = take_profit_rr ⊗ risk_per_unit in
      let percent =
        if epsilon <? entry_price then expected_move ⊘ entry_price ⊗ lit 100 0 else nought in
      record {
        take_profit = entry_price ⊕ expected_move;
        expected_move_absolute = expected_move;
        expected_move_percent = percent;
        net_expected_profit = percent;
        reward_risk_ratio = take_profit_rr;
      }
