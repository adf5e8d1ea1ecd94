-- ===== src/Execution/Paper.antt =====
-- app/execution/paper_engine.py: `PaperTradingEngine`. A position object is in one place at a time,
-- in `open` or in `closed`, so it is a value. The clock is an argument. `_close` divides by the entry
-- price, and a raised ZeroDivisionError leaves the positions that were closed before it closed.
pub mod Exits
use binance_momentu.Prelude.{
  ℕ, zero, suc, ◌≡◌, refl, Bool, true, false, not, ◌&&◌, ◌||◌, if◌then◌else◌, Option, none, some,
  List, [], ◌∷◌, ◌++◌, String, str_eq, Result, Error, ok, raise, ◌>>=◌,
}
use binance_momentu.Prelude.Dict.{Dict, lookup, insert, remove, values, string_key}
use binance_momentu.Float.{Float, ◌⊖◌, ◌⊗◌, ◌≤?◌, nought, divide}
use binance_momentu.Domain.Enums.{SignalState, paper_position_open, take_profit, stop_loss}

pub record PaperPosition (F : Type 0) : Type 0 where
  pub signal_id : String
  pub symbol : String
  pub exchange : String
  pub entry_price : F
  pub stop_loss : F
  pub take_profit : F
  pub size_usd : F
  pub opened_at_ms : ℕ
  pub state : SignalState
  pub closed_at_ms : Option ℕ
  pub exit_price : Option F
  pub realized_pnl_usd : Option F
  pub realized_pnl_percent_of_size : Option F

pub record PaperTradingEngine (F : Type 0) : Type 0 where
  pub open_positions : Dict String (PaperPosition F)
  pub closed_positions : List (PaperPosition F)

-- `given or now`: a zero counts as absent.
abbrev pub or_now : Option ℕ → ℕ → ℕ
or_now none now = now
or_now (some zero) now = now
or_now (some (suc n)) now = suc n

module _ {F : Type 0} where
  abbrev pub empty_engine : PaperTradingEngine F
  empty_engine = record { open_positions = []; closed_positions = [] }

  abbrev pub new_position :
      (signal_id symbol exchange : String) (entry stop profit size : F) → ℕ → PaperPosition F
  new_position signal_id symbol exchange entry stop profit size opened_at = record {
    signal_id = signal_id;
    symbol = symbol;
    exchange = exchange;
    entry_price = entry;
    stop_loss = stop;
    take_profit = profit;
    size_usd = size;
    opened_at_ms = opened_at;
    state = paper_position_open;
    closed_at_ms = none;
    exit_price = none;
    realized_pnl_usd = none;
    realized_pnl_percent_of_size = none;
  }

  unfoldable pub open_position :
      (signal_id symbol exchange : String) (entry stop profit size : F)
      → Option ℕ
      → ℕ
      → PaperTradingEngine F
      → PaperTradingEngine F × PaperPosition F
  open_position signal_id symbol exchange entry stop profit size opened_at now e =
      let p =
        new_position signal_id symbol exchange entry stop profit size (or_now opened_at now) in
      (record e { open_positions = insert signal_id p e.open_positions }, p)

module _ {F : Type 0} ⦃f : Float F⦄ where
  -- The fields that `_close` sets.
  abbrev pub closed_as : PaperPosition F → F → SignalState → ℕ → F → PaperPosition F
  closed_as p price state now percent = record p {
    exit_price = some price;
    state = state;
    closed_at_ms = some now;
    realized_pnl_percent_of_size = some percent;
    realized_pnl_usd = some (p.size_usd ⊗ percent);
  }

  unfoldable pub close :
      PaperPosition F
      → F
      → SignalState
      → ℕ
      → PaperTradingEngine F
      → Result (PaperTradingEngine F × PaperPosition F)
  close p price state now e = do
    percent ← divide (price ⊖ p.entry_price) p.entry_price
    let p' = closed_as p price state now percent
    ok (
      record {
        open_positions = remove p.signal_id e.open_positions;
        closed_positions = e.closed_positions ++ p' ∷ [];
      },
      p',
    )

  -- Which exit a tick triggers: none for a position of another symbol or exchange.
  unfoldable pub exit_of : (symbol exchange : String) → F → PaperPosition F → Option SignalState
  exit_of symbol exchange price p =
      if not (str_eq p.symbol symbol) || not (str_eq p.exchange exchange)
      then none
      else (if p.take_profit ≤? price
          then some SignalState.take_profit
          else if price ≤? p.stop_loss
          then some SignalState.stop_loss
          else none)

  -- The loop over the snapshot of the open positions, with those closed so far.
  unfoldable pub update_loop :
      (symbol exchange : String)
      → F
      → ℕ
      → List (String × PaperPosition F)
      → List (PaperPosition F)
      → PaperTradingEngine F
      → PaperTradingEngine F × Result (List (PaperPosition F))
  update_loop symbol exchange price now [] done e = (e, ok done)
  update_loop symbol exchange price now ((k, p) ∷ rest) done e =
      elim (exit_of symbol exchange price p) [
        | none ↦ update_loop symbol exchange price now rest done e
        | some state ↦ elim (close p price state now e) [
          | raise x ↦ (e, raise x)
          | ok (e', p') ↦ update_loop symbol exchange price now rest (done ++ p' ∷ []) e'
        ]
      ]

  unfoldable pub on_price_update :
      (symbol exchange : String)
      → F
      → ℕ
      → PaperTradingEngine F
      → PaperTradingEngine F × Result (List (PaperPosition F))
  on_price_update symbol exchange price now e =
      update_loop symbol exchange price now e.open_positions [] e

  unfoldable pub force_close :
      String
      → F
      → SignalState
      → ℕ
      → PaperTradingEngine F
      → PaperTradingEngine F × Result (Option (PaperPosition F))
  force_close signal_id price state now e = elim (lookup signal_id e.open_positions) [
    | none ↦ (e, ok none)
    | some p ↦ elim (close p price state now e) [
      | raise x ↦ (e, raise x)
      | ok (e', p') ↦ (e', ok (some p'))
    ]
  ]
