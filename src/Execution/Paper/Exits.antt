-- ===== src/Execution/Paper/Exits.antt =====
-- The exits of the paper engine, against an independent description of them.
use binance_momentu.Prelude.{
  ℕ, ◌+◌, ◌≡◌, ◌↔◌, ◌⊎◌, refl, false, none, some, List, [], ◌∷◌, ◌++◌, append-nil, append_assoc,
  length, All, String, str_eq, eq_iff, ok, arith, option-cases, Option-cases, inl, inr,
}
use binance_momentu.Prelude.Dict.{Dict, lookup, remove, string_key}
use binance_momentu.Float.{Float, ◌⊖◌, ◌⊗◌, ◌⊘◌, ◌≤?◌, ◌≼◌, nought}
use binance_momentu.Domain.Enums.{SignalState}
use binance_momentu.Execution.Paper.{
  PaperPosition, PaperTradingEngine, close, exit_of, update_loop, on_price_update,
}

-- Each position is under its own identifier, no identifier stands twice, and no entry price is 0.
abbrev pub IsKeyed : {F : Type 0} ⦃f : Float F⦄ → Dict String (PaperPosition F) → Type 0
IsKeyed [] = Unit
IsKeyed ⦃f⦄ ((k, p) ∷ m) =
    (p.signal_id ≡ k) × (lookup k m ≡ none) × (f.eq p.entry_price nought ≡ false) × IsKeyed m

module _ {F : Type 0} ⦃f : Float F⦄ (symbol exchange : String) (price : F) (now : ℕ) where
  abbrev pub closing : PaperPosition F → SignalState → PaperPosition F
  closing p state =
      let percent = (price ⊖ p.entry_price) ⊘ p.entry_price in
      record p {
        exit_price = some price;
        state = state;
        closed_at_ms = some now;
        realized_pnl_percent_of_size = some percent;
        realized_pnl_usd = some (p.size_usd ⊗ percent);
      }

  -- The tick is of the position's symbol and exchange, and takes it to its profit, or else to its
  -- stop.
  abbrev pub IsDue : PaperPosition F → SignalState → Type 0
  IsDue p state =
      (p.symbol ≡ symbol)
      × (p.exchange ≡ exchange)
      × (((state ≡ SignalState.take_profit) × (p.take_profit ≼ price))
          ⊎ ((state ≡ SignalState.stop_loss)
              × ((p.take_profit ≤? price) ≡ false)
              × (price ≼ p.stop_loss)))

  exit_of_iff :
      (p : PaperPosition F) (state : SignalState)
      → (exit_of symbol exchange price p ≡ some state) ↔ IsDue p state
  unfolding exit_of
  exit_of_iff p state = ground (arith, eq_iff p.symbol symbol, eq_iff p.exchange exchange)

  -- The positions that stay open at the tick, and those that it closes.
  abbrev pub staying : Dict String (PaperPosition F) → Dict String (PaperPosition F)
  staying [] = []
  staying ((k, p) ∷ m) = elim (exit_of symbol exchange price p) [
    | none ↦ (k, p) ∷ staying m
    | some s ↦ staying m
  ]

  abbrev pub leaving : Dict String (PaperPosition F) → List (PaperPosition F)
  leaving [] = []
  leaving ((k, p) ∷ m) = elim (exit_of symbol exchange price p) [
    | none ↦ leaving m
    | some s ↦ closing p s ∷ leaving m
  ]

  lookup-append_none :
      (k j : String) (kept : Dict String (PaperPosition F)) (p : PaperPosition F)
      → lookup k kept ≡ none
      → str_eq j k ≡ false
      → lookup k (kept ++ (j, p) ∷ []) ≡ none
  unfolding lookup
  lookup-append_none k j [] p h n = ground arith
  lookup-append_none k j ((i, q) ∷ kept) p h n = ground (arith, lookup-append_none k j kept p)

  remove-append :
      (k : String) (kept m : Dict String (PaperPosition F)) (p : PaperPosition F)
      → lookup k kept ≡ none
      → remove k (kept ++ (k, p) ∷ m) ≡ kept ++ m
  unfolding lookup remove
  remove-append k [] m p h = ground (arith, eq_iff k k)
  remove-append k ((i, q) ∷ kept) m p h = ground (arith, remove-append k kept m p)

  close_lem :
      (k : String) (p : PaperPosition F) (s : SignalState) (kept m : Dict String (PaperPosition F))
      (gone : List (PaperPosition F))
      → p.signal_id ≡ k
      → lookup k kept ≡ none
      → f.eq p.entry_price nought ≡ false
      → close p price s now
          (record { open_positions = kept ++ (k, p) ∷ m; closed_positions = gone })
        ≡ ok (
          record { open_positions = kept ++ m; closed_positions = gone ++ closing p s ∷ [] },
          closing p s,
        )
  unfolding close
  close_lem k p s kept m gone e fresh n = ground (arith, remove-append k kept m p fresh)

  -- No key of the second is in the first.
  abbrev Apart : Dict String (PaperPosition F) → Dict String (PaperPosition F) → Type 0
  Apart kept [] = Unit
  Apart kept ((k, p) ∷ m) = (lookup k kept ≡ none) × Apart kept m

  Apart-append :
      (k : String) (p : PaperPosition F) (kept m : Dict String (PaperPosition F))
      → lookup k m ≡ none
      → Apart kept m
      → Apart (kept ++ (k, p) ∷ []) m
  unfolding lookup
  Apart-append k p kept [] fresh a = tt
  Apart-append k p kept ((j, q) ∷ m) fresh a = (
    lookup-append_none j k kept p a.0 (ground (arith, eq_iff j k, eq_iff k j)),
    Apart-append k p kept m (ground arith) a.1,
  )

  update_loop_lem :
      (m kept : Dict String (PaperPosition F)) (done gone : List (PaperPosition F))
      → IsKeyed m
      → Apart kept m
      → update_loop symbol exchange price now m done
          (record { open_positions = kept ++ m; closed_positions = gone })
        ≡ (
          record { open_positions = kept ++ staying m; closed_positions = gone ++ leaving m },
          ok (done ++ leaving m),
        )
  unfolding update_loop
  update_loop_lem [] kept done gone h a = simp append-nil
  update_loop_lem ((k, p) ∷ m) kept done gone h a =
      elim (Option-cases (exit_of symbol exchange price p)) [
        | inl e ↦
            rw (e, update_loop, staying, leaving)
              (simp append_assoc at (
                update_loop_lem m (kept ++ (k, p) ∷ []) done gone h.3
                  (Apart-append k p kept m h.1 a.1)))
        | inr (s, e) ↦
            rw (e, update_loop, staying, leaving, close_lem k p s kept m gone h.0 a.0 h.2)
              (simp append_assoc at (
                update_loop_lem m kept (done ++ closing p s ∷ []) (gone ++ closing p s ∷ []) h.3
                  a.1))
      ]

  Apart-nil : (m : Dict String (PaperPosition F)) → Apart [] m
  unfolding lookup
  Apart-nil [] = tt
  Apart-nil ((k, p) ∷ m) = (refl, Apart-nil m)

  -- If each open position is under its own identifier, no identifier stands twice, and no entry
  -- price is 0: a tick closes exactly the open positions that are due, each at the price of the
  -- tick, and keeps the others open, in order. The closed ones are moved to the end of the closed
  -- list, and are what the method returns. A position is due exactly if it is of the tick's symbol
  -- and exchange and the price has reached its profit, or else its stop.
  pub on_price_update_lem :
      (e : PaperTradingEngine F)
      → IsKeyed e.open_positions
      → (on_price_update symbol exchange price now e ≡ (
        record {
          open_positions = staying e.open_positions;
          closed_positions = e.closed_positions ++ leaving e.open_positions;
        },
        ok (leaving e.open_positions),
      ))
        × ((p : PaperPosition F) (state : SignalState)
            → (exit_of symbol exchange price p ≡ some state) ↔ IsDue p state)
  unfolding on_price_update
  on_price_update_lem e h = (
    update_loop_lem e.open_positions [] [] e.closed_positions h (Apart-nil e.open_positions),
    exit_of_iff,
  )

  -- No position that stays open is due.
  staying-none :
      (m : Dict String (PaperPosition F))
      → All (λ (x : String × PaperPosition F). exit_of symbol exchange price x.1 ≡ none) (staying m)
  staying-none [] = tt
  staying-none ((k, p) ∷ m) =
      option-cases
        (All (λ (x : String × PaperPosition F). exit_of symbol exchange price x.1 ≡ none))
        (exit_of symbol exchange price p) (λ e. (e, staying-none m)) (λ s _. staying-none m)

  -- How a closed position stands to the tick: its profit level is reached, or its stop level is.
  abbrev pub IsExit : PaperPosition F → Type 0
  IsExit p =
      (p.exit_price ≡ some price)
      × (((p.state ≡ SignalState.take_profit) × (p.take_profit ≼ price))
          ⊎ ((p.state ≡ SignalState.stop_loss) × (price ≼ p.stop_loss)))

  exit_of-IsExit :
      (p : PaperPosition F) (s : SignalState)
      → exit_of symbol exchange price p ≡ some s
      → IsExit (closing p s)
  unfolding exit_of
  exit_of-IsExit p s e = ground arith

  leaving-IsExit : (m : Dict String (PaperPosition F)) → All IsExit (leaving m)
  leaving-IsExit [] = tt
  leaving-IsExit ((k, p) ∷ m) =
      option-cases (All IsExit) (exit_of symbol exchange price p) (λ _. leaving-IsExit m)
        (λ s e. (exit_of-IsExit p s e, leaving-IsExit m))

  pub conserved :
      (m : Dict String (PaperPosition F)) → length (staying m) + length (leaving m) ≡ length m
  conserved [] = omega arith
  conserved ((k, p) ∷ m) = ground (arith, conserved m)

  -- If the open positions are keyed in this way and no entry price is 0, after a tick no open position is due, every position that it returns has reached the level of
  -- its state, and no position is lost: as many have been closed as are no longer open.
  pub on_price_update_exits :
      (e : PaperTradingEngine F)
      → IsKeyed e.open_positions
      → let (e', r) = on_price_update symbol exchange price now e in
        All
          (λ (x : String × PaperPosition F). exit_of symbol exchange price x.1 ≡ none)
          e'.open_positions
        × ((closed : List (PaperPosition F)) × (r ≡ ok closed)
            × All IsExit closed
            × (length e'.open_positions + length closed ≡ length e.open_positions)
            × (e'.closed_positions ≡ e.closed_positions ++ closed))
  on_price_update_exits e h =
      let m = e.open_positions in
      rw (on_price_update_lem e h).0
        (staying-none m, (leaving m, refl, leaving-IsExit m, conserved m, refl))
