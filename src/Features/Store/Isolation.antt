-- ===== src/Features/Store/Isolation.antt =====
-- The feature store keeps a bounded window of closed klines, each under the key of its own event.
use binance_momentu.Prelude.{
  ℕ, zero, suc, subst, ◌-◌, ◌≤◌, ◌≡◌, ◌≢◌, refl, true, some, List, [], ◌∷◌, ◌++◌, length,
  length-drop, drop, String, arith, Bool-cases, if-cases, Option-cases, inl, inr, All, All-append,
}
use binance_momentu.Prelude.Dict.{lookup, insert, lookup-insert}
use binance_momentu.Domain.Enums.{Exchange}
use binance_momentu.Domain.Events.{
  Event, ticker, kline, book, trade, oi, economic, signal, execution, system, base_of, KlineEvent,
}
use binance_momentu.Features.Store.{
  SymbolFeatureState, FeatureStore, append_bounded, get_or_create, ingest, get, symbol_key,
  same_symbol, same_symbol_iff, put_state,
}

-- The window holds at most `kline_window` klines, and closed ones alone.
pub record IsWindow {F : Type 0} (n : ℕ) (s : SymbolFeatureState F) : Type 0 where
  pub fits : length s.closed_klines ≤ n
  pub closed : All (λ k. k.is_closed ≡ true) s.closed_klines

abbrev pub IsSound : {F : Type 0} → FeatureStore F → Type 0
IsSound {F} store =
    (x : Exchange) (s : String) (state : SymbolFeatureState F)
    → get x s store ≡ some state
    → IsWindow store.kline_window state

All-drop {ℓ κ} : {A : Type ℓ} (P : A → Type κ) (n : ℕ) (xs : List A) → All P xs → All P (drop n xs)
All-drop P zero xs h = h
All-drop P (suc n) [] h = h
All-drop P (suc n) (x ∷ xs) h = All-drop P n xs h.1

module _ {F : Type 0} where
  append_bounded-IsWindow :
      (n : ℕ) (s : SymbolFeatureState F) (k : KlineEvent F)
      → k.is_closed ≡ true
      → IsWindow n s
      → IsWindow n (record s { closed_klines = append_bounded n s.closed_klines k })
  unfolding append_bounded
  append_bounded-IsWindow n s k c w =
      let all = s.closed_klines ++ k ∷ [] in
      record {
        fits = omega (arith, length-drop (length all - n) all);
        closed =
            All-drop (λ j. j.is_closed ≡ true) (length all - n) all
              (All-append (λ j. j.is_closed ≡ true) s.closed_klines (k ∷ []) w.closed (c, tt));
      }

  get_or_create-IsWindow :
      (x : Exchange) (s : String) (store : FeatureStore F)
      → IsSound store
      → IsWindow store.kline_window (get_or_create x s store)
  unfolding get_or_create get
  get_or_create-IsWindow x s store h = elim (Option-cases (lookup (x, s) store.states)) [
    | inl e ↦ rw (e, get_or_create) (record { fits = omega arith; closed = tt })
    | inr (state, e) ↦ rw (e, get_or_create) (h x s state e)
  ]

  put_state-IsSound :
      (x : Exchange) (s : String) (state : SymbolFeatureState F) (store : FeatureStore F)
      → IsSound store
      → IsWindow store.kline_window state
      → IsSound (put_state x s state store)
  unfolding get
  put_state-IsSound x s state store h w y t found e =
      elim (Bool-cases (same_symbol (x, s) (y, t))) [
        | inl hit ↦
            let here : lookup (y, t) (insert (x, s) state store.states) ≡ some state =
              ground (arith, lookup-insert (x, s) (y, t) state store.states) in
            subst (IsWindow store.kline_window) (cc here) w
        | inr miss ↦ h y t found (ground (arith, lookup-insert (x, s) (y, t) state store.states))
      ]

  -- Ingesting any event keeps every window within its bound and free of open klines.
  pub ingest-IsSound :
      (e : Event F) (store : FeatureStore F) → IsSound store → IsSound (ingest e store)
  unfolding ingest
  ingest-IsSound (kline e) store h =
      let w = get_or_create-IsWindow e.exchange e.symbol store h in
      put_state-IsSound _ _ _ store h (
        if-cases (IsWindow store.kline_window) e.is_closed
          (λ c. append_bounded-IsWindow store.kline_window _ e c w) (λ _. w))
  ingest-IsSound (ticker e) store h =
      let w = get_or_create-IsWindow e.exchange e.symbol store h in
      put_state-IsSound _ _ _ store h (record { fits = w.fits; closed = w.closed })
  ingest-IsSound (book e) store h =
      let w = get_or_create-IsWindow e.exchange e.symbol store h in
      put_state-IsSound _ _ _ store h (record { fits = w.fits; closed = w.closed })
  ingest-IsSound (oi e) store h =
      let w = get_or_create-IsWindow e.exchange e.symbol store h in
      put_state-IsSound _ _ _ store h (record { fits = w.fits; closed = w.closed })
  ingest-IsSound (trade e) store h = h
  ingest-IsSound (economic e) store h = h
  ingest-IsSound (signal e) store h = h
  ingest-IsSound (execution e) store h = h
  ingest-IsSound (system e) store h = h

  get-put_state_ne :
      (x : Exchange) (s : String) (state : SymbolFeatureState F) (store : FeatureStore F)
      (y : Exchange) (t : String)
      → ◌≢◌ {A = Exchange × String} (x, s) (y, t)
      → get y t (put_state x s state store) ≡ get y t store
  unfolding get
  get-put_state_ne x s state store y t n = ground (
    arith,
    lookup-insert (x, s) (y, t) state store.states,
    λ (h : same_symbol (x, s) (y, t) ≡ true). n ((same_symbol_iff (x, s) (y, t)).0 h),
  )

  -- An event changes the state of its own exchange and symbol alone.
  pub get-ingest_ne :
      (e : Event F) (store : FeatureStore F) (x : Exchange) (s : String)
      → ◌≢◌ {A = Exchange × String} ((base_of e).exchange, (base_of e).symbol) (x, s)
      → get x s (ingest e store) ≡ get x s store
  unfolding ingest get
  get-ingest_ne (kline e) store x s n = get-put_state_ne e.exchange e.symbol _ store x s n
  get-ingest_ne (ticker e) store x s n = get-put_state_ne e.exchange e.symbol _ store x s n
  get-ingest_ne (book e) store x s n = get-put_state_ne e.exchange e.symbol _ store x s n
  get-ingest_ne (oi e) store x s n = get-put_state_ne e.exchange e.symbol _ store x s n
  get-ingest_ne (trade e) store x s n = refl
  get-ingest_ne (economic e) store x s n = refl
  get-ingest_ne (signal e) store x s n = refl
  get-ingest_ne (execution e) store x s n = refl
  get-ingest_ne (system e) store x s n = refl
