-- ===== src/Exchanges/Adapter/Buckets.antt =====
-- The symbols dealt out to the shards: how many a shard gets, and that none is lost.
use native.Mathlib.Nat.{
  eq-or-lt_of_le, mul-pos, le_of_mul-le-mul_right, le_trans, mul-le-mul_right, mod-eq_of_lt,
  mul-add-mod_self_left, lt_of_mul-lt-mul_left, div-add-mod, mod-lt,
}
use binance_momentu.Prelude.{
  if-cases, subst, ℕ, zero, suc, ◌+◌, ◌-◌, ◌*◌, ◌%◌, ◌≤◌, ◌<◌, ◌≡◌, refl, ap, sym, ◌∙◌, Bool, false,
  ◌||◌, ◌⊎◌, inl, inr, List, [], ◌∷◌, ◌++◌, length, is_empty, All, length-append, String, str_eq,
  arith,
}
use binance_momentu.Prelude.Sets.{contains}
use binance_momentu.Exchanges.Adapter.{
  Limits, max_ℕ, ceil_div, compute_shard_count, append_at, deal, empty_buckets, drop_empty,
  shard_symbols,
}

-- The first `r` buckets hold at most `q + 1` symbols and the others at most `q`.
abbrev IsFilled : ℕ → ℕ → List (List String) → Type 0
IsFilled r q [] = Unit
IsFilled zero q (b ∷ bs) = (length b ≤ q) × IsFilled zero q bs
IsFilled (suc r) q (b ∷ bs) = (length b ≤ suc q) × IsFilled r q bs

append_at-IsFilled :
    (r q : ℕ) (x : String) (bs : List (List String))
    → IsFilled r q bs
    → IsFilled (suc r) q (append_at r x bs)
unfolding append_at
append_at-IsFilled r q x [] h = tt
append_at-IsFilled zero q x (b ∷ bs) h = (omega (arith, h.0, length-append b (x ∷ [])), h.1)
append_at-IsFilled (suc r) q x (b ∷ bs) h = (h.0, append_at-IsFilled r q x bs h.1)

length-append_at :
    (i : ℕ) (x : String) (bs : List (List String)) → length (append_at i x bs) ≡ length bs
unfolding append_at
length-append_at i x [] = refl
length-append_at zero x (b ∷ bs) = refl
length-append_at (suc i) x (b ∷ bs) = ap suc (length-append_at i x bs)

all-IsFilled : (q : ℕ) (bs : List (List String)) → IsFilled (length bs) q bs → IsFilled 0 (suc q) bs
all-IsFilled q [] h = tt
all-IsFilled q (b ∷ bs) h = (h.0, all-IsFilled q bs h.1)

filled-All :
    (c r q : ℕ) (bs : List (List String))
    → IsFilled r q bs
    → q ≤ c
    → (0 < r → suc q ≤ c)
    → All (λ b. length b ≤ c) bs
filled-All c r q [] h l m = tt
filled-All c zero q (b ∷ bs) h l m = (omega (arith, h.0), filled-All c zero q bs h.1 l m)
filled-All c (suc r) q (b ∷ bs) h l m =
    let full = m (omega arith) in (omega (arith, h.0), filled-All c r q bs h.1 l (λ _. full))

deal-All :
    (k c i q r : ℕ) (xs : List String) (bs : List (List String))
    → i ≡ k * q + r
    → r < k
    → length bs ≡ k
    → IsFilled r q bs
    → i + length xs ≤ k * c
    → All (λ b. length b ≤ c) (deal i k xs bs)
unfolding deal
deal-All k c i q r [] bs e l n h b =
    filled-All c r q bs h (omega (arith, lt_of_mul-lt-mul_left k {m = q} {n = suc c} (omega arith)))
      (λ p. lt_of_mul-lt-mul_left k {m = q} {n = c} (omega arith))
deal-All k c i q r (x ∷ xs) bs e l n h b =
    let here = ap (λ j. j % k) e ∙ mul-add-mod_self_left k q r ∙ mod-eq_of_lt l in
    let bs' = append_at r x bs in
    let filled = append_at-IsFilled r q x bs h in
    let n' = length-append_at r x bs ∙ n in
    subst (λ j. All (λ b. length b ≤ c) (deal (i + 1) k xs (append_at j x bs))) (sym here)
      (elim (eq-or-lt_of_le l) [
        | inl last ↦
            deal-All k c (i + 1) (suc q) 0 xs bs' (omega arith) (omega arith) n'
              (all-IsFilled q bs' (subst (λ j. IsFilled j q bs') (last ∙ sym n') filled))
              (omega arith)
        | inr more ↦
            deal-All k c (i + 1) q (suc r) xs bs' (omega arith) more n' filled (omega arith)
      ])

empty_buckets-IsFilled : (n : ℕ) → IsFilled 0 0 (empty_buckets n)
empty_buckets-IsFilled zero = tt
empty_buckets-IsFilled (suc n) = (omega arith, empty_buckets-IsFilled n)

length-empty_buckets : (n : ℕ) → length (empty_buckets n) ≡ n
length-empty_buckets zero = refl
length-empty_buckets (suc n) = ap suc (length-empty_buckets n)

drop_empty-All :
    (P : List String → Type 0) (bs : List (List String)) → All P bs → All P (drop_empty bs)
unfolding drop_empty
drop_empty-All P [] h = tt
drop_empty-All P (b ∷ bs) h =
    if-cases (All P) (is_empty b) (λ _. drop_empty-All P bs h.1)
      (λ _. (h.0, drop_empty-All P bs h.1))

-- Rounding up loses nothing.
le-ceil_div : (a b : ℕ) → 0 < b → a ≤ b * ceil_div a b
le-ceil_div a b h = omega (arith, div-add-mod (a + b - 1) b, mod-lt (a + b - 1) h)

-- The connections that the limits allow have room for all streams.
abbrev pub HasRoom : Limits → ℕ → Type 0
HasRoom l n =
    (l.max_connections ≡ 0)
    ⊎ (n * l.streams_per_symbol ≤ l.max_connections * l.max_streams_per_connection)

max_ℕ-le : (a b : ℕ) → (a ≤ max_ℕ a b) × (b ≤ max_ℕ a b)
max_ℕ-le a b = (ground arith, ground arith)

compute_shard_count-le :
    (l : Limits) (n : ℕ)
    → 0 < l.max_streams_per_connection
    → HasRoom l n
    → (0 < compute_shard_count l n)
      × (n * l.streams_per_symbol ≤ compute_shard_count l n * l.max_streams_per_connection)
unfolding compute_shard_count
compute_shard_count-le l n h room =
    let m = l.max_streams_per_connection in
    let all = n * l.streams_per_symbol in
    let pieces = ceil_div all (max_ℕ 1 m) in
    let needed = max_ℕ 1 pieces in
    let exact : max_ℕ 1 m ≡ m = ground arith in
    let enough : all ≤ needed * m =
      le_trans (subst (λ b. all ≤ b * pieces) exact (le-ceil_div all (max_ℕ 1 m) (ground arith)))
        (omega (arith, mul-le-mul_right m (max_ℕ-le 1 pieces).1)) in
    ground (arith, max_ℕ-le 1 pieces)

-- Whether one of the buckets holds the symbol.
unfoldable pub has : String → List (List String) → Bool
has x [] = false
has x (b ∷ bs) = contains x b || has x bs

contains-append_one :
    (x y : String) (b : List String) → contains x (b ++ y ∷ []) ≡ (contains x b || str_eq y x)
unfolding contains
contains-append_one x y [] = ground arith
contains-append_one x y (z ∷ b) = ground (arith, contains-append_one x y b)

has-append_at :
    (x y : String) (i : ℕ) (bs : List (List String))
    → i < length bs
    → has x (append_at i y bs) ≡ (has x bs || str_eq y x)
unfolding has append_at
has-append_at x y i [] h = absurd (omega arith)
has-append_at x y zero (b ∷ bs) h = ground (arith, contains-append_one x y b)
has-append_at x y (suc i) (b ∷ bs) h = ground (arith, has-append_at x y i bs (omega arith))

has-deal :
    (x : String) (i : ℕ) (xs : List String) (bs : List (List String))
    → 0 < length bs
    → has x (deal i (length bs) xs bs) ≡ (has x bs || contains x xs)
unfolding deal contains
has-deal x i [] bs h = ground arith
has-deal x i (y ∷ xs) bs h =
    let bs' = append_at (i % length bs) y bs in
    let same = length-append_at (i % length bs) y bs in
    subst (λ k. has x (deal (i + 1) k xs bs') ≡ (has x bs || (str_eq y x || contains x xs))) same
      (has-deal x (i + 1) xs bs' (omega arith)
        ∙ ground (arith, has-append_at x y (i % length bs) bs (mod-lt i h)))

has-drop_empty : (x : String) (bs : List (List String)) → has x (drop_empty bs) ≡ has x bs
unfolding has drop_empty contains
has-drop_empty x [] = refl
has-drop_empty x ([] ∷ bs) = has-drop_empty x bs
has-drop_empty x ((y ∷ b) ∷ bs) = ground (arith, has-drop_empty x bs)

has-empty_buckets : (x : String) (n : ℕ) → has x (empty_buckets n) ≡ false
unfolding has contains
has-empty_buckets x zero = refl
has-empty_buckets x (suc n) = has-empty_buckets x n

has-shard_symbols :
    (x : String) (symbols : List String) (k : ℕ)
    → 0 < k
    → has x (shard_symbols symbols k) ≡ contains x symbols
unfolding shard_symbols
has-shard_symbols x symbols k h =
    has-drop_empty x (deal 0 k symbols (empty_buckets k))
    ∙ subst (λ j. has x (deal 0 j symbols (empty_buckets k)) ≡ contains x symbols)
        (length-empty_buckets k)
        (has-deal x 0 symbols (empty_buckets k) (omega (arith, length-empty_buckets k))
          ∙ ground (arith, has-empty_buckets x k))

-- If a connection's limit is a multiple `c` of the streams of a symbol, and the connections that
-- may be opened have room for all streams, then the symbols dealt out are exactly those asked for,
-- and no shard is given more than `c`, so none goes beyond the limit of a connection.
pub shard_symbols_lem :
    (l : Limits) (symbols : List String) (c : ℕ)
    → 0 < c
    → 0 < l.streams_per_symbol
    → l.max_streams_per_connection ≡ l.streams_per_symbol * c
    → HasRoom l (length symbols)
    → let buckets = shard_symbols symbols (compute_shard_count l (length symbols)) in
      All (λ b. length b ≤ c) buckets × ((x : String) → has x buckets ≡ contains x symbols)
unfolding shard_symbols
shard_symbols_lem l symbols c p s e room =
    let n = length symbols in
    let k = compute_shard_count l n in
    let positive = subst (λ j. 0 < j) (sym e) (mul-pos s p) in
    let (some_shard, enough) = compute_shard_count-le l n positive room in
    let enough' = subst (λ j. n * l.streams_per_symbol ≤ k * j) e enough in
    let fits =
      le_of_mul-le-mul_right {m = n} {n = k * c} {k = l.streams_per_symbol} (omega (arith, enough'))
        s in
    (
      drop_empty-All (λ b. length b ≤ c) (deal 0 k symbols (empty_buckets k))
          (deal-All k c 0 0 0 symbols (empty_buckets k) (omega arith) some_shard
            (length-empty_buckets k) (empty_buckets-IsFilled k) (omega (arith, fits))),
      λ x. has-shard_symbols x symbols k some_shard,
    )
