-- ===== src/Config/Overrides/Variables.antt =====
-- What the variables of the environment do to the settings.
use Prim.Native.String.{◌++◌ as concat}
use mathlib.Core.Bool.{false≢true}
use package.text.Mathlib.Text.{starts_with}
use binance_momentu.Prelude.Texts.{starts_with-append_known}
use binance_momentu.Prelude.{
  ◌≡◌, ◌≢◌, ◌⊎◌, eq_iff, str_eq, option-cases, ◌∙◌, ap, sym, refl, Bool, true, false, Option, none,
  some, List, [], ◌∷◌, ◌++◌, All, String, Result, Error, ok, raise, ◌>>=◌, >>=-eq-ok, ok-injective,
  subst, Bool-cases, inl, inr, arith,
}
use binance_momentu.Prelude.Int.{ℤ}
use binance_momentu.Config.Overrides.Tables.{
  Node, flag, integer, number, text, table, Table, end, FieldPath, entry_of, refusal, child,
  set_entry, put_at, put, setting,
}
use binance_momentu.Config.Overrides.Paths.{spelled, IsPlain, onto-eq-concat, split_from-spelled}
use binance_momentu.Config.Overrides.Laws.{Diverge, value_at-put_at, value_at-put_at_other}
use binance_momentu.Config.Overrides.{
  Environment, env_override_prefix, path_of, after, split_from, coerced, apply_override,
  apply_env_overrides,
}

abbrev pub Parts : FieldPath → FieldPath → Type 0
Parts (p, ps) (q, qs) = Diverge p ps q qs

module _ {F : Type 0} where
  -- A part before the last leads to what is no table.
  pub is_blocked_at : String → List String → Table F → Bool
  is_blocked_at p [] t = false
  is_blocked_at p (p' ∷ ps) t = elim (entry_of p t) [
    | none ↦ false
    | some v ↦ elim v [ table c ↦ is_blocked_at p' ps c | _ ↦ true ]
  ]

  pub is_blocked : FieldPath → Node F → Bool
  unfolding is_blocked_at
  is_blocked (p, ps) (table t) = is_blocked_at p ps t
  is_blocked (p, ps) _ = true

  blocked_end :
      (p : String) (ps : List String) (t : Table F) → t ≡ end → is_blocked_at p ps t ≡ false
  unfolding is_blocked_at entry_of
  blocked_end p [] t e = refl
  blocked_end p (p' ∷ ps) t e = rw (e, entry_of) refl

  -- The assignment, by what stands at the first part.
  abbrev pub Outcome : Bool → Result (Table F) → Type 0
  Outcome false m = (u : Table F) × (m ≡ ok u)
  Outcome true m = (e : Error) × (m ≡ raise e)

  Outcome-bind :
      (b : Bool) (m : Result (Table F)) (g : Table F → Table F)
      → Outcome b m
      → Outcome b (m >>= λ u. ok (g u))
  Outcome-bind false m g (u, e) = (g u, rw e refl)
  Outcome-bind true m g (x, e) = (x, rw e refl)

  put_under :
      (p : String) (ps : List String) (v : Node F) (g : Table F → Table F) (o : Option (Node F))
      → ((c : Table F) → Outcome (is_blocked_at p ps c) (put_at p ps v c))
      → Outcome
          (elim o as (λ _. Bool) [
            | none ↦ false
            | some w ↦ elim w [ table c ↦ is_blocked_at p ps c | _ ↦ true ]
          ])
          (child ps o >>= λ c. put_at p ps v c >>= λ u. ok (g u))
  put_under p ps v g none ih =
      subst (λ b. Outcome b (put_at p ps v end >>= λ u. ok (g u))) (blocked_end p ps end refl)
        (Outcome-bind (is_blocked_at p ps end) (put_at p ps v end) g (ih end))
  put_under p ps v g (some (table c)) ih =
      Outcome-bind (is_blocked_at p ps c) (put_at p ps v c) g (ih c)
  put_under p ps v g (some w) ih = (refusal ps, refl)

  put_at_outcome :
      (p : String) (ps : List String) (v : Node F) (t : Table F)
      → Outcome (is_blocked_at p ps t) (put_at p ps v t)
  unfolding is_blocked_at put_at
  put_at_outcome p [] v t = (_, refl)
  put_at_outcome p (p' ∷ ps) v t =
      put_under p' ps v (λ u. set_entry p (table u) t) (entry_of p t) (put_at_outcome p' ps v)

  put_lem :
      (path : FieldPath) (v n out : Node F)
      → put path v n ≡ ok out
      → (setting path out ≡ some v) × ((q : FieldPath) → Parts path q → setting q out ≡ setting q n)
  unfolding put setting
  put_lem (p, ps) v (table t) out e =
      let (u, inner, last) = >>=-eq-ok (put_at p ps v t) _ e in
      let same = ok-injective last in
      (
        ap (setting (p, ps)) (sym same) ∙ value_at-put_at p ps v t u inner,
        λ q d. ap (setting q) (sym same) ∙ value_at-put_at_other p ps q.0 q.1 v t u d inner,
      )
  put_lem (p, ps) v n out e = absurd (ground arith)

  put_total :
      (path : FieldPath) (v n : Node F)
      → (is_blocked path n ≡ false → (out : Node F) × (put path v n ≡ ok out))
        × (is_blocked path n ≡ true → (e : Error) × (put path v n ≡ raise e))
  unfolding put is_blocked
  put_total (p, ps) v (table t) =
      let o = put_at_outcome p ps v t in
      (
        λ h.
            (let (u, e) = subst (λ b. Outcome b (put_at p ps v t)) h o in
              (table u, ap (λ m. m >>= λ u. ok (table u)) e)),
        λ h.
            (let (x, e) = subst (λ b. Outcome b (put_at p ps v t)) h o in
              (x, ap (λ m. m >>= λ u. ok (table u)) e)),
      )
  put_total (p, ps) v n = (λ h. cc, λ h. (refusal ps, refl))

module _ {F : Type 0} (lower : String → String) (to_int : String → Option ℤ)
    (to_float : String → Option F) where
  -- The path that a variable names.
  abbrev pub path : String → FieldPath
  path = path_of lower to_int to_float

  -- The key is the prefix and a text that in lower case is the parts of the path with two low lines
  -- between them; no part has two low lines or ends in one.
  abbrev pub Names : String → FieldPath → Type 0
  Names key (p, ps) =
      (rest : String) × (key ≡ concat env_override_prefix rest)
      × (lower rest ≡ spelled p ps)
      × IsPlain p
      × All IsPlain ps

  -- The value as a number, or else as it is.
  abbrev pub AsNumeral : String → Node F → Type 0
  AsNumeral value v =
      ((n : ℤ) × (to_int value ≡ some n) × (v ≡ integer n))
      ⊎ ((to_int value ≡ none)
          × (((x : F) × (to_float value ≡ some x) × (v ≡ number x))
              ⊎ ((to_float value ≡ none) × (v ≡ text value))))

  -- The value as a Boolean, in upper or lower case, or else as a number or as it is.
  abbrev pub Coerces : String → Node F → Type 0
  Coerces value v =
      ((lower value ≡ "true") × (v ≡ flag true))
      ⊎ (((lower value ≡ "false") × (v ≡ flag false))
          ⊎ ((lower value ≢ "true") × (lower value ≢ "false") × AsNumeral value v))

  as_numeral :
      (value : String)
      → AsNumeral value (elim (to_int value) as (λ _. Node F) [
        | some n ↦ integer n
        | none ↦ elim (to_float value) as (λ _. Node F) [ some x ↦ number x | none ↦ text value ]
      ])
  as_numeral value =
      option-cases (AsNumeral value) (to_int value) (λ e. inr (e, float_or_text))
        (λ n e. inl (n, e, refl))
    where
      float_or_text :
          let v = elim (to_float value) as (λ _. Node F) [
            | some x ↦ number x
            | none ↦ text value
          ] in
          ((x : F) × (to_float value ≡ some x) × (v ≡ number x))
          ⊎ ((to_float value ≡ none) × (v ≡ text value))
      float_or_text =
          option-cases
            (λ (v : Node F).
              ((x : F) × (to_float value ≡ some x) × (v ≡ number x))
              ⊎ ((to_float value ≡ none) × (v ≡ text value)))
            (to_float value) (λ e. inr (e, refl)) (λ x e. inl (x, e, refl))

  coerced-Coerces : (value : String) → Coerces value (coerced lower to_int to_float value)
  unfolding coerced
  coerced-Coerces value = elim (Bool-cases (str_eq (lower value) "true")) [
    | inl t ↦ inl ((eq_iff (lower value) "true").0 t, rw t refl)
    | inr n ↦ elim (Bool-cases (str_eq (lower value) "false")) [
      | inl u ↦ inr (inl ((eq_iff (lower value) "false").0 u, rw (n, u) refl))
      | inr m ↦ inr (
          inr (
            λ e. false≢true (sym n ∙ (eq_iff (lower value) "true").1 e),
            λ e. false≢true (sym m ∙ (eq_iff (lower value) "false").1 e),
            rw (n, m) (as_numeral value),
          ))
    ]
  ]

  has_prefix :
      (key : String) (p : FieldPath)
      → Names key p
      → (starts_with key env_override_prefix ≡ true) × (path key ≡ p)
  unfolding path_of after
  has_prefix key (p, ps) (rest, e, low, plain, plains) = (
    ap (λ k. starts_with k env_override_prefix) e
        ∙ starts_with-append_known env_override_prefix rest env_override_prefix refl,
    ap path e
        ∙ ap path (sym (onto-eq-concat env_override_prefix rest))
        ∙ ap (split_from "") low
        ∙ split_from-spelled p ps plain plains,
  )

  -- A variable names a path if its key is the prefix and a text that in lower case is the parts of
  -- the path with two low lines between them, of which none has two low lines or ends in one. A
  -- variable that names a path sets it to its value, as a Boolean, an integer, a float or the
  -- text, and leaves every path that parts from it as it was, unless a part of the path before the
  -- last leads to what is no table: then it raises. A variable without the prefix does nothing.
  pub apply_override_lem :
      (key value : String) (n : Node F) (at : FieldPath) (other : String)
      → Names key at
      → let result = apply_override lower to_int to_float (key, value) n in
        (is_blocked at n ≡ false
          → (out : Node F) × (v : Node F) × (result ≡ ok out)
            × (setting at out ≡ some v)
            × Coerces value v
            × ((q : FieldPath) → Parts at q → setting q out ≡ setting q n))
        × (is_blocked at n ≡ true → (e : Error) × (result ≡ raise e))
        × (starts_with other env_override_prefix ≡ false
            → apply_override lower to_int to_float (other, value) n ≡ ok n)
  unfolding apply_override
  apply_override_lem key value n at other named =
      let (has, same) = has_prefix key at named in
      let v = coerced lower to_int to_float value in
      let (goes, fails) = put_total at v n in
      (
        λ free.
            (let (out, e) = goes free in
              let (there, others) = put_lem at v n out e in
              (out, v, rw (has, same) e, there, coerced-Coerces value, others)),
        λ blocked. (let (x, e) = fails blocked in (x, rw (has, same) e)),
        λ has_not. rw has_not refl,
      )

  -- The variable names a path that parts from this one, if it has the prefix.
  abbrev pub IsApart : FieldPath → String × String → Type 0
  IsApart q (key, value) = starts_with key env_override_prefix ≡ true → Parts (path key) q

  apply_override_apart :
      (q : FieldPath) (v : String × String) (n out : Node F)
      → IsApart q v
      → apply_override lower to_int to_float v n ≡ ok out
      → setting q out ≡ setting q n
  unfolding apply_override
  apply_override_apart q (key, value) n out apart e =
      elim (Bool-cases (starts_with key env_override_prefix)) [
        | inl has ↦ (put_lem (path key) _ n out (rw has at e)).1 q (apart has)
        | inr has_not ↦ ap (setting q) (sym (ok-injective (rw has_not at e)))
      ]

  apply_env_overrides_apart :
      (q : FieldPath) (env : Environment) (n out : Node F)
      → All (IsApart q) env
      → apply_env_overrides lower to_int to_float env n ≡ ok out
      → setting q out ≡ setting q n
  unfolding apply_env_overrides
  apply_env_overrides_apart q [] n out a e = ap (setting q) (sym (ok-injective e))
  apply_env_overrides_apart q (v ∷ vs) n out a e =
      let (m, first, rest) = >>=-eq-ok (apply_override lower to_int to_float v n) _ e in
      apply_env_overrides_apart q vs m out a.1 rest ∙ apply_override_apart q v n m a.0 first

  apply_env_overrides-append :
      (before later : Environment) (n out : Node F)
      → apply_env_overrides lower to_int to_float (before ++ later) n ≡ ok out
      → (m : Node F) × (apply_env_overrides lower to_int to_float later m ≡ ok out)
  unfolding apply_env_overrides
  apply_env_overrides-append [] later n out e = (n, e)
  apply_env_overrides-append (v ∷ vs) later n out e =
      let (m, _, rest) = >>=-eq-ok (apply_override lower to_int to_float v n) _ e in
      apply_env_overrides-append vs later m out rest

  -- When the overrides have been applied, the setting that a variable with the prefix names has
  -- its value, whatever came before it, if those after it name paths that part from it.
  pub apply_env_overrides_last :
      (before later : Environment) (key value : String) (n out : Node F)
      → starts_with key env_override_prefix ≡ true
      → All (IsApart (path key)) later
      → apply_env_overrides lower to_int to_float (before ++ (key, value) ∷ later) n ≡ ok out
      → setting (path key) out ≡ some (coerced lower to_int to_float value)
  unfolding apply_env_overrides apply_override
  apply_env_overrides_last before later key value n out has apart e =
      let (m, e') = apply_env_overrides-append before ((key, value) ∷ later) n out e in
      let (u, first, rest) = >>=-eq-ok (apply_override lower to_int to_float (key, value) m) _ e' in
      apply_env_overrides_apart (path key) later u out apart rest
      ∙ (put_lem (path key) (coerced lower to_int to_float value) m u (rw has at first)).0
