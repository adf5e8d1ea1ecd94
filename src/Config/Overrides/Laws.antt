-- ===== src/Config/Overrides/Laws.antt =====
-- What an override changes, and what it leaves.
use Prim.Native.String.{String}
use binance_momentu.Prelude.{
  ◌≡◌, refl, ap, sym, ◌∙◌, true, false, if◌then◌else◌, Option, none, some, List, [], ◌∷◌, str_eq,
  eq_iff, ok, arith, ok-injective, Bool-cases, inl, inr, subst, >>=-eq-ok,
}
use binance_momentu.Config.Overrides.Tables.{
  Node, table, Table, end, entry, entry_of, set_entry, put_at, value_at, child,
}

-- The paths part before either ends.
abbrev pub Diverge : (p : String) (ps : List String) (q : String) (qs : List String) → Type 0
Diverge p [] q qs = str_eq p q ≡ false
Diverge p (p' ∷ ps) q [] = str_eq p q ≡ false
Diverge p (p' ∷ ps) q (q' ∷ qs) = (str_eq p q ≡ true → Diverge p' ps q' qs)

module _ {F : Type 0} where
  entry_of-set_entry :
      (k j : String) (v : Node F) (t : Table F)
      → entry_of j (set_entry k v t) ≡ (if str_eq k j then some v else entry_of j t)
  unfolding entry_of set_entry
  entry_of-set_entry k j v end = refl
  entry_of-set_entry k j v (entry i w t) =
      ground (arith, eq_iff k j, eq_iff i k, eq_iff i j, entry_of-set_entry k j v t)

  set_same : (k : String) (v : Node F) (t : Table F) → entry_of k (set_entry k v t) ≡ some v
  set_same k v t = ground (arith, entry_of-set_entry k k v t, eq_iff k k)

  set_other :
      (k j : String) (v : Node F) (t : Table F)
      → str_eq k j ≡ false
      → entry_of j (set_entry k v t) ≡ entry_of j t
  set_other k j v t e = ground (arith, entry_of-set_entry k j v t)

  pub value_at-end : (q : String) (qs : List String) → value_at {F = F} q qs end ≡ none
  unfolding value_at entry_of
  value_at-end q [] = refl
  value_at-end q (q' ∷ qs) = refl

  -- A path goes by the entry of its first part.
  value_at_table :
      (p q : String) (qs : List String) (c t : Table F)
      → entry_of p t ≡ some (table c)
      → value_at p (q ∷ qs) t ≡ value_at q qs c
  unfolding value_at
  value_at_table p q qs c t e = rw (value_at, e) refl

  value_at_missing :
      (p q : String) (qs : List String) (t : Table F)
      → entry_of p t ≡ none
      → value_at p (q ∷ qs) t ≡ none
  unfolding value_at
  value_at_missing p q qs t e = rw (value_at, e) refl

  value_at_same :
      (p : String) (qs : List String) (t u : Table F)
      → entry_of p u ≡ entry_of p t
      → value_at p qs u ≡ value_at p qs t
  unfolding value_at
  value_at_same p [] t u e = e
  value_at_same p (q ∷ qs) t u e = rw (value_at, e) refl

  -- A path under a table, or under nothing.
  value_at-child :
      (ps : List String) (p q : String) (qs : List String) (c t : Table F) (o : Option (Node F))
      → entry_of p t ≡ o
      → child ps o ≡ ok c
      → value_at p (q ∷ qs) t ≡ value_at q qs c
  value_at-child ps p q qs c t none e h =
      value_at_missing p q qs t e ∙ sym (value_at-end q qs) ∙ ap (value_at q qs) (ok-injective h)
  value_at-child ps p q qs c t (some (table d)) e h =
      value_at_table p q qs d t e ∙ ap (value_at q qs) (ok-injective h)
  value_at-child ps p q qs c t (some v) e h = absurd (ground arith)

  pub value_at-put_at :
      (p : String) (ps : List String) (v : Node F) (t u : Table F)
      → put_at p ps v t ≡ ok u
      → value_at p ps u ≡ some v
  unfolding put_at value_at
  value_at-put_at p [] v t u e = ap (entry_of p) (sym (ok-injective e)) ∙ set_same p v t
  value_at-put_at p (p' ∷ ps) v t u e =
      let (c, _, after_child) = >>=-eq-ok (child ps (entry_of p t)) _ e in
      let (u', inner, last) = >>=-eq-ok (put_at p' ps v c) _ after_child in
      value_at_table p p' ps u' u
        (ap (entry_of p) (sym (ok-injective last)) ∙ set_same p (table u') t)
      ∙ value_at-put_at p' ps v c u' inner

  -- The entry at the first part is the only one that changes.
  put_at_entry :
      (p : String) (ps : List String) (v : Node F) (t u : Table F)
      → put_at p ps v t ≡ ok u
      → (q : String) → str_eq p q ≡ false
      → entry_of q u ≡ entry_of q t
  unfolding put_at
  put_at_entry p [] v t u e q n = ap (entry_of q) (sym (ok-injective e)) ∙ set_other p q v t n
  put_at_entry p (p' ∷ ps) v t u e q n =
      let (c, _, after_child) = >>=-eq-ok (child ps (entry_of p t)) _ e in
      let (u', _, last) = >>=-eq-ok (put_at p' ps v c) _ after_child in
      ap (entry_of q) (sym (ok-injective last)) ∙ set_other p q (table u') t n

  pub value_at-put_at_other :
      (p : String) (ps : List String) (q : String) (qs : List String) (v : Node F) (t u : Table F)
      → Diverge p ps q qs
      → put_at p ps v t ≡ ok u
      → value_at q qs u ≡ value_at q qs t
  unfolding put_at
  value_at-put_at_other p [] q qs v t u d e = value_at_same q qs t u (put_at_entry p [] v t u e q d)
  value_at-put_at_other p (p' ∷ ps) q [] v t u d e =
      value_at_same q [] t u (put_at_entry p (p' ∷ ps) v t u e q d)
  value_at-put_at_other p (p' ∷ ps) q (q' ∷ qs) v t u d e =
      let (c, first, after_child) = >>=-eq-ok (child ps (entry_of p t)) _ e in
      let (u', inner, last) = >>=-eq-ok (put_at p' ps v c) _ after_child in
      let under =
        λ (same : str_eq p q ≡ true). value_at-put_at_other p' ps q' qs v c u' (d same) inner in
      elim (Bool-cases (str_eq p q)) [
        | inl same ↦
            subst (λ x. value_at x (q' ∷ qs) u ≡ value_at x (q' ∷ qs) t) ((eq_iff p q).0 same)
              (value_at_table p q' qs u' u
                  (ap (entry_of p) (sym (ok-injective last)) ∙ set_same p (table u') t)
                ∙ under same
                ∙ sym (value_at-child ps p q' qs c t (entry_of p t) refl first))
        | inr other ↦ value_at_same q (q' ∷ qs) t u (put_at_entry p (p' ∷ ps) v t u e q other)
      ]
