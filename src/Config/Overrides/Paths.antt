-- ===== src/Config/Overrides/Paths.antt =====
-- The names of the variables, and what they are split into.
use Prim.Native.Char.{Char, code}
use Prim.Native.String.{◌++◌ as concat}
use package.text.Mathlib.TextLemmas.{append-nil, append_assoc, nil-append, cons-append}
use binance_momentu.Prelude.{
  ◌≡◌, refl, ap, sym, ◌∙◌, Bool, true, false, not, ◌&&◌, List, [], ◌∷◌, All, String, arith,
}
use binance_momentu.Config.Overrides.Tables.{FieldPath}
use binance_momentu.Config.Overrides.{is_low_line, first_of, split_from}

-- No two low lines follow each other, and the text does not end in one.
abbrev pub is_plain : String → Bool
is_plain String.[] = true
is_plain (String.◌∷◌ c String.[]) = not (is_low_line (code c))
is_plain (String.◌∷◌ c (String.◌∷◌ d s)) =
    not (is_low_line (code c) && is_low_line (code d)) && is_plain (String.◌∷◌ d s)

-- One text after the other, which computes.
abbrev pub onto : String → String → String
onto String.[] t = t
onto (String.◌∷◌ c s) t = String.◌∷◌ c (onto s t)

pub onto-eq-concat : (s t : String) → onto s t ≡ concat s t
onto-eq-concat String.[] t = sym (nil-append t)
onto-eq-concat (String.◌∷◌ c s) t =
    ap (λ r. String.◌∷◌ c r) (onto-eq-concat s t) ∙ sym (cons-append c s t)

-- The parts with two low lines between them.
abbrev pub spelled : String → List String → String
spelled p [] = p
spelled p (q ∷ qs) = onto p (String.◌∷◌ "_" (String.◌∷◌ "_" (spelled q qs)))

one_more :
    (part : String) (c : Char) (s : String)
    → concat (concat part (String.◌∷◌ c String.[])) s ≡ concat part (String.◌∷◌ c s)
one_more part c s =
    append_assoc part (String.◌∷◌ c String.[]) s
    ∙ ap (concat part) (cons-append c String.[] s ∙ ap (λ r. String.◌∷◌ c r) (nil-append s))

abbrev pub IsPlain : String → Type 0
IsPlain p = is_plain p ≡ true

split_from-last : (part q : String) → IsPlain q → split_from part q ≡ (concat part q, [])
unfolding split_from
split_from-last part String.[] h = ap (λ s. (s, [])) (sym (append-nil part))
split_from-last part (String.◌∷◌ c String.[]) h = refl
split_from-last part (String.◌∷◌ c (String.◌∷◌ d s)) h =
    let one : (is_low_line (code c) && is_low_line (code d)) ≡ false = ground arith in
    let part' = concat part (String.◌∷◌ c String.[]) in
    ap
      (λ b. elim b as (λ _. FieldPath) [
        | true ↦ first_of part (split_from "" s)
        | false ↦ split_from part' (String.◌∷◌ d s)
      ])
      one
    ∙ split_from-last part' (String.◌∷◌ d s) (ground arith)
    ∙ ap (λ t. (t, [])) (one_more part c (String.◌∷◌ d s))

split_from-append :
    (part q rest : String)
    → IsPlain q
    → split_from part (onto q (String.◌∷◌ "_" (String.◌∷◌ "_" rest)))
      ≡ first_of (concat part q) (split_from "" rest)
unfolding split_from
split_from-append part String.[] rest h =
    ap (λ s. first_of s (split_from "" rest)) (sym (append-nil part))
split_from-append part (String.◌∷◌ c String.[]) rest h =
    let one : (is_low_line (code c) && true) ≡ false = ground arith in
    let part' = concat part (String.◌∷◌ c String.[]) in
    ap
      (λ b. elim b as (λ _. FieldPath) [
        | true ↦ first_of part (split_from "" (String.◌∷◌ "_" rest))
        | false ↦ split_from part' (String.◌∷◌ "_" (String.◌∷◌ "_" rest))
      ])
      one
split_from-append part (String.◌∷◌ c (String.◌∷◌ d s)) rest h =
    let one : (is_low_line (code c) && is_low_line (code d)) ≡ false = ground arith in
    let part' = concat part (String.◌∷◌ c String.[]) in
    ap
      (λ b. elim b as (λ _. FieldPath) [
        | true ↦ first_of part (split_from "" (onto s (String.◌∷◌ "_" (String.◌∷◌ "_" rest))))
        | false ↦ split_from part' (onto (String.◌∷◌ d s) (String.◌∷◌ "_" (String.◌∷◌ "_" rest)))
      ])
      one
    ∙ split_from-append part' (String.◌∷◌ d s) rest (ground arith)
    ∙ ap (λ t. first_of t (split_from "" rest)) (one_more part c (String.◌∷◌ d s))

-- Splitting gives back the parts that were put together.
pub split_from-spelled :
    (p : String) (ps : List String)
    → IsPlain p
    → All IsPlain ps
    → split_from "" (spelled p ps) ≡ (p, ps)
split_from-spelled p [] h hs = split_from-last "" p h ∙ ap (λ s. (s, [])) (nil-append p)
split_from-spelled p (q ∷ qs) h hs =
    split_from-append "" p (spelled q qs) h
    ∙ ap (λ s. first_of s (split_from "" (spelled q qs))) (nil-append p)
    ∙ ap (first_of p) (split_from-spelled q qs hs.0 hs.1)
