-- ===== src/Ai/Answers/Texts.antt =====
-- The text of a response, described apart from the code.
use package.text.Mathlib.TextEquality.{eq_iff}
use Prim.Native.String.{◌++◌ as concat}
use binance_momentu.Prelude.{
  ◌≡◌, ◌≢◌, ◌⊎◌, inl, inr, refl, ap, sym, ◌∙◌, subst, Bool, true, false, if◌then◌else◌, Option,
  none, some, List, ◌∷◌, String, str_eq, ok, ◌>>=◌, >>=-eq-ok, ok-injective, Bool-cases, arith,
}
use binance_momentu.Exchanges.Payload.{
  Json, text, array, object, Items, nil, cons, Fields, end, find, required, subscript, with_get,
}
use binance_momentu.Exchanges.Binance.Normalize.{key_is}
use binance_momentu.Ai.Answers.{blocks_of, parts_of, joined, text_of}

module _ {F : Type 0} where
  -- Each block is an object; those of the type `text` have a text, and the texts are put together in
  -- their order.
  abbrev pub Joins : Items F → String → Type 0
  Joins nil t = t ≡ ""
  Joins (cons b bs) t =
      (fs : Fields F) × (b ≡ object fs)
      × (((s : String) × (rest : String) × (find "type" fs ≡ some (text "text"))
            × (find "text" fs ≡ some (text s))
            × (t ≡ concat s rest)
            × Joins bs rest)
          ⊎ ((find "type" fs ≢ some (text "text")) × Joins bs t))

  -- The response is an object, whose content is an array of such blocks or empty.
  abbrev pub HasText : Json F → String → Type 0
  HasText response t =
      (fs : Fields F) × (content : Json F) × (response ≡ object fs)
      × (find "content" fs ≡ some content)
      × (((blocks : Items F) × (content ≡ array blocks) × Joins blocks t)
          ⊎ (((content ≡ text "") ⊎ (content ≡ object end)) × (t ≡ "")))

  is_text_block :
      (fs : Fields F) → key_is "type" "text" fs ≡ true → find "type" fs ≡ some (text "text")
  is_text_block fs h = typed (find "type" fs) h
    where
      typed :
          (o : Option (Json F))
          → (elim o as (λ _. Bool) [
            | none ↦ false
            | some v ↦ elim v [ text s ↦ str_eq s "text" | _ ↦ false ]
          ])
            ≡ true
          → o ≡ some (text "text")
      typed none h = absurd (ground arith)
      typed (some (text s)) h = ap (λ x. some (text x)) ((eq_iff s "text").0 h)
      typed (some v) h = absurd (ground arith)

  is_other_block :
      (fs : Fields F) → key_is "type" "text" fs ≡ false → find "type" fs ≢ some (text "text")
  is_other_block fs h e = absurd (ground (arith, h, e))

  first_text :
      (part : Json F) (parts : List (Json F)) (t : String)
      → joined (part ∷ parts) ≡ ok t
      → (s : String) × (rest : String) × (part ≡ text s)
        × (t ≡ concat s rest)
        × (joined parts ≡ ok rest)
  unfolding joined
  first_text (text s) parts t h =
      let (rest, got, last) = >>=-eq-ok (joined parts) _ h in
      (s, rest, refl, sym (ok-injective last), got)
  first_text part parts t h = absurd (ground arith)

  required-found :
      (key : String) (fs : Fields F) (v : Json F) → required key fs ≡ ok v → find key fs ≡ some v
  required-found key fs v h = ground arith

  as_fields : (v : Json F) (fs : Fields F) → with_get v ≡ ok fs → v ≡ object fs
  as_fields (object gs) fs h = ap object (ok-injective h)
  as_fields v fs h = absurd (ground arith)

  -- One block, with what holds of the rest.
  block-Joins :
      (fs : Fields F) (bs : Items F) (parts : List (Json F)) (t : String)
      → ((ps : List (Json F)) (rest : String)
          → parts_of bs ≡ ok ps
          → joined ps ≡ ok rest
          → Joins bs rest)
      → (if key_is "type" "text" fs
          then (required "text" fs >>= λ part. parts_of bs >>= λ ps. ok (part ∷ ps))
          else parts_of bs)
        ≡ ok parts
      → joined parts ≡ ok t
      → ((s : String) × (rest : String) × (find "type" fs ≡ some (text "text"))
          × (find "text" fs ≡ some (text s))
          × (t ≡ concat s rest)
          × Joins bs rest)
        ⊎ ((find "type" fs ≢ some (text "text")) × Joins bs t)
  block-Joins fs bs parts t ih h j = elim (Bool-cases (key_is "type" "text" fs)) [
    | inl is_one ↦
        let (part, there, h2) = >>=-eq-ok (required "text" fs) _ (rw is_one at h) in
        let (ps, later, h3) = >>=-eq-ok (parts_of bs) _ h2 in
        let (s, rest, is_s, same, more) =
          first_text part ps t (subst (λ qs. joined qs ≡ ok t) (sym (ok-injective h3)) j) in
        inl (
          s,
          rest,
          is_text_block fs is_one,
          required-found "text" fs part there ∙ ap (λ x. some x) is_s,
          same,
          ih ps rest later more,
        )
    | inr not_one ↦ inr (is_other_block fs not_one, ih parts t (rw not_one at h) j)
  ]

  parts-Joins :
      (bs : Items F) (parts : List (Json F)) (t : String)
      → parts_of bs ≡ ok parts
      → joined parts ≡ ok t
      → Joins bs t
  unfolding parts_of joined
  parts-Joins nil parts t h j =
      sym (ok-injective (subst (λ ps. joined ps ≡ ok t) (sym (ok-injective h)) j))
  parts-Joins (cons b bs) parts t h j =
      let (fs, got, h1) = >>=-eq-ok (with_get b) _ h in
      (fs, as_fields b fs got, block-Joins fs bs parts t (parts-Joins bs) h1 j)

  content_text :
      (content : Json F) (blocks : Items F) (parts : List (Json F)) (t : String)
      → blocks_of content ≡ ok blocks
      → parts_of blocks ≡ ok parts
      → joined parts ≡ ok t
      → ((bs : Items F) × (content ≡ array bs) × Joins bs t)
        ⊎ (((content ≡ text "") ⊎ (content ≡ object end)) × (t ≡ ""))
  unfolding blocks_of
  content_text (array bs) blocks parts t h p j =
      inl (bs, refl, parts-Joins bs parts t (ap parts_of (ok-injective h) ∙ p) j)
  content_text (text s) blocks parts t h p j = elim (Bool-cases (str_eq s "")) [
    | inl e ↦ inr (
      inl (ap text ((eq_iff s "").0 e)),
      parts-Joins nil parts t (ap parts_of (ok-injective (rw e at h)) ∙ p) j,
    )
    | inr n ↦ absurd (ground (arith, h, n))
  ]
  content_text (object end) blocks parts t h p j =
      inr (inr refl, parts-Joins nil parts t (ap parts_of (ok-injective h) ∙ p) j)
  content_text content blocks parts t h p j = absurd (ground (arith, h))

  pub text_of-HasText :
      (response : Json F) (t : String) → text_of response ≡ ok t → HasText response t
  unfolding text_of
  text_of-HasText response t h =
      let (content, there, h1) = >>=-eq-ok (subscript "content" response) _ h in
      let (blocks, b, h2) = >>=-eq-ok (blocks_of content) _ h1 in
      let (parts, p, j) = >>=-eq-ok (parts_of blocks) _ h2 in
      let (fs, same, found) = fields_of response content there in
      (fs, content, same, found, content_text content blocks parts t b p j)
    where
      fields_of :
          (response content : Json F)
          → subscript "content" response ≡ ok content
          → (fs : Fields F) × (response ≡ object fs) × (find "content" fs ≡ some content)
      fields_of (object fs) content h = (fs, refl, required-found "content" fs content h)
      fields_of response content h = absurd (ground arith)
