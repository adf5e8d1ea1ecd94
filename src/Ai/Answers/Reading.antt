-- ===== src/Ai/Answers/Reading.antt =====
-- What the parser reads in a response.
use package.text.Mathlib.TextEquality.{eq_iff}
use binance_momentu.Prelude.{
  ◌≡◌, ◌⊎◌, refl, ap, ◌∙◌, none, some, String, Result, Error, ok, ◌>>=◌, >>=-eq-ok, ok-injective,
  arith,
}
use binance_momentu.Exchanges.Payload.{
  Json, text, object, Fields, find, required, subscript, with_get,
}
use binance_momentu.Ai.Answers.Texts.{HasText, text_of-HasText}
use binance_momentu.Ai.Answers.{text_of, decision_of, read_answer}

module _ {F : Type 0} (loads : String → Result (Json F)) (strip : String → String)
    (worded : Json F → String) (described : Error → String) where
  -- The texts of the response's blocks, put together, are JSON of an object whose decision is the
  -- word.
  abbrev pub Answers : String → Json F → Type 0
  Answers w response =
      (t : String) × (fs : Fields F) × (text_of response ≡ ok t)
      × HasText response t
      × (loads (strip t) ≡ ok (object fs))
      × (find "decision" fs ≡ some (text w))

  abbrev pub IsWord : String → Type 0
  IsWord w = (w ≡ "APPROVED") ⊎ (w ≡ "REJECTED")

  from_decision :
      (v reasoning r : Json F) (d : String) → decision_of v reasoning ≡ some (d, r) → v ≡ text d
  from_decision (text s) reasoning r d e = ground arith
  from_decision v reasoning r d e = absurd (ground arith)

  from_required :
      (fs : Fields F) (key : String) (v : Json F) → required key fs ≡ ok v → find key fs ≡ some v
  from_required fs key v e = ground arith

  from_parsed :
      (parsed : Json F) (d : String) (r : Json F)
      → (subscript "decision" parsed >>= λ decision. with_get parsed >>= λ fs.
          ok (decision_of decision (elim (find "reasoning" fs) [ none ↦ text "" | some v ↦ v ])))
        ≡ ok (some (d, r))
      → (fs : Fields F) × (parsed ≡ object fs) × (find "decision" fs ≡ some (text d))
  from_parsed (object fs) d r e =
      let (v, there, last) = >>=-eq-ok (required "decision" fs) _ e in
      (
        fs,
        refl,
        from_required fs "decision" v there ∙ ap some (from_decision v _ r d (ok-injective last)),
      )
  from_parsed v d r e = absurd (ground arith)

  pub read_answer-Answers :
      (response : Json F) (d : String) (r : Json F)
      → read_answer loads strip worded described response ≡ ok (some (d, r))
      → Answers d response
  unfolding read_answer
  read_answer-Answers response d r e =
      let (t, got, after_text) = >>=-eq-ok (text_of response) _ e in
      let (parsed, loaded, after_load) = >>=-eq-ok (loads (strip t)) _ after_text in
      let (fs, same, there) = from_parsed parsed d r after_load in
      (t, fs, got, text_of-HasText response t got, loaded ∙ ap ok same, there)

  to_parsed :
      (fs : Fields F) (w : String)
      → IsWord w
      → find "decision" fs ≡ some (text w)
      → (required "decision" fs >>= λ decision.
          ok (decision_of decision (elim (find "reasoning" fs) [ none ↦ text "" | some v ↦ v ])))
        ≡ ok (some (w, elim (find "reasoning" fs) [ none ↦ text "" | some v ↦ v ]))
  to_parsed fs w word there =
      rw (required, there) (ground (arith, eq_iff w "APPROVED", eq_iff w "REJECTED"))

  pub Answers-read_answer :
      (response : Json F) (w : String)
      → Answers w response
      → IsWord w
      → (r : Json F) × (read_answer loads strip worded described response ≡ ok (some (w, r)))
  unfolding read_answer
  Answers-read_answer response w (t, fs, got, texts, loaded, there) word = (
    elim (find "reasoning" fs) [ none ↦ text "" | some v ↦ v ],
    rw got (rw loaded (to_parsed fs w word there)),
  )
