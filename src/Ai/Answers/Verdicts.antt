-- ===== src/Ai/Answers/Verdicts.antt =====
-- Which verdict an answer leads to, and when there is none.
use package.text.Mathlib.TextEquality.{eq_iff}
use binance_momentu.Prelude.{
  ◌≡◌, ◌≢◌, ◌↔◌, ◌⊎◌, inl, inr, refl, ap, sym, ◌∙◌, subst, Bool, true, false, if◌then◌else◌, Option,
  none, some, String, Result, Error, ok, raise, ◌>>=◌, or_none, >>=-eq-ok, ok-injective,
  raise-injective, arith,
}
use binance_momentu.Float.{Float}
use binance_momentu.Exchanges.Payload.{Json}
use binance_momentu.Ai.Auditor.{
  Reply, failed, unreadable, answered, ClaudeContextAuditor, ClaudeDecisionResult, Decision,
  approved, rejected_judgment, lacks_key, parse_response, verdict, Says, not_both,
}
use binance_momentu.Ai.Answers.{
  post_caught, parse_caught, read_answer, parse_answer, reply_for, reply_of_post, evaluate_post,
}
use binance_momentu.Ai.Answers.Reading.{Answers, IsWord, read_answer-Answers, Answers-read_answer}

verdict_iff :
    {F : Type 0} ⦃f : Float F⦄ (reply : Reply) (latency : F)
    → let d = (verdict reply latency).decision in
      ((d ≡ approved) ↔ Says "APPROVED" reply) × ((d ≡ rejected_judgment) ↔ Says "REJECTED" reply)
unfolding verdict parse_response
verdict_iff (failed e) latency = ground arith
verdict_iff unreadable latency = ground arith
verdict_iff (answered d w) latency =
    ground (arith, eq_iff d "APPROVED", eq_iff d "REJECTED", not_both d)

post_caught_iff : (e : Error) → (post_caught e ≡ false) ↔ (e ≢ Error.os_error)
post_caught_iff Error.os_error = (λ h. absurd (ground arith), λ n. absurd (n refl))
post_caught_iff _ = (λ _ h. cc, λ _. refl)

parse_caught_iff :
    (e : Error)
    → (parse_caught e ≡ false)
      ↔ ((e ≢ Error.key_error) × (e ≢ Error.type_error) × (e ≢ Error.value_error))
parse_caught_iff Error.key_error = (λ h. absurd (ground arith), λ (n, _, _). absurd (n refl))
parse_caught_iff Error.type_error = (λ h. absurd (ground arith), λ (_, n, _). absurd (n refl))
parse_caught_iff Error.value_error = (λ h. absurd (ground arith), λ (_, _, n). absurd (n refl))
parse_caught_iff _ = (λ _. (λ h. cc, λ h. cc, λ h. cc), λ _. refl)

module _ {F : Type 0} (loads : String → Result (Json F)) (strip : String → String)
    (worded : Json F → String) (described : Error → String) where
  some_of :
      {A : Type 0} (caught : Error → Bool) (m : Result (Option A)) (x : A)
      → or_none caught m ≡ ok (some x)
      → m ≡ ok (some x)
  some_of caught (ok o) x e = e
  some_of caught (raise e') x e = absurd (ground arith)

  -- The exceptions that leave the parser.
  abbrev pub IsStray : Json F → Error → Type 0
  IsStray response e =
      (read_answer loads strip worded described response ≡ raise e)
      × (e ≢ Error.key_error)
      × (e ≢ Error.type_error)
      × (e ≢ Error.value_error)

  -- The request raised what is not caught, or reading its answer did.
  abbrev pub IsLost : Result (Json F) → Error → Type 0
  IsLost post e =
      ((post ≡ raise e) × (e ≢ Error.os_error))
      ⊎ ((response : Json F) × (post ≡ ok response) × IsStray response e)

  said :
      (post : Result (Json F)) (reply : Reply) (w : String)
      → reply_of_post loads strip worded described post ≡ ok reply
      → Says w reply
      → (response : Json F) × (post ≡ ok response) × Answers loads strip worded described w response
  unfolding reply_of_post
  said (raise e) (failed _) w h k = elim k [ ]
  said (raise e) unreadable w h k = elim k [ ]
  said (raise e) (answered d r) w h k = absurd (ground arith)
  said (ok response) reply w h k =
      let (o, parsed, last) = >>=-eq-ok (parse_answer loads strip worded described response) _ h in
      (response, refl, meant response o w parsed (subst (Says w) (sym (ok-injective last)) k))
    where
      meant :
          (response : Json F) (o : Option (String × Json F)) (w : String)
          → parse_answer loads strip worded described response ≡ ok o
          → Says w (reply_for loads strip worded described o)
          → Answers loads strip worded described w response
      meant response none w parsed same = elim same [ ]
      meant response (some (d, r)) w parsed same =
          subst (λ x. Answers loads strip worded described x response) same
            (read_answer-Answers loads strip worded described response d r
              (some_of parse_caught _ (d, r) parsed))

  to_reply :
      (response : Json F) (w : String)
      → Answers loads strip worded described w response
      → IsWord loads strip worded described w
      → (r : Json F) × (reply_of_post loads strip worded described (ok response)
          ≡ ok (answered w (worded r)))
  unfolding reply_of_post
  to_reply response w h word =
      let (r, read) = Answers-read_answer loads strip worded described response w h word in
      (r, rw read refl)

  parsing_iff :
      {A B : Type 0} (m : Result (Option A)) (g : Option A → B) (e : Error)
      → ((or_none parse_caught m >>= λ o. ok (g o)) ≡ raise e)
        ↔ ((m ≡ raise e) × (parse_caught e ≡ false))
  parsing_iff (ok o) g e = (λ h. cc, λ (h, c). cc)
  parsing_iff (raise e') g e = ground arith

  reading_iff :
      (response : Json F) (g : Option (String × Json F) → Reply) (e : Error)
      → ((parse_answer loads strip worded described response >>= λ o. ok (g o)) ≡ raise e)
        ↔ IsStray response e
  unfolding parse_answer
  reading_iff response g e =
      let (there, back) = parsing_iff (read_answer loads strip worded described response) g e in
      let (uncaught, left) = parse_caught_iff e in
      (
        λ h. (let (same, c) = there h in let (k, t, v) = uncaught c in (same, k, t, v)),
        λ (same, k, t, v). back (same, left (k, t, v)),
      )

  posting_iff :
      (e' e : Error) (reply : Reply)
      → ((if post_caught e' then ok reply else raise e') ≡ raise e)
        ↔ (◌≡◌ {A = Result Reply} (raise e') (raise e) × (post_caught e ≡ false))
  posting_iff e' e reply = ground arith

  escapes_iff :
      (post : Result (Json F)) (e : Error)
      → (reply_of_post loads strip worded described post ≡ raise e) ↔ IsLost post e
  unfolding reply_of_post
  escapes_iff (raise e') e = (
    λ h.
        (let (same, c) = (posting_iff e' e (failed (described e'))).0 h in
          inl (ap (λ x. raise x) (raise-injective same), (post_caught_iff e).0 c)),
    λ k. unheard e' e k,
  )
    where
      unheard :
          (e' e : Error)
          → IsLost (raise e') e
          → (if post_caught e' then ok (failed (described e')) else raise e') ≡ raise e
      unheard e' e (inl (h, n)) =
          (posting_iff e' e (failed (described e'))).1
            (ap (λ x. raise x) (raise-injective h), (post_caught_iff e).1 n)
      unheard e' e (inr (response, h, s)) = cc
  escapes_iff (ok response) e =
      let (there, back) = reading_iff response (reply_for loads strip worded described) e in
      (λ h. inr (response, refl, there h), λ k. strayed response e back k)
    where
      strayed :
          (response : Json F) (e : Error) {T : Type 0}
          → (IsStray response e → T)
          → IsLost (ok response) e
          → T
      strayed response e back (inl (h, c)) = absurd (ground arith)
      strayed response e back (inr (response', h, s)) =
          back (subst (λ x. IsStray x e) (sym (ok-injective h)) s)

  raised :
      {A B : Type 0} (m : Result A) (g : A → B) (e : Error)
      → ((m >>= λ x. ok (g x)) ≡ raise e) ↔ (m ≡ raise e)
  raised (ok x) g e = (λ h. cc, λ h. cc)
  raised (raise e') g e = (λ h. cc, λ h. cc)

  module _ ⦃f : Float F⦄ (latency : F) (post : Result (Json F)) where
    -- The result, if the key is missing or not.
    abbrev decided : Bool → ClaudeDecisionResult F → Result (ClaudeDecisionResult F)
    decided lacks without =
        if lacks
        then ok without
        else reply_of_post loads strip worded described post >>= λ reply. ok (verdict reply latency)

    judged :
        (lacks : Bool) (without : ClaudeDecisionResult F) (w : String) (v : Decision)
        → IsWord loads strip worded described w
        → ((reply : Reply) → ((verdict reply latency).decision ≡ v) ↔ Says w reply)
        → without.decision ≢ v
        → ((d : ClaudeDecisionResult F) × (decided lacks without ≡ ok d) × (d.decision ≡ v)) ↔ (
            (lacks ≡ false)
            × ((response : Json F) × (post ≡ ok response)
                × Answers loads strip worded described w response))
    judged true without w v word says other =
        (λ (d, h, k). absurd (other (ap (λ x. x.decision) (ok-injective h) ∙ k)), λ (h, _). cc)
    judged false without w v word says other = (
      λ (d, h, k).
          (let (reply, got, last) =
              >>=-eq-ok (reply_of_post loads strip worded described post) _ h in
            (
              refl,
              said post reply w got ((says reply).0 (ap (λ x. x.decision) (ok-injective last) ∙ k)),
            )),
      λ (_, (response, same, answer)).
          (let (r, got) = to_reply response w answer word in
            let reply = answered w (worded r) in
            (
              verdict reply latency,
              ap (λ x. reply_of_post loads strip worded described x >>= λ y. ok (verdict y latency))
                    same
                  ∙ ap (λ m. m >>= λ y. ok (verdict y latency)) got,
              (says reply).1 refl,
            )),
    )

    lost :
        (lacks : Bool) (without : ClaudeDecisionResult F) (e : Error)
        → (decided lacks without ≡ raise e) ↔ ((lacks ≡ false) × IsLost post e)
    lost true without e = (λ h. cc, λ (h, _). cc)
    lost false without e =
        let m = reply_of_post loads strip worded described post in
        let (there, back) = raised m (λ reply. verdict reply latency) e in
        (λ h. (refl, (escapes_iff post e).0 (there h)), λ (_, k). back ((escapes_iff post e).1 k))

  -- The verdict is approval exactly if there is a key and the response is an object whose blocks of
  -- the type `text` have texts that, put together, are JSON of an object whose decision is
  -- APPROVED, and a rejection by judgment exactly for REJECTED. An
  -- exception leaves `evaluate` exactly if there is a key and the request raised another exception
  -- than an OSError, such as the ValueError of an answer that is no JSON, or reading the response
  -- raised another than a KeyError, a TypeError or a ValueError.
  pub evaluate_post_lem :
      ⦃f : Float F⦄ (exchange symbol : String) (now latency : F) (post : Result (Json F))
      (a : ClaudeContextAuditor F)
      → let result =
          (evaluate_post loads strip worded described exchange symbol now post latency a).1 in
        let asked = (lacks_key a.api_key ≡ false) in
        (((d : ClaudeDecisionResult F) × (result ≡ ok d) × (d.decision ≡ approved)) ↔ (
          asked
          × ((response : Json F) × (post ≡ ok response)
              × Answers loads strip worded described "APPROVED" response)))
        × (((d : ClaudeDecisionResult F) × (result ≡ ok d) × (d.decision ≡ rejected_judgment)) ↔ (
            asked
            × ((response : Json F) × (post ≡ ok response)
                × Answers loads strip worded described "REJECTED" response)))
        × ((e : Error) → (result ≡ raise e) ↔ (asked × IsLost post e))
  unfolding evaluate_post
  evaluate_post_lem exchange symbol now latency post a = (
    judged latency post (lacks_key a.api_key) _ "APPROVED" approved (inl refl)
        (λ reply. (verdict_iff reply latency).0) (λ h. cc),
    judged latency post (lacks_key a.api_key) _ "REJECTED" rejected_judgment (inr refl)
        (λ reply. (verdict_iff reply latency).1) (λ h. cc),
    lost latency post (lacks_key a.api_key) _,
  )
