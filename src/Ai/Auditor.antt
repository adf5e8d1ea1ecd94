-- ===== src/Ai/Auditor.antt =====
-- app/ai/claude_auditor.py: `ClaudeContextAuditor`. The network is outside: `Reply` is what came of
-- the request, which Answers reads from the response. The text of the prompt is not modelled.
use Prim.Native.String.{◌++◌ as concat}
use text.Mathlib.TextEquality.{eq_iff}
use mathlib.Core.Bool.{false≢true}
use mathlib.Core.Path.{◌∙◌, sym}
use binance_momentu.Prelude.{
  ◌≡◌, ◌≢◌, ◌↔◌, refl, Bool, true, false, ◌||◌, if◌then◌else◌, Option, none, some, String, str_eq,
  arith,
}
use binance_momentu.Prelude.Dict.{
  Dict, lookup, insert, string_key, lookup-insert, lookup-insert_self,
}
use binance_momentu.Float.{Float, ◌⊖◌, ◌≤?◌, nought}

pub data Decision : Type 0 where
  approved rejected_judgment rejected_failure : Decision

-- The request raised, or it was answered by text that is no JSON object with the right fields, or
-- by one with a decision and a reasoning.
pub data Reply : Type 0 where
  failed : String → Reply
  unreadable : Reply
  answered : (decision reasoning : String) → Reply

pub record ClaudeDecisionResult (F : Type 0) : Type 0 where
  pub decision : Decision
  pub reasoning : String
  pub latency_ms : F

pub record ClaudeContextAuditor (F : Type 0) : Type 0 where
  pub api_key : Option String
  pub cooldown_seconds : F
  pub last_call_at : Dict String F

-- `f"{exchange}:{symbol}"`
abbrev pub call_key : String → String → String
call_key exchange symbol = concat exchange (concat ":" symbol)

-- `not api_key`: `None`, or the empty string.
abbrev pub lacks_key : Option String → Bool
lacks_key none = true
lacks_key (some k) = str_eq k ""

unfoldable pub parse_response : Reply → Option (String × String)
parse_response (failed e) = none
parse_response unreadable = none
parse_response (answered decision reasoning) =
    if str_eq decision "APPROVED" || str_eq decision "REJECTED"
    then some (decision, reasoning)
    else none

-- The answer is readable, and its decision is the text.
abbrev pub Says : String → Reply → Type 0
Says text (failed e) = ⊥
Says text unreadable = ⊥
Says text (answered decision reasoning) = decision ≡ text

words_differ : str_eq "REJECTED" "APPROVED" ≡ false
words_differ = refl

-- No text is both words.
pub not_both : (d : String) → d ≡ "APPROVED" → d ≡ "REJECTED" → ⊥
not_both d h k =
    let (f, g) = eq_iff "REJECTED" "APPROVED" in false≢true (sym words_differ ∙ g (sym k ∙ h))

module _ {F : Type 0} ⦃f : Float F⦄ where
  unfoldable pub should_call : String → String → F → ClaudeContextAuditor F → Bool
  should_call exchange symbol now a = elim (lookup (call_key exchange symbol) a.last_call_at) [
    | none ↦ true
    | some last ↦ a.cooldown_seconds ≤? now ⊖ last
  ]

  unfoldable pub record_call : String → String → F → ClaudeContextAuditor F → ClaudeContextAuditor F
  record_call exchange symbol now a = record a {
    last_call_at = insert (call_key exchange symbol) now a.last_call_at;
  }

  -- The verdict on an answer, after `latency` milliseconds.
  unfoldable pub verdict : Reply → F → ClaudeDecisionResult F
  verdict (failed e) latency = record {
    decision = rejected_failure;
    reasoning = concat "API call failed: " e;
    latency_ms = latency;
  }
  verdict reply latency = elim (parse_response reply) [
    | none ↦ record {
      decision = rejected_failure;
      reasoning = "Invalid or unparseable Claude response.";
      latency_ms = latency;
    }
    | some (text, reasoning) ↦ record {
      decision = if str_eq text "APPROVED" then approved else rejected_judgment;
      reasoning = reasoning;
      latency_ms = latency;
    }
  ]

  unfoldable pub evaluate :
      (exchange symbol : String)
      → F
      → Reply
      → F
      → ClaudeContextAuditor F
      → ClaudeContextAuditor F × ClaudeDecisionResult F
  unfolding verdict record_call
  evaluate exchange symbol now reply latency a = (
    record_call exchange symbol now a,
    if lacks_key a.api_key
        then record {
          decision = rejected_failure;
          reasoning = "Claude Auditor not configured (no API key).";
          latency_ms = nought;
        }
        else verdict reply latency,
  )

  -- The auditor fails safe: it approves exactly if there is a key and the answer says APPROVED, and
  -- counts a rejection as a judgment exactly if there is a key and the answer says REJECTED.
  pub evaluate_iff :
      (exchange symbol : String) (now : F) (reply : Reply) (latency : F)
      (a : ClaudeContextAuditor F)
      → let d = (evaluate exchange symbol now reply latency a).1.decision in
        ((d ≡ approved) ↔ ((lacks_key a.api_key ≡ false) × Says "APPROVED" reply))
        × ((d ≡ rejected_judgment) ↔ ((lacks_key a.api_key ≡ false) × Says "REJECTED" reply))
  unfolding evaluate parse_response
  evaluate_iff exchange symbol now (failed e) latency a = ground arith
  evaluate_iff exchange symbol now unreadable latency a = ground arith
  evaluate_iff exchange symbol now (answered d w) latency a =
      ground (arith, eq_iff d "APPROVED", eq_iff d "REJECTED", not_both d)

  -- After a call the next one for the same exchange and symbol waits for the cooldown, whatever
  -- came of the first, and the others are not held up.
  pub should_call-evaluate :
      (exchange symbol other_exchange other : String) (now later : F) (reply : Reply) (latency : F)
      (a : ClaudeContextAuditor F)
      → let a' = (evaluate exchange symbol now reply latency a).0 in
        (should_call exchange symbol later a' ≡ (a.cooldown_seconds ≤? later ⊖ now))
        × (call_key exchange symbol ≢ call_key other_exchange other
            → should_call other_exchange other later a' ≡ should_call other_exchange other later a)
  unfolding evaluate should_call
  should_call-evaluate exchange symbol x s now later reply latency a =
      let k = call_key exchange symbol in
      let j = call_key x s in
      (
        ground (arith, lookup-insert_self k now a.last_call_at),
        λ n. ground (arith, lookup-insert k j now a.last_call_at, eq_iff k j),
      )
