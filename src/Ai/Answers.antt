-- ===== src/Ai/Answers.antt =====
-- app/ai/claude_auditor.py: `evaluate` from what `_post_sync` returned or raised, and the summary
-- that it sends. `loads` is `json.loads` of a text and `strip` is `str.strip`; `worded` is the text
-- that a reasoning or an exception is shown by.
pub mod Texts
pub mod Reading
pub mod Verdicts
use Prim.Native.String.{◌++◌ as concat}
use binance_momentu.Prelude.{
  Bool, true, false, not, if◌then◌else◌, Option, none, some, List, [], ◌∷◌, String, str_eq, ◌||◌,
  Result, Error, ok, raise, ◌>>=◌, or_none,
}
use binance_momentu.Float.{Float, nought}
use binance_momentu.Exchanges.Payload.{
  Json, text, array, object, Items, nil, cons, Fields, end, find, required, subscript, with_get,
}
use binance_momentu.Exchanges.Binance.Normalize.{key_is}
use binance_momentu.Signals.Quant.{ComponentAudit}
use binance_momentu.Signals.Engine.{AuditTrail}
use binance_momentu.Ai.Auditor.{
  Reply, failed, unreadable, answered, ClaudeContextAuditor, ClaudeDecisionResult, rejected_failure,
  lacks_key, record_call, verdict,
}

-- `_summarize_for_claude`.
pub record Summary (F : Type 0) : Type 0 where
  pub symbol : String
  pub exchange : String
  pub quant_score : Option F
  pub entry_price : Option F
  pub breakout_level : Option F
  pub absorption : Option Bool
  pub stop_loss : Option F
  pub take_profit : Option F
  pub position_size_usd : Option F
  pub friction_coverage : Option F
  pub feature_snapshot : List (ComponentAudit F)

unfoldable pub summarize_for_claude : {F : Type 0} → AuditTrail F → Summary F
summarize_for_claude a = record {
  symbol = a.symbol;
  exchange = a.exchange;
  quant_score = a.quant_score;
  entry_price = a.entry_price;
  breakout_level = a.breakout_level;
  absorption = a.absorption;
  stop_loss = a.stop_loss;
  take_profit = a.take_profit;
  position_size_usd = a.final_position_size_usd;
  friction_coverage = a.real_friction_coverage;
  feature_snapshot = a.feature_snapshot;
}

-- `except (urllib.error.URLError, TimeoutError, OSError)`, which are all subclasses of the last.
abbrev pub post_caught : Error → Bool
post_caught Error.os_error = true
post_caught _ = false

-- `except (KeyError, TypeError, ValueError, json.JSONDecodeError)`.
abbrev pub parse_caught : Error → Bool
parse_caught Error.key_error = true
parse_caught Error.type_error = true
parse_caught Error.value_error = true
parse_caught _ = false

module _ {F : Type 0} where
  -- What a loop over the value goes through; the keys of an object and the characters of a text
  -- have no `get`.
  unfoldable pub blocks_of : Json F → Result (Items F)
  blocks_of (array vs) = ok vs
  blocks_of (text s) = if str_eq s "" then ok nil else raise Error.attribute_error
  blocks_of (object end) = ok nil
  blocks_of (object fs) = raise Error.attribute_error
  blocks_of _ = raise Error.type_error

  -- `b["text"] for b in content_blocks if b.get("type") == "text"`.
  unfoldable pub parts_of : Items F → Result (List (Json F))
  parts_of nil = ok []
  parts_of (cons b bs) = do
    fs ← with_get b
    let rest = parts_of bs
    if key_is "type" "text" fs
        then (do part ← required "text" fs; parts ← rest; ok (part ∷ parts))
        else rest

  -- `"".join(parts)`.
  unfoldable pub joined : List (Json F) → Result String
  joined [] = ok ""
  joined (text s ∷ parts) = joined parts >>= λ rest. ok (concat s rest)
  joined (_ ∷ parts) = raise Error.type_error

  -- The text of a response.
  unfoldable pub text_of : Json F → Result String
  unfolding blocks_of parts_of joined
  text_of response = do
    content ← subscript "content" response
    blocks ← blocks_of content
    parts ← parts_of blocks
    joined parts

  -- The decision, if it is one of the two words, and the reasoning.
  abbrev pub decision_of : Json F → Json F → Option (String × Json F)
  decision_of (text d) reasoning =
      if str_eq d "APPROVED" || str_eq d "REJECTED" then some (d, reasoning) else none
  decision_of _ reasoning = none

module _ {F : Type 0} (loads : String → Result (Json F)) (strip : String → String)
    (worded : Json F → String) (described : Error → String) where
  -- The body of the `try` of `_parse_response`.
  unfoldable pub read_answer : Json F → Result (Option (String × Json F))
  read_answer response = do
    t ← text_of response
    parsed ← loads (strip t)
    decision ← subscript "decision" parsed
    fs ← with_get parsed
    ok (decision_of decision (elim (find "reasoning" fs) [ none ↦ text "" | some v ↦ v ]))

  -- `_parse_response`.
  unfoldable pub parse_answer : Json F → Result (Option (String × Json F))
  parse_answer response = or_none parse_caught (read_answer response)

  abbrev pub reply_for : Option (String × Json F) → Reply
  reply_for none = unreadable
  reply_for (some (d, reasoning)) = answered d (worded reasoning)

  -- What `evaluate` goes on with after the request.
  unfoldable pub reply_of_post : Result (Json F) → Result Reply
  unfolding parse_answer
  reply_of_post (raise e) = if post_caught e then ok (failed (described e)) else raise e
  reply_of_post (ok response) = parse_answer response >>= λ o. ok (reply_for o)

  -- `evaluate`: the call is recorded whatever comes of it.
  unfoldable pub evaluate_post :
      ⦃f : Float F⦄
      → (exchange symbol : String) → F
      → Result (Json F)
      → F
      → ClaudeContextAuditor F
      → ClaudeContextAuditor F × Result (ClaudeDecisionResult F)
  unfolding reply_of_post
  evaluate_post exchange symbol now post latency a = (
    record_call exchange symbol now a,
    if lacks_key a.api_key
        then ok (record {
          decision = rejected_failure;
          reasoning = "Claude Auditor not configured (no API key).";
          latency_ms = nought;
        })
        else reply_of_post post >>= λ reply. ok (verdict reply latency),
  )
