-- ===== src/Pipeline/Stage.antt =====
-- A turn of `_stage1_loop` of app/signals/pipeline.py with the tasks that it creates: the adapters
-- and the poller of open interest follow the candidates. The tasks run in the order of their
-- creation, before the next turn. `name` gives the candidates' shard of an exchange its name.
use binance_momentu.Prelude.{
  ◌≡◌, refl, ◌∙◌, true, ◌&&◌, if◌then◌else◌, none, some, List, [], is_empty, String, arith,
  if-cases, option-cases,
}
use binance_momentu.Prelude.Sets.{contains}
use binance_momentu.Float.{Float}
use binance_momentu.Domain.Enums.{Exchange}
use binance_momentu.Features.OiPoller.{OiPoller, has_task, sync_tasks, sync_tasks_lem}
use binance_momentu.Signals.Candidates.{SubscriptionDiff, current_candidates, is_candidate}
use binance_momentu.Exchanges.Shard.{Shard, start}
use binance_momentu.Exchanges.Adapter.{
  Adapter, update_adapter, set_candidate_symbols, sync_candidates,
}
use binance_momentu.Exchanges.Adapter.Routing.{contains-sync_shard}
use binance_momentu.Pipeline.{SignalPipeline, run_stage1_cycle}

pub record Followers (F : Type 0) : Type 0 where
  pub pipeline : SignalPipeline F
  pub adapter_of : Exchange → Adapter F
  pub poller : OiPoller

module _ {F : Type 0} where
  -- What a turn does to the adapter of one exchange.
  unfoldable pub follow : String → List String → SubscriptionDiff → Adapter F → Adapter F
  follow name candidates d a =
      let a' =
        if is_empty d.added && is_empty d.removed then a else update_adapter d.added d.removed a in
      sync_candidates name candidates (set_candidate_symbols candidates a')

  -- The symbols of the candidates' shard, if there is one.
  abbrev pub streamed : Adapter F → List String
  streamed a = elim a.candidate_shard [ none ↦ [] | some s ↦ s.symbols ]

  candidate_shard_kept :
      (d : SubscriptionDiff) (a : Adapter F)
      → let a' =
          if is_empty d.added && is_empty d.removed
          then a
          else update_adapter d.added d.removed a in
        (a'.has_sink ≡ a.has_sink) × (a'.candidate_protocol ≡ a.candidate_protocol)
  unfolding update_adapter
  candidate_shard_kept d a = ground arith

  contains-sync_candidates :
      (x name : String) (candidates : List String) (a : Adapter F)
      → a.has_sink ≡ true
      → (contains x (streamed (sync_candidates name candidates a)) ≡ contains x candidates)
        × ((sync_candidates name candidates a).candidate_symbols ≡ a.candidate_symbols)
  unfolding sync_candidates start
  contains-sync_candidates x name candidates a e =
      if-cases
        (λ (r : Adapter F).
          (contains x (streamed r) ≡ contains x candidates)
          × (r.candidate_symbols ≡ a.candidate_symbols))
        a.has_sink
        (λ _. (
          option-cases (λ (s : Shard F). contains x s.symbols ≡ contains x candidates)
              a.candidate_shard (λ _. refl)
              (λ s _. contains-sync_shard a.candidate_protocol x candidates s),
          refl,
        ))
        (λ no. absurd (ground arith))

  follow_lem :
      (x name : String) (candidates : List String) (d : SubscriptionDiff) (a : Adapter F)
      → a.has_sink ≡ true
      → (contains x (streamed (follow name candidates d a)) ≡ contains x candidates)
        × ((follow name candidates d a).candidate_symbols ≡ candidates)
  unfolding follow set_candidate_symbols
  follow_lem x name candidates d a e =
      contains-sync_candidates x name candidates _ ((candidate_shard_kept d a).0 ∙ e)

module _ {F : Type 0} ⦃f : Float F⦄ where
  unfoldable pub stage1_turn : (Exchange → String) → Followers F → Followers F
  stage1_turn name w =
      let (s, diffs) = run_stage1_cycle w.pipeline in
      let candidates = λ (x : Exchange). current_candidates x s.candidate_manager in
      record {
        pipeline = s;
        adapter_of = λ x. follow (name x) (candidates x) (diffs x) (w.adapter_of x);
        poller = sync_tasks candidates w.poller;
      }

  -- After a turn, for an exchange whose adapter has been started: the symbols of the candidates'
  -- shard are exactly the candidates, the adapter classes the events by them, and exactly they have
  -- a key in the tasks of the open interest poller. Whether the subscriptions have been sent, and
  -- whether the tasks still run, is not said.
  pub stage1_turn_lem :
      (name : Exchange → String) (w : Followers F) (x : Exchange) (symbol : String)
      → (w.adapter_of x).has_sink ≡ true
      → let w' = stage1_turn name w in
        let m = w'.pipeline.candidate_manager in
        (contains symbol (streamed (w'.adapter_of x)) ≡ is_candidate x symbol m)
        × ((w'.adapter_of x).candidate_symbols ≡ current_candidates x m)
        × (has_task (x, symbol) w'.poller.tasks ≡ is_candidate x symbol m)
  unfolding stage1_turn is_candidate
  stage1_turn_lem name w x symbol e =
      let (s, diffs) = run_stage1_cycle w.pipeline in
      let candidates = λ (y : Exchange). current_candidates y s.candidate_manager in
      let (streams, classes) =
        follow_lem symbol (name x) (candidates x) (diffs x) (w.adapter_of x) e in
      (streams, classes, (sync_tasks_lem candidates w.poller).0 x symbol)
