-- ===== src/Exchanges/Shard/Frames.antt =====
-- The messages that a subscription is sent in.
use binance_momentu.Prelude.{
  ℕ, suc, ◌+◌, ◌<◌, ◌≡◌, refl, ap, sym, ◌∙◌, Bool, true, false, if◌then◌else◌, none, some, List, [],
  ◌∷◌, ◌++◌, length, All, String, arith,
}
use binance_momentu.Prelude.Chunks.{
  chunks, chunk_loop, concat_lists, IsChunk, concat-chunk_loop, chunk_loop-IsChunk,
}
use binance_momentu.Prelude.Sets.{union, difference}
use binance_momentu.Exchanges.Shard.Offline.{symbols-send_some}
use binance_momentu.Exchanges.Shard.{
  subscribe, send_some, opened, Protocol, Shard, Method, Frame, topics_of, frames_from,
  send_sub_message,
}

-- The topics that the messages name, in order.
abbrev pub params_of : List Frame → List String
params_of [] = []
params_of (f ∷ fs) = f.params ++ params_of fs

-- The messages are of the method, each of one to `n` topics, and numbered from `k` on, if at all.
abbrev pub IsSeries : Method → ℕ → Bool → ℕ → List Frame → Type 0
IsSeries m n numbered k [] = Unit
IsSeries m n numbered k (f ∷ fs) =
    (f.method ≡ m)
    × IsChunk n f.params
    × (f.id ≡ (if numbered then some k else none))
    × IsSeries m n numbered (k + 1) fs

module _ {F : Type 0} (p : Protocol F) (m : Method) where
  params-frames_from :
      (k : ℕ) (cs : List (List String)) → params_of (frames_from p m k cs) ≡ concat_lists cs
  unfolding frames_from
  params-frames_from k [] = refl
  params-frames_from k (c ∷ cs) = ap (λ xs. c ++ xs) (params-frames_from (k + 1) cs)

  frames_from-IsSeries :
      (k : ℕ) (cs : List (List String))
      → All (IsChunk p.max_params) cs
      → IsSeries m p.max_params p.numbered k (frames_from p m k cs)
  unfolding frames_from
  frames_from-IsSeries k [] h = tt
  frames_from-IsSeries k (c ∷ cs) h = (refl, h.0, refl, frames_from-IsSeries (k + 1) cs h.1)

  length-frames_from : (k : ℕ) (cs : List (List String)) → length (frames_from p m k cs) ≡ length cs
  unfolding frames_from
  length-frames_from k [] = refl
  length-frames_from k (c ∷ cs) = ap suc (length-frames_from (k + 1) cs)

  -- On a connection, a subscription is sent as messages that put together name exactly its topics,
  -- in order, each of at least one and at most `max_params` of them; numbered messages have
  -- consecutive numbers, and the counter moves past the last. Without a connection nothing is sent.
  pub send_sub_message_lem :
      (symbols : List String) (s : Shard F)
      → 0 < p.max_params
      → let s' = send_sub_message p m symbols s in
        (s.has_ws ≡ true
          → (frames : List Frame) × (s'.sent ≡ s.sent ++ frames)
            × (params_of frames ≡ topics_of p symbols)
            × IsSeries m p.max_params p.numbered s.sub_id_counter frames
            × (s'.sub_id_counter
                ≡ (if p.numbered then s.sub_id_counter + length frames else s.sub_id_counter)))
        × (s.has_ws ≡ false → s' ≡ s)
  unfolding send_sub_message chunks
  send_sub_message_lem symbols s h =
      let ts = topics_of p symbols in
      let cs = chunk_loop (length ts) p.max_params ts in
      let k = s.sub_id_counter in
      (
        λ e. (
          frames_from p m k cs,
          ground arith,
          params-frames_from k cs ∙ concat-chunk_loop (length ts) p.max_params ts h (omega arith),
          frames_from-IsSeries k cs (chunk_loop-IsChunk (length ts) p.max_params ts h),
          ground (arith, length-frames_from k cs),
        ),
        λ e. ground arith,
      )

  params_sent :
      (symbols : List String) (s : Shard F)
      → 0 < p.max_params
      → s.has_ws ≡ true
      → s.sent ≡ []
      → params_of (send_some p m symbols s).sent ≡ topics_of p symbols
  unfolding send_some topics_of
  params_sent [] s h w e = ap params_of e
  params_sent (x ∷ xs) s h w e =
      let (frames, sent, named, _, _) = (send_sub_message_lem (x ∷ xs) s h).0 w in
      ap params_of (sent ∙ ap (λ fs. fs ++ frames) e) ∙ named

module _ {F : Type 0} (p : Protocol F) where
  -- A new connection subscribes exactly the topics of the symbols that the shard then owns.
  pub params-opened :
      (now : F) (s : Shard F)
      → 0 < p.max_params
      → (params_of (opened p now s).sent ≡ topics_of p (opened p now s).symbols)
        × ((opened p now s).symbols ≡ difference (union s.symbols s.pending_add) s.pending_remove)
  unfolding opened
  params-opened now s h =
      let symbols = difference (union s.symbols s.pending_add) s.pending_remove in
      let same = symbols-send_some p subscribe symbols _ in
      (params_sent p subscribe symbols _ h refl refl ∙ ap (topics_of p) (sym same), same)
