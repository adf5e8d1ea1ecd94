-- ===== src/Ingestion/Recovery.antt =====
-- That the consumer empties the buffer, and that the monitor then ends an overload.
use binance_momentu.Prelude.{
  ℕ, zero, suc, ◌+◌, ◌<◌, ◌≡◌, ◌≢◌, refl, ap, sym, ◌∙◌, true, false, List, [], ◌∷◌, ◌++◌, length,
  take, drop, length-append, is_empty, arith, if-cases,
}
use binance_momentu.Prelude.Chunks.{take-append-drop}
use binance_momentu.Float.{Float, ◌≤?◌, ◌≼◌, ◌⊘◌, of_int}
use binance_momentu.Domain.Enums.{lossy_mode, data_overload}
use binance_momentu.Buffer.{
  RingBuffer, size, utilization, update_state_locked, acknowledge_recovery, pop_batch,
}
use binance_momentu.Buffer.Order.{contents, pop_batch_lem}
use binance_momentu.Ingestion.{
  IngestionManager, consume_batch_size, consume_once, consume_loop, maybe_recover_buffer,
  needs_recovery,
}

module _ {A : Type 0} where
  parts : (n : ℕ) (xs : List A) → length (take n xs) + length (drop n xs) ≡ length xs
  parts n xs = sym (length-append (take n xs) (drop n xs)) ∙ ap length (take-append-drop n xs)

  front-nil : (xs : List A) → is_empty (take consume_batch_size xs) ≡ true → xs ≡ []
  front-nil [] e = refl
  front-nil (x ∷ xs) e = absurd (ground arith)

  front-positive :
      (xs : List A)
      → is_empty (take consume_batch_size xs) ≡ false
      → 0 < length (take consume_batch_size xs)
  front-positive [] e = absurd (ground arith)
  front-positive (x ∷ xs) e = omega arith

module _ {F E : Type 0} ⦃f : Float F⦄ where
  -- The buffer is empty, with its limits as they were, and `n` more events are counted.
  abbrev IsDrained : ℕ → IngestionManager F E → IngestionManager F E → Type 0
  IsDrained n m m' =
      (contents m'.buffer ≡ [])
      × (m'.events_consumed_total ≡ m.events_consumed_total + n)
      × (m'.buffer.capacity ≡ m.buffer.capacity)
      × (m'.buffer.recovery_watermark ≡ m.buffer.recovery_watermark)

  pop_batch_kept :
      (n : ℕ) (b : RingBuffer F E)
      → ((pop_batch n b).0.capacity ≡ b.capacity)
        × ((pop_batch n b).0.recovery_watermark ≡ b.recovery_watermark)
  unfolding pop_batch update_state_locked
  pop_batch_kept n b = (refl, refl)

  consume_loop-IsDrained :
      (fuel : ℕ) (m : IngestionManager F E)
      → length (contents m.buffer) < fuel
      → IsDrained (length (contents m.buffer)) m (consume_loop fuel m)
  unfolding consume_loop consume_once
  consume_loop-IsDrained zero m h = absurd (omega arith)
  consume_loop-IsDrained (suc fuel) m h =
      let xs = contents m.buffer in
      let (b, batch) = pop_batch consume_batch_size m.buffer in
      let (taken, left) = pop_batch_lem consume_batch_size m.buffer in
      let (cap, mark) = pop_batch_kept consume_batch_size m.buffer in
      let m' = (consume_once m).0 in
      let whole = parts consume_batch_size xs in
      if-cases (IsDrained (length xs) m) (is_empty batch)
        (λ idle.
          let none_left = front-nil xs (ap is_empty (sym taken) ∙ idle) in
          (
            left ∙ ap (drop consume_batch_size) none_left,
            omega (arith, ap length taken, ap length none_left, whole),
            cap,
            mark,
          ))
        (λ busy.
          let more = front-positive xs (ap is_empty (sym taken) ∙ busy) in
          let (empty, counted, cap', mark') =
            consume_loop-IsDrained fuel m' (omega (arith, ap length left, whole, more)) in
          (
            empty,
            omega (arith, counted, ap length left, ap length taken, whole),
            cap' ∙ cap,
            mark' ∙ mark,
          ))

  size-contents : (b : RingBuffer F E) → contents b ≡ [] → size b ≡ 0
  size-contents b e =
      let q = b.queues in
      omega (
        arith,
        ap length e,
        length-append q.at0 (q.at1 ++ (q.at2 ++ q.at3)),
        length-append q.at1 (q.at2 ++ q.at3),
        length-append q.at2 q.at3,
      )

  -- When no more events come, the consumer takes all that the buffer holds and counts them, in no
  -- more turns than it holds events and one; if an empty buffer is at or below its recovery
  -- watermark, the monitor's next turn then ends an overload and the lossy mode.
  pub consume_loop-maybe_recover_buffer :
      (fuel : ℕ) (m : IngestionManager F E)
      → length (contents m.buffer) < fuel
      → (of_int 0 ⊘ of_int m.buffer.capacity) ≼ m.buffer.recovery_watermark
      → let m' = maybe_recover_buffer (consume_loop fuel m) in
        (contents m'.buffer ≡ [])
        × (m'.events_consumed_total ≡ m.events_consumed_total + length (contents m.buffer))
        × (m'.buffer.state ≢ data_overload)
        × (m'.buffer.state ≢ lossy_mode)
  unfolding maybe_recover_buffer acknowledge_recovery utilization
  consume_loop-maybe_recover_buffer fuel m h w =
      let m' = consume_loop fuel m in
      let (empty, counted, cap, mark) = consume_loop-IsDrained fuel m h in
      let low : (of_int (size m'.buffer) ⊘ of_int m'.buffer.capacity)
          ≼ m'.buffer.recovery_watermark =
        rw (size-contents m'.buffer empty, cap, mark) w in
      if-cases
        (λ (r : IngestionManager F E).
          (contents r.buffer ≡ [])
          × (r.events_consumed_total ≡ m.events_consumed_total + length (contents m.buffer))
          × (r.buffer.state ≢ data_overload)
          × (r.buffer.state ≢ lossy_mode))
        (needs_recovery m'.buffer.state)
        (λ _.
          if-cases
            (λ (b : RingBuffer F E).
              (contents b ≡ [])
              × (m'.events_consumed_total ≡ m.events_consumed_total + length (contents m.buffer))
              × (b.state ≢ data_overload)
              × (b.state ≢ lossy_mode))
            (utilization m'.buffer ≤? m'.buffer.recovery_watermark)
            (λ _. (empty, counted, λ x. cc, λ x. cc)) (λ high. absurd (ground arith)))
        (λ calm. (empty, counted, λ x. ground arith, λ x. ground arith))
