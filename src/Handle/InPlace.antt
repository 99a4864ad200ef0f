-- ===== src/Handle/InPlace.antt =====
-- src/boiled_egg.cpp: BOILEDEGG_CAP_IN_PLACE_REALTIME_IO, a callback whose destination is its
-- own source, chunk by chunk.
pub mod Calls
use boiled_egg.Base.{
  ℕ, zero, suc, ◌+◌, ◌-◌, ◌≡◌, ◌⊎◌, ◌∙◌, refl, sym, ap, ◌≤◌, ◌<◌, min, Bool, true, false, not, ◌&&◌,
  ◌||◌, List, [], ◌∷◌, Option, none, some, inl, inr, arith, Bool-cases, ltb, leb, ◌==◌,
  if◌then◌else◌, length,
}
use boiled_egg.Abi.{Result, ok, is_ok, is_full, is_underrun, buffer_full, Planar, ParameterEvent}
use boiled_egg.Floating.{Floating}
use boiled_egg.Backend.{Backend, PullsWithin, PushesWithin}
use boiled_egg.Handle.{
  Handle, enter_mode, realtime, idle, same_mode, load_time, store_time, non_realtime_ratio,
  realtime_time_ratio, sync_requested_parameters_realtime,
}
use boiled_egg.Handle.Chunk.{
  Buffers, input_of, pointers_at, fill, write_back, with_destination, pull_chunk,
  process_realtime_chunk, is_fatal,
}
use boiled_egg.Handle.Latency.{SameOutside, fill_outside, pull_chunk_outside}
use boiled_egg.Handle.Realtime.{
  Progress, run_events, apply_group, finish, check_call, run_callback, process_block,
}

module _ {W : Type 0} where
  -- The buffers of a call with the source `x` kept apart, and the destination of `io`.
  abbrev pub apart : (ℕ → ℕ → W) → Buffers W → Buffers W
  apart x io = record { in_place = false; source = x; destination = io.destination }

  abbrev pub apart_result :
      {B : Type 0} → (ℕ → ℕ → W) → Result × Handle W B × Buffers W → Result × Handle W B × Buffers W
  apart_result x (r, h, io) = (r, h, apart x io)

  -- In place, and not yet written from frame `cursor` on.
  pub record Fresh (x : ℕ → ℕ → W) (cursor : ℕ) (io : Buffers W) : Type 0 where
    pub shared : io.in_place ≡ true
    pub unread : (ch i : ℕ) → cursor ≤ i → io.destination ch i ≡ x ch i

module _ {W : Type 0} ⦃w : Floating W⦄ {B : Type 0} ⦃b : Backend W B⦄ where
  pull_chunk-apart :
      (x : ℕ → ℕ → W) (h : Handle W B) (io : Buffers W) (first wanted : ℕ)
      → pull_chunk h (apart x io) first wanted ≡ apart_result x (pull_chunk h io first wanted)
  unfolding pull_chunk
  pull_chunk-apart x h io first wanted =
      let (result, produced, after, engine) =
        b.pull h.engine (pointers_at io.destination first) wanted in
      elim (Bool-cases (wanted == 0)) [
        | inl empty ↦ rw empty refl
        | inr some_frames ↦ elim (Bool-cases (is_ok result)) [
          | inr failed ↦ rw (some_frames, failed) refl
          | inl fine ↦ elim (Bool-cases (produced == wanted)) [
            | inl full ↦ rw (some_frames, fine, full) refl
            | inr short ↦ rw (some_frames, fine, short) refl
          ]
        ]
      ]

  module _ (pushes : PushesWithin W B) where
    same_push :
        (x : ℕ → ℕ → W) (h : Handle W B) (io : Buffers W) (offset frames : ℕ)
        → Fresh x offset io
        → b.push h.engine (pointers_at (input_of (apart x io)) offset) frames
          ≡ b.push h.engine (pointers_at (input_of io) offset) frames
    same_push x h io offset frames f = rw f.shared (
        sym (
          pushes.reads h.engine (λ ch i. io.destination ch (offset + i)) (λ ch i. x ch (offset + i))
            frames (λ ch i lt. f.unread ch (offset + i) (omega arith))))

    pub chunk-apart :
        (x : ℕ → ℕ → W) (h : Handle W B) (io : Buffers W) (offset frames : ℕ)
        → Fresh x offset io
        → process_realtime_chunk h (apart x io) offset frames
          ≡ apart_result x (process_realtime_chunk h io offset frames)
    unfolding process_realtime_chunk
    chunk-apart x h io offset frames f =
        let (result, accepted, engine) =
          b.push h.engine (pointers_at (input_of io) offset) frames in
        let z = min frames h.realtime_latency_remaining in
        let waited = record h {
          engine = engine;
          realtime_latency_remaining = h.realtime_latency_remaining - z;
        } in
        let silenced = with_destination io (fill h.channels (w.nat 0) offset z io.destination) in
        let rest = pull_chunk-apart x waited silenced (offset + z) (frames - z) in
        rw (same_push x h io offset frames f) (elim (Bool-cases (frames == 0)) [
          | inl empty ↦ rw empty refl
          | inr some_frames ↦
              elim (Bool-cases (not (is_ok result || is_full result) || not (accepted == frames))) [
                | inl refused ↦ rw (some_frames, refused) refl
                | inr taken ↦ rw (some_frames, taken) rest
              ]
        ])

  module _ (pulls : PullsWithin W B) where
    pull_chunk_in_place :
        (h : Handle W B) (io : Buffers W) (first wanted : ℕ)
        → (pull_chunk h io first wanted).2.in_place ≡ io.in_place
    unfolding pull_chunk
    pull_chunk_in_place h io first wanted = ground arith

    -- A chunk writes nothing outside itself, whatever comes of it, and leaves the aliasing as it was.
    chunk_within :
        (h : Handle W B) (io : Buffers W) (offset frames : ℕ)
        → let io' = (process_realtime_chunk h io offset frames).2 in
          (io'.in_place ≡ io.in_place) × SameOutside offset frames io.destination io'.destination
    unfolding process_realtime_chunk
    chunk_within h io offset frames =
        let (result, accepted, engine) =
          b.push h.engine (pointers_at (input_of io) offset) frames in
        let z = min frames h.realtime_latency_remaining in
        let waited = record h {
          engine = engine;
          realtime_latency_remaining = h.realtime_latency_remaining - z;
        } in
        let silenced = with_destination io (fill h.channels (w.nat 0) offset z io.destination) in
        let kept = pull_chunk_outside pulls waited silenced (offset + z) (frames - z) in
        let alias = pull_chunk_in_place waited silenced (offset + z) (frames - z) in
        elim (Bool-cases (frames == 0)) [
          | inl empty ↦ rw empty (refl, λ ch i away. refl)
          | inr some_frames ↦
              elim (Bool-cases (not (is_ok result || is_full result) || not (accepted == frames))) [
                | inl refused ↦ rw (some_frames, refused) (refl, λ ch i away. refl)
                | inr taken ↦
                    rw (some_frames, taken)
                      (
                        alias,
                        λ ch i away.
                            kept ch i (ground (arith, away))
                            ∙ fill_outside h.channels (w.nat 0) offset z io.destination ch i
                                (ground (arith, away)),
                      )
              ]
        ]

    pub chunk-Fresh :
        (x : ℕ → ℕ → W) (h : Handle W B) (io : Buffers W) (offset frames : ℕ)
        → Fresh x offset io
        → Fresh x (offset + frames) (process_realtime_chunk h io offset frames).2
    chunk-Fresh x h io offset frames f =
        let (alias, outside) = chunk_within h io offset frames in
        record {
          shared = alias ∙ f.shared;
          unread = λ ch i late. outside ch i (inr late) ∙ f.unread ch i (omega arith);
        }
