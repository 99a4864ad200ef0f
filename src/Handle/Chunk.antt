-- ===== src/Handle/Chunk.antt =====
-- src/boiled_egg.cpp: `process_realtime_chunk` and `apply_event_realtime`. A destination is
-- a function of channel and frame. In place, the host passes the same buffers twice: the source is
-- then read from the destination as it stands.
use boiled_egg.Base.{ℕ, ◌+◌, ◌-◌, min, Bool, not, ◌&&◌, ◌||◌, ◌==◌, if◌then◌else◌, ltb, leb, some}
use boiled_egg.Abi.{
  Result, ok, invalid_argument, buffer_full, realtime_underrun, is_ok, is_full, is_underrun,
  ParameterEvent, Planar, time_ratio_id, pitch_ratio_id, pitch_semitones_id, formant_ratio_id,
  formant_semitones_id,
}
use boiled_egg.Floating.{Floating}
use boiled_egg.Backend.{Backend}
use boiled_egg.Handle.{Handle, load_formant, realtime_time_ratio, semitones_ratio}
use boiled_egg.Handle.Parameters.{store_event_mailbox}

-- The buffers of one call: `source` of a call that is not in place, and the destination.
pub record Buffers (W : Type 0) : Type 0 where
  pub in_place : Bool
  pub source : ℕ → ℕ → W
  pub destination : ℕ → ℕ → W

-- Neither `BOILEDEGG_OK` nor `BOILEDEGG_REALTIME_UNDERRUN`.
abbrev pub is_fatal : Result → Bool
is_fatal result = not (is_ok result) && not (is_underrun result)

module _ {W : Type 0} where
  abbrev pub input_of : Buffers W → ℕ → ℕ → W
  input_of io = if io.in_place then io.destination else io.source

  -- Pointers to the buffers from `offset` on.
  abbrev pub pointers_at : (ℕ → ℕ → W) → ℕ → Planar W
  pointers_at x offset = some (λ ch. some (λ i. x ch (offset + i)))

  -- `std::fill_n(output[ch] + first, n, 0.0f)` on the handle's channels.
  abbrev pub fill : ℕ → W → ℕ → ℕ → (ℕ → ℕ → W) → ℕ → ℕ → W
  fill channels value first n x ch i =
      if ltb ch channels && leb first i && ltb i (first + n) then value else x ch i

  -- What a call wrote through pointers to `first` on.
  abbrev pub write_back : ℕ → (ℕ → ℕ → W) → (ℕ → ℕ → W) → ℕ → ℕ → W
  write_back first after x ch i = if leb first i then after ch (i - first) else x ch i

  abbrev pub with_destination : Buffers W → (ℕ → ℕ → W) → Buffers W
  with_destination io x = record io { destination = x }

module _ {W : Type 0} ⦃w : Floating W⦄ {B : Type 0} ⦃b : Backend W B⦄ where
  unfoldable pub apply_event_realtime : Handle W B → ParameterEvent W → Result × Handle W B
  apply_event_realtime h event =
      let stored = store_event_mailbox h event in
      let (result, engine) =
        (if event.parameter_id == time_ratio_id
          then b.set_time_ratio stored.engine realtime_time_ratio
          else if event.parameter_id == pitch_ratio_id
          then b.set_pitch_ratio stored.engine event.value
          else if event.parameter_id == pitch_semitones_id
          then b.set_pitch_ratio stored.engine (semitones_ratio event.value)
          else if event.parameter_id == formant_ratio_id
              || event.parameter_id == formant_semitones_id
          then b.set_formant_ratio stored.engine (load_formant stored)
          else (invalid_argument, stored.engine)) in
      (result, record stored { engine = engine })

  -- The part of a chunk after the latency padding: `wanted` frames from `first` on.
  unfoldable pub pull_chunk : Handle W B → Buffers W → ℕ → ℕ → Result × Handle W B × Buffers W
  pull_chunk h io first wanted =
      let (result, produced, after, engine) =
        b.pull h.engine (pointers_at io.destination first) wanted in
      let pulled = record h { engine = engine } in
      let written = write_back first after io.destination in
      let padded = fill h.channels (w.nat 0) (first + produced) (wanted - produced) written in
      if wanted == 0
      then (ok, h, io)
      else if not (is_ok result)
      then (result, pulled, with_destination io written)
      else if produced == wanted
      then (ok, pulled, with_destination io written)
      else (realtime_underrun, pulled, with_destination io padded)

  unfoldable pub process_realtime_chunk :
      Handle W B → Buffers W → ℕ → ℕ → Result × Handle W B × Buffers W
  process_realtime_chunk h io offset frames =
      let (result, accepted, engine) = b.push h.engine (pointers_at (input_of io) offset) frames in
      let pushed = record h { engine = engine } in
      let zero_frames = min frames h.realtime_latency_remaining in
      let waited = record pushed {
        realtime_latency_remaining = h.realtime_latency_remaining - zero_frames;
      } in
      let silenced =
        with_destination io (fill h.channels (w.nat 0) offset zero_frames io.destination) in
      if frames == 0
      then (ok, h, io)
      else if not (is_ok result || is_full result) || not (accepted == frames)
      then (if is_ok result then buffer_full else result, pushed, io)
      else pull_chunk waited silenced (offset + zero_frames) (frames - zero_frames)
