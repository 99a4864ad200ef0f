-- ===== src/Handle/Realtime.antt =====
-- src/boiled_egg.cpp: `boiledegg_process_realtime`, the fixed-size audio callback.
use boiled_egg.Base.{
  ℕ, zero, suc, ◌+◌, ◌-◌, Bool, true, false, not, ◌&&◌, ◌||◌, ◌==◌, if◌then◌else◌, ltb, List, [],
  ◌∷◌, length, Option, none, some,
}
use boiled_egg.Abi.{
  present, read_pointers, Result, ok, invalid_argument, invalid_state, unsupported_mode, is_ok,
  is_underrun, ParameterEvent, Planar, phase_vocoder_id,
}
use boiled_egg.Floating.{Floating}
use boiled_egg.Backend.{Backend}
use boiled_egg.Handle.{
  Handle, idle, realtime, same_mode, enter_mode, load_time, store_time, realtime_time_ratio,
  non_realtime_ratio, sync_requested_parameters_realtime,
}
use boiled_egg.Handle.Parameters.{validate_realtime_event, apply_parameter_events}
use boiled_egg.Handle.Chunk.{
  Buffers, input_of, is_fatal, process_realtime_chunk, apply_event_realtime,
}

-- What a call has come to: whether it ends at once, its result so far, the frames done.
pub record Progress (W : Type 0) (B : Type 0) : Type 0 where
  pub ended : Bool
  pub result : Result
  pub cursor : ℕ
  pub handle : Handle W B
  pub io : Buffers W

module _ {W : Type 0} ⦃w : Floating W⦄ where
  -- No NaN and no infinity: channels `ch` to `ch + n`, frames `i` to `i + n`.
  unfoldable pub finite_frames : ℕ → ℕ → (ℕ → W) → Bool
  finite_frames zero i x = true
  finite_frames (suc n) i x = let rest = finite_frames n (i + 1) x in w.is_finite (x i) && rest

  unfoldable pub finite_channels : ℕ → ℕ → ℕ → (ℕ → ℕ → W) → Bool
  finite_channels zero ch frames x = true
  finite_channels (suc n) ch frames x =
      let rest = finite_channels n (ch + 1) frames x in finite_frames frames 0 (x ch) && rest

module _ {W : Type 0} ⦃w : Floating W⦄ {B : Type 0} ⦃b : Backend W B⦄ where
  -- The validation loop: each event, and the order of the offsets.
  unfoldable pub validate_events : Handle W B → ℕ → List (ParameterEvent W) → ℕ → Result
  validate_events h previous [] frames = ok
  validate_events h previous (event ∷ events) frames =
      let rest = validate_events h event.sample_offset events frames in
      let result = validate_realtime_event h event frames in
      if not (is_ok result)
      then result
      else if ltb event.sample_offset previous
      then invalid_argument
      else rest

  -- The inner loop: the events at `cursor`. The first result that is not `ok` ends the call.
  unfoldable pub apply_group :
      Handle W B → ℕ → List (ParameterEvent W) → Result × Handle W B × List (ParameterEvent W)
  apply_group h cursor [] = (ok, h, [])
  apply_group h cursor (event ∷ events) =
      let (result, applied) = apply_event_realtime h event in
      let rest = apply_group applied cursor events in
      if event.sample_offset == cursor
      then (if is_ok result then rest else (result, applied, event ∷ events))
      else (ok, h, event ∷ events)

  -- The outer loop, `while (event_index < event_count)`; `none` is a run out of fuel.
  unfoldable pub run_events :
      ℕ → Handle W B → Buffers W → ℕ → Result → List (ParameterEvent W) → Option (Progress W B)
  run_events fuel h io cursor overall [] =
      some (record { ended = false; result = overall; cursor = cursor; handle = h; io = io })
  run_events zero h io cursor overall (event ∷ events) = none
  run_events (suc fuel) h io cursor overall (event ∷ events) =
      let offset = event.sample_offset in
      let (chunk_result, after, written) =
        (if ltb cursor offset
          then process_realtime_chunk h io cursor (offset - cursor)
          else (ok, h, io)) in
      let here = if ltb cursor offset then offset else cursor in
      let (event_result, applied, rest) = apply_group after here (event ∷ events) in
      let next =
        run_events fuel applied written here
          (if is_underrun chunk_result then chunk_result else overall) rest in
      if is_fatal chunk_result
      then some (record {
        ended = true;
        result = chunk_result;
        cursor = cursor;
        handle = after;
        io = written;
      })
      else if not (is_ok event_result)
      then some (record {
        ended = true;
        result = event_result;
        cursor = here;
        handle = applied;
        io = written;
      })
      else next

  -- The audio after the last event.
  unfoldable pub finish : Progress W B → ℕ → Result × Handle W B × Buffers W
  finish p frames =
      let (result, h, io) = process_realtime_chunk p.handle p.io p.cursor (frames - p.cursor) in
      if p.ended || not (ltb p.cursor frames)
      then (p.result, p.handle, p.io)
      else (if is_ok result then p.result else result, h, io)

  -- The checks of the batch and the samples, before anything is touched.
  unfoldable pub check_call : Handle W B → (ℕ → ℕ → W) → ℕ → List (ParameterEvent W) → Result
  check_call h input frames events =
      let vocoder = h.backend.backend_id == phase_vocoder_id in
      if vocoder && (ltb 256 (length events) || not (finite_channels h.channels 0 frames input))
      then invalid_argument
      else validate_events h 0 events frames

  -- The part after the mode is entered.
  unfoldable pub run_callback :
      Handle W B
      → Buffers W
      → ℕ
      → List (ParameterEvent W)
      → Option (Result × Handle W B × Buffers W)
  run_callback h io frames events =
      let settled =
        if non_realtime_ratio (load_time h) then store_time h realtime_time_ratio else h in
      elim (run_events (length events) (sync_requested_parameters_realtime settled) io 0 ok
        events) [ none ↦ none | some p ↦ some (finish p frames) ]

  -- The call with its buffers present and its events.
  unfoldable pub process_block :
      Handle W B
      → Buffers W
      → ℕ
      → List (ParameterEvent W)
      → Option (Result × Handle W B × Buffers W)
  process_block h io frames events =
      let checked = check_call h (input_of io) frames events in
      let (entered, moved) = enter_mode h realtime in
      if not (is_ok checked)
      then some (checked, h, io)
      else if same_mode h.mode idle && non_realtime_ratio (load_time h)
      then some (unsupported_mode, h, io)
      else if entered
      then run_callback moved io frames events
      else some (invalid_state, moved, io)

  -- The whole entry point; `events` is `none` for a null pointer to `event_count` events.
  unfoldable pub process_realtime :
      Handle W B
      → Bool
      → Planar W
      → Planar W
      → ℕ
      → Option (List (ParameterEvent W))
      → ℕ
      → Option (Result × Handle W B × Buffers W)
  process_realtime h in_place input output frames events event_count =
      let io : Buffers W = record {
        in_place = in_place;
        source = read_pointers (w.nat 0) input;
        destination = read_pointers (w.nat 0) output;
      } in
      let (result, applied) = apply_parameter_events h events event_count in
      if frames == 0
      then some (result, applied, io)
      else if ltb h.max_block_size frames
          || not (present h.channels input)
          || not (present h.channels output)
      then some (invalid_argument, h, io)
      else elim events [
        | none ↦
            if ltb 0 event_count
            then some (invalid_argument, h, io)
            else process_block h io frames []
        | some list ↦ process_block h io frames list
      ]
