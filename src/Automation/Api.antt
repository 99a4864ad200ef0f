-- ===== src/Automation/Api.antt =====
-- src/automation_api.inc: the ramp entry points of a handle.
use boiled_egg.Base.{
  ℕ, zero, suc, ◌+◌, ◌-◌, Bool, true, false, not, ◌&&◌, ◌||◌, ◌==◌, if◌then◌else◌, ltb, List, [],
  ◌∷◌, Option, none, some,
}
use boiled_egg.Abi.{
  Result, ok, invalid_argument, invalid_state, buffer_full, internal_error, is_ok, Planar, present,
  read_pointers, pitch_semitones_id, time_ratio_id, io_streaming, io_realtime, continuous_time,
  has_flag,
}
use boiled_egg.Floating.{Floating}
use boiled_egg.Backend.{Backend}
use boiled_egg.Handle.{
  Handle, streaming, realtime, same_mode, enter_mode, semitones_ratio, store_time, store_pitch,
  load_pitch, load_formant,
}
use boiled_egg.Handle.Chunk.{Buffers, is_fatal, pointers_at, process_realtime_chunk}
use boiled_egg.Handle.Realtime.{Progress, finite_channels, finish}
use boiled_egg.Automation.{RampEvent, AutomationInfo, Ramps, automation_info_size}

module _ {W : Type 0} ⦃w : Floating W⦄ where
  -- The value that a ramp leads to.
  abbrev pub ramp_target : RampEvent W → W
  ramp_target e = if e.parameter_id == pitch_semitones_id then semitones_ratio e.value else e.value

module _ {W : Type 0} where
  -- The list of a batch that has passed the check.
  abbrev pub listed : Option (List (RampEvent W)) → List (RampEvent W)
  listed none = []
  listed (some events) = events

module _ {W : Type 0} ⦃w : Floating W⦄ {B : Type 0} ⦃b : Backend W B⦄ ⦃r : Ramps W B⦄ where
  -- `output` is `none` where the call has no output.
  unfoldable pub ramp_batch_check :
      Handle W B → Planar W → Planar W → ℕ → Option (List (RampEvent W)) → ℕ → Bool → W → Result
  ramp_batch_check h input output frames events count for_realtime pending_pitch =
      let some_frames = not (frames == 0) in
      let checked = r.validate_ramps h.engine events count frames pending_pitch in
      let incompatible =
        (if for_realtime
          then h.backend.io_contract == io_streaming || same_mode h.mode streaming
          else h.backend.io_contract == io_realtime || same_mode h.mode realtime) in
      if ltb h.max_block_size frames
        || some_frames
          && (not (present h.channels input) || for_realtime && not (present h.channels output))
      then invalid_argument
      else if some_frames
          && not (finite_channels h.channels 0 frames (read_pointers (w.nat 0) input))
      then invalid_argument
      else if not (is_ok checked)
      then checked
      else if some_frames && incompatible
      then invalid_state
      else ok

  unfoldable pub ramp_apply : Handle W B → RampEvent W → Result × Handle W B
  ramp_apply h e =
      let (result, engine) = r.apply_ramp h.engine e in
      let applied = record h { engine = engine } in
      if not (is_ok result)
      then (result, applied)
      else if e.parameter_id == time_ratio_id
      then (result, store_time applied (ramp_target e))
      else (result, store_pitch applied (ramp_target e))

  -- The two setters before the audio: the first result that is not `ok` ends the call.
  unfoldable pub ramp_settle : Handle W B → W → Result × Handle W B
  ramp_settle h pending =
      let (pitch_result, pitched) =
        (if has_flag h.backend.flags continuous_time
          then (ok, h.engine)
          else b.set_pitch_ratio h.engine pending) in
      let (result, formed) = b.set_formant_ratio pitched (load_formant h) in
      if not (is_ok pitch_result)
      then (pitch_result, record h { engine = pitched })
      else (result, record h { engine = formed })

  -- The loop of the realtime call.
  unfoldable pub run_ramps : Handle W B → Buffers W → ℕ → Result → List (RampEvent W) → Progress W B
  run_ramps h io cursor overall [] = record {
    ended = false;
    result = overall;
    cursor = cursor;
    handle = h;
    io = io;
  }
  run_ramps h io cursor overall (e ∷ events) =
      let (chunk_result, after, written) =
        (if ltb cursor e.sample_offset
          then process_realtime_chunk h io cursor (e.sample_offset - cursor)
          else (ok, h, io)) in
      let here = if ltb cursor e.sample_offset then e.sample_offset else cursor in
      let (result, applied) = ramp_apply after e in
      let next =
        run_ramps applied written here (if is_ok chunk_result then overall else chunk_result)
          events in
      if is_fatal chunk_result
      then record {
        ended = true;
        result = chunk_result;
        cursor = cursor;
        handle = after;
        io = written;
      }
      else if not (is_ok result)
      then record { ended = true; result = result; cursor = here; handle = applied; io = written }
      else next

  -- The call after its checks.
  unfoldable pub run_ramp_callback :
      Handle W B → Buffers W → ℕ → W → List (RampEvent W) → Result × Handle W B × Buffers W
  run_ramp_callback h io frames pending events =
      let (result, settled) = ramp_settle h pending in
      if is_ok result
      then finish (run_ramps settled io 0 ok events) frames
      else (result, settled, io)

  unfoldable pub process_realtime_ramps :
      Handle W B
      → Bool
      → Planar W
      → Planar W
      → ℕ
      → Option (List (RampEvent W))
      → ℕ
      → Result × Handle W B × Buffers W
  process_realtime_ramps h in_place input output frames events count =
      let io : Buffers W = record {
        in_place = in_place;
        source = read_pointers (w.nat 0) input;
        destination = read_pointers (w.nat 0) output;
      } in
      let pending = load_pitch h in
      let checked = ramp_batch_check h input output frames events count true pending in
      let (entered, moved) = enter_mode h realtime in
      if not (is_ok checked)
      then (checked, h, io)
      else if frames == 0
      then run_ramp_callback h io frames pending (listed events)
      else if entered
      then run_ramp_callback moved io frames pending (listed events)
      else (invalid_state, moved, io)

  -- The inner loop of a push: the events at frame `n`.
  unfoldable pub ramps_at :
      Handle W B → ℕ → List (RampEvent W) → Result × Handle W B × List (RampEvent W)
  ramps_at h n [] = (ok, h, [])
  ramps_at h n (e ∷ events) =
      let (result, applied) = ramp_apply h e in
      let rest = ramps_at applied n events in
      if e.sample_offset == n
      then (if is_ok result then rest else (result, applied, e ∷ events))
      else (ok, h, e ∷ events)

  -- One round of a push, at frame `n`: whether the loop goes on, then the result, `*accepted`, the
  -- handle and the events that are not consumed.
  unfoldable pub push_round :
      Handle W B
      → (ℕ → ℕ → W)
      → ℕ
      → List (RampEvent W)
      → ℕ
      → Bool × Result × ℕ × Handle W B × List (RampEvent W)
  push_round h input n events accepted =
      let (result, applied, later) = ramps_at h n events in
      let (pushed, used, engine) = b.push applied.engine (pointers_at input n) 1 in
      let taken = record applied { engine = engine } in
      if not (r.can_accept_ramp_sample h.engine)
      then (false, buffer_full, accepted, h, events)
      else if not (is_ok result)
      then (false, result, accepted, applied, later)
      else if not (is_ok pushed)
      then (false, pushed, accepted + used, taken, later)
      else if not (used == 1)
      then (false, internal_error, accepted + used, taken, later)
      else (true, ok, accepted + used, taken, later)

  -- The rounds from frame `n` on.
  unfoldable pub push_rounds :
      ℕ
      → Handle W B
      → (ℕ → ℕ → W)
      → ℕ
      → List (RampEvent W)
      → ℕ
      → Result × ℕ × Handle W B × List (RampEvent W)
  push_rounds zero h input n events accepted = (ok, accepted, h, events)
  push_rounds (suc more) h input n events accepted =
      let (again, result, total, after, later) = push_round h input n events accepted in
      let rest = push_rounds more after input (n + 1) later total in
      if again then rest else (result, total, after, later)

  -- A call with no frames applies all events.
  unfoldable pub apply_ramps : Handle W B → List (RampEvent W) → Result × Handle W B
  apply_ramps h [] = (ok, h)
  apply_ramps h (e ∷ events) =
      let (result, applied) = ramp_apply h e in
      let rest = apply_ramps applied events in if is_ok result then rest else (result, applied)

  -- The push after the mode is entered.
  unfoldable pub push_ramp_block :
      Handle W B → (ℕ → ℕ → W) → ℕ → W → List (RampEvent W) → Result × ℕ × Handle W B
  push_ramp_block h input frames pending events =
      let (result, settled) = ramp_settle h pending in
      let (applied_result, applied) = apply_ramps settled events in
      let (pushed, accepted, after, later) = push_rounds frames settled input 0 events 0 in
      if not (frames == 0) && not (r.can_accept_ramp_sample h.engine)
      then (buffer_full, 0, h)
      else if not (is_ok result)
      then (result, 0, settled)
      else if frames == 0
      then (applied_result, 0, applied)
      else (pushed, accepted, after)

  unfoldable pub push_ramps :
      Handle W B → Planar W → ℕ → Option (List (RampEvent W)) → ℕ → Result × ℕ × Handle W B
  push_ramps h input frames events count =
      let pending = load_pitch h in
      let checked = ramp_batch_check h input none frames events count false pending in
      let (entered, moved) = enter_mode h streaming in
      let x = read_pointers (w.nat 0) input in
      if not (is_ok checked)
      then (checked, 0, h)
      else if frames == 0
      then push_ramp_block h x frames pending (listed events)
      else if entered
      then push_ramp_block moved x frames pending (listed events)
      else (invalid_state, 0, moved)

  unfoldable pub get_automation_info : Handle W B → AutomationInfo W → Result × AutomationInfo W
  get_automation_info h info =
      if ltb info.struct_size automation_info_size
      then (invalid_argument, info)
      else r.automation_info h.engine info
