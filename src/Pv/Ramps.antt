-- ===== src/Pv/Ramps.antt =====
-- src/experimental/pv/pv_automation.inc: the ramps of the phase vocoder.
pub mod Envelope
use boiled_egg.Base.{
  ℕ, zero, suc, ◌+◌, ◌-◌, ◌/◌, max, Bool, true, false, not, ◌&&◌, ◌||◌, ◌==◌, if◌then◌else◌, ltb,
  leb, List, [], ◌∷◌, Option, none, some, length,
}
use boiled_egg.Abi.{
  Result, ok, invalid_argument, unsupported_mode, end_of_stream, is_ok, pitch_ratio_id,
  pitch_semitones_id, time_ratio_id,
}
use boiled_egg.Floating.{Floating, flit, gt, ne, max_of}
use boiled_egg.Handle.{semitones_ratio}
use boiled_egg.Automation.{
  RampEvent, AutomationInfo, automation_version, automation_info_size, ramp_event_size,
  max_ramp_events,
}
use boiled_egg.Automation.Api.{ramp_target}
use boiled_egg.Timeline
use boiled_egg.Timeline.{RatioRamp}
use boiled_egg.Pv.{Pv, enabled}

-- `automation_plan`
pub record Plan (W : Type 0) : Type 0 where
  pub pitch : RatioRamp W
  pub time : RatioRamp W

module _ {W : Type 0} ⦃w : Floating W⦄ where
  unfoldable pub enable_time_automation : Pv W → Result × Pv W
  enable_time_automation e =
      if not (enabled e) || not (e.real_input_frames == 0)
      then (unsupported_mode, e)
      else (ok, record e { variable_time = true })

  -- `safe`
  unfoldable pub safe : Plan W → Bool
  safe p =
      w.le (w.mul (max_of p.pitch.value p.pitch.target) (max_of p.time.value p.time.target))
        (w.nat 2)

  -- The checks of one event; `previous` is the offset of the event before it.
  unfoldable pub validate_ramp : Bool → ℕ → ℕ → RampEvent W → Result
  validate_ramp variable_time frames previous e =
      let semitones = e.parameter_id == pitch_semitones_id in
      let v = ramp_target e in
      if not (e.struct_size == ramp_event_size)
        || not (e.reserved0 == 0)
        || not (e.reserved1 == 0)
        || ltb 1 e.curve
        || not (w.is_finite e.value)
        || (if frames == 0 then not (e.sample_offset == 0) else leb frames e.sample_offset)
        || ltb e.sample_offset previous
      then invalid_argument
      else if not (e.parameter_id == pitch_ratio_id)
          && not semitones
          && not (e.parameter_id == time_ratio_id)
      then unsupported_mode
      else if e.parameter_id == time_ratio_id && not variable_time
      then unsupported_mode
      else if semitones && (w.lt e.value (w.neg (flit 12 1)) || gt e.value (flit 12 1))
      then unsupported_mode
      else if w.lt v (flit 5 10) || gt v (flit 2 1)
      then unsupported_mode
      else ok

  unfoldable pub validate_layout : Bool → ℕ → ℕ → List (RampEvent W) → Result
  validate_layout variable_time frames previous [] = ok
  validate_layout variable_time frames previous (e ∷ events) =
      let rest = validate_layout variable_time frames e.sample_offset events in
      let result = validate_ramp variable_time frames previous e in
      if is_ok result then rest else result

  -- `while (cursor < offset) { pitch.tick(); time.tick(); ++cursor; }`, `n` rounds.
  unfoldable pub tick_plan : ℕ → Plan W → Plan W
  tick_plan zero p = p
  tick_plan (suc n) p =
      tick_plan n (record { pitch = Timeline.tick p.pitch; time = Timeline.tick p.time })

  unfoldable pub start_event : Plan W → RampEvent W → Plan W
  start_event p e =
      let v = ramp_target e in
      if e.parameter_id == time_ratio_id
      then record p { time = Timeline.start p.time v e.duration_frames e.curve true }
      else record p { pitch = Timeline.start p.pitch v e.duration_frames e.curve true }

  -- Whether the event after `e` stands at the same offset.
  abbrev pub goes_on : RampEvent W → List (RampEvent W) → Bool
  goes_on e [] = false
  goes_on e (next ∷ events) = next.sample_offset == e.sample_offset

  -- The simulation: the ticks up to an event, the event, and the test after each group.
  unfoldable pub simulate : Plan W → ℕ → List (RampEvent W) → Bool
  simulate p cursor [] = true
  simulate p cursor (e ∷ events) =
      let started = start_event (tick_plan (e.sample_offset - cursor) p) e in
      let rest = simulate started (max cursor e.sample_offset) events in
      if goes_on e events then rest else safe started && rest

  -- The plan that a batch starts from: the pitch that is still pending is started first.
  unfoldable pub pending_plan : Pv W → W → Plan W
  pending_plan e pending_pitch =
      let pitch = e.timeline.pitch_ramp in
      let frames = if e.real_input_frames == 0 then 0 else max 1 (e.settings.sample_rate / 100) in
      record {
        pitch =
            if not e.variable_time && ne pitch.target pending_pitch
            then Timeline.start pitch pending_pitch frames 0 false
            else pitch;
        time = e.timeline.time_ramp;
      }

  -- The checks of a batch that is there.
  unfoldable pub validate_batch : Pv W → List (RampEvent W) → ℕ → W → Result
  validate_batch e events frames pending_pitch =
      let plan = pending_plan e pending_pitch in
      let layout = validate_layout e.variable_time frames 0 events in
      if not e.variable_time
        && (not (w.is_finite pending_pitch)
            || w.lt pending_pitch (flit 5 10)
            || gt pending_pitch (flit 2 1))
      then unsupported_mode
      else if not (safe plan)
      then unsupported_mode
      else if not (is_ok layout)
      then layout
      else if simulate plan 0 events
      then ok
      else unsupported_mode

  unfoldable pub validate_ramps : Pv W → Option (List (RampEvent W)) → ℕ → ℕ → W → Result
  validate_ramps e events count frames pending_pitch =
      if not (enabled e)
      then unsupported_mode
      else if e.flushed
      then end_of_stream
      else if ltb e.settings.max_block frames
      then invalid_argument
      else elim events [
        | none ↦ if count == 0 then validate_batch e [] frames pending_pitch else invalid_argument
        | some list ↦
            if ltb max_ramp_events (length list)
            then invalid_argument
            else validate_batch e list frames pending_pitch
      ]

  unfoldable pub apply_ramp : Pv W → RampEvent W → Result × Pv W
  apply_ramp e event =
      let v = ramp_target event in
      if event.parameter_id == time_ratio_id
      then (
        ok,
        record e {
          time_ratio = v;
          timeline = Timeline.start_time_ramp e.timeline v event.duration_frames event.curve;
          explicit_automation = true;
        },
      )
      else (
        ok,
        record e {
          pitch_ratio = v;
          timeline = Timeline.ramp e.timeline v event.duration_frames event.curve;
          explicit_automation = true;
        },
      )

  unfoldable pub automation_info : Pv W → AutomationInfo W → Result × AutomationInfo W
  automation_info e info =
      let pitch = e.timeline.pitch_ramp in
      let time = e.timeline.time_ramp in
      if enabled e
      then (
        ok,
        record {
          struct_size = automation_info_size;
          version = automation_version;
          input_frames = e.real_input_frames;
          output_position = e.expected_output_frames;
          intermediate_position = e.expected_pv_frames;
          effective_pitch_ratio = pitch.value;
          effective_time_ratio = time.value;
          target_pitch_ratio = w.narrow pitch.target;
          target_time_ratio = w.narrow time.target;
          pitch_remaining_frames = pitch.remaining;
          time_remaining_frames = time.remaining;
        },
      )
      else (unsupported_mode, info)
