-- ===== src/Handle/Parameters.antt =====
-- src/boiled_egg.cpp: validation of parameters and events, the setters and getters, parameter
-- batches, and the saved states.
use boiled_egg.Base.{
  ℕ, Bool, true, false, not, ◌&&◌, ◌||◌, ◌==◌, if◌then◌else◌, ltb, leb, List, [], ◌∷◌, Option, none,
  some,
}
use boiled_egg.Base.{length}
use boiled_egg.Abi.{
  Result, ok, invalid_argument, unsupported_mode, is_ok, ParameterEvent, ParameterState,
  BackendParameterState, time_ratio_id, pitch_ratio_id, pitch_semitones_id, formant_ratio_id,
  formant_semitones_id, phase_vocoder_id, io_realtime, continuous_pitch, continuous_time, has_flag,
}
use boiled_egg.Floating.{Floating, flit, gt, ge, ne}
use boiled_egg.Handle.{
  Handle, Mode, realtime, same_mode, semitones_ratio, non_realtime_ratio, store_time, store_pitch,
  store_formant, load_time, load_pitch, load_formant, realtime_time_ratio,
}

-- `sizeof` of the records that cross the interface.
abbrev pub event_size : ℕ
event_size = 16

abbrev pub state_size : ℕ
state_size = 16

abbrev pub backend_state_size : ℕ
backend_state_size = 32

abbrev pub backend_api_version : ℕ
backend_api_version = 1

abbrev pub is_pitch_id : ℕ → Bool
is_pitch_id id = id == pitch_ratio_id || id == pitch_semitones_id

module _ {W : Type 0} ⦃w : Floating W⦄ where
  -- `value < low || value > high`
  abbrev pub outside : W → W → W → Bool
  outside low high value = w.lt value low || gt value high

  module _ {B : Type 0} where
    -- The test of a time or pitch value on a phase-vocoder handle; `ok` goes on to the switch.
    unfoldable pub validate_phase_vocoder : Handle W B → ℕ → W → Result
    validate_phase_vocoder h id value =
        let v = if id == pitch_semitones_id then semitones_ratio value else value in
        let expected =
          if id == time_ratio_id
          then h.backend.initial_time_ratio
          else h.backend.initial_pitch_ratio in
        if id == pitch_semitones_id && outside (w.neg (flit 24 1)) (flit 24 1) value
        then invalid_argument
        else if outside (flit 25 100) (flit 4 1) v
        then invalid_argument
        else if not (id == time_ratio_id) && has_flag h.backend.flags continuous_pitch
        then (if outside (flit 5 10) (flit 2 1) v
              || gt (w.mul h.backend.initial_time_ratio v) (w.nat 2)
            then unsupported_mode
            else ok)
        else if ne v expected
        then unsupported_mode
        else ok

    -- The formant cases of the switch.
    unfoldable pub validate_formant : Handle W B → Bool → W → Result
    validate_formant h semitones value =
        let v = if semitones then semitones_ratio value else value in
        if (if semitones
          then outside (w.neg (flit 12 1)) (flit 12 1) value
          else outside (flit 5 10) (flit 2 1) value)
        then invalid_argument
        else if (not (h.backend.backend_id == phase_vocoder_id) || h.backend.formant_policy == 0)
            && ne v (flit 1 1)
        then unsupported_mode
        else ok

    unfoldable pub validate_switch : Handle W B → ℕ → W → Bool → Result
    validate_switch h id value fixed_realtime =
        if id == time_ratio_id
        then (if outside (flit 25 100) (flit 4 1) value
            then invalid_argument
            else if fixed_realtime && non_realtime_ratio value
            then unsupported_mode
            else ok)
        else if id == pitch_ratio_id
        then (if ge value (flit 25 100) && w.le value (flit 4 1) then ok else invalid_argument)
        else if id == pitch_semitones_id
        then (if ge value (w.neg (flit 24 1)) && w.le value (flit 24 1)
            then ok
            else invalid_argument)
        else if id == formant_ratio_id
        then validate_formant h false value
        else if id == formant_semitones_id
        then validate_formant h true value
        else invalid_argument

    unfoldable pub validate_parameter_value : Handle W B → ℕ → W → Bool → Result
    validate_parameter_value h id value fixed_realtime =
        let coupled = id == time_ratio_id || is_pitch_id id in
        let vocoder = validate_phase_vocoder h id value in
        if not (w.is_finite value)
        then invalid_argument
        else if has_flag h.backend.flags continuous_time && coupled
        then unsupported_mode
        else if h.backend.backend_id == phase_vocoder_id && coupled && not (is_ok vocoder)
        then vocoder
        else validate_switch h id value fixed_realtime

    unfoldable pub validate_realtime_event : Handle W B → ParameterEvent W → ℕ → Result
    validate_realtime_event h event frames =
        if ltb event.struct_size event_size || leb frames event.sample_offset
        then invalid_argument
        else validate_parameter_value h event.parameter_id event.value true

    unfoldable pub validate_parameter_only_event : Handle W B → ParameterEvent W → Bool → Result
    validate_parameter_only_event h event fixed_realtime =
        if ltb event.struct_size event_size || not (event.sample_offset == 0)
        then invalid_argument
        else validate_parameter_value h event.parameter_id event.value fixed_realtime

    unfoldable pub store_event_mailbox : Handle W B → ParameterEvent W → Handle W B
    store_event_mailbox h event =
        if event.parameter_id == time_ratio_id
        then store_time h event.value
        else if event.parameter_id == pitch_ratio_id
        then store_pitch h event.value
        else if event.parameter_id == pitch_semitones_id
        then store_pitch h (semitones_ratio event.value)
        else if event.parameter_id == formant_ratio_id
        then store_formant h event.value
        else if event.parameter_id == formant_semitones_id
        then store_formant h (semitones_ratio event.value)
        else h

    -- `load_mode(h) == realtime || io_contract == BOILEDEGG_IO_REALTIME`
    abbrev pub fixed_realtime_io : Handle W B → Mode → Bool
    fixed_realtime_io h mode = same_mode mode realtime || h.backend.io_contract == io_realtime

    -- The first loop of a batch: the first refusal, or `ok`.
    unfoldable pub validate_only_events : Handle W B → List (ParameterEvent W) → Bool → Result
    validate_only_events h [] fixed_realtime = ok
    validate_only_events h (event ∷ events) fixed_realtime =
        let rest = validate_only_events h events fixed_realtime in
        let result = validate_parameter_only_event h event fixed_realtime in
        if is_ok result then rest else result

    unfoldable pub store_events : Handle W B → List (ParameterEvent W) → Handle W B
    store_events h [] = h
    store_events h (event ∷ events) = store_events (store_event_mailbox h event) events

    -- `none` is a null pointer, of which the caller claims `event_count` events.
    unfoldable pub apply_parameter_events :
        Handle W B → Option (List (ParameterEvent W)) → ℕ → Result × Handle W B
    apply_parameter_events h none event_count =
        if ltb 0 event_count then (invalid_argument, h) else (ok, h)
    apply_parameter_events h (some events) event_count =
        let result = validate_only_events h events (fixed_realtime_io h h.mode) in
        if h.backend.backend_id == phase_vocoder_id && ltb 256 (length events)
        then (invalid_argument, h)
        else if is_ok result
        then (ok, store_events h events)
        else (result, h)

    -- The audio thread may change the mode while the setter runs: `first` and `second` are what its
    -- two reads of the mode see.
    unfoldable pub set_time_ratio : Handle W B → Mode → Mode → W → Result × Handle W B
    set_time_ratio h first second r =
        let checked =
          validate_parameter_value h time_ratio_id r (h.backend.io_contract == io_realtime) in
        if not (w.is_finite r) || outside (flit 25 100) (flit 4 1) r
        then (invalid_argument, h)
        else if not (is_ok checked)
        then (checked, h)
        else if non_realtime_ratio r && fixed_realtime_io h first
        then (unsupported_mode, h)
        else if non_realtime_ratio r && fixed_realtime_io h second
        then (unsupported_mode, store_time (store_time h r) realtime_time_ratio)
        else (ok, store_time h r)

    unfoldable pub set_pitch_ratio : Handle W B → W → Result × Handle W B
    set_pitch_ratio h r =
        let checked =
          validate_parameter_value h pitch_ratio_id r (h.backend.io_contract == io_realtime) in
        if not (w.is_finite r) || outside (flit 25 100) (flit 4 1) r
        then (invalid_argument, h)
        else if is_ok checked
        then (ok, store_pitch h r)
        else (checked, h)

    unfoldable pub set_pitch_semitones : Handle W B → W → Result × Handle W B
    set_pitch_semitones h st =
        let checked =
          validate_parameter_value h pitch_semitones_id st (h.backend.io_contract == io_realtime) in
        if not (w.is_finite st) || outside (w.neg (flit 24 1)) (flit 24 1) st
        then (invalid_argument, h)
        else if is_ok checked
        then (ok, store_pitch h (semitones_ratio st))
        else (checked, h)

    unfoldable pub set_formant_ratio : Handle W B → W → Result × Handle W B
    set_formant_ratio h v =
        let checked = validate_parameter_value h formant_ratio_id v false in
        if is_ok checked then (ok, store_formant h v) else (checked, h)

    unfoldable pub set_formant_semitones : Handle W B → W → Result × Handle W B
    set_formant_semitones h v =
        let checked = validate_parameter_value h formant_semitones_id v false in
        if is_ok checked then (ok, store_formant h (semitones_ratio v)) else (checked, h)

    -- What is written over the caller's record, where its size allows.
    unfoldable pub get_parameter_state : Handle W B → ParameterState W → Result × ParameterState W
    get_parameter_state h out =
        if ltb out.struct_size state_size
        then (invalid_argument, out)
        else (ok, record out { time_ratio = load_time h; pitch_ratio = load_pitch h; reserved = 0 })

    -- The part of `set_parameter_state` after its checks.
    unfoldable pub store_state : Handle W B → Mode → Mode → W → W → Result × Handle W B
    store_state h first second time pitch =
        let stored = store_pitch (store_time h time) pitch in
        if non_realtime_ratio time && fixed_realtime_io h first
        then (unsupported_mode, h)
        else if non_realtime_ratio time && fixed_realtime_io h second
        then (unsupported_mode, store_time stored realtime_time_ratio)
        else (ok, stored)

    unfoldable pub set_parameter_state :
        Handle W B → Mode → Mode → ParameterState W → Result × Handle W B
    set_parameter_state h first second state =
        let time_status = validate_parameter_value h time_ratio_id state.time_ratio false in
        let pitch_status = validate_parameter_value h pitch_ratio_id state.pitch_ratio false in
        if ltb state.struct_size state_size
        then (invalid_argument, h)
        else if not (w.is_finite state.time_ratio)
            || outside (flit 25 100) (flit 4 1) state.time_ratio
            || not (w.is_finite state.pitch_ratio)
            || outside (flit 25 100) (flit 4 1) state.pitch_ratio
        then (invalid_argument, h)
        else if not (is_ok time_status)
        then (time_status, h)
        else if not (is_ok pitch_status)
        then (pitch_status, h)
        else store_state h first second state.time_ratio state.pitch_ratio

    unfoldable pub get_backend_parameter_state :
        Handle W B → BackendParameterState W → Result × BackendParameterState W
    get_backend_parameter_state h out =
        if ltb out.struct_size backend_state_size then (invalid_argument, out) else (
          ok,
          record {
            struct_size = backend_state_size;
            version = backend_api_version;
            backend_id = h.backend.backend_id;
            formant_policy = h.backend.formant_policy;
            time_ratio = load_time h;
            pitch_ratio = load_pitch h;
            formant_ratio = load_formant h;
            reserved = 0;
          },
        )

    -- The three validations of a saved state, in order.
    unfoldable pub validate_backend_state : Handle W B → BackendParameterState W → Bool → Result
    validate_backend_state h s fixed =
        let time = validate_parameter_value h time_ratio_id s.time_ratio fixed in
        let pitch = validate_parameter_value h pitch_ratio_id s.pitch_ratio fixed in
        if not (is_ok time)
        then time
        else if not (is_ok pitch)
        then pitch
        else validate_parameter_value h formant_ratio_id s.formant_ratio fixed

    unfoldable pub set_backend_parameter_state :
        Handle W B → Mode → Mode → Mode → BackendParameterState W → Result × Handle W B
    set_backend_parameter_state h before first second s =
        let status = validate_backend_state h s (fixed_realtime_io h before) in
        let legacy : ParameterState W = record {
          struct_size = state_size;
          time_ratio = s.time_ratio;
          pitch_ratio = s.pitch_ratio;
          reserved = 0;
        } in
        let (restored, h') = set_parameter_state h first second legacy in
        if ltb s.struct_size backend_state_size
          || not (s.version == backend_api_version)
          || not (s.reserved == 0)
        then (invalid_argument, h)
        else if not (s.backend_id == h.backend.backend_id)
            || not (s.formant_policy == h.backend.formant_policy)
        then (unsupported_mode, h)
        else if not (is_ok status)
        then (status, h)
        else if is_ok restored
        then (ok, store_formant h' s.formant_ratio)
        else (restored, h')
