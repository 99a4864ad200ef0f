-- ===== src/Handle/Control.antt =====
-- src/boiled_egg.cpp: the calls that the control thread may make while the audio thread runs.
use boiled_egg.Base.{ℕ, ◌≡◌, ◌⊎◌, true, false, List, [], ◌∷◌, Option, none, some, arith}
use boiled_egg.Abi.{Result, is_ok, ParameterEvent, ParameterState, BackendParameterState}
use boiled_egg.Floating.{Floating, HasBits}
use boiled_egg.Handle.{Handle, Mode, realtime, realtime_time_ratio, non_realtime_ratio, load_time}
use boiled_egg.Handle.Parameters.{
  store_event_mailbox, store_events, apply_parameter_events, set_time_ratio, set_pitch_ratio,
  set_pitch_semitones, set_formant_ratio, set_formant_semitones, store_state, set_parameter_state,
  set_backend_parameter_state, state_size,
}

module _ {W : Type 0} ⦃w : Floating W⦄ {B : Type 0} where
  -- One call on the control thread, while the mode does not change under it.
  pub data ControlStep (h : Handle W B) : Result → Handle W B → Type 0 where
    time_ratio :
        (r : W)
        → ControlStep h (set_time_ratio h h.mode h.mode r).0 (set_time_ratio h h.mode h.mode r).1
    pitch_ratio : (r : W) → ControlStep h (set_pitch_ratio h r).0 (set_pitch_ratio h r).1
    pitch_semitones :
        (st : W) → ControlStep h (set_pitch_semitones h st).0 (set_pitch_semitones h st).1
    formant_ratio : (v : W) → ControlStep h (set_formant_ratio h v).0 (set_formant_ratio h v).1
    formant_semitones :
        (v : W) → ControlStep h (set_formant_semitones h v).0 (set_formant_semitones h v).1
    events :
        (list : Option (List (ParameterEvent W))) (n : ℕ)
        → ControlStep h (apply_parameter_events h list n).0 (apply_parameter_events h list n).1
    state :
        (s : ParameterState W)
        → ControlStep h
            (set_parameter_state h h.mode h.mode s).0
            (set_parameter_state h h.mode h.mode s).1
    backend_state :
        (s : BackendParameterState W)
        → ControlStep h
            (set_backend_parameter_state h h.mode h.mode h.mode s).0
            (set_backend_parameter_state h h.mode h.mode h.mode s).1

  -- A call that ends with `r`: nothing changes unless it succeeds, and then the mailboxes alone.
  pub record Transactional (h : Handle W B) (r : Result) (h' : Handle W B) : Type 0 where
    pub all_or_nothing : is_ok r ≡ false → h' ≡ h
    pub engine_kept : h'.engine ≡ h.engine
    pub mode_kept : h'.mode ≡ h.mode
    pub backend_kept : h'.backend ≡ h.backend
    pub latency_kept : h'.realtime_latency_remaining ≡ h.realtime_latency_remaining

  -- Handles that differ in their mailboxes at most.
  pub record SameButMail (h h' : Handle W B) : Type 0 where
    pub engine : h'.engine ≡ h.engine
    pub mode : h'.mode ≡ h.mode
    pub backend : h'.backend ≡ h.backend
    pub latency : h'.realtime_latency_remaining ≡ h.realtime_latency_remaining

  store_event_mailbox-SameButMail :
      (h : Handle W B) (event : ParameterEvent W) → SameButMail h (store_event_mailbox h event)
  unfolding store_event_mailbox
  store_event_mailbox-SameButMail h event = ground arith

  store_events-SameButMail :
      (h : Handle W B) (list : List (ParameterEvent W)) → SameButMail h (store_events h list)
  unfolding store_events
  store_events-SameButMail h [] = ground arith
  store_events-SameButMail h (event ∷ list) = ground (
    arith,
    store_event_mailbox-SameButMail h event,
    store_events-SameButMail (store_event_mailbox h event) list,
  )

  time_ratio-Transactional :
      (h : Handle W B) (r : W)
      → Transactional h (set_time_ratio h h.mode h.mode r).0 (set_time_ratio h h.mode h.mode r).1
  unfolding set_time_ratio
  time_ratio-Transactional h r = ground arith

  apply_parameter_events-Transactional :
      (h : Handle W B) (list : Option (List (ParameterEvent W))) (n : ℕ)
      → Transactional h (apply_parameter_events h list n).0 (apply_parameter_events h list n).1
  unfolding apply_parameter_events
  apply_parameter_events-Transactional h none n = ground arith
  apply_parameter_events-Transactional h (some list) n =
      ground (arith, store_events-SameButMail h list)

  set_parameter_state-Transactional :
      (h : Handle W B) (s : ParameterState W)
      → Transactional h
          (set_parameter_state h h.mode h.mode s).0
          (set_parameter_state h h.mode h.mode s).1
  unfolding set_parameter_state store_state
  set_parameter_state-Transactional h s = ground arith

  set_backend_parameter_state-Transactional :
      (h : Handle W B) (s : BackendParameterState W)
      → Transactional h
          (set_backend_parameter_state h h.mode h.mode h.mode s).0
          (set_backend_parameter_state h h.mode h.mode h.mode s).1
  unfolding set_backend_parameter_state
  set_backend_parameter_state-Transactional h s =
      let legacy : ParameterState W = record {
        struct_size = state_size;
        time_ratio = s.time_ratio;
        pitch_ratio = s.pitch_ratio;
        reserved = 0;
      } in
      ground (arith, set_parameter_state-Transactional h legacy)

  setters-Transactional :
      (h : Handle W B) (v : W)
      → Transactional h (set_pitch_ratio h v).0 (set_pitch_ratio h v).1
        × Transactional h (set_pitch_semitones h v).0 (set_pitch_semitones h v).1
        × Transactional h (set_formant_ratio h v).0 (set_formant_ratio h v).1
        × Transactional h (set_formant_semitones h v).0 (set_formant_semitones h v).1
  unfolding set_pitch_ratio set_pitch_semitones set_formant_ratio set_formant_semitones
  setters-Transactional h v = (ground arith, ground arith, ground arith, ground arith)

  -- Every call on the control thread (the setters, a batch of events, both kinds of saved state),
  -- while the mode does not change under it, is all or nothing: one that does not end with `ok`
  -- leaves the handle as it was, and none touches the engine, the mode, the configuration or the
  -- latency still to be padded.
  pub control-Transactional :
      {h h' : Handle W B} {r : Result} → ControlStep h r h' → Transactional h r h'
  control-Transactional {h} (time_ratio r) = time_ratio-Transactional h r
  control-Transactional {h} (pitch_ratio r) = (setters-Transactional h r).0
  control-Transactional {h} (pitch_semitones st) = (setters-Transactional h st).1
  control-Transactional {h} (formant_ratio v) = (setters-Transactional h v).2
  control-Transactional {h} (formant_semitones v) = (setters-Transactional h v).3
  control-Transactional {h} (events list n) = apply_parameter_events-Transactional h list n
  control-Transactional {h} (state s) = set_parameter_state-Transactional h s
  control-Transactional {h} (backend_state s) = set_backend_parameter_state-Transactional h s

  -- The audio thread may enter the realtime mode between the two reads that `set_time_ratio`
  -- makes of the mode. A ratio that a realtime stream cannot take is then refused, and the
  -- mailbox holds its old ratio or 1, for an arithmetic whose floats come back from their bits.
  pub set_time_ratio_race :
      (laws : HasBits W) (h : Handle W B) (first : Mode) (r : W)
      → non_realtime_ratio r ≡ true
      → let (result, h') = set_time_ratio h first realtime r in
        (is_ok result ≡ false)
        × ((load_time h' ≡ load_time h) ⊎ (load_time h' ≡ realtime_time_ratio))
  unfolding set_time_ratio
  set_time_ratio_race laws h first r odd =
      let back = laws.of_bits-bits realtime_time_ratio (laws.narrow-narrow (w.lit 1 1)) in
      ground (arith, odd, back)
