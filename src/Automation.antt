-- ===== src/Automation.antt =====
-- include/boiled_egg/automation.h: the ramp events and the snapshot of the automation; and
-- src/backend.hpp: what an engine offers for ramps, `BackendEngine` among them.
pub mod Api
pub mod Rounds
pub mod Callback
mod Tests
use boiled_egg.Base.{ℕ, Bool, false, List, Option}
use boiled_egg.Abi.{Result, unsupported_mode}
use boiled_egg.Backend.Dispatch.{BackendEngine, wsola, spectral}

-- `boiledegg_ramp_event`
pub record RampEvent (W : Type 0) : Type 0 where
  pub struct_size : ℕ
  pub sample_offset : ℕ
  pub parameter_id : ℕ
  pub duration_frames : ℕ
  pub curve : ℕ
  pub value : W
  pub reserved0 : ℕ
  pub reserved1 : ℕ

-- `boiledegg_automation_info`
pub record AutomationInfo (W : Type 0) : Type 0 where
  pub struct_size : ℕ
  pub version : ℕ
  pub input_frames : ℕ
  pub output_position : W
  pub intermediate_position : W
  pub effective_pitch_ratio : W
  pub effective_time_ratio : W
  pub target_pitch_ratio : W
  pub target_time_ratio : W
  pub pitch_remaining_frames : ℕ
  pub time_remaining_frames : ℕ

abbrev pub automation_version : ℕ
automation_version = 1

abbrev pub max_ramp_events : ℕ
max_ramp_events = 256

-- `sizeof` of the two records.
abbrev pub ramp_event_size : ℕ
ramp_event_size = 32

abbrev pub automation_info_size : ℕ
automation_info_size = 64

-- The four operations on ramps. The events are `none` for a null pointer to a number of events,
-- which is given with them.
pub record Ramps (W : Type 0) (B : Type 0) : Type 0 where
  pub validate_ramps : B → Option (List (RampEvent W)) → ℕ → ℕ → W → Result
  pub apply_ramp : B → RampEvent W → Result × B
  -- the snapshot, or the record that was passed
  pub automation_info : B → AutomationInfo W → Result × AutomationInfo W
  pub can_accept_ramp_sample : B → Bool

module _ {W : Type 0} {S : Type 0} ⦃r : Ramps W S⦄ where
  abbrev pub validate_ramps : BackendEngine W S → Option (List (RampEvent W)) → ℕ → ℕ → W → Result
  validate_ramps (wsola e) events count frames pitch = unsupported_mode
  validate_ramps (spectral s) events count frames pitch =
      r.validate_ramps s events count frames pitch

  abbrev pub apply_ramp : BackendEngine W S → RampEvent W → Result × BackendEngine W S
  apply_ramp (wsola e) event = (unsupported_mode, wsola e)
  apply_ramp (spectral s) event = let (result, s') = r.apply_ramp s event in (result, spectral s')

  abbrev pub automation_info : BackendEngine W S → AutomationInfo W → Result × AutomationInfo W
  automation_info (wsola e) info = (unsupported_mode, info)
  automation_info (spectral s) info = r.automation_info s info

  abbrev pub can_accept_ramp_sample : BackendEngine W S → Bool
  can_accept_ramp_sample (wsola e) = false
  can_accept_ramp_sample (spectral s) = r.can_accept_ramp_sample s

  abbrev pub engine_ramps : Ramps W (BackendEngine W S)
  engine_ramps = record {
    validate_ramps = validate_ramps;
    apply_ramp = apply_ramp;
    automation_info = automation_info;
    can_accept_ramp_sample = can_accept_ramp_sample;
  }
