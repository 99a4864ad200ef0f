-- ===== src/Plugin/Processor/Tests.antt =====
-- adapters/common/pitch_processor.cpp: a call of a processor on the WSOLA engine, and
-- an activation.
use boiled_egg.Base.{ℕ, ◌≡◌, arith, set, refl, none, some, true, false, List, [], ◌∷◌, replicate}
use boiled_egg.Abi.{Config}
use boiled_egg.Floating.Fixed.{Fixed, fixed_floating, fixed-HasWhole}
use boiled_egg.Engine
use boiled_egg.Backend.{Backend}
use boiled_egg.Backend.Absent.{no_spectral}
use boiled_egg.Backend.Dispatch.{BackendEngine, wsola, construct, backend_engine}
use boiled_egg.Backend.Inventory.{
  default_backend_config, default_config, valid_audio, wsola_profile, backend_info,
}
use boiled_egg.Backend.Validate.{
  create_backend, validate_backend_config, malformed, not_offered, bad_low_detail,
  bad_continuous_time,
}
use boiled_egg.Handle.Parameters.{
  set_pitch_semitones, set_formant_semitones, validate_parameter_value, validate_switch,
  validate_formant,
}
use boiled_egg.Handle.{Handle, make_handle}
use boiled_egg.Handle.Chunk.{pointers_at}
use boiled_egg.Handle.Streaming.{get_runtime_info}
use boiled_egg.Plugin.{pitch, defaults, backend, quality, valid_value, valid_values, all_valid}
use boiled_egg.Spectral
use boiled_egg.Spectral.{SpectralBackend, spectral_backend}
use boiled_egg.Plugin.Processor.Predicts.{latency-activate}
use boiled_egg.Plugin.Processor.{
  activate, latency, rate_hint, core_config, core_backend, apply, activated, Event, Processor,
  store_all, valid_at,
}
use boiled_egg.Plugin.Processor.Processing.{process, valid_event}
use boiled_egg.Plugin.Processor.Serves.{IsServing, process-IsServing}

abbrev Core : Type 0
Core = BackendEngine Fixed ⊥

instance abbrev core : Backend Fixed Core
core = backend_engine 8

abbrev small : Config
small = record {
  struct_size = 32;
  abi_version = 1;
  sample_rate = 8000;
  channels = 2;
  max_block_size = 16;
  window_frames = 4;
  search_frames = 1;
  fifo_frames = 64;
}

abbrev fresh : Handle Fixed Core
fresh = make_handle (wsola (Engine.create small)) small default_backend_config

abbrev unity : List Fixed
unity =
    fixed_floating.nat 1 ∷ fixed_floating.nat 1 ∷ fixed_floating.nat 0 ∷ fixed_floating.nat 0 ∷ []

abbrev served : Processor Fixed Core
served = record {
  targets = store_all {W = Fixed} defaults;
  core = some fresh;
  runtime = get_runtime_info fresh;
  configuration = defaults;
  audio = defaults;
  rate = 8000;
  max_block = 16;
  core_block = 16;
  mix_remaining = 0;
  mix_frames = 40;
  mix = unity;
  mix_target = unity;
  mix_step = replicate 4 (fixed_floating.nat 0);
  dry_history = replicate 64 (fixed_floating.nat 0);
  position = 0;
  active = true;
  fault = false;
  error_code = 0;
}

abbrev ramp : ℕ → ℕ → Fixed
ramp ch i = fixed_floating.nat i

abbrev up : Event Fixed
up = record { offset = 1; index = pitch; value = fixed_floating.nat 12 }

abbrev switch : Event Fixed
switch = record { offset = 2; index = backend; value = fixed_floating.nat 1 }

-- The algorithm is not automated; a live edit may ask for it.
switch_refused : valid_event false switch ≡ false
unfolding valid_event valid_at valid_value
switch_refused = refl

switch_staged : valid_event true switch ≡ true
unfolding valid_event valid_at valid_value
switch_staged = refl

process-IsServing_example :
    IsServing served.configuration served.runtime
      (process true true served true
        (pointers_at ramp 0)
        (pointers_at ramp 0)
        4
        (up ∷ switch ∷ [])).1
process-IsServing_example =
    process-IsServing true true served true (pointers_at ramp 0) (pointers_at ramp 0) 4
      (up ∷ switch ∷ []) refl

-- An idle processor over the engines of a build with the spectral backend.
abbrev Both : Type 0
Both = BackendEngine Fixed (SpectralBackend Fixed)

instance abbrev both : Backend Fixed Both
both = backend_engine 8

abbrev stopped : Processor Fixed Both
stopped = record {
  targets = store_all {W = Fixed} (set defaults quality (fixed_floating.nat 1));
  core = none;
  runtime = get_runtime_info fresh;
  configuration = defaults;
  audio = defaults;
  rate = 8000;
  max_block = 16;
  core_block = 16;
  mix_remaining = 0;
  mix_frames = 40;
  mix = unity;
  mix_target = unity;
  mix_step = replicate 4 (fixed_floating.nat 0);
  dry_history = [];
  position = 0;
  active = false;
  fault = false;
  error_code = 0;
}

stopped_activates : (activate true (construct true Spectral.construct) stopped 96000 256).0 ≡ true
unfolding activate valid_values all_valid valid_value create_backend validate_backend_config
    malformed not_offered bad_low_detail bad_continuous_time backend_info valid_audio wsola_profile
    core_config core_backend default_config construct apply activated make_handle
    set_pitch_semitones set_formant_semitones validate_parameter_value validate_switch
    validate_formant
stopped_activates = refl

latency-activate_example :
    latency (activate true (construct true Spectral.construct) stopped 96000 256).1
    ≡ latency (rate_hint stopped 96000)
latency-activate_example =
    latency-activate (SpectralBackend Fixed) 8 fixed-HasWhole true true Spectral.construct stopped
      96000 256 1 refl (omega arith) refl refl stopped_activates
