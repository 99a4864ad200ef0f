-- ===== src/Backend/Tests.antt =====
-- Instances of the theorems on configurations.
use boiled_egg.Base.{◌^◌, ◌≡◌, refl, true, false, ◌&&◌, arith, leb}
use boiled_egg.Abi.{Config}
use boiled_egg.Floating.Fixed.{Fixed, fixed_floating}
use boiled_egg.Backend.Absent.{no_spectral}
use boiled_egg.Backend.Inventory.{
  config_size, default_config, valid_config, valid_audio, wsola_profile, default_backend_config,
  backend_info,
}
use boiled_egg.Backend.Validate.{
  create_backend, validate_backend_config, malformed, not_offered, bad_low_detail,
  bad_continuous_time,
}
use boiled_egg.Backend.Creation.{valid_config-eq-valid_audio, create_backend_valid}

valid_config-eq-valid_audio_example :
    valid_config (default_config 48000 2)
    ≡ (leb config_size (default_config 48000 2).struct_size && valid_audio (default_config 48000 2))
unfolding default_config
valid_config-eq-valid_audio_example =
    valid_config-eq-valid_audio (default_config 48000 2) (omega arith)

create_backend_valid_example : valid_audio (wsola_profile (default_config 48000 2) 0) ≡ true
unfolding default_config valid_audio wsola_profile create_backend validate_backend_config malformed
    not_offered bad_low_detail bad_continuous_time backend_info
create_backend_valid_example =
    create_backend_valid {W = Fixed} false (default_config 48000 2)
      (wsola_profile (default_config 48000 2) 0) default_backend_config default_backend_config refl

-- A window of 2^29 frames: the 32-bit sum of the check wraps around to 32.
abbrev huge : Config
huge = record {
  struct_size = 32;
  abi_version = 1;
  sample_rate = 48000;
  channels = 2;
  max_block_size = 16;
  window_frames = 2 ^ 29;
  search_frames = 0;
  fifo_frames = 64;
}

huge_accepted : (valid_config huge ≡ true) × (valid_audio huge ≡ false)
unfolding valid_config valid_audio
huge_accepted = (refl, refl)
