-- ===== src/Backend/Validate.antt =====
-- src/backend.cpp and src/profile.cpp: `boiledegg_validate_backend_config` and the creation entry
-- points.
use boiled_egg.Base.{
  ℕ, ◌^◌, ◌-◌, Bool, false, not, ◌&&◌, ◌||◌, ◌==◌, if◌then◌else◌, ltb, leb, bit_and, Option, none,
  some,
}
use boiled_egg.Abi.{
  Result, ok, invalid_argument, unsupported_mode, is_ok, Config, BackendConfig, phase_vocoder_id,
  wsola_id, io_auto, io_streaming, io_realtime, has_flag, allow_experimental, continuous_pitch,
  continuous_time, formant_low_detail,
}
use boiled_egg.Floating.{Floating, flit, ne, gt}
use boiled_egg.Backend.Inventory.{
  config_size, backend_config_size, valid_audio, valid_config, wsola_profile, BackendInfo,
  backend_info, is_unavailable, is_experimental, ratio_within, default_backend_config,
  quality_general,
}

-- `boiledegg_profile_config`
pub record ProfileConfig : Type 0 where
  pub struct_size : ℕ
  pub quality_mode : ℕ
  pub formant_mode : ℕ
  pub reserved : ℕ

abbrev pub profile_size : ℕ
profile_size = 16

abbrev pub default_profile : ProfileConfig
default_profile = record {
  struct_size = profile_size;
  quality_mode = 0;
  formant_mode = 0;
  reserved = 0;
}

unfoldable pub valid_profile_shape : ProfileConfig → Bool
valid_profile_shape p =
    leb profile_size p.struct_size
    && leb p.quality_mode 3
    && leb p.formant_mode 1
    && p.reserved == 0

unfoldable pub supported_profile : ProfileConfig → Bool
supported_profile p =
    if not (valid_profile_shape p)
    then false
    else if not (p.formant_mode == 0)
    then false
    else not (p.quality_mode == 3)

module _ {W : Type 0} ⦃w : Floating W⦄ where
  -- The first refusals: a malformed record.
  unfoldable pub malformed : Config → BackendConfig W → Bool
  malformed c b =
      not (valid_audio c)
      || not (b.version == 1)
      || ltb phase_vocoder_id b.backend_id
      || ltb 3 b.quality_mode
      || ltb 2 b.formant_policy
      || ltb io_realtime b.io_contract
      || not (bit_and b.flags (2 ^ 32 - 16) == 0)
      || not (b.reserved0 == 0)
      || not (b.reserved1 == 0)
      || not (ratio_within b.initial_time_ratio (flit 25 100) (flit 4 1))
      || not (ratio_within b.initial_pitch_ratio (flit 25 100) (flit 4 1))
      || not (ratio_within b.initial_formant_ratio (flit 5 10) (flit 2 1))

  -- What the inventory does not offer.
  unfoldable pub not_offered : BackendInfo W → BackendConfig W → Bool
  not_offered info b =
      is_unavailable info.status
      || is_experimental info.status && not (has_flag b.flags allow_experimental)
      || bit_and info.quality_mode_mask (2 ^ b.quality_mode) == 0
      || bit_and info.formant_policy_mask (2 ^ b.formant_policy) == 0
      || b.formant_policy == 0 && ne b.initial_formant_ratio (flit 1 1)
      || b.io_contract == io_realtime && ne b.initial_time_ratio (flit 1 1)

  unfoldable pub bad_low_detail : Config → BackendConfig W → Bool
  bad_low_detail c b =
      has_flag b.flags formant_low_detail
      && (not (b.backend_id == phase_vocoder_id)
          || not (b.quality_mode == quality_general)
          || not (b.formant_policy == 2)
          || not (c.sample_rate == 48000) && not (c.sample_rate == 96000)
          || ne b.initial_time_ratio (flit 1 1)
          || not (bit_and b.flags 6 == 0))

  unfoldable pub bad_continuous_time : BackendConfig W → Bool
  bad_continuous_time b =
      has_flag b.flags continuous_time
      && (not (b.backend_id == phase_vocoder_id)
          || not (b.io_contract == io_streaming)
          || not (has_flag b.flags continuous_pitch))

  unfoldable pub bad_phase_vocoder : Config → BackendConfig W → Bool
  bad_phase_vocoder c b =
      not (c.sample_rate == 44100)
        && not (c.sample_rate == 48000)
        && not (c.sample_rate == 88200)
        && not (c.sample_rate == 96000)
      || ltb 2 c.channels
      || ltb 1024 c.max_block_size
      || b.io_contract == io_auto
      || not (ratio_within b.initial_time_ratio (flit 5 10) (flit 2 1))
      || not (ratio_within b.initial_pitch_ratio (flit 5 10) (flit 2 1))
      || gt (w.mul b.initial_time_ratio b.initial_pitch_ratio) (w.nat 2)

  unfoldable pub validate_backend_config : Bool → Option Config → Option (BackendConfig W) → Result
  validate_backend_config enabled none b = invalid_argument
  validate_backend_config enabled (some c) none = invalid_argument
  validate_backend_config enabled (some c) (some b) =
      if ltb c.struct_size config_size || ltb b.struct_size backend_config_size || malformed c b
      then invalid_argument
      else if not_offered (backend_info enabled b.backend_id) b
          || bad_low_detail c b
          || bad_continuous_time b
      then unsupported_mode
      else if b.backend_id == phase_vocoder_id
      then (if bad_phase_vocoder c b then unsupported_mode else ok)
      else if has_flag b.flags continuous_pitch
      then unsupported_mode
      else if valid_audio (wsola_profile c b.quality_mode)
      then ok
      else invalid_argument

  -- The configuration that the handle is built with, or the refusal; `construct` may still run out
  -- of memory.
  unfoldable pub create_backend :
      Bool → Option Config → Option (BackendConfig W) → Result × Option (Config × BackendConfig W)
  create_backend enabled none b = (invalid_argument, none)
  create_backend enabled (some c) none = (invalid_argument, none)
  create_backend enabled (some c) (some b) =
      let status = validate_backend_config enabled (some c) (some b) in
      if is_ok status
      then (ok, some (if b.backend_id == wsola_id then wsola_profile c b.quality_mode else c, b))
      else (status, none)

  unfoldable pub create_ex :
      Bool → Option Config → Option ProfileConfig → Result × Option (Config × BackendConfig W)
  create_ex enabled none profile = (invalid_argument, none)
  create_ex enabled (some c) none = (invalid_argument, none)
  create_ex enabled (some c) (some profile) =
      if ltb c.struct_size config_size || not (valid_profile_shape profile)
      then (invalid_argument, none)
      else if not (supported_profile profile)
      then (unsupported_mode, none)
      else create_backend enabled (some c)
          (some (record default_backend_config { quality_mode = profile.quality_mode }))

  -- `boiledegg_create`: the defaults, without the profile's checks.
  unfoldable pub create : Option Config → Result × Option (Config × BackendConfig W)
  create none = (invalid_argument, none)
  create (some c) =
      if valid_config c then (ok, some (c, default_backend_config)) else (invalid_argument, none)
