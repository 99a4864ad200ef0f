-- ===== src/Backend/Inventory.antt =====
-- src/backend.cpp and src/boiled_egg.cpp: the default configurations, the WSOLA quality profiles,
-- the inventory of backends, and the validation of a configuration.
use boiled_egg.Base.{
  ℕ, ◌+◌, ◌-◌, ◌*◌, ◌/◌, ◌%◌, ◌^◌, min, max, Bool, true, false, ◌&&◌, ◌||◌, ◌==◌, if◌then◌else◌,
  ltb, leb, bit_and, u32, Option, none, some,
}
use boiled_egg.Abi.{
  Result, ok, invalid_argument, Config, BackendConfig, phase_vocoder_id, wsola_id, io_auto,
}
use boiled_egg.Floating.{Floating, flit}

-- `sizeof` of the records, and the versions.
abbrev pub config_size : ℕ
config_size = 32

abbrev pub backend_config_size : ℕ
backend_config_size = 48

abbrev pub backend_info_size : ℕ
backend_info_size = 80

abbrev pub abi_version : ℕ
abi_version = 1

abbrev pub max_channels : ℕ
max_channels = 32

-- `boiledegg_quality_mode`
abbrev pub quality_general : ℕ
quality_general = 0

abbrev pub quality_transient : ℕ
quality_transient = 1

abbrev pub quality_efficient : ℕ
quality_efficient = 2

unfoldable pub default_config : ℕ → ℕ → Config
default_config sample_rate channels =
    let window = if leb 88200 sample_rate then 1536 else 1024 in
    record {
      struct_size = config_size;
      abi_version = abi_version;
      sample_rate = sample_rate;
      channels = channels;
      max_block_size = 2048;
      window_frames = window;
      search_frames = window / 8;
      fifo_frames = 2 ^ 18;
    }

-- Every product and sum is of type uint32_t.
unfoldable pub valid_config : Config → Bool
valid_config c =
    leb config_size c.struct_size
    && c.abi_version == abi_version
    && leb 8000 c.sample_rate
    && leb c.sample_rate 384000
    && leb 1 c.channels
    && leb c.channels max_channels
    && leb 1 c.max_block_size
    && leb c.max_block_size 65536
    && leb 128 c.window_frames
    && c.window_frames % 2 == 0
    && ltb c.search_frames (c.window_frames / 2)
    && leb (u32 (u32 (c.window_frames * 8) + u32 (c.max_block_size * 2))) c.fifo_frames

-- Here the products and the sum are of type uint64_t.
unfoldable pub valid_audio : Config → Bool
valid_audio c =
    c.abi_version == abi_version
    && leb 8000 c.sample_rate
    && leb c.sample_rate 384000
    && leb 1 c.channels
    && leb c.channels max_channels
    && leb 1 c.max_block_size
    && leb c.max_block_size 65536
    && leb 128 c.window_frames
    && c.window_frames % 2 == 0
    && ltb c.search_frames (c.window_frames / 2)
    && leb (c.window_frames * 8 + c.max_block_size * 2) c.fifo_frames

-- `~1u` is 2^32 - 2.
unfoldable pub wsola_profile : Config → ℕ → Config
wsola_profile c quality =
    let window = bit_and (max 256 (u32 (c.window_frames * 3) / 4)) (2 ^ 32 - 2) in
    if quality == quality_transient
    then record c {
      window_frames = window;
      search_frames = min c.search_frames (max 16 (window / 8));
    }
    else if quality == quality_efficient
    then record c { search_frames = max 8 (c.search_frames / 2) }
    else c

-- `boiledegg_backend_status`
pub data Status : Type 0 where
  unavailable stable experimental : Status

-- `boiledegg_backend_info`, without its size, version and reserved words.
pub record BackendInfo (W : Type 0) : Type 0 where
  pub backend_id : ℕ
  pub status : Status
  pub feature_flags : ℕ
  pub quality_mode_mask : ℕ
  pub formant_policy_mask : ℕ
  pub min_sample_rate : ℕ
  pub max_sample_rate : ℕ
  pub channel_limit : ℕ
  pub max_block_frames : ℕ
  pub min_ratio : W
  pub max_ratio : W
  pub min_formant_ratio : W
  pub max_formant_ratio : W

abbrev pub is_unavailable : Status → Bool
is_unavailable unavailable = true
is_unavailable _ = false

abbrev pub is_experimental : Status → Bool
is_experimental experimental = true
is_experimental _ = false

module _ {W : Type 0} ⦃w : Floating W⦄ where
  abbrev pub default_backend_config : BackendConfig W
  default_backend_config = record {
    struct_size = backend_config_size;
    version = 1;
    backend_id = wsola_id;
    quality_mode = quality_general;
    formant_policy = 0;
    io_contract = io_auto;
    flags = 0;
    initial_time_ratio = flit 1 1;
    initial_pitch_ratio = flit 1 1;
    initial_formant_ratio = flit 1 1;
    reserved0 = 0;
    reserved1 = 0;
  }

  -- The inventory entry; the time and pitch ranges are one range. `enabled` is
  -- BOILED_EGG_ENABLE_EXPERIMENTAL_SPECTRAL.
  unfoldable pub backend_info : Bool → ℕ → BackendInfo W
  backend_info enabled id =
      if id == wsola_id
      then record {
        backend_id = id;
        status = stable;
        feature_flags = 1 + 2 + 4 + 8 + 32;
        quality_mode_mask = 1 + 2 + 4;
        formant_policy_mask = 1;
        min_sample_rate = 8000;
        max_sample_rate = 384000;
        channel_limit = max_channels;
        max_block_frames = 65536;
        min_ratio = flit 25 100;
        max_ratio = flit 4 1;
        min_formant_ratio = flit 1 1;
        max_formant_ratio = flit 1 1;
      }
      else if enabled && id == phase_vocoder_id
      then record {
        backend_id = id;
        status = experimental;
        feature_flags = 1 + 2 + 8 + 16 + 32 + 4 + 64;
        quality_mode_mask = 1 + 2;
        formant_policy_mask = 7;
        min_sample_rate = 44100;
        max_sample_rate = 96000;
        channel_limit = 2;
        max_block_frames = 1024;
        min_ratio = flit 5 10;
        max_ratio = flit 2 1;
        min_formant_ratio = flit 5 10;
        max_formant_ratio = flit 2 1;
      }
      else record {
        backend_id = id;
        status = unavailable;
        feature_flags = 0;
        quality_mode_mask = 0;
        formant_policy_mask = 0;
        min_sample_rate = 0;
        max_sample_rate = 0;
        channel_limit = 0;
        max_block_frames = 0;
        min_ratio = w.nat 0;
        max_ratio = w.nat 0;
        min_formant_ratio = w.nat 0;
        max_formant_ratio = w.nat 0;
      }

  -- `out_size` is what the caller's record says of its size; `none` is a null pointer.
  unfoldable pub query_backend : Bool → ℕ → Option ℕ → Result × Option (BackendInfo W)
  query_backend enabled id none = (invalid_argument, none)
  query_backend enabled id (some out_size) =
      if ltb out_size backend_info_size || ltb phase_vocoder_id id
      then (invalid_argument, none)
      else (ok, some (backend_info enabled id))

  -- `ratio(x, lo, hi)`
  abbrev pub ratio_within : W → W → W → Bool
  ratio_within x lo hi = w.is_finite x && w.le lo x && w.le x hi
