-- ===== src/Pv/Config.antt =====
-- src/experimental/pv/pv_rt.cpp, research_features.hpp: the configuration of the phase vocoder, its
-- bounds, and its scaling by the sample rate.
use boiled_egg.Base.{
  ℕ, zero, suc, ◌-◌, ◌*◌, ◌/◌, Bool, not, ◌&&◌, ◌||◌, ◌==◌, if◌then◌else◌, ltb, leb, bit_and,
  Option, none, some,
}
use boiled_egg.Floating.{Floating, flit, ge, gt}

-- `boiledegg_research_pv_rt_result`
pub data PvResult : Type 0 where
  ok invalid_argument invalid_config out_of_memory fifo_overflow already_flushed : PvResult
  internal_error : PvResult

-- `boiledegg_research_pv_rt_config`
pub record PvConfig (W : Type 0) : Type 0 where
  pub struct_size : ℕ
  pub abi_version : ℕ
  pub sample_rate : ℕ
  pub channels : ℕ
  pub max_block_frames : ℕ
  pub fft_size : ℕ
  pub analysis_hop : ℕ
  pub mode : ℕ
  pub initial_time_ratio : W
  pub initial_pitch_ratio : W
  pub transient_floor : W
  pub transient_sigma : W
  pub formant_mode : ℕ
  pub formant_cepstral_order : ℕ
  pub formant_gain_limit_db : W
  pub monophonic_min_f0_hz : W
  pub monophonic_max_f0_hz : W

-- `boiledegg_research_features`
pub record Features (W : Type 0) : Type 0 where
  pub struct_size : ℕ
  pub version : ℕ
  pub timing_policy : ℕ
  pub rate_policy : ℕ
  pub initial_formant_ratio : W

-- The `sizeof` of the two records.
abbrev pub config_size : ℕ
config_size = 68

abbrev pub features_size : ℕ
features_size = 20

-- `boiledegg_research_pv_rt_mode` and `..._formant_mode`.
abbrev pub classic : ℕ
classic = 0

abbrev pub phase_locked : ℕ
phase_locked = 1

abbrev pub transient : ℕ
transient = 2

abbrev pub formant_off : ℕ
formant_off = 0

abbrev pub formant_monophonic : ℕ
formant_monophonic = 2

abbrev pub power_of_two : ℕ → Bool
power_of_two value = leb 64 value && bit_and value (value - 1) == 0

-- `features::scale`: the loop doubles at most three times.
unfoldable pub scale_from : ℕ → ℕ → ℕ → ℕ
scale_from zero rate result = result
scale_from (suc fuel) rate result =
    let rest = scale_from fuel rate (result * 2) in
    if ltb result 8 && ltb (48000 * result) rate then rest else result

module _ {W : Type 0} ⦃w : Floating W⦄ where
  abbrev pub finite_ratio : W → Bool
  finite_ratio v = w.is_finite v && w.le (flit 25 100) v && w.le v (flit 4 1)

  -- `features::ratio_valid`
  abbrev pub ratio_valid : W → Bool
  ratio_valid v = w.is_finite v && w.le (flit 5 10) v && w.le v (flit 2 1)

  unfoldable pub valid : PvConfig W → Bool
  valid c =
      leb config_size c.struct_size
      && c.abi_version == 1
      && leb 8000 c.sample_rate
      && leb c.sample_rate 384000
      && leb 1 c.channels
      && leb c.channels 8
      && leb 1 c.max_block_frames
      && leb c.max_block_frames 16384
      && power_of_two c.fft_size
      && leb c.fft_size 16384
      && leb 1 c.analysis_hop
      && leb c.analysis_hop (c.fft_size / 2)
      && leb c.mode 4
      && finite_ratio c.initial_time_ratio
      && finite_ratio c.initial_pitch_ratio
      && w.is_finite c.transient_floor
      && ge c.transient_floor (w.nat 0)
      && w.is_finite c.transient_sigma
      && ge c.transient_sigma (w.nat 0)
      && leb c.formant_mode formant_monophonic
      && leb 4 c.formant_cepstral_order
      && ltb c.formant_cepstral_order (c.fft_size / 2)
      && w.is_finite c.formant_gain_limit_db
      && ge c.formant_gain_limit_db (w.nat 0)
      && w.le c.formant_gain_limit_db (w.nat 36)
      && w.is_finite c.monophonic_min_f0_hz
      && w.is_finite c.monophonic_max_f0_hz
      && ge c.monophonic_min_f0_hz (w.nat 40)
      && gt c.monophonic_max_f0_hz c.monophonic_min_f0_hz
      && w.le c.monophonic_max_f0_hz (w.nat 2000)

  unfoldable pub default_config : ℕ → ℕ → ℕ → PvConfig W
  default_config sample_rate channels max_block_frames = record {
    struct_size = config_size;
    abi_version = 1;
    sample_rate = sample_rate;
    channels = channels;
    max_block_frames = max_block_frames;
    fft_size = 2048;
    analysis_hop = 256;
    mode = phase_locked;
    initial_time_ratio = flit 1 1;
    initial_pitch_ratio = flit 1 1;
    transient_floor = flit 12 100;
    transient_sigma = flit 25 10;
    formant_mode = formant_off;
    formant_cepstral_order = 40;
    formant_gain_limit_db = flit 15 1;
    monophonic_min_f0_hz = flit 60 1;
    monophonic_max_f0_hz = flit 900 1;
  }

  abbrev pub default_features : Features W
  default_features = record {
    struct_size = features_size;
    version = 1;
    timing_policy = 0;
    rate_policy = 0;
    initial_formant_ratio = flit 1 1;
  }

  -- `features::valid`
  unfoldable pub valid_features : Features W → ℕ → Bool
  valid_features f formant =
      leb features_size f.struct_size
      && f.version == 1
      && leb f.timing_policy 1
      && leb f.rate_policy 1
      && ratio_valid f.initial_formant_ratio
      && (not (formant == formant_off) || w.eq f.initial_formant_ratio (w.nat 1))

  abbrev pub scale : ℕ → Features W → ℕ
  scale rate f = if f.rate_policy == 1 then scale_from 3 rate 1 else 1

  unfoldable pub scale_pv : PvConfig W → Features W → Option (PvConfig W)
  scale_pv c f =
      let s = scale c.sample_rate f in
      if ltb (16384 / s) c.fft_size
        || ltb (16384 / s) c.analysis_hop
        || ltb (8191 / s) c.formant_cepstral_order
      then none
      else some (record c {
        fft_size = c.fft_size * s;
        analysis_hop = c.analysis_hop * s;
        formant_cepstral_order = c.formant_cepstral_order * s;
      })

  -- The configuration that `boiledegg_research_pv_rt_create_exec` constructs from, for the immediate
  -- execution.
  unfoldable pub create_config : PvConfig W → Features W → Option (PvConfig W)
  create_config c f =
      if ltb c.struct_size config_size || not (valid_features f c.formant_mode) || not (valid c)
      then none
      else elim (scale_pv c f) [
        | none ↦ none
        | some scaled ↦ if valid scaled then some scaled else none
      ]
