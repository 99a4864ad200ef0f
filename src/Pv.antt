-- ===== src/Pv.antt =====
-- src/experimental/pv/pv_rt.cpp: the phase vocoder `engine`, its configuration, construction and reset.
-- The execution is the immediate one (`scheduled_` is false, and so is `simd_`), and the modes are those
-- below FUZZY: the branches of the other execution and of the fuzzy modes are left out.
pub mod Config
pub mod Create
pub mod Peaks
pub mod Formant
pub mod Frame
pub mod Resample
pub mod Drain
pub mod Stream
pub mod Keeps
pub mod Finish
pub mod Ramps
pub mod Small
mod Tests
use boiled_egg.Base.{
  ℕ, zero, suc, ◌+◌, ◌-◌, ◌*◌, ◌/◌, ◌^◌, max, Bool, true, false, not, ◌&&◌, ◌||◌, ◌==◌,
  if◌then◌else◌, ltb, List, replicate, bit_and, get_or, u64, to_u64, pos_part,
}
use boiled_egg.Base.Loop.{tabulate}
use boiled_egg.Floating.{Floating, flit, fadd, fsub, fmul, fdiv, gt}
use boiled_egg.Fft.{Complex}
use boiled_egg.Timeline
use boiled_egg.Timeline.{PitchTimeline, RatioRamp}
use boiled_egg.Pv.Config.{PvConfig}

-- What the constructor settles and no operation changes.
pub record Settings (W : Type 0) : Type 0 where
  pub sample_rate : ℕ
  pub channels : ℕ
  pub max_block : ℕ
  pub n_fft : ℕ
  pub bins : ℕ
  pub analysis_hop : ℕ
  pub mode : ℕ
  pub formant_mode : ℕ
  pub timing_policy : ℕ
  pub formant_smoothing : W
  pub transient_floor : W
  pub transient_sigma : W
  pub formant_cepstral_order : ℕ
  pub formant_gain_limit_db : W
  pub monophonic_min_f0_hz : W
  pub monophonic_max_f0_hz : W
  pub input_capacity : ℕ
  pub ola_capacity : ℕ
  pub pv_capacity : ℕ
  pub fifo_capacity : ℕ
  pub window : List W
  pub omega : List W

-- The arrays of one frame and those that a frame leaves to the next: channel `ch` of an array of bins
-- starts at `ch * bins`.
pub record Spectrum (W : Type 0) : Type 0 where
  pub magnitude : List W
  pub phase : List W
  pub previous_phase : List W
  pub output_phase : List W
  pub previous_output_phase : List W
  pub linked_magnitude : List W
  pub previous_linked_magnitude : List W
  pub formant_gain : List W
  pub formant_energy_compensation : W
  pub owners : List ℕ
  pub timeline_rotation : List W
  pub timeline_predicted : List W
  pub linked_static_rotor : List (Complex W)
  pub smoothed_formant_ratio : W
  pub flux_mean : W
  pub flux_variance : W

pub record Pv (W : Type 0) : Type 0 where
  pub settings : Settings W
  pub time_ratio : W
  pub pitch_ratio : W
  pub formant_ratio : W
  pub spectrum : Spectrum W
  pub timeline : PitchTimeline W
  pub explicit_automation : Bool
  pub variable_time : Bool
  pub output_source_index : ℕ
  pub frame_pitch : W
  pub frame_formant_target : W
  pub input : List W
  pub ola : List W
  pub weight : List W
  pub pv_fifo : List W
  pub fifo : List W
  pub input_write : ℕ
  pub analysis_start : ℕ
  pub previous_synth_start : ℕ
  pub latest_safe_position : ℕ
  pub cleanup_position : ℕ
  pub startup_crop : ℕ
  pub real_input_frames : ℕ
  pub pv_emitted_frames : ℕ
  pub emitted_frames : ℕ
  pub synthesis_position : W
  pub expected_pv_frames : W
  pub expected_output_frames : W
  pub resample_pos : W
  pub pv_start : ℕ
  pub pv_write : ℕ
  pub fifo_read : ℕ
  pub fifo_write : ℕ
  pub fifo_count : ℕ
  pub target_pv_frames : ℕ
  pub target_output_frames : ℕ
  pub initialized : Bool
  pub flushed : Bool

-- `ring_index`
abbrev pub ring_index : ℕ → ℕ → ℕ
ring_index position capacity = bit_and position (capacity - 1)

-- `next_capacity`: the loop doubles at most 64 times.
unfoldable pub double_until : ℕ → ℕ → ℕ → ℕ
double_until zero value result = result
double_until (suc fuel) value result =
    let rest = double_until fuel value (result * 2) in if ltb result value then rest else result

abbrev pub next_capacity : ℕ → ℕ
next_capacity value = double_until 64 value 1

abbrev pub centered : ℕ
centered = 1

abbrev pub max_u64 : ℕ
max_u64 = 2 ^ 64 - 1

module _ {W : Type 0} ⦃w : Floating W⦄ where
  abbrev pub pi_float : W
  pi_float = flit 3141592653589793 (10 ^ 15)

  abbrev pub pi_double : W
  pi_double = w.lit 3141592653589793 (10 ^ 15)

  -- `k_epsilon`
  abbrev pub k_epsilon : W
  k_epsilon = flit 1 (10 ^ 12)

  unfoldable pub round_u64 : W → ℕ
  round_u64 value =
      let cap = w.nat (2 ^ 64) in
      if gt value (w.nat 0) then to_u64 (w.llround (if w.lt cap value then cap else value)) else 0

  abbrev pub enabled : Pv W → Bool
  enabled e = Timeline.enabled e.timeline

  abbrev pub frame_pitch_of : Pv W → W
  frame_pitch_of e = if enabled e then e.frame_pitch else e.pitch_ratio

  abbrev pub internal_stretch : Pv W → W
  internal_stretch e = w.mul e.time_ratio (frame_pitch_of e)

  unfoldable pub crop_frames : Pv W → ℕ
  crop_frames e =
      if e.settings.timing_policy == centered
      then e.settings.n_fft / 2
      else round_u64 (w.mul (w.nat (e.settings.n_fft / 2)) (internal_stretch e))

  unfoldable pub update_startup_crop : Pv W → Pv W
  update_startup_crop e =
      if e.real_input_frames == 0 && not e.initialized
      then record e { startup_crop = crop_frames e }
      else e

  unfoldable pub reset : Pv W → Pv W
  reset e =
      let s = e.settings in
      let line = Timeline.rewind e.timeline e.pitch_ratio e.formant_ratio in
      let spectrum = record e.spectrum {
        previous_phase = replicate (s.channels * s.bins) (w.nat 0);
        previous_output_phase = replicate (s.channels * s.bins) (w.nat 0);
        previous_linked_magnitude = replicate s.bins (w.nat 0);
        timeline_rotation = replicate s.bins (w.nat 0);
        smoothed_formant_ratio = e.formant_ratio;
        flux_mean = w.nat 0;
        flux_variance = w.nat 0;
        formant_energy_compensation = w.nat 1;
      } in
      record e {
        spectrum = spectrum;
        timeline = line;
        explicit_automation = false;
        output_source_index = 0;
        input = replicate (s.channels * s.input_capacity) (w.nat 0);
        ola = replicate (s.channels * s.ola_capacity) (w.nat 0);
        weight = replicate s.ola_capacity (w.nat 0);
        pv_fifo = replicate (s.channels * s.pv_capacity) (w.nat 0);
        fifo = replicate (s.channels * s.fifo_capacity) (w.nat 0);
        input_write = s.n_fft / 2;
        analysis_start = 0;
        synthesis_position = w.nat 0;
        latest_safe_position = 0;
        cleanup_position = 0;
        startup_crop = crop_frames e;
        real_input_frames = 0;
        expected_pv_frames = w.nat 0;
        expected_output_frames = w.nat 0;
        pv_emitted_frames = 0;
        emitted_frames = 0;
        pv_start = 0;
        pv_write = 0;
        resample_pos = w.nat 0;
        fifo_read = 0;
        fifo_write = 0;
        fifo_count = 0;
        initialized = false;
        flushed = false;
        target_pv_frames = max_u64;
        target_output_frames = max_u64;
      }
