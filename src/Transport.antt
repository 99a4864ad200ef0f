-- ===== src/Transport.antt =====
-- sdk/transport/transport.cpp and transport.h: the transport of a file that is held in memory. Here its
-- configuration, its control ramps and its state.
pub mod Lifecycle
pub mod Kernel
pub mod Spectrum
pub mod Frames
pub mod Render
pub mod Clock
pub mod Hold
mod Tests
use boiled_egg.Base.{
  ℕ, zero, suc, ◌+◌, ◌-◌, ◌*◌, ◌/◌, ◌^◌, Bool, true, false, not, ◌&&◌, ◌||◌, ◌==◌, if◌then◌else◌,
  ltb, leb, List, [], ◌∷◌, Option, none, some, get_or, replicate,
}
use boiled_egg.Base.Loop.{tabulate}
use boiled_egg.Floating.{Floating, flit, gt}
use boiled_egg.Fft.{Complex}

-- `be_transport_mode`
abbrev pub pv_classic : ℕ
pv_classic = 0

abbrev pub pv_transient : ℕ
pv_transient = 2

abbrev pub time_domain : ℕ
time_domain = 3

abbrev pub time_transient : ℕ
time_transient = 4

abbrev pub time_efficient : ℕ
time_efficient = 5

-- `be_transport_result`; an allocation does not fail.
pub data Outcome : Type 0 where
  ok invalid unsupported : Outcome

abbrev pub is_ok : Outcome → Bool
is_ok ok = true
is_ok _ = false

-- `be_transport_config`
pub record TransportConfig : Type 0 where
  pub struct_size : ℕ
  pub version : ℕ
  pub source_rate : ℕ
  pub output_rate : ℕ
  pub channels : ℕ
  pub mode : ℕ
  pub formant_policy : ℕ
  pub max_block_frames : ℕ

unfoldable pub default_config : ℕ → ℕ → TransportConfig
default_config rate channels = record {
  struct_size = 32;
  version = 1;
  source_rate = rate;
  output_rate = rate;
  channels = channels;
  mode = 1;
  formant_policy = 0;
  max_block_frames = 4096;
}

unfoldable pub window_size : TransportConfig → ℕ
window_size c =
    let base =
      if c.mode == time_transient
      then 512
      else if c.mode == pv_transient
      then 2048
      else if leb time_domain c.mode
      then 1024
      else 4096 in
    base * (if ltb 48000 c.output_rate then 2 else 1)

-- `be_transport_event`
pub record ControlEvent (W : Type 0) : Type 0 where
  pub offset : ℕ
  pub parameter : ℕ
  pub ramp_frames : ℕ
  pub reserved : ℕ
  pub value : W

-- `Ramp`, in double.
pub record Ramp (W : Type 0) : Type 0 where
  pub value : W
  pub start : W
  pub target : W
  pub length : ℕ
  pub elapsed : ℕ

-- `be_transport`. `control` is the three ramps; the vectors that hold nothing from one frame to the
-- next are scratch.
pub record Transport (W : Type 0) : Type 0 where
  pub cfg : TransportConfig
  pub frames : ℕ
  pub clock : ℕ
  pub synth_count : ℕ
  pub analysis_count : ℕ
  pub frame_clock : ℕ
  pub pv_ready : ℕ
  pub source_error : W
  pub resample_error : W
  pub resample_position : W
  pub output_pitch_value : W
  pub output_pitch_ratio : W
  pub output_pitch_band : ℕ
  pub n : ℕ
  pub source : List W
  pub window : List W
  pub ola : List W
  pub weights : List W
  pub mag : List W
  pub prior_mag : List W
  pub frequency : List W
  pub rotation : List W
  pub gain : List W
  pub pv : List W
  pub spec : List (List (Complex W))
  pub owners : List ℕ
  pub previous_grain : List W
  pub speed : Ramp W
  pub pitch : Ramp W
  pub formant : Ramp W
  pub position : W
  pub anchor : W
  pub last_pitch : W
  pub last_formant : W
  pub selected_center : W
  pub initialized : Bool
  pub spectrum_ready : Bool
  pub tail : ℕ
  pub kernel_band : ℕ

-- `be_transport_info`, without its size and version and without `owned_bytes`.
pub record TransportInfo (W : Type 0) : Type 0 where
  pub capabilities : ℕ
  pub ended : Bool
  pub output_frames : ℕ
  pub source_frames : ℕ
  pub synthesis_frames : ℕ
  pub analysis_frames : ℕ
  pub source_position : W
  pub analysis_anchor : W
  pub speed : W
  pub pitch_semitones : W
  pub formant_semitones : W
  pub window_frames : ℕ
  pub hop_frames : ℕ

module _ {W : Type 0} where
  abbrev pub hop : Transport W → ℕ
  hop t = t.n / 4

  abbrev pub bins : Transport W → ℕ
  bins t = t.n / 2 + 1

  abbrev pub capacity : Transport W → ℕ
  capacity t = 4 * t.n

module _ {W : Type 0} ⦃w : Floating W⦄ where
  abbrev pub value_at : List W → ℕ → W
  value_at xs i = get_or xs i (w.nat 0)

  -- kPi, in double.
  abbrev pub pi : W
  pi = w.lit 314159265358979323846 (10 ^ 20)

  -- `Ramp::set`, `Ramp::tick` and `Ramp::reset`.
  unfoldable pub set_ramp : Ramp W → W → ℕ → Ramp W
  set_ramp r x n = record {
    value = if n == 0 then x else r.value;
    start = r.value;
    target = x;
    length = n;
    elapsed = 0;
  }

  unfoldable pub tick : Ramp W → Ramp W
  tick r =
      let e = r.elapsed + 1 in
      let between =
        w.add r.start (w.mul (w.sub r.target r.start) (w.div (w.nat e) (w.nat r.length))) in
      if ltb r.elapsed r.length
      then record r { elapsed = e; value = if e == r.length then r.target else between }
      else r

  abbrev pub reset_ramp : Ramp W → Ramp W
  reset_ramp r = record r { value = r.target; start = r.target; length = 0; elapsed = 0 }
