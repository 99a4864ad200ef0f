-- ===== src/Spectral.antt =====
-- src/spectral_backend.cpp, src/spectral_backend.hpp and src/experimental/pv/host_latency_bound.hpp: the
-- spectral backend over the phase vocoder, as an instance of `Backend` and `Ramps`.
pub mod Laws
pub mod Faults
pub mod Drains
mod Tests
use boiled_egg.Base.{
  ℕ, zero, suc, ◌+◌, ◌-◌, ◌*◌, ◌/◌, ◌^◌, max, Bool, true, false, not, ◌&&◌, ◌||◌, ◌==◌,
  if◌then◌else◌, ltb, leb, List, Option, none, some, neg_part, u32,
}
use boiled_egg.Abi.{
  Result, ok, invalid_argument, out_of_memory, end_of_stream, internal_error, invalid_state,
  unsupported_mode, buffer_full, is_ok, Config, BackendConfig, Planar, present, read_pointers,
  continuous_pitch, continuous_time, formant_low_detail, has_flag,
}
use boiled_egg.Floating.{Floating, flit}
use boiled_egg.Backend.{Backend}
use boiled_egg.Handle.Chunk.{pointers_at}
use boiled_egg.Handle.Realtime.{finite_channels}
use boiled_egg.Automation.{RampEvent, AutomationInfo, Ramps}
use boiled_egg.Pv.{Pv}
use boiled_egg.Pv.Config.{PvConfig, PvResult, Features}
use boiled_egg.Pv.Config
use boiled_egg.Pv
use boiled_egg.Pv.Create
use boiled_egg.Pv.Stream
use boiled_egg.Pv.Ramps.{
  enable_time_automation, validate_ramps as pv_validate_ramps, apply_ramp as pv_apply_ramp,
  automation_info as pv_automation_info,
}

-- `translate`
abbrev pub translate : PvResult → Result
translate PvResult.ok = ok
translate PvResult.invalid_argument = invalid_argument
translate PvResult.invalid_config = invalid_argument
translate PvResult.out_of_memory = out_of_memory
translate PvResult.already_flushed = end_of_stream
translate _ = internal_error

-- The output frames that a push leaves room for.
abbrev pub push_limit : ℕ
push_limit = 32768

-- `SpectralBackend`
pub record SpectralBackend (W : Type 0) : Type 0 where
  pub engine : Pv W
  pub backend : BackendConfig W
  pub channels : ℕ
  pub max_block : ℕ
  pub fft : ℕ
  pub hop : ℕ
  pub latency : ℕ
  pub flushed : Bool
  pub fault : Bool

module _ {W : Type 0} ⦃w : Floating W⦄ where
  -- `static_cast<uint32_t>(std::ceil(x))`
  abbrev ceil_u32 : W → ℕ
  ceil_u32 x = u32 (neg_part (w.floor (w.neg x)))

  unfoldable pub child_latency_bound : ℕ → ℕ → W → ℕ
  child_latency_bound n hop pitch =
      let half = w.div (w.nat n) (w.nat 2) in
      ceil_u32 (
        w.add
          (w.add (w.add half (w.mul (w.nat 2) (w.nat hop))) (w.div (w.add half (w.nat 24)) pitch))
          (w.nat 2))

  unfoldable pub compact_host_latency : ℕ → ℕ → W → ℕ
  compact_host_latency scale profile pitch =
      let size = if profile == 0 then 2048 else 1024 in
      let first = child_latency_bound (size * scale) (256 * scale) pitch in
      let second = child_latency_bound (512 * scale) (192 * scale) pitch in
      let result = if profile == 3 then u32 (max first second + 64 * scale + 2) else first in
      u32 (result + 31) / 32 * 32

  -- The configuration of the phase vocoder.
  unfoldable pub pv_config : Config → BackendConfig W → PvConfig W
  pv_config c b =
      let base : PvConfig W = Config.default_config c.sample_rate c.channels c.max_block_size in
      record base {
        fft_size = if b.quality_mode == 0 then 2048 else 1024;
        analysis_hop = 256;
        mode = Config.phase_locked;
        formant_mode = b.formant_policy;
        formant_cepstral_order =
            if has_flag b.flags formant_low_detail then 80 else base.formant_cepstral_order;
        initial_pitch_ratio = b.initial_pitch_ratio;
        initial_time_ratio = b.initial_time_ratio;
      }

  abbrev pub pv_features : BackendConfig W → Features W
  pv_features b = record (Config.default_features {W = W}) {
    timing_policy = 1;
    rate_policy = 1;
    initial_formant_ratio = b.initial_formant_ratio;
  }

  -- The engine with the timelines that the flags ask for; `none` is an exception of the constructor.
  unfoldable pub with_timelines : Pv W → ℕ → Option (Pv W)
  with_timelines e flags =
      let (pitch_result, pitched) = Create.enable_timeline e in
      let continuous = has_flag flags continuous_pitch in
      let before = if continuous then pitched else e in
      let (time_result, timed) = enable_time_automation before in
      if continuous && not (Stream.is_ok pitch_result)
      then none
      else if not (has_flag flags continuous_time)
      then some before
      else if is_ok time_result
      then some timed
      else none

  -- The constructor, for the immediate execution (an I/O contract that is not REALTIME).
  unfoldable pub construct : Config → BackendConfig W → Option (SpectralBackend W)
  construct c b =
      let scale = if ltb 48000 c.sample_rate then 2 else 1 in
      let pv = pv_config c b in
      elim (Create.create pv (pv_features b)) [
        | none ↦ none
        | some engine ↦ elim (with_timelines engine b.flags) [
          | none ↦ none
          | some ready ↦ some (record {
            engine = ready;
            backend = b;
            channels = c.channels;
            max_block = c.max_block_size;
            fft = pv.fft_size * scale;
            hop = pv.analysis_hop * scale;
            latency =
                compact_host_latency scale (if b.quality_mode == 0 then 0 else 1)
                  (if has_flag b.flags continuous_pitch then flit 5 10 else b.initial_pitch_ratio);
            flushed = false;
            fault = false;
          })
        ]
      ]

  unfoldable pub reset : SpectralBackend W → Result × SpectralBackend W
  reset s = (ok, record s { engine = Pv.reset s.engine; flushed = false; fault = false })

  unfoldable pub set_time_ratio : SpectralBackend W → W → Result × SpectralBackend W
  set_time_ratio s v = (if w.eq v s.backend.initial_time_ratio then ok else unsupported_mode, s)

  unfoldable pub set_pitch_ratio : SpectralBackend W → W → Result × SpectralBackend W
  set_pitch_ratio s v =
      let (result, engine) = Stream.set_pitch_ratio s.engine v in
      if has_flag s.backend.flags continuous_pitch
      then (if s.flushed then (ok, s) else (translate result, record s { engine = engine }))
      else (if w.eq v s.backend.initial_pitch_ratio then ok else unsupported_mode, s)

  unfoldable pub set_formant_ratio : SpectralBackend W → W → Result × SpectralBackend W
  set_formant_ratio s v =
      let (result, engine) = Stream.set_formant_ratio s.engine v in
      if s.flushed then (ok, s) else (translate result, record s { engine = engine })

  abbrev pub available : SpectralBackend W → ℕ
  available s = Stream.available s.engine

  unfoldable pub drained : SpectralBackend W → Bool
  drained s = s.flushed && not s.fault && available s == 0

  -- The loop of a push from frame `i` on: the result, `accepted`, and the backend.
  unfoldable pub push_frames :
      ℕ → ℕ → SpectralBackend W → (ℕ → ℕ → W) → ℕ → Result × ℕ × SpectralBackend W
  push_frames zero i s x accepted = (ok, accepted, s)
  push_frames (suc n) i s x accepted =
      let (result, engine) = Stream.push s.engine (pointers_at x i) 1 in
      let next = record s { engine = engine } in
      let rest = push_frames n (i + 1) next x (accepted + 1) in
      if leb push_limit (available s)
      then (buffer_full, accepted, s)
      else if not (Stream.is_ok result)
      then (translate result, accepted, record next { fault = true })
      else rest

  unfoldable pub push : SpectralBackend W → Planar W → ℕ → Result × ℕ × SpectralBackend W
  push s x n =
      if s.fault
      then (invalid_state, 0, s)
      else if s.flushed
      then (end_of_stream, 0, s)
      else if ltb s.max_block n || not (n == 0) && not (present s.channels x)
      then (invalid_argument, 0, s)
      else if not (n == 0) && not (finite_channels s.channels 0 n (read_pointers (w.nat 0) x))
      then (invalid_argument, 0, s)
      else push_frames n 0 s (read_pointers (w.nat 0) x) 0

  unfoldable pub pull :
      SpectralBackend W → Planar W → ℕ → Result × ℕ × (ℕ → ℕ → W) × SpectralBackend W
  pull s y n =
      let before = read_pointers (w.nat 0) y in
      let (produced, after, engine) = Stream.pull s.engine y n in
      if s.fault
      then (invalid_state, 0, before, s)
      else if not (n == 0) && not (present s.channels y)
      then (invalid_argument, 0, before, s)
      else (ok, produced, after, record s { engine = engine })

  unfoldable pub flush : SpectralBackend W → Result × SpectralBackend W
  flush s =
      let (result, engine) = Stream.flush s.engine in
      let done = record s { engine = engine } in
      if s.fault
      then (invalid_state, s)
      else if s.flushed
      then (ok, s)
      else if Stream.is_ok result
      then (ok, record done { flushed = true })
      else (translate result, record done { fault = true })

  instance abbrev pub spectral_backend : Backend W (SpectralBackend W)
  spectral_backend = record {
    reset = reset;
    set_time_ratio = set_time_ratio;
    set_pitch_ratio = set_pitch_ratio;
    set_formant_ratio = set_formant_ratio;
    available = available;
    input_latency_frames = λ s. Stream.latency s.engine;
    quantum = λ s c. s.hop;
    realtime_latency = λ s c. s.latency;
    realtime_tail = λ s c. u32 (s.latency + 8 * s.fft + 128);
    drained = drained;
    push = push;
    pull = pull;
    flush = flush;
  }

  unfoldable pub validate_ramps :
      SpectralBackend W → Option (List (RampEvent W)) → ℕ → ℕ → W → Result
  validate_ramps s events count frames pitch =
      if not (has_flag s.backend.flags continuous_pitch)
      then unsupported_mode
      else if s.fault
      then invalid_state
      else if s.flushed
      then end_of_stream
      else pv_validate_ramps s.engine events count frames pitch

  unfoldable pub apply_ramp : SpectralBackend W → RampEvent W → Result × SpectralBackend W
  apply_ramp s event =
      let (result, engine) = pv_apply_ramp s.engine event in (result, record s { engine = engine })

  unfoldable pub can_accept_ramp_sample : SpectralBackend W → Bool
  can_accept_ramp_sample s = not s.fault && not s.flushed && ltb (available s) push_limit

  instance abbrev pub spectral_ramps : Ramps W (SpectralBackend W)
  spectral_ramps = record {
    validate_ramps = validate_ramps;
    apply_ramp = apply_ramp;
    automation_info = λ s. pv_automation_info s.engine;
    can_accept_ramp_sample = can_accept_ramp_sample;
  }
