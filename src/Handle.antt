-- ===== src/Handle.antt =====
-- src/boiled_egg.cpp: `boiledegg_handle`, its parameter mailboxes and its processing mode. The
-- backend behind the handle is a parameter, by `Backend`. The handle's pointer arrays are scratch
-- for the calls of the backend, and are not state here.
pub mod Parameters
pub mod Streaming
pub mod Chunk
pub mod Realtime
pub mod Control
mod Tests
pub mod InPlace
pub mod State
pub mod Latency
pub mod Modes
pub mod Halts
use boiled_egg.Base.{ℕ, Bool, true, false, not, ◌&&◌, ◌||◌, ◌==◌, if◌then◌else◌, ◌^◌}
use boiled_egg.Abi.{
  Result, Config, BackendConfig, continuous_time, has_flag, io_streaming, io_realtime,
}
use boiled_egg.Floating.{Floating, flit, fsub, fdiv, gt}
use boiled_egg.Backend.{Backend}

-- `processing_mode`
pub data Mode : Type 0 where
  idle streaming realtime : Mode

abbrev pub same_mode : Mode → Mode → Bool
same_mode idle idle = true
same_mode streaming streaming = true
same_mode realtime realtime = true
same_mode _ _ = false

-- A `*_bits` field is the float's 32 bits.
pub record Handle (W : Type 0) (B : Type 0) : Type 0 where
  pub engine : B
  pub backend : BackendConfig W
  pub requested_time_ratio_bits : ℕ
  pub requested_pitch_ratio_bits : ℕ
  pub requested_formant_ratio_bits : ℕ
  pub mode : Mode
  pub sample_rate : ℕ
  pub channels : ℕ
  pub max_block_size : ℕ
  pub parameter_quantum_frames : ℕ
  pub realtime_latency_frames : ℕ
  pub realtime_latency_remaining : ℕ
  pub realtime_tail_frames : ℕ

module _ {W : Type 0} ⦃w : Floating W⦄ where
  -- kRealtimeTimeRatio and kRatioEpsilon
  abbrev pub realtime_time_ratio : W
  realtime_time_ratio = flit 1 1

  abbrev pub ratio_epsilon : W
  ratio_epsilon = flit 1 (10 ^ 6)

  -- `std::abs(ratio - kRealtimeTimeRatio) > kRatioEpsilon`
  abbrev pub non_realtime_ratio : W → Bool
  non_realtime_ratio ratio = gt (w.abs (fsub ratio realtime_time_ratio)) ratio_epsilon

  -- `std::pow(2.0f, st / 12.0f)`
  abbrev pub semitones_ratio : W → W
  semitones_ratio st = w.narrow (w.exp2 (fdiv st (flit 12 1)))

  module _ {B : Type 0} where
    -- `store_ratio` and `load_ratio` on each mailbox.
    abbrev pub store_time : Handle W B → W → Handle W B
    store_time h value = record h { requested_time_ratio_bits = w.bits value }

    abbrev pub store_pitch : Handle W B → W → Handle W B
    store_pitch h value = record h { requested_pitch_ratio_bits = w.bits value }

    abbrev pub store_formant : Handle W B → W → Handle W B
    store_formant h value = record h { requested_formant_ratio_bits = w.bits value }

    abbrev pub load_time : Handle W B → W
    load_time h = w.of_bits h.requested_time_ratio_bits

    abbrev pub load_pitch : Handle W B → W
    load_pitch h = w.of_bits h.requested_pitch_ratio_bits

    abbrev pub load_formant : Handle W B → W
    load_formant h = w.of_bits h.requested_formant_ratio_bits

  -- The compare-and-exchange has no rival here: its caller is the one audio owner.
  unfoldable pub enter_mode : {B : Type 0} → Handle W B → Mode → Bool × Handle W B
  enter_mode h desired =
      if h.backend.io_contract == io_streaming && not (same_mode desired streaming)
        || h.backend.io_contract == io_realtime && not (same_mode desired realtime)
      then (false, h)
      else if same_mode h.mode desired
      then (true, h)
      else if not (same_mode h.mode idle)
      then (false, h)
      else (true, record h { mode = desired })

  module _ {B : Type 0} ⦃b : Backend W B⦄ where
    -- The constructor, over an engine that is built already.
    unfoldable pub make_handle : B → Config → BackendConfig W → Handle W B
    make_handle engine c config = record {
      engine = engine;
      backend = config;
      requested_time_ratio_bits = w.bits config.initial_time_ratio;
      requested_pitch_ratio_bits = w.bits config.initial_pitch_ratio;
      requested_formant_ratio_bits = w.bits config.initial_formant_ratio;
      mode = idle;
      sample_rate = c.sample_rate;
      channels = c.channels;
      max_block_size = c.max_block_size;
      parameter_quantum_frames = b.quantum engine c;
      realtime_latency_frames = b.realtime_latency engine c;
      realtime_latency_remaining = b.realtime_latency engine c;
      realtime_tail_frames = b.realtime_tail engine c;
    }

    -- `(void)h->engine.set_*(...)`: the result is dropped.
    abbrev with_time : Handle W B → W → Handle W B
    with_time h v = record h { engine = (b.set_time_ratio h.engine v).1 }

    abbrev with_pitch : Handle W B → W → Handle W B
    with_pitch h v = record h { engine = (b.set_pitch_ratio h.engine v).1 }

    abbrev with_formant : Handle W B → W → Handle W B
    with_formant h v = record h { engine = (b.set_formant_ratio h.engine v).1 }

    unfoldable pub sync_requested_parameters_streaming : Handle W B → Handle W B
    sync_requested_parameters_streaming h =
        let uncoupled =
          if has_flag h.backend.flags continuous_time
          then h
          else with_pitch (with_time h (load_time h)) (load_pitch h) in
        with_formant uncoupled (load_formant h)

    unfoldable pub sync_requested_parameters_realtime : Handle W B → Handle W B
    sync_requested_parameters_realtime h =
        with_formant (with_pitch (with_time h realtime_time_ratio) (load_pitch h)) (load_formant h)
