-- ===== src/Spectral/Tests.antt =====
-- src/spectral_backend.cpp: runs of the spectral backend on a small phase vocoder.
use boiled_egg.Base.{ℕ, ◌≡◌, refl, true, false, arith}
use boiled_egg.Abi.{all_present, is_ok, present}
use boiled_egg.Floating.Fixed.{Fixed, fixed_floating}
use boiled_egg.Backend.Inventory.{default_backend_config}
use boiled_egg.Handle.Chunk.{pointers_at}
use boiled_egg.Handle.Realtime.{finite_frames, finite_channels}
use boiled_egg.Pv.Small.{vocoder}
use boiled_egg.Pv
use boiled_egg.Pv.Create
use boiled_egg.Pv.Config
use boiled_egg.Pv.Stream
use boiled_egg.Pv.Resample.{process_resampler, output_limit, repeat, copy_step, filter_step}
use boiled_egg.Pv.Drain.{drain_safe, drain_loop, drain_step}
use boiled_egg.Timeline
use boiled_egg.Spectral.{SpectralBackend, spectral_backend, spectral_ramps, push, flush, drained}
use boiled_egg.Spectral.Faults.{PushOutcome, push-PushOutcome}
use boiled_egg.Spectral.Drains.{pulls, flush-drains}

abbrev backend : SpectralBackend Fixed
backend = record {
  engine = record vocoder {
    fifo_count = 3;
    emitted_frames = 3;
    pv_emitted_frames = 3;
    latest_safe_position = 5;
    cleanup_position = 5;
    expected_pv_frames = fixed_floating.nat 3;
    expected_output_frames = fixed_floating.nat 3;
  };
  backend = default_backend_config;
  channels = 1;
  max_block = 8;
  fft = 4;
  hop = 1;
  latency = 32;
  flushed = false;
  fault = false;
}

abbrev ramp : ℕ → ℕ → Fixed
ramp ch i = fixed_floating.nat i

push-PushOutcome_example :
    let (result, accepted, s) = push backend (pointers_at ramp 0) 2 in
    PushOutcome 2 result accepted s
unfolding all_present finite_channels finite_frames
push-PushOutcome_example =
    push-PushOutcome backend (pointers_at ramp 0) 2 refl refl (omega arith) refl refl

same_channels : backend.engine.settings.channels ≡ backend.channels
unfolding Pv.reset Create.raw_engine
same_channels = refl

flush_ok : is_ok (flush backend).0 ≡ true
unfolding flush Stream.flush Stream.flush_loop Stream.finish_flush Pv.reset Pv.round_u64
    Pv.crop_frames Create.raw_engine Config.default_config Timeline.rewind process_resampler
    output_limit repeat copy_step filter_step drain_safe drain_loop drain_step
flush_ok = refl

flush_left : (flush backend).1.engine.fifo_count ≡ 3
unfolding flush Stream.flush Stream.flush_loop Stream.finish_flush Pv.reset Pv.round_u64
    Pv.crop_frames Create.raw_engine Config.default_config Timeline.rewind process_resampler
    output_limit repeat copy_step filter_step drain_safe drain_loop drain_step
flush_left = refl

all_there : (i : ℕ) → present backend.channels (pointers_at ramp 0) ≡ true
unfolding all_present
all_there i = refl

flush-drains_example :
    ((pulls 2 (flush backend).1 (λ i. pointers_at ramp 0) 2).0
      ≡ (flush backend).1.engine.fifo_count)
    × (drained (pulls 2 (flush backend).1 (λ i. pointers_at ramp 0) 2).1 ≡ true)
flush-drains_example =
    flush-drains backend (λ i. pointers_at ramp 0) 2 2 refl same_channels flush_ok (omega arith)
      (omega (arith, flush_left)) all_there
