-- ===== src/Engine.antt =====
-- src/engine.hpp and src/engine.cpp: class `Engine`, the WSOLA time stretcher and the resampler
-- behind it. This file has the state, the constructor, `reset` and the two ratio setters.
pub mod Search
pub mod Wsola
pub mod Resampler
pub mod Stream
pub mod Keeps
pub mod Budget
pub mod Setup
mod Tests
pub mod Halts
pub mod Candidates
pub mod Results
use boiled_egg.Base.{
  ℕ, ◌+◌, ◌-◌, ◌*◌, ◌/◌, ◌^◌, Bool, true, false, not, ◌||◌, ◌&&◌, ◌==◌, List, ℤ, pos, ltb,
  if◌then◌else◌, u64, u32, length, replicate, leb,
}
use boiled_egg.Base.Loop.{tabulate}
use boiled_egg.Abi.{Result, ok, invalid_argument, Config}
use boiled_egg.Floating.{Floating, flit, fsub, fmul, fdiv, gt}
use boiled_egg.Ring
use boiled_egg.Ring.{PlanarRing, size}

pub record Engine (W : Type 0) : Type 0 where
  pub sample_rate : ℕ
  pub channels : ℕ
  pub max_block : ℕ
  pub window : ℕ
  pub overlap : ℕ
  pub hop : ℕ
  pub search : ℕ
  pub time_ratio : W
  pub pitch_ratio : W
  pub input : PlanarRing W
  pub intermediate : PlanarRing W
  pub output : PlanarRing W
  pub prev_tail : List W
  pub emit_scratch : List W
  pub overlap_weights : List W
  pub correlation_tail : List W
  pub correlation_input : List W
  pub correlation_tail_energy : W
  pub correlation_start : ℤ
  pub sample_scratch : List W
  pub have_prev : Bool
  pub flushing : Bool
  pub flush_padding_done : Bool
  pub next_expected : W
  pub last_start : ℤ
  pub resample_pos : W
  pub input_total : ℕ
  pub produced_total : ℕ
  pub target_output_accum : W
  pub target_output_frames : ℕ

-- std::numeric_limits<uint64_t>::max()
abbrev pub no_target : ℕ
no_target = 2 ^ 64 - 1

module _ {W : Type 0} ⦃w : Floating W⦄ where
  -- kPi, as a float.
  abbrev pi_float : W
  pi_float = flit 314159265358979323846 (10 ^ 20)

  -- The raised-cosine weight of sample `i` of an overlap.
  unfoldable pub overlap_weight : ℕ → ℕ → W
  overlap_weight overlap i =
      let t =
        if ltb 1 overlap
        then fdiv (w.narrow (w.nat i)) (w.narrow (w.nat (overlap - 1)))
        else flit 1 1 in
      fsub (flit 5 10) (fmul (flit 5 10) (w.narrow (w.cos (fmul pi_float t))))

  unfoldable pub reset : Engine W → Engine W
  reset e = record e {
    input = Ring.reset (w.nat 0) e.input;
    intermediate = Ring.reset (w.nat 0) e.intermediate;
    output = Ring.reset (w.nat 0) e.output;
    prev_tail = replicate (length e.prev_tail) (w.nat 0);
    emit_scratch = replicate (length e.emit_scratch) (w.nat 0);
    have_prev = false;
    flushing = false;
    flush_padding_done = false;
    next_expected = w.nat 0;
    last_start = pos 0;
    resample_pos = w.nat 0;
    input_total = 0;
    produced_total = 0;
    target_output_accum = w.nat 0;
    target_output_frames = no_target;
  }

  -- The constructor. Its `zero_scratch_` is the constant silence that `feed_padding` pushes.
  unfoldable pub create : Config → Engine W
  create c =
      let overlap = c.window_frames / 2 in
      let zero : W = w.nat 0 in
      reset (record {
        sample_rate = c.sample_rate;
        channels = c.channels;
        max_block = c.max_block_size;
        window = c.window_frames;
        overlap = overlap;
        hop = overlap;
        search = c.search_frames;
        time_ratio = flit 1 1;
        pitch_ratio = flit 1 1;
        input = Ring.init zero c.channels c.fifo_frames;
        intermediate = Ring.init zero c.channels c.fifo_frames;
        output = Ring.init zero c.channels c.fifo_frames;
        prev_tail = replicate (c.channels * overlap) zero;
        emit_scratch = replicate (c.channels * overlap) zero;
        overlap_weights = tabulate overlap 0 (overlap_weight overlap);
        correlation_tail = replicate overlap zero;
        correlation_input = replicate (overlap + 2 * c.search_frames) zero;
        correlation_tail_energy = w.lit 1 (10 ^ 12);
        correlation_start = pos 0;
        sample_scratch = replicate c.channels zero;
        have_prev = false;
        flushing = false;
        flush_padding_done = false;
        next_expected = zero;
        last_start = pos 0;
        resample_pos = zero;
        input_total = 0;
        produced_total = 0;
        target_output_accum = zero;
        target_output_frames = no_target;
      })

  -- The test that both setters and the public ones share, negated.
  abbrev pub out_of_ratio_range : W → Bool
  out_of_ratio_range ratio =
      not (w.is_finite ratio) || w.lt ratio (flit 25 100) || gt ratio (flit 4 1)

  unfoldable pub set_time_ratio : Engine W → W → Result × Engine W
  set_time_ratio e ratio =
      if out_of_ratio_range ratio
      then (invalid_argument, e)
      else (ok, record e { time_ratio = ratio })

  unfoldable pub set_pitch_ratio : Engine W → W → Result × Engine W
  set_pitch_ratio e ratio =
      if out_of_ratio_range ratio
      then (invalid_argument, e)
      else (ok, record e { pitch_ratio = ratio })

  unfoldable pub available : Engine W → ℕ
  available e = size e.output

  unfoldable pub input_latency_frames : Engine W → ℕ
  input_latency_frames e = u32 (e.window + e.search)

  unfoldable pub drained : Engine W → Bool
  drained e = e.flushing && size e.output == 0 && leb e.target_output_frames e.produced_total

  -- time ratio times pitch ratio, in double.
  abbrev pub stretch : Engine W → W
  stretch e = w.mul e.time_ratio e.pitch_ratio
