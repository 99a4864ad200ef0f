-- ===== src/Engine/Keeps/Frames.antt =====
-- src/engine.cpp: the resampler, for the invariant of the engine.
use boiled_egg.Base.{
  ℕ, zero, suc, ◌+◌, ◌-◌, ◌*◌, ◌<◌, min, List, if_cases, pos, ◌-ℤ◌, get_or, arith, to_u64,
}
use boiled_egg.Base.Loop.{tabulate}
use boiled_egg.Floating.{Floating, min_of}
use boiled_egg.Ring
use boiled_egg.Ring.{PlanarRing, free_space, size}
use boiled_egg.Ring.Bounds.{IsValid, push_one-IsValid, discard_before-IsValid}
use boiled_egg.Engine.{Engine}
use boiled_egg.Engine.Resampler.{
  emit_frame, advance, half, phases, interpolate, kernel_row, resample_frame, resample_step,
  resample_loop, process_resampler, output_limit, cutoff_index,
}
use boiled_egg.Engine.Keeps.Relation.{Keeps, Keeps-refl, Keeps-trans}

module _ {W : Type 0} ⦃w : Floating W⦄ (limit : ℕ) where
  advance-Keeps :
      (e : Engine W) (ring : PlanarRing W) (scratch : List W)
      → (IsValid e.output → IsValid ring)
      → e.produced_total < limit
      → Keeps limit e (advance e ring scratch)
  unfolding advance
  advance-Keeps e ring scratch valid room =
      let keep = w.floor (w.add e.resample_pos e.pitch_ratio) -ℤ pos half -ℤ pos 2 in
      let discarded = discard_before-IsValid {r = e.intermediate} (to_u64 keep) in
      record {
        same = ground arith;
        rings = λ v. record {
          input_ok = v.input_ok;
          intermediate_ok =
              if_cases IsValid _ (λ _. discarded v.intermediate_ok) (λ _. v.intermediate_ok);
          output_ok = valid v.output_ok;
        };
        budget = λ h. omega arith;
      }

  emit_frame-Keeps :
      (e : Engine W) (frame : ℕ → W)
      → e.produced_total < limit
      → Keeps limit e (emit_frame e frame).1
  unfolding emit_frame
  emit_frame-Keeps e frame room =
      let scratch = tabulate e.channels 0 frame in
      let source = λ (ch : ℕ). get_or scratch ch (w.nat 0) in
      let kept : Keeps limit e (record e { sample_scratch = scratch }) = ground arith in
      let advanced =
        advance-Keeps e (Ring.push_one e.output source).1 scratch (push_one-IsValid source) room in
      ground (arith, kept, advanced)

  resample_frame-Keeps :
      (e : Engine W) (cutoff : ℕ)
      → e.produced_total < limit
      → Keeps limit e (resample_frame e cutoff).1
  unfolding resample_frame
  resample_frame-Keeps e cutoff room =
      let moved : Keeps limit e (record e { resample_pos = w.nat e.intermediate.start }) =
        ground arith in
      let center = w.floor e.resample_pos in
      let frac = w.sub e.resample_pos (w.int center) in
      let phase = min (w.to_ℕ (w.mul frac (w.nat phases))) (phases - 1) in
      let direct = emit_frame-Keeps e (λ ch. Ring.get (w.nat 0) e.intermediate ch center) room in
      let filtered =
        emit_frame-Keeps e (interpolate e (kernel_row cutoff phase) (center -ℤ pos (half - 1)))
          room in
      ground (arith, Keeps-refl {limit = limit} e, moved, direct, filtered)

  resample_step-Keeps : (e : Engine W) (cutoff : ℕ) → Keeps limit e (resample_step e limit cutoff).1
  unfolding resample_step
  resample_step-Keeps e cutoff = ground (arith, Keeps-refl e, resample_frame-Keeps e cutoff)

  resample_loop-Keeps :
      (fuel : ℕ) (e : Engine W) (cutoff : ℕ) → Keeps limit e (resample_loop fuel e limit cutoff)
  unfolding resample_loop
  resample_loop-Keeps zero e cutoff = Keeps-refl e
  resample_loop-Keeps (suc fuel) e cutoff =
      let step = resample_step-Keeps e cutoff in
      let rest = resample_loop-Keeps fuel (resample_step e limit cutoff).1 cutoff in
      ground (arith, step, Keeps-trans step rest)

module _ {W : Type 0} ⦃w : Floating W⦄ where
  pub process_resampler-Keeps : (e : Engine W) → Keeps (output_limit e) e (process_resampler e)
  unfolding process_resampler
  process_resampler-Keeps e =
      let desired = w.mul (w.lit 94 100) (min_of (w.nat 1) (w.div (w.nat 1) e.pitch_ratio)) in
      let looped =
        resample_loop-Keeps (output_limit e) (2 * free_space e.output + 2) e
          (cutoff_index desired) in
      ground (arith, Keeps-refl {limit = output_limit e} e, looped)
