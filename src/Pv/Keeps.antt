-- ===== src/Pv/Keeps.antt =====
-- src/experimental/pv/pv_rt.cpp: what the pipeline never changes: the settings, and whether the engine
-- is flushed.
pub mod Frames
use boiled_egg.Base.{
  ℕ, ℤ, zero, suc, ◌+◌, ◌-◌, ◌*◌, ap, ◌∙◌, Bool, true, false, Bool-cases, arith, inl, inr, refl,
  ◌≡◌,
}
use boiled_egg.Floating.{Floating, flit, fsub, min_of}
use boiled_egg.Pv.{Pv, Settings, enabled}
use boiled_egg.Pv.Resample.{
  process_resampler, repeat, copy_step, filter_step, timeline_step, timeline_frame, output_limit,
  cutoff_index, seek_source, source_position, push_final_frame, discard_kept, pv_discard_before,
}
use boiled_egg.Pv.Drain.{drain_safe, drain_loop, drain_step, clear_slot, emit_slot}

module _ {W : Type 0} ⦃w : Floating W⦄ where
  abbrev pub fixed : Pv W → Bool × Settings W
  fixed e = (e.flushed, e.settings)

  repeat-Keeps :
      (n : ℕ) (round : Pv W → Bool × Pv W) (e : Pv W)
      → ((s : Pv W) → fixed (round s).1 ≡ fixed s)
      → fixed (repeat n round e) ≡ fixed e
  unfolding repeat
  repeat-Keeps zero round e step = refl
  repeat-Keeps (suc n) round e step = elim (Bool-cases (round e).0) [
    | inl more ↦ rw (repeat, more) (repeat-Keeps n round (round e).1 step ∙ step e)
    | inr stop ↦ rw (repeat, stop) (step e)
  ]

  copy-Keeps : (e : Pv W) (limit : ℕ) → fixed (copy_step e limit).1 ≡ fixed e
  unfolding copy_step
  copy-Keeps e limit = ground arith

  pushed-Keeps : (e : Pv W) (values : ℕ → W) → fixed (push_final_frame e values) ≡ fixed e
  unfolding push_final_frame
  pushed-Keeps e values = ground arith

  kept-Keeps : (e : Pv W) (keep : ℤ) → fixed (discard_kept e keep) ≡ fixed e
  unfolding pv_discard_before
  kept-Keeps e keep = ground arith

  filter-Keeps :
      (e : Pv W) (finalizing : Bool) (limit cutoff : ℕ)
      → fixed (filter_step e finalizing limit cutoff).1 ≡ fixed e
  unfolding filter_step pv_discard_before push_final_frame
  filter-Keeps e finalizing limit cutoff = ground arith

  frame-Keeps :
      (e : Pv W) (finalizing : Bool) (u : W) → fixed (timeline_frame e finalizing u).1 ≡ fixed e
  unfolding timeline_frame pv_discard_before push_final_frame
  frame-Keeps e finalizing u = ground arith

  timeline-Keeps :
      (e : Pv W) (finalizing : Bool) (limit : ℕ)
      → fixed (timeline_step e finalizing limit).1 ≡ fixed e
  unfolding timeline_step
  timeline-Keeps e finalizing limit =
      let (found, index) = seek_source 4 e e.output_source_index in
      let sought = record e { output_source_index = index } in
      ground (
        arith,
        frame-Keeps e finalizing (w.div (w.nat e.emitted_frames) e.time_ratio),
        frame-Keeps sought finalizing (source_position sought).1,
      )

  pub resampler-Keeps :
      (e : Pv W) (finalizing : Bool) → fixed (process_resampler finalizing e) ≡ fixed e
  unfolding process_resampler
  resampler-Keeps e finalizing =
      let n = e.settings.fifo_capacity - e.fifo_count + 1 in
      let limit = output_limit e finalizing in
      let cutoff =
        cutoff_index (w.mul (w.lit 94 100) (min_of (w.nat 1) (w.div (w.nat 1) e.pitch_ratio))) in
      ground (
        arith,
        repeat-Keeps n (λ s. timeline_step s finalizing limit) e
            (λ s. timeline-Keeps s finalizing limit),
        repeat-Keeps n (λ s. copy_step s limit) e (λ s. copy-Keeps s limit),
        repeat-Keeps n (λ s. filter_step s finalizing limit cutoff) e
            (λ s. filter-Keeps s finalizing limit cutoff),
      )

  drain_step-Keeps : (e : Pv W) (bound : ℕ) → fixed (drain_step e bound).1 ≡ fixed e
  unfolding drain_step clear_slot emit_slot
  drain_step-Keeps e bound = ground (arith, resampler-Keeps e false)

  drain_loop-Keeps : (n : ℕ) (e : Pv W) (bound : ℕ) → fixed (drain_loop n e bound) ≡ fixed e
  unfolding drain_loop
  drain_loop-Keeps zero e bound = refl
  drain_loop-Keeps (suc n) e bound = elim (Bool-cases (drain_step e bound).0) [
    | inl more ↦
        rw (drain_loop, more)
          (drain_loop-Keeps n (drain_step e bound).1 bound ∙ drain_step-Keeps e bound)
    | inr stop ↦ rw (drain_loop, stop) (drain_step-Keeps e bound)
  ]

  pub drain-Keeps : (e : Pv W) (finalizing : Bool) → fixed (drain_safe finalizing e) ≡ fixed e
  unfolding drain_safe
  drain-Keeps e finalizing = drain_loop-Keeps _ e _
