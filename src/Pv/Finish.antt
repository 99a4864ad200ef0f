-- ===== src/Pv/Finish.antt =====
-- src/experimental/pv/pv_rt.cpp: an engine that a flush has finished.
use boiled_egg.Base.{
  ℕ, zero, suc, ◌+◌, ◌-◌, ◌*◌, ◌^◌, min, ◌≡◌, refl, ap, ◌∙◌, ◌≤◌, Bool, true, false, not, ◌&&◌,
  ◌||◌, ◌==◌, ltb, leb, inl, inr, Bool-cases, arith, Option, some, none, Option-cases, u64,
}
use boiled_egg.Abi.{Planar, present}
use boiled_egg.Floating.{Floating, flit, fsub, min_of}
use boiled_egg.Pv.{Pv, enabled, ring_index, round_u64}
use boiled_egg.Pv.Resample.{
  process_resampler, repeat, copy_step, filter_step, timeline_step, output_limit, cutoff_index,
}
use boiled_egg.Pv.Drain.{drain_safe}
use boiled_egg.Pv.Keeps.{resampler-Keeps, drain-Keeps}
use boiled_egg.Pv.Config.{PvResult}
use boiled_egg.Pv.Keeps.Frames.{flush_loop-Keeps}
use boiled_egg.Pv.Stream.{flush_loop}
use boiled_egg.Pv.Stream

module _ {W : Type 0} ⦃w : Floating W⦄ where
  -- An engine that a flush has finished: all targets are met.
  pub record Finished (e : Pv W) : Type 0 where
    pub flushed : e.flushed ≡ true
    pub pv_met : e.pv_emitted_frames ≡ e.target_pv_frames
    pub output_met : e.emitted_frames ≡ e.target_output_frames

  repeat_stop :
      (n : ℕ) (round : Pv W → Bool × Pv W) (e : Pv W) → round e ≡ (false, e) → repeat n round e ≡ e
  unfolding repeat
  repeat_stop zero round e stop = refl
  repeat_stop (suc n) round e stop = rw (repeat, stop) (ap (λ p. p.1) stop)

  copy_stop : (e : Pv W) (limit : ℕ) → limit ≤ e.emitted_frames → copy_step e limit ≡ (false, e)
  unfolding copy_step
  copy_stop e limit met =
      let done : (ltb e.pv_start e.pv_write
            && ltb e.emitted_frames limit
            && ltb e.fifo_count e.settings.fifo_capacity)
          ≡ false =
        ground (arith, met) in
      rw done refl

  filter_stop :
      (e : Pv W) (finalizing : Bool) (limit cutoff : ℕ)
      → limit ≤ e.emitted_frames
      → filter_step e finalizing limit cutoff ≡ (false, e)
  unfolding filter_step
  filter_stop e finalizing limit cutoff met =
      let done : (ltb e.emitted_frames limit && ltb e.fifo_count e.settings.fifo_capacity) ≡ false =
        ground (arith, met) in
      rw done refl

  timeline_stop :
      (e : Pv W) (finalizing : Bool) (limit : ℕ)
      → limit ≤ e.emitted_frames
      → timeline_step e finalizing limit ≡ (false, e)
  unfolding timeline_step
  timeline_stop e finalizing limit met =
      let done : (ltb e.emitted_frames limit && ltb e.fifo_count e.settings.fifo_capacity) ≡ false =
        ground (arith, met) in
      rw done refl

  -- With the target met, the resampler has nothing to do.
  resampler_idle :
      (e : Pv W) → e.emitted_frames ≡ e.target_output_frames → process_resampler true e ≡ e
  unfolding process_resampler output_limit
  resampler_idle e met =
      let reached : e.target_output_frames ≤ e.emitted_frames = omega (arith, met) in
      let limit = e.target_output_frames in
      let cutoff =
        cutoff_index (w.mul (w.lit 94 100) (min_of (w.nat 1) (w.div (w.nat 1) e.pitch_ratio))) in
      elim (Bool-cases (leb e.settings.fifo_capacity e.fifo_count)) [
        | inl full ↦ rw full refl
        | inr room ↦ elim (Bool-cases (enabled e)) [
          | inl lined ↦ rw (room, lined) (repeat_stop _ _ e (timeline_stop e true limit reached))
          | inr plain ↦
              elim (Bool-cases (w.lt (w.abs (fsub e.pitch_ratio (flit 1 1))) (flit 1 (10 ^ 7)))) [
                | inl one ↦ rw (room, plain, one) (repeat_stop _ _ e (copy_stop e limit reached))
                | inr other ↦
                    rw (room, plain, other)
                      (repeat_stop _ _ e (filter_stop e true limit cutoff reached))
              ]
        ]
      ]

  refill_idle : (e : Pv W) → Finished e → Stream.refill e ≡ e
  refill_idle e done =
      let last : (e.flushed && e.pv_emitted_frames == e.target_pv_frames) ≡ true =
        ground (arith, done.flushed, done.pv_met) in
      rw last (resampler_idle e done.output_met)

  -- A pull of a finished engine takes frames from the FIFO and does nothing else.
  unfoldable pub taken : Pv W → ℕ → Pv W
  taken e count = record e {
    fifo_read = ring_index (e.fifo_read + count) e.settings.fifo_capacity;
    fifo_count = e.fifo_count - count;
  }

  pub taken-Finished : (e : Pv W) (count : ℕ) → Finished e → Finished (taken e count)
  unfolding taken
  taken-Finished e count done = record {
    flushed = done.flushed;
    pv_met = done.pv_met;
    output_met = done.output_met;
  }

  pub pull-Finished :
      (e : Pv W) (y : Planar W) (n : ℕ)
      → Finished e
      → present e.settings.channels y ≡ true
      → ((Stream.pull e y n).0 ≡ min n e.fifo_count)
        × ((Stream.pull e y n).2 ≡ taken e (min n e.fifo_count))
  unfolding Stream.pull taken
  pull-Finished e y n done there =
      let idle = refill_idle e done in
      let count = min n e.fifo_count in
      let open_pointers : (not (n == 0) && not (present e.settings.channels y)) ≡ false =
        ground (arith, there) in
      let after = refill_idle (taken e count) (taken-Finished e count done) in
      rw (open_pointers, idle) (refl, after)

  pub finish-Finished :
      (e : Pv W)
      → e.flushed ≡ true
      → Stream.is_ok (Stream.finish_flush e).0 ≡ true
      → Finished (Stream.finish_flush e).1
  unfolding Stream.finish_flush
  finish-Finished e flushed good =
      let kept =
        ap (λ p. p.0) (resampler-Keeps (drain_safe true e) true ∙ drain-Keeps e true) ∙ flushed in
      let done = process_resampler true (drain_safe true e) in
      let met : (done.pv_emitted_frames == done.target_pv_frames
            && done.emitted_frames == done.target_output_frames)
          ≡ true =
        ground (arith, good) in
      rw met
        (record { flushed = kept; pv_met = ground (arith, met); output_met = ground (arith, met) })

  finish-settings : (e : Pv W) → (Stream.finish_flush e).1.settings ≡ e.settings
  unfolding Stream.finish_flush
  finish-settings e =
      let done = process_resampler true (drain_safe true e) in
      let kept : done.settings ≡ e.settings =
        ap (λ p. p.1) (resampler-Keeps (drain_safe true e) true ∙ drain-Keeps e true) in
      elim (Bool-cases (
        done.pv_emitted_frames == done.target_pv_frames
        && done.emitted_frames == done.target_output_frames)) [
          | inl met ↦ rw met kept
          | inr short ↦ rw short kept
        ]

  round_error :
      (e : Pv W) (r : PvResult) → (Stream.flush_round e).0 ≡ some r → Stream.is_ok r ≡ false
  unfolding Stream.flush_round
  round_error e r stopped = grind (arith, stopped)

  loop_error :
      (n : ℕ) (e : Pv W) (target : ℕ) (r : PvResult)
      → (Stream.flush_loop n e target).0 ≡ some r
      → Stream.is_ok r ≡ false
  unfolding Stream.flush_loop
  loop_error zero e target r stopped = absurd cc
  loop_error (suc n) e target r stopped =
      let next = (Stream.flush_round e).1 in
      let going = ltb e.latest_safe_position target || ltb e.pv_emitted_frames e.target_pv_frames in
      elim (Bool-cases going) [
        | inr met ↦
            absurd (let no : Path (Option PvResult) none (some r) = rw met at stopped in cc no)
        | inl more ↦ elim (Option-cases (Stream.flush_round e).0) [
          | inl on ↦ loop_error n next target r (rw (more, on) at stopped)
          | inr (q, halted) ↦
              let same : Path (Option PvResult) (some q) (some r) = rw (more, halted) at stopped in
              round_error e r (halted ∙ same)
        ]
      ]

  -- A flush that succeeds leaves a finished engine with the settings of before.
  pub flush-Finished :
      (e : Pv W)
      → Stream.is_ok (Stream.flush e).0 ≡ true
      → Finished (Stream.flush e).1 × ((Stream.flush e).1.settings ≡ e.settings)
  unfolding Stream.flush
  flush-Finished e good =
      let target = round_u64 e.expected_pv_frames in
      let begun = record e {
        flushed = true;
        target_pv_frames = target;
        target_output_frames = round_u64 e.expected_output_frames;
      } in
      let limit = u64 (e.settings.n_fft * 96 + target * 2 + 131072) in
      let lines = u64 (e.startup_crop + target) in
      let (stopped, done) = flush_loop limit begun lines in
      elim (Bool-cases e.flushed) [
        | inl again ↦ absurd (let no : false ≡ true = rw again at good in cc no)
        | inr first ↦ elim (Option-cases stopped) [
          | inr (r, halted) ↦
              let bad = loop_error limit begun lines r halted in
              let yes : Stream.is_ok r ≡ true = rw (first, halted) at good in absurd (cc (bad, yes))
          | inl none_stopped ↦
              let kept = flush_loop-Keeps limit begun lines in
              let finished =
                finish-Finished done (ap (λ p. p.0) kept) (rw (first, none_stopped) at good) in
              rw (first, none_stopped) (finished, finish-settings done ∙ ap (λ p. p.1) kept)
        ]
      ]
