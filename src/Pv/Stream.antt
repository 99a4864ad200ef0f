-- ===== src/Pv/Stream.antt =====
-- src/experimental/pv/pv_rt.cpp: the streaming operations of the phase vocoder and its ratio setters.
use boiled_egg.Base.{
  ℕ, zero, suc, ◌+◌, ◌-◌, ◌*◌, ◌^◌, min, Bool, true, false, not, ◌&&◌, ◌||◌, ◌==◌, if◌then◌else◌,
  ltb, leb, Option, none, some, get_or, u32, u64, sub64,
}
use boiled_egg.Abi.{Planar, present, read_pointers}
use boiled_egg.Floating.{Floating, flit, gt, ne}
use boiled_egg.Timeline
use boiled_egg.Pv.{
  Pv, ring_index, enabled, internal_stretch, update_startup_crop, round_u64, centered,
}
use boiled_egg.Pv.Config.{
  PvResult, ok, invalid_argument, fifo_overflow, already_flushed, internal_error, finite_ratio,
  ratio_valid, formant_off,
}
use boiled_egg.Pv.Frame.{process_frame}
use boiled_egg.Pv.Resample.{store_frame, process_resampler}
use boiled_egg.Pv.Drain.{drain_safe}

abbrev pub is_ok : PvResult → Bool
is_ok PvResult.ok = true
is_ok _ = false

module _ {W : Type 0} ⦃w : Floating W⦄ where
  unfoldable pub full_analysis_frame : Pv W → Bool
  full_analysis_frame e = leb (u64 (e.analysis_start + e.settings.n_fft)) e.input_write

  -- `ensure_input_space`: the result and the engine. Each frame takes a hop, so the frames of input
  -- are fuel enough.
  unfoldable pub ensure_loop : ℕ → Pv W → Bool × Pv W
  ensure_loop zero e = (true, e)
  ensure_loop (suc fuel) e =
      if ltb (sub64 e.input_write e.analysis_start) (e.settings.input_capacity - 1)
      then (true, e)
      else elim (full_analysis_frame e) [
        | false ↦ (false, e)
        | true ↦ ensure_loop fuel (process_frame e)
      ]

  abbrev pub ensure_input_space : Pv W → Bool × Pv W
  ensure_input_space e = ensure_loop (sub64 e.input_write e.analysis_start + 1) e

  unfoldable pub available_loop : ℕ → Pv W → Pv W
  available_loop zero e = e
  available_loop (suc fuel) e = elim (full_analysis_frame e) [
    | false ↦ e
    | true ↦ available_loop fuel (process_frame e)
  ]

  abbrev pub process_available : Pv W → Pv W
  process_available e = available_loop (sub64 e.input_write e.analysis_start + 1) e

  unfoldable pub append_timeline : Pv W → Bool × Pv W
  append_timeline e =
      let output_input =
        if e.variable_time
        then e.output_source_index
        else w.to_ℕ (w.div (w.nat e.emitted_frames) e.time_ratio) in
      if Timeline.can_append e.timeline (min e.analysis_start output_input)
      then (
        true,
        record e {
          timeline =
              Timeline.append e.timeline e.formant_ratio
                (not e.flushed || not e.explicit_automation);
        },
      )
      else (false, e)

  -- A frame of input at the write position.
  unfoldable pub write_input : Pv W → (ℕ → W) → Pv W
  write_input e values = record e {
    input =
        store_frame e.settings.channels 0 e.settings.input_capacity
          (ring_index e.input_write e.settings.input_capacity) values e.input;
    input_write = u64 (e.input_write + 1);
  }

  -- The clocks of a frame of input: whether the timeline took it.
  unfoldable pub advance_clocks : Pv W → Bool × Pv W
  advance_clocks e =
      let counted = record e {
        real_input_frames = u64 (e.real_input_frames + 1);
        expected_output_frames = w.add e.expected_output_frames e.time_ratio;
      } in
      let (appended, lined) = append_timeline counted in
      if enabled e
      then (if appended
          then (
            true,
            record lined {
              expected_pv_frames = lined.timeline.position;
              expected_output_frames = lined.timeline.output;
            },
          )
          else (false, counted))
      else (
        true,
        record counted {
          expected_pv_frames = w.add counted.expected_pv_frames (internal_stretch e);
        },
      )

  abbrev pub run_pipeline : Bool → Pv W → Pv W
  run_pipeline finalizing e = process_resampler false (drain_safe finalizing (process_available e))

  -- A round of `push`: `ok` goes on.
  unfoldable pub push_sample : Pv W → (ℕ → W) → PvResult × Pv W
  push_sample e values =
      let (space, made) = ensure_input_space e in
      let (clocked, advanced) = advance_clocks (write_input made values) in
      let done = run_pipeline false advanced in
      if not space
      then (internal_error, made)
      else if not clocked
      then (internal_error, advanced)
      else if leb done.settings.fifo_capacity done.fifo_count
      then (fifo_overflow, done)
      else (ok, done)

  unfoldable pub push_samples : ℕ → ℕ → Pv W → (ℕ → ℕ → W) → PvResult × Pv W
  push_samples zero i e input = (ok, run_pipeline false e)
  push_samples (suc n) i e input =
      let (result, next) = push_sample e (λ ch. input ch i) in
      let rest = push_samples n (i + 1) next input in if is_ok result then rest else (result, next)

  unfoldable pub push : Pv W → Planar W → ℕ → PvResult × Pv W
  push e input frames =
      if e.flushed
      then (already_flushed, e)
      else if ltb e.settings.max_block frames
          || not (frames == 0) && not (present e.settings.channels input)
      then (invalid_argument, e)
      else push_samples frames 0 e (read_pointers (w.nat 0) input)

  -- A round of `flush`: a frame of silence. `none` goes on.
  unfoldable pub flush_round : Pv W → Option PvResult × Pv W
  flush_round e =
      let (space, made) = ensure_input_space e in
      let written = write_input made (λ ch. w.nat 0) in
      let (appended, lined) = append_timeline written in
      let done = run_pipeline true (if enabled e then lined else written) in
      if not space
      then (some internal_error, made)
      else if enabled e && not appended
      then (some internal_error, written)
      else if leb done.settings.fifo_capacity done.fifo_count
          && ltb done.emitted_frames done.target_output_frames
      then (some fifo_overflow, done)
      else (none, done)

  -- The loop, with `guard_limit` as its fuel.
  unfoldable pub flush_loop : ℕ → Pv W → ℕ → Option PvResult × Pv W
  flush_loop zero e timeline_target = (none, e)
  flush_loop (suc fuel) e timeline_target =
      let (stopped, next) = flush_round e in
      if ltb e.latest_safe_position timeline_target || ltb e.pv_emitted_frames e.target_pv_frames
      then elim stopped [
        | some result ↦ (some result, next)
        | none ↦ flush_loop fuel next timeline_target
      ]
      else (none, e)

  -- The end of `flush`: the result is `ok` exactly if both targets are met.
  unfoldable pub finish_flush : Pv W → PvResult × Pv W
  finish_flush e =
      let done = process_resampler true (drain_safe true e) in
      if done.pv_emitted_frames == done.target_pv_frames
        && done.emitted_frames == done.target_output_frames
      then (ok, done)
      else (internal_error, done)

  unfoldable pub flush : Pv W → PvResult × Pv W
  flush e =
      let target_pv = round_u64 e.expected_pv_frames in
      let begun = record e {
        flushed = true;
        target_pv_frames = target_pv;
        target_output_frames = round_u64 e.expected_output_frames;
      } in
      let guard_limit = u64 (e.settings.n_fft * 96 + target_pv * 2 + 131072) in
      let (stopped, done) = flush_loop guard_limit begun (u64 (e.startup_crop + target_pv)) in
      if e.flushed
      then (already_flushed, e)
      else elim stopped [ some result ↦ (result, done) | none ↦ finish_flush done ]

  -- `process_resampler(flushed_ && pv_emitted_frames_ == target_pv_frames_)`
  abbrev pub refill : Pv W → Pv W
  refill e = process_resampler (e.flushed && e.pv_emitted_frames == e.target_pv_frames) e

  -- The frames that are taken from the FIFO: channel `ch`, frame `i`.
  unfoldable pub fifo_frame : Pv W → ℕ → ℕ → W
  fifo_frame e ch i =
      let capacity = e.settings.fifo_capacity in
      get_or e.fifo (ch * capacity + ring_index (e.fifo_read + i) capacity) (w.nat 0)

  -- The frames produced, the destination after the call, and the engine.
  unfoldable pub pull : Pv W → Planar W → ℕ → ℕ × (ℕ → ℕ → W) × Pv W
  pull e output capacity =
      let before = read_pointers (w.nat 0) output in
      let filled = refill e in
      let count = min capacity filled.fifo_count in
      let taken = record filled {
        fifo_read = ring_index (filled.fifo_read + count) filled.settings.fifo_capacity;
        fifo_count = filled.fifo_count - count;
      } in
      if not (capacity == 0) && not (present e.settings.channels output) then (0, before, e) else (
        count,
        λ ch i.
            if ltb ch e.settings.channels && ltb i count
            then fifo_frame filled ch i
            else before ch i,
        refill taken,
      )

  abbrev pub available : Pv W → ℕ
  available e = min e.fifo_count (2 ^ 32 - 1)

  unfoldable pub latency : Pv W → ℕ
  latency e =
      let s = e.settings in
      let base =
        if s.timing_policy == centered then 9 * s.n_fft + s.analysis_hop + 16 * 20 else s.n_fft in
      u32 (base + s.max_block + 20 + 2)

  -- The end of the two ratio setters, where the crop may change.
  abbrev settle : Pv W → Pv W
  settle e = process_resampler false (drain_safe false (update_startup_crop e))

  unfoldable pub set_time_ratio : Pv W → W → PvResult × Pv W
  set_time_ratio e v =
      if e.flushed
      then (already_flushed, e)
      else if not (finite_ratio v)
      then (invalid_argument, e)
      else if enabled e && ne v e.time_ratio
      then (invalid_argument, e)
      else (ok, settle (record e { time_ratio = v }))

  unfoldable pub set_pitch_ratio : Pv W → W → PvResult × Pv W
  set_pitch_ratio e v =
      if e.flushed
      then (already_flushed, e)
      else if not (finite_ratio v)
      then (invalid_argument, e)
      else if enabled e
      then (if w.lt v (flit 5 10) || gt v (flit 2 1) || gt (w.mul e.time_ratio v) (w.nat 2)
          then (invalid_argument, e)
          else (ok, record e { pitch_ratio = v; timeline = Timeline.target e.timeline v }))
      else (ok, settle (record e { pitch_ratio = v }))

  unfoldable pub set_formant_ratio : Pv W → W → PvResult × Pv W
  set_formant_ratio e v =
      let smoothed = if e.initialized then e.spectrum.smoothed_formant_ratio else v in
      if e.flushed
      then (already_flushed, e)
      else if not (ratio_valid v) || e.settings.formant_mode == formant_off && ne v (flit 1 1)
      then (invalid_argument, e)
      else (
        ok,
        record e {
          formant_ratio = v;
          spectrum = record e.spectrum { smoothed_formant_ratio = smoothed };
        },
      )
