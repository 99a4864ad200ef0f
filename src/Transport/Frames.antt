-- ===== src/Transport/Frames.antt =====
-- sdk/transport/transport.cpp: `time_frame`, the grain of the time-domain modes, and `frame`.
use boiled_egg.Base.{
  ℕ, zero, suc, ◌+◌, ◌-◌, ◌*◌, ◌/◌, ◌%◌, ◌^◌, true, not, ◌&&◌, ◌==◌, if◌then◌else◌, leb, List, set,
  u64, ℤ, pos, negsuc, ◌+ℤ◌,
}
use boiled_egg.Floating.{Floating, flit, fadd, fmul, gt, min_of, clamp}
use boiled_egg.Transport.{Transport, value_at, hop, capacity, pv_transient, time_efficient}
use boiled_egg.Transport.Kernel.{band, read}
use boiled_egg.Transport.Spectrum.{window_offset, spectral_frame}

module _ {W : Type 0} ⦃w : Floating W⦄ where
  -- The sums of `score`: `cross`, `a2` and `b2` over the channels of sample `j`, `n` of them from
  -- channel `ch` on.
  unfoldable pub score_channels : ℕ → ℕ → Transport W → W → W → ℕ → W × W × W → W × W × W
  score_channels zero ch t center step j sums = sums
  score_channels (suc n) ch t center step j (cross, a2, b2) =
      let a = value_at t.previous_grain ((j + hop t) * t.cfg.channels + ch) in
      let b = read t (w.add center (window_offset t.n j step)) ch step in
      score_channels n (ch + 1) t center step j
        (w.add cross (w.mul a b), w.add a2 (w.mul a a), w.add b2 (w.mul b b))

  -- `n` samples from sample `j` on, `stride` apart.
  unfoldable pub score_samples : ℕ → ℕ → ℕ → Transport W → W → W → W × W × W → W × W × W
  score_samples zero j stride t center step sums = sums
  score_samples (suc n) j stride t center step sums =
      score_samples n (j + stride) stride t center step
        (score_channels t.cfg.channels 0 t center step j sums)

  -- `score` and `local_score`: the samples are `stride` apart.
  unfoldable pub score : ℕ → Transport W → W → W → W
  score stride t step center =
      let tiny = w.lit 1 (10 ^ 20) in
      let (cross, a2, b2) =
        score_samples ((t.n - hop t + stride - 1) / stride) 0 stride t center step
          (w.nat 0, tiny, tiny) in
      w.div cross (w.sqrt (w.mul a2 b2))

  -- `best` and `selected` after the candidate `at`.
  abbrev better : W → W → W × W → W × W
  better at s (best, selected) =
      if gt s (w.add best (w.lit 1 (10 ^ 10))) then (s, at) else (best, selected)

  -- The coarse search: `n` offsets from `offset` on.
  unfoldable pub coarse_search : ℕ → ℤ → ℕ → Transport W → W → W × W → W × W
  coarse_search zero offset stride t step found = found
  coarse_search (suc n) offset stride t step found =
      let at = w.add t.position (w.mul (w.int offset) step) in
      coarse_search n (offset +ℤ pos stride) stride t step
        (better at (score stride t step at) found)

  -- The fine search around `coarse`, within the radius: `n` offsets from `offset` on.
  unfoldable pub fine_search : ℕ → ℤ → ℕ → Transport W → W → W → W × W → W × W
  fine_search zero offset stride t step coarse found = found
  fine_search (suc n) offset stride t step coarse found =
      let at = w.add coarse (w.mul (w.int offset) step) in
      let beyond = gt (w.abs (w.sub at t.position)) (w.mul (w.nat t.n) step) in
      fine_search n (offset +ℤ pos 1) stride t step coarse
        (if beyond then found else better at (score stride t step at) found)

  -- The peak between samples.
  unfoldable pub refine : Transport W → W → W → W
  refine t step selected =
      let local = score 8 t step in
      let a = local (w.sub selected step) in
      let b = local selected in
      let c = local (w.add selected step) in
      let denominator = w.add (w.sub a (w.mul (w.nat 2) b)) c in
      let offset =
        clamp (w.div (w.mul (w.lit 5 10) (w.sub a c)) denominator) (w.neg (w.nat 1)) (w.nat 1) in
      let reach = w.mul (w.nat t.n) step in
      let refined =
        clamp (w.add selected (w.mul offset step)) (w.sub t.position reach)
          (w.add t.position reach) in
      if w.lt denominator (w.neg (w.lit 1 (10 ^ 12))) && gt (local refined) b
      then refined
      else selected

  -- The source frame that the grain is taken around.
  unfoldable pub select : Transport W → W → W
  select t step =
      let stride = if t.cfg.mode == time_efficient then 32 else 16 in
      let expected = w.add t.selected_center (w.mul (w.nat (hop t)) step) in
      let near = w.le (w.abs (w.sub expected t.position)) (w.mul (w.nat t.n) step) in
      let first =
        if near then (score stride t step expected, expected) else (w.neg (w.nat 2), t.position) in
      let coarse = coarse_search (2 * t.n / stride + 1) (negsuc (t.n - 1)) stride t step first in
      let fine = fine_search (2 * stride - 1) (negsuc (stride - 2)) stride t step coarse.1 coarse in
      if t.initialized then refine t step fine.1 else t.position

  -- The channels of sample `j` of a grain: `previous_grain` and `ola`, `n` channels from `ch` on.
  unfoldable pub grain_channels :
      ℕ → ℕ → Transport W → W → W → ℕ → List W × List W → List W × List W
  grain_channels zero ch t selected step j lists = lists
  grain_channels (suc n) ch t selected step j (grain, ola) =
      let sample = read t (w.add selected (window_offset t.n j step)) ch step in
      let at = u64 (t.frame_clock + j) % capacity t * t.cfg.channels + ch in
      let weight = value_at t.window j in
      grain_channels n (ch + 1) t selected step j (
        set grain (j * t.cfg.channels + ch) sample,
        set ola at (fadd (value_at ola at) (fmul (fmul sample weight) weight)),
      )

  unfoldable pub grain_samples : ℕ → ℕ → Transport W → W → W → List W × List W → List W × List W
  grain_samples zero j t selected step lists = lists
  grain_samples (suc n) j t selected step lists =
      grain_samples n (j + 1) t selected step
        (grain_channels t.cfg.channels 0 t selected step j lists)

  unfoldable pub time_frame : Transport W → W → Transport W
  time_frame t step =
      let selected = select t step in
      let (grain, ola) = grain_samples t.n 0 t selected step (t.previous_grain, t.ola) in
      record t {
        previous_grain = grain;
        ola = ola;
        selected_center = selected;
        anchor = t.position;
        analysis_count = u64 (t.analysis_count + 1);
      }

  -- The weights of a window: `n` samples from sample `j` on.
  unfoldable pub add_weights : ℕ → ℕ → Transport W → List W → List W
  add_weights zero j t xs = xs
  add_weights (suc n) j t xs =
      let slot = u64 (t.frame_clock + j) % capacity t in
      let weight = fmul (value_at t.window j) (value_at t.window j) in
      add_weights n (j + 1) t (set xs slot (fadd (value_at xs slot) weight))

  -- The channels of a slot that is complete: `pv` and `ola`.
  unfoldable pub emit_channels : ℕ → ℕ → ℕ → ℕ → W → List W × List W → List W × List W
  emit_channels zero ch channels slot norm lists = lists
  emit_channels (suc n) ch channels slot norm (pv, ola) =
      let at = slot * channels + ch in
      emit_channels n (ch + 1) channels slot norm
        (set pv at (fmul (value_at ola at) norm), set ola at (w.nat 0))

  -- The hop that is complete: `pv`, `ola` and `weights`, `n` samples from sample `j` on.
  unfoldable pub emit_hop :
      ℕ → ℕ → Transport W → List W × List W × List W → List W × List W × List W
  emit_hop zero j t lists = lists
  emit_hop (suc n) j t (pv, ola, weights) =
      let slot = u64 (t.frame_clock + j) % capacity t in
      let startup = min_of (w.nat 1) (w.div (w.nat (u64 (t.frame_clock + j))) (w.nat t.n)) in
      let weight = value_at weights slot in
      let norm = if gt weight (flit 1 (10 ^ 8)) then w.narrow (w.div startup weight) else w.nat 0 in
      let (pv', ola') = emit_channels t.cfg.channels 0 t.cfg.channels slot norm (pv, ola) in
      emit_hop n (j + 1) t (pv', ola', set weights slot (w.nat 0))

  -- The grain of a frame, up to the end of the file.
  unfoldable pub add_frame : Transport W → Transport W
  add_frame t =
      let pitch = w.exp2 (w.div t.pitch.value (w.nat 12)) in
      let step = w.div (w.nat t.cfg.source_rate) (w.nat t.cfg.output_rate) in
      let banded = record t { kernel_band = band step } in
      if not (w.lt t.position (w.nat t.frames))
      then banded
      else if leb t.cfg.mode pv_transient
      then spectral_frame banded pitch step
      else time_frame banded step

  -- The hop that a frame completes.
  unfoldable pub emit_frame : Transport W → Transport W
  emit_frame t =
      let (pv, ola, weights) = emit_hop (hop t) 0 t (t.pv, t.ola, add_weights t.n 0 t t.weights) in
      record t {
        pv = pv;
        ola = ola;
        weights = weights;
        initialized = true;
        synth_count = u64 (t.synth_count + 1);
        frame_clock = u64 (t.frame_clock + hop t);
        pv_ready = u64 (t.frame_clock + hop t);
      }

  abbrev pub frame : Transport W → Transport W
  frame t = emit_frame (add_frame t)
