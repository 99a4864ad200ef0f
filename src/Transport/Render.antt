-- ===== src/Transport/Render.antt =====
-- sdk/transport/transport.cpp: `be_transport_render`. The output is the function of the index of a sample.
use boiled_egg.Base.{
  ℕ, zero, suc, ◌+◌, ◌-◌, ◌*◌, ◌%◌, ◌^◌, min, Bool, true, false, not, ◌&&◌, ◌||◌, ◌==◌,
  if◌then◌else◌, ltb, leb, List, [], ◌∷◌, Option, none, some, take, ℤ, pos, pos_part, neg_part,
  ◌+ℤ◌, to_u64, u64,
}
use boiled_egg.Floating.{Floating, gt, ge, ne, min_of}
use boiled_egg.Transport.{
  Outcome, ok, invalid, unsupported, is_ok, ControlEvent, Ramp, Transport, value_at, capacity,
  set_ramp, tick,
}
use boiled_egg.Transport.Kernel.{taps, kernel, band, phase_of, tap_frame}
use boiled_egg.Transport.Frames.{frame}

module _ {W : Type 0} ⦃w : Floating W⦄ where
  -- The checks of one event, and of a batch whose last offset was `previous`.
  unfoldable pub check_event : Transport W → ℕ → ℕ → ControlEvent W → Outcome
  check_event t frames previous e =
      if ltb frames e.offset
        || ltb e.offset previous
        || ltb 2 e.parameter
        || not (e.reserved == 0)
        || not (w.is_finite e.value)
      then invalid
      else if e.parameter == 0 && (w.lt e.value (w.nat 0) || gt e.value (w.nat 4))
          || e.parameter == 1 && gt (w.abs e.value) (w.nat 24)
          || e.parameter == 2 && gt (w.abs e.value) (w.nat 12)
      then invalid
      else if e.parameter == 2 && t.cfg.formant_policy == 0 && ne e.value (w.nat 0)
      then unsupported
      else ok

  unfoldable pub check_events : Transport W → ℕ → ℕ → List (ControlEvent W) → Outcome
  check_events t frames previous [] = ok
  check_events t frames previous (e ∷ events) =
      let rest = check_events t frames e.offset events in
      let here = check_event t frames previous e in if is_ok here then rest else here

  -- `control[e.parameter].set(...)`
  unfoldable pub apply_event : Transport W → ControlEvent W → Transport W
  apply_event t e =
      let moved = λ (r : Ramp W). set_ramp r e.value e.ramp_frames in
      record t {
        speed = if e.parameter == 0 then moved t.speed else t.speed;
        pitch = if e.parameter == 1 then moved t.pitch else t.pitch;
        formant = if e.parameter == 2 then moved t.formant else t.formant;
      }

  -- The events at frame `i`, and the later ones.
  unfoldable pub apply_events :
      ℕ → Transport W → List (ControlEvent W) → Transport W × List (ControlEvent W)
  apply_events i t [] = (t, [])
  apply_events i t (e ∷ events) =
      let rest = apply_events i (apply_event t e) events in
      if e.offset == i then rest else (t, e ∷ events)

  -- The ticks of the controls, and the pitch of the output.
  unfoldable pub advance_controls : Transport W → Transport W
  advance_controls t =
      let pitch = tick t.pitch in
      let changed = ne t.output_pitch_value pitch.value in
      let ratio = w.exp2 (w.div pitch.value (w.nat 12)) in
      record t {
        speed = tick t.speed;
        pitch = pitch;
        formant = tick t.formant;
        output_pitch_value = if changed then pitch.value else t.output_pitch_value;
        output_pitch_ratio = if changed then ratio else t.output_pitch_ratio;
        output_pitch_band = if changed then band ratio else t.output_pitch_band;
      }

  -- `while (pv_ready <= last) frame()`; a frame completes a hop at least.
  unfoldable pub prepare : ℕ → ℕ → Transport W → Transport W
  prepare zero last t = t
  prepare (suc fuel) last t = if ltb last t.pv_ready then t else prepare fuel last (frame t)

  -- The last frame that sample reads.
  abbrev pub last_read : Transport W → ℕ
  last_read t = to_u64 (w.floor t.resample_position +ℤ pos 17)

  -- The sum over the taps: `n` of them from tap `j` on.
  unfoldable pub sum_output : ℕ → ℕ → Transport W → ℤ → ℕ → ℕ → W → W
  sum_output zero j t center phase ch total = total
  sum_output (suc n) j t center phase ch total =
      let at = tap_frame center j in
      let sample = value_at t.pv (pos_part at % capacity t * t.cfg.channels + ch) in
      let next =
        if neg_part at == 0
        then w.add total (w.mul sample (kernel t.output_pitch_band phase j))
        else total in
      sum_output n (j + 1) t center phase ch next

  unfoldable pub output_sample : Transport W → ℕ → W
  output_sample t ch =
      let center = w.floor t.resample_position in
      let fraction = w.sub t.resample_position (w.int center) in
      if w.eq t.output_pitch_ratio (w.nat 1) && w.eq fraction (w.nat 0)
      then value_at t.pv (to_u64 center % capacity t * t.cfg.channels + ch)
      else w.narrow (sum_output taps 0 t center (phase_of fraction) ch (w.nat 0))

  -- The frame of the output at frame `i`.
  abbrev pub write_output : Transport W → ℕ → (ℕ → W) → ℕ → W
  write_output t i y k =
      let first = i * t.cfg.channels in
      if leb first k && ltb k (first + t.cfg.channels) then output_sample t (k - first) else y k

  -- The positions in the output and in the source, with compensated sums; a speed of zero leaves the
  -- source where it is.
  unfoldable pub advance_positions : Transport W → Transport W
  advance_positions t =
      let increment = w.sub t.output_pitch_ratio t.resample_error in
      let next = w.add t.resample_position increment in
      let rate = w.div (w.mul t.speed.value (w.nat t.cfg.source_rate)) (w.nat t.cfg.output_rate) in
      let forward = w.sub rate t.source_error in
      let reached = w.add t.position forward in
      let end = w.nat t.frames in
      let clipped = min_of end reached in
      let moves = gt t.speed.value (w.nat 0) in
      let error = w.sub (w.sub reached t.position) forward in
      record t {
        resample_error = w.sub (w.sub next t.resample_position) increment;
        resample_position = next;
        source_error =
            if not moves then t.source_error else if w.eq clipped end then w.nat 0 else error;
        position = if moves then clipped else t.position;
      }

  unfoldable pub advance_clock : Transport W → Transport W
  advance_clock t = record t {
    tail = if ge t.position (w.nat t.frames) then min (t.tail + 1) (4 * t.n + 32) else 0;
    clock = u64 (t.clock + 1);
  }

  -- One sample of each channel.
  abbrev pub prepared : Transport W → Transport W
  prepared t = let u = advance_controls t in prepare (last_read u + 1) (last_read u) u

  abbrev pub step : Transport W → Transport W
  step t = advance_clock (advance_positions (prepared t))

  -- The loop: `n` frames from frame `i` on.
  unfoldable pub render_loop :
      ℕ → ℕ → Transport W → List (ControlEvent W) → (ℕ → W) → (ℕ → W) × Transport W
  render_loop zero i t events y = (y, (apply_events i t events).0)
  render_loop (suc n) i t events y =
      let (begun, later) = apply_events i t events in
      render_loop n (i + 1) (step begun) later (write_output (prepared begun) i y)

  -- `none` for the output or the events is a null pointer; the handle is not null.
  unfoldable pub render :
      Transport W
      → Option (ℕ → W)
      → ℕ
      → Option (List (ControlEvent W))
      → ℕ
      → Outcome × Option (ℕ → W) × Transport W
  render t output frames input count =
      let no_output : Bool = elim output [ none ↦ true | some y ↦ false ] in
      let no_events : Bool = elim input [ none ↦ true | some events ↦ false ] in
      let events : List (ControlEvent W) = elim input [
        | none ↦ []
        | some events ↦ take count events
      ] in
      let y : ℕ → W = elim output [ none ↦ (λ k. w.nat 0) | some y ↦ y ] in
      let checked = check_events t frames 0 events in
      let (written, rendered) = render_loop frames 0 t events y in
      if ltb t.cfg.max_block_frames frames
        || not (frames == 0) && no_output
        || ltb 4096 count
        || not (count == 0) && no_events
        || ltb (2 ^ 64 - 1 - frames - 4 * t.n - 32) t.clock
      then (invalid, output, t)
      else if not (is_ok checked)
      then (checked, output, t)
      else (ok, (if no_output then none else some written), rendered)
