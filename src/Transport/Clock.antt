-- ===== src/Transport/Clock.antt =====
-- sdk/transport/transport.cpp: what a render does to the clock, to the position in the source and to the
-- frames that are ready.
use boiled_egg.Base.{
  ℕ, zero, suc, ◌+◌, ◌-◌, ◌*◌, ◌/◌, ◌^◌, ◌<◌, ◌≤◌, ◌≡◌, refl, sym, ap, ◌∙◌, inl, inr, Bool, true,
  false, not, ◌&&◌, ◌||◌, ◌==◌, ltb, leb, Bool-cases, List, [], ◌∷◌, Option, none, some, take, u64,
  arith,
}
use boiled_egg.Floating.{Floating}
use boiled_egg.Transport.{is_ok, ControlEvent, Ramp, Transport, hop, pv_transient}
use boiled_egg.Transport.Spectrum.{refreshed, rotated, spectral_frame}
use boiled_egg.Transport.Frames.{time_frame, add_frame, emit_frame, frame}
use boiled_egg.Transport.Render.{
  check_events, apply_event, apply_events, advance_controls, prepare, last_read, advance_positions,
  advance_clock, prepared, step, write_output, render_loop, render,
}

module _ {W : Type 0} where
  -- What a synthesis frame leaves alone: the clock, the source position and its error, the size of the
  -- file, the window and the speed.
  abbrev pub kept : Transport W → ℕ × W × W × ℕ × ℕ × Ramp W
  kept t = (t.clock, t.position, t.source_error, t.frames, t.n, t.speed)

  abbrev pub counted : Transport W → ℕ × W × W × ℕ
  counted t = (t.clock, t.position, t.source_error, t.frames)

  abbrev ready : Transport W → ℕ × ℕ × ℕ
  ready t = (t.pv_ready, t.frame_clock, t.n)

module _ {W : Type 0} ⦃w : Floating W⦄ where
  spectral-kept : (t : Transport W) (pitch step : W) → kept (spectral_frame t pitch step) ≡ kept t
  unfolding spectral_frame refreshed rotated
  spectral-kept t pitch step = refl

  time-kept : (t : Transport W) (step : W) → kept (time_frame t step) ≡ kept t
  unfolding time_frame
  time-kept t step = refl

  frame-kept : (t : Transport W) → kept (frame t) ≡ kept t
  unfolding add_frame emit_frame
  frame-kept t = elim (Bool-cases (w.lt t.position (w.nat t.frames))) [
    | inr after ↦ rw after refl
    | inl within ↦ elim (Bool-cases (leb t.cfg.mode pv_transient)) [
      | inl spectral ↦ rw (within, spectral) (spectral-kept _ _ _)
      | inr grain ↦ rw (within, grain) (time-kept _ _)
    ]
  ]

  prepare-kept : (fuel last : ℕ) (t : Transport W) → kept (prepare fuel last t) ≡ kept t
  unfolding prepare
  prepare-kept zero last t = refl
  prepare-kept (suc fuel) last t = elim (Bool-cases (ltb last t.pv_ready)) [
    | inl done ↦ rw done refl
    | inr more ↦ rw more (prepare-kept fuel last (frame t) ∙ frame-kept t)
  ]

  pub prepared-kept : (t : Transport W) → kept (prepared t) ≡ kept (advance_controls t)
  prepared-kept t =
      prepare-kept (last_read (advance_controls t) + 1) (last_read (advance_controls t))
        (advance_controls t)

  add_frame-ready : (t : Transport W) → ready (add_frame t) ≡ ready t
  unfolding add_frame spectral_frame refreshed rotated time_frame
  add_frame-ready t = elim (Bool-cases (w.lt t.position (w.nat t.frames))) [
    | inr after ↦ rw after refl
    | inl within ↦ elim (Bool-cases (leb t.cfg.mode pv_transient)) [
      | inl spectral ↦ rw (within, spectral) refl
      | inr grain ↦ rw (within, grain) refl
    ]
  ]

  frame-ready :
      (t : Transport W)
      → ready (frame t) ≡ (u64 (t.frame_clock + hop t), u64 (t.frame_clock + hop t), t.n)
  unfolding emit_frame
  frame-ready t =
      ap (λ (r : ℕ × ℕ × ℕ). (u64 (r.1 + r.2 / 4), u64 (r.1 + r.2 / 4), r.2)) (add_frame-ready t)

  prepare_within :
      (fuel last : ℕ) (t : Transport W)
      → t.pv_ready ≡ t.frame_clock
      → 4 ≤ t.n
      → last + hop t < 2 ^ 64
      → last < fuel + t.pv_ready
      → ltb last (prepare fuel last t).pv_ready ≡ true
  unfolding prepare
  prepare_within zero last t same wide small enough = ground (arith, enough)
  prepare_within (suc fuel) last t same wide small enough =
      elim (Bool-cases (ltb last t.pv_ready)) [
        | inl done ↦ rw done done
        | inr more ↦
            let r = frame-ready t in
            let ahead : (frame t).pv_ready ≡ u64 (t.frame_clock + hop t) = ap (λ x. x.0) r in
            let clock : (frame t).frame_clock ≡ u64 (t.frame_clock + hop t) = ap (λ x. x.1) r in
            let size : (frame t).n ≡ t.n = ap (λ x. x.2) r in
            let low : t.pv_ready ≤ last = ground (arith, more) in
            rw more (
              prepare_within fuel last (frame t) (ahead ∙ sym clock) (omega (arith, size))
                (rw size (omega arith)) (omega arith))
      ]

  -- The loop that synthesises ahead of the output ends: after the rounds it is given, every frame that
  -- the output reads is ready, if what is ready is what was synthesised, the window has at least four
  -- samples, and the frame that is read stands a hop or more below the end of 64-bit counts.
  pub prepare-halts :
      (last : ℕ) (t : Transport W)
      → t.pv_ready ≡ t.frame_clock
      → 4 ≤ t.n
      → last + hop t < 2 ^ 64
      → ltb last (prepare (last + 1) last t).pv_ready ≡ true
  prepare-halts last t same wide small =
      prepare_within (last + 1) last t same wide small (omega arith)

  pub apply-kept :
      (i : ℕ) (t : Transport W) (events : List (ControlEvent W))
      → counted (apply_events i t events).0 ≡ counted t
  unfolding apply_events apply_event
  apply-kept i t [] = refl
  apply-kept i t (e ∷ events) = elim (Bool-cases (e.offset == i)) [
    | inl now ↦ rw now (apply-kept i (apply_event t e) events)
    | inr later ↦ rw later refl
  ]

  step-clock : (t : Transport W) → (step t).clock ≡ u64 (t.clock + 1)
  unfolding advance_clock advance_positions advance_controls
  step-clock t = ap (λ k. u64 (k.0 + 1)) (prepared-kept t)

  loop-clock :
      (n i : ℕ) (t : Transport W) (events : List (ControlEvent W)) (y : ℕ → W)
      → t.clock + n < 2 ^ 64
      → (render_loop n i t events y).1.clock ≡ t.clock + n
  unfolding render_loop
  loop-clock zero i t events y small = omega (arith, ap (λ k. k.0) (apply-kept i t events))
  loop-clock (suc n) i t events y small =
      let (begun, later) = apply_events i t events in
      let same : begun.clock ≡ t.clock = ap (λ k. k.0) (apply-kept i t events) in
      let one = step-clock begun in
      let rest =
        loop-clock n (i + 1) (step begun) later (write_output (prepared begun) i y)
          (omega (arith, one, same)) in
      omega (arith, rest, one, same)

  -- A render that succeeds moves the output clock by exactly the frames it was asked for; the check
  -- at its start keeps the count from wrapping around.
  pub render-clock :
      (t : Transport W) (output : Option (ℕ → W)) (frames : ℕ)
      (input : Option (List (ControlEvent W))) (count : ℕ)
      → t.cfg.max_block_frames ≤ 8192
      → is_ok (render t output frames input count).0 ≡ true
      → (render t output frames input count).2.clock ≡ t.clock + frames
  unfolding render
  render-clock t output frames input count block good =
      let no_output : Bool = elim output [ none ↦ true | some y ↦ false ] in
      let no_events : Bool = elim input [ none ↦ true | some events ↦ false ] in
      let events : List (ControlEvent W) = elim input [
        | none ↦ []
        | some events ↦ take count events
      ] in
      let y : ℕ → W = elim output [ none ↦ (λ k. w.nat 0) | some y ↦ y ] in
      let checked = check_events t frames 0 events in
      let closed =
        ltb t.cfg.max_block_frames frames
        || not (frames == 0) && no_output
        || ltb 4096 count
        || not (count == 0) && no_events
        || ltb (2 ^ 64 - 1 - frames - 4 * t.n - 32) t.clock in
      elim (Bool-cases closed) [
        | inl refused ↦ absurd (let gone = rw refused at good in cc gone)
        | inr entered ↦ elim (Bool-cases (is_ok checked)) [
          | inr bad ↦ absurd (let gone = rw (entered, bad) at good in cc (gone, bad))
          | inl fine ↦
              let fits : frames ≤ t.cfg.max_block_frames = ground (arith, entered) in
              let room : t.clock ≤ 2 ^ 64 - 1 - frames - 4 * t.n - 32 = ground (arith, entered) in
              rw (entered, fine) (loop-clock frames 0 t events y (omega arith))
        ]
      ]
