-- ===== src/Pv/Keeps/Frames.antt =====
-- src/experimental/pv/pv_rt.cpp: frames and the loops of the streaming operations keep the settings and
-- the flag of the flush.
use boiled_egg.Base.{
  ℕ, zero, suc, ◌+◌, ◌∙◌, Bool, true, false, arith, refl, ◌≡◌, List, none, some, ◌==◌,
  if◌then◌else◌, ◌&&◌, not, ltb, leb, sub64,
}
use boiled_egg.Base.Loop.{tabulate}
use boiled_egg.Floating.{Floating}
use boiled_egg.Fft.{Complex}
use boiled_egg.Pv.{Pv, Settings, enabled, round_u64}
use boiled_egg.Pv.Config.{internal_error, fifo_overflow, classic}
use boiled_egg.Pv.Peaks.{find_peaks}
use boiled_egg.Pv.Formant.{estimate_formant_gain}
use boiled_egg.Pv.Drain.{drain_safe}
use boiled_egg.Pv.Frame.{
  latch_timeline, analyse_bins, add_channels, finish_frame, frame_phases, timeline_phases,
  linked_static_phases, channel_phases, synthesise_frame, process_frame, analyse, flux_of,
  is_transient,
}
use boiled_egg.Pv.Stream
use boiled_egg.Pv.Keeps.{fixed, resampler-Keeps, drain-Keeps}

module _ {W : Type 0} ⦃w : Floating W⦄ where
  latch-Keeps : (e : Pv W) → fixed (latch_timeline e) ≡ fixed e
  unfolding latch_timeline
  latch-Keeps e = ground arith

  formant-Keeps : (e : Pv W) → fixed (estimate_formant_gain e) ≡ fixed e
  unfolding estimate_formant_gain
  formant-Keeps e = ground arith

  bins-Keeps : (e : Pv W) (works : List (List (Complex W))) → fixed (analyse_bins e works) ≡ fixed e
  unfolding analyse_bins
  bins-Keeps e works = refl

  phases-Keeps : (e : Pv W) (hop : W) (t : Bool) → fixed (frame_phases e hop t) ≡ fixed e
  unfolding frame_phases timeline_phases linked_static_phases channel_phases
  phases-Keeps e hop t = ground arith

  add_channels-Keeps :
      (n ch start : ℕ) (works : List (List (Complex W))) (e : Pv W)
      → fixed (add_channels n ch start works e) ≡ fixed e
  unfolding add_channels
  add_channels-Keeps zero ch start works e = refl
  add_channels-Keeps (suc n) ch start works e = add_channels-Keeps n (ch + 1) start works _

  synthesise-Keeps :
      (e : Pv W) (works : List (List (Complex W))) (start : ℕ)
      → fixed (synthesise_frame e works start) ≡ fixed e
  unfolding synthesise_frame
  synthesise-Keeps e works start = add_channels-Keeps e.settings.channels 0 start works e

  finish-Keeps : (e : Pv W) (flux : W) (start : ℕ) → fixed (finish_frame e flux start) ≡ fixed e
  unfolding finish_frame
  finish-Keeps e flux start = refl

  abbrev own_peaks : Bool → Pv W → List ℕ → Pv W
  own_peaks b e owners =
      if b then e else record e { spectrum = record e.spectrum { owners = owners } }

  owned-Keeps : (b : Bool) (e : Pv W) (owners : List ℕ) → fixed (own_peaks b e owners) ≡ fixed e
  owned-Keeps true e owners = refl
  owned-Keeps false e owners = refl

  pub process_frame-Keeps : (e : Pv W) → fixed (process_frame e) ≡ fixed e
  unfolding process_frame finish_frame
  process_frame-Keeps e =
      let latched = latch_timeline e in
      let works = tabulate e.settings.channels 0 (analyse latched) in
      let binned = analyse_bins latched works in
      let shaped = estimate_formant_gain binned in
      let flux = flux_of shaped in
      let start = round_u64 latched.synthesis_position in
      let hop =
        if e.initialized then w.narrow (w.nat (sub64 start e.previous_synth_start)) else w.nat 0 in
      let owners =
        find_peaks e.settings.bins shaped.spectrum.linked_magnitude shaped.spectrum.owners in
      let owned = own_peaks (e.settings.mode == classic) shaped owners in
      let phased = frame_phases owned hop (is_transient shaped flux) in
      let added = synthesise_frame phased works start in
      let drained = drain_safe e.flushed added in
      resampler-Keeps drained false
      ∙ drain-Keeps added e.flushed
      ∙ synthesise-Keeps phased works start
      ∙ phases-Keeps owned hop (is_transient shaped flux)
      ∙ owned-Keeps (e.settings.mode == classic) shaped owners
      ∙ formant-Keeps binned
      ∙ bins-Keeps latched works
      ∙ latch-Keeps e

  ensure-Keeps : (n : ℕ) (e : Pv W) → fixed (Stream.ensure_loop n e).1 ≡ fixed e
  unfolding Stream.ensure_loop
  ensure-Keeps zero e = refl
  ensure-Keeps (suc n) e = ground (arith, ensure-Keeps n (process_frame e), process_frame-Keeps e)

  available-Keeps : (n : ℕ) (e : Pv W) → fixed (Stream.available_loop n e) ≡ fixed e
  unfolding Stream.available_loop
  available-Keeps zero e = refl
  available-Keeps (suc n) e =
      ground (arith, available-Keeps n (process_frame e), process_frame-Keeps e)

  append-Keeps : (e : Pv W) → fixed (Stream.append_timeline e).1 ≡ fixed e
  unfolding Stream.append_timeline
  append-Keeps e = ground arith

  write-Keeps : (e : Pv W) (x : ℕ → W) → fixed (Stream.write_input e x) ≡ fixed e
  unfolding Stream.write_input
  write-Keeps e x = refl

  pipeline-Keeps :
      (e : Pv W) (finalizing : Bool) → fixed (Stream.run_pipeline finalizing e) ≡ fixed e
  pipeline-Keeps e finalizing =
      resampler-Keeps (drain_safe finalizing (Stream.process_available e)) false
      ∙ drain-Keeps (Stream.process_available e) finalizing
      ∙ available-Keeps _ e

  outcome_keeps :
      {A : Type 0}
      → (v : Bool × Settings W) (a b c : Bool) (p q r t : A) (x y z : Pv W) → fixed x ≡ v
      → fixed y ≡ v
      → fixed z ≡ v
      → (let chosen : A × Pv W =
            if a then (p, x) else if b then (q, y) else if c then (r, z) else (t, z) in
          fixed chosen.1)
        ≡ v
  outcome_keeps v true b c p q r t x y z hx hy hz = hx
  outcome_keeps v false true c p q r t x y z hx hy hz = hy
  outcome_keeps v false false true p q r t x y z hx hy hz = hz
  outcome_keeps v false false false p q r t x y z hx hy hz = hz

  round-Keeps : (e : Pv W) → fixed (Stream.flush_round e).1 ≡ fixed e
  unfolding Stream.flush_round
  round-Keeps e =
      let made = (Stream.ensure_input_space e).1 in
      let space = ensure-Keeps (sub64 e.input_write e.analysis_start + 1) e in
      let written = Stream.write_input made (λ ch. w.nat 0) in
      let next = if enabled e then (Stream.append_timeline written).1 else written in
      let lined : fixed next ≡ fixed written = ground (arith, append-Keeps written) in
      let done = pipeline-Keeps next true ∙ lined ∙ write-Keeps made (λ ch. w.nat 0) ∙ space in
      let lined_up = (Stream.append_timeline written).0 in
      let after = Stream.run_pipeline true next in
      outcome_keeps (fixed e) (not (Stream.ensure_input_space e).0) (enabled e && not lined_up)
        (leb after.settings.fifo_capacity after.fifo_count
          && ltb after.emitted_frames after.target_output_frames)
        (some internal_error) (some internal_error) (some fifo_overflow) none made written after
        space (write-Keeps made (λ ch. w.nat 0) ∙ space) done

  pub flush_loop-Keeps :
      (n : ℕ) (e : Pv W) (target : ℕ) → fixed (Stream.flush_loop n e target).1 ≡ fixed e
  unfolding Stream.flush_loop
  flush_loop-Keeps zero e target = refl
  flush_loop-Keeps (suc n) e target =
      ground (arith, round-Keeps e, flush_loop-Keeps n (Stream.flush_round e).1 target)
