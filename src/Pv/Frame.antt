-- ===== src/Pv/Frame.antt =====
-- src/experimental/pv/pv_rt.cpp: `process_frame`, one analysis frame and its synthesis.
use boiled_egg.Base.{
  ℕ, zero, suc, ◌+◌, ◌-◌, ◌*◌, ◌/◌, ◌%◌, Bool, true, false, not, ◌&&◌, ◌||◌, ◌==◌, if◌then◌else◌,
  ltb, List, get_or, set, u64, sub64,
}
use boiled_egg.Base.Loop.{tabulate}
use boiled_egg.Floating.{Floating, flit, fadd, fsub, fmul, fdiv, gt, max_of}
use boiled_egg.Fft.{Complex, zero_complex, real, conj, cmul, polar, cabs, carg, transform}
use boiled_egg.Timeline
use boiled_egg.Pv.{
  Pv, Settings, Spectrum, ring_index, enabled, internal_stretch, round_u64, k_epsilon, pi_float,
}
use boiled_egg.Pv.Config.{classic, transient}
use boiled_egg.Pv.Peaks.{find_peaks}
use boiled_egg.Pv.Formant.{estimate_formant_gain}
use boiled_egg.Pv.Resample.{process_resampler}
use boiled_egg.Pv.Drain.{drain_safe}

module _ {W : Type 0} ⦃w : Floating W⦄ where
  abbrev value : List W → ℕ → W
  value xs i = get_or xs i (w.nat 0)

  -- A vector of one value for each channel and bin, by channel and bin.
  abbrev per_bin : Settings W → (ℕ → ℕ → W) → List W
  per_bin s f = tabulate (s.channels * s.bins) 0 (λ i. f (i / s.bins) (i % s.bins))

  abbrev bin_at : Settings W → List W → ℕ → ℕ → W
  bin_at s xs ch k = value xs (ch * s.bins + k)

  unfoldable pub wrap_phase : W → W
  wrap_phase v =
      let two_pi = fmul (flit 2 1) pi_float in
      let r = w.narrow (w.fmod (fadd v pi_float) two_pi) in
      fsub (if w.lt r (w.nat 0) then fadd r two_pi else r) pi_float

  -- `latch_timeline`
  unfoldable pub latch_timeline : Pv W → Pv W
  latch_timeline e =
      let control = Timeline.at_frame e.timeline e.analysis_start in
      if enabled e
      then record e {
        frame_pitch = control.pitch;
        frame_formant_target = control.formant;
        synthesis_position = control.position;
      }
      else e

  -- The windowed frame of a channel, transformed.
  unfoldable pub analyse : Pv W → ℕ → List (Complex W)
  analyse e ch =
      let s = e.settings in
      let sample = λ (n : ℕ).
        value e.input
          (ch * s.input_capacity + ring_index (e.analysis_start + n) s.input_capacity) in
      transform s.n_fft false (tabulate s.n_fft 0 (λ n. real (fmul (sample n) (value s.window n))))

  -- A sum in double over the channels: `n` of them from channel `ch` on.
  unfoldable pub sum_channels : ℕ → ℕ → (ℕ → W) → W → W
  sum_channels zero ch f sum = sum
  sum_channels (suc n) ch f sum = sum_channels n (ch + 1) f (w.add sum (f ch))

  unfoldable pub linked_bin : Settings W → List W → ℕ → W
  linked_bin s m k =
      let sum =
        sum_channels s.channels 0 (λ ch. w.mul (bin_at s m ch k) (bin_at s m ch k)) (w.nat 0) in
      w.narrow (w.sqrt (w.add (w.div sum (w.nat s.channels)) k_epsilon))

  -- `work[k]` of channel `ch`.
  abbrev work_at : List (List (Complex W)) → ℕ → ℕ → Complex W
  work_at works ch k = get_or (get_or works ch List.[]) k zero_complex

  -- Magnitudes, phases and linked magnitudes of the frame.
  unfoldable pub analyse_bins : Pv W → List (List (Complex W)) → Pv W
  analyse_bins e works =
      let s = e.settings in
      let m = per_bin s (λ ch k. cabs (work_at works ch k)) in
      record e {
        spectrum = record e.spectrum {
          magnitude = m;
          phase = per_bin s (λ ch k. carg (work_at works ch k));
          linked_magnitude = tabulate s.bins 0 (linked_bin s m);
        };
      }

  -- `flux_numerator` and `flux_denominator` over `n` bins from bin `k` on.
  unfoldable pub flux_sums : ℕ → ℕ → List W → List W → W → W → W × W
  flux_sums zero k m previous numerator denominator = (numerator, denominator)
  flux_sums (suc n) k m previous numerator denominator =
      flux_sums n (k + 1) m previous
        (fadd numerator (max_of (w.nat 0) (fsub (value m k) (value previous k))))
        (fadd denominator (value previous k))

  unfoldable pub flux_of : Pv W → W
  flux_of e =
      let (numerator, denominator) =
        flux_sums e.settings.bins 0 e.spectrum.linked_magnitude e.spectrum.previous_linked_magnitude
          (w.nat 0) k_epsilon in
      if e.initialized then fdiv numerator denominator else w.nat 0

  unfoldable pub is_transient : Pv W → W → Bool
  is_transient e flux =
      let sigma = w.narrow (w.sqrt (max_of e.spectrum.flux_variance (w.nat 0))) in
      e.settings.mode == transient
      && e.initialized
      && gt flux e.settings.transient_floor
      && gt flux (fadd e.spectrum.flux_mean (fmul e.settings.transient_sigma sigma))

  abbrev hop_float : Settings W → W
  hop_float s = w.narrow (w.nat s.analysis_hop)

  -- The loudest channel of a bin: `n` channels from `ch` on, against channel `reference`.
  unfoldable pub loudest : ℕ → ℕ → Settings W → List W → ℕ → ℕ → ℕ
  loudest zero ch s m k reference = reference
  loudest (suc n) ch s m k reference =
      let next = if gt (bin_at s m ch k) (bin_at s m reference k) then ch else reference in
      loudest n (ch + 1) s m k next

  unfoldable pub timeline_predict : Pv W → W → ℕ → W
  timeline_predict e synthesis_hop k =
      let s = e.settings in
      let x = e.spectrum in
      let reference = loudest (s.channels - 1) 1 s x.magnitude k 0 in
      let hop = hop_float s in
      let delta =
        fsub (fsub (bin_at s x.phase reference k) (bin_at s x.previous_phase reference k))
          (fmul (value s.omega k) hop) in
      let frequency = fadd (value s.omega k) (fdiv (wrap_phase delta) hop) in
      if e.initialized
      then wrap_phase (fadd (value x.timeline_rotation k) (fmul (fsub synthesis_hop hop) frequency))
      else w.nat 0

  -- The rotation of bin `k`: its own prediction, or that of the peak that owns it.
  abbrev rotation_of : Pv W → List W → ℕ → W
  rotation_of e predicted k =
      value predicted (if e.settings.mode == classic then k else get_or e.spectrum.owners k 0)

  -- The two loops of the timeline: all predictions, then all phases.
  unfoldable pub timeline_phases : Pv W → W → Pv W
  timeline_phases e synthesis_hop =
      let s = e.settings in
      let predicted = tabulate s.bins 0 (timeline_predict e synthesis_hop) in
      record e {
        spectrum = record e.spectrum {
          timeline_predicted = predicted;
          timeline_rotation = tabulate s.bins 0 (rotation_of e predicted);
          output_phase = per_bin s (λ ch k.
              wrap_phase (fadd (bin_at s e.spectrum.phase ch k) (rotation_of e predicted k)));
        };
      }

  unfoldable pub linked_static_predict : Pv W → W → Bool → ℕ → W
  linked_static_predict e synthesis_hop transient_frame k =
      let s = e.settings in
      let x = e.spectrum in
      let power = λ (ch : ℕ). w.mul (bin_at s x.magnitude ch k) (bin_at s x.magnitude ch k) in
      let delta = λ (ch : ℕ). w.sub (bin_at s x.phase ch k) (bin_at s x.previous_phase ch k) in
      let re = sum_channels s.channels 0 (λ ch. w.mul (power ch) (w.cos (delta ch))) (w.nat 0) in
      let im = sum_channels s.channels 0 (λ ch. w.mul (power ch) (w.sin (delta ch))) (w.nat 0) in
      let hop = hop_float s in
      let advance = w.narrow (w.atan2 im re) in
      let frequency =
        fadd (value s.omega k)
          (fdiv (wrap_phase (fsub advance (fmul (value s.omega k) hop))) hop) in
      if not (s.mode == classic) && not (get_or x.owners k 0 == k)
      then value x.timeline_predicted k
      else if not e.initialized || transient_frame
      then w.nat 0
      else wrap_phase (fadd (value x.timeline_rotation k) (fmul (fsub synthesis_hop hop) frequency))

  unfoldable pub linked_static_phases : Pv W → W → Bool → Pv W
  linked_static_phases e synthesis_hop transient_frame =
      let s = e.settings in
      let predicted = tabulate s.bins 0 (linked_static_predict e synthesis_hop transient_frame) in
      record e {
        spectrum = record e.spectrum {
          timeline_predicted = predicted;
          timeline_rotation = tabulate s.bins 0 (rotation_of e predicted);
          linked_static_rotor =
              tabulate s.bins 0
                (λ k. polar (value e.spectrum.formant_gain k) (rotation_of e predicted k));
        };
      }

  -- The phase of a bin of the independent channels, before phase locking.
  unfoldable pub channel_phase : Pv W → W → Bool → ℕ → ℕ → W
  channel_phase e synthesis_hop transient_frame ch k =
      let s = e.settings in
      let x = e.spectrum in
      let hop = hop_float s in
      let delta = wrap_phase (
        fsub (fsub (bin_at s x.phase ch k) (bin_at s x.previous_phase ch k))
          (fmul (value s.omega k) hop)) in
      let instantaneous = fadd (value s.omega k) (fdiv delta hop) in
      if not e.initialized || transient_frame
      then bin_at s x.phase ch k
      else fadd (bin_at s x.previous_output_phase ch k) (fmul instantaneous synthesis_hop)

  -- The phase-locking loop of one channel, bin after bin in place: `n` bins from bin `k` on.
  unfoldable pub lock_phases : ℕ → ℕ → ℕ → Settings W → Spectrum W → List W → List W
  lock_phases zero k ch s x out = out
  lock_phases (suc n) k ch s x out =
      let owner = get_or x.owners k 0 in
      let locked =
        fadd (bin_at s out ch owner)
          (wrap_phase (fsub (bin_at s x.phase ch k) (bin_at s x.phase ch owner))) in
      lock_phases n (k + 1) ch s x (set out (ch * s.bins + k) locked)

  unfoldable pub lock_channels : ℕ → ℕ → Settings W → Spectrum W → List W → List W
  lock_channels zero ch s x out = out
  lock_channels (suc n) ch s x out = lock_channels n (ch + 1) s x (lock_phases s.bins 0 ch s x out)

  unfoldable pub channel_phases : Pv W → W → Bool → Pv W
  channel_phases e synthesis_hop transient_frame =
      let s = e.settings in
      let free = per_bin s (channel_phase e synthesis_hop transient_frame) in
      let locked =
        if e.initialized && not transient_frame && not (s.mode == classic)
        then lock_channels s.channels 0 s e.spectrum free
        else free in
      record e { spectrum = record e.spectrum { output_phase = locked } }

  abbrev linked_static : Pv W → Bool
  linked_static e = ltb 1 e.settings.channels && not (enabled e)

  -- The spectrum of a channel at bin `k`, and its mirror image from `bins` on.
  unfoldable pub synthesis_bin : Pv W → List (List (Complex W)) → ℕ → ℕ → Complex W
  synthesis_bin e works ch k =
      let s = e.settings in
      let x = e.spectrum in
      if linked_static e
      then cmul (work_at works ch k) (get_or x.linked_static_rotor k zero_complex)
      else polar (fmul (bin_at s x.magnitude ch k) (value x.formant_gain k))
          (bin_at s x.output_phase ch k)

  unfoldable pub synthesise : Pv W → List (List (Complex W)) → ℕ → List (Complex W)
  synthesise e works ch =
      let s = e.settings in
      transform s.n_fft true (
        tabulate s.n_fft 0 (λ k.
          if ltb k s.bins
          then synthesis_bin e works ch k
          else conj (synthesis_bin e works ch (s.n_fft - k))))

  -- `xs[slot] += term`, for `n` samples of a frame from sample `i` on.
  unfoldable pub overlap_add : ℕ → ℕ → ℕ → ℕ → ℕ → (ℕ → W) → List W → List W
  overlap_add zero i first start capacity term xs = xs
  overlap_add (suc n) i first start capacity term xs =
      let slot = first + ring_index (u64 (start + i)) capacity in
      overlap_add n (i + 1) first start capacity term (set xs slot (fadd (value xs slot) (term i)))

  -- The channels: `n` of them from channel `ch` on.
  unfoldable pub add_channels : ℕ → ℕ → ℕ → List (List (Complex W)) → Pv W → Pv W
  add_channels zero ch synth_start works e = e
  add_channels (suc n) ch synth_start works e =
      let s = e.settings in
      let out = synthesise e works ch in
      let term = λ (i : ℕ). fmul (get_or out i zero_complex).0 (value s.window i) in
      add_channels n (ch + 1) synth_start works (record e {
        ola = overlap_add s.n_fft 0 (ch * s.ola_capacity) synth_start s.ola_capacity term e.ola;
      })

  -- The update of the flux statistics and the start of the next frame.
  unfoldable pub finish_frame : Pv W → W → ℕ → Pv W
  finish_frame e flux synth_start =
      let x = e.spectrum in
      let alpha = flit 4 100 in
      let difference = fsub flux x.flux_mean in
      let variance =
        fmul (fsub (flit 1 1) alpha)
          (fadd x.flux_variance (fmul (fmul alpha difference) difference)) in
      record e {
        spectrum = record x {
          previous_phase = x.phase;
          previous_output_phase =
              if linked_static e then x.previous_output_phase else x.output_phase;
          previous_linked_magnitude = x.linked_magnitude;
          flux_mean = if e.initialized then fadd x.flux_mean (fmul alpha difference) else flux;
          flux_variance = if e.initialized then variance else w.nat 0;
        };
        initialized = true;
        previous_synth_start = synth_start;
        synthesis_position =
            w.add e.synthesis_position (w.mul (w.nat e.settings.analysis_hop) (internal_stretch e));
        analysis_start = u64 (e.analysis_start + e.settings.analysis_hop);
      }

  -- The phases of the frame, by the kind of engine.
  unfoldable pub frame_phases : Pv W → W → Bool → Pv W
  frame_phases e synthesis_hop transient_frame =
      if enabled e
      then timeline_phases e synthesis_hop
      else if linked_static e
      then linked_static_phases e synthesis_hop transient_frame
      else channel_phases e synthesis_hop transient_frame

  -- The part of a frame that turns the spectrum into samples of the overlap-add ring.
  unfoldable pub synthesise_frame : Pv W → List (List (Complex W)) → ℕ → Pv W
  synthesise_frame e works synth_start =
      let s = e.settings in
      let added = add_channels s.channels 0 synth_start works e in
      record added {
        weight =
            overlap_add s.n_fft 0 0 synth_start s.ola_capacity
              (λ i. fmul (value s.window i) (value s.window i)) added.weight;
        latest_safe_position = synth_start;
      }

  unfoldable pub process_frame : Pv W → Pv W
  process_frame e =
      let latched = latch_timeline e in
      let s = e.settings in
      let synth_start = round_u64 latched.synthesis_position in
      let works = tabulate s.channels 0 (analyse latched) in
      let shaped = estimate_formant_gain (analyse_bins latched works) in
      let flux = flux_of shaped in
      let transient_frame = is_transient shaped flux in
      let owned = if s.mode == classic then shaped else record shaped {
        spectrum = record shaped.spectrum {
          owners = find_peaks s.bins shaped.spectrum.linked_magnitude shaped.spectrum.owners;
        };
      } in
      let synthesis_hop =
        if e.initialized
        then w.narrow (w.nat (sub64 synth_start e.previous_synth_start))
        else w.nat 0 in
      let phased = frame_phases owned synthesis_hop transient_frame in
      let added = synthesise_frame phased works synth_start in
      finish_frame (process_resampler false (drain_safe e.flushed added)) flux synth_start
