-- ===== src/Pv/Create.antt =====
-- src/experimental/pv/pv_rt.cpp: the constructor of the phase vocoder, and what its users construct.
use boiled_egg.Base.{
  ℕ, ◌+◌, ◌*◌, ◌/◌, max, false, not, ◌==◌, if◌then◌else◌, [], replicate, Option, none, some,
}
use boiled_egg.Base.Loop.{tabulate}
use boiled_egg.Floating.{Floating, flit, fsub, fmul, fdiv}
use boiled_egg.Fft.{zero_complex}
use boiled_egg.Timeline
use boiled_egg.Timeline.{PitchTimeline}
use boiled_egg.Pv.{Pv, Settings, Spectrum, next_capacity, pi_float, reset}
use boiled_egg.Pv.Config.{PvConfig, Features, PvResult, ok, invalid_argument, create_config}

module _ {W : Type 0} ⦃w : Floating W⦄ where
  abbrev float : ℕ → W
  float n = w.narrow (w.nat n)

  unfoldable pub settings_of : PvConfig W → Features W → Settings W
  settings_of c f =
      let n = c.fft_size in
      let angle = fdiv (fmul (flit 2 1) pi_float) (float n) in
      let turn = λ (i : ℕ). fmul angle (float i) in
      record {
        sample_rate = c.sample_rate;
        channels = c.channels;
        max_block = c.max_block_frames;
        n_fft = n;
        bins = n / 2 + 1;
        analysis_hop = c.analysis_hop;
        mode = c.mode;
        formant_mode = c.formant_mode;
        timing_policy = f.timing_policy;
        formant_smoothing = fsub (flit 1 1) (
            w.narrow (
              w.exp
                (fdiv (w.neg (float c.analysis_hop)) (fmul (flit 10 1000) (float c.sample_rate)))));
        transient_floor = c.transient_floor;
        transient_sigma = c.transient_sigma;
        formant_cepstral_order = c.formant_cepstral_order;
        formant_gain_limit_db = c.formant_gain_limit_db;
        monophonic_min_f0_hz = c.monophonic_min_f0_hz;
        monophonic_max_f0_hz = c.monophonic_max_f0_hz;
        input_capacity = next_capacity (n * 8 + c.max_block_frames * 4);
        ola_capacity = next_capacity (n * 16 + c.max_block_frames * 16);
        pv_capacity = next_capacity (max 65536 (c.max_block_frames * 64 + n * 32));
        fifo_capacity = next_capacity (max 65536 (c.max_block_frames * 64 + n * 16));
        window = tabulate n 0 (λ i.
            w.narrow (w.sqrt (fsub (flit 5 10) (fmul (flit 5 10) (w.narrow (w.cos (turn i)))))));
        omega = tabulate (n / 2 + 1) 0 turn;
      }

  abbrev no_timeline : PitchTimeline W
  no_timeline = record {
    nodes = [];
    written = 0;
    ramp_frames = 1;
    position = w.nat 0;
    output = w.nat 0;
    position_error = w.nat 0;
    output_error = w.nat 0;
    precise_clock = false;
    pitch_ramp = Timeline.reset (w.nat 1);
    time_ramp = Timeline.reset (w.nat 1);
  }

  unfoldable pub first_spectrum : Settings W → W → Spectrum W
  first_spectrum s formant =
      let all_bins = replicate (s.channels * s.bins) (w.nat 0) in
      let linked = replicate s.bins (w.nat 0) in
      record {
        magnitude = all_bins;
        phase = all_bins;
        previous_phase = all_bins;
        output_phase = all_bins;
        previous_output_phase = all_bins;
        linked_magnitude = linked;
        previous_linked_magnitude = linked;
        formant_gain = replicate s.bins (w.nat 1);
        formant_energy_compensation = w.nat 1;
        owners = replicate s.bins 0;
        timeline_rotation = linked;
        timeline_predicted = linked;
        linked_static_rotor = replicate s.bins zero_complex;
        smoothed_formant_ratio = formant;
        flux_mean = w.nat 0;
        flux_variance = w.nat 0;
      }

  -- The engine before the `reset` at the end of its constructor.
  unfoldable pub raw_engine : Settings W → PvConfig W → W → Pv W
  raw_engine s c formant = record {
    settings = s;
    time_ratio = c.initial_time_ratio;
    pitch_ratio = c.initial_pitch_ratio;
    formant_ratio = formant;
    spectrum = first_spectrum s formant;
    timeline = no_timeline;
    explicit_automation = false;
    variable_time = false;
    output_source_index = 0;
    frame_pitch = w.nat 1;
    frame_formant_target = w.nat 1;
    input = [];
    ola = [];
    weight = [];
    pv_fifo = [];
    fifo = [];
    input_write = 0;
    analysis_start = 0;
    previous_synth_start = 0;
    latest_safe_position = 0;
    cleanup_position = 0;
    startup_crop = 0;
    real_input_frames = 0;
    pv_emitted_frames = 0;
    emitted_frames = 0;
    synthesis_position = w.nat 0;
    expected_pv_frames = w.nat 0;
    expected_output_frames = w.nat 0;
    resample_pos = w.nat 0;
    pv_start = 0;
    pv_write = 0;
    fifo_read = 0;
    fifo_write = 0;
    fifo_count = 0;
    target_pv_frames = 0;
    target_output_frames = 0;
    initialized = false;
    flushed = false;
  }

  unfoldable pub construct : PvConfig W → Features W → Pv W
  construct c f = reset (raw_engine (settings_of c f) c f.initial_formant_ratio)

  -- `boiledegg_research_pv_rt_create_exec`, for the immediate execution.
  unfoldable pub create : PvConfig W → Features W → Option (Pv W)
  create c f = elim (create_config c f) [ none ↦ none | some scaled ↦ some (construct scaled f) ]

  -- `boiledegg_private_pv_enable_timeline` and `enable_timeline`.
  unfoldable pub enable_timeline : Pv W → PvResult × Pv W
  enable_timeline e = if not (e.real_input_frames == 0) then (invalid_argument, e) else (
    ok,
    record e {
      timeline =
          Timeline.prepare e.timeline e.settings.input_capacity e.settings.sample_rate e.time_ratio
            e.pitch_ratio e.formant_ratio;
      spectrum = record e.spectrum {
        timeline_rotation = replicate e.settings.bins (w.nat 0);
        timeline_predicted = replicate e.settings.bins (w.nat 0);
      };
    },
  )
