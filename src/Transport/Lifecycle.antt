-- ===== src/Transport/Lifecycle.antt =====
-- sdk/transport/transport.cpp: the constructor, `be_transport_create`, `be_transport_seek` and
-- `be_transport_get_info`.
use boiled_egg.Base.{
  ℕ, zero, suc, ◌+◌, ◌*◌, ◌/◌, ◌^◌, Bool, true, false, not, ◌&&◌, ◌||◌, ◌==◌, if◌then◌else◌, ltb,
  leb, List, [], Option, none, some, replicate,
}
use boiled_egg.Base.Loop.{tabulate}
use boiled_egg.Floating.{Floating, flit, gt}
use boiled_egg.Transport.{
  Outcome, ok, invalid, unsupported, TransportConfig, Transport, TransportInfo, Ramp, pv_transient,
  time_domain, time_efficient, window_size, hop, bins, capacity, value_at, pi, reset_ramp,
}

abbrev outside : ℕ → ℕ → ℕ → Bool
outside x lo hi = ltb x lo || ltb hi x

module _ {W : Type 0} ⦃w : Floating W⦄ where
  abbrev still : W → Ramp W
  still v = record { value = v; start = w.nat 0; target = v; length = 0; elapsed = 0 }

  -- The constructor.
  unfoldable pub construct : TransportConfig → List W → ℕ → Transport W
  construct c source frames =
      let n = window_size c in
      let bins = n / 2 + 1 in
      let zero : W = w.nat 0 in
      record {
        cfg = c;
        frames = frames;
        clock = 0;
        synth_count = 0;
        analysis_count = 0;
        frame_clock = 0;
        pv_ready = 0;
        source_error = zero;
        resample_error = zero;
        resample_position = zero;
        output_pitch_value = w.nat 100;
        output_pitch_ratio = w.nat 1;
        output_pitch_band = 0;
        n = n;
        source = source;
        window = tabulate n 0 (λ i. w.narrow (
            w.sub (w.lit 5 10) (
              w.mul (w.lit 5 10)
                (w.cos (w.div (w.mul (w.mul (w.nat 2) pi) (w.nat i)) (w.nat n))))));
        ola = replicate (4 * n * c.channels) zero;
        weights = replicate (4 * n) zero;
        mag = replicate bins zero;
        prior_mag = replicate bins zero;
        frequency = replicate bins zero;
        rotation = replicate bins zero;
        gain = replicate bins (w.nat 1);
        pv = replicate (4 * n * c.channels) zero;
        spec = replicate c.channels (replicate n (zero, zero));
        owners = replicate bins 0;
        previous_grain = replicate (n * c.channels) zero;
        speed = still (w.nat 1);
        pitch = still zero;
        formant = still zero;
        position = zero;
        anchor = w.neg (w.nat 1);
        last_pitch = w.neg (w.nat 1);
        last_formant = w.nat 100;
        selected_center = zero;
        initialized = false;
        spectrum_ready = false;
        tail = 0;
        kernel_band = 0;
      }

  -- The checks of the samples: `n` of them from index `i` on.
  unfoldable pub good_samples : ℕ → ℕ → List W → Bool
  good_samples zero i xs = true
  good_samples (suc n) i xs =
      let rest = good_samples n (i + 1) xs in
      w.is_finite (value_at xs i) && not (gt (w.abs (value_at xs i)) (flit 16 1)) && rest

  unfoldable pub malformed : TransportConfig → Option (List W) → ℕ → Bool
  malformed c input frames =
      let missing : Bool = elim input [ none ↦ true | some xs ↦ false ] in
      ltb c.struct_size 32
      || not (c.version == 1)
      || outside c.source_rate 8000 192000
      || outside c.output_rate 8000 192000
      || outside c.channels 1 8
      || c.max_block_frames == 0
      || ltb 8192 c.max_block_frames
      || ltb 2 c.formant_policy
      || ltb (2 ^ 27 / c.channels) frames
      || not (frames == 0) && missing

  -- `ratio` is the rate of the source over the one of the output.
  unfoldable pub not_qualified : TransportConfig → W → Bool
  not_qualified c ratio =
      ltb time_efficient c.mode
      || leb time_domain c.mode && not (c.formant_policy == 0)
      || gt ratio (w.nat 6)

  unfoldable pub create :
      Option TransportConfig → Option (List W) → ℕ → Outcome × Option (Transport W)
  create none input frames = (invalid, none)
  create (some c) input frames =
      let samples : List W = elim input [ none ↦ [] | some xs ↦ xs ] in
      if malformed c input frames
      then (invalid, none)
      else if not_qualified c (w.div (w.nat c.source_rate) (w.nat c.output_rate))
      then (unsupported, none)
      else if not (good_samples (frames * c.channels) 0 samples)
      then (invalid, none)
      else (ok, some (construct c samples frames))

  -- `be_transport::seek`
  unfoldable pub rewind : Transport W → W → Transport W
  rewind t pos =
      let zero : W = w.nat 0 in
      record t {
        position = pos;
        clock = 0;
        synth_count = 0;
        analysis_count = 0;
        frame_clock = 0;
        pv_ready = 0;
        resample_position = zero;
        source_error = zero;
        resample_error = zero;
        anchor = w.neg (w.nat 1);
        last_pitch = w.neg (w.nat 1);
        last_formant = w.nat 100;
        tail = 0;
        initialized = false;
        spectrum_ready = false;
        speed = reset_ramp t.speed;
        pitch = reset_ramp t.pitch;
        formant = reset_ramp t.formant;
        pv = replicate (capacity t * t.cfg.channels) zero;
        ola = replicate (capacity t * t.cfg.channels) zero;
        weights = replicate (capacity t) zero;
        rotation = replicate (bins t) zero;
        prior_mag = replicate (bins t) zero;
      }

  unfoldable pub seek : Option (Transport W) → W → Outcome × Option (Transport W)
  seek none frame = (invalid, none)
  seek (some t) frame =
      if not (w.is_finite frame) || w.lt frame (w.nat 0) || gt frame (w.nat t.frames)
      then (invalid, some t)
      else (ok, some (rewind t frame))

  abbrev pub ended : Transport W → Bool
  ended t = t.tail == 4 * t.n + 32

  -- `out_size` is what the caller's record says of its size.
  unfoldable pub get_info : Option (Transport W) → Option ℕ → Outcome × Option (TransportInfo W)
  get_info none out_size = (invalid, none)
  get_info (some t) none = (invalid, none)
  get_info (some t) (some out_size) = if ltb out_size 104 then (invalid, none) else (
    ok,
    some (record {
      capabilities = if leb t.cfg.mode pv_transient then 1 + 4 else 2;
      ended = ended t;
      output_frames = t.clock;
      source_frames = t.frames;
      synthesis_frames = t.synth_count;
      analysis_frames = t.analysis_count;
      source_position = t.position;
      analysis_anchor = t.anchor;
      speed = t.speed.value;
      pitch_semitones = t.pitch.value;
      formant_semitones = t.formant.value;
      window_frames = t.n;
      hop_frames = hop t;
    }),
  )
