-- ===== src/Pv/Formant.antt =====
-- src/experimental/pv/pv_rt.cpp: `estimate_formant_gain`, the gain of each bin that keeps the spectral
-- envelope where it was.
use boiled_egg.Base.{
  ℕ, zero, suc, ◌+◌, ◌-◌, ◌/◌, ◌^◌, min, max, true, false, not, ◌&&◌, ◌||◌, ◌==◌, if◌then◌else◌,
  ltb, leb, List, map, replicate, get_or, neg_part, to_u64,
}
use boiled_egg.Base.Loop.{tabulate}
use boiled_egg.Floating.{Floating, flit, fadd, fsub, fmul, fdiv, gt, ne, min_of, max_of, clamp}
use boiled_egg.Fft.{Complex, zero_complex, cscale, transform}
use boiled_egg.Pv.{Pv, Settings, enabled, frame_pitch_of, k_epsilon, pi_float}
use boiled_egg.Pv.Config.{formant_off, formant_monophonic}

module _ {W : Type 0} ⦃w : Floating W⦄ where
  -- `static_cast<float>` of an index.
  abbrev float : ℕ → W
  float n = w.narrow (w.nat n)

  -- The smoothing of the formant ratio toward its target.
  unfoldable pub smooth_formant : W → W → W → W
  smooth_formant smoothing smoothed target =
      let error = w.narrow (w.log (fdiv target smoothed)) in
      if ne smoothed target
      then (if w.lt (w.abs error) (flit 1 (10 ^ 6))
          then target
          else fmul smoothed (w.narrow (w.exp (fmul smoothing error))))
      else smoothed

  -- The log spectrum, mirrored, and its inverse transform.
  unfoldable pub cepstrum_of : Settings W → List W → List (Complex W)
  cepstrum_of s m =
      let log_bin = λ (k : ℕ). w.narrow (w.log (max_of (get_or m k (w.nat 0)) (flit 1 (10 ^ 7)))) in
      transform s.n_fft true
        (tabulate s.n_fft 0 (λ k. (log_bin (if ltb k s.bins then k else s.n_fft - k), w.nat 0)))

  abbrev re : List (Complex W) → ℕ → W
  re xs k = (get_or xs k zero_complex).0

  -- The quefrency search: `peak`, `peak_q`, `energy` and `count` after `n` quefrencies from `q` on.
  unfoldable pub quefrency_peak : ℕ → ℕ → List (Complex W) → W → ℕ → W → W × ℕ × W
  quefrency_peak zero q xs peak peak_q energy = (peak, peak_q, energy)
  quefrency_peak (suc n) q xs peak peak_q energy =
      let value = max_of (w.nat 0) (re xs q) in
      let higher = gt value peak in
      quefrency_peak n (q + 1) xs (if higher then value else peak) (if higher then q else peak_q)
        (w.add energy (w.mul value value))

  -- `std::floor(rate / f)` and `std::ceil(rate / f)` as indices.
  abbrev floor_index : W → ℕ
  floor_index x = to_u64 (w.floor x)

  abbrev ceil_index : W → ℕ
  ceil_index x = neg_part (w.floor (w.neg x))

  -- `voiced_confidence` and `f0_hz`.
  unfoldable pub voicing : Settings W → List (Complex W) → W × W
  voicing s xs =
      let rate = float s.sample_rate in
      let q_min = max 2 (floor_index (fdiv rate s.monophonic_max_f0_hz)) in
      let q_max = min (s.n_fft / 2 - 1) (ceil_index (fdiv rate s.monophonic_min_f0_hz)) in
      let count = if leb q_min q_max then q_max - q_min + 1 else 0 in
      let (peak, peak_q, energy) = quefrency_peak count q_min xs (w.nat 0) 0 k_epsilon in
      let rms = w.narrow (w.sqrt (w.div energy (w.nat count))) in
      let salience = fdiv peak (max_of rms (flit 1 (10 ^ 7))) in
      if not (s.formant_mode == formant_monophonic) || peak_q == 0 || count == 0
      then (w.nat 0, w.nat 0)
      else (
        clamp (fdiv (fsub salience (flit 14 10)) (flit 3 1)) (w.nat 0) (w.nat 1),
        fdiv rate (float peak_q),
      )

  -- The low quefrencies, tapered, and their transform: `log_envelope_`.
  unfoldable pub lifter : Settings W → List (Complex W) → ℕ → Complex W
  lifter s xs q =
      let order = min s.formant_cepstral_order (s.n_fft / 2 - 1) in
      let taper = min 8 (if ltb 1 order then order - 1 else 0) in
      let folded = min q (s.n_fft - q) in
      let x = fdiv (float (folded - (order - taper))) (float taper) in
      let weight = fmul (flit 5 10) (fadd (flit 1 1) (w.narrow (w.cos (fmul pi_float x)))) in
      if q == 0
      then get_or xs q zero_complex
      else if ltb order folded
      then zero_complex
      else if not (taper == 0) && ltb (order - taper) folded
      then cscale weight (get_or xs q zero_complex)
      else get_or xs q zero_complex

  unfoldable pub log_envelope_of : Settings W → List (Complex W) → List W
  log_envelope_of s xs =
      let out = transform s.n_fft false (tabulate s.n_fft 0 (lifter s xs)) in
      tabulate s.bins 0 (re out)

  -- The share of a positive correction at bin `k`, near the harmonics of a single pitch.
  unfoldable pub harmonic_weight : Settings W → W → W → ℕ → W
  harmonic_weight s confidence f0_hz k =
      let bin_hz = fdiv (float s.sample_rate) (float s.n_fft) in
      let frequency = fmul (float k) bin_hz in
      let harmonic = max_of (flit 1 1) (w.narrow (w.round (fdiv frequency f0_hz))) in
      let distance = w.abs (fsub frequency (fmul harmonic f0_hz)) in
      let radius = max_of (fmul (flit 2 1) bin_hz) (fmul (flit 46 100) f0_hz) in
      let c = w.narrow (w.cos (fmul (fmul (flit 5 10) pi_float) (fdiv distance radius))) in
      if gt confidence (w.nat 0) && gt f0_hz (w.nat 0) && not (k == 0) && w.lt distance radius
      then fmul (fmul confidence c) c
      else w.nat 0

  -- The gain at bin `k`, before the energy is made up for.
  unfoldable pub warped_gain : Settings W → List W → W → W → W → ℕ → W
  warped_gain s envelope warp confidence f0_hz k =
      let neper_per_db = fdiv (flit 2302585092994046 (10 ^ 15)) (flit 20 1) in
      let db_per_neper = fdiv (flit 20 1) (flit 2302585092994046 (10 ^ 15)) in
      let warped = fmul (float k) warp in
      let k0 = w.to_ℕ (min_of (w.int (w.floor warped)) (float (s.bins - 1))) in
      let k1 = min (k0 + 1) (s.bins - 1) in
      let fraction = clamp (fsub warped (float k0)) (w.nat 0) (w.nat 1) in
      let low = get_or envelope k0 (w.nat 0) in
      let target_log = fadd low (fmul fraction (fsub (get_or envelope k1 (w.nat 0)) low)) in
      let gain_db =
        clamp (fmul (fsub target_log (get_or envelope k (w.nat 0))) db_per_neper)
          (w.neg s.formant_gain_limit_db) s.formant_gain_limit_db in
      let weight =
        if s.formant_mode == formant_monophonic && gt gain_db (w.nat 0)
        then harmonic_weight s confidence f0_hz k
        else flit 1 1 in
      w.narrow (w.exp (fmul (fmul gain_db weight) neper_per_db))

  -- A sum in double over the bins: `n` of them from bin `k` on.
  unfoldable pub sum_bins : ℕ → ℕ → (ℕ → W) → W → W
  sum_bins zero k f sum = sum
  sum_bins (suc n) k f sum = sum_bins n (k + 1) f (w.add sum (f k))

  abbrev symmetry : Settings W → ℕ → W
  symmetry s k = if k == 0 || k + 1 == s.bins then w.nat 1 else w.nat 2

  abbrev weight_energy : Settings W → List W → ℕ → W
  weight_energy s m k = w.mul (w.mul (symmetry s k) (get_or m k (w.nat 0))) (get_or m k (w.nat 0))

  -- The gains centred around 0 dB and without a gain of power, with the compensation.
  unfoldable pub compensate : Settings W → List W → List W → List W × W
  compensate s m gains =
      let input_energy = sum_bins s.bins 0 (weight_energy s m) k_epsilon in
      let weighted_log_gain =
        sum_bins s.bins 0
          (λ k.
            w.mul (weight_energy s m k)
              (w.log (max_of (get_or gains k (w.nat 0)) (w.lit 1 (10 ^ 12)))))
          (w.nat 0) in
      let log_centre = w.narrow (w.exp (w.div (w.neg weighted_log_gain) input_energy)) in
      let centred = map (λ g. fmul g log_centre) gains in
      let corrected = λ (k : ℕ). w.mul (get_or m k (w.nat 0)) (get_or centred k (w.nat 0)) in
      let corrected_energy =
        sum_bins s.bins 0 (λ k. w.mul (w.mul (symmetry s k) (corrected k)) (corrected k))
          k_epsilon in
      let power =
        if gt corrected_energy input_energy
        then clamp (w.narrow (w.sqrt (w.div input_energy corrected_energy))) (flit 25 100)
            (flit 1 1)
        else flit 1 1 in
      (map (λ g. fmul g power) centred, fmul log_centre power)

  unfoldable pub estimate_formant_gain : Pv W → Pv W
  estimate_formant_gain e =
      let s = e.settings in
      let m = e.spectrum.linked_magnitude in
      let smoothed =
        smooth_formant s.formant_smoothing e.spectrum.smoothed_formant_ratio
          (if enabled e then e.frame_formant_target else e.formant_ratio) in
      let warp = fdiv (frame_pitch_of e) smoothed in
      let cepstrum = cepstrum_of s m in
      let (confidence, f0_hz) = voicing s cepstrum in
      let envelope = log_envelope_of s cepstrum in
      let gains = tabulate s.bins 0 (warped_gain s envelope warp confidence f0_hz) in
      let (formant_gain, compensation) = compensate s m gains in
      if s.formant_mode == formant_off
        || w.lt (w.abs (fsub warp (flit 1 1))) (flit 1 (10 ^ 6))
        || w.le s.formant_gain_limit_db (w.nat 0)
      then record e {
        spectrum = record e.spectrum {
          formant_gain = replicate s.bins (w.nat 1);
          smoothed_formant_ratio = smoothed;
          formant_energy_compensation = w.nat 1;
        };
      }
      else record e {
        spectrum = record e.spectrum {
          formant_gain = formant_gain;
          smoothed_formant_ratio = smoothed;
          formant_energy_compensation = compensation;
        };
      }
