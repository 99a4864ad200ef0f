-- ===== src/Transport/Spectrum.antt =====
-- sdk/transport/transport.cpp: the spectrum of a synthesis frame: `analyze`, `find_owners`, `formants` and
-- `spectral_frame`.
use boiled_egg.Base.{
  ℕ, zero, suc, ◌+◌, ◌-◌, ◌*◌, ◌/◌, ◌%◌, ◌^◌, min, max, Bool, true, false, not, ◌&&◌, ◌||◌, ◌==◌,
  if◌then◌else◌, ltb, List, [], ◌∷◌, map, replicate, get_or, set, u64,
}
use boiled_egg.Base.Loop.{tabulate}
use boiled_egg.Floating.{Floating, flit, fadd, fsub, fmul, fdiv, gt, ge, ne, min_of, max_of, clamp}
use boiled_egg.Fft.{Complex, zero_complex, conj, cmul, cscale, polar, transform}
use boiled_egg.Pv.Peaks.{maximum_of, max_element, assign_owners}
use boiled_egg.Transport.{Transport, value_at, pi, hop, bins, capacity, pv_classic, pv_transient}
use boiled_egg.Transport.Kernel.{read, sum_from}

module _ {W : Type 0} ⦃w : Floating W⦄ where
  abbrev float : ℕ → W
  float n = w.narrow (w.nat n)

  abbrev spectrum_at : List (List (Complex W)) → ℕ → ℕ → Complex W
  spectrum_at xs ch k = get_or (get_or xs ch List.[]) k zero_complex

  -- The offset of sample `j` of a window of `n` samples from its centre, times `step`.
  abbrev pub window_offset : ℕ → ℕ → W → W
  window_offset n j step = w.mul (w.sub (w.nat j) (w.nat (n / 2))) step

  -- One channel of `analyze`.
  unfoldable pub analyze : Transport W → W → W → ℕ → List (Complex W)
  analyze t at step ch = transform t.n false (
      tabulate t.n 0 (λ j. (
        fmul (read t (w.add at (window_offset t.n j step)) ch step) (value_at t.window j),
        w.nat 0,
      )))

  -- `peaks`: `n` bins from bin `k` on.
  unfoldable pub peaks_from : ℕ → ℕ → ℕ → List W → W → List ℕ
  peaks_from zero k bins m top = []
  peaks_from (suc n) k bins m top =
      let rest = peaks_from n (k + 1) bins m top in
      if ge (value_at m k) (fmul top (flit 177828 (10 ^ 8)))
        && (k == 0 || ge (value_at m k) (value_at m (k - 1)))
        && (k + 1 == bins || gt (value_at m k) (value_at m (k + 1)))
      then k ∷ rest
      else rest

  unfoldable pub find_owners : ℕ → List W → List ℕ → List ℕ
  find_owners bins m owners =
      let found = peaks_from bins 0 bins m (maximum_of m (w.nat 0)) in
      let peaks : List ℕ = elim found [
        | [] ↦ max_element m 0 0 (value_at m 0) ∷ []
        | k ∷ rest ↦ k ∷ rest
      ] in
      assign_owners peaks 0 bins owners

  -- The inverse transform of the log spectrum.
  unfoldable pub cepstrum_of : Transport W → List W → List (Complex W)
  cepstrum_of t m =
      let log_bin = λ (k : ℕ). w.narrow (w.log (max_of (value_at m k) (flit 1 (10 ^ 7)))) in
      transform t.n true
        (tabulate t.n 0 (λ k. (log_bin (if ltb k (bins t) then k else t.n - k), w.nat 0)))

  abbrev re : List (Complex W) → ℕ → W
  re xs k = (get_or xs k zero_complex).0

  -- `peak`, `best` and `sum` after `n` quefrencies from `q` on.
  unfoldable pub quefrency_peak : ℕ → ℕ → List (Complex W) → W → ℕ → W → W × ℕ × W
  quefrency_peak zero q xs peak best sum = (peak, best, sum)
  quefrency_peak (suc n) q xs peak best sum =
      let v = max_of (w.nat 0) (re xs q) in
      let higher = gt v peak in
      quefrency_peak n (q + 1) xs (if higher then v else peak) (if higher then q else best)
        (w.add sum (fmul v v))

  -- `f0` and `confidence`.
  unfoldable pub voicing : Transport W → List (Complex W) → W × W
  voicing t xs =
      let rate = t.cfg.output_rate in
      let lo = max 2 (rate / 1600) in
      let hi = min (t.n / 2 - 1) (rate / 40) in
      let count = hi + 1 - lo in
      let (peak, best, sum) = quefrency_peak count lo xs (w.nat 0) lo (w.lit 1 (10 ^ 20)) in
      let salience = w.div peak (w.sqrt (w.div sum (w.nat count))) in
      if t.cfg.formant_policy == 2
      then (
        w.div (w.nat rate) (w.nat best),
        clamp (w.div (w.sub salience (w.lit 14 10)) (w.nat 3)) (w.nat 0) (w.nat 1),
      )
      else (w.nat 0, w.nat 0)

  -- The low quefrencies with their taper.
  unfoldable pub lifter : Transport W → List (Complex W) → ℕ → Complex W
  lifter t xs q =
      let order = 40 * (if ltb 48000 t.cfg.output_rate then 2 else 1) in
      let folded = min q (t.n - q) in
      let turn = w.cos (w.div (w.mul pi (w.nat (folded + 8 - order))) (w.nat 8)) in
      if q == 0
      then get_or xs q zero_complex
      else if ltb order folded
      then zero_complex
      else if ltb (order - 8) folded
      then cscale (w.narrow (w.mul (w.lit 5 10) (w.add (w.nat 1) turn))) (get_or xs q zero_complex)
      else get_or xs q zero_complex

  -- The share of a positive correction near the harmonics of a single voice.
  unfoldable pub harmonic_weight : Transport W → W → W → ℕ → W
  harmonic_weight t f0 confidence k =
      let rate = w.nat t.cfg.output_rate in
      let f = w.div (w.mul (w.nat k) rate) (w.nat t.n) in
      let harmonic = max_of (w.nat 1) (w.round (w.div f f0)) in
      let distance = w.abs (w.sub f (w.mul harmonic f0)) in
      let radius = max_of (w.div (w.mul (w.nat 2) rate) (w.nat t.n)) (w.mul (w.lit 46 100) f0) in
      let v = w.cos (w.div (w.mul (w.mul (w.lit 5 10) pi) distance) radius) in
      if gt f0 (w.nat 0) && not (k == 0) && w.lt distance radius
      then w.mul (w.mul confidence v) v
      else w.nat 0

  abbrev fifteen_db : W
  fifteen_db = w.div (w.mul (w.nat 15) (w.log (w.nat 10))) (w.nat 20)

  -- `loggain` of bin `k`.
  unfoldable pub log_gain : Transport W → List W → W → W → W → ℕ → W
  log_gain t logs warp f0 confidence k =
      let to = min_of (w.nat (bins t - 1)) (w.mul (w.nat k) warp) in
      let k0 = w.to_ℕ to in
      let k1 = min (k0 + 1) (bins t - 1) in
      let low = value_at logs k0 in
      let between = w.mul (w.sub to (w.nat k0)) (fsub (value_at logs k1) low) in
      let raw = w.sub (w.add low between) (value_at logs k) in
      let limited =
        clamp raw (w.div (w.mul (w.neg (w.nat 15)) (w.log (w.nat 10))) (w.nat 20)) fifteen_db in
      if t.cfg.formant_policy == 2 && gt limited (w.nat 0)
      then w.mul limited (harmonic_weight t f0 confidence k)
      else limited

  abbrev sides : Transport W → ℕ → W
  sides t k = w.nat (if not (k == 0) && ltb (k + 1) (bins t) then 2 else 1)

  -- The gains, centred and without a gain of power.
  unfoldable pub level_gains : Transport W → List W → (ℕ → W) → List W
  level_gains t m loggain =
      let count = bins t in
      let power = λ (k : ℕ). w.mul (w.mul (value_at m k) (value_at m k)) (sides t k) in
      let tiny = w.lit 1 (10 ^ 20) in
      let energy = sum_from count 0 power tiny in
      let weighted = sum_from count 0 (λ k. w.mul (power k) (loggain k)) (w.nat 0) in
      let center = w.exp (w.div (w.neg weighted) energy) in
      let centred =
        tabulate count 0 (λ k. w.narrow (w.mul (w.narrow (w.exp (loggain k))) center)) in
      let v = λ (k : ℕ). w.mul (value_at m k) (value_at centred k) in
      let corrected = sum_from count 0 (λ k. w.mul (w.mul (v k) (v k)) (sides t k)) tiny in
      let scale = min_of (w.nat 1) (w.sqrt (w.div energy corrected)) in
      map (λ g. w.narrow (w.mul g scale)) centred

  -- `formants`, with the magnitudes of the frame.
  unfoldable pub formants : Transport W → List W → W → W → List W
  formants t m pitch shift =
      let warp = w.div pitch (w.exp2 (w.div shift (w.nat 12))) in
      let cepstrum = cepstrum_of t m in
      let (f0, confidence) = voicing t cepstrum in
      let smooth = transform t.n false (tabulate t.n 0 (lifter t cepstrum)) in
      let logs = tabulate (bins t) 0 (re smooth) in
      if t.cfg.formant_policy == 0 || w.lt (w.abs (w.sub warp (w.nat 1))) (w.lit 1 (10 ^ 12))
      then replicate (bins t) (w.nat 1)
      else level_gains t m (log_gain t logs warp f0 confidence)

  -- `wrap`
  abbrev wrap : W → W
  wrap x = w.narrow (w.remainder x (w.mul (w.nat 2) pi))

  abbrev channel_sum : Transport W → (ℕ → W) → W
  channel_sum t f = sum_from t.cfg.channels 0 f (w.nat 0)

  -- The sum over the channels of `a` times the conjugate of `b`, and its argument.
  unfoldable pub difference_angle :
      Transport W → List (List (Complex W)) → List (List (Complex W)) → ℕ → W
  difference_angle t xs ys k =
      let re_part = λ (ch : ℕ).
        let (a, b) = spectrum_at xs ch k in
        let (c, d) = spectrum_at ys ch k in w.sub (w.mul a c) (w.mul b (w.neg d)) in
      let im_part = λ (ch : ℕ).
        let (a, b) = spectrum_at xs ch k in
        let (c, d) = spectrum_at ys ch k in w.add (w.mul a (w.neg d)) (w.mul b c) in
      w.atan2 (channel_sum t im_part) (channel_sum t re_part)

  unfoldable pub magnitude_of : Transport W → List (List (Complex W)) → ℕ → W
  magnitude_of t xs k =
      let norm = λ (ch : ℕ). let (a, b) = spectrum_at xs ch k in fadd (fmul a a) (fmul b b) in
      w.narrow (w.sqrt (w.div (channel_sum t norm) (w.nat t.cfg.channels)))

  -- `frequency`, from two windows of the source that are a hop apart.
  unfoldable pub frequency_of :
      Transport W → List (List (Complex W)) → List (List (Complex W)) → ℕ → W
  frequency_of t spec probe k =
      let omega = w.div (w.mul (w.mul (w.nat 2) pi) (w.nat k)) (w.nat t.n) in
      let turn = wrap (w.sub (difference_angle t spec probe k) (w.mul omega (w.nat (hop t)))) in
      if k == bins t - 1
      then w.narrow pi
      else if k == 0
      then w.nat 0
      else w.narrow (w.add omega (fdiv turn (float (hop t))))

  -- Whether the new magnitudes are an onset.
  unfoldable pub is_onset : Transport W → List W → Bool
  is_onset t m =
      let risen = λ (k : ℕ). max_of (w.nat 0) (fsub (value_at m k) (value_at t.prior_mag k)) in
      let positive = sum_from (bins t) 0 risen (w.nat 0) in
      let previous = sum_from (bins t) 0 (value_at t.prior_mag) (w.lit 1 (10 ^ 20)) in
      t.initialized
      && ne t.position t.anchor
      && t.cfg.mode == pv_transient
      && gt (w.div positive previous) (w.nat 1)

  abbrev advanced : Transport W → List W → ℕ → W
  advanced t frequency k =
      fadd (value_at t.rotation k) (fmul (float (hop t)) (value_at frequency k))

  -- The spectrum of the position, or the last one where the position stands still: `prediction` is
  -- the rotation of each bin on its own.
  unfoldable pub refreshed : Transport W → W → Transport W × List W
  refreshed t step =
      let channels = t.cfg.channels in
      let spec = tabulate channels 0 (analyze t t.position step) in
      let probe =
        tabulate channels 0 (analyze t (w.sub t.position (w.mul (w.nat (hop t)) step)) step) in
      let mag = tabulate (bins t) 0 (magnitude_of t spec) in
      let frequency = tabulate (bins t) 0 (frequency_of t spec probe) in
      let reset = is_onset t mag in
      let moved = λ (k : ℕ).
        if not t.initialized || reset
        then w.nat 0
        else wrap (w.sub (advanced t frequency k) (difference_angle t spec t.spec k)) in
      let refresh = not t.spectrum_ready || ne t.position t.anchor in
      let held = λ (k : ℕ). wrap (advanced t t.frequency k) in
      (
        record t {
          spec = if refresh then spec else t.spec;
          analysis_count = if refresh then u64 (t.analysis_count + 2) else t.analysis_count;
          mag = if refresh then mag else t.mag;
          frequency = if refresh then frequency else t.frequency;
          owners = if refresh then find_owners (bins t) mag t.owners else t.owners;
          anchor = if refresh then t.position else t.anchor;
          spectrum_ready = true;
          prior_mag = if refresh then mag else t.prior_mag;
        },
        tabulate (bins t) 0 (if refresh then moved else held),
      )

  -- The gains and the rotations of the frame.
  unfoldable pub rotated : Transport W → Transport W → List W → W → Transport W
  rotated before t prediction pitch =
      let refresh = not before.spectrum_ready || ne before.position before.anchor in
      let stale = refresh || ne t.last_formant t.formant.value || ne t.last_pitch pitch in
      let own = λ (k : ℕ).
        if k == 0 || k == bins t - 1
        then w.nat 0
        else value_at prediction (if t.cfg.mode == pv_classic then k else get_or t.owners k 0) in
      record t {
        gain = if stale then formants t t.mag pitch t.formant.value else t.gain;
        last_formant = if stale then t.formant.value else t.last_formant;
        last_pitch = if stale then pitch else t.last_pitch;
        rotation = tabulate (bins t) 0 own;
      }

  -- The samples of a channel.
  unfoldable pub synthesised : Transport W → ℕ → List (Complex W)
  synthesised t ch =
      let bin : ℕ → Complex W = λ k.
        let (a, b) =
          cmul (spectrum_at t.spec ch k) (polar (value_at t.gain k) (value_at t.rotation k)) in
        (a, if k == 0 || k == bins t - 1 then w.nat 0 else b) in
      transform t.n true
        (tabulate t.n 0 (λ k. if ltb k (bins t) then bin k else conj (bin (t.n - k))))

  -- `ola[slot] += term` for `n` samples of a channel from sample `j` on.
  unfoldable pub overlap_add : ℕ → ℕ → Transport W → ℕ → (ℕ → W) → List W → List W
  overlap_add zero j t ch term xs = xs
  overlap_add (suc n) j t ch term xs =
      let at = u64 (t.frame_clock + j) % capacity t * t.cfg.channels + ch in
      overlap_add n (j + 1) t ch term (set xs at (fadd (value_at xs at) (term j)))

  -- The channels: `n` of them from channel `ch` on.
  unfoldable pub add_channels : ℕ → ℕ → Transport W → (ℕ → ℕ → W) → List W → List W
  add_channels zero ch t term xs = xs
  add_channels (suc n) ch t term xs =
      add_channels n (ch + 1) t term (overlap_add t.n 0 t ch (term ch) xs)

  unfoldable pub spectral_frame : Transport W → W → W → Transport W
  spectral_frame t pitch step =
      let (fresh, prediction) = refreshed t step in
      let turned = rotated t fresh prediction pitch in
      let term = λ (ch j : ℕ). fmul (re (synthesised turned ch) j) (value_at t.window j) in
      record turned { ola = add_channels t.cfg.channels 0 turned term turned.ola }
