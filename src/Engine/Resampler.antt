-- ===== src/Engine/Resampler.antt =====
-- src/engine.cpp: the windowed-sinc kernel bank and `process_resampler`, which turns intermediate
-- samples into output frames.
use boiled_egg.Base.{
  ℕ, zero, suc, ◌+◌, ◌-◌, ◌*◌, ◌^◌, min, Bool, true, false, ◌&&◌, ◌||◌, List, map, none, some, ℤ,
  pos, ◌+ℤ◌, ◌-ℤ◌, ltb_ℤ, to_u64, ltb, leb, ◌==◌, if◌then◌else◌, get_or, pos_part, u64,
}
use boiled_egg.Base.Loop.{tabulate}
use boiled_egg.Floating.{Floating, fadd, fmul, gt, min_of, clamp}
use boiled_egg.Ring
use boiled_egg.Ring.{PlanarRing, free_space}
use boiled_egg.Engine.{Engine}

-- ResamplerKernelBank: taps, half, phases, cutoffs.
abbrev pub taps : ℕ
taps = 40

abbrev pub half : ℕ
half = 20

abbrev pub phases : ℕ
phases = 1024

abbrev pub cutoffs : ℕ
cutoffs = 32

module _ {W : Type 0} ⦃w : Floating W⦄ where
  abbrev pi_double : W
  pi_double = w.lit 3141592653589793238462643383279502884 (10 ^ 36)

  unfoldable pub sinc_pi : W → W
  sinc_pi x =
      if w.lt (w.abs x) (w.lit 1 (10 ^ 12))
      then w.nat 1
      else (let pix = w.mul pi_double x in w.div (w.sin pix) pix)

  unfoldable pub blackman_window : W → W → W
  blackman_window x half_width =
      if w.le half_width (w.abs x)
      then w.nat 0
      else (let phase = w.div (w.mul pi_double x) half_width in
          w.add (w.add (w.lit 42 100) (w.mul (w.lit 5 10) (w.cos phase)))
            (w.mul (w.lit 8 100) (w.cos (w.mul (w.nat 2) phase))))

  abbrev cutoff_min : W
  cutoff_min = w.div (w.lit 94 100) (w.nat 4)

  abbrev cutoff_max : W
  cutoff_max = w.lit 94 100

  unfoldable pub cutoff_for_index : ℕ → W
  cutoff_for_index i =
      w.add cutoff_min (w.div (w.mul (w.sub cutoff_max cutoff_min) (w.nat i)) (w.nat (cutoffs - 1)))

  unfoldable pub cutoff_index : W → ℕ
  cutoff_index desired =
      let scaled =
        w.div (w.mul (w.sub (clamp desired cutoff_min cutoff_max) cutoff_min) (w.nat (cutoffs - 1)))
          (w.sub cutoff_max cutoff_min) in
      min (pos_part (w.floor scaled)) (cutoffs - 1)

  -- The weight of one tap before the row is normalised, in double.
  unfoldable pub tap_weight : W → W → ℕ → W
  tap_weight cutoff frac tap =
      let distance = w.sub (w.int (pos tap -ℤ pos (half - 1))) frac in
      w.mul (w.mul cutoff (sinc_pi (w.mul cutoff distance))) (blackman_window distance (w.nat half))

  unfoldable pub sum_taps : List W → W → W
  sum_taps List.[] sum = sum
  sum_taps (List.◌∷◌ x xs) sum = sum_taps xs (w.add sum x)

  -- Row `pi` of cutoff `ci` of the bank: the taps as floats, scaled to sum to one.
  unfoldable pub kernel_row : ℕ → ℕ → List W
  kernel_row ci pi =
      let frac = w.div (w.nat pi) (w.nat phases) in
      let weights = tabulate taps 0 (tap_weight (cutoff_for_index ci) frac) in
      let sum = sum_taps weights (w.nat 0) in
      let row = map w.narrow weights in
      if gt (w.abs sum) (w.lit 1 (10 ^ 12))
      then map (λ x. fmul x (w.narrow (w.div (w.nat 1) sum))) row
      else row

  -- Ascending taps, in float.
  unfoldable pub convolve : ℕ → ℕ → List W → (ℕ → W) → W → W
  convolve zero tap kernel x sum = sum
  convolve (suc n) tap kernel x sum =
      convolve n (tap + 1) kernel x (fadd sum (fmul (get_or kernel tap (w.nat 0)) (x tap)))

  -- One interpolated sample: from a lent span where the ring has one, else tap by tap.
  unfoldable pub interpolate : Engine W → List W → ℤ → ℕ → W
  interpolate e kernel first ch = elim (Ring.contiguous (w.nat 0) e.intermediate ch first taps) [
    | some span ↦
        convolve taps 0 kernel (λ tap. get_or e.intermediate.samples (span + tap) (w.nat 0))
          (w.nat 0)
    | none ↦
        convolve taps 0 kernel (λ tap. Ring.get (w.nat 0) e.intermediate ch (first +ℤ pos tap))
          (w.nat 0)
  ]

  -- What follows a successful `output_.push_one`.
  unfoldable pub advance : Engine W → PlanarRing W → List W → Engine W
  advance e ring scratch =
      let position = w.add e.resample_pos e.pitch_ratio in
      let keep = w.floor position -ℤ pos half -ℤ pos 2 in
      record e {
        intermediate =
            if ltb_ℤ (pos 0) keep
            then Ring.discard_before e.intermediate (to_u64 keep)
            else e.intermediate;
        output = ring;
        sample_scratch = scratch;
        resample_pos = position;
        produced_total = u64 (e.produced_total + 1);
      }

  -- `output_.push_one` of the frame; the result says whether the loop goes on.
  unfoldable pub emit_frame : Engine W → (ℕ → W) → Bool × Engine W
  emit_frame e frame =
      let scratch = tabulate e.channels 0 frame in
      let (done, ring) = Ring.push_one e.output (λ ch. get_or scratch ch (w.nat 0)) in
      if done
      then (true, advance e ring scratch)
      else (false, record e { sample_scratch = scratch })

  abbrev pub unity : Engine W → W → Bool
  unity e frac =
      w.lt (w.abs (w.sub e.pitch_ratio (w.nat 1))) (w.lit 1 (10 ^ 12))
      && w.lt (w.abs frac) (w.lit 1 (10 ^ 12))

  -- The body of the loop from the kernel's extent on.
  unfoldable pub resample_frame : Engine W → ℕ → Bool × Engine W
  resample_frame e cutoff =
      let center = w.floor e.resample_pos in
      let first = center -ℤ pos (half - 1) in
      let last = center +ℤ pos half in
      if ltb_ℤ last (pos 0) || leb e.intermediate.end (to_u64 last)
      then (false, e)
      else (let frac = w.sub e.resample_pos (w.int center) in
          if unity e frac
          then (if ltb_ℤ center (pos 0) || ltb (to_u64 center) e.intermediate.start
              then (true, record e { resample_pos = w.nat e.intermediate.start })
              else emit_frame e (λ ch. Ring.get (w.nat 0) e.intermediate ch center))
          else (let phase = min (w.to_ℕ (w.mul frac (w.nat phases))) (phases - 1) in
              emit_frame e (interpolate e (kernel_row cutoff phase) first)))

  -- One round of `while (output_.free_space() > 0)`.
  unfoldable pub resample_step : Engine W → ℕ → ℕ → Bool × Engine W
  resample_step e limit cutoff =
      if free_space e.output == 0 || leb limit e.produced_total
      then (false, e)
      else resample_frame e cutoff

  unfoldable pub resample_loop : ℕ → Engine W → ℕ → ℕ → Engine W
  resample_loop zero e limit cutoff = e
  resample_loop (suc fuel) e limit cutoff =
      let (more, next) = resample_step e limit cutoff in
      elim more [ true ↦ resample_loop fuel next limit cutoff | false ↦ next ]

  -- Only accepted input earns output time.
  unfoldable pub output_limit : Engine W → ℕ
  output_limit e = if e.flushing then e.target_output_frames else w.to_ℕ e.target_output_accum

  -- Each free output slot takes at most one repositioning and one frame, so the fuel is enough.
  unfoldable pub process_resampler : Engine W → Engine W
  process_resampler e =
      let limit = output_limit e in
      if leb limit e.produced_total || free_space e.output == 0
      then e
      else (let desired = w.mul (w.lit 94 100) (min_of (w.nat 1) (w.div (w.nat 1) e.pitch_ratio)) in
          resample_loop (2 * free_space e.output + 2) e limit (cutoff_index desired))
