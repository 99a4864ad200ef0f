-- ===== src/Transport/Kernel.antt =====
-- sdk/transport/transport.cpp: `Interpolator`, and `read`, which samples the source between frames. The
-- table of the bank is the function of its band, phase and tap.
use boiled_egg.Base.{
  ℕ, zero, suc, ◌+◌, ◌-◌, ◌*◌, ◌^◌, min, Bool, ◌&&◌, ◌||◌, ◌==◌, if◌then◌else◌, ltb, ℤ, pos,
  pos_part, neg_part, ◌+ℤ◌, ◌-ℤ◌,
}
use boiled_egg.Floating.{Floating, max_of, clamp, ge}
use boiled_egg.Transport.{Transport, value_at, pi}

abbrev pub taps : ℕ
taps = 32

abbrev pub phases : ℕ
phases = 512

abbrev pub bands : ℕ
bands = 48

-- Frame `center + j - 15`, the one of tap `j`.
abbrev pub tap_frame : ℤ → ℕ → ℤ
tap_frame center j = center +ℤ pos j -ℤ pos 15

module _ {W : Type 0} ⦃w : Floating W⦄ where
  abbrev pub min_cutoff : W
  min_cutoff = w.div (w.nat 1) (w.nat 32)

  unfoldable pub cutoff_of : ℕ → W
  cutoff_of b =
      w.mul min_cutoff (w.pow (w.div (w.nat 1) min_cutoff) (w.div (w.nat b) (w.nat (bands - 1))))

  -- A tap before the taps of its phase are divided by their sum.
  unfoldable pub raw_tap : W → ℕ → ℕ → W
  raw_tap cutoff p j =
      let d = w.sub (w.sub (w.nat j) (w.nat 15)) (w.div (w.nat p) (w.nat phases)) in
      let z = w.mul (w.mul pi d) cutoff in
      let once = w.cos (w.div (w.mul pi d) (w.nat 16)) in
      let twice = w.cos (w.div (w.mul (w.mul (w.nat 2) pi) d) (w.nat 16)) in
      let blackman =
        w.add (w.add (w.lit 42 100) (w.mul (w.lit 5 10) once)) (w.mul (w.lit 8 100) twice) in
      let weight = if w.lt (w.abs d) (w.nat 16) then blackman else w.nat 0 in
      let sinc = if w.lt (w.abs z) (w.lit 1 (10 ^ 14)) then w.nat 1 else w.div (w.sin z) z in
      w.narrow (w.mul (w.mul cutoff sinc) weight)

  -- The sum of `n` terms from `j` on, in double.
  unfoldable pub sum_from : ℕ → ℕ → (ℕ → W) → W → W
  sum_from zero j f total = total
  sum_from (suc n) j f total = sum_from n (j + 1) f (w.add total (f j))

  unfoldable pub kernel : ℕ → ℕ → ℕ → W
  kernel b p j =
      let cutoff = cutoff_of b in
      w.narrow (w.div (raw_tap cutoff p j) (sum_from taps 0 (raw_tap cutoff p) (w.nat 0)))

  unfoldable pub band : W → ℕ
  band step =
      let cutoff = clamp (w.div (w.lit 94 100) (max_of (w.nat 1) step)) min_cutoff (w.nat 1) in
      let scaled =
        w.mul (w.div (w.log (w.div cutoff min_cutoff)) (w.log (w.div (w.nat 1) min_cutoff)))
          (w.nat (bands - 1)) in
      min (pos_part (w.floor scaled)) (bands - 1)

  -- The phase of a fraction of a frame.
  abbrev pub phase_of : W → ℕ
  phase_of fraction = min (w.to_ℕ (w.mul fraction (w.nat phases))) (phases - 1)

  abbrev inside : Transport W → ℤ → Bool
  inside t at = neg_part at == 0 && ltb (pos_part at) t.frames

  abbrev source_at : Transport W → ℤ → ℕ → W
  source_at t at ch = value_at t.source (pos_part at * t.cfg.channels + ch)

  -- The sum over the taps that lie in the file, `n` of them from tap `j` on.
  unfoldable pub sum_taps : ℕ → ℕ → Transport W → ℤ → ℕ → ℕ → W → W
  sum_taps zero j t center phase ch total = total
  sum_taps (suc n) j t center phase ch total =
      let at = tap_frame center j in
      let next =
        if inside t at
        then w.add total (w.mul (source_at t at ch) (kernel t.kernel_band phase j))
        else total in
      sum_taps n (j + 1) t center phase ch next

  unfoldable pub read : Transport W → W → ℕ → W → W
  read t x ch step =
      let center = w.floor x in
      let fraction = w.sub x (w.int center) in
      if w.lt x (w.neg (w.nat taps)) || ge x (w.add (w.nat t.frames) (w.nat taps))
      then w.nat 0
      else if w.eq step (w.nat 1) && w.eq fraction (w.nat 0)
      then (if inside t center then source_at t center ch else w.nat 0)
      else w.narrow (sum_taps taps 0 t center (phase_of fraction) ch (w.nat 0))
