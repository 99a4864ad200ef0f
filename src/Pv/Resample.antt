-- ===== src/Pv/Resample.antt =====
-- src/experimental/pv/pv_rt.cpp: the kernels of the resampler, the intermediate FIFO `pv_fifo_`, and
-- `process_resampler`, which turns its samples into output frames.
use boiled_egg.Base.{
  ℕ, zero, suc, ◌+◌, ◌-◌, ◌*◌, ◌^◌, min, max, Bool, true, false, not, ◌&&◌, ◌||◌, List, map, ℤ, pos,
  negsuc, ◌+ℤ◌, ◌-ℤ◌, ltb_ℤ, to_u64, ltb, leb, if◌then◌else◌, get_or, set, pos_part, u64, sub64,
}
use boiled_egg.Base.Loop.{tabulate}
use boiled_egg.Floating.{Floating, flit, fsub, fmul, gt, min_of, max_of, clamp}
use boiled_egg.Timeline
use boiled_egg.Pv.{Pv, ring_index, enabled, pi_double}

abbrev pub taps : ℕ
taps = 40

-- `k_resampler_half`
abbrev pub half : ℕ
half = 20

abbrev pub phases : ℕ
phases = 1024

abbrev pub cutoffs : ℕ
cutoffs = 32

module _ {W : Type 0} ⦃w : Floating W⦄ where
  unfoldable pub sinc_pi : W → W
  sinc_pi x =
      let p = w.mul pi_double x in
      if w.lt (w.abs x) (w.lit 1 (10 ^ 14)) then w.nat 1 else w.div (w.sin p) p

  abbrev pub cutoff_min : W
  cutoff_min = w.div (w.lit 94 100) (w.nat 4)

  abbrev pub cutoff_max : W
  cutoff_max = w.lit 94 100

  unfoldable pub cutoff_for_index : ℕ → W
  cutoff_for_index i =
      w.add cutoff_min (w.div (w.mul (w.sub cutoff_max cutoff_min) (w.nat i)) (w.nat (cutoffs - 1)))

  unfoldable pub cutoff_index : W → ℕ
  cutoff_index desired =
      let scaled =
        w.div (w.mul (w.sub (clamp desired cutoff_min cutoff_max) cutoff_min) (w.nat (cutoffs - 1)))
          (w.sub cutoff_max cutoff_min) in
      min (pos_part (w.floor scaled)) (cutoffs - 1)

  -- One tap of a row before the row is scaled.
  unfoldable pub tap_value : W → W → ℕ → W
  tap_value cutoff frac tap =
      let distance = w.sub (w.int (pos tap -ℤ pos (half - 1))) frac in
      let turn = w.div (w.mul pi_double distance) (w.nat half) in
      let double_turn = w.div (w.mul (w.mul (w.nat 2) pi_double) distance) (w.nat half) in
      let window =
        w.add (w.add (w.lit 42 100) (w.mul (w.lit 5 10) (w.cos turn)))
          (w.mul (w.lit 8 100) (w.cos double_turn)) in
      if w.le (w.abs distance) (w.nat half)
      then w.mul (w.mul cutoff (sinc_pi (w.mul cutoff distance))) window
      else w.nat 0

  unfoldable pub sum_taps : List W → W → W
  sum_taps List.[] sum = sum
  sum_taps (List.◌∷◌ x xs) sum = sum_taps xs (w.add sum x)

  unfoldable pub kernel_row : ℕ → ℕ → List W
  kernel_row cutoff phase =
      let frac = w.div (w.nat phase) (w.nat phases) in
      let values = tabulate taps 0 (tap_value (cutoff_for_index cutoff) frac) in
      let sum = sum_taps values (w.nat 0) in
      let row = map w.narrow values in
      if gt (w.abs sum) (w.lit 1 (10 ^ 14))
      then map (λ x. fmul x (w.narrow (w.div (w.nat 1) sum))) row
      else row

  abbrev pub pv_count : Pv W → ℕ
  pv_count e = sub64 e.pv_write e.pv_start

  abbrev pub pv_free : Pv W → ℕ
  pv_free e = sub64 e.settings.pv_capacity (pv_count e)

  unfoldable pub pv_get : Pv W → ℕ → ℤ → W
  pv_get e ch (negsuc n) = w.nat 0
  pv_get e ch (pos u) =
      let capacity = e.settings.pv_capacity in
      if ltb u e.pv_start || leb e.pv_write u
      then w.nat 0
      else get_or e.pv_fifo (ch * capacity + ring_index u capacity) (w.nat 0)

  unfoldable pub pv_discard_before : Pv W → ℕ → Pv W
  pv_discard_before e index = record e { pv_start = min (max e.pv_start index) e.pv_write }

  -- One value for each channel at a slot: `n` channels from `ch` on.
  unfoldable pub store_frame : ℕ → ℕ → ℕ → ℕ → (ℕ → W) → List W → List W
  store_frame zero ch capacity slot values xs = xs
  store_frame (suc n) ch capacity slot values xs =
      store_frame n (ch + 1) capacity slot values (set xs (ch * capacity + slot) (values ch))

  unfoldable pub push_final_frame : Pv W → (ℕ → W) → Pv W
  push_final_frame e values =
      let capacity = e.settings.fifo_capacity in
      if leb capacity e.fifo_count || leb e.target_output_frames e.emitted_frames
      then e
      else record e {
        fifo = store_frame e.settings.channels 0 capacity e.fifo_write values e.fifo;
        fifo_write = ring_index (e.fifo_write + 1) capacity;
        fifo_count = e.fifo_count + 1;
        emitted_frames = e.emitted_frames + 1;
      }

  -- The taps around `center`, in double.
  unfoldable pub convolve : ℕ → ℕ → Pv W → List W → ℕ → ℤ → W → W
  convolve zero tap e kernel ch center sum = sum
  convolve (suc n) tap e kernel ch center sum =
      let x = pv_get e ch (center +ℤ (pos tap -ℤ pos (half - 1))) in
      convolve n (tap + 1) e kernel ch center (w.add sum (w.mul x (get_or kernel tap (w.nat 0))))

  abbrev pub phase_of : W → ℕ
  phase_of fraction = min (pos_part (w.llround (w.mul fraction (w.nat phases)))) (phases - 1)

  abbrev pub filtered : Pv W → ℕ → W → ℤ → ℕ → W
  filtered e cutoff fraction center ch =
      w.narrow (convolve taps 0 e (kernel_row cutoff (phase_of fraction)) ch center (w.nat 0))

  -- `if (keep > 0) pv_discard_before(keep)`
  abbrev pub discard_kept : Pv W → ℤ → Pv W
  discard_kept e keep = if ltb_ℤ (pos 0) keep then pv_discard_before e (to_u64 keep) else e

  -- A round of the loop for a pitch ratio of one.
  unfoldable pub copy_step : Pv W → ℕ → Bool × Pv W
  copy_step e limit =
      let capacity = e.settings.pv_capacity in
      let source = ring_index e.pv_start capacity in
      let values = λ (ch : ℕ). get_or e.pv_fifo (ch * capacity + source) (w.nat 0) in
      let fifo_capacity = e.settings.fifo_capacity in
      if ltb e.pv_start e.pv_write && ltb e.emitted_frames limit && ltb e.fifo_count fifo_capacity
      then (
        true,
        record e {
          fifo = store_frame e.settings.channels 0 fifo_capacity e.fifo_write values e.fifo;
          pv_start = e.pv_start + 1;
          resample_pos = w.nat (e.pv_start + 1);
          fifo_write = ring_index (e.fifo_write + 1) fifo_capacity;
          fifo_count = e.fifo_count + 1;
          emitted_frames = e.emitted_frames + 1;
        },
      )
      else (false, e)

  -- A round of the loop for any other pitch ratio.
  unfoldable pub filter_step : Pv W → Bool → ℕ → ℕ → Bool × Pv W
  filter_step e finalizing limit cutoff =
      let center = w.floor e.resample_pos in
      let write = pos e.pv_write in
      let frac = w.sub e.resample_pos (w.int center) in
      let pushed = push_final_frame e (filtered e cutoff frac center) in
      let position = w.add e.resample_pos e.pitch_ratio in
      let keep = w.floor position -ℤ pos half -ℤ pos 2 in
      if not (ltb e.emitted_frames limit && ltb e.fifo_count e.settings.fifo_capacity)
      then (false, e)
      else if not finalizing && not (ltb_ℤ (center +ℤ pos half +ℤ pos 1) write)
      then (false, e)
      else if finalizing && ltb_ℤ (write +ℤ pos half) (center -ℤ pos half)
      then (false, e)
      else (true, discard_kept (record pushed { resample_pos = position }) keep)

  -- The four steps of the search for the source cell of the next output frame: whether the function
  -- goes on, and `output_source_index_`.
  unfoldable pub seek_source : ℕ → Pv W → ℕ → Bool × ℕ
  seek_source zero e index = (Timeline.contains e.timeline (u64 (index + 1)), index)
  seek_source (suc n) e index =
      let next = u64 (index + 1) in
      let rest = seek_source n e next in
      if not (Timeline.contains e.timeline next)
      then (false, index)
      else if gt (Timeline.at_frame e.timeline next).output (w.nat e.emitted_frames)
      then (true, index)
      else rest

  -- The source position of the next output frame, where the time ratio varies: whether it is known.
  unfoldable pub source_position : Pv W → Bool × W
  source_position e =
      let index = e.output_source_index in
      let a = Timeline.at_frame e.timeline index in
      let b = Timeline.at_frame e.timeline (u64 (index + 1)) in
      let fraction = w.div (w.sub (w.nat e.emitted_frames) a.output) (w.sub b.output a.output) in
      (not (w.lt fraction (w.nat 0) || w.le (w.nat 1) fraction), w.add (w.nat index) fraction)

  -- The part of a round from the source position `u` on.
  unfoldable pub timeline_frame : Pv W → Bool → W → Bool × Pv W
  timeline_frame e finalizing u =
      let ui = w.to_ℕ u in
      let position = Timeline.position_of e.timeline u in
      let pitch = (Timeline.at_frame e.timeline ui).pitch in
      let center = w.floor position in
      let fraction = w.sub position (w.int center) in
      let cutoff = cutoff_index (w.mul (w.lit 94 100) (min_of (w.nat 1) (w.div (w.nat 1) pitch))) in
      let sample = λ (ch : ℕ).
        if w.eq pitch (w.nat 1) && w.eq fraction (w.nat 0)
        then pv_get e ch center
        else filtered e cutoff fraction center ch in
      let pushed = push_final_frame e sample in
      if not (Timeline.contains e.timeline ui)
        || not (w.eq u (w.nat ui)) && not (Timeline.contains e.timeline (u64 (ui + 1)))
      then (false, e)
      else if not finalizing && not (ltb_ℤ (center +ℤ pos half +ℤ pos 1) (pos e.pv_write))
      then (false, e)
      else (
        true,
        discard_kept (record pushed { resample_pos = position }) (center -ℤ pos half -ℤ pos 2),
      )

  -- A round of `process_timeline_resampler`.
  unfoldable pub timeline_step : Pv W → Bool → ℕ → Bool × Pv W
  timeline_step e finalizing limit =
      let (found, index) = seek_source 4 e e.output_source_index in
      let sought = record e { output_source_index = index } in
      let (known, u) = source_position sought in
      if not (ltb e.emitted_frames limit && ltb e.fifo_count e.settings.fifo_capacity)
      then (false, e)
      else if not e.variable_time
      then timeline_frame e finalizing (w.div (w.nat e.emitted_frames) e.time_ratio)
      else if found && known
      then timeline_frame sought finalizing u
      else (false, sought)

  -- A loop whose round says whether it goes on.
  unfoldable pub repeat : ℕ → (Pv W → Bool × Pv W) → Pv W → Pv W
  repeat zero round e = e
  repeat (suc fuel) round e =
      let (more, next) = round e in elim more [ true ↦ repeat fuel round next | false ↦ next ]

  -- `floor(max(0, expected))`, the frames that the input has earned.
  abbrev pub earned : W → ℕ
  earned expected = to_u64 (w.floor (max_of (w.nat 0) expected))

  unfoldable pub output_limit : Pv W → Bool → ℕ
  output_limit e finalizing =
      if finalizing then e.target_output_frames else earned e.expected_output_frames

  -- Each round fills a free slot of the FIFO, so the free slots and one more are fuel enough.
  unfoldable pub process_resampler : Bool → Pv W → Pv W
  process_resampler finalizing e =
      let limit = output_limit e finalizing in
      let fuel = e.settings.fifo_capacity - e.fifo_count + 1 in
      let cutoff =
        cutoff_index (w.mul (w.lit 94 100) (min_of (w.nat 1) (w.div (w.nat 1) e.pitch_ratio))) in
      if leb e.settings.fifo_capacity e.fifo_count
      then e
      else if enabled e
      then repeat fuel (λ s. timeline_step s finalizing limit) e
      else if w.lt (w.abs (fsub e.pitch_ratio (flit 1 1))) (flit 1 (10 ^ 7))
      then repeat fuel (λ s. copy_step s limit) e
      else repeat fuel (λ s. filter_step s finalizing limit cutoff) e
