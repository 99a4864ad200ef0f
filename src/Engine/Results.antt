-- ===== src/Engine/Results.antt =====
-- src/engine.cpp: the results of `push` and `pull`.
use boiled_egg.Base.{
  ℕ, ◌+◌, ◌≡◌, refl, ◌≤◌, ◌<◌, min, true, false, Option, none, some, inl, inr, arith, ◌==◌, u64,
  Bool-cases, take,
}
use boiled_egg.Abi.{Result, ok, Planar, is_ok, all_present, read_planar}
use boiled_egg.Floating.{Floating}
use boiled_egg.Ring
use boiled_egg.Ring.{PlanarRing, free_space, size}
use boiled_egg.Ring.Bounds.{IsValid}
use boiled_egg.Ring.Cells.{push_planar_fits}
use boiled_egg.Ring.Fifo.{contents, length-contents, planar_frames, pop_planar_fifo}
use boiled_egg.Engine.{Engine}
use boiled_egg.Engine.Stream.{process_available, accept, push_frames, push, pull}
use boiled_egg.Engine.Keeps.Rounds.{process_available-Keeps}

module _ {W : Type 0} ⦃w : Floating W⦄ where
  -- What a call of `push` that ends with `r` says of `frames` offered and `n` accepted frames.
  pub record PushReport (e : Engine W) (frames : ℕ) (result : Result) (n : ℕ) (e' : Engine W)
      : Type 0 where
    pub complete : is_ok result ≡ (n == frames)
    pub bounded : n ≤ min frames (free_space e.input)
    pub counted : 0 < n → e'.input_total ≡ u64 (e.input_total + n)
    pub untouched : n ≡ 0 → e' ≡ e

  accepted-input_total :
      (fuel : ℕ) (e : Engine W) (ring : PlanarRing W) (n : ℕ)
      → (process_available fuel (accept (record e { input = ring }) n)).input_total
        ≡ u64 (e.input_total + n)
  accepted-input_total fuel e ring n =
      (process_available-Keeps fuel (accept (record e { input = ring }) n)).same.input_total

  push_frames_report :
      (fuel : ℕ) (e : Engine W) (src : ℕ → ℕ → W) (frames : ℕ)
      → IsValid e.input
      → 0 < frames
      → let (result, n, e') = push_frames fuel e src frames in PushReport e frames result n e'
  unfolding push_frames
  push_frames_report fuel e src frames v some_frames =
      let n = min frames (free_space e.input) in
      let fits = push_planar_fits (w.nat 0) e.input v src n (omega arith) in
      let total = accepted-input_total fuel e (Ring.push_planar e.input src n).1 n in
      elim (Bool-cases (n == 0)) [
        | inl full ↦ rw full (record {
          complete = ground arith;
          bounded = omega arith;
          counted = λ h. absurd (omega arith);
          untouched = λ h. refl;
        })
        | inr room ↦ ground (arith, fits, total)
      ]

  -- A call of `push` on an engine with a valid input ring that is not flushing, on every branch:
  -- the result is `ok` exactly if all the frames were accepted; no more are accepted than fit;
  -- the input count grows by the accepted frames modulo 2^64; and with no frame accepted the
  -- engine is unchanged.
  pub push_report :
      (fuel : ℕ) (e : Engine W) (input : Planar W) (frames : ℕ)
      → IsValid e.input
      → e.flushing ≡ false
      → let (result, n, e') = push fuel e input frames in PushReport e frames result n e'
  unfolding push
  push_report fuel e none frames v live = ground arith
  push_report fuel e (some pointers) frames v live = elim (Bool-cases (frames == 0)) [
    | inl empty ↦ ground arith
    | inr offered ↦
        let report =
          push_frames_report fuel e (read_planar (w.nat 0) pointers) frames v (ground arith) in
        ground (arith, report)
  ]

  -- A call of `pull` with all its pointers present and a positive capacity, where the output ring
  -- that the pipeline leaves is valid and its positions have not wrapped around: the result is
  -- `ok`, the frames delivered are the oldest ones of that ring in order, and their number is the
  -- smaller of the capacity and what is there.
  pub pull_delivers :
      (fuel : ℕ) (e : Engine W) (pointers : ℕ → Option (ℕ → W)) (capacity : ℕ)
      → all_present e.channels 0 pointers ≡ true
      → 0 < capacity
      → IsValid (process_available fuel e).output
      → (process_available fuel e).output.start ≤ (process_available fuel e).output.end
      → let (result, n, after, e') = pull fuel e (some pointers) capacity in
        let ready = (process_available fuel e).output in
        (result ≡ ok)
        × (n ≡ min capacity (size ready))
        × (planar_frames ready.channels after n 0 ≡ take n (contents (w.nat 0) ready))
  unfolding pull
  pull_delivers fuel e pointers capacity present some_room v order =
      let ready = process_available fuel e in
      let (count, out, left) =
        pop_planar_fifo (w.nat 0) ready.output v order (read_planar (w.nat 0) pointers) capacity in
      let nonzero : (capacity == 0) ≡ false = ground arith in
      rw (nonzero, present) (refl, rw (length-contents (w.nat 0) ready.output) at count, out)
