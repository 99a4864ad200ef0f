-- ===== src/Engine/Stream.antt =====
-- src/engine.cpp: `feed_padding`, `process_available`, `push`, `pull` and `flush`.
use boiled_egg.Base.{
  ℕ, zero, suc, ◌+◌, ◌-◌, ◌*◌, min, Bool, true, false, not, ◌&&◌, ◌||◌, none, some, to_u64, ltb,
  leb, ◌==◌, if◌then◌else◌, u64, u32,
}
use boiled_egg.Abi.{
  Result, ok, invalid_argument, buffer_full, end_of_stream, internal_error, Planar, all_present,
  read_planar,
}
use boiled_egg.Floating.{Floating}
use boiled_egg.Ring
use boiled_egg.Ring.{size, free_space}
use boiled_egg.Engine.{Engine}
use boiled_egg.Engine.Wsola.{process_wsola_frame}
use boiled_egg.Engine.Resampler.{process_resampler}

module _ {W : Type 0} ⦃w : Floating W⦄ where
  -- `n` bounds the chunks of the `while (frames > 0)` loop: a chunk is at least one frame.
  unfoldable pub padding_loop : ℕ → ℕ → Engine W → Bool × Engine W
  padding_loop zero frames e = (true, e)
  padding_loop (suc n) frames e =
      let chunk = min frames e.max_block in
      let (done, ring) = Ring.push_planar e.input (λ ch i. w.nat 0) chunk in
      let rest = padding_loop n (frames - chunk) (record e { input = ring }) in
      if frames == 0
      then (true, e)
      else if ltb (free_space e.input) chunk
      then (false, e)
      else if done
      then rest
      else (false, e)

  unfoldable pub feed_padding : Engine W → ℕ → Bool × Engine W
  feed_padding e frames = padding_loop frames frames e

  -- `while (intermediate_.free_space() >= hop_)`, with what `progress` became.
  unfoldable pub wsola_loop : ℕ → Engine W → Bool → Bool × Engine W
  wsola_loop zero e progress = (progress, e)
  wsola_loop (suc fuel) e progress = elim (ltb (free_space e.intermediate) e.hop) [
    | true ↦ (progress, e)
    | false ↦
        let (more, next) = process_wsola_frame e in
        elim more [ true ↦ wsola_loop fuel next true | false ↦ (progress, next) ]
  ]

  -- The padding that a flush adds while its target is not reached.
  unfoldable pub pad_round : Engine W → Bool × Engine W
  pad_round e =
      let chunk = min e.max_block (free_space e.input) in
      if ltb 0 chunk then feed_padding e chunk else (false, e)

  -- One round of `while (progress)`; the result says whether there is another.
  unfoldable pub available_round : Engine W → Bool × Engine W
  available_round e =
      let (stretched, hopped) = wsola_loop (suc (free_space e.intermediate)) e false in
      let resampled = process_resampler hopped in
      let progress = stretched || not (size resampled.output == size hopped.output) in
      if resampled.flushing && leb resampled.target_output_frames resampled.produced_total
      then (false, resampled)
      else if not progress
          && resampled.flushing
          && ltb resampled.produced_total resampled.target_output_frames
          && ltb 0 (free_space resampled.output)
      then pad_round resampled
      else (progress, resampled)

  -- `fuel` bounds the rounds.
  unfoldable pub process_available : ℕ → Engine W → Engine W
  process_available zero e = e
  process_available (suc fuel) e =
      let (more, next) = available_round e in
      elim more [ true ↦ process_available fuel next | false ↦ next ]

  -- The bookkeeping of the frames that `push` took.
  abbrev pub accept : Engine W → ℕ → Engine W
  accept e n = record e {
    input_total = u64 (e.input_total + n);
    target_output_accum = w.add e.target_output_accum (w.mul (w.nat n) e.time_ratio);
  }

  -- The part of `push` after its checks: the result and the number of frames accepted.
  unfoldable pub push_frames : ℕ → Engine W → (ℕ → ℕ → W) → ℕ → Result × ℕ × Engine W
  push_frames fuel e src frames =
      let n = min frames (free_space e.input) in
      let (done, ring) = Ring.push_planar e.input src n in
      if n == 0 then (buffer_full, 0, e) else if not done then (internal_error, 0, e) else (
        if n == frames then ok else buffer_full,
        n,
        process_available fuel (accept (record e { input = ring }) n),
      )

  unfoldable pub push : ℕ → Engine W → Planar W → ℕ → Result × ℕ × Engine W
  push fuel e input frames =
      if e.flushing then (end_of_stream, 0, e) else if frames == 0 then (ok, 0, e) else elim input [
        | none ↦ (invalid_argument, 0, e)
        | some pointers ↦
            if all_present e.channels 0 pointers
            then push_frames fuel e (read_planar (w.nat 0) pointers) frames
            else (invalid_argument, 0, e)
      ]

  -- The result, the frames produced, the destination buffers after the call and the engine.
  unfoldable pub pull : ℕ → Engine W → Planar W → ℕ → Result × ℕ × (ℕ → ℕ → W) × Engine W
  pull fuel e output capacity = elim output [
    | none ↦ (if capacity == 0 then ok else invalid_argument, 0, λ ch i. w.nat 0, e)
    | some pointers ↦
        let before = read_planar (w.nat 0) pointers in
        if capacity == 0
        then (ok, 0, before, e)
        else if all_present e.channels 0 pointers
        then (let ready = process_available fuel e in
            let (n, after, ring) = Ring.pop_planar (w.nat 0) ready.output before capacity in
            (ok, n, after, process_available fuel (record ready { output = ring })))
        else (invalid_argument, 0, before, e)
  ]

  unfoldable pub flush : ℕ → Engine W → Result × Engine W
  flush fuel e =
      if e.flushing
      then (ok, process_available fuel e)
      else (let ending = record e {
        flushing = true;
        target_output_frames = to_u64 (w.llround e.target_output_accum);
      } in
          let (fed, padded) = feed_padding ending (u32 (e.window + e.search + e.hop * 4)) in
          if fed
          then (ok, process_available fuel (record padded { flush_padding_done = true }))
          else (buffer_full, padded))
