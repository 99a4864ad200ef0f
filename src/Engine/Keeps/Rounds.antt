-- ===== src/Engine/Keeps/Rounds.antt =====
-- src/engine.cpp: `process_available` and `feed_padding`, for the invariant of the engine.
use boiled_egg.Base.{ℕ, zero, suc, ◌-◌, min, Bool, true, false, arith}
use boiled_egg.Floating.{Floating}
use boiled_egg.Ring
use boiled_egg.Ring.{PlanarRing, free_space, size}
use boiled_egg.Ring.Bounds.{push_planar-IsValid}
use boiled_egg.Engine.{Engine}
use boiled_egg.Engine.Wsola.{process_wsola_frame}
use boiled_egg.Engine.Resampler.{process_resampler, output_limit}
use boiled_egg.Engine.Stream.{
  padding_loop, feed_padding, wsola_loop, pad_round, available_round, process_available,
}
use boiled_egg.Engine.Keeps.Relation.{
  Keeps, Keeps-refl, Keeps-trans, Kept, with_input, output_limit-same,
}
use boiled_egg.Engine.Keeps.Hops.{process_wsola_frame-Keeps}
use boiled_egg.Engine.Keeps.Frames.{process_resampler-Keeps}

module _ {W : Type 0} ⦃w : Floating W⦄ (limit : ℕ) where
  padding_loop-Keeps :
      (n frames : ℕ) (e : Engine W) → Kept limit {A = Bool} e (padding_loop n frames e)
  unfolding padding_loop
  padding_loop-Keeps zero frames e = Keeps-refl e
  padding_loop-Keeps (suc n) frames e =
      let chunk = min frames e.max_block in
      let pushed = push_planar-IsValid {r = e.input} (λ ch i. w.nat 0) chunk in
      let next = record e { input = (Ring.push_planar e.input (λ ch i. w.nat 0) chunk).1 } in
      let rest =
        Keeps-trans (with_input limit e next.input pushed)
          (padding_loop-Keeps n (frames - chunk) next) in
      ground (arith, Keeps-refl e, rest)

  pub feed_padding-Keeps :
      (e : Engine W) (frames : ℕ) → Kept limit {A = Bool} e (feed_padding e frames)
  unfolding feed_padding
  feed_padding-Keeps e frames = padding_loop-Keeps frames frames e

  wsola_loop_step :
      (fuel : ℕ) (e : Engine W) (progress : Bool)
      → Kept limit {A = Bool}
          (process_wsola_frame e).1
          (wsola_loop fuel (process_wsola_frame e).1 true)
      → Kept limit {A = Bool} e (wsola_loop (suc fuel) e progress)
  unfolding wsola_loop
  wsola_loop_step fuel e progress rest =
      let step = process_wsola_frame-Keeps limit e in
      ground (arith, Keeps-refl e, step, Keeps-trans step rest)

  wsola_loop-Keeps :
      (fuel : ℕ) (e : Engine W) (progress : Bool)
      → Kept limit {A = Bool} e (wsola_loop fuel e progress)
  unfolding wsola_loop
  wsola_loop-Keeps zero e progress = Keeps-refl e
  wsola_loop-Keeps (suc fuel) e progress =
      wsola_loop_step fuel e progress (wsola_loop-Keeps fuel (process_wsola_frame e).1 true)

  pad_round-Keeps : (e : Engine W) → Kept limit {A = Bool} e (pad_round e)
  unfolding pad_round
  pad_round-Keeps e =
      ground (arith, Keeps-refl e, feed_padding-Keeps e (min e.max_block (free_space e.input)))

module _ {W : Type 0} ⦃w : Floating W⦄ where
  pub available_round-Keeps :
      (e : Engine W) → Kept (output_limit e) {A = Bool} e (available_round e)
  unfolding available_round
  available_round-Keeps e =
      let hopped = (wsola_loop (suc (free_space e.intermediate)) e false).1 in
      let first = wsola_loop-Keeps (output_limit e) (suc (free_space e.intermediate)) e false in
      let second = rw (output_limit-same first.same) at (process_resampler-Keeps hopped) in
      let run = Keeps-trans first second in
      let padded = Keeps-trans run (pad_round-Keeps (output_limit e) (process_resampler hopped)) in
      ground (arith, run, padded)

  -- However many rounds the pipeline runs, it keeps the rings valid, the settings of the stream and
  -- the budget of output frames.
  pub process_available-Keeps :
      (fuel : ℕ) (e : Engine W) → Keeps (output_limit e) e (process_available fuel e)
  unfolding process_available
  process_available-Keeps zero e = Keeps-refl e
  process_available-Keeps (suc fuel) e =
      let round = available_round-Keeps e in
      let next = (available_round e).1 in
      let rest = rw (output_limit-same round.same) at (process_available-Keeps fuel next) in
      ground (arith, round, Keeps-trans round rest)
