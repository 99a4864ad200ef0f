-- ===== src/Engine/Budget.antt =====
-- src/engine.cpp: the invariant of an `Engine`, and the operations that process audio.
use boiled_egg.Base.{
  ℕ, ◌+◌, ◌*◌, ◌≡◌, ◌≤◌, ◌^◌, min, true, false, none, some, inl, inr, to_u64, Bool-cases, arith,
  u32,
}
use boiled_egg.Abi.{Planar, read_planar}
use boiled_egg.Floating.{Floating, IsOrdered, ◌≼◌}
use boiled_egg.Ring
use boiled_egg.Ring.{PlanarRing, free_space, size}
use boiled_egg.Ring.Bounds.{IsValid, push_planar-IsValid, pop_planar-IsValid}
use boiled_egg.Engine.{Engine}
use boiled_egg.Engine.Resampler.{output_limit}
use boiled_egg.Engine.Stream.{process_available, accept, push_frames, push, pull, flush}
use boiled_egg.Engine.Keeps.Relation.{RingsValid, Keeps, output_limit-same}
use boiled_egg.Engine.Keeps.Rounds.{feed_padding-Keeps, process_available-Keeps}

module _ {W : Type 0} ⦃w : Floating W⦄ where
  -- The invariant of an engine between calls.
  pub record IsSound (e : Engine W) : Type 0 where
    pub rings : RingsValid e
    pub budget : e.produced_total ≤ output_limit e
    pub earned : w.nat 0 ≼ e.target_output_accum
    pub ratio_finite : w.is_finite e.time_ratio ≡ true
    pub ratio_positive : w.nat 0 ≼ e.time_ratio

  -- A stage that keeps its stream keeps the invariant.
  Keeps-IsSound : {e e' : Engine W} → Keeps (output_limit e) e e' → IsSound e → IsSound e'
  Keeps-IsSound {e} {e'} k s = record {
    rings = k.rings s.rings;
    budget = rw (output_limit-same k.same) (k.budget s.budget);
    earned = rw k.same.accum s.earned;
    ratio_finite = rw k.same.time_ratio s.ratio_finite;
    ratio_positive = rw k.same.time_ratio s.ratio_positive;
  }

  pub process_available-IsSound :
      (fuel : ℕ) {e : Engine W} → IsSound e → IsSound (process_available fuel e)
  process_available-IsSound fuel {e} s = Keeps-IsSound (process_available-Keeps fuel e) s

  -- The time that an engine has earned with `n` more input frames.
  abbrev pub accum_after : Engine W → ℕ → W
  accum_after e n = w.add e.target_output_accum (w.mul (w.nat n) e.time_ratio)

  abbrev pub InRange : W → Type 0
  InRange x = w.lt x (w.nat (2 ^ 63)) ≡ true

  module _ (laws : IsOrdered W) where
    accept-IsSound :
        (e : Engine W) (ring : PlanarRing W) (n : ℕ)
        → IsSound e
        → e.flushing ≡ false
        → InRange (accum_after e n)
        → IsValid ring
        → IsSound (accept (record e { input = ring }) n)
    unfolding output_limit
    accept-IsSound e ring n s live range valid =
        let extra =
          laws.zero-le-mul (w.nat n) e.time_ratio (laws.nat_finite n) s.ratio_finite
            (laws.zero-le-nat n) s.ratio_positive in
        let grown =
          laws.le-add e.target_output_accum (w.mul (w.nat n) e.time_ratio) s.earned extra in
        let more = laws.to_ℕ_mono e.target_output_accum (accum_after e n) range s.earned grown in
        record {
          rings = record {
            input_ok = valid;
            intermediate_ok = s.rings.intermediate_ok;
            output_ok = s.rings.output_ok;
          };
          budget = ground (arith, s.budget);
          earned = laws.le_trans _ _ _ s.earned grown;
          ratio_finite = s.ratio_finite;
          ratio_positive = s.ratio_positive;
        }

    push_frames-IsSound :
        (fuel : ℕ) (e : Engine W) (src : ℕ → ℕ → W) (frames : ℕ)
        → IsSound e
        → e.flushing ≡ false
        → InRange (accum_after e (min frames (free_space e.input)))
        → IsSound (push_frames fuel e src frames).2
    unfolding push_frames
    push_frames-IsSound fuel e src frames s live range =
        let n = min frames (free_space e.input) in
        let ring = (Ring.push_planar e.input src n).1 in
        let valid = push_planar-IsValid src n s.rings.input_ok in
        let accepted = accept-IsSound e ring n s live range valid in
        ground (arith, s, process_available-IsSound fuel accepted)

    -- A sound engine stays sound over `push`, whatever its result: the three rings stay valid,
    -- and the engine has produced no more frames than its input has earned (than its target,
    -- while it flushes). The condition is that the time earned after the call is below 2^63
    -- frames, for an arithmetic with the ordering laws.
    pub push-IsSound :
        (fuel : ℕ) (e : Engine W) (input : Planar W) (frames : ℕ)
        → IsSound e
        → InRange (accum_after e (min frames (free_space e.input)))
        → IsSound (push fuel e input frames).2
    unfolding push
    push-IsSound fuel e none frames s range = ground (arith, s)
    push-IsSound fuel e (some pointers) frames s range = elim (Bool-cases e.flushing) [
      | inl done ↦ ground (arith, s)
      | inr live ↦ ground (
        arith,
        s,
        push_frames-IsSound fuel e (read_planar (w.nat 0) pointers) frames s live range,
      )
    ]

    with_output-IsSound :
        {e : Engine W} {ring : PlanarRing W}
        → IsSound e
        → IsValid ring
        → IsSound (record e { output = ring })
    unfolding output_limit
    with_output-IsSound s valid = record {
      rings = record {
        input_ok = s.rings.input_ok;
        intermediate_ok = s.rings.intermediate_ok;
        output_ok = valid;
      };
      budget = s.budget;
      earned = s.earned;
      ratio_finite = s.ratio_finite;
      ratio_positive = s.ratio_positive;
    }

    -- A sound engine stays sound over `pull`, whatever its result and its buffers, for an
    -- arithmetic with the ordering laws.
    pub pull-IsSound :
        (fuel : ℕ) (e : Engine W) (output : Planar W) (capacity : ℕ)
        → IsSound e
        → IsSound (pull fuel e output capacity).3
    unfolding pull
    pull-IsSound fuel e none capacity s = s
    pull-IsSound fuel e (some pointers) capacity s =
        let ready = process_available fuel e in
        let s' = process_available-IsSound fuel s in
        let before = read_planar (w.nat 0) pointers in
        let popped = pop_planar-IsValid (w.nat 0) before capacity s'.rings.output_ok in
        let taken : IsSound
            (record ready { output = (Ring.pop_planar (w.nat 0) ready.output before capacity).2 }) =
          with_output-IsSound s' popped in
        ground (arith, s, process_available-IsSound fuel taken)

    -- The engine that `flush` pads.
    abbrev ending : Engine W → Engine W
    ending e = record e {
      flushing = true;
      target_output_frames = to_u64 (w.llround e.target_output_accum);
    }

    ending-IsSound :
        (e : Engine W)
        → IsSound e
        → e.flushing ≡ false
        → InRange e.target_output_accum
        → IsSound (ending e)
    unfolding output_limit
    ending-IsSound e s live range =
        let rounded = laws.to_ℕ-le-llround e.target_output_accum s.earned range in
        record {
          rings = record {
            input_ok = s.rings.input_ok;
            intermediate_ok = s.rings.intermediate_ok;
            output_ok = s.rings.output_ok;
          };
          budget = ground (arith, s.budget);
          earned = s.earned;
          ratio_finite = s.ratio_finite;
          ratio_positive = s.ratio_positive;
        }

    marked : {e : Engine W} → IsSound e → IsSound (record e { flush_padding_done = true })
    unfolding output_limit
    marked s = record {
      rings = record {
        input_ok = s.rings.input_ok;
        intermediate_ok = s.rings.intermediate_ok;
        output_ok = s.rings.output_ok;
      };
      budget = s.budget;
      earned = s.earned;
      ratio_finite = s.ratio_finite;
      ratio_positive = s.ratio_positive;
    }

    -- A sound engine stays sound over `flush`, also where the padding does not fit, if the time
    -- it has earned is below 2^63 frames, for an arithmetic with the ordering laws: the target of
    -- the flush is not below what was produced.
    pub flush-IsSound :
        (fuel : ℕ) (e : Engine W)
        → IsSound e
        → InRange e.target_output_accum
        → IsSound (flush fuel e).1
    unfolding flush
    flush-IsSound fuel e s range = elim (Bool-cases e.flushing) [
      | inl done ↦ ground (arith, process_available-IsSound fuel s)
      | inr live ↦
          let pad = u32 (e.window + e.search + e.hop * 4) in
          let padded =
            Keeps-IsSound (feed_padding-Keeps _ (ending e) pad) (ending-IsSound e s live range) in
          ground (arith, padded, process_available-IsSound fuel (marked padded))
    ]
