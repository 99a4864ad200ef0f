-- ===== src/Engine/Setup.antt =====
-- src/engine.cpp: the constructor, `reset`, the ratio setters and `drained`, for the invariant
-- of the engine.
use boiled_egg.Base.{◌≡◌, ◌≤◌, ◌<◌, ◌^◌, true, false, inl, inr, arith, Bool-cases}
use boiled_egg.Abi.{Config}
use boiled_egg.Floating.{Floating, IsOrdered, ◌≼◌, flit}
use boiled_egg.Ring
use boiled_egg.Ring.Bounds.{init-IsValid, reset-IsValid}
use boiled_egg.Engine.{Engine, reset, create, out_of_ratio_range, set_time_ratio, drained}
use boiled_egg.Engine.Resampler.{output_limit}
use boiled_egg.Engine.Keeps.Relation.{RingsValid}
use boiled_egg.Engine.Budget.{IsSound}

module _ {W : Type 0} ⦃w : Floating W⦄ (laws : IsOrdered W) where
  reset-IsSound :
      (e : Engine W)
      → RingsValid e
      → w.is_finite e.time_ratio ≡ true
      → w.nat 0 ≼ e.time_ratio
      → IsSound (reset e)
  unfolding reset output_limit
  reset-IsSound e v finite positive = record {
    rings = record {
      input_ok = reset-IsValid (w.nat 0) v.input_ok;
      intermediate_ok = reset-IsValid (w.nat 0) v.intermediate_ok;
      output_ok = reset-IsValid (w.nat 0) v.output_ok;
    };
    budget = omega arith;
    earned = laws.zero-le-nat 0;
    ratio_finite = finite;
    ratio_positive = positive;
  }

  -- A new engine is sound, for every configuration with a 32-bit FIFO size and an arithmetic with
  -- the ordering laws.
  pub create-IsSound : (c : Config) → c.fifo_frames < 2 ^ 32 → IsSound {W = W} (create c)
  unfolding create
  create-IsSound c small =
      let ring = init-IsValid (w.nat 0) c.channels c.fifo_frames small in
      reset-IsSound _ (record { input_ok = ring; intermediate_ok = ring; output_ok = ring })
        laws.one_finite laws.zero-le-one

  range_facts :
      (ratio : W)
      → out_of_ratio_range ratio ≡ false
      → (w.is_finite ratio ≡ true) × (w.nat 0 ≼ ratio)
  range_facts ratio h =
      let finite : w.is_finite ratio ≡ true = ground arith in
      let above : w.lt ratio (flit 25 100) ≡ false = ground arith in
      (
        finite,
        laws.le_trans _ _ _ laws.zero-le-quarter
            (laws.le_of_not_lt ratio (flit 25 100) finite laws.quarter_finite above),
      )

  -- A sound engine stays sound over `set_time_ratio`, whether the ratio is taken or refused, for
  -- an arithmetic with the ordering laws.
  pub set_time_ratio-IsSound :
      (e : Engine W) (ratio : W) → IsSound e → IsSound (set_time_ratio e ratio).1
  unfolding set_time_ratio output_limit
  set_time_ratio-IsSound e ratio s = elim (Bool-cases (out_of_ratio_range ratio)) [
    | inl bad ↦ rw bad s
    | inr good ↦
        let (finite, positive) = range_facts ratio good in
        rw good (record {
          rings = record {
            input_ok = s.rings.input_ok;
            intermediate_ok = s.rings.intermediate_ok;
            output_ok = s.rings.output_ok;
          };
          budget = s.budget;
          earned = s.earned;
          ratio_finite = finite;
          ratio_positive = positive;
        })
  ]

module _ {W : Type 0} ⦃w : Floating W⦄ where
  -- A sound engine that reports itself drained has produced exactly the frames that its flush set
  -- as the target, and its output ring is empty.
  pub drained_total :
      (e : Engine W)
      → IsSound e
      → drained e ≡ true
      → (e.produced_total ≡ e.target_output_frames) × (Ring.size e.output ≡ 0)
  unfolding drained output_limit
  drained_total e s done =
      let flushing : e.flushing ≡ true = ground arith in
      let budget : e.produced_total ≤ e.target_output_frames = rw flushing at s.budget in
      (ground arith, ground arith)
