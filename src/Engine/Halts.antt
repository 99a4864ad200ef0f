-- ===== src/Engine/Halts.antt =====
-- src/engine.cpp: the rounds of the loop of `process_resampler`.
use boiled_egg.Base.{
  ℕ, zero, suc, ◌+◌, ◌-◌, ◌*◌, ◌≡◌, refl, ◌<◌, ◌^◌, min, Bool, true, false, ◌||◌, inl, inr, pos,
  ◌+ℤ◌, ◌-ℤ◌, arith, Bool-cases, ltb, leb, ltb_ℤ, ◌==◌, if◌then◌else◌, to_u64, get_or, List,
}
use boiled_egg.Base.Loop.{tabulate}
use boiled_egg.Floating.{Floating, HasFloor, min_of}
use boiled_egg.Ring
use boiled_egg.Ring.{PlanarRing, free_space, size, discard_before, push_one}
use boiled_egg.Ring.Bounds.{IsValid, push_one-IsValid}
use boiled_egg.Engine.{Engine}
use boiled_egg.Engine.Resampler.{
  advance, emit_frame, half, phases, interpolate, kernel_row, resample_frame, resample_step,
  resample_loop, unity, process_resampler, output_limit, cutoff_index,
}

module _ {W : Type 0} ⦃w : Floating W⦄ where
  -- The loop is about to move its position to the start of the intermediate ring.
  abbrev pub misplaced : Engine W → Bool
  misplaced e =
      let center = w.floor e.resample_pos in
      ltb_ℤ center (pos 0) || ltb (to_u64 center) e.intermediate.start

  -- Rounds that may still follow.
  abbrev pub rounds_left : Engine W → ℕ
  rounds_left e = 2 * free_space e.output + (if misplaced e then 1 else 0)

  pub record InDouble (e : Engine W) : Type 0 where
    pub output_ok : IsValid e.output
    pub start_lt : e.intermediate.start < 2 ^ 53
    pub end_lt : e.intermediate.end < 2 ^ 53

  -- A round that goes on brings the end closer.
  pub record Advances (e : Engine W) (step : Bool × Engine W) : Type 0 where
    pub bounded : InDouble step.1
    pub closer : step.0 ≡ true → rounds_left step.1 < rounds_left e
    pub still : step.0 ≡ false → step.1 ≡ e

  discard_before_below :
      (bound : ℕ) (r : PlanarRing W) (i : ℕ)
      → r.start < bound
      → r.end < bound
      → ((discard_before r i).start < bound) × ((discard_before r i).end < bound)
  unfolding discard_before
  discard_before_below bound r i p q = (ground arith, ground arith)

  push_one_room :
      (r : PlanarRing W) (frame : ℕ → W)
      → IsValid r
      → (free_space r == 0) ≡ false
      → ((push_one r frame).0 ≡ true) × (free_space (push_one r frame).1 + 1 ≡ free_space r)
  unfolding push_one
  push_one_room r frame v room = (ground arith, ground arith)

  advance-Advances :
      (e : Engine W) (ring : PlanarRing W) (scratch : List W)
      → InDouble e
      → IsValid ring
      → free_space ring + 1 ≡ free_space e.output
      → InDouble (advance e ring scratch) × (rounds_left (advance e ring scratch) < rounds_left e)
  unfolding advance
  advance-Advances e ring scratch d valid less =
      let keep = w.floor (w.add e.resample_pos e.pitch_ratio) -ℤ pos half -ℤ pos 2 in
      let below = discard_before_below (2 ^ 53) e.intermediate (to_u64 keep) d.start_lt d.end_lt in
      (
        record {
          output_ok = valid;
          start_lt = ground (arith, below, d);
          end_lt = ground (arith, below, d);
        },
        ground arith,
      )

  emit_frame-Advances :
      (e : Engine W) (frame : ℕ → W)
      → InDouble e
      → (free_space e.output == 0) ≡ false
      → Advances e (emit_frame e frame)
  unfolding emit_frame
  emit_frame-Advances e frame d room =
      let scratch = tabulate e.channels 0 frame in
      let source = λ (ch : ℕ). get_or scratch ch (w.nat 0) in
      let valid = push_one-IsValid source d.output_ok in
      let (done, less) = push_one_room e.output source d.output_ok room in
      let (bounded, closer) =
        advance-Advances e (push_one e.output source).1 scratch d valid less in
      rw done (record { bounded = bounded; closer = λ h. closer; still = λ h. absurd cc })

  stay : (e : Engine W) → InDouble e → Advances e (false, e)
  stay e d = record { bounded = d; closer = λ h. absurd cc; still = λ h. refl }

  -- The cutoff that the pitch asks for.
  abbrev pub desired_cutoff : Engine W → W
  desired_cutoff e = w.mul (w.lit 94 100) (min_of (w.nat 1) (w.div (w.nat 1) e.pitch_ratio))

  idle_step :
      (e : Engine W)
      → (leb (output_limit e) e.produced_total || free_space e.output == 0) ≡ true
      → (resample_step e (output_limit e) (cutoff_index (desired_cutoff e))).0 ≡ false
  unfolding resample_step
  idle_step e idle = ground arith

  module _ (laws : HasFloor W) where
    reposition-Advances :
        (e : Engine W)
        → InDouble e
        → misplaced e ≡ true
        → Advances e (true, record e { resample_pos = w.nat e.intermediate.start })
    reposition-Advances e d lost =
        let found = laws.floor-nat e.intermediate.start d.start_lt in
        record {
          bounded = record { output_ok = d.output_ok; start_lt = d.start_lt; end_lt = d.end_lt };
          closer = λ h. rw (lost, found) (ground arith);
          still = λ h. absurd cc;
        }

    resample_frame-Advances :
        (e : Engine W) (cutoff : ℕ)
        → InDouble e
        → (free_space e.output == 0) ≡ false
        → Advances e (resample_frame e cutoff)
    unfolding resample_frame
    resample_frame-Advances e cutoff d room =
        let center = w.floor e.resample_pos in
        let frac = w.sub e.resample_pos (w.int center) in
        let phase = min (w.to_ℕ (w.mul frac (w.nat phases))) (phases - 1) in
        let direct =
          emit_frame-Advances e (λ ch. Ring.get (w.nat 0) e.intermediate ch center) d room in
        let filtered =
          emit_frame-Advances e (interpolate e (kernel_row cutoff phase) (center -ℤ pos (half - 1)))
            d room in
        let last = center +ℤ pos half in
        elim (Bool-cases (ltb_ℤ last (pos 0) || leb e.intermediate.end (to_u64 last))) [
          | inl outside ↦ rw outside (stay e d)
          | inr inside ↦ elim (Bool-cases (unity e frac)) [
            | inl same ↦ elim (Bool-cases (misplaced e)) [
              | inl lost ↦ rw (inside, same, lost) (reposition-Advances e d lost)
              | inr there ↦ rw (inside, same, there) direct
            ]
            | inr bent ↦ rw (inside, bent) filtered
          ]
        ]

    resample_step-Advances :
        (e : Engine W) (limit cutoff : ℕ) → InDouble e → Advances e (resample_step e limit cutoff)
    unfolding resample_step
    resample_step-Advances e limit cutoff d = elim (Bool-cases (free_space e.output == 0)) [
      | inl full ↦ rw full (stay e d)
      | inr room ↦ elim (Bool-cases (leb limit e.produced_total)) [
        | inl spent ↦ rw (room, spent) (stay e d)
        | inr left ↦ rw (room, left) (resample_frame-Advances e cutoff d room)
      ]
    ]

    resample_loop_step :
        (fuel : ℕ) (e : Engine W) (limit cutoff : ℕ)
        → InDouble e
        → rounds_left e < suc fuel
        → ((e' : Engine W)
            → InDouble e'
            → rounds_left e' < fuel
            → (resample_step (resample_loop fuel e' limit cutoff) limit cutoff).0 ≡ false)
        → (resample_step (resample_loop (suc fuel) e limit cutoff) limit cutoff).0 ≡ false
    unfolding resample_loop
    resample_loop_step fuel e limit cutoff d enough rest =
        let a = resample_step-Advances e limit cutoff d in
        elim (Bool-cases (resample_step e limit cutoff).0) [
          | inl more ↦
              rw (resample_loop, more)
                (rest (resample_step e limit cutoff).1 a.bounded
                  (let c = a.closer more in omega arith))
          | inr last ↦ rw (resample_loop, last) (rw (a.still last) last)
        ]

    -- The loop ends at a round that stops by itself.
    pub resample_loop-halts :
        (fuel : ℕ) (e : Engine W) (limit cutoff : ℕ)
        → InDouble e
        → rounds_left e < fuel
        → (resample_step (resample_loop fuel e limit cutoff) limit cutoff).0 ≡ false
    resample_loop-halts zero e limit cutoff d enough = absurd (omega arith)
    resample_loop-halts (suc fuel) e limit cutoff d enough =
        resample_loop_step fuel e limit cutoff d enough
          (λ e' d' enough'. resample_loop-halts fuel e' limit cutoff d' enough')

    -- After `process_resampler` one more round of its loop would stop at once, so the fuel of the
    -- model does not cut the loop short. The conditions are a valid output ring, positions of the
    -- intermediate ring below 2^53, and that whole numbers below 2^53 are their own floor.
    pub process_resampler-halts :
        (e : Engine W)
        → InDouble e
        → (resample_step (process_resampler e) (output_limit e) (cutoff_index (desired_cutoff e))).0
          ≡ false
    unfolding process_resampler
    process_resampler-halts e d =
        elim (Bool-cases (leb (output_limit e) e.produced_total || free_space e.output == 0)) [
          | inl idle ↦ rw idle (idle_step e idle)
          | inr busy ↦ rw busy (
              resample_loop-halts (2 * free_space e.output + 2) e (output_limit e)
                (cutoff_index (desired_cutoff e)) d (ground arith))
        ]
