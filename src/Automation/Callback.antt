-- ===== src/Automation/Callback.antt =====
-- src/automation_api.inc: the entry points and the processing mode.
use boiled_egg.Base.{
  ℕ, ◌≡◌, refl, ◌<◌, Bool, true, false, not, if◌then◌else◌, List, Option, none, inl, inr,
  Bool-cases, arith,
}
use boiled_egg.Abi.{Result, invalid_argument, invalid_state, ok, is_ok, Planar, read_pointers}
use boiled_egg.Floating.{Floating}
use boiled_egg.Backend.{Backend}
use boiled_egg.Handle.{Handle, streaming, realtime, load_pitch}
use boiled_egg.Automation.{RampEvent, Ramps}
use boiled_egg.Automation.Api.{ramp_batch_check, process_realtime_ramps, push_ramps}

refused :
    (a b : Bool) (checked : Result) (c : Bool)
    → c ≡ true
    → is_ok (
        if a
        then invalid_argument
        else if b
        then invalid_argument
        else if not (is_ok checked)
        then checked
        else if c
        then invalid_state
        else ok)
      ≡ false
refused true b checked c e = refl
refused false true checked c e = refl
refused false false checked c e = elim (Bool-cases (is_ok checked)) [
  | inl fine ↦ rw (fine, e) refl
  | inr bad ↦ rw bad bad
]

module _ {W : Type 0} ⦃w : Floating W⦄ {B : Type 0} ⦃b : Backend W B⦄ ⦃r : Ramps W B⦄ where
  check_streaming :
      (h : Handle W B) (input output : Planar W) (frames : ℕ) (events : Option (List (RampEvent W)))
      (count : ℕ) (pending : W)
      → h.mode ≡ streaming
      → 0 < frames
      → is_ok (ramp_batch_check h input output frames events count true pending) ≡ false
  unfolding ramp_batch_check
  check_streaming h input output frames events count pending active some_frames =
      refused _ _ (r.validate_ramps h.engine events count frames pending) _
        (ground (arith, active, some_frames))

  check_realtime :
      (h : Handle W B) (input output : Planar W) (frames : ℕ) (events : Option (List (RampEvent W)))
      (count : ℕ) (pending : W)
      → h.mode ≡ realtime
      → 0 < frames
      → is_ok (ramp_batch_check h input output frames events count false pending) ≡ false
  unfolding ramp_batch_check
  check_realtime h input output frames events count pending active some_frames =
      refused _ _ (r.validate_ramps h.engine events count frames pending) _
        (ground (arith, active, some_frames))

  -- A call with audio in the other mode is refused whatever its events are, with a result that is
  -- not `ok`: `process_realtime_ramps` on a handle in the streaming mode leaves the handle and the
  -- buffers as they were, and `push_ramps` on a handle in the realtime mode leaves the handle as it
  -- was and accepts nothing.
  pub ramps_exclude :
      (h : Handle W B) (in_place : Bool) (input output : Planar W) (frames : ℕ)
      (events : Option (List (RampEvent W))) (count : ℕ)
      → 0 < frames
      → (h.mode ≡ streaming
          → (is_ok (process_realtime_ramps h in_place input output frames events count).0 ≡ false)
            × ((process_realtime_ramps h in_place input output frames events count).1 ≡ h)
            × ((process_realtime_ramps h in_place input output frames events count).2.destination
                ≡ read_pointers (w.nat 0) output))
        × (h.mode ≡ realtime
            → (is_ok (push_ramps h input frames events count).0 ≡ false)
              × ((push_ramps h input frames events count).1 ≡ 0)
              × ((push_ramps h input frames events count).2 ≡ h))
  unfolding process_realtime_ramps push_ramps
  ramps_exclude h in_place input output frames events count some_frames = (
    λ active.
        let checked =
          check_streaming h input output frames events count (load_pitch h) active some_frames in
        rw checked (checked, refl, refl),
    λ active.
        let checked =
          check_realtime h input none frames events count (load_pitch h) active some_frames in
        rw checked (checked, refl, refl),
  )
