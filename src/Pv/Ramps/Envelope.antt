-- ===== src/Pv/Ramps/Envelope.antt =====
-- src/experimental/pv/pv_automation.inc: the simulation of `validate_ramps` against what the ramps and
-- the frames of the batch then do to the timeline.
use boiled_egg.Base.{
  ℕ, zero, suc, ◌-◌, ◌==◌, max, ◌≡◌, refl, ap, sym, ◌∙◌, Bool, true, ◌&&◌, if◌then◌else◌,
  Bool-cases, inl, inr, List, [], ◌∷◌,
}
use boiled_egg.Abi.{time_ratio_id}
use boiled_egg.Floating.{Floating}
use boiled_egg.Automation.{RampEvent}
use boiled_egg.Timeline
use boiled_egg.Timeline.{PitchTimeline}
use boiled_egg.Pv.{Pv}
use boiled_egg.Pv.Ramps.{Plan, safe, tick_plan, start_event, goes_on, simulate, apply_ramp}

module _ {W : Type 0} ⦃w : Floating W⦄ where
  -- The ramps that a timeline is in the course of.
  abbrev pub plan_of : PitchTimeline W → Plan W
  plan_of t = record { pitch = t.pitch_ramp; time = t.time_ramp }

  -- The timeline after `n` frames of input.
  unfoldable pub appended : ℕ → Pv W → Pv W
  appended zero e = e
  appended (suc n) e =
      appended n (record e { timeline = Timeline.append e.timeline e.formant_ratio true })

  -- Frames up to an event, the event, and the test of the ramps themselves after each group.
  unfoldable pub stays_safe : Pv W → ℕ → List (RampEvent W) → Bool
  stays_safe e cursor [] = true
  stays_safe e cursor (event ∷ events) =
      let (result, applied) = apply_ramp (appended (event.sample_offset - cursor) e) event in
      let rest = stays_safe applied (max cursor event.sample_offset) events in
      if goes_on event events then rest else safe (plan_of applied.timeline) && rest

  plan_of-append :
      (t : PitchTimeline W) (formant : W)
      → plan_of (Timeline.append t formant true)
        ≡ record { pitch = Timeline.tick t.pitch_ramp; time = Timeline.tick t.time_ramp }
  unfolding Timeline.append
  plan_of-append t formant = elim (Bool-cases t.precise_clock) [
    | inl precise ↦ rw precise refl
    | inr plain ↦ rw plain refl
  ]

  plan_of-appended :
      (n : ℕ) (e : Pv W) → plan_of (appended n e).timeline ≡ tick_plan n (plan_of e.timeline)
  unfolding appended tick_plan
  plan_of-appended zero e = refl
  plan_of-appended (suc n) e =
      plan_of-appended n (record e { timeline = Timeline.append e.timeline e.formant_ratio true })
      ∙ ap (tick_plan n) (plan_of-append e.timeline e.formant_ratio)

  plan_of-apply :
      (e : Pv W) (event : RampEvent W)
      → plan_of (apply_ramp e event).1.timeline ≡ start_event (plan_of e.timeline) event
  unfolding apply_ramp start_event
  plan_of-apply e event = elim (Bool-cases (event.parameter_id == time_ratio_id)) [
    | inl time ↦ rw time refl
    | inr pitch ↦ rw pitch refl
  ]

  -- The simulation that admits a batch is what the batch then does: it succeeds exactly if, with the
  -- events applied and the frames between them appended, the ramps of the timeline stay within the
  -- envelope after each group of events.
  pub simulate-eq-stays_safe :
      (e : Pv W) (cursor : ℕ) (events : List (RampEvent W))
      → simulate (plan_of e.timeline) cursor events ≡ stays_safe e cursor events
  unfolding simulate stays_safe
  simulate-eq-stays_safe e cursor [] = refl
  simulate-eq-stays_safe e cursor (event ∷ events) =
      let before = appended (event.sample_offset - cursor) e in
      let applied = (apply_ramp before event).1 in
      let started : plan_of applied.timeline
          ≡ start_event (tick_plan (event.sample_offset - cursor) (plan_of e.timeline)) event =
        plan_of-apply before event
        ∙ ap (λ p. start_event p event) (plan_of-appended (event.sample_offset - cursor) e) in
      let rest = simulate-eq-stays_safe applied (max cursor event.sample_offset) events in
      let c = max cursor event.sample_offset in
      let g = goes_on event events in
      ap (λ p. if g then simulate p c events else safe p && simulate p c events) (sym started)
      ∙ ap (λ b. if g then b else safe (plan_of applied.timeline) && b) rest
