-- ===== src/Timeline/Window.antt =====
-- src/experimental/pv/pitch_timeline.hpp: the frames that the map still knows.
use boiled_egg.Base.{
  ℕ, ◌+◌, ◌-◌, ◌%◌, ◌^◌, ◌≤◌, ◌<◌, ◌≡◌, ◌≢◌, refl, ap, ◌∙◌, Bool, true, false, Bool-cases, inl, inr,
  arith, length, u64, get_or-set_ne, length-set,
}
use boiled_egg.Floating.{Floating}
use boiled_egg.Ring.Slots.{mod_apart}
use boiled_egg.Timeline.{
  PitchTimeline, append, can_append, contains, at_frame, store_node, advance_clock, no_node, tick,
}

apart_frames : (a n i : ℕ) → i < a → a < i + n → a % n ≢ i % n
apart_frames a n i lt room =
    let gap : i + (a - i) ≡ a = omega arith in
    rw gap at (mod_apart n i (a - i) (omega arith) (omega arith))

module _ {W : Type 0} ⦃w : Floating W⦄ where
  store_keeps :
      (s : PitchTimeline W) (formant : W) (i : ℕ)
      → s.written % length s.nodes ≢ i % length s.nodes
      → at_frame (store_node s formant) i ≡ at_frame s i
  unfolding at_frame
  store_keeps s formant i apart =
      let same : length (store_node s formant).nodes ≡ length s.nodes =
        length-set s.nodes (s.written % length s.nodes) _ in
      rw same
        (get_or-set_ne s.nodes (s.written % length s.nodes) (i % length s.nodes) _ no_node apart)

  clock_keeps :
      (s : PitchTimeline W)
      → ((advance_clock s).nodes ≡ s.nodes) × ((advance_clock s).written ≡ s.written)
  clock_keeps s = elim (Bool-cases s.precise_clock) [
    | inl e ↦ rw e (refl, refl)
    | inr e ↦ rw e (refl, refl)
  ]

  -- The timeline after the ticks of an append.
  abbrev ticked : PitchTimeline W → Bool → PitchTimeline W
  ticked t true = record t { pitch_ramp = tick t.pitch_ramp; time_ramp = tick t.time_ramp }
  ticked t false = t

  abbrev next_frame : PitchTimeline W → PitchTimeline W
  next_frame t = record t { written = u64 (t.written + 1) }

  ticked_keeps :
      (t : PitchTimeline W) (advance : Bool)
      → ((ticked t advance).nodes ≡ t.nodes) × ((ticked t advance).written ≡ t.written)
  ticked_keeps t true = (refl, refl)
  ticked_keeps t false = (refl, refl)

  append_stages :
      (t : PitchTimeline W) (formant : W) (advance : Bool)
      → append t formant advance
        ≡ store_node (next_frame (advance_clock (store_node (ticked t advance) formant))) formant
  unfolding append
  append_stages t formant true = refl
  append_stages t formant false = refl

  at_same : (s s' : PitchTimeline W) (i : ℕ) → s.nodes ≡ s'.nodes → at_frame s i ≡ at_frame s' i
  unfolding at_frame
  at_same s s' i same = rw same refl

  append_room :
      (t : PitchTimeline W) (oldest : ℕ)
      → t.written + 1 < 2 ^ 64
      → can_append t oldest ≡ true
      → (oldest ≤ t.written) × (t.written + 1 < oldest + length t.nodes)
  unfolding can_append
  append_room t oldest small fits = (ground (arith, fits), ground (arith, fits))

  contains_room :
      (t : PitchTimeline W) (i : ℕ)
      → t.written < 2 ^ 64
      → i ≤ t.written
      → t.written < i + length t.nodes
      → contains t i ≡ true
  unfolding contains
  contains_room t i small le lt = ground arith

  -- After an append that `can_append` allows, every earlier frame from `oldest` on is still
  -- contained, and its node is what it was. The count of frames stays below 2^64.
  pub append_keeps :
      (t : PitchTimeline W) (formant : W) (advance : Bool) (oldest i : ℕ)
      → t.written + 1 < 2 ^ 64
      → can_append t oldest ≡ true
      → oldest ≤ i
      → i < t.written
      → (contains (append t formant advance) i ≡ true)
        × (at_frame (append t formant advance) i ≡ at_frame t i)
  append_keeps t formant advance oldest i small fits from lt =
      let s = ticked t advance in
      let c = advance_clock (store_node s formant) in
      let x = next_frame c in
      let ticked_nodes = ticked_keeps t advance in
      let clock_nodes = clock_keeps (store_node s formant) in
      let stored : length (store_node s formant).nodes ≡ length s.nodes =
        length-set s.nodes (s.written % length s.nodes) _ in
      let wide : length x.nodes ≡ length t.nodes =
        ap length clock_nodes.0 ∙ stored ∙ ap length ticked_nodes.0 in
      let later : x.written ≡ t.written + 1 = omega (arith, clock_nodes.1, ticked_nodes.1, small) in
      let (low, room) = append_room t oldest small fits in
      let end_nodes : length (store_node x formant).nodes ≡ length t.nodes =
        length-set x.nodes (x.written % length x.nodes) _ ∙ wide in
      let held : contains (store_node x formant) i ≡ true =
        contains_room (store_node x formant) i (omega (arith, later)) (omega (arith, later))
          (omega (arith, later, end_nodes)) in
      let kept : at_frame (store_node x formant) i ≡ at_frame t i =
        store_keeps x formant i (
          apart_frames x.written (length x.nodes) i (omega (arith, later))
            (omega (arith, later, wide)))
        ∙ at_same x (store_node s formant) i clock_nodes.0
        ∙ store_keeps s formant i (
            apart_frames s.written (length s.nodes) i (omega (arith, ticked_nodes.1))
              (omega (arith, ap length ticked_nodes.0, ticked_nodes.1)))
        ∙ at_same s t i ticked_nodes.0 in
      rw (append_stages t formant advance) (held, kept)
