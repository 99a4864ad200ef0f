-- ===== src/Transport/Hold.antt =====
-- sdk/transport/transport.cpp: where a render leaves the source.
use boiled_egg.Base.{
  ℕ, zero, suc, ◌+◌, ◌-◌, ◌*◌, ◌^◌, ◌≡◌, refl, ap, ◌∙◌, inl, inr, Bool, true, false, not, ◌&&◌,
  ◌||◌, ◌==◌, ltb, Bool-cases, List, [], ◌∷◌, Option, none, some, All, take,
}
use boiled_egg.Floating.{Floating, IsOrdered, gt, min_of}
use boiled_egg.Transport.{is_ok, ControlEvent, Ramp, Transport, tick}
use boiled_egg.Transport.Render.{
  check_events, apply_event, apply_events, advance_controls, advance_positions, advance_clock,
  prepared, step, write_output, render_loop, render,
}
use boiled_egg.Transport.Clock.{prepared-kept, apply-kept}

module _ {W : Type 0} ⦃w : Floating W⦄ where
  -- What holds before a render and after its loop holds after the render.
  render_either :
      (P : Transport W → Type 0) (t : Transport W) (output : Option (ℕ → W)) (frames : ℕ)
      (input : Option (List (ControlEvent W))) (count : ℕ)
      → P t
      → (let events : List (ControlEvent W) = elim input [
        | none ↦ []
        | some events ↦ take count events
      ] in
          let y : ℕ → W = elim output [ none ↦ (λ k. w.nat 0) | some y ↦ y ] in
          P (render_loop frames 0 t events y).1)
      → P (render t output frames input count).2
  unfolding render
  render_either P t output frames input count before after =
      let no_output : Bool = elim output [ none ↦ true | some y ↦ false ] in
      let no_events : Bool = elim input [ none ↦ true | some events ↦ false ] in
      let events : List (ControlEvent W) = elim input [
        | none ↦ []
        | some events ↦ take count events
      ] in
      let closed =
        ltb t.cfg.max_block_frames frames
        || not (frames == 0) && no_output
        || ltb 4096 count
        || not (count == 0) && no_events
        || ltb (2 ^ 64 - 1 - frames - 4 * t.n - 32) t.clock in
      elim (Bool-cases closed) [
        | inl refused ↦ rw refused before
        | inr entered ↦ elim (Bool-cases (is_ok (check_events t frames 0 events))) [
          | inr bad ↦ rw (entered, bad) before
          | inl fine ↦ rw (entered, fine) after
        ]
      ]

  -- A control that has reached its target.
  abbrev pub IsSettled : Ramp W → Type 0
  IsSettled r = ltb r.elapsed r.length ≡ false

  tick_settled : (r : Ramp W) → IsSettled r → tick r ≡ r
  unfolding tick
  tick_settled r done = rw done refl

  -- The place in the source, and the speed.
  abbrev pub place : Transport W → W × W × Ramp W
  place t = (t.position, t.source_error, t.speed)

  positions-place :
      (t : Transport W)
      → gt t.speed.value (w.nat 0) ≡ false
      → place (advance_clock (advance_positions t)) ≡ place t
  unfolding advance_clock advance_positions
  positions-place t stopped = rw stopped refl

  step-place :
      (t : Transport W)
      → IsSettled t.speed
      → gt t.speed.value (w.nat 0) ≡ false
      → place (step t) ≡ place t
  unfolding advance_controls
  step-place t done stopped =
      let k = prepared-kept t in
      let speed : (prepared t).speed ≡ t.speed = ap (λ x. x.5) k ∙ tick_settled t.speed done in
      let here : place (prepared t) ≡ place t =
        ap (λ x. (x.1, x.2, x.5)) k
        ∙ ap (λ s. (t.position, t.source_error, s)) (tick_settled t.speed done) in
      positions-place (prepared t) (rw speed stopped) ∙ here

  event-place :
      (t : Transport W) (e : ControlEvent W)
      → (e.parameter == 0) ≡ false
      → place (apply_event t e) ≡ place t
  unfolding apply_event
  event-place t e other = rw other refl

  apply-place :
      (i : ℕ) (t : Transport W) (events : List (ControlEvent W))
      → All (λ e. (e.parameter == 0) ≡ false) events
      → (place (apply_events i t events).0 ≡ place t)
        × All (λ e. (e.parameter == 0) ≡ false) (apply_events i t events).1
  unfolding apply_events
  apply-place i t [] none_ = (refl, tt)
  apply-place i t (e ∷ events) (other, others) = elim (Bool-cases (e.offset == i)) [
    | inl now ↦
        let (same, rest) = apply-place i (apply_event t e) events others in
        rw now (same ∙ event-place t e other, rest)
    | inr later ↦ rw later (refl, (other, others))
  ]

  loop-place :
      (n i : ℕ) (t : Transport W) (events : List (ControlEvent W)) (y : ℕ → W)
      → IsSettled t.speed
      → gt t.speed.value (w.nat 0) ≡ false
      → All (λ e. (e.parameter == 0) ≡ false) events
      → place (render_loop n i t events y).1 ≡ place t
  unfolding render_loop
  loop-place zero i t events y done stopped others = (apply-place i t events others).0
  loop-place (suc n) i t events y done stopped others =
      let (begun, later) = apply_events i t events in
      let (same, rest) = apply-place i t events others in
      let speed : begun.speed ≡ t.speed = ap (λ x. x.2) same in
      let one = step-place begun (rw speed done) (rw speed stopped) in
      let speed' : (step begun).speed ≡ t.speed = ap (λ x. x.2) one ∙ speed in
      loop-place n (i + 1) (step begun) later (write_output (prepared begun) i y) (rw speed' done)
        (rw speed' stopped) rest
      ∙ one
      ∙ same

  All-take :
      (n : ℕ) (P : ControlEvent W → Type 0) (events : List (ControlEvent W))
      → All P events
      → All P (take n events)
  All-take zero P events all = tt
  All-take (suc n) P [] all = tt
  All-take (suc n) P (e ∷ events) (one, others) = (one, All-take n P events others)

  -- A file that is held stands exactly still: with a speed that has settled at zero, and no event that
  -- sets it, a render of any length leaves the position in the source, the rounding error that it
  -- carries and the speed what they were, whether the call is accepted or not.
  pub render-place :
      (t : Transport W) (output : Option (ℕ → W)) (frames : ℕ) (events : List (ControlEvent W))
      (count : ℕ)
      → IsSettled t.speed
      → gt t.speed.value (w.nat 0) ≡ false
      → All (λ e. (e.parameter == 0) ≡ false) events
      → place (render t output frames (some events) count).2 ≡ place t
  render-place t output frames events count done stopped others =
      let y : ℕ → W = elim output [ none ↦ (λ k. w.nat 0) | some y ↦ y ] in
      render_either (λ x. place x ≡ place t) t output frames (some events) count refl
        (loop-place frames 0 t (take count events) y done stopped
          (All-take count (λ e. (e.parameter == 0) ≡ false) events others))

  lt_irrefl : IsOrdered W → (x : W) → w.lt x x ≡ false
  lt_irrefl laws x = elim (Bool-cases (w.lt x x)) [
    | inl below ↦ laws.lt_asymm x x below
    | inr equal ↦ equal
  ]

  min_of_le : IsOrdered W → (a b : W) → w.lt a (min_of a b) ≡ false
  min_of_le laws a b = elim (Bool-cases (w.lt b a)) [
    | inl below ↦ rw below (laws.lt_asymm b a below)
    | inr above ↦ rw above (lt_irrefl laws a)
  ]

  -- The position is not past the end of the file.
  abbrev pub IsInside : Transport W → Type 0
  IsInside t = w.lt (w.nat t.frames) t.position ≡ false

  positions-IsInside :
      IsOrdered W → (t : Transport W) → IsInside t → IsInside (advance_clock (advance_positions t))
  unfolding advance_clock advance_positions
  positions-IsInside laws t inside = elim (Bool-cases (gt t.speed.value (w.nat 0))) [
    | inl moves ↦ rw moves (min_of_le laws (w.nat t.frames) _)
    | inr still ↦ rw still inside
  ]

  step-IsInside : IsOrdered W → (t : Transport W) → IsInside t → IsInside (step t)
  unfolding advance_controls
  step-IsInside laws t inside =
      let k = prepared-kept t in
      let frames : (prepared t).frames ≡ t.frames = ap (λ x. x.3) k in
      let position : (prepared t).position ≡ t.position = ap (λ x. x.1) k in
      positions-IsInside laws (prepared t) (rw (frames, position) inside)

  apply-IsInside :
      (i : ℕ) (t : Transport W) (events : List (ControlEvent W))
      → IsInside t
      → IsInside (apply_events i t events).0
  apply-IsInside i t events inside =
      let k = apply-kept i t events in
      let frames : (apply_events i t events).0.frames ≡ t.frames = ap (λ x. x.3) k in
      let position : (apply_events i t events).0.position ≡ t.position = ap (λ x. x.1) k in
      rw (frames, position) inside

  loop-IsInside :
      IsOrdered W
      → (n i : ℕ) (t : Transport W) (events : List (ControlEvent W)) (y : ℕ → W) → IsInside t
      → IsInside (render_loop n i t events y).1
  unfolding render_loop
  loop-IsInside laws zero i t events y inside = apply-IsInside i t events inside
  loop-IsInside laws (suc n) i t events y inside =
      let (begun, later) = apply_events i t events in
      loop-IsInside laws n (i + 1) (step begun) later (write_output (prepared begun) i y)
        (step-IsInside laws begun (apply-IsInside i t events inside))

  -- Whatever a render is given, the position in the source does not pass the end of the file, if it was
  -- not past it before.
  pub render-IsInside :
      IsOrdered W
      → (t : Transport W) (output : Option (ℕ → W)) (frames : ℕ)
        (input : Option (List (ControlEvent W))) (count : ℕ)
      → IsInside t
      → IsInside (render t output frames input count).2
  render-IsInside laws t output frames input count inside =
      let events : List (ControlEvent W) = elim input [
        | none ↦ []
        | some events ↦ take count events
      ] in
      let y : ℕ → W = elim output [ none ↦ (λ k. w.nat 0) | some y ↦ y ] in
      render_either (λ x. IsInside x) t output frames input count inside
        (loop-IsInside laws frames 0 t events y inside)
