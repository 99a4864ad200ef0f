-- ===== src/Timeline.antt =====
-- src/experimental/pv/automation_curve.hpp and pitch_timeline.hpp: control ramps, and the map from
-- source frames to positions.
pub mod Ramp
pub mod Window
mod Tests
use boiled_egg.Base.{
  ℕ, zero, suc, ◌+◌, ◌-◌, ◌/◌, ◌%◌, max, Bool, true, false, not, ◌&&◌, ◌||◌, ◌==◌, if◌then◌else◌,
  ltb, leb, List, [], ◌∷◌, length, get_or, set, replicate, u32, u64, sub32, sub64,
}
use boiled_egg.Floating.{Floating, min_of, max_of, clamp}

-- `ratio_ramp`
pub record RatioRamp (W : Type 0) : Type 0 where
  pub value : W
  pub target : W
  pub step : W
  pub factor : W
  pub origin : W
  pub remaining : ℕ
  pub curve : ℕ
  pub total : ℕ
  pub explicit_linear : Bool

-- `pitch_timeline::node`
pub record Node (W : Type 0) : Type 0 where
  pub position : W
  pub pitch : W
  pub formant : W
  pub output : W

-- `pitch_timeline`, with the members of `automation_plan` in place.
pub record PitchTimeline (W : Type 0) : Type 0 where
  pub nodes : List (Node W)
  pub written : ℕ
  pub ramp_frames : ℕ
  pub position : W
  pub output : W
  pub position_error : W
  pub output_error : W
  pub precise_clock : Bool
  pub pitch_ramp : RatioRamp W
  pub time_ramp : RatioRamp W

module _ {W : Type 0} ⦃w : Floating W⦄ where
  -- `ratio_ramp::reset`
  unfoldable pub reset : W → RatioRamp W
  reset v = record {
    value = v;
    target = v;
    step = w.nat 0;
    factor = w.nat 1;
    origin = v;
    remaining = 0;
    curve = 0;
    total = 0;
    explicit_linear = false;
  }

  unfoldable pub start : RatioRamp W → W → ℕ → ℕ → Bool → RatioRamp W
  start r v n shape explicit_event =
      let begun = record r {
        origin = r.value;
        total = n;
        explicit_linear = explicit_event && shape == 0;
        target = v;
        remaining = n;
        curve = shape;
      } in
      if n == 0
      then record begun { value = v; step = w.nat 0; factor = w.nat 1 }
      else record begun {
        step = w.div (w.sub v r.value) (w.nat n);
        factor =
            if not (shape == 0) then w.exp (w.div (w.log (w.div v r.value)) (w.nat n)) else w.nat 1;
      }

  -- The value that `tick` clamps.
  abbrev pub next_value : RatioRamp W → W
  next_value r =
      if r.remaining == 1
      then r.target
      else if not (r.curve == 0)
      then w.mul r.value r.factor
      else if r.explicit_linear
      then w.add r.origin (w.mul r.step (w.nat (u32 (sub32 r.total r.remaining + 1))))
      else w.add r.value r.step

  unfoldable pub tick : RatioRamp W → RatioRamp W
  tick r = if r.remaining == 0 then r else record r {
    value = clamp (next_value r) (min_of r.value r.target) (max_of r.value r.target);
    remaining = r.remaining - 1;
  }

  -- A node of a resized vector.
  abbrev pub no_node : Node W
  no_node = record { position = w.nat 0; pitch = w.nat 1; formant = w.nat 1; output = w.nat 0 }

  -- `std::vector::resize`: the kept nodes, then new ones.
  abbrev pub resize : ℕ → List (Node W) → List (Node W)
  resize zero xs = []
  resize (suc n) [] = no_node ∷ resize n []
  resize (suc n) (x ∷ xs) = x ∷ resize n xs

  abbrev pub enabled : PitchTimeline W → Bool
  enabled t = not (length t.nodes == 0)

  -- `pitch_timeline::reset`
  unfoldable pub rewind : PitchTimeline W → W → W → PitchTimeline W
  rewind t pitch formant = record t {
    nodes =
        set t.nodes 0
          (record { position = w.nat 0; pitch = pitch; formant = formant; output = w.nat 0 });
    written = 0;
    position = w.nat 0;
    output = w.nat 0;
    position_error = w.nat 0;
    output_error = w.nat 0;
    precise_clock = false;
    pitch_ramp = reset pitch;
    time_ramp = reset t.time_ramp.target;
  }

  abbrev pub prepare : PitchTimeline W → ℕ → ℕ → W → W → W → PitchTimeline W
  prepare t capacity rate time pitch formant =
      rewind
        (record t {
          nodes = resize capacity t.nodes;
          ramp_frames = max 1 (rate / 100);
          time_ramp = reset time;
        })
        pitch formant

  abbrev pub target : PitchTimeline W → W → PitchTimeline W
  target t pitch = if w.eq t.pitch_ramp.target pitch then t else record t {
    pitch_ramp =
        start t.pitch_ramp pitch (if not (t.written == 0) then t.ramp_frames else 0) 0 false;
  }

  abbrev pub ramp : PitchTimeline W → W → ℕ → ℕ → PitchTimeline W
  ramp t value frames curve = record t {
    pitch_ramp = start t.pitch_ramp value frames curve true;
    precise_clock = true;
  }

  -- `time_ramp`
  abbrev pub start_time_ramp : PitchTimeline W → W → ℕ → ℕ → PitchTimeline W
  start_time_ramp t value frames curve = record t {
    time_ramp = start t.time_ramp value frames curve true;
    precise_clock = true;
  }

  unfoldable pub can_append : PitchTimeline W → ℕ → Bool
  can_append t oldest =
      leb oldest t.written && ltb (sub64 (u64 (t.written + 1)) oldest) (length t.nodes)

  unfoldable pub contains : PitchTimeline W → ℕ → Bool
  contains t i = leb i t.written && ltb (sub64 t.written i) (length t.nodes)

  -- `at`
  unfoldable pub at_frame : PitchTimeline W → ℕ → Node W
  at_frame t i = get_or t.nodes (i % length t.nodes) no_node

  -- The node for the present clock and pitch, stored at the present frame.
  abbrev pub store_node : PitchTimeline W → W → PitchTimeline W
  store_node t formant = record t {
    nodes = set t.nodes (t.written % length t.nodes) (record {
      position = t.position;
      pitch = w.narrow t.pitch_ramp.value;
      formant = formant;
      output = t.output;
    });
  }

  -- The two accumulators, compensated on explicit trajectories.
  abbrev pub advance_clock : PitchTimeline W → PitchTimeline W
  advance_clock t =
      let rate = w.mul t.time_ramp.value t.pitch_ramp.value in
      let dp = w.sub rate t.position_error in
      let next_position = w.add t.position dp in
      let dw = w.sub t.time_ramp.value t.output_error in
      let next_output = w.add t.output dw in
      if t.precise_clock
      then record t {
        position = next_position;
        position_error = w.sub (w.sub next_position t.position) dp;
        output = next_output;
        output_error = w.sub (w.sub next_output t.output) dw;
      }
      else record t { position = w.add t.position rate; output = w.add t.output t.time_ramp.value }

  unfoldable pub append : PitchTimeline W → W → Bool → PitchTimeline W
  append t formant advance =
      let ticked =
        if advance
        then record t { pitch_ramp = tick t.pitch_ramp; time_ramp = tick t.time_ramp }
        else t in
      let clocked = advance_clock (store_node ticked formant) in
      store_node (record clocked { written = u64 (clocked.written + 1) }) formant

  -- `position(double)`
  abbrev pub position_of : PitchTimeline W → W → W
  position_of t input =
      let i = w.to_ℕ input in
      let a = at_frame t i in
      let fraction = w.sub input (w.nat i) in
      if w.eq fraction (w.nat 0)
      then a.position
      else w.add a.position (w.mul fraction (w.sub (at_frame t (u64 (i + 1))).position a.position))
