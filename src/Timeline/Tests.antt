-- ===== src/Timeline/Tests.antt =====
-- Runs of a ramp and of a timeline, and instances of the theorems on them.
use boiled_egg.Base.{◌+◌, ◌≡◌, refl, true, false, [], arith}
use boiled_egg.Floating.{min_of, max_of}
use boiled_egg.Floating.Fixed.{Fixed, fixed_floating, fixed-IsOrdered}
use boiled_egg.Timeline.{
  RatioRamp, PitchTimeline, reset, start, tick, rewind, prepare, ramp, append, can_append, contains,
  at_frame,
}
use boiled_egg.Timeline.Ramp.{ticks, start-arrives, tick_between}
use boiled_egg.Timeline.Window.{append_keeps}

abbrev one : Fixed
one = fixed_floating.nat 1

abbrev two : Fixed
two = fixed_floating.nat 2

-- From 1 to 2 in four frames.
abbrev rising : RatioRamp Fixed
rising = start (reset one) two 4 0 true

start-arrives_example :
    ((ticks (4 + 1) rising).value ≡ two) × ((ticks (4 + 1) rising).remaining ≡ 0)
start-arrives_example = start-arrives fixed-IsOrdered (reset one) two 4 1 0 true

halfway : (ticks 2 rising).value ≡ fixed_floating.lit 3 2
unfolding start reset tick
halfway = refl

tick_between_example :
    (fixed_floating.lt (tick rising).value (min_of rising.value rising.target) ≡ false)
    × (fixed_floating.lt (max_of rising.value rising.target) (tick rising).value ≡ false)
tick_between_example = tick_between fixed-IsOrdered rising

abbrev empty_timeline : PitchTimeline Fixed
empty_timeline = record {
  nodes = [];
  written = 0;
  ramp_frames = 1;
  position = fixed_floating.nat 0;
  output = fixed_floating.nat 0;
  position_error = fixed_floating.nat 0;
  output_error = fixed_floating.nat 0;
  precise_clock = false;
  pitch_ramp = reset one;
  time_ramp = reset one;
}

-- Four nodes, and a pitch that rises for the first four frames, two of which are there.
abbrev two_frames : PitchTimeline Fixed
two_frames =
    append (append (ramp (prepare empty_timeline 4 48000 one one one) two 4 0) one true) one true

two_frames-can_append : can_append two_frames 0 ≡ true
unfolding can_append append rewind
two_frames-can_append = refl

two_frames-written : two_frames.written ≡ 2
unfolding append rewind
two_frames-written = refl

append_keeps_example :
    (contains (append two_frames one true) 1 ≡ true)
    × (at_frame (append two_frames one true) 1 ≡ at_frame two_frames 1)
append_keeps_example =
    append_keeps two_frames one true 0 1 (omega (arith, two_frames-written)) two_frames-can_append
      (omega arith) (omega (arith, two_frames-written))

-- The position after the first frame is its pitch, 5/4.
first_position : (at_frame two_frames 1).position ≡ fixed_floating.lit 5 4
unfolding at_frame append rewind start reset tick
first_position = refl
