-- ===== src/Transport/Tests.antt =====
-- sdk/transport/transport.cpp: renders of a file of four frames.
use boiled_egg.Base.{ℕ, ◌+◌, ◌≡◌, refl, some, true, List, [], ◌∷◌, ltb, arith}
use boiled_egg.Floating.Fixed.{Fixed, fixed_floating, fixed-IsOrdered}
use boiled_egg.Transport.{Transport, TransportConfig, ControlEvent, ok, window_size, is_ok}
use boiled_egg.Transport.Lifecycle.{construct, create, malformed, not_qualified, good_samples}
use boiled_egg.Transport.Render.{check_event, check_events, prepare, render}
use boiled_egg.Transport.Clock.{prepare-halts, render-clock}
use boiled_egg.Transport.Hold.{place, IsInside, render-place, render-IsInside}

-- The mono time-domain mode at 8000 Hz.
abbrev mono : TransportConfig
mono = record {
  struct_size = 32;
  version = 1;
  source_rate = 8000;
  output_rate = 8000;
  channels = 1;
  mode = 3;
  formant_policy = 0;
  max_block_frames = 16;
}

abbrev samples : List Fixed
samples =
    fixed_floating.nat 1 ∷ fixed_floating.nat 2 ∷ fixed_floating.nat 1 ∷ fixed_floating.nat 0 ∷ []

abbrev opened : Transport Fixed
opened = construct mono samples 4

create-opened : create (some mono) (some samples) 4 ≡ (ok, some opened)
unfolding create malformed not_qualified good_samples
create-opened = refl

-- An octave up from frame 1 on.
abbrev octave : ControlEvent Fixed
octave = record {
  offset = 1;
  parameter = 1;
  ramp_frames = 2;
  reserved = 0;
  value = fixed_floating.nat 12;
}

abbrev silent : ℕ → Fixed
silent k = fixed_floating.nat 0

abbrev held : Transport Fixed
held = record opened {
  speed = record {
    value = fixed_floating.nat 0;
    start = fixed_floating.nat 0;
    target = fixed_floating.nat 0;
    length = 0;
    elapsed = 0;
  };
}

accepted : is_ok (render opened (some silent) 4 (some (octave ∷ [])) 1).0 ≡ true
unfolding render check_events check_event construct window_size
accepted = refl

render-clock_example :
    (render opened (some silent) 4 (some (octave ∷ [])) 1).2.clock ≡ opened.clock + 4
unfolding construct
render-clock_example =
    render-clock opened (some silent) 4 (some (octave ∷ [])) 1 (omega arith) accepted

render-place_example : place (render held (some silent) 4 (some (octave ∷ [])) 1).2 ≡ place held
render-place_example = render-place held (some silent) 4 (octave ∷ []) 1 refl refl (refl, tt)

render-IsInside_example : IsInside (render opened (some silent) 4 (some (octave ∷ [])) 1).2
unfolding construct
render-IsInside_example =
    render-IsInside fixed-IsOrdered opened (some silent) 4 (some (octave ∷ [])) 1 refl

prepare-halts_example : ltb 17 (prepare (17 + 1) 17 opened).pv_ready ≡ true
unfolding construct window_size
prepare-halts_example = prepare-halts 17 opened refl (omega arith) (omega arith)
