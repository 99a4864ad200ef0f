-- ===== src/Pv/Tests.antt =====
-- src/experimental/pv/pv_rt.cpp: the peaks of a small spectrum.
use boiled_egg.Base.{ℕ, ◌≡◌, refl, List, [], ◌∷◌, get_or, map, replicate, arith}
use mathlib.Core.List.{Memᴰ}
use boiled_egg.Floating.Fixed.{Fixed, fixed_floating}
use boiled_egg.Automation.{RampEvent}
use boiled_egg.Pv.Small.{vocoder}
use boiled_egg.Pv.Ramps.{simulate}
use boiled_egg.Pv.Ramps.Envelope.{plan_of, stays_safe, simulate-eq-stays_safe}
use boiled_egg.Pv.Peaks.{peaks_of, find_peaks, inner_peaks, maximum_of}
use boiled_egg.Pv.Peaks.Owners.{IsNearest, IsAscending, find_peaks-IsNearest}

abbrev spectrum : List Fixed
spectrum = map fixed_floating.nat (1 ∷ 5 ∷ 2 ∷ 1 ∷ 6 ∷ 1 ∷ [])

abbrev event_at : ℕ → RampEvent Fixed
event_at n = record {
  struct_size = 32;
  sample_offset = n;
  parameter_id = 2;
  duration_frames = 4;
  curve = 0;
  value = fixed_floating.nat 1;
  reserved0 = 0;
  reserved1 = 0;
}

two_peaks : peaks_of 6 spectrum ≡ 1 ∷ 4 ∷ []
unfolding peaks_of inner_peaks maximum_of
two_peaks = refl

find_peaks-IsNearest_example :
    IsNearest 2 (get_or (find_peaks 6 spectrum (replicate 6 9)) 2 0) (peaks_of 6 spectrum)
    × IsAscending 6 0 (peaks_of 6 spectrum)
    × (Memᴰ 2 (peaks_of 6 spectrum) → get_or (find_peaks 6 spectrum (replicate 6 9)) 2 0 ≡ 2)
find_peaks-IsNearest_example =
    find_peaks-IsNearest 6 spectrum (replicate 6 9) 2 refl refl (omega arith)

abbrev events : List (RampEvent Fixed)
events = event_at 1 ∷ event_at 3 ∷ []

simulate-eq-stays_safe_example :
    simulate (plan_of vocoder.timeline) 0 events ≡ stays_safe vocoder 0 events
simulate-eq-stays_safe_example = simulate-eq-stays_safe vocoder 0 events
