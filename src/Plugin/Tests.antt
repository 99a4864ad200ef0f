-- ===== src/Plugin/Tests.antt =====
-- Instances of the theorems on the controls.
use boiled_egg.Base.{ℕ, ◌≡◌, refl, some, true, false, List, ◌++◌, All, set}
use boiled_egg.Floating.{IsFloat}
use boiled_egg.Floating.Fixed.{Fixed, fixed_floating, fixed-HasBits}
use boiled_egg.Plugin.{
  pitch, defaults, valid_values, word_bytes, state_magic, encode, decode, read_values, all_valid,
  valid_value,
}
use boiled_egg.Plugin.Saved.{decode-encode}

-- Twelve semitones up.
abbrev octave : List Fixed
octave = set defaults pitch (fixed_floating.nat 12)

abbrev old_state : List ℕ
old_state =
    word_bytes state_magic
    ++ word_bytes 1
    ++ word_bytes (fixed_floating.bits (fixed_floating.nat 12))

decode-old_state : decode {W = Fixed} false old_state ≡ some octave
unfolding decode read_values valid_values all_valid valid_value
decode-old_state = refl

octave_valid : valid_values {W = Fixed} false octave ≡ true
unfolding valid_values all_valid valid_value
octave_valid = refl

octave_floats : All IsFloat octave
octave_floats = (
  refl,
  (refl, (refl, (refl, (refl, (refl, (refl, (refl, (refl, (refl, (refl, (refl, tt))))))))))),
)

decode-encode_example : decode false (encode octave) ≡ some octave
decode-encode_example = decode-encode fixed-HasBits false octave octave_floats refl octave_valid
