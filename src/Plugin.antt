-- ===== src/Plugin.antt =====
-- adapters/common/pitch_controls.hpp: the controls of the plug-ins, their ids, and the saved state.
-- Values are lists of one float for each control.
pub mod Saved
pub mod Ids
pub mod Processor
mod Tests
use boiled_egg.Base.{
  ℕ, ◌+◌, ◌*◌, ◌/◌, ◌%◌, ◌^◌, Bool, true, false, not, ◌&&◌, ◌||◌, ◌==◌, if◌then◌else◌, ltb, leb,
  List, [], ◌∷◌, ◌++◌, map, Option, none, some, length, get_or, set, drop, sub32,
}
use boiled_egg.Base.Loop.{tabulate}
use boiled_egg.Floating.{Floating, flit, fadd, fmul}

-- `enum Param`: the index of each control.
abbrev pub pitch : ℕ
pitch = 0

abbrev pub fine : ℕ
fine = 1

abbrev pub formant : ℕ
formant = 2

abbrev pub formant_fine : ℕ
formant_fine = 3

abbrev pub backend : ℕ
backend = 9

abbrev pub quality : ℕ
quality = 10

abbrev pub policy : ℕ
policy = 11

abbrev pub count : ℕ
count = 12

-- `Parameter`, without its name and unit.
pub record Parameter (W : Type 0) : Type 0 where
  pub least : W
  pub greatest : W
  pub initial : W
  pub stepped : Bool
  pub automatable : Bool

module _ {W : Type 0} ⦃w : Floating W⦄ where
  abbrev control : W → W → W → Bool → Bool → Parameter W
  control least greatest initial stepped automatable = record {
    least = least;
    greatest = greatest;
    initial = initial;
    stepped = stepped;
    automatable = automatable;
  }

  -- A whole number as a float, and its opposite.
  abbrev whole : ℕ → W
  whole n = flit n 1

  abbrev minus : ℕ → W
  minus n = w.neg (flit n 1)

  abbrev pub parameters : List (Parameter W)
  parameters =
      control (minus 24) (whole 24) (whole 0) false true
      ∷ control (minus 100) (whole 100) (whole 0) false true
      ∷ control (minus 12) (whole 12) (whole 0) false true
      ∷ control (minus 100) (whole 100) (whole 0) false true
      ∷ control (whole 0) (whole 1) (whole 1) false true
      ∷ control (whole 0) (whole 1) (whole 0) false true
      ∷ control (minus 24) (whole 12) (whole 0) false true
      ∷ control (minus 1) (whole 1) (whole 0) false true
      ∷ control (whole 0) (whole 1) (whole 0) true true
      ∷ control (whole 0) (whole 1) (whole 0) true false
      ∷ control (whole 0) (whole 2) (whole 0) true false
      ∷ control (whole 0) (whole 2) (whole 0) true false
      ∷ []

  abbrev pub defaults : List W
  defaults = map (λ p. p.initial) parameters

  -- `v[i]`
  abbrev pub value_of : List W → ℕ → W
  value_of v i = get_or v i (w.nat 0)

  unfoldable pub valid_value : Parameter W → W → Bool
  valid_value p v =
      w.is_finite v
      && w.le p.least v
      && w.le v p.greatest
      && (not p.stepped || w.eq v (w.int (w.floor v)))

  unfoldable pub all_valid : List (Parameter W) → List W → Bool
  all_valid [] vs = true
  all_valid (p ∷ ps) [] = false
  all_valid (p ∷ ps) (v ∷ vs) = let rest = all_valid ps vs in valid_value p v && rest

  abbrev pub total_pitch : List W → W
  total_pitch v = fadd (value_of v pitch) (fmul (value_of v fine) (flit 1 100))

  abbrev pub total_formant : List W → W
  total_formant v = fadd (value_of v formant) (fmul (value_of v formant_fine) (flit 1 100))

  -- `available` is `spectral_available()`.
  unfoldable pub valid_values : Bool → List W → Bool
  valid_values available v =
      let silent = w.eq (total_formant v) (w.nat 0) in
      let off = w.eq (value_of v policy) (w.nat 0) in
      if not (all_valid parameters v)
      then false
      else if w.eq (value_of v backend) (w.nat 1)
      then available
        && w.le (value_of v quality) (w.nat 1)
        && w.le (w.abs (total_pitch v)) (w.nat 12)
        && w.le (w.abs (total_formant v)) (w.nat 12)
        && (not off || silent)
      else off && silent && w.le (w.abs (total_pitch v)) (w.nat 24)

abbrev pub clap_base : ℕ
clap_base = 0x42450001

abbrev pub vst_base : ℕ
vst_base = 1000

-- `clap_param_id` and `vst_id`.
abbrev pub param_id : ℕ → ℕ → ℕ
param_id base i = (base + i) % 2 ^ 32

-- `clap_index` and `vst_index`; `none` is the result false.
unfoldable pub index_of_id : ℕ → ℕ → Option ℕ
index_of_id base id = let i = sub32 id base in if ltb i count then some i else none

abbrev pub state_magic : ℕ
state_magic = 0x42454747

abbrev pub state_size : ℕ
state_size = 16 + 4 * count

-- `read_word` at a pointer: little endian, so the shifted bytes share no bits.
abbrev pub read_word : List ℕ → ℕ
read_word p = get_or p 0 0 + get_or p 1 0 * 2 ^ 8 + get_or p 2 0 * 2 ^ 16 + get_or p 3 0 * 2 ^ 24

-- The four bytes that `write_word` stores.
abbrev pub word_bytes : ℕ → List ℕ
word_bytes v = v % 256 ∷ v / 2 ^ 8 % 256 ∷ v / 2 ^ 16 % 256 ∷ v / 2 ^ 24 % 256 ∷ []

unfoldable pub words_bytes : List ℕ → List ℕ
words_bytes [] = []
words_bytes (v ∷ vs) = word_bytes v ++ words_bytes vs

module _ {W : Type 0} ⦃w : Floating W⦄ where
  unfoldable pub encode : List W → List ℕ
  encode v = words_bytes (state_magic ∷ 2 ∷ state_size ∷ count ∷ map w.bits v)

  -- The values that the bytes hold, before they are validated.
  unfoldable pub read_values : List ℕ → Option (List W)
  read_values bytes =
      let size = length bytes in
      let version = read_word (drop 4 bytes) in
      let bad_one =
        not (size == 12) && not (size == 16)
        || size == 16 && not (read_word (drop 12 bytes) == 0) in
      let bad_two =
        not (size == state_size)
        || not (read_word (drop 8 bytes) == state_size)
        || not (read_word (drop 12 bytes) == count) in
      if ltb size 12 || not (read_word bytes == state_magic)
      then none
      else if version == 1
      then (if bad_one
          then none
          else some (set defaults pitch (w.of_bits (read_word (drop 8 bytes)))))
      else if version == 2
      then (if bad_two
          then none
          else some (tabulate count 0 (λ i. w.of_bits (read_word (drop (16 + 4 * i) bytes)))))
      else none

  unfoldable pub decode : Bool → List ℕ → Option (List W)
  decode available bytes = elim (read_values bytes) [
    | none ↦ none
    | some v ↦ if valid_values available v then some v else none
  ]
