-- ===== src/Abi.antt =====
-- include/boiled_egg/boiled_egg.h: the result codes, the configuration and the planar buffers that
-- cross the C interface.
use boiled_egg.Base.{ℕ, zero, suc, ◌+◌, Bool, true, false, not, Option, none, some, ◌==◌, bit_and}

-- `boiledegg_result`
pub data Result : Type 0 where
  ok invalid_argument out_of_memory buffer_full end_of_stream : Result
  internal_error invalid_state unsupported_mode realtime_underrun : Result

abbrev pub is_ok : Result → Bool
is_ok Result.ok = true
is_ok _ = false

abbrev pub is_underrun : Result → Bool
is_underrun Result.realtime_underrun = true
is_underrun _ = false

abbrev pub is_full : Result → Bool
is_full Result.buffer_full = true
is_full _ = false

-- `boiledegg_config`
pub record Config : Type 0 where
  pub struct_size : ℕ
  pub abi_version : ℕ
  pub sample_rate : ℕ
  pub channels : ℕ
  pub max_block_size : ℕ
  pub window_frames : ℕ
  pub search_frames : ℕ
  pub fifo_frames : ℕ

-- `float* const*`: null, or for each channel null or its samples.
abbrev pub Planar : Type 0 → Type 0
Planar W = Option (ℕ → Option (ℕ → W))

-- The loop that looks for a null channel pointer, from channel `ch` on.
unfoldable pub all_present : {A : Type 0} → ℕ → ℕ → (ℕ → Option A) → Bool
all_present zero ch pointers = true
all_present (suc n) ch pointers =
    let rest = all_present n (ch + 1) pointers in
    elim (pointers ch) [ none ↦ false | some p ↦ rest ]

-- What the pointers lead to; `blank` stands for what is behind a null pointer, and is never read.
abbrev pub read_planar : {W : Type 0} → W → (ℕ → Option (ℕ → W)) → ℕ → ℕ → W
read_planar blank pointers ch i = elim (pointers ch) [ none ↦ blank | some p ↦ p i ]

-- `boiledegg_backend_config`
pub record BackendConfig (W : Type 0) : Type 0 where
  pub struct_size : ℕ
  pub version : ℕ
  pub backend_id : ℕ
  pub quality_mode : ℕ
  pub formant_policy : ℕ
  pub io_contract : ℕ
  pub flags : ℕ
  pub initial_time_ratio : W
  pub initial_pitch_ratio : W
  pub initial_formant_ratio : W
  pub reserved0 : ℕ
  pub reserved1 : ℕ

-- `boiledegg_parameter_event`
pub record ParameterEvent (W : Type 0) : Type 0 where
  pub struct_size : ℕ
  pub sample_offset : ℕ
  pub parameter_id : ℕ
  pub value : W

-- `boiledegg_parameter_state`
pub record ParameterState (W : Type 0) : Type 0 where
  pub struct_size : ℕ
  pub time_ratio : W
  pub pitch_ratio : W
  pub reserved : ℕ

-- `boiledegg_backend_parameter_state`
pub record BackendParameterState (W : Type 0) : Type 0 where
  pub struct_size : ℕ
  pub version : ℕ
  pub backend_id : ℕ
  pub formant_policy : ℕ
  pub time_ratio : W
  pub pitch_ratio : W
  pub formant_ratio : W
  pub reserved : ℕ

-- `boiledegg_parameter_id`, with the two ids of backend.h.
abbrev pub time_ratio_id : ℕ
time_ratio_id = 1

abbrev pub pitch_ratio_id : ℕ
pitch_ratio_id = 2

abbrev pub pitch_semitones_id : ℕ
pitch_semitones_id = 3

abbrev pub formant_ratio_id : ℕ
formant_ratio_id = 4

abbrev pub formant_semitones_id : ℕ
formant_semitones_id = 5

-- `boiledegg_backend_id`
abbrev pub wsola_id : ℕ
wsola_id = 0

abbrev pub phase_vocoder_id : ℕ
phase_vocoder_id = 1

-- `boiledegg_io_contract`
abbrev pub io_auto : ℕ
io_auto = 0

abbrev pub io_streaming : ℕ
io_streaming = 1

abbrev pub io_realtime : ℕ
io_realtime = 2

-- The construction flags of a backend.
abbrev pub allow_experimental : ℕ
allow_experimental = 1

abbrev pub continuous_pitch : ℕ
continuous_pitch = 2

abbrev pub continuous_time : ℕ
continuous_time = 4

abbrev pub formant_low_detail : ℕ
formant_low_detail = 8

-- `flags & flag`
abbrev pub has_flag : ℕ → ℕ → Bool
has_flag flags flag = not (bit_and flags flag == 0)

module _ {W : Type 0} where
  -- `valid_planar_input` and `valid_planar_output`.
  abbrev pub present : ℕ → Planar W → Bool
  present channels none = false
  present channels (some pointers) = all_present channels 0 pointers

  abbrev pub read_pointers : W → Planar W → ℕ → ℕ → W
  read_pointers blank none ch i = blank
  read_pointers blank (some pointers) ch i = read_planar blank pointers ch i
