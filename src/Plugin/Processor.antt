-- ===== src/Plugin/Processor.antt =====
-- adapters/common/pitch_processor.cpp and pitch_processor.hpp, and `Targets` of pitch_controls.hpp: the
-- state of the plug-ins' processor, its requests, latency, activation, reset and `apply`. The handle is
-- one of `Handle`, over any backend; `build` is the constructor of the engine behind it, where `none` is an
-- exception.
pub mod Processing
pub mod Plays
pub mod Serves
pub mod Predicts
mod Tests
use boiled_egg.Base.{
  ℕ, zero, suc, ◌+◌, ◌-◌, ◌*◌, ◌/◌, ◌^◌, min, max, Bool, true, false, not, ◌&&◌, ◌||◌, ◌==◌,
  if◌then◌else◌, ltb, leb, List, [], ◌∷◌, map, Option, none, some, get_or, set, replicate, u32,
}
use boiled_egg.Abi.{Config, BackendConfig, is_ok, io_realtime, allow_experimental, continuous_pitch}
use boiled_egg.Floating.{Floating, flit, fadd, fsub, fmul, fdiv, ne, min_of}
use boiled_egg.Backend.{Backend}
use boiled_egg.Backend.Inventory.{default_config, default_backend_config}
use boiled_egg.Backend.Validate.{create_backend}
use boiled_egg.Handle.{Handle, make_handle, semitones_ratio}
use boiled_egg.Handle.Parameters.{set_pitch_semitones, set_formant_semitones}
use boiled_egg.Handle.Streaming.{RuntimeInfo, get_runtime_info}
use boiled_egg.Handle.Streaming
use boiled_egg.Spectral.{child_latency_bound}
use boiled_egg.Plugin.{
  count, backend, quality, policy, Parameter, parameters, defaults, value_of, valid_value,
  valid_values, total_pitch, total_formant,
}

-- The indices of the controls that the mix reads.
abbrev pub wet : ℕ
wet = 4

abbrev pub dry : ℕ
dry = 5

abbrev pub volume : ℕ
volume = 6

abbrev pub pan : ℕ
pan = 7

abbrev pub bypass : ℕ
bypass = 8

-- `Event`
pub record Event (W : Type 0) : Type 0 where
  pub offset : ℕ
  pub index : ℕ
  pub value : W

-- `Processor`. `targets` are the 32 bits of each float; the dry history of channel `ch` starts at
-- `ch * max(1, latency)`; the other vectors are scratch.
pub record Processor (W : Type 0) (B : Type 0) : Type 0 where
  pub targets : List ℕ
  pub core : Option (Handle W B)
  pub runtime : RuntimeInfo
  pub configuration : List W
  pub audio : List W
  pub rate : ℕ
  pub max_block : ℕ
  pub core_block : ℕ
  pub mix_remaining : ℕ
  pub mix_frames : ℕ
  pub mix : List W
  pub mix_target : List W
  pub mix_step : List W
  pub dry_history : List W
  pub position : ℕ
  pub active : Bool
  pub fault : Bool
  pub error_code : ℕ

-- The two configurations of an activation.
unfoldable pub core_config : ℕ → ℕ → Config
core_config rate max_block = record (default_config rate 2) { max_block_size = min max_block 1024 }

module _ {W : Type 0} ⦃w : Floating W⦄ where
  -- `Targets::snapshot` and `Targets::store`.
  abbrev pub snapshot : List ℕ → List W
  snapshot targets = map w.of_bits targets

  abbrev pub store : List ℕ → ℕ → W → List ℕ
  store targets i v = set targets i (w.bits v)

  abbrev pub store_all : List W → List ℕ
  store_all v = map w.bits v

  abbrev pub same_configuration : List W → List W → Bool
  same_configuration a b =
      w.eq (value_of a backend) (value_of b backend)
      && w.eq (value_of a quality) (value_of b quality)
      && w.eq (value_of a policy) (value_of b policy)

  -- `parameters[i]`; an index out of range has no control.
  abbrev pub parameter_at : List (Parameter W) → ℕ → Option (Parameter W)
  parameter_at [] i = none
  parameter_at (p ∷ ps) zero = some p
  parameter_at (p ∷ ps) (suc i) = parameter_at ps i

  -- `valid_value` of an index.
  unfoldable pub valid_at : ℕ → W → Bool
  valid_at i v = elim (parameter_at parameters i) [ none ↦ false | some p ↦ valid_value p v ]

  -- The four gains of the mix.
  unfoldable pub gains : List W → List W
  gains v =
      let off = value_of v bypass in
      let wet_gain =
        fmul (fmul (value_of v wet) (fsub (flit 1 1) off))
          (w.narrow (w.exp10 (fdiv (value_of v volume) (flit 20 1)))) in
      let dry_gain = fadd (fmul (value_of v dry) (fsub (flit 1 1) off)) off in
      fmul wet_gain (min_of (flit 1 1) (fsub (flit 1 1) (value_of v pan)))
      ∷ fmul wet_gain (min_of (flit 1 1) (fadd (flit 1 1) (value_of v pan)))
      ∷ dry_gain
      ∷ dry_gain
      ∷ []

  -- `operator!=` of two arrays of floats.
  abbrev pub differ : List W → List W → Bool
  differ [] ys = false
  differ (x ∷ xs) [] = false
  differ (x ∷ xs) (y ∷ ys) = ne x y || differ xs ys

  abbrev pub steps : List W → List W → ℕ → List W
  steps [] ys n = []
  steps (x ∷ xs) [] n = []
  steps (x ∷ xs) (y ∷ ys) n = fdiv (fsub x y) (w.narrow (w.nat n)) ∷ steps xs ys n

  -- The latency before an activation.
  unfoldable pub predicted : List W → ℕ → ℕ
  predicted v rate =
      let scale = if ltb 48000 rate then 2 else 1 in
      let n = (if w.eq (value_of v quality) (w.nat 0) then 2048 else 1024) * scale in
      let window = if leb 88200 rate then 1536 else 1024 in
      let search = window / 8 in
      let short = max 256 (window * 3 / 4) / 2 * 2 in
      let narrow_search = min search (max 16 (short / 8)) in
      let fast_search = max 8 (search / 2) in
      if w.eq (value_of v backend) (w.nat 1)
      then u32 (child_latency_bound n (256 * scale) (w.lit 5 10) + 31) / 32 * 32
      else if w.eq (value_of v quality) (w.nat 1)
      then short + narrow_search + short / 2
      else if w.eq (value_of v quality) (w.nat 2)
      then window + fast_search + window / 2
      else window + search + window / 2

  unfoldable pub core_backend : List W → BackendConfig W
  core_backend v =
      let id = w.to_ℕ (value_of v backend) in
      record (default_backend_config {W = W}) {
        backend_id = id;
        quality_mode = w.to_ℕ (value_of v quality);
        formant_policy = w.to_ℕ (value_of v policy);
        io_contract = io_realtime;
        initial_pitch_ratio = semitones_ratio (total_pitch v);
        initial_formant_ratio = semitones_ratio (total_formant v);
        flags = if id == 1 then allow_experimental + continuous_pitch else 0;
      }

module _ {W : Type 0} ⦃w : Floating W⦄ {B : Type 0} where
  abbrev pub current : Processor W B → List W
  current p = snapshot p.targets

  -- `request` of one control, and of all; `available` is `spectral_available()`.
  unfoldable pub request_one : Bool → Processor W B → ℕ → W → Bool × Processor W B
  request_one available p i v =
      let next = set (current p) i v in
      if not (valid_at i v)
      then (false, p)
      else if not (valid_values available next)
      then (false, record p { error_code = 1 })
      else (true, record p { targets = store p.targets i v; error_code = 0 })

  unfoldable pub request : Bool → Processor W B → List W → Bool × Processor W B
  request available p v =
      if not (valid_values available v)
      then (false, record p { error_code = 1 })
      else (true, record p { targets = store_all v; error_code = 0 })

  abbrev pub needs_restart : Processor W B → Bool
  needs_restart p = p.active && not (same_configuration (current p) p.configuration)

  abbrev pub latency : Processor W B → ℕ
  latency p = if p.active then p.runtime.realtime_latency_frames else predicted (current p) p.rate

  abbrev pub tail : Processor W B → ℕ
  tail p = if p.active then p.runtime.realtime_tail_frames else predicted (current p) p.rate

  abbrev pub rate_hint : Processor W B → ℕ → Processor W B
  rate_hint p rate = if p.active then p else record p { rate = rate }

  abbrev pub deactivate : Processor W B → Processor W B
  deactivate p = record p { core = none; active = false; fault = false }

  -- The part of `apply` after the two setters of the handle.
  unfoldable pub retarget : Processor W B → List W → Processor W B
  retarget p v =
      let next = gains v in
      if differ next p.mix_target
      then record p {
        mix_target = next;
        mix_remaining = p.mix_frames;
        mix_step = steps next p.mix p.mix_frames;
        audio = v;
      }
      else record p { audio = v }

module _ {W : Type 0} ⦃w : Floating W⦄ {B : Type 0} ⦃b : Backend W B⦄ where
  unfoldable pub apply : Processor W B → Handle W B → List W → Bool × Processor W B
  apply p h v =
      let (pitched, tuned) = set_pitch_semitones h (total_pitch v) in
      let (formed, shaped) = set_formant_semitones tuned (total_formant v) in
      if not (is_ok pitched)
      then (false, record p { core = some tuned })
      else if not (is_ok formed)
      then (false, record p { core = some shaped })
      else (true, retarget (record p { core = some shaped }) v)

  -- What an activation that has its handle sets.
  unfoldable pub activated : Processor W B → Handle W B → List W → ℕ → ℕ → Processor W B
  activated p h v rate max_block =
      let info = get_runtime_info h in
      record p {
        core = some h;
        rate = rate;
        max_block = max_block;
        core_block = min max_block 1024;
        runtime = info;
        configuration = v;
        audio = v;
        dry_history = replicate (2 * max 1 info.realtime_latency_frames) (w.nat 0);
        position = 0;
        fault = false;
        active = true;
        mix_frames = max 1 (rate / 200);
        mix_remaining = 0;
      }

  abbrev pub settle_mix : Processor W B → Processor W B
  settle_mix p = record p { mix = p.mix_target; mix_remaining = 0 }

  abbrev pub has_core : Processor W B → Bool
  has_core p = elim p.core [ none ↦ false | some h ↦ true ]

  unfoldable pub activate :
      Bool → (Config → BackendConfig W → Option B) → Processor W B → ℕ → ℕ → Bool × Processor W B
  activate available build p rate max_block =
      let v = current p in
      if p.active
        || has_core p
        || ltb rate 8000
        || ltb 384000 rate
        || max_block == 0
        || ltb 65536 max_block
        || not (valid_values available v)
      then (false, p)
      else elim (create_backend available (some (core_config rate max_block))
          (some (core_backend v))).1 [
            | none ↦ (false, p)
            | some (c, config) ↦ elim (build c config) [
              | none ↦ (false, p)
              | some engine ↦
                  let h = make_handle engine c config in
                  let (applied, next) = apply (activated p h v rate max_block) h v in
                  if applied then (true, settle_mix next) else (false, deactivate next)
            ]
          ]

  unfoldable pub reset : Bool → Processor W B → Bool × Processor W B
  reset available p = elim p.core [
    | none ↦ (false, p)
    | some h ↦
        let v = if needs_restart p then p.audio else current p in
        let (applied, next) = apply p h v in
        elim next.core [
          | none ↦ (false, p)
          | some after ↦
              let (result, fresh) = Streaming.reset after in
              let settled = record (settle_mix next) {
                core = some fresh;
                dry_history = replicate (2 * max 1 p.runtime.realtime_latency_frames) (w.nat 0);
                position = 0;
                fault = false;
                error_code = 0;
              } in
              if not (valid_values available v)
              then (false, p)
              else if not applied
              then (false, next)
              else if not (is_ok result)
              then (false, record next { core = some fresh })
              else (true, settled)
        ]
  ]
