-- ===== src/Backend/Dispatch.antt =====
-- src/backend.cpp, class `BackendEngine`: the WSOLA engine, or the spectral backend where the build
-- has one.
use boiled_egg.Base.{ℕ, ◌+◌, ◌/◌, Bool, ◌&&◌, ◌==◌, if◌then◌else◌, u32, Option, some}
use mathlib.Core.Option
use boiled_egg.Abi.{Result, ok, unsupported_mode, Config, BackendConfig, Planar, phase_vocoder_id}
use boiled_egg.Floating.{Floating, flit}
use boiled_egg.Engine
use boiled_egg.Engine.Stream
use boiled_egg.Engine.{Engine, create}
use boiled_egg.Backend.{Backend}

-- One of `wsola_` and `spectral_` holds a value.
pub data BackendEngine (W : Type 0) (S : Type 0) : Type 0 where
  wsola : Engine W → BackendEngine W S
  spectral : S → BackendEngine W S

module _ {W : Type 0} ⦃w : Floating W⦄ {S : Type 0} where
  -- The constructor; `enabled` is BOILED_EGG_ENABLE_EXPERIMENTAL_SPECTRAL, and `emplace` the
  -- spectral backend's constructor, where `none` is an exception.
  unfoldable pub construct :
      Bool
      → (Config → BackendConfig W → Option S)
      → Config
      → BackendConfig W
      → Option (BackendEngine W S)
  construct enabled emplace c b =
      if enabled && b.backend_id == phase_vocoder_id
      then Option.map spectral (emplace c b)
      else some (wsola (create c))

  -- The result of an operation of one engine, as one of the whole.
  abbrev as_wsola : {A : Type 0} → A × Engine W → A × BackendEngine W S
  as_wsola (a, e) = (a, wsola e)

  abbrev as_spectral : {A : Type 0} → A × S → A × BackendEngine W S
  as_spectral (a, s) = (a, spectral s)

  module _ ⦃b : Backend W S⦄ where
    abbrev pub reset : BackendEngine W S → Result × BackendEngine W S
    reset (wsola e) = (ok, wsola (Engine.reset e))
    reset (spectral s) = as_spectral (b.reset s)

    abbrev pub set_time_ratio : BackendEngine W S → W → Result × BackendEngine W S
    set_time_ratio (wsola e) v = as_wsola (Engine.set_time_ratio e v)
    set_time_ratio (spectral s) v = as_spectral (b.set_time_ratio s v)

    abbrev pub set_pitch_ratio : BackendEngine W S → W → Result × BackendEngine W S
    set_pitch_ratio (wsola e) v = as_wsola (Engine.set_pitch_ratio e v)
    set_pitch_ratio (spectral s) v = as_spectral (b.set_pitch_ratio s v)

    abbrev pub set_formant_ratio : BackendEngine W S → W → Result × BackendEngine W S
    set_formant_ratio (wsola e) v = (if w.eq v (flit 1 1) then ok else unsupported_mode, wsola e)
    set_formant_ratio (spectral s) v = as_spectral (b.set_formant_ratio s v)

    abbrev pub available : BackendEngine W S → ℕ
    available (wsola e) = Engine.available e
    available (spectral s) = b.available s

    abbrev pub input_latency_frames : BackendEngine W S → ℕ
    input_latency_frames (wsola e) = Engine.input_latency_frames e
    input_latency_frames (spectral s) = b.input_latency_frames s

    abbrev pub quantum : BackendEngine W S → Config → ℕ
    quantum (wsola e) c = c.window_frames / 2
    quantum (spectral s) c = b.quantum s c

    abbrev pub realtime_latency : BackendEngine W S → Config → ℕ
    realtime_latency (wsola e) c = u32 (Engine.input_latency_frames e + c.window_frames / 2)
    realtime_latency (spectral s) c = b.realtime_latency s c

    abbrev pub realtime_tail : BackendEngine W S → Config → ℕ
    realtime_tail (wsola e) c = u32 (Engine.input_latency_frames e + c.window_frames / 2)
    realtime_tail (spectral s) c = b.realtime_tail s c

    abbrev pub drained : BackendEngine W S → Bool
    drained (wsola e) = Engine.drained e
    drained (spectral s) = b.drained s

    -- `fuel` bounds the rounds of the engine.
    abbrev pub push : ℕ → BackendEngine W S → Planar W → ℕ → Result × ℕ × BackendEngine W S
    push fuel (wsola e) x n =
        let (result, accepted, e') = Stream.push fuel e x n in (result, accepted, wsola e')
    push fuel (spectral s) x n =
        let (result, accepted, s') = b.push s x n in (result, accepted, spectral s')

    abbrev pub pull :
        ℕ → BackendEngine W S → Planar W → ℕ → Result × ℕ × (ℕ → ℕ → W) × BackendEngine W S
    pull fuel (wsola e) y n =
        let (result, produced, after, e') = Stream.pull fuel e y n in
        (result, produced, after, wsola e')
    pull fuel (spectral s) y n =
        let (result, produced, after, s') = b.pull s y n in (result, produced, after, spectral s')

    abbrev pub flush : ℕ → BackendEngine W S → Result × BackendEngine W S
    flush fuel (wsola e) = as_wsola (Stream.flush fuel e)
    flush fuel (spectral s) = as_spectral (b.flush s)

    -- The whole, as the backend of a handle.
    abbrev pub backend_engine : ℕ → Backend W (BackendEngine W S)
    backend_engine fuel = record {
      reset = reset;
      set_time_ratio = set_time_ratio;
      set_pitch_ratio = set_pitch_ratio;
      set_formant_ratio = set_formant_ratio;
      available = available;
      input_latency_frames = input_latency_frames;
      quantum = quantum;
      realtime_latency = realtime_latency;
      realtime_tail = realtime_tail;
      drained = drained;
      push = push fuel;
      pull = pull fuel;
      flush = flush fuel;
    }
