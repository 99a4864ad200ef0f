-- ===== src/Handle/Tests.antt =====
-- Runs of a handle on the WSOLA engine, and instances of the handle's theorems.
use boiled_egg.Base.{ℕ, ◌≡◌, ◌⊎◌, refl, some, true, false, [], ◌∷◌, arith}
use boiled_egg.Abi.{
  ok, is_ok, Config, all_present, ParameterEvent, ParameterState, BackendParameterState,
}
use boiled_egg.Floating.Fixed.{Fixed, fixed_floating, fixed-HasBits}
use boiled_egg.Ring
use boiled_egg.Engine
use boiled_egg.Engine.Stream
use boiled_egg.Backend.{Backend}
use boiled_egg.Backend.Absent.{no_spectral, no_spectral-PullsWithin, no_spectral-PushesWithin}
use boiled_egg.Backend.Dispatch.{BackendEngine, wsola, backend_engine}
use boiled_egg.Backend.Within.{backend_engine-PullsWithin, backend_engine-PushesWithin}
use boiled_egg.Backend.Inventory.{default_backend_config}
use boiled_egg.Handle.{
  Handle, idle, streaming, realtime, make_handle, load_time, realtime_time_ratio,
}
use boiled_egg.Handle.Chunk.{Buffers, process_realtime_chunk, pointers_at}
use boiled_egg.Handle.Parameters.{
  store_state, validate_backend_state, validate_parameter_value, validate_switch, validate_formant,
  set_time_ratio, set_parameter_state, set_backend_parameter_state, get_backend_parameter_state,
}
use boiled_egg.Handle.Realtime.{process_block, process_realtime}
use boiled_egg.Handle.Streaming.{push}
use boiled_egg.Handle.Control.{
  time_ratio, Transactional, control-Transactional, set_time_ratio_race,
}
use boiled_egg.Handle.State.{backend_state_roundtrip, restored, save_restore}
use boiled_egg.Handle.Latency.{ChunkReport, process_realtime_chunk_report}
use boiled_egg.Handle.Halts.{Returns, process_realtime-Returns}
use boiled_egg.Handle.InPlace.Calls.{apart_outcome, process_block_in_place}

abbrev Core : Type 0
Core = BackendEngine Fixed ⊥

instance abbrev core : Backend Fixed Core
core = backend_engine 8

abbrev small : Config
small = record {
  struct_size = 32;
  abi_version = 1;
  sample_rate = 8000;
  channels = 1;
  max_block_size = 16;
  window_frames = 4;
  search_frames = 1;
  fifo_frames = 64;
}

abbrev fresh : Handle Fixed Core
fresh = make_handle (wsola (Engine.create small)) small default_backend_config

abbrev ramp : ℕ → ℕ → Fixed
ramp ch i = fixed_floating.nat i

abbrev block : Buffers Fixed
block = record { in_place = false; source = ramp; destination = ramp }

abbrev retune : ParameterEvent Fixed
retune = record {
  struct_size = 16;
  sample_offset = 2;
  parameter_id = 2;
  value = fixed_floating.nat 2;
}

process_realtime-Returns_example : Returns (
    process_realtime fresh false (pointers_at ramp 0) (pointers_at ramp 0) 4 (some (retune ∷ [])) 1)
process_realtime-Returns_example =
    process_realtime-Returns fresh false (pointers_at ramp 0) (pointers_at ramp 0) 4
      (some (retune ∷ [])) 1

process_block_in_place_example :
    process_block fresh
      (record { in_place = false; source = ramp; destination = ramp })
      4
      (retune ∷ [])
    ≡ apart_outcome ramp (
        process_block fresh
          (record { in_place = true; source = ramp; destination = ramp })
          4
          (retune ∷ []))
process_block_in_place_example =
    process_block_in_place (backend_engine-PullsWithin 8 no_spectral-PullsWithin)
      (backend_engine-PushesWithin 8 no_spectral-PushesWithin) ramp fresh ramp 4 (retune ∷ [])

control-Transactional_example :
    Transactional fresh
      (set_time_ratio fresh idle idle (fixed_floating.nat 9)).0
      (set_time_ratio fresh idle idle (fixed_floating.nat 9)).1
unfolding make_handle
control-Transactional_example = control-Transactional (time_ratio (fixed_floating.nat 9))

set_time_ratio_race_example :
    let (result, h') = set_time_ratio fresh idle realtime (fixed_floating.nat 2) in
    (is_ok result ≡ false)
    × ((load_time h' ≡ load_time fresh) ⊎ (load_time h' ≡ realtime_time_ratio))
set_time_ratio_race_example =
    set_time_ratio_race fixed-HasBits fresh idle (fixed_floating.nat 2) refl

abbrev live : Handle Fixed Core
live = record fresh { mode = realtime }

abbrev running : Handle Fixed Core
running = record fresh { mode = streaming }

abbrev saved : ParameterState Fixed
saved = record {
  struct_size = 16;
  time_ratio = fixed_floating.nat 2;
  pitch_ratio = fixed_floating.nat 1;
  reserved = 0;
}

abbrev saved_backend : BackendParameterState Fixed
saved_backend = record {
  struct_size = 32;
  version = 1;
  backend_id = 0;
  formant_policy = 0;
  time_ratio = fixed_floating.nat 2;
  pitch_ratio = fixed_floating.nat 3;
  formant_ratio = fixed_floating.nat 1;
  reserved = 0;
}

backend_state_roundtrip_example :
    get_backend_parameter_state
      (set_backend_parameter_state fresh idle idle idle saved_backend).1
      saved_backend
    ≡ (ok, record saved_backend { struct_size = 32 })
unfolding make_handle set_backend_parameter_state set_parameter_state store_state
    validate_backend_state validate_parameter_value validate_switch validate_formant
backend_state_roundtrip_example =
    backend_state_roundtrip fixed-HasBits fresh saved_backend saved_backend refl refl refl
      (omega arith) refl

save_restore_example : (restored fresh saved_backend).1 ≡ fresh
unfolding make_handle get_backend_parameter_state set_backend_parameter_state set_parameter_state
    store_state validate_backend_state validate_parameter_value validate_switch validate_formant
save_restore_example =
    save_restore fixed-HasBits fresh saved_backend (omega arith) (omega arith) (omega arith)
      (omega arith) refl

process_realtime_chunk_report_example :
    let (result, h', io') = process_realtime_chunk fresh block 0 4 in
    ChunkReport fresh block 0 4 h' io'
unfolding make_handle Engine.create Engine.reset Ring.init Ring.reset Ring.push_planar Stream.push
    Stream.push_frames all_present
process_realtime_chunk_report_example =
    process_realtime_chunk_report (backend_engine-PullsWithin 8 no_spectral-PullsWithin) fresh block
      0 4 (omega arith) refl refl
