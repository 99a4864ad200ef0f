-- ===== src/Handle/Streaming.antt =====
-- src/boiled_egg.cpp: the streaming entry points, `boiledegg_reset` and the runtime information.
use boiled_egg.Base.{ℕ, Bool, not, ◌&&◌, ◌==◌, if◌then◌else◌, ◌-◌, Option, none, some}
use boiled_egg.Abi.{Result, ok, invalid_state, is_ok, Planar, phase_vocoder_id, io_streaming}
use boiled_egg.Floating.{Floating}
use boiled_egg.Backend.{Backend}
use boiled_egg.Handle.{
  Handle, idle, streaming, realtime, same_mode, enter_mode, sync_requested_parameters_streaming,
}

-- `boiledegg_runtime_info`, without its size; `capabilities` as a set of bits.
pub record RuntimeInfo : Type 0 where
  pub sample_rate : ℕ
  pub channels : ℕ
  pub max_block_size : ℕ
  pub realtime_latency_frames : ℕ
  pub realtime_tail_frames : ℕ
  pub parameter_quantum_frames : ℕ
  pub capabilities : ℕ

module _ {W : Type 0} ⦃w : Floating W⦄ {B : Type 0} ⦃b : Backend W B⦄ where
  unfoldable pub reset : Handle W B → Result × Handle W B
  reset h =
      let (result, engine) = b.reset h.engine in
      if is_ok result
      then (
        ok,
        sync_requested_parameters_streaming (record h {
          engine = engine;
          realtime_latency_remaining = h.realtime_latency_frames;
          mode = idle;
        }),
      )
      else (result, record h { engine = engine })

  -- The result, the frames accepted (`none` where nothing is written) and the handle.
  unfoldable pub push : Handle W B → Planar W → ℕ → Result × ℕ × Handle W B
  push h input frames =
      let (entered, moved) = enter_mode h streaming in
      let synced = sync_requested_parameters_streaming moved in
      let (result, accepted, engine) = b.push synced.engine input frames in
      if entered
      then (result, accepted, record synced { engine = engine })
      else (invalid_state, 0, moved)

  unfoldable pub pull : Handle W B → Planar W → ℕ → Result × ℕ × Option (ℕ → ℕ → W) × Handle W B
  pull h output capacity =
      let (entered, moved) = enter_mode h streaming in
      let synced = sync_requested_parameters_streaming moved in
      let (result, produced, after, engine) = b.pull synced.engine output capacity in
      if entered
      then (result, produced, some after, record synced { engine = engine })
      else (invalid_state, 0, none, moved)

  unfoldable pub flush : Handle W B → Result × Handle W B
  flush h =
      let (entered, moved) = enter_mode h streaming in
      let synced = sync_requested_parameters_streaming moved in
      let (result, engine) = b.flush synced.engine in
      if entered then (result, record synced { engine = engine }) else (invalid_state, moved)

  unfoldable pub is_drained : Handle W B → Bool
  is_drained h = not (same_mode h.mode realtime) && b.drained h.engine

  -- All capability bits but SAMPLE_ACCURATE_AUTOMATION; a phase vocoder gives up
  -- HARD_REALTIME_PROCESSING (128), a streaming handle FIXED_REALTIME_IO, SAMPLE_OFFSET_EVENTS and
  -- IN_PLACE_REALTIME_IO (44).
  unfoldable pub get_runtime_info : Handle W B → RuntimeInfo
  get_runtime_info h =
      let vocoder = h.backend.backend_id == phase_vocoder_id in
      let stream_only = h.backend.io_contract == io_streaming in
      record {
        sample_rate = h.sample_rate;
        channels = h.channels;
        max_block_size = h.max_block_size;
        realtime_latency_frames = if stream_only then 0 else h.realtime_latency_frames;
        realtime_tail_frames = if stream_only then 0 else h.realtime_tail_frames;
        parameter_quantum_frames = h.parameter_quantum_frames;
        capabilities = 495 - (if vocoder then 128 else 0) - (if stream_only then 44 else 0);
      }
