-- ===== src/Lib.antt =====
-- Verification library of boiled egg, a real-time time-stretching and pitch-shifting library in C++.
--
-- The program, from the inside out, and the files here that model it:
--   src/engine.hpp, PlanarRing: the planar FIFO between the stages.
--       Ring (state and operations), Ring/Slots, Ring/Bounds, Ring/Cells, Ring/Fifo, Ring/Reads.
--   src/engine.hpp and src/engine.cpp, Engine: the WSOLA time stretcher, which takes hops from the
--   input ring to the intermediate ring, and the resampler, which takes frames from there to the
--   output ring.
--       Engine (state, constructor, reset, setters), Engine/Search (correlation and
--       choose_candidate), Engine/Wsola (process_wsola_frame), Engine/Resampler (the kernel bank and
--       process_resampler), Engine/Stream (feed_padding, process_available, push, pull, flush);
--       proofs in Engine/Keeps, Engine/Budget, Engine/Setup, Engine/Results, Engine/Candidates and
--       Engine/Halts.
--   src/backend.hpp and src/backend.cpp, BackendEngine: the engine, or the spectral backend.
--       Backend (the operations as a record), Backend/Dispatch (BackendEngine as an instance),
--       Backend/Inventory (defaults, profiles, query_backend), Backend/Validate
--       (validate_backend_config, create_backend, and create_ex of src/profile.cpp); proofs in
--       Backend/Within and Backend/Creation.
--   src/spectral_backend.cpp, SpectralBackend: the phase vocoder behind the interface of the backends.
--       Spectral (the operations and the host latency); proofs in Spectral/Laws, Spectral/Faults and
--       Spectral/Drains.
--   src/experimental/pv/pv_rt.cpp, pv_automation.inc, fft.cpp, research_features.hpp, ring_index.hpp:
--   the phase vocoder.
--       Fft (complex numbers and the transform), Pv (settings, state, reset), Pv/Config, Pv/Create,
--       Pv/Peaks (find_peaks), Pv/Formant (estimate_formant_gain), Pv/Frame (process_frame), Pv/Drain
--       (drain_safe), Pv/Resample (both resamplers), Pv/Stream (push, flush, pull, setters), Pv/Ramps;
--       proofs in Pv/Keeps, Pv/Finish, Pv/Peaks/Owners and Pv/Ramps/Envelope.
--   src/boiled_egg.cpp, boiledegg_handle and the C interface, over any Backend.
--       Handle (state, mailboxes, mode), Handle/Parameters (validation, setters, batches, saved
--       states), Handle/Streaming (reset, push, pull, flush, runtime info), Handle/Chunk and
--       Handle/Realtime (process_realtime); proofs in Handle/Control, Handle/Modes, Handle/State,
--       Handle/Latency, Handle/Halts and Handle/InPlace.
--   src/automation_api.inc and include/boiled_egg/automation.h, the ramps of a handle, over any Backend
--   with Ramps.
--       Automation (the types and the dispatch), Automation/Api (the entry points); proofs in
--       Automation/Rounds and Automation/Callback.
--   src/experimental/pv/automation_curve.hpp and pitch_timeline.hpp, the control ramps of the phase
--   vocoder and its map from source frames to positions: Timeline (ratio_ramp and pitch_timeline);
--       proofs in Timeline/Ramp and Timeline/Window.
--   adapters/common/pitch_controls.hpp, the controls of the plug-ins, their ids and the saved state:
--       Plugin; proofs in Plugin/Ids and Plugin/Saved.
--   adapters/common/pitch_processor.cpp, the processor of the plug-ins over a handle:
--       Plugin/Processor (state, requests, activation, reset, apply), Plugin/Processor/Processing
--       (segment and process); proofs in Plugin/Processor/Plays, Plugin/Processor/Serves and
--       Plugin/Processor/Predicts.
--   sdk/transport/transport.cpp and transport.h, the transport of a file in memory:
--       Transport (state and ramps), Transport/Lifecycle (construct, create, seek, get_info),
--       Transport/Kernel (Interpolator and read),
--       Transport/Spectrum (find_owners, formants, spectral_frame), Transport/Frames (time_frame and
--       frame), Transport/Render (render); proofs in Transport/Clock and Transport/Hold.
--   include/boiled_egg/boiled_egg.h and backend.h, the types of the C interface: Abi.
-- Base has the shared helpers; Floating the arithmetic. The modules named Tests run the definitions
-- on concrete inputs.
--
-- How the code corresponds to the definitions. A definition has the name of the function it models
-- (without boiledegg_ and the trailing underscore of members); a state is a record, and an operation
-- takes the state and returns its results and the next state. A `float* const*` is an optional
-- function of channel and frame. Integers are native numbers, with the wrap-around of a machine word
-- written out (u32, u64, sub32, sub64); int64_t values are integers without bounds. A float is kept
-- in a mailbox as its 32 bits. The operations of `float` and `double` are a parameter, the record
-- Floating: a float is a double, and each operation of type float is rounded by `narrow`. The laws
-- that proofs use (IsOrdered, HasBits, HasFloor, HasWhole) are named there, and Floating/Fixed satisfies them
-- all.
--
-- Fuel. `padding_loop` has one unit for each frame, and a round takes at least one; `wsola_loop` has
-- one unit for each free frame of the intermediate ring and one more, and each round takes a hop;
-- `process_resampler` has two units for each free frame of the output ring and two more. The rounds
-- of `process_available` are bounded by an argument of push, pull and flush, for all of whose values
-- the theorems on them hold. `process_realtime` has one unit for each event. `segment` has one for each frame, and a block has
-- a frame at least. `prepare` has one for each frame up to the last one that is read, and one more. In the phase vocoder the
-- loops over frames of analysis have one unit for each frame of input and one more, since a frame
-- takes a hop of at least one; `drain_safe` has one for each sample up to its bound; the resamplers
-- have one for each free frame of the FIFO and one more; `flush` has the guard limit of the code. The
-- budgets of 2^32 - 1 rounds that the immediate execution passes to its loops exceed these bounds.
--
-- The mode and the mailboxes are atomic variables. A call is one step here, but the two reads of the
-- mode in set_time_ratio and in the state setters are arguments of their own, since the audio thread
-- may change the mode between them. The handle's pointer arrays are scratch, and the memory that
-- construction allocates is assumed to be there.
--
-- Not modelled: of the phase vocoder the scheduled execution (pv_execution.inc, the sliced transform,
-- SIMD) and the fuzzy modes (fuzzy_phase.hpp), so Spectral is the backend of an I/O contract other than
-- REALTIME; `bytes` of the transport; the CLAP, VST3 and X11 adapters of the plug-ins; the command-line tools;
-- the research prototypes, benchmarks and tests.
pub mod Base
pub mod Ring
pub mod Floating
pub mod Abi
pub mod Engine
pub mod Backend
pub mod Handle
pub mod Plugin
pub mod Timeline
pub mod Automation
pub mod Fft
pub mod Pv
pub mod Spectral
pub mod Transport
