-- ===== src/Automation/Tests.antt =====
-- src/automation_api.inc: runs of the ramp interface over an engine that only counts frames.
use boiled_egg.Base.{
  ℕ, ◌+◌, ◌≡◌, ◌<◌, refl, some, true, false, if◌then◌else◌, ltb, min, List, [], ◌∷◌, arith,
}
use boiled_egg.Abi.{ok, buffer_full, is_ok, is_full, Config, Planar, read_pointers}
use boiled_egg.Floating.Fixed.{Fixed, fixed_floating}
use boiled_egg.Backend.{Backend}
use boiled_egg.Backend.Inventory.{default_backend_config}
use boiled_egg.Handle.{Handle, streaming, realtime, make_handle}
use boiled_egg.Handle.Chunk.{pointers_at}
use boiled_egg.Automation.{RampEvent, Ramps}
use boiled_egg.Automation.Api.{
  ramp_apply, ramps_at, push_round, push_rounds, process_realtime_ramps, push_ramps,
}
use boiled_egg.Automation.Rounds.{RampsWithin, from_offset, push_rounds_retry}
use boiled_egg.Automation.Callback.{ramps_exclude}

-- An engine that holds two frames.
record Tally : Type 0 where
  waiting : ℕ

instance abbrev tally : Backend Fixed Tally
tally = record {
  reset = λ s. (ok, s);
  set_time_ratio = λ s v. (ok, s);
  set_pitch_ratio = λ s v. (ok, s);
  set_formant_ratio = λ s v. (ok, s);
  available = λ s. s.waiting;
  input_latency_frames = λ s. 0;
  quantum = λ s c. 1;
  realtime_latency = λ s c. 0;
  realtime_tail = λ s c. 0;
  drained = λ s. false;
  push = λ s x n.
      if ltb s.waiting 2 then (ok, n, record { waiting = s.waiting + n }) else (buffer_full, 0, s);
  pull = λ s y n. (ok, min n s.waiting, read_pointers (fixed_floating.nat 0) y, s);
  flush = λ s. (ok, s);
}

instance abbrev tally_ramps : Ramps Fixed Tally
tally_ramps = record {
  validate_ramps = λ s events count frames pitch. ok;
  apply_ramp = λ s e. (ok, s);
  automation_info = λ s info. (ok, info);
  can_accept_ramp_sample = λ s. ltb s.waiting 2;
}

tally_push_full :
    (s : Tally) (x : Planar Fixed) → ltb s.waiting 2 ≡ true → is_full (tally.push s x 1).0 ≡ false
tally_push_full s x free = rw free refl

tally-RampsWithin : RampsWithin Fixed Tally
tally-RampsWithin = record {
  apply_not_full = λ s e. refl;
  apply_accepts = λ s e free. free;
  push_not_full = tally_push_full;
}

abbrev small : Config
small = record {
  struct_size = 32;
  abi_version = 1;
  sample_rate = 8000;
  channels = 1;
  max_block_size = 16;
  window_frames = 4;
  search_frames = 1;
  fifo_frames = 64;
}

abbrev fresh : Handle Fixed Tally
fresh = make_handle (record { waiting = 0 }) small default_backend_config

abbrev ramp : ℕ → ℕ → Fixed
ramp ch i = fixed_floating.nat i

abbrev event_at : ℕ → RampEvent Fixed
event_at n = record {
  struct_size = 32;
  sample_offset = n;
  parameter_id = 2;
  duration_frames = 4;
  curve = 0;
  value = fixed_floating.nat 1;
  reserved0 = 0;
  reserved1 = 0;
}

abbrev events : List (RampEvent Fixed)
events = event_at 1 ∷ event_at 2 ∷ []

push_rounds_retry_example :
    let (result, total, after, later) = push_rounds 3 fresh ramp 0 events 0 in
    (m : ℕ) × (m < 3)
    × (total ≡ 0 + m)
    × (push_rounds m fresh ramp 0 events 0 ≡ (ok, total, after, later))
    × (later ≡ from_offset (0 + m) events)
unfolding push_rounds push_round ramps_at ramp_apply make_handle
push_rounds_retry_example =
    push_rounds_retry tally-RampsWithin 3 fresh ramp 0 events 0 (omega arith, (omega arith, tt))
      refl

-- The push stops with a full buffer before the third frame, with one event left.
full_run : (push_rounds 3 fresh ramp 0 events 0).0 ≡ buffer_full
unfolding push_rounds push_round ramps_at ramp_apply make_handle
full_run = refl

ramps_exclude_example :
    let active = record fresh { mode = streaming } in
    (active.mode ≡ streaming
      → (is_ok
            (process_realtime_ramps active true
              (pointers_at ramp 0)
              (pointers_at ramp 0)
              2
              (some events)
              2).0
          ≡ false)
        × ((process_realtime_ramps active true
              (pointers_at ramp 0)
              (pointers_at ramp 0)
              2
              (some events)
              2).1
            ≡ active)
        × ((process_realtime_ramps active true
              (pointers_at ramp 0)
              (pointers_at ramp 0)
              2
              (some events)
              2).2.destination
            ≡ read_pointers (fixed_floating.nat 0) (pointers_at ramp 0)))
    × (active.mode ≡ realtime
        → (is_ok (push_ramps active (pointers_at ramp 0) 2 (some events) 2).0 ≡ false)
          × ((push_ramps active (pointers_at ramp 0) 2 (some events) 2).1 ≡ 0)
          × ((push_ramps active (pointers_at ramp 0) 2 (some events) 2).2 ≡ active))
ramps_exclude_example =
    ramps_exclude (record fresh { mode = streaming }) true (pointers_at ramp 0) (pointers_at ramp 0)
      2 (some events) 2 (omega arith)
