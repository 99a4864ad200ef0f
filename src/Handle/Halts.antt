-- ===== src/Handle/Halts.antt =====
-- src/boiled_egg.cpp: the loops of `boiledegg_process_realtime`.
use boiled_egg.Base.{
  ℕ, zero, suc, ◌-◌, ◌≡◌, refl, ◌≤◌, ◌<◌, Bool, true, false, not, ◌&&◌, ◌||◌, List, [], ◌∷◌, Option,
  none, some, inl, inr, arith, Bool-cases, ltb, ◌==◌, if◌then◌else◌, length,
}
use boiled_egg.Abi.{present, Result, ok, is_ok, is_underrun, ParameterEvent, Planar}
use boiled_egg.Floating.{Floating}
use boiled_egg.Backend.{Backend}
use boiled_egg.Handle.{
  Handle, enter_mode, realtime, idle, same_mode, load_time, non_realtime_ratio, store_time,
  realtime_time_ratio, sync_requested_parameters_realtime,
}
use boiled_egg.Handle.Chunk.{
  Buffers, process_realtime_chunk, apply_event_realtime, is_fatal, input_of,
}
use boiled_egg.Handle.Parameters.{validate_realtime_event}
use boiled_egg.Handle.Realtime.{
  validate_events, apply_group, run_events, check_call, run_callback, process_block,
  process_realtime,
}

-- A computation that returns.
abbrev pub Returns : {A : Type 0} → Option A → Type 0
Returns {A} o = (a : A) × (o ≡ some a)

if_Returns :
    {A : Type 0} (b : Bool) (x y : Option A) → Returns x → Returns y → Returns (if b then x else y)
if_Returns true x y p q = p
if_Returns false x y p q = q

module _ {W : Type 0} where
  -- Events that start at `previous` or later, in order, inside a block of `frames`.
  abbrev pub InOrder : ℕ → ℕ → List (ParameterEvent W) → Type 0
  InOrder previous frames [] = Unit
  InOrder previous frames (event ∷ events) =
      (previous ≤ event.sample_offset)
      × (event.sample_offset < frames)
      × InOrder event.sample_offset frames events

module _ {W : Type 0} ⦃w : Floating W⦄ {B : Type 0} ⦃b : Backend W B⦄ where
  event_inside :
      (h : Handle W B) (event : ParameterEvent W) (frames : ℕ)
      → is_ok (validate_realtime_event h event frames) ≡ true
      → event.sample_offset < frames
  unfolding validate_realtime_event
  event_inside h event frames good = ground arith

  -- A batch that passes the validation is in order and inside the block.
  pub validate_events-InOrder :
      (h : Handle W B) (previous frames : ℕ) (events : List (ParameterEvent W))
      → is_ok (validate_events h previous events frames) ≡ true
      → InOrder previous frames events
  unfolding validate_events
  validate_events-InOrder h previous frames [] good = tt
  validate_events-InOrder h previous frames (event ∷ events) good =
      let off = event.sample_offset in
      elim (Bool-cases (is_ok (validate_realtime_event h event frames))) [
        | inr bad ↦ absurd (let refused = rw bad at good in let still = rw bad at refused in cc)
        | inl fine ↦ elim (Bool-cases (ltb off previous)) [
          | inl early ↦ absurd (let refused = rw (fine, early) at good in cc)
          | inr later ↦ (
            ground arith,
            event_inside h event frames fine,
            validate_events-InOrder h off frames events (rw (fine, later) at good),
          )
        ]
      ]

  -- What `apply_group` leaves is in order, and no longer than what it was given.
  pub apply_group_rest :
      (h : Handle W B) (cursor frames : ℕ) (events : List (ParameterEvent W))
      → InOrder cursor frames events
      → let (result, h', rest) = apply_group h cursor events in
        InOrder cursor frames rest × (length rest ≤ length events)
  unfolding apply_group
  apply_group_rest h cursor frames [] order = (tt, omega arith)
  apply_group_rest h cursor frames (event ∷ events) order =
      let (result, applied) = apply_event_realtime h event in
      elim (Bool-cases (event.sample_offset == cursor)) [
        | inr elsewhere ↦ rw elsewhere (order, omega arith)
        | inl here ↦ elim (Bool-cases (is_ok result)) [
          | inr failed ↦ rw (here, failed) (order, omega arith)
          | inl fine ↦
              let same : event.sample_offset ≡ cursor = ground arith in
              let rest = apply_group_rest applied cursor frames events (rw same at order.2) in
              rw (here, fine) (rest.0, omega (arith, rest.1))
        ]
      ]

  -- A group that succeeds takes the event at the cursor.
  apply_group_takes :
      (h : Handle W B) (frames : ℕ) (event : ParameterEvent W) (events : List (ParameterEvent W))
      → InOrder event.sample_offset frames events
      → let (result, h', rest) = apply_group h event.sample_offset (event ∷ events) in
        is_ok result ≡ true → length rest ≤ length events
  unfolding apply_group
  apply_group_takes h frames event events order good =
      let (result, applied) = apply_event_realtime h event in
      let here : (event.sample_offset == event.sample_offset) ≡ true = ground arith in
      let rest = apply_group_rest applied event.sample_offset frames events order in
      elim (Bool-cases (is_ok result)) [
        | inr failed ↦
            absurd (let again = rw (here, failed) at good in let b = rw failed at again in cc)
        | inl fine ↦ rw (here, fine) rest.1
      ]

  run_events_step :
      (fuel : ℕ) (h : Handle W B) (io : Buffers W) (cursor frames : ℕ) (overall : Result)
      (event : ParameterEvent W) (events : List (ParameterEvent W))
      → InOrder cursor frames (event ∷ events)
      → length events ≤ fuel
      → ((h' : Handle W B) (io' : Buffers W) (overall' : Result) (rest : List (ParameterEvent W))
          → InOrder event.sample_offset frames rest
          → length rest ≤ fuel
          → Returns (run_events fuel h' io' event.sample_offset overall' rest))
      → Returns (run_events (suc fuel) h io cursor overall (event ∷ events))
  unfolding run_events
  run_events_step fuel h io cursor frames overall event events order enough next =
      let offset = event.sample_offset in
      let (chunk_result, after, written) =
        (if ltb cursor offset
          then process_realtime_chunk h io cursor (offset - cursor)
          else (ok, h, io)) in
      let here : (if ltb cursor offset then offset else cursor) ≡ offset =
        ground (arith, order.0) in
      let (event_result, applied, rest) = apply_group after offset (event ∷ events) in
      elim (Bool-cases (is_fatal chunk_result)) [
        | inl fatal ↦ rw (here, fatal) (_, refl)
        | inr alive ↦ elim (Bool-cases (is_ok event_result)) [
          | inr failed ↦ rw (here, alive, failed) (_, refl)
          | inl fine ↦
              let taken = apply_group_takes after frames event events order.2 fine in
              let left =
                apply_group_rest after offset frames (event ∷ events)
                  (omega arith, order.1, order.2) in
              rw (here, alive, fine)
                (next applied written (if is_underrun chunk_result then chunk_result else overall)
                  rest left.0 (omega arith))
        ]
      ]

  pub run_events-Returns :
      (fuel : ℕ) (h : Handle W B) (io : Buffers W) (cursor frames : ℕ) (overall : Result)
      (events : List (ParameterEvent W))
      → InOrder cursor frames events
      → length events ≤ fuel
      → Returns (run_events fuel h io cursor overall events)
  unfolding run_events
  run_events-Returns fuel h io cursor frames overall [] order enough = (_, refl)
  run_events-Returns zero h io cursor frames overall (event ∷ events) order enough =
      absurd (omega arith)
  run_events-Returns (suc fuel) h io cursor frames overall (event ∷ events) order enough =
      run_events_step fuel h io cursor frames overall event events order (omega arith)
        (λ h' io' overall' rest order' enough'.
          run_events-Returns fuel h' io' event.sample_offset frames overall' rest order' enough')

  block-Returns :
      (h : Handle W B) (io : Buffers W) (frames : ℕ) (events : List (ParameterEvent W))
      → InOrder 0 frames events
      → Returns (run_callback h io frames events)
  unfolding run_callback
  block-Returns h io frames events order =
      let settled =
        if non_realtime_ratio (load_time h) then store_time h realtime_time_ratio else h in
      let (p, ran) =
        run_events-Returns (length events) (sync_requested_parameters_realtime settled) io 0 frames
          ok events order (omega arith) in
      rw (run_callback, ran) (_, refl)

  check_call-InOrder :
      (h : Handle W B) (input : ℕ → ℕ → W) (frames : ℕ) (events : List (ParameterEvent W))
      → is_ok (check_call h input frames events) ≡ true
      → InOrder 0 frames events
  unfolding check_call
  check_call-InOrder h input frames events good =
      validate_events-InOrder h 0 frames events (ground arith)

  pub process_block-Returns :
      (h : Handle W B) (io : Buffers W) (frames : ℕ) (events : List (ParameterEvent W))
      → Returns (process_block h io frames events)
  unfolding process_block
  process_block-Returns h io frames events =
      let checked = check_call h (input_of io) frames events in
      let (entered, moved) = enter_mode h realtime in
      elim (Bool-cases (is_ok checked)) [
        | inr refused ↦ rw refused (_, refl)
        | inl fine ↦ elim (Bool-cases (same_mode h.mode idle && non_realtime_ratio (load_time h))) [
          | inl unsupported ↦ rw (fine, unsupported) (_, refl)
          | inr supported ↦ elim (Bool-cases entered) [
            | inr busy ↦ rw (fine, supported, busy) (_, refl)
            | inl free ↦
                rw (fine, supported, free)
                  (block-Returns moved io frames events
                    (check_call-InOrder h (input_of io) frames events fine))
          ]
        ]
      ]

  -- `process_realtime` returns on every call: no handle, buffers or batch of events keeps its
  -- loops running.
  pub process_realtime-Returns :
      (h : Handle W B) (in_place : Bool) (input output : Planar W) (frames : ℕ)
      (events : Option (List (ParameterEvent W))) (event_count : ℕ)
      → Returns (process_realtime h in_place input output frames events event_count)
  unfolding process_realtime
  process_realtime-Returns h in_place input output frames none event_count =
      let empty = frames == 0 in
      let bad =
        ltb h.max_block_size frames
        || not (present h.channels input)
        || not (present h.channels output) in
      if_Returns empty _ _ (_, refl)
        (if_Returns bad _ _ (_, refl)
          (if_Returns (ltb 0 event_count) _ _ (_, refl) (process_block-Returns h _ frames [])))
  process_realtime-Returns h in_place input output frames (some events) event_count =
      let empty = frames == 0 in
      let bad =
        ltb h.max_block_size frames
        || not (present h.channels input)
        || not (present h.channels output) in
      if_Returns empty _ _ (_, refl)
        (if_Returns bad _ _ (_, refl) (process_block-Returns h _ frames events))
