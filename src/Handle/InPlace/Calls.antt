-- ===== src/Handle/InPlace/Calls.antt =====
-- src/boiled_egg.cpp: a whole `boiledegg_process_realtime` in place, against one with a separate
-- source.
use boiled_egg.Base.{
  ℕ, zero, suc, ◌+◌, ◌-◌, ◌≡◌, refl, ap, true, false, not, ◌&&◌, List, [], ◌∷◌, Option, none, some,
  inl, inr, arith, Bool-cases, ltb, if◌then◌else◌, length,
}
use boiled_egg.Abi.{Result, ok, is_ok, is_underrun, ParameterEvent}
use boiled_egg.Floating.{Floating}
use boiled_egg.Backend.{Backend, PullsWithin, PushesWithin}
use boiled_egg.Handle.{
  Handle, enter_mode, realtime, idle, same_mode, load_time, store_time, non_realtime_ratio,
  realtime_time_ratio, sync_requested_parameters_realtime,
}
use boiled_egg.Handle.Chunk.{Buffers, process_realtime_chunk, is_fatal}
use boiled_egg.Handle.Realtime.{
  Progress, run_events, apply_group, finish, check_call, run_callback, process_block,
}
use boiled_egg.Handle.InPlace.{apart, apart_result, Fresh, chunk-apart, chunk-Fresh}

module _ {W : Type 0} {B : Type 0} where
  abbrev apart_progress : (ℕ → ℕ → W) → Progress W B → Progress W B
  apart_progress x p = record p { io = apart x p.io }

  -- The second outcome is the first with its source apart; a call that goes on is in place still.
  abbrev Alike : (ℕ → ℕ → W) → Option (Progress W B) → Option (Progress W B) → Type 0
  Alike x none other = other ≡ none
  Alike x (some p) other =
      (other ≡ some (apart_progress x p)) × (p.ended ≡ false → Fresh x p.cursor p.io)

  -- The outcome of a call with its source apart.
  abbrev pub apart_outcome :
      (ℕ → ℕ → W)
      → Option (Result × Handle W B × Buffers W)
      → Option (Result × Handle W B × Buffers W)
  apart_outcome x none = none
  apart_outcome x (some r) = some (apart_result x r)

module _ {W : Type 0} ⦃w : Floating W⦄ {B : Type 0} ⦃b : Backend W B⦄ (pulls : PullsWithin W B)
    (pushes : PushesWithin W B) (x : ℕ → ℕ → W) where
  -- The chunk before an event, where there is one.
  abbrev before : Handle W B → Buffers W → ℕ → ℕ → Result × Handle W B × Buffers W
  before h io cursor offset =
      if ltb cursor offset
      then process_realtime_chunk h io cursor (offset - cursor)
      else (ok, h, io)

  before-apart :
      (h : Handle W B) (io : Buffers W) (cursor offset : ℕ)
      → Fresh x cursor io
      → (before h (apart x io) cursor offset ≡ apart_result x (before h io cursor offset))
        × Fresh x (if ltb cursor offset then offset else cursor) (before h io cursor offset).2
  before-apart h io cursor offset f = elim (Bool-cases (ltb cursor offset)) [
    | inl later ↦
        let met : cursor + (offset - cursor) ≡ offset = ground arith in
        let fresh = chunk-Fresh pulls x h io cursor (offset - cursor) f in
        rw later (chunk-apart pushes x h io cursor (offset - cursor) f, rw met at fresh)
    | inr now ↦ rw now (refl, f)
  ]

  run_events_step :
      (fuel : ℕ) (h : Handle W B) (io : Buffers W) (cursor : ℕ) (overall : Result)
      (event : ParameterEvent W) (events : List (ParameterEvent W))
      → Fresh x cursor io
      → ((h' : Handle W B) (io' : Buffers W) (here : ℕ) (overall' : Result)
            (rest : List (ParameterEvent W))
          → Fresh x here io'
          → Alike x
              (run_events fuel h' io' here overall' rest)
              (run_events fuel h' (apart x io') here overall' rest))
      → Alike x
          (run_events (suc fuel) h io cursor overall (event ∷ events))
          (run_events (suc fuel) h (apart x io) cursor overall (event ∷ events))
  unfolding run_events
  run_events_step fuel h io cursor overall event events f next =
      let offset = event.sample_offset in
      let here = if ltb cursor offset then offset else cursor in
      let (same, fresh) = before-apart h io cursor offset f in
      let (chunk_result, after, written) = before h io cursor offset in
      let (event_result, applied, rest) = apply_group after here (event ∷ events) in
      rw same (elim (Bool-cases (is_fatal chunk_result)) [
        | inl fatal ↦ rw fatal (refl, λ e. absurd cc)
        | inr alive ↦ elim (Bool-cases (is_ok event_result)) [
          | inr failed ↦ rw (alive, failed) (refl, λ e. absurd cc)
          | inl fine ↦
              rw (alive, fine)
                (next applied written here
                  (if is_underrun chunk_result then chunk_result else overall) rest fresh)
        ]
      ])

  run_events-apart :
      (fuel : ℕ) (h : Handle W B) (io : Buffers W) (cursor : ℕ) (overall : Result)
      (events : List (ParameterEvent W))
      → Fresh x cursor io
      → Alike x
          (run_events fuel h io cursor overall events)
          (run_events fuel h (apart x io) cursor overall events)
  unfolding run_events
  run_events-apart fuel h io cursor overall [] f = (refl, λ e. f)
  run_events-apart zero h io cursor overall (event ∷ events) f = refl
  run_events-apart (suc fuel) h io cursor overall (event ∷ events) f =
      run_events_step fuel h io cursor overall event events f
        (λ h' io' here overall' rest f'. run_events-apart fuel h' io' here overall' rest f')

  finish-apart :
      (p : Progress W B) (frames : ℕ)
      → (p.ended ≡ false → Fresh x p.cursor p.io)
      → finish (apart_progress x p) frames ≡ apart_result x (finish p frames)
  unfolding finish
  finish-apart p frames f = elim (Bool-cases p.ended) [
    | inl over ↦ rw over refl
    | inr on ↦
        let same = chunk-apart pushes x p.handle p.io p.cursor (frames - p.cursor) (f on) in
        let (result, h, io) = process_realtime_chunk p.handle p.io p.cursor (frames - p.cursor) in
        elim (Bool-cases (not (ltb p.cursor frames))) [
          | inl done ↦ rw (on, done) refl
          | inr left ↦ rw (on, left, same) refl
        ]
  ]

  abbrev finish_outcome : ℕ → Option (Progress W B) → Option (Result × Handle W B × Buffers W)
  finish_outcome frames none = none
  finish_outcome frames (some p) = some (finish p frames)

  finished-Alike :
      (frames : ℕ) (o o' : Option (Progress W B))
      → Alike x o o'
      → finish_outcome frames o' ≡ apart_outcome x (finish_outcome frames o)
  finished-Alike frames none o' a = rw a refl
  finished-Alike frames (some p) o' a = rw a.0 (ap some (finish-apart p frames a.1))

  run_callback-apart :
      (h : Handle W B) (io : Buffers W) (frames : ℕ) (events : List (ParameterEvent W))
      → Fresh x 0 io
      → run_callback h (apart x io) frames events
        ≡ apart_outcome x (run_callback h io frames events)
  unfolding run_callback
  run_callback-apart h io frames events f =
      let settled =
        if non_realtime_ratio (load_time h) then store_time h realtime_time_ratio else h in
      let synced = sync_requested_parameters_realtime settled in
      finished-Alike frames (run_events (length events) synced io 0 ok events)
        (run_events (length events) synced (apart x io) 0 ok events)
        (run_events-apart (length events) synced io 0 ok events f)

  -- A callback on one shared buffer, `x` at first, and a callback that reads a separate copy of
  -- `x` and writes to a buffer that begins as `x`: the same result, the same handle and the same
  -- destination, for every block and batch of events, errors and underruns included. The backend
  -- reads the frames that it is offered and writes those that it reports, and no other.
  pub process_block_in_place :
      (h : Handle W B) (spare : ℕ → ℕ → W) (frames : ℕ) (events : List (ParameterEvent W))
      → process_block h (record { in_place = false; source = x; destination = x }) frames events
        ≡ apart_outcome x (
            process_block h
              (record { in_place = true; source = spare; destination = x })
              frames
              events)
  unfolding process_block
  process_block_in_place h spare frames events =
      let io : Buffers W = record { in_place = true; source = spare; destination = x } in
      let checked = check_call h x frames events in
      let (entered, moved) = enter_mode h realtime in
      let fresh : Fresh x 0 io = record { shared = refl; unread = λ ch i late. refl } in
      elim (Bool-cases (is_ok checked)) [
        | inr refused ↦ rw refused refl
        | inl fine ↦ elim (Bool-cases (same_mode h.mode idle && non_realtime_ratio (load_time h))) [
          | inl unsupported ↦ rw (fine, unsupported) refl
          | inr supported ↦ elim (Bool-cases entered) [
            | inr busy ↦ rw (fine, supported, busy) refl
            | inl free ↦
                rw (fine, supported, free) (run_callback-apart moved io frames events fresh)
          ]
        ]
      ]
