-- ===== src/Plugin/Processor/Processing.antt =====
-- adapters/common/pitch_processor.cpp: `segment` and `process`, over the handle of `Processor`. The
-- buffers are those of one call, as in Handle/Chunk: a null input is silence that is not in place.
use boiled_egg.Base.{
  ℕ, zero, suc, ◌+◌, ◌-◌, ◌*◌, ◌%◌, min, max, Bool, true, false, not, ◌&&◌, ◌||◌, ◌==◌,
  if◌then◌else◌, ltb, leb, List, [], ◌∷◌, ◌++◌, none, some, get_or, set, length, u64,
}
use boiled_egg.Abi.{Planar, is_ok, present, read_pointers}
use boiled_egg.Floating.{Floating, fadd, fmul}
use boiled_egg.Backend.{Backend}
use boiled_egg.Handle.{Handle}
use boiled_egg.Handle.Chunk.{Buffers, input_of, pointers_at, write_back, with_destination}
use boiled_egg.Handle.Realtime.{finite_channels, process_realtime}
use boiled_egg.Plugin.{parameters, value_of, valid_values}
use boiled_egg.Plugin.Processor.{
  Event, Processor, current, store, same_configuration, parameter_at, valid_at, apply,
}

module _ {W : Type 0} where
  -- The next event stands at the same offset.
  abbrev pub goes_on : Event W → List (Event W) → Bool
  goes_on e [] = false
  goes_on e (next ∷ events) = next.offset == e.offset

module _ {W : Type 0} ⦃w : Floating W⦄ where
  -- One channel of a frame through the dry history: the dry sample and the history.
  unfoldable pub delay_sample : List W → ℕ → ℕ → ℕ → W → W × List W
  delay_sample history delay ch slot x = (
    if delay == 0 then x else get_or history (ch * delay + slot) (w.nat 0),
    set history (ch * max 1 delay + slot) x,
  )

  -- `n` frames from frame `i` of the block on: `dry_scratch_` and the history.
  unfoldable pub delay_frames :
      ℕ → ℕ → ℕ → ℕ → (ℕ → ℕ → W) → (ℕ → ℕ → W) → List W → (ℕ → ℕ → W) × List W
  delay_frames zero i position delay x scratch history = (scratch, history)
  delay_frames (suc n) i position delay x scratch history =
      let slot = u64 (position + i) % max 1 delay in
      let (left, once) = delay_sample history delay 0 slot (x 0 i) in
      let (right, twice) = delay_sample once delay 1 slot (x 1 i) in
      delay_frames n (i + 1) position delay x
        (λ ch k. if k == i && ltb ch 2 then (if ch == 0 then left else right) else scratch ch k)
        twice

  -- One step of the gains.
  unfoldable pub step_mix : List W → List W → List W → ℕ → List W
  step_mix (m ∷ ms) (t ∷ ts) (s ∷ ss) remaining =
      (if remaining == 1 then t else fadd m s) ∷ step_mix ms ts ss remaining
  step_mix ms ts ss remaining = ms

  unfoldable pub step_gains : {B : Type 0} → Processor W B → Processor W B
  step_gains p = if p.mix_remaining == 0 then p else record p {
    mix = step_mix p.mix p.mix_target p.mix_step p.mix_remaining;
    mix_remaining = p.mix_remaining - 1;
  }

  -- The mix of `n` frames from frame `i` of the block on.
  unfoldable pub mix_frames_of :
      {B : Type 0}
      → ℕ
      → ℕ
      → ℕ
      → (ℕ → ℕ → W)
      → Processor W B
      → (ℕ → ℕ → W)
      → Processor W B × (ℕ → ℕ → W)
  mix_frames_of zero i first scratch p y = (p, y)
  mix_frames_of (suc n) i first scratch p y =
      let stepped = step_gains p in
      let mixed = λ (ch : ℕ).
        fadd (fmul (value_of stepped.mix ch) (y ch (first + i)))
          (fmul (value_of stepped.mix (ch + 2)) (scratch ch i)) in
      mix_frames_of n (i + 1) first scratch stepped
        (λ ch k. if k == first + i && ltb ch 2 then mixed ch else y ch k)

  -- The control of an event, and whether it may change now.
  unfoldable pub valid_event : Bool → Event W → Bool
  valid_event live e = elim (parameter_at {W = W} parameters e.index) [
    | none ↦ false
    | some control ↦ (live || control.automatable) && valid_at e.index e.value
  ]

  -- The validation: the offset and the control of each event, and the values after each group.
  unfoldable pub validate : Bool → Bool → ℕ → ℕ → List W → List (Event W) → Bool
  validate available live n previous values [] = true
  validate available live n previous values (e ∷ events) =
      let next = set values e.index e.value in
      let rest = validate available live n e.offset next events in
      let misplaced =
        (if n == 0 then not (e.offset == 0) else leb n e.offset) || ltb e.offset previous in
      if misplaced || not (valid_event live e)
      then false
      else if goes_on e events
      then rest
      else valid_values available next && rest

  -- `targets.store` of the events of a group.
  abbrev pub store_events : List ℕ → List (Event W) → List ℕ
  store_events targets [] = targets
  store_events targets (e ∷ events) = store_events (store targets e.index e.value) events

module _ {W : Type 0} ⦃w : Floating W⦄ {B : Type 0} ⦃b : Backend W B⦄ where
  -- One block of a segment: `n` frames from frame `first` of the call on.
  unfoldable pub segment_block :
      Processor W B → Handle W B → Buffers W → ℕ → ℕ → Bool × Processor W B × Buffers W
  segment_block p h io first n =
      let source = λ (ch i : ℕ). input_of io ch (first + i) in
      let (scratch, history) =
        delay_frames n 0 p.position p.runtime.realtime_latency_frames source (λ ch i. w.nat 0)
          p.dry_history in
      let delayed = record p { dry_history = history } in
      elim (process_realtime h io.in_place (pointers_at io.source first)
        (pointers_at io.destination first) n none 0) [
          | none ↦ (false, record delayed { error_code = 2; fault = true }, io)
          | some (result, after, block) ↦
              let played = record delayed { core = some after } in
              let written = write_back first block.destination io.destination in
              let (mixed, output) = mix_frames_of n 0 first scratch played written in
              if is_ok result
              then (
                true,
                record mixed { position = u64 (mixed.position + n) },
                with_destination io output,
              )
              else (
                false,
                record played { error_code = 2; fault = true },
                with_destination io written,
              )
        ]

  -- The blocks of a segment from frame `first` on: each takes a frame at least, so the frames are
  -- fuel enough.
  unfoldable pub segment : ℕ → Processor W B → Buffers W → ℕ → ℕ → Bool × Processor W B × Buffers W
  segment zero p io first rest = (true, p, io)
  segment (suc fuel) p io first rest =
      let n = min p.core_block rest in
      if rest == 0 then (true, p, io) else elim p.core [
        | none ↦ (false, p, io)
        | some h ↦
            let (played, next, written) = segment_block p h io first n in
            let later = segment fuel next written (first + n) (rest - n) in
            if played then later else (false, next, written)
      ]

  -- The end of a group: the values are applied unless they are a pending configuration, then the
  -- targets are stored.
  unfoldable pub finish_group :
      Bool → Processor W B → List W → List (Event W) → Bool × Processor W B
  finish_group live p next group = elim p.core [
    | none ↦ (false, p)
    | some h ↦
        let (applied, changed) = apply p h next in
        let compatible = not live || same_configuration next p.configuration in
        if compatible && not applied
        then (false, changed)
        else if compatible
        then (true, record changed { targets = store_events changed.targets group })
        else (true, record p { targets = store_events p.targets group })
  ]

  -- The loop over the events: `requested` is the last values asked for, `group` the events of the
  -- group so far, and `next` the values with them.
  unfoldable pub run_events :
      Bool
      → Processor W B
      → Buffers W
      → ℕ
      → List W
      → List (Event W)
      → List W
      → List (Event W)
      → Bool × ℕ × Processor W B × Buffers W
  run_events live p io cursor requested group next [] = (true, cursor, p, io)
  run_events live p io cursor requested group next (e ∷ events) =
      let opens = length group == 0 in
      let gap = if opens then e.offset - cursor else 0 in
      let (played, reached, written) = segment gap p io cursor gap in
      let here = if opens then e.offset else cursor in
      let base = if opens then (if live then requested else reached.audio) else next in
      let changed = set base e.index e.value in
      let whole = group ++ (e ∷ []) in
      let (applied, settled) = finish_group live reached changed whole in
      let within = run_events live reached written here requested whole changed events in
      let after = run_events live settled written here changed [] changed events in
      if not played
      then (false, cursor, reached, written)
      else if goes_on e events
      then within
      else if applied
      then after
      else (false, here, settled, written)

  -- The call after its guards, with the events that are validated.
  unfoldable pub run_call :
      Bool
      → Processor W B
      → Buffers W
      → ℕ
      → List W
      → List W
      → List (Event W)
      → Bool × Processor W B × Buffers W
  run_call live p io n requested start events = elim p.core [
    | none ↦ (false, p, io)
    | some h ↦
        let (applied, begun) = apply p h start in
        let (went, cursor, reached, written) =
          run_events live begun io 0 requested [] start events in
        let (played, done, output) = segment (n - cursor) reached written cursor (n - cursor) in
        if not applied
        then (false, begun, io)
        else if not went
        then (false, reached, written)
        else if not played
        then (false, done, output)
        else (true, record done { error_code = 0 }, output)
  ]

  -- The values of the targets where they are valid together, else those that play.
  abbrev pub requested_of : Bool → Processor W B → List W
  requested_of available p = if valid_values available (current p) then current p else p.audio

  abbrev pub start_of : Processor W B → List W → List W
  start_of p requested = if same_configuration requested p.configuration then requested else p.audio

  unfoldable pub process :
      Bool
      → Bool
      → Processor W B
      → Bool
      → Planar W
      → Planar W
      → ℕ
      → List (Event W)
      → Bool × Processor W B × Buffers W
  process available live p in_place input output n events =
      let io : Buffers W = record {
        in_place = in_place;
        source = read_pointers (w.nat 0) input;
        destination = read_pointers (w.nat 0) output;
      } in
      let requested = requested_of available p in
      let start = start_of p requested in
      let silent : Bool = elim input [ none ↦ true | some pointers ↦ false ] in
      if not p.active || p.fault || ltb p.max_block n || ltb 256 (length events)
      then (false, p, io)
      else if not (n == 0)
          && (not (present 2 output)
              || not silent
                && (not (present 2 input)
                    || not (finite_channels 2 0 n (read_pointers (w.nat 0) input))))
      then (false, p, io)
      else if not (validate available live n 0 (if live then requested else start) events)
      then (false, p, io)
      else run_call live p io n requested start events
