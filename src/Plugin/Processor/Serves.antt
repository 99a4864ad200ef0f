-- ===== src/Plugin/Processor/Serves.antt =====
-- adapters/common/pitch_processor.cpp: `process` never leaves the configuration that the active engine
-- was built with.
use boiled_egg.Base.{
  ℕ, ◌-◌, ◌≡◌, ◌≢◌, refl, ap, ◌∙◌, inl, inr, Bool, true, false, not, ◌&&◌, ◌||◌, ◌==◌,
  if◌then◌else◌, ltb, Bool-cases, Option-cases, List, [], ◌∷◌, ◌++◌, All, Option, none, some, set,
  length, get_or-set_ne, arith,
}
use boiled_egg.Abi.{Planar, present, read_pointers}
use boiled_egg.Floating.{Floating}
use boiled_egg.Backend.{Backend}
use boiled_egg.Handle.{Handle}
use boiled_egg.Handle.Streaming.{RuntimeInfo}
use boiled_egg.Handle.Chunk.{Buffers}
use boiled_egg.Handle.Realtime.{finite_channels}
use boiled_egg.Plugin.{Parameter, backend, quality, policy, parameters}
use boiled_egg.Plugin.Processor.{
  Event, Processor, same_configuration, apply, valid_at, parameter_at,
}
use boiled_egg.Plugin.Processor.Processing.{
  segment, goes_on, valid_event, validate, store_events, finish_group, run_events, run_call,
  process, requested_of, start_of,
}
use boiled_egg.Plugin.Processor.Plays.{playing, apply-playing, segment-playing}

module _ {W : Type 0} ⦃w : Floating W⦄ where
  abbrev may_change : List (Parameter W) → ℕ → Bool
  may_change controls i = elim (parameter_at {W = W} controls i) [
    | none ↦ false
    | some p ↦ p.automatable
  ]

  valid_event_may :
      (e : Event W) → valid_event false e ≡ true → may_change parameters e.index ≡ true
  unfolding valid_event
  valid_event_may e good = elim (Option-cases (parameter_at {W = W} parameters e.index)) [
    | inl nothing ↦ absurd (let no : false ≡ true = rw nothing at good in cc no)
    | inr (p, found) ↦
        let both : (p.automatable && valid_at e.index e.value) ≡ true = rw found at good in
        rw found (ground (arith, both))
  ]

  fixed_ne :
      (e : Event W) (i : ℕ)
      → may_change parameters i ≡ false
      → valid_event false e ≡ true
      → e.index ≢ i
  fixed_ne e i fixed good = λ same.
      let may : may_change parameters i ≡ true = rw same at (valid_event_may e good) in
      absurd (cc (fixed, may))

  -- A control that may be automated is not one of the configuration.
  set-same_configuration :
      (e : Event W) (v c : List W)
      → valid_event false e ≡ true
      → same_configuration (set v e.index e.value) c ≡ same_configuration v c
  set-same_configuration e v c good =
      rw
        (
          get_or-set_ne v e.index backend e.value (w.nat 0) (fixed_ne e backend refl good),
          get_or-set_ne v e.index quality e.value (w.nat 0) (fixed_ne e quality refl good),
          get_or-set_ne v e.index policy e.value (w.nat 0) (fixed_ne e policy refl good),
        )
        refl

  base_same :
      (opens live : Bool) (requested audio next c : List W)
      → same_configuration audio c ≡ true
      → (live ≡ false → same_configuration next c ≡ true)
      → live ≡ false
      → same_configuration (if opens then (if live then requested else audio) else next) c ≡ true
  base_same true true requested audio next c plays group off = absurd cc
  base_same true false requested audio next c plays group off = plays
  base_same false live requested audio next c plays group off = group off

  validate-All :
      (available live : Bool) (n previous : ℕ) (values : List W) (events : List (Event W))
      → validate available live n previous values events ≡ true
      → All (λ e. valid_event live e ≡ true) events
  unfolding validate
  validate-All available live n previous values [] good = tt
  validate-All available live n previous values (e ∷ events) good = (
    ground (arith, good),
    validate-All available live n e.offset (set values e.index e.value) events
        (ground (arith, good)),
  )

module _ {W : Type 0} ⦃w : Floating W⦄ {B : Type 0} where
  -- A processor that serves a configuration, with the latency that its engine reported: the values that
  -- play are of this configuration.
  pub record IsServing (c : List W) (info : RuntimeInfo) (p : Processor W B) : Type 0 where
    pub configured : p.configuration ≡ c
    pub informed : p.runtime ≡ info
    pub compatible : same_configuration p.audio c ≡ true

  IsServing-from :
      (c : List W) (info : RuntimeInfo) (p q : Processor W B)
      → playing q ≡ playing p
      → IsServing c info p
      → IsServing c info q
  IsServing-from c info p q e s = record {
    configured = ap (λ t. t.0) e ∙ s.configured;
    informed = ap (λ t. t.1) e ∙ s.informed;
    compatible = ap (λ t. same_configuration t.2 c) e ∙ s.compatible;
  }

module _ {W : Type 0} ⦃w : Floating W⦄ {B : Type 0} ⦃b : Backend W B⦄ where
  apply-IsServing :
      (c : List W) (info : RuntimeInfo) (p : Processor W B) (h : Handle W B) (v : List W)
      → IsServing c info p
      → same_configuration v c ≡ true
      → IsServing c info (apply p h v).1
  apply-IsServing c info p h v s same = elim (apply-playing p h v) [
    | inl kept ↦ IsServing-from c info p (apply p h v).1 kept s
    | inr moved ↦ record {
      configured = ap (λ t. t.0) moved ∙ s.configured;
      informed = ap (λ t. t.1) moved ∙ s.informed;
      compatible = ap (λ t. same_configuration t.2 c) moved ∙ same;
    }
  ]

  with_core-IsServing :
      {T : Type 0}
      → (c : List W) (info : RuntimeInfo) (f : T → Processor W B) (core : Option (Handle W B))
        (lost : T) (run : Handle W B → T)
      → IsServing c info (f lost)
      → ((h : Handle W B) → IsServing c info (f (run h)))
      → let chosen : T = elim core [ none ↦ lost | some h ↦ run h ] in IsServing c info (f chosen)
  with_core-IsServing c info f none lost run hl hr = hl
  with_core-IsServing c info f (some h) lost run hl hr = hr h

  -- The end of a group: without live configuration, the values must be of the active one.
  finish_group-IsServing :
      (c : List W) (info : RuntimeInfo) (live : Bool) (p : Processor W B) (next : List W)
      (group : List (Event W))
      → (live ≡ false → same_configuration next c ≡ true)
      → IsServing c info p
      → IsServing c info (finish_group live p next group).1
  unfolding finish_group
  finish_group-IsServing c info live p next group same s =
      let compatible = not live || same_configuration next p.configuration in
      let run : Handle W B → Bool × Processor W B = λ h.
        let (applied, changed) = apply p h next in
        if compatible && not applied
        then (false, changed)
        else if compatible
        then (true, record changed { targets = store_events changed.targets group })
        else (true, record p { targets = store_events p.targets group }) in
      let fits : compatible ≡ true → same_configuration next c ≡ true = λ fit.
        elim (Bool-cases live) [
          | inr off ↦ same off
          | inl on ↦
              let here : same_configuration next p.configuration ≡ true = rw on at fit in
              rw s.configured at here
        ] in
      let runs : (h : Handle W B) → IsServing c info (run h).1 = λ h.
        let (applied, changed) = apply p h next in
        elim (Bool-cases compatible) [
          | inr pending ↦
              rw pending (
                IsServing-from c info p (record p { targets = store_events p.targets group }) refl
                  s)
          | inl fit ↦
              let after = apply-IsServing c info p h next s (fits fit) in
              elim (Bool-cases applied) [
                | inr failed ↦ rw (fit, failed) after
                | inl fine ↦
                    rw (fit, fine)
                      (IsServing-from c info changed
                        (record changed { targets = store_events changed.targets group }) refl
                        after)
              ]
        ] in
      with_core-IsServing c info (λ (t : Bool × Processor W B). t.1) p.core (false, p) run s runs

  run_events-IsServing :
      (c : List W) (info : RuntimeInfo) (live : Bool) (p : Processor W B) (io : Buffers W)
      (cursor : ℕ) (requested : List W) (group : List (Event W)) (next : List W)
      (events : List (Event W))
      → All (λ e. valid_event live e ≡ true) events
      → (live ≡ false → same_configuration next c ≡ true)
      → IsServing c info p
      → IsServing c info (run_events live p io cursor requested group next events).2
  unfolding run_events
  run_events-IsServing c info live p io cursor requested group next [] good same s = s
  run_events-IsServing c info live p io cursor requested group next (e ∷ events) good same s =
      let opens = length group == 0 in
      let gap = if opens then e.offset - cursor else 0 in
      let (played, reached, written) = segment gap p io cursor gap in
      let here = if opens then e.offset else cursor in
      let base = if opens then (if live then requested else reached.audio) else next in
      let changed = set base e.index e.value in
      let whole = group ++ (e ∷ []) in
      let (applied, settled) = finish_group live reached changed whole in
      let s' = IsServing-from c info p reached (segment-playing gap p io cursor gap) s in
      let based : live ≡ false → same_configuration base c ≡ true =
        base_same opens live requested reached.audio next c s'.compatible same in
      let same' : live ≡ false → same_configuration changed c ≡ true =
        λ off. set-same_configuration e base c (rw off at good.0) ∙ based off in
      let done = finish_group-IsServing c info live reached changed whole same' s' in
      elim (Bool-cases played) [
        | inr broken ↦ rw broken s'
        | inl on ↦ elim (Bool-cases (goes_on e events)) [
          | inl more ↦
              rw (on, more)
                (run_events-IsServing c info live reached written here requested whole changed
                  events good.1 same' s')
          | inr last ↦ elim (Bool-cases applied) [
            | inr failed ↦ rw (on, last, failed) done
            | inl fine ↦
                rw (on, last, fine)
                  (run_events-IsServing c info live settled written here changed [] changed events
                    good.1 same' done)
          ]
        ]
      ]

  run_call-IsServing :
      (c : List W) (info : RuntimeInfo) (live : Bool) (p : Processor W B) (io : Buffers W) (n : ℕ)
      (requested start : List W) (events : List (Event W))
      → All (λ e. valid_event live e ≡ true) events
      → same_configuration start c ≡ true
      → IsServing c info p
      → IsServing c info (run_call live p io n requested start events).1
  unfolding run_call
  run_call-IsServing c info live p io n requested start events good same s =
      let run : Handle W B → Bool × Processor W B × Buffers W = λ h.
        let (applied, begun) = apply p h start in
        let (went, cursor, reached, written) =
          run_events live begun io 0 requested [] start events in
        let (played, done, output) = segment (n - cursor) reached written cursor (n - cursor) in
        if not applied
        then (false, begun, io)
        else if not went
        then (false, reached, written)
        else if not played
        then (false, done, output)
        else (true, record done { error_code = 0 }, output) in
      let runs : (h : Handle W B) → IsServing c info (run h).1 = λ h.
        let (applied, begun) = apply p h start in
        let (went, cursor, reached, written) =
          run_events live begun io 0 requested [] start events in
        let (played, done, output) = segment (n - cursor) reached written cursor (n - cursor) in
        let first = apply-IsServing c info p h start s same in
        let ran =
          run_events-IsServing c info live begun io 0 requested [] start events good (λ off. same)
            first in
        let last =
          IsServing-from c info reached done
            (segment-playing (n - cursor) reached written cursor (n - cursor)) ran in
        elim (Bool-cases applied) [
          | inr refused ↦ rw refused first
          | inl on ↦ elim (Bool-cases went) [
            | inr broken ↦ rw (on, broken) ran
            | inl through ↦ elim (Bool-cases played) [
              | inr stopped ↦ rw (on, through, stopped) last
              | inl whole ↦
                  rw (on, through, whole)
                    (IsServing-from c info done (record done { error_code = 0 }) refl last)
            ]
          ]
        ] in
      with_core-IsServing c info (λ (t : Bool × Processor W B × Buffers W). t.1) p.core
        (false, p, io) run s runs

  guarded-IsServing :
      (c : List W) (info : RuntimeInfo) (idle absent good : Bool)
      (refused call : Bool × Processor W B × Buffers W)
      → IsServing c info refused.1
      → (good ≡ true → IsServing c info call.1)
      → let chosen : Bool × Processor W B × Buffers W =
          if idle
          then refused
          else if absent
          then refused
          else if not good
          then refused
          else call in
        IsServing c info chosen.1
  guarded-IsServing c info true absent good refused call kept went = kept
  guarded-IsServing c info false true good refused call kept went = kept
  guarded-IsServing c info false false false refused call kept went = kept
  guarded-IsServing c info false false true refused call kept went = went refl

  start_of-same :
      (p : Processor W B) (requested : List W)
      → same_configuration p.audio p.configuration ≡ true
      → same_configuration (start_of p requested) p.configuration ≡ true
  start_of-same p requested same =
      elim (Bool-cases (same_configuration requested p.configuration)) [
        | inl fits ↦ rw fits fits
        | inr pending ↦ rw pending same
      ]

  -- Whatever a call is given, and whatever the targets ask for, `process` keeps the configuration and
  -- the latency that the active engine was built with, and the values that it plays stay values of
  -- this configuration: a pending configuration waits for an activation. The values that play are of
  -- the configuration before the call.
  pub process-IsServing :
      (available live : Bool) (p : Processor W B) (in_place : Bool) (input output : Planar W)
      (n : ℕ) (events : List (Event W))
      → same_configuration p.audio p.configuration ≡ true
      → IsServing p.configuration p.runtime
          (process available live p in_place input output n events).1
  unfolding process
  process-IsServing available live p in_place input output n events same =
      let io : Buffers W = record {
        in_place = in_place;
        source = read_pointers (w.nat 0) input;
        destination = read_pointers (w.nat 0) output;
      } in
      let s : IsServing p.configuration p.runtime p = record {
        configured = refl;
        informed = refl;
        compatible = same;
      } in
      let requested = requested_of available p in
      let start = start_of p requested in
      let values = if live then requested else start in
      let silent : Bool = elim input [ none ↦ true | some pointers ↦ false ] in
      let idle = not p.active || p.fault || ltb p.max_block n || ltb 256 (length events) in
      let absent =
        not (n == 0)
        && (not (present 2 output)
            || not silent
              && (not (present 2 input)
                  || not (finite_channels 2 0 n (read_pointers (w.nat 0) input)))) in
      let good = validate available live n 0 values events in
      let call = run_call live p io n requested start events in
      guarded-IsServing p.configuration p.runtime idle absent good (false, p, io) call s
        (λ valid.
          run_call-IsServing p.configuration p.runtime live p io n requested start events
            (validate-All available live n 0 values events valid) (start_of-same p requested same)
            s)
