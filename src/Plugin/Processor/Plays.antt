-- ===== src/Plugin/Processor/Plays.antt =====
-- adapters/common/pitch_processor.cpp: what segments and `apply` do to the values that play.
use boiled_egg.Base.{
  ℕ, zero, suc, ◌+◌, ◌-◌, ◌≡◌, refl, ◌∙◌, ◌⊎◌, inl, inr, Bool, false, ◌==◌, if◌then◌else◌, min,
  Bool-cases, Option-cases, List, Option, none, some, arith,
}
use boiled_egg.Abi.{is_ok}
use boiled_egg.Floating.{Floating}
use boiled_egg.Backend.{Backend}
use boiled_egg.Handle.{Handle}
use boiled_egg.Handle.Streaming.{RuntimeInfo}
use boiled_egg.Handle.Chunk.{Buffers, input_of, pointers_at, write_back}
use boiled_egg.Handle.Realtime.{process_realtime}
use boiled_egg.Handle.Parameters.{set_pitch_semitones, set_formant_semitones}
use boiled_egg.Plugin.{total_pitch, total_formant}
use boiled_egg.Plugin.Processor.{Processor, apply, gains, differ, retarget}
use boiled_egg.Plugin.Processor.Processing.{
  step_gains, delay_frames, mix_frames_of, segment_block, segment,
}

module _ {W : Type 0} {B : Type 0} where
  -- What the audio is played with: the configuration of the active engine, its latency, and the values.
  abbrev pub playing : Processor W B → List W × RuntimeInfo × List W
  playing p = (p.configuration, p.runtime, p.audio)

module _ {W : Type 0} ⦃w : Floating W⦄ {B : Type 0} where
  step-playing : (p : Processor W B) → playing (step_gains p) ≡ playing p
  unfolding step_gains
  step-playing p = ground arith

  mix-playing :
      (n i first : ℕ) (scratch y : ℕ → ℕ → W) (p : Processor W B)
      → playing (mix_frames_of n i first scratch p y).0 ≡ playing p
  unfolding mix_frames_of
  mix-playing zero i first scratch y p = refl
  mix-playing (suc n) i first scratch y p =
      mix-playing n (i + 1) first scratch _ (step_gains p) ∙ step-playing p

  retarget-playing :
      (p : Processor W B) (v : List W) → playing (retarget p v) ≡ (p.configuration, p.runtime, v)
  unfolding retarget
  retarget-playing p v = elim (Bool-cases (differ (gains v) p.mix_target)) [
    | inl new ↦ rw new refl
    | inr same ↦ rw same refl
  ]

module _ {W : Type 0} ⦃w : Floating W⦄ {B : Type 0} ⦃b : Backend W B⦄ where
  pub apply-playing :
      (p : Processor W B) (h : Handle W B) (v : List W)
      → (playing (apply p h v).1 ≡ playing p)
        ⊎ (playing (apply p h v).1 ≡ (p.configuration, p.runtime, v))
  unfolding apply
  apply-playing p h v =
      let (pitched, tuned) = set_pitch_semitones h (total_pitch v) in
      let (formed, shaped) = set_formant_semitones tuned (total_formant v) in
      elim (Bool-cases (is_ok pitched)) [
        | inr bad ↦ rw bad (inl refl)
        | inl good ↦ elim (Bool-cases (is_ok formed)) [
          | inr bad ↦ rw (good, bad) (inl refl)
          | inl fine ↦ rw (good, fine) (inr (retarget-playing (record p { core = some shaped }) v))
        ]
      ]

  block-playing :
      (p : Processor W B) (h : Handle W B) (io : Buffers W) (first n : ℕ)
      → playing (segment_block p h io first n).1 ≡ playing p
  unfolding segment_block
  block-playing p h io first n =
      let source = λ (ch i : ℕ). input_of io ch (first + i) in
      let (scratch, history) =
        delay_frames n 0 p.position p.runtime.realtime_latency_frames source (λ ch i. w.nat 0)
          p.dry_history in
      let delayed = record p { dry_history = history } in
      elim (Option-cases (
        process_realtime h io.in_place (pointers_at io.source first)
          (pointers_at io.destination first) n none 0)) [
            | inl lost ↦ rw (segment_block, lost) refl
            | inr ((result, after, block), ran) ↦
                let played = record delayed { core = some after } in
                let written = write_back first block.destination io.destination in
                elim (Bool-cases (is_ok result)) [
                  | inl fine ↦
                      rw (segment_block, ran, fine) (mix-playing n 0 first scratch written played)
                  | inr bad ↦ rw (segment_block, ran, bad) refl
                ]
          ]

  with_core-playing :
      (core : Option (Handle W B)) (lost : Bool × Processor W B × Buffers W)
      (run : Handle W B → Bool × Processor W B × Buffers W) (v : List W × RuntimeInfo × List W)
      → playing lost.1 ≡ v
      → ((h : Handle W B) → playing (run h).1 ≡ v)
      → (let chosen : Bool × Processor W B × Buffers W = elim core [
        | none ↦ lost
        | some h ↦ run h
      ] in
          playing chosen.1)
        ≡ v
  with_core-playing none lost run v hl hr = hl
  with_core-playing (some h) lost run v hl hr = hr h

  pub segment-playing :
      (fuel : ℕ) (p : Processor W B) (io : Buffers W) (first rest : ℕ)
      → playing (segment fuel p io first rest).1 ≡ playing p
  unfolding segment
  segment-playing zero p io first rest = refl
  segment-playing (suc fuel) p io first rest =
      let n = min p.core_block rest in
      let step = λ (h : Handle W B).
        let (played, next, written) = segment_block p h io first n in
        let later = segment fuel next written (first + n) (rest - n) in
        if played then later else (false, next, written) in
      let stepped : (h : Handle W B) → playing (step h).1 ≡ playing p = λ h.
        let (played, next, written) = segment_block p h io first n in
        elim (Bool-cases played) [
          | inl on ↦ rw on (
              segment-playing fuel next written (first + n) (rest - n)
              ∙ block-playing p h io first n)
          | inr stop ↦ rw stop (block-playing p h io first n)
        ] in
      elim (Bool-cases (rest == 0)) [
        | inl done ↦ rw done refl
        | inr more ↦ rw more (with_core-playing p.core (false, p, io) step (playing p) refl stepped)
      ]
