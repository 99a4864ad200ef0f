-- ===== src/Spectral/Drains.antt =====
-- src/spectral_backend.cpp: after a flush, pulls drain the backend.
use boiled_egg.Base.{
  ℕ, zero, suc, ◌+◌, ◌-◌, ◌*◌, min, ◌≡◌, refl, ap, ◌∙◌, sym, ◌≤◌, ◌<◌, true, false, not, ◌&&◌, ◌==◌,
  inl, inr, Bool-cases, both_fail, arith,
}
use boiled_egg.Abi.{ok, Planar, present, is_ok}
use boiled_egg.Floating.{Floating}
use boiled_egg.Pv.Finish.{Finished, taken, taken-Finished, pull-Finished, flush-Finished}
use boiled_egg.Pv.Stream
use boiled_egg.Spectral.Faults.{translate_ok}
use boiled_egg.Spectral.{SpectralBackend, translate, flush, pull, drained}

nothing_more : (k n left : ℕ) → left ≤ suc k * n → left - min n left ≤ k * n
nothing_more k n left enough = ground (arith, enough)

module _ {W : Type 0} ⦃w : Floating W⦄ where
  -- `k` pulls of `n` frames: the frames that they report in all, and the backend.
  unfoldable pub pulls : ℕ → SpectralBackend W → (ℕ → Planar W) → ℕ → ℕ × SpectralBackend W
  pulls zero s y n = (0, s)
  pulls (suc k) s y n =
      let (result, produced, after, next) = pull s (y 0) n in
      let (total, last) = pulls k next (λ i. y (i + 1)) n in (produced + total, last)

  -- A backend that a flush has finished, with what is left in the FIFO.
  record Draining (s : SpectralBackend W) (left : ℕ) : Type 0 where
    flushed : s.flushed ≡ true
    fine : s.fault ≡ false
    finished : Finished s.engine
    channels : s.engine.settings.channels ≡ s.channels
    fifo : s.engine.fifo_count ≡ left

  pull_open :
      (s : SpectralBackend W) (y : Planar W) (n : ℕ)
      → s.fault ≡ false
      → present s.channels y ≡ true
      → let (produced, after, engine) = Stream.pull s.engine y n in
        pull s y n ≡ (ok, produced, after, record s { engine = engine })
  unfolding pull
  pull_open s y n fine there =
      let checked : (not (n == 0) && not (present s.channels y)) ≡ false = ground (arith, there) in
      both_fail s.fault _ _ _ _ fine checked

  pull-Draining :
      (s : SpectralBackend W) (y : Planar W) (n left : ℕ)
      → Draining s left
      → present s.channels y ≡ true
      → ((pull s y n).1 ≡ min n left)
        × Draining (pull s y n).3 (left - min n left)
        × ((pull s y n).3.channels ≡ s.channels)
  unfolding taken
  pull-Draining s y n left d there =
      let (count, next) = pull-Finished s.engine y n d.finished (rw (d.channels) there) in
      rw (pull_open s y n d.fine there, next)
        (
          count ∙ ap (min n) d.fifo,
          record {
            flushed = d.flushed;
            fine = d.fine;
            finished = taken-Finished s.engine (min n s.engine.fifo_count) d.finished;
            channels = d.channels;
            fifo = rw (d.fifo) refl;
          },
          refl,
        )

  drained-Draining : (s : SpectralBackend W) → Draining s 0 → drained s ≡ true
  unfolding drained
  drained-Draining s d = rw (d.flushed, d.fine, d.fifo) refl

  flush-Draining :
      (s : SpectralBackend W)
      → s.flushed ≡ false
      → s.engine.settings.channels ≡ s.channels
      → is_ok (flush s).0 ≡ true
      → Draining (flush s).1 (flush s).1.engine.fifo_count × ((flush s).1.channels ≡ s.channels)
  unfolding flush
  flush-Draining s still same good = elim (Bool-cases s.fault) [
    | inl stuck ↦ absurd (let no : false ≡ true = rw stuck at good in cc no)
    | inr fine ↦ elim (Bool-cases (Stream.is_ok (Stream.flush s.engine).0)) [
      | inl taken_well ↦
          let (finished, kept) = flush-Finished s.engine taken_well in
          rw (fine, still, taken_well)
            (
              record {
                flushed = refl;
                fine = refl;
                finished = finished;
                channels = ap (λ t. t.channels) kept ∙ same;
                fifo = refl;
              },
              refl,
            )
      | inr failed ↦
          let yes : is_ok (translate (Stream.flush s.engine).0) ≡ true =
            rw (fine, still, failed) at good in
          absurd (cc ((translate_ok (Stream.flush s.engine).0 failed).0, yes))
    ]
  ]

  pulls-Draining :
      (k : ℕ) (s : SpectralBackend W) (y : ℕ → Planar W) (n left : ℕ)
      → Draining s left
      → 0 < n
      → left ≤ k * n
      → ((i : ℕ) → present s.channels (y i) ≡ true)
      → ((pulls k s y n).0 ≡ left) × (drained (pulls k s y n).1 ≡ true)
  unfolding pulls
  pulls-Draining zero s y n left d some_frames enough there =
      let nothing : left ≡ 0 = omega (arith, enough) in
      (sym nothing, drained-Draining s (rw nothing at d))
  pulls-Draining (suc k) s y n left d some_frames enough there =
      let (count, next, same) = pull-Draining s (y 0) n left d (there 0) in
      let rest : left - min n left ≤ k * n = nothing_more k n left enough in
      let (total, done) =
        pulls-Draining k (pull s (y 0) n).3 (λ i. y (i + 1)) n (left - min n left) next some_frames
          rest (λ i. rw same (there (i + 1))) in
      (rw (count, total) (omega arith), done)

  -- After a flush that succeeds, pulls of `n` frames, enough of them for what the FIFO holds, report
  -- exactly the frames that the FIFO held, and leave the backend drained; the engine has the
  -- backend's channels and the pointers of all pulls are present.
  pub flush-drains :
      (s : SpectralBackend W) (y : ℕ → Planar W) (k n : ℕ)
      → s.flushed ≡ false
      → s.engine.settings.channels ≡ s.channels
      → is_ok (flush s).0 ≡ true
      → 0 < n
      → (flush s).1.engine.fifo_count ≤ k * n
      → ((i : ℕ) → present s.channels (y i) ≡ true)
      → ((pulls k (flush s).1 y n).0 ≡ (flush s).1.engine.fifo_count)
        × (drained (pulls k (flush s).1 y n).1 ≡ true)
  flush-drains s y k n still same good some_frames enough there =
      let (d, kept) = flush-Draining s still same good in
      pulls-Draining k (flush s).1 y n (flush s).1.engine.fifo_count d some_frames enough
        (λ i. rw kept (there i))
