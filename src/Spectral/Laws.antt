-- ===== src/Spectral/Laws.antt =====
-- src/spectral_backend.cpp: the frames that the spectral backend reads and writes, and its ramps.
use boiled_egg.Base.{
  ℕ, zero, suc, ◌+◌, ◌≡◌, refl, ◌≤◌, ◌<◌, min, false, not, ◌&&◌, ◌==◌, ltb, some, inl, inr,
  Bool-cases, arith,
}
use boiled_egg.Abi.{Planar, present, read_pointers}
use boiled_egg.Floating.{Floating}
use boiled_egg.Backend.Within.{all_some}
use boiled_egg.Backend.{PullsWithin, PushesWithin}
use boiled_egg.Handle.Chunk.{pointers_at}
use boiled_egg.Handle.Realtime.{finite_frames, finite_channels}
use boiled_egg.Pv.{Pv}
use boiled_egg.Pv.Stream
use boiled_egg.Pv.Ramps.{apply_ramp as pv_apply_ramp}
use boiled_egg.Spectral.{
  SpectralBackend, spectral_backend, spectral_ramps, push, push_frames, pull, apply_ramp,
}

module _ {W : Type 0} ⦃w : Floating W⦄ where
  pv_pull_le : (e : Pv W) (y : Planar W) (n : ℕ) → (Stream.pull e y n).0 ≤ n
  unfolding Stream.pull
  pv_pull_le e y n = ground arith

  pv_pull_beyond :
      (e : Pv W) (y : Planar W) (n ch i : ℕ)
      → (Stream.pull e y n).0 ≤ i
      → (Stream.pull e y n).1 ch i ≡ read_pointers (w.nat 0) y ch i
  unfolding Stream.pull
  pv_pull_beyond e y n ch i late =
      let filled = Stream.refill e in
      elim (Bool-cases (not (n == 0) && not (present e.settings.channels y))) [
        | inl missing ↦ rw missing refl
        | inr there ↦
            let past : min n filled.fifo_count ≤ i = rw there at late in
            let missed : (ltb ch e.settings.channels && ltb i (min n filled.fifo_count)) ≡ false =
              ground (arith, past) in
            rw (there, missed) refl
      ]

  pull_le : (s : SpectralBackend W) (y : Planar W) (n : ℕ) → (pull s y n).1 ≤ n
  unfolding pull
  pull_le s y n = ground (arith, pv_pull_le s.engine y n)

  pull_beyond :
      (s : SpectralBackend W) (y : Planar W) (n ch i : ℕ)
      → (pull s y n).1 ≤ i
      → (pull s y n).2 ch i ≡ read_pointers (w.nat 0) y ch i
  unfolding pull
  pull_beyond s y n ch i late = elim (Bool-cases s.fault) [
    | inl stuck ↦ rw stuck refl
    | inr fine ↦ elim (Bool-cases (not (n == 0) && not (present s.channels y))) [
      | inl missing ↦ rw (fine, missing) refl
      | inr there ↦ rw (fine, there) (pv_pull_beyond s.engine y n ch i (rw (fine, there) at late))
    ]
  ]

  -- A pull of the spectral backend reports no more frames than were asked for, and writes no frame
  -- beyond those that it reports.
  pub spectral_backend-PullsWithin : PullsWithin W (SpectralBackend W)
  spectral_backend-PullsWithin = record { produced_le = pull_le; beyond = pull_beyond }

  finite_frames_congr :
      (n i : ℕ) (x y : ℕ → W)
      → ((k : ℕ) → k < i + n → x k ≡ y k)
      → finite_frames n i x ≡ finite_frames n i y
  unfolding finite_frames
  finite_frames_congr zero i x y same = refl
  finite_frames_congr (suc n) i x y same =
      rw (same i (omega arith), finite_frames_congr n (i + 1) x y (λ k lt. same k (omega arith)))
        refl

  finite_channels_congr :
      (c ch n : ℕ) (x y : ℕ → ℕ → W)
      → ((ch i : ℕ) → i < n → x ch i ≡ y ch i)
      → finite_channels c ch n x ≡ finite_channels c ch n y
  unfolding finite_channels
  finite_channels_congr zero ch n x y same = refl
  finite_channels_congr (suc c) ch n x y same =
      rw
        (
          finite_frames_congr n 0 (x ch) (y ch) (λ k lt. same ch k (omega arith)),
          finite_channels_congr c (ch + 1) n x y same,
        )
        refl

  pv_push_one :
      (e : Pv W) (x y : ℕ → ℕ → W) (i : ℕ)
      → ((ch : ℕ) → x ch i ≡ y ch i)
      → Stream.push e (pointers_at x i) 1 ≡ Stream.push e (pointers_at y i) 1
  unfolding Stream.push Stream.push_samples
  pv_push_one e x y i same =
      let here : i + 0 ≡ i = omega arith in
      let frame : Path (ℕ → W) (λ ch. x ch (i + 0)) (λ ch. y ch (i + 0)) =
        λ j ch. (let e : x ch (i + 0) ≡ y ch (i + 0) = rw here (same ch) in e) j in
      rw
        (
          all_some e.settings.channels 0 (λ ch k. x ch (i + k)),
          all_some e.settings.channels 0 (λ ch k. y ch (i + k)),
          frame,
        )
        refl

  push_frames_congr :
      (n i : ℕ) (s : SpectralBackend W) (x y : ℕ → ℕ → W) (accepted : ℕ)
      → ((ch k : ℕ) → k < i + n → x ch k ≡ y ch k)
      → push_frames n i s x accepted ≡ push_frames n i s y accepted
  unfolding push_frames
  push_frames_congr zero i s x y accepted same = refl
  push_frames_congr (suc n) i s x y accepted same =
      let one = pv_push_one s.engine x y i (λ ch. same ch i (omega arith)) in
      let next = record s { engine = (Stream.push s.engine (pointers_at y i) 1).1 } in
      rw
        (
          one,
          push_frames_congr n (i + 1) next x y (accepted + 1) (λ ch k lt. same ch k (omega arith)),
        )
        refl

  push_frames_le :
      (n i : ℕ) (s : SpectralBackend W) (x : ℕ → ℕ → W) (accepted : ℕ)
      → (push_frames n i s x accepted).1 ≤ accepted + n
  unfolding push_frames
  push_frames_le zero i s x accepted = omega arith
  push_frames_le (suc n) i s x accepted =
      let next = record s { engine = (Stream.push s.engine (pointers_at x i) 1).1 } in
      ground (arith, push_frames_le n (i + 1) next x (accepted + 1))

  push_le : (s : SpectralBackend W) (x : Planar W) (n : ℕ) → (push s x n).1 ≤ n
  unfolding push
  push_le s x n = ground (arith, push_frames_le n 0 s (read_pointers (w.nat 0) x) 0)

  push_reads :
      (s : SpectralBackend W) (x y : ℕ → ℕ → W) (n : ℕ)
      → ((ch i : ℕ) → i < n → x ch i ≡ y ch i)
      → push s (some (λ ch. some (x ch))) n ≡ push s (some (λ ch. some (y ch))) n
  unfolding push
  push_reads s x y n same =
      rw
        (
          all_some s.channels 0 x,
          all_some s.channels 0 y,
          finite_channels_congr s.channels 0 n x y same,
          push_frames_congr n 0 s x y 0 (λ ch k lt. same ch k (omega arith)),
        )
        refl

  -- A push of the spectral backend accepts no more frames than it is offered, and depends on these
  -- and on no other.
  pub spectral_backend-PushesWithin : PushesWithin W (SpectralBackend W)
  spectral_backend-PushesWithin = record { accepted_le = push_le; reads = push_reads }
