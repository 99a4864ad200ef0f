-- ===== src/Spectral/Faults.antt =====
-- src/spectral_backend.cpp: what a push of the spectral backend comes to.
use boiled_egg.Base.{
  ℕ, zero, suc, ◌+◌, ◌≡◌, refl, ◌≤◌, ◌<◌, true, false, not, ◌&&◌, ◌||◌, ◌==◌, ltb, leb, inl, inr,
  Bool-cases, all_fail, arith,
}
use boiled_egg.Abi.{Result, Planar, read_pointers, is_ok, is_full, present}
use boiled_egg.Floating.{Floating}
use boiled_egg.Handle.Chunk.{pointers_at}
use boiled_egg.Handle.Realtime.{finite_channels}
use boiled_egg.Pv.Config.{PvResult}
use boiled_egg.Pv.Stream
use boiled_egg.Spectral.{SpectralBackend, translate, push_limit, push, push_frames, available}

pub translate_ok :
    (r : PvResult)
    → Stream.is_ok r ≡ false
    → (is_ok (translate r) ≡ false) × (is_full (translate r) ≡ false)
translate_ok PvResult.ok bad = absurd cc
translate_ok PvResult.invalid_argument bad = (refl, refl)
translate_ok PvResult.invalid_config bad = (refl, refl)
translate_ok PvResult.out_of_memory bad = (refl, refl)
translate_ok PvResult.fifo_overflow bad = (refl, refl)
translate_ok PvResult.already_flushed bad = (refl, refl)
translate_ok PvResult.internal_error bad = (refl, refl)

module _ {W : Type 0} ⦃w : Floating W⦄ where
  -- What a push of `total` frames reports and leaves: all frames and no fault; or a full buffer, where
  -- the output to be pulled has reached the limit; or an error, and the fault that stops the backend.
  pub record PushOutcome (total : ℕ) (result : Result) (accepted : ℕ) (s : SpectralBackend W)
      : Type 0 where
    pub whole : is_ok result ≡ true → (accepted ≡ total) × (s.fault ≡ false)
    pub full :
        is_full result ≡ true → (accepted < total) × (s.fault ≡ false) × (push_limit ≤ available s)
    pub failed :
        is_ok result ≡ false → is_full result ≡ false → (accepted < total) × (s.fault ≡ true)

  push_frames-PushOutcome :
      (n i : ℕ) (s : SpectralBackend W) (x : ℕ → ℕ → W) (accepted : ℕ)
      → s.fault ≡ false
      → let (result, total, s') = push_frames n i s x accepted in
        PushOutcome (accepted + n) result total s'
  unfolding push_frames
  push_frames-PushOutcome zero i s x accepted fine = record {
    whole = λ _. (omega arith, fine);
    full = λ f. absurd cc;
    failed = λ f _. absurd cc;
  }
  push_frames-PushOutcome (suc n) i s x accepted fine =
      let (result, engine) = Stream.push s.engine (pointers_at x i) 1 in
      let next = record s { engine = engine } in
      elim (Bool-cases (leb push_limit (available s))) [
        | inl busy ↦
            let over : push_limit ≤ available s = ground (arith, busy) in
            rw busy (record {
              whole = λ f. absurd cc;
              full = λ _. (omega arith, fine, over);
              failed = λ _ f. absurd cc;
            })
        | inr room ↦ elim (Bool-cases (Stream.is_ok result)) [
          | inr bad ↦
              let (not_ok, not_full) = translate_ok result bad in
              rw (room, bad)
                (record {
                  whole = λ f. absurd (cc (not_ok));
                  full = λ f. absurd (cc (not_full));
                  failed = λ _ _. (omega arith, refl);
                })
          | inl taken ↦
              let one : accepted + suc n ≡ accepted + 1 + n = omega arith in
              rw (room, taken, one) (push_frames-PushOutcome n (i + 1) next x (accepted + 1) fine)
        ]
      ]

  push_open :
      (s : SpectralBackend W) (x : Planar W) (n : ℕ)
      → s.fault ≡ false
      → s.flushed ≡ false
      → n ≤ s.max_block
      → present s.channels x ≡ true
      → finite_channels s.channels 0 n (read_pointers (w.nat 0) x) ≡ true
      → push s x n ≡ push_frames n 0 s (read_pointers (w.nat 0) x) 0
  unfolding push
  push_open s x n fine open_still small there finite =
      let sized : (ltb s.max_block n || not (n == 0) && not (present s.channels x)) ≡ false =
        ground (arith, small, there) in
      let checked : (not (n == 0)
            && not (finite_channels s.channels 0 n (read_pointers (w.nat 0) x)))
          ≡ false =
        ground (arith, finite) in
      all_fail s.fault s.flushed _ _ _ _ _ _ _ fine open_still sized checked

  -- Every push of a backend that has no fault and is not flushed, with present and finite input of no
  -- more than a block, has one of three outcomes: `ok`, all frames accepted and no fault; a full
  -- buffer, fewer frames, no fault, and at least 32768 frames to pull; or an error, fewer frames, and
  -- the fault.
  pub push-PushOutcome :
      (s : SpectralBackend W) (x : Planar W) (n : ℕ)
      → s.fault ≡ false
      → s.flushed ≡ false
      → n ≤ s.max_block
      → present s.channels x ≡ true
      → finite_channels s.channels 0 n (read_pointers (w.nat 0) x) ≡ true
      → let (result, accepted, s') = push s x n in PushOutcome n result accepted s'
  push-PushOutcome s x n fine open_still small there finite =
      let empty : 0 + n ≡ n = omega arith in
      let outcome = push_frames-PushOutcome n 0 s (read_pointers (w.nat 0) x) 0 fine in
      rw (push_open s x n fine open_still small there finite) (rw empty at outcome)
