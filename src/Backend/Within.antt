-- ===== src/Backend/Within.antt =====
-- src/backend.cpp: the frames that a push of the whole backend reads and a pull writes.
use boiled_egg.Base.{
  ℕ, zero, suc, ◌+◌, List, ◌≡◌, ◌≤◌, ◌<◌, refl, min, true, false, none, some, arith, ltb, ◌==◌,
  ◌&&◌, inl, inr, Bool-cases,
}
use boiled_egg.Abi.{Planar, read_pointers, read_planar, all_present}
use boiled_egg.Floating.{Floating}
use boiled_egg.Ring
use boiled_egg.Ring.{size}
use boiled_egg.Engine.{Engine}
use boiled_egg.Engine.Stream
use boiled_egg.Engine.Stream.{process_available}
use boiled_egg.Backend.{Backend, PullsWithin, PushesWithin}
use boiled_egg.Backend.Dispatch.{BackendEngine, wsola, spectral, pull, push, backend_engine}

module _ {W : Type 0} ⦃w : Floating W⦄ where
  pop_beyond :
      (ring : Ring.PlanarRing W) (dst : ℕ → ℕ → W) (n ch i : ℕ)
      → (Ring.pop_planar (w.nat 0) ring dst n).0 ≤ i
      → (Ring.pop_planar (w.nat 0) ring dst n).1 ch i ≡ dst ch i
  unfolding Ring.pop_planar
  pop_beyond ring dst n ch i late =
      let missed : (ltb ch ring.channels && ltb i (min n (size ring))) ≡ false = ground arith in
      rw missed refl

  engine_produced_le :
      (fuel : ℕ) (e : Engine W) (output : Planar W) (n : ℕ) → (Stream.pull fuel e output n).1 ≤ n
  unfolding Stream.pull Ring.pop_planar
  engine_produced_le fuel e none n = omega arith
  engine_produced_le fuel e (some pointers) n = ground arith

  engine_beyond :
      (fuel : ℕ) (e : Engine W) (output : Planar W) (n ch i : ℕ)
      → (Stream.pull fuel e output n).1 ≤ i
      → (Stream.pull fuel e output n).2 ch i ≡ read_pointers (w.nat 0) output ch i
  unfolding Stream.pull
  engine_beyond fuel e none n ch i late = refl
  engine_beyond fuel e (some pointers) n ch i late =
      let popped =
        pop_beyond (process_available fuel e).output (read_planar (w.nat 0) pointers) n ch i in
      elim (Bool-cases (n == 0)) [
        | inl empty ↦ rw empty refl
        | inr some_frames ↦ elim (Bool-cases (all_present e.channels 0 pointers)) [
          | inr missing ↦ rw (some_frames, missing) refl
          | inl present ↦ rw (some_frames, present) (popped (rw (some_frames, present) at late))
        ]
      ]

  module _ {S : Type 0} ⦃b : Backend W S⦄ where
    whole_produced_le :
        (fuel : ℕ) (laws : PullsWithin W S) (s : BackendEngine W S) (output : Planar W) (n : ℕ)
        → (pull fuel s output n).1 ≤ n
    whole_produced_le fuel laws (wsola e) output n = engine_produced_le fuel e output n
    whole_produced_le fuel laws (spectral t) output n = laws.produced_le t output n

    whole_beyond :
        (fuel : ℕ) (laws : PullsWithin W S) (s : BackendEngine W S) (output : Planar W) (n ch i : ℕ)
        → (pull fuel s output n).1 ≤ i
        → (pull fuel s output n).2 ch i ≡ read_pointers (w.nat 0) output ch i
    whole_beyond fuel laws (wsola e) output n ch i = engine_beyond fuel e output n ch i
    whole_beyond fuel laws (spectral t) output n ch i = laws.beyond t output n ch i

    -- A pull of a backend engine reports no more frames than were asked for, and writes no frame
    -- beyond those that it reports, if that is so of the spectral backend.
    pub backend_engine-PullsWithin :
        (fuel : ℕ) → PullsWithin W S → PullsWithin W (BackendEngine W S) ⦃b = backend_engine fuel⦄
    backend_engine-PullsWithin fuel laws = record {
      produced_le = whole_produced_le fuel laws;
      beyond = whole_beyond fuel laws;
    }

module _ {W : Type 0} where
  pub all_some : (n ch : ℕ) (f : ℕ → ℕ → W) → all_present n ch (λ c. some (f c)) ≡ true
  unfolding all_present
  all_some zero ch f = refl
  all_some (suc n) ch f = all_some n (ch + 1) f

  -- Writes that read the same frames write the same samples.
  write_frames_congr :
      (n i : ℕ) (r : Ring.PlanarRing W) (x y : ℕ → ℕ → W) (samples : List W)
      → ((ch k : ℕ) → k < i + n → x ch k ≡ y ch k)
      → Ring.write_frames n i r x samples ≡ Ring.write_frames n i r y samples
  unfolding Ring.write_frames
  write_frames_congr zero i r x y samples same = refl
  write_frames_congr (suc n) i r x y samples same =
      let frame : Path (ℕ → W) (λ ch. x ch i) (λ ch. y ch i) = λ j ch. same ch i (omega arith) j in
      rw frame (write_frames_congr n (i + 1) r x y _ (λ ch k lt. same ch k (omega arith)))

  push_planar_congr :
      (r : Ring.PlanarRing W) (x y : ℕ → ℕ → W) (n : ℕ)
      → ((ch k : ℕ) → k < n → x ch k ≡ y ch k)
      → Ring.push_planar r x n ≡ Ring.push_planar r y n
  unfolding Ring.push_planar
  push_planar_congr r x y n same =
      rw (write_frames_congr n 0 r x y r.samples (λ ch k lt. same ch k (omega arith))) refl

module _ {W : Type 0} ⦃w : Floating W⦄ where
  push_frames_congr :
      (fuel : ℕ) (e : Engine W) (x y : ℕ → ℕ → W) (n : ℕ)
      → ((ch i : ℕ) → i < n → x ch i ≡ y ch i)
      → Stream.push_frames fuel e x n ≡ Stream.push_frames fuel e y n
  unfolding Stream.push_frames
  push_frames_congr fuel e x y n same =
      let m = min n (Ring.free_space e.input) in
      rw (push_planar_congr e.input x y m (λ ch k lt. same ch k (omega arith))) refl

  engine_reads :
      (fuel : ℕ) (e : Engine W) (x y : ℕ → ℕ → W) (n : ℕ)
      → ((ch i : ℕ) → i < n → x ch i ≡ y ch i)
      → Stream.push fuel e (some (λ ch. some (x ch))) n
        ≡ Stream.push fuel e (some (λ ch. some (y ch))) n
  unfolding Stream.push
  engine_reads fuel e x y n same =
      rw (all_some e.channels 0 x, all_some e.channels 0 y, push_frames_congr fuel e x y n same)
        refl

  push_frames_le :
      (fuel : ℕ) (e : Engine W) (src : ℕ → ℕ → W) (n : ℕ) → (Stream.push_frames fuel e src n).1 ≤ n
  unfolding Stream.push_frames
  push_frames_le fuel e src n = ground arith

  engine_accepted_le :
      (fuel : ℕ) (e : Engine W) (input : Planar W) (n : ℕ) → (Stream.push fuel e input n).1 ≤ n
  unfolding Stream.push
  engine_accepted_le fuel e none n = ground arith
  engine_accepted_le fuel e (some pointers) n =
      ground (arith, push_frames_le fuel e (read_planar (w.nat 0) pointers) n)

module _ {W : Type 0} ⦃w : Floating W⦄ {S : Type 0} ⦃b : Backend W S⦄ where
  whole_accepted_le :
      (fuel : ℕ) (laws : PushesWithin W S) (s : BackendEngine W S) (input : Planar W) (n : ℕ)
      → (push fuel s input n).1 ≤ n
  whole_accepted_le fuel laws (wsola e) input n = engine_accepted_le fuel e input n
  whole_accepted_le fuel laws (spectral t) input n = laws.accepted_le t input n

  whole_reads :
      (fuel : ℕ) (laws : PushesWithin W S) (s : BackendEngine W S) (x y : ℕ → ℕ → W) (n : ℕ)
      → ((ch i : ℕ) → i < n → x ch i ≡ y ch i)
      → push fuel s (some (λ ch. some (x ch))) n ≡ push fuel s (some (λ ch. some (y ch))) n
  whole_reads fuel laws (wsola e) x y n same = rw (engine_reads fuel e x y n same) refl
  whole_reads fuel laws (spectral t) x y n same = rw (laws.reads t x y n same) refl

  -- A push of a backend engine accepts no more frames than it is offered, and depends on these and
  -- on no other, if that is so of the spectral backend.
  pub backend_engine-PushesWithin :
      (fuel : ℕ) → PushesWithin W S → PushesWithin W (BackendEngine W S) ⦃b = backend_engine fuel⦄
  backend_engine-PushesWithin fuel laws = record {
    accepted_le = whole_accepted_le fuel laws;
    reads = whole_reads fuel laws;
  }
