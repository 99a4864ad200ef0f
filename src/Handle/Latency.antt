-- ===== src/Handle/Latency.antt =====
-- src/boiled_egg.cpp: the frames that `process_realtime_chunk` writes.
use boiled_egg.Base.{
  ℕ, ◌+◌, ◌-◌, ◌≡◌, ◌⊎◌, ◌∙◌, refl, ◌≤◌, ◌<◌, min, true, false, ◌&&◌, inl, inr, arith, Bool-cases,
  ltb, leb, ◌==◌,
}
use boiled_egg.Abi.{is_ok}
use boiled_egg.Floating.{Floating}
use boiled_egg.Backend.{Backend, PullsWithin}
use boiled_egg.Handle.{Handle}
use boiled_egg.Handle.Chunk.{
  Buffers, input_of, pointers_at, fill, write_back, with_destination, pull_chunk,
  process_realtime_chunk,
}

module _ {W : Type 0} where
  -- Frames of `x` and `y` agree but for `first` to `first + n`.
  abbrev pub SameOutside : ℕ → ℕ → (ℕ → ℕ → W) → (ℕ → ℕ → W) → Type 0
  SameOutside first n x y = (ch i : ℕ) → (i < first) ⊎ (first + n ≤ i) → y ch i ≡ x ch i

  pub fill_outside :
      (channels : ℕ) (v : W) (first n : ℕ) (x : ℕ → ℕ → W)
      → SameOutside first n x (fill channels v first n x)
  fill_outside channels v first n x ch i away =
      let missed : (ltb ch channels && leb first i && ltb i (first + n)) ≡ false =
        ground (arith, away) in
      rw missed refl

  fill_inside :
      (channels : ℕ) (v : W) (first n : ℕ) (x : ℕ → ℕ → W) (ch i : ℕ)
      → ch < channels
      → first ≤ i
      → i < first + n
      → fill channels v first n x ch i ≡ v
  fill_inside channels v first n x ch i p q r =
      let hit : (ltb ch channels && leb first i && ltb i (first + n)) ≡ true = ground arith in
      rw hit refl

module _ {W : Type 0} ⦃w : Floating W⦄ {B : Type 0} ⦃b : Backend W B⦄ where
  -- The chunk of `frames` frames from `offset` on.
  pub record ChunkReport (h : Handle W B) (io : Buffers W) (offset frames : ℕ) (h' : Handle W B)
      (io' : Buffers W) : Type 0 where
    pub padding : h'.realtime_latency_remaining ≡ h.realtime_latency_remaining - frames
    pub silent :
        (ch i : ℕ)
        → ch < h.channels
        → offset ≤ i
        → i < offset + min frames h.realtime_latency_remaining
        → io'.destination ch i ≡ w.nat 0
    pub outside : SameOutside offset frames io.destination io'.destination

  module _ (laws : PullsWithin W B) where
    write_back_outside :
        (s : B) (x : ℕ → ℕ → W) (first wanted : ℕ)
        → SameOutside first wanted x (write_back first (b.pull s (pointers_at x first) wanted).2 x)
    write_back_outside s x first wanted ch i (inl early) =
        let no : leb first i ≡ false = ground arith in rw no refl
    write_back_outside s x first wanted ch i (inr late) =
        let output = pointers_at x first in
        let few = laws.produced_le s output wanted in
        let rest = laws.beyond s output wanted ch (i - first) (omega arith) in
        let yes : leb first i ≡ true = ground arith in
        let back : first + (i - first) ≡ i = omega arith in rw yes (rw back at rest)

    -- `pull_chunk` writes `wanted` frames from `first` on.
    pub pull_chunk_outside :
        (h : Handle W B) (io : Buffers W) (first wanted : ℕ)
        → SameOutside first wanted io.destination (pull_chunk h io first wanted).2.destination
    unfolding pull_chunk
    pull_chunk_outside h io first wanted ch i away =
        let output = pointers_at io.destination first in
        let few = laws.produced_le h.engine output wanted in
        let (result, produced, after, engine) = b.pull h.engine output wanted in
        let written = write_back first after io.destination in
        let kept = write_back_outside h.engine io.destination first wanted ch i away in
        let padded =
          fill_outside h.channels (w.nat 0) (first + produced) (wanted - produced) written ch i
            (ground (arith, away)) in
        elim (Bool-cases (wanted == 0)) [
          | inl empty ↦ rw empty refl
          | inr some_frames ↦ elim (Bool-cases (is_ok result)) [
            | inr failed ↦ rw (some_frames, failed) kept
            | inl fine ↦ elim (Bool-cases (produced == wanted)) [
              | inl full ↦ rw (some_frames, fine, full) kept
              | inr short ↦ rw (some_frames, fine, short) (padded ∙ kept)
            ]
          ]
        ]

    pull_chunk_latency :
        (h : Handle W B) (io : Buffers W) (first wanted : ℕ)
        → (pull_chunk h io first wanted).1.realtime_latency_remaining ≡ h.realtime_latency_remaining
    unfolding pull_chunk
    pull_chunk_latency h io first wanted = ground arith

    accepted-ChunkReport :
        (h : Handle W B) (io : Buffers W) (offset frames : ℕ) (engine : B)
        → let z = min frames h.realtime_latency_remaining in
          let waited = record h {
            engine = engine;
            realtime_latency_remaining = h.realtime_latency_remaining - z;
          } in
          let silenced = with_destination io (fill h.channels (w.nat 0) offset z io.destination) in
          let (result, h', io') = pull_chunk waited silenced (offset + z) (frames - z) in
          ChunkReport h io offset frames h' io'
    accepted-ChunkReport h io offset frames engine =
        let z = min frames h.realtime_latency_remaining in
        let silent = fill h.channels (w.nat 0) offset z io.destination in
        let waited = record h {
          engine = engine;
          realtime_latency_remaining = h.realtime_latency_remaining - z;
        } in
        let kept =
          pull_chunk_outside waited (with_destination io silent) (offset + z) (frames - z) in
        let latency =
          pull_chunk_latency waited (with_destination io silent) (offset + z) (frames - z) in
        record {
          padding = latency ∙ omega arith;
          silent = λ ch i p q r.
              kept ch i (inl r)
              ∙ fill_inside h.channels (w.nat 0) offset z io.destination ch i p q r;
          outside = λ ch i away.
              kept ch i (ground (arith, away))
              ∙ fill_outside h.channels (w.nat 0) offset z io.destination ch i
                  (ground (arith, away));
        }

    -- A chunk of at least one frame that the backend accepts whole with `ok`: the latency still
    -- to be padded shrinks by the frames of the chunk and stops at 0, the frames that it claims
    -- are silent on every channel of the handle, and no frame of the destination outside the
    -- chunk changes, whatever the pull then returns. The backend writes the frames that it
    -- reports and no other.
    pub process_realtime_chunk_report :
        (h : Handle W B) (io : Buffers W) (offset frames : ℕ)
        → 0 < frames
        → is_ok (b.push h.engine (pointers_at (input_of io) offset) frames).0 ≡ true
        → (b.push h.engine (pointers_at (input_of io) offset) frames).1 ≡ frames
        → let (result, h', io') = process_realtime_chunk h io offset frames in
          ChunkReport h io offset frames h' io'
    unfolding process_realtime_chunk
    process_realtime_chunk_report h io offset frames some_frames fine whole =
        let (result, accepted, engine) =
          b.push h.engine (pointers_at (input_of io) offset) frames in
        let nonzero : (frames == 0) ≡ false = ground arith in
        let all : (accepted == frames) ≡ true = ground arith in
        rw (nonzero, fine, all) (accepted-ChunkReport h io offset frames engine)
