-- ===== src/Ring/Cells.antt =====
-- src/engine.hpp: the cells that a write to `PlanarRing` changes.
use native.Mathlib.Decide.{dec_lt, ℕ_discrete}
use native.Mathlib.Nat.{mod-lt}
use boiled_egg.Base.{
  ℕ, zero, suc, ◌+◌, ◌-◌, ◌*◌, ◌^◌, ◌≤◌, ◌<◌, ◌≡◌, ◌≢◌, refl, ◌∙◌, ◌⊎◌, inl, inr, true, false, List,
  arith, u64, length, length-set, set, get_or, get_or-set_self, get_or-set_ne,
}
use boiled_egg.Ring.Slots.{slot_index-eq-mod, mod_apart, cell_injective, cell_lt}
use boiled_egg.Ring.Bounds.{IsValid, length-write_channels}
use boiled_egg.Ring.{
  PlanarRing, free_space, slot_index, write_channels, write_frames, push_planar, sample_at, cell,
}

module _ {ℓ} {A : Type ℓ} (silence : A) where
  -- A cell of another slot, or of a channel before the first one written, keeps its sample.
  write_channels_miss :
      (n ch capacity slot : ℕ) (frame : ℕ → A) (samples : List A) (ch' slot' : ℕ)
      → slot < capacity
      → slot' < capacity
      → ((slot ≢ slot') ⊎ (ch' < ch))
      → get_or (write_channels n ch capacity slot frame samples) (ch' * capacity + slot') silence
        ≡ get_or samples (ch' * capacity + slot') silence
  unfolding write_channels
  write_channels_miss zero ch capacity slot frame samples ch' slot' hs hs' apart = refl
  write_channels_miss (suc n) ch capacity slot frame samples ch' slot' hs hs' apart =
      write_channels_miss n (ch + 1) capacity slot frame _ ch' slot' hs hs' later
      ∙ get_or-set_ne samples (ch * capacity + slot) (ch' * capacity + slot') (frame ch) silence
          other
    where
      later : (slot ≢ slot') ⊎ (ch' < ch + 1)
      later = elim apart [ inl p ↦ inl p | inr q ↦ inr (omega arith) ]

      other : ch * capacity + slot ≢ ch' * capacity + slot'
      other e =
          let (c, s) = cell_injective capacity ch ch' slot slot' hs hs' e in
          elim apart [ inl p ↦ p s | inr q ↦ omega arith ]

  -- The cell of a written channel holds its sample of the frame.
  write_channels_hit :
      (n ch capacity slot channels : ℕ) (frame : ℕ → A) (samples : List A) (ch' : ℕ)
      → slot < capacity
      → length samples ≡ channels * capacity
      → ch + n ≤ channels
      → ch ≤ ch'
      → ch' < ch + n
      → get_or (write_channels n ch capacity slot frame samples) (ch' * capacity + slot) silence
        ≡ frame ch'
  unfolding write_channels
  write_channels_hit zero ch capacity slot channels frame samples ch' hs len fit lo hi =
      absurd (omega arith)
  write_channels_hit (suc n) ch capacity slot channels frame samples ch' hs len fit lo hi =
      let samples' = set samples (ch * capacity + slot) (frame ch) in
      elim (ℕ_discrete ch ch') [
        | yes e ↦
            write_channels_miss n (ch + 1) capacity slot frame samples' ch' slot hs hs
              (inr (omega arith))
            ∙ rw (← e) (
                get_or-set_self samples (ch * capacity + slot) (frame ch) silence
                  (rw len (cell_lt capacity channels ch slot (omega arith) hs)))
        | no ne ↦
            write_channels_hit n (ch + 1) capacity slot channels frame samples' ch' hs
              (length-set samples _ _ ∙ len) (omega arith) (omega arith) (omega arith)
      ]

  module _ (r : PlanarRing A) (v : IsValid r) where
    slot_lt : (i : ℕ) → slot_index r i < r.capacity
    slot_lt i = rw (slot_index-eq-mod r i (omega arith) v.mask_ok) (mod-lt i (omega arith))

    -- Two positions less than one capacity apart.
    slot_apart : (p q : ℕ) → p < q → q < p + r.capacity → slot_index r q ≢ slot_index r p
    slot_apart p q lo hi e =
        let e' =
          rw
            (
              slot_index-eq-mod r p (omega arith) v.mask_ok,
              slot_index-eq-mod r q (omega arith) v.mask_ok,
            )
            at e in
        let d : p + (q - p) ≡ q = omega arith in
        mod_apart r.capacity p (q - p) (omega arith) (omega arith) (rw d e')

    -- Frames written at positions after `q` leave the slot of `q` alone.
    write_frames_before :
        (n i : ℕ) (src : ℕ → ℕ → A) (samples : List A) (ch' q : ℕ)
        → r.end + i + n < 2 ^ 64
        → q < r.end + i
        → r.end + i + n ≤ q + r.capacity
        → get_or (write_frames n i r src samples) (cell r ch' (slot_index r q)) silence
          ≡ get_or samples (cell r ch' (slot_index r q)) silence
    unfolding write_frames
    write_frames_before zero i src samples ch' q nowrap lo hi = refl
    write_frames_before (suc n) i src samples ch' q nowrap lo hi =
        let e : u64 (r.end + i) ≡ r.end + i = omega arith in
        write_frames_before n (i + 1) src _ ch' q (omega arith) (omega arith) (omega arith)
        ∙ write_channels_miss r.channels 0 r.capacity (slot_index r (u64 (r.end + i)))
            (λ ch. src ch i) samples ch' (slot_index r q) (slot_lt _) (slot_lt q)
            (inl (rw e (slot_apart q (r.end + i) (omega arith) (omega arith))))

    write_frames_hit :
        (n i : ℕ) (src : ℕ → ℕ → A) (samples : List A) (ch' j : ℕ)
        → length samples ≡ r.channels * r.capacity
        → r.end + i + n < 2 ^ 64
        → n ≤ r.capacity
        → ch' < r.channels
        → i ≤ j
        → j < i + n
        → get_or (write_frames n i r src samples) (cell r ch' (slot_index r (r.end + j))) silence
          ≡ src ch' j
    unfolding write_frames
    write_frames_hit zero i src samples ch' j len nowrap fit hc lo hi = absurd (omega arith)
    write_frames_hit (suc n) i src samples ch' j len nowrap fit hc lo hi =
        let e : u64 (r.end + i) ≡ r.end + i = omega arith in
        let slot = slot_index r (u64 (r.end + i)) in
        let samples' = write_channels r.channels 0 r.capacity slot (λ ch. src ch i) samples in
        elim (ℕ_discrete i j) [
          | yes same ↦ rw (← same) (
              write_frames_before n (i + 1) src samples' ch' (r.end + i) (omega arith) (omega arith)
                (omega arith)
              ∙ rw e (
                  write_channels_hit r.channels 0 r.capacity (slot_index r (r.end + i)) r.channels
                    (λ ch. src ch i) samples ch' (slot_lt _) len (omega arith) (omega arith)
                    (omega arith)))
          | no other ↦
              write_frames_hit n (i + 1) src samples' ch' j
                (length-write_channels r.channels 0 r.capacity slot (λ ch. src ch i) samples ∙ len)
                (omega arith) (omega arith) hc (omega arith) (omega arith)
        ]

    module _ (src : ℕ → ℕ → A) (frames : ℕ) where
      pub push_planar_fits :
          frames ≤ free_space r
          → push_planar r src frames ≡ (
            true,
            record r {
              end = u64 (r.end + frames);
              samples = write_frames frames 0 r src r.samples;
            },
          )
      unfolding push_planar
      push_planar_fits fit = ground arith

      pub push_planar_full : free_space r < frames → push_planar r src frames ≡ (false, r)
      unfolding push_planar
      push_planar_full over = ground arith

      -- After a push that fits, stream position `end + i` holds frame `i` of the source.
      pub push_planar_new :
          (ch i : ℕ)
          → frames ≤ free_space r
          → r.end + frames < 2 ^ 64
          → ch < r.channels
          → i < frames
          → sample_at silence (push_planar r src frames).1 ch (r.end + i) ≡ src ch i
      push_planar_new ch i fit nowrap hc hi = rw (push_planar_fits fit) (
          unfold slot_index in
          write_frames_hit frames 0 src r.samples ch i v.storage (omega arith) (omega arith) hc
            (omega arith) (omega arith))

      -- A push leaves every position of the window as it was.
      pub push_planar_old :
          (ch q : ℕ)
          → r.start ≤ r.end
          → r.end + frames < 2 ^ 64
          → r.start ≤ q
          → q < r.end
          → sample_at silence (push_planar r src frames).1 ch q ≡ sample_at silence r ch q
      push_planar_old ch q order nowrap lo hi = elim (dec_lt (free_space r) frames) [
        | yes over ↦ rw (push_planar_full over)
        | no fit ↦ rw (push_planar_fits (omega arith)) (
            unfold slot_index in
            write_frames_before frames 0 src r.samples ch q (omega arith) (omega arith)
              (omega arith))
      ]
