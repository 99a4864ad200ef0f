-- ===== src/Ring/Bounds.antt =====
-- src/engine.hpp: the representation invariant of `PlanarRing` and its operations.
use boiled_egg.Base.{
  ℕ, zero, suc, ◌+◌, ◌*◌, ◌^◌, ◌≤◌, ◌<◌, ◌≡◌, refl, ◌∙◌, max, List, arith, u64, sub64, length,
  length-set, set, length-replicate,
}
use boiled_egg.Ring.{
  PlanarRing, init_mask, size, free_space, slot_index, write_channels, write_frames, push_planar,
  push_interleaved_scratch, push_one, discard_before, reset, init, pop_planar,
}

pub record IsValid {ℓ} {A : Type ℓ} (r : PlanarRing A) : Type 0 where
  pub capacity_ge : 8 ≤ r.capacity
  pub capacity_lt : r.capacity < 2 ^ 32
  pub mask_ok : r.mask ≡ init_mask r.capacity
  pub storage : length r.samples ≡ r.channels * r.capacity
  pub start_lt : r.start < 2 ^ 64
  pub end_lt : r.end < 2 ^ 64
  pub held : sub64 r.end r.start ≤ r.capacity

module _ {ℓ} {A : Type ℓ} where
  pub length-write_channels :
      (n ch capacity slot : ℕ) (frame : ℕ → A) (samples : List A)
      → length (write_channels n ch capacity slot frame samples) ≡ length samples
  unfolding write_channels
  length-write_channels zero ch capacity slot frame samples = refl
  length-write_channels (suc n) ch capacity slot frame samples =
      length-write_channels n (ch + 1) capacity slot frame
        (set samples (ch * capacity + slot) (frame ch))
      ∙ length-set samples (ch * capacity + slot) (frame ch)

  pub length-write_frames :
      (n i : ℕ) (r : PlanarRing A) (src : ℕ → ℕ → A) (samples : List A)
      → length (write_frames n i r src samples) ≡ length samples
  unfolding write_frames
  length-write_frames zero i r src samples = refl
  length-write_frames (suc n) i r src samples =
      length-write_frames n (i + 1) r src _
      ∙ length-write_channels r.channels 0 r.capacity (slot_index r (u64 (r.end + i)))
          (λ ch. src ch i) samples

  -- Neither `size()` nor `free_space()` wraps, and they make up the capacity.
  pub size_facts :
      {r : PlanarRing A}
      → IsValid r
      → (size r ≡ sub64 r.end r.start) × (free_space r + size r ≡ r.capacity)
  size_facts v = omega arith

  -- Only what fits is pushed: the ring stays valid, and on `false` it is unchanged.
  pub push_planar-IsValid :
      {r : PlanarRing A} (src : ℕ → ℕ → A) (frames : ℕ)
      → IsValid r
      → IsValid (push_planar r src frames).1
  unfolding push_planar
  push_planar-IsValid {r} src frames v =
      ground (arith, length-write_frames frames 0 r src r.samples)

  pub push_interleaved_scratch-IsValid :
      {r : PlanarRing A} (src : ℕ → A) (frames : ℕ)
      → IsValid r
      → IsValid (push_interleaved_scratch r src frames).1
  unfolding push_interleaved_scratch
  push_interleaved_scratch-IsValid {r} src frames v =
      ground (arith, length-write_frames frames 0 r (λ ch i. src (ch * frames + i)) r.samples)

  pub push_one-IsValid :
      {r : PlanarRing A} (frame : ℕ → A) → IsValid r → IsValid (push_one r frame).1
  unfolding push_one
  push_one-IsValid {r} frame v =
      ground
        (arith, length-write_channels r.channels 0 r.capacity (slot_index r r.end) frame r.samples)

  pub discard_before-IsValid : {r : PlanarRing A} (i : ℕ) → IsValid r → IsValid (discard_before r i)
  unfolding discard_before
  discard_before-IsValid i v = ground arith

  module _ (silence : A) where
    pub init-IsValid :
        (channels wanted : ℕ) → wanted < 2 ^ 32 → IsValid (init silence channels wanted)
    unfolding init
    init-IsValid channels wanted h =
        ground (arith, length-replicate (channels * max wanted 8) silence)

    pub reset-IsValid : {r : PlanarRing A} → IsValid r → IsValid (reset silence r)
    unfolding reset
    reset-IsValid {r} v = ground (arith, length-replicate (r.channels * r.capacity) silence)

    pub pop_planar-IsValid :
        {r : PlanarRing A} (dst : ℕ → ℕ → A) (frames : ℕ)
        → IsValid r
        → IsValid (pop_planar silence r dst frames).2
    unfolding pop_planar
    pop_planar-IsValid {r} dst frames v = discard_before-IsValid _ v
