-- ===== src/Ring/Reads.antt =====
-- Reads of `PlanarRing`: `get` inside and outside the window, and `contiguous`, which lends a span
-- of the storage in its place.
use native.Mathlib.Nat.{mod-lt, mod-add-mod, mod-eq_of_lt}
use boiled_egg.Base.{
  ℕ, ◌+◌, ◌*◌, ◌%◌, ◌≤◌, ◌<◌, ◌≡◌, sym, ◌∙◌, ◌⊎◌, true, false, ◌||◌, arith, ltb, leb, sub64, sub32,
  get_or, some, pos,
}
use boiled_egg.Ring.Bounds.{IsValid}
use boiled_egg.Ring.Slots.{slot_index-eq-mod, cell_lt}
use boiled_egg.Ring.{PlanarRing, slot_index, sample_at, cell, get, contiguous}

-- A remainder moves with the dividend until it reaches the modulus.
mod_shift : (c a k : ℕ) → a % c + k < c → (a + k) % c ≡ a % c + k
mod_shift c a k h = sym (mod-add-mod a c k) ∙ mod-eq_of_lt h

module _ {ℓ} {A : Type ℓ} (silence : A) (r : PlanarRing A) where
  -- Inside the window and the channels `get` reads the stored sample.
  pub get_inside :
      (ch i : ℕ)
      → ch < r.channels
      → r.start ≤ i
      → i < r.end
      → get silence r ch (pos i) ≡ sample_at silence r ch i
  unfolding get
  get_inside ch i hc lo hi =
      let t : (ltb i r.start || leb r.end i || leb r.channels ch) ≡ false = ground arith in rw t

  pub get_outside : (ch i : ℕ) → ((i < r.start) ⊎ (r.end ≤ i)) → get silence r ch (pos i) ≡ silence
  unfolding get
  get_outside ch i out =
      let t : (ltb i r.start || leb r.end i || leb r.channels ch) ≡ true = ground arith in rw t

  slot_shift :
      (i k : ℕ)
      → IsValid r
      → slot_index r i + k < r.capacity
      → slot_index r (i + k) ≡ slot_index r i + k
  slot_shift i k v h =
      let a = slot_index-eq-mod r i (omega arith) v.mask_ok in
      let b = slot_index-eq-mod r (i + k) (omega arith) v.mask_ok in
      rw (a, b) (mod_shift r.capacity i k (rw a at h))

  -- What a lent span consists of.
  contiguous_inv :
      (ch i frames p : ℕ)
      → contiguous silence r ch (pos i) frames ≡ some p
      → (ch < r.channels)
        × (r.start ≤ i)
        × (i ≤ r.end)
        × (frames ≤ sub64 r.end i)
        × (frames ≤ sub32 r.capacity (slot_index r i))
        × (p ≡ cell r ch (slot_index r i))
  unfolding contiguous
  contiguous_inv ch i frames p h = ground arith

  -- On a valid ring, a span that `contiguous` lends lies inside the storage, and holds in order
  -- the samples that `get` returns.
  pub contiguous-get :
      (ch i frames p k : ℕ)
      → IsValid r
      → contiguous silence r ch (pos i) frames ≡ some p
      → k < frames
      → (p + k < r.channels * r.capacity)
        × (get_or r.samples (p + k) silence ≡ get silence r ch (pos (i + k)))
  contiguous-get ch i frames p k v h lt =
      let (hc, lo, hi, n, m, e) = contiguous_inv ch i frames p h in
      let s = slot_index r i in
      let small : s < r.capacity =
        rw (slot_index-eq-mod r i (omega arith) v.mask_ok) (mod-lt i (omega arith)) in
      let room : s + k < r.capacity = omega arith in
      let moved = slot_shift i k v room in
      let there : p + k ≡ ch * r.capacity + slot_index r (i + k) = omega arith in
      (
        rw (there, moved) (cell_lt r.capacity r.channels ch (s + k) hc room),
        rw there (sym (get_inside ch (i + k) hc (omega arith) (omega arith))),
      )
