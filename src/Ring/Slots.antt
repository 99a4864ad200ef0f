-- ===== src/Ring/Slots.antt =====
-- src/engine.hpp: `PlanarRing::slot_index`, its mask and its slots.
use native.Mathlib.Decide.{dec_lt}
use native.Mathlib.Nat.{mod-lt, mod-add-mod, mod-eq_of_lt, mod-eq-sub-mod, mul-le-mul, le_refl}
use boiled_egg.Base.{
  ℕ, suc, ◌+◌, ◌-◌, ◌*◌, ◌%◌, ◌≤◌, ◌<◌, ◌≡◌, ◌≢◌, ◌∙◌, bit_and, inl, inr, Bool-cases, ◌==◌, arith,
}
use boiled_egg.Base.Bits.{pow2_of_bit_and, bit_and-mask}
use boiled_egg.Ring.{PlanarRing, init_mask, slot_index}

-- A power of two: masking by its predecessor is the remainder.
mask_power :
    (capacity i : ℕ)
    → 1 ≤ capacity
    → bit_and capacity (capacity - 1) ≡ 0
    → bit_and i (capacity - 1) ≡ i % capacity
mask_power capacity i big e = let (k, q) = pow2_of_bit_and capacity big e in rw q (bit_and-mask k i)

module _ {ℓ} {A : Type ℓ} where
  -- With the mask that `init` computes and a capacity of at least 2, `slot_index` is the
  -- remainder by the capacity, whether the capacity is a power of two or not.
  pub slot_index-eq-mod :
      (r : PlanarRing A) (i : ℕ)
      → 2 ≤ r.capacity
      → r.mask ≡ init_mask r.capacity
      → slot_index r i ≡ i % r.capacity
  unfolding slot_index
  slot_index-eq-mod r i big m = elim (Bool-cases (bit_and r.capacity (r.capacity - 1) == 0)) [
    | inl power ↦ ground (arith, mask_power r.capacity i)
    | inr other ↦ ground arith
  ]

-- Positions less than one capacity apart have different slots.
pub mod_apart : (c a d : ℕ) → 1 ≤ d → d < c → (a + d) % c ≢ a % c
mod_apart c a d lo hi e =
    let small : a % c < c = mod-lt a (omega arith) in
    let moved : (a % c + d) % c ≡ a % c = mod-add-mod a c d ∙ e in
    elim (dec_lt (a % c + d) c) [
      | yes p ↦ omega (arith, mod-eq_of_lt p)
      | no p ↦ omega (
        arith,
        mod-eq-sub-mod {n = a % c + d} {m = c} (omega arith),
        mod-eq_of_lt {n = a % c + d - c} {m = c} (omega arith),
      )
    ]

-- A slot below the capacity and its channel are read back from the index.
pub cell_injective :
    (c ch ch' s s' : ℕ) → s < c → s' < c → ch * c + s ≡ ch' * c + s' → (ch ≡ ch') × (s ≡ s')
cell_injective c ch ch' s s' hs hs' e = elim (dec_lt ch ch') [
  | yes p ↦ absurd (omega (arith, mul-le-mul {n₁ = suc ch} {n₂ = ch'} p (le_refl c)))
  | no p ↦ elim (dec_lt ch' ch) [
    | yes q ↦ absurd (omega (arith, mul-le-mul {n₁ = suc ch'} {n₂ = ch} q (le_refl c)))
    | no q ↦ let same : ch ≡ ch' = omega arith in (same, grind arith)
  ]
]

pub cell_lt : (c n ch s : ℕ) → ch < n → s < c → ch * c + s < n * c
cell_lt c n ch s p q = grind arith
