-- ===== src/Base/Bits.antt =====
-- A mask of ones is a remainder, and `c & (c - 1)` tests for a power of two. The native `bit_and`
-- counts digits with its first argument; `overlap` is the same recursion on any count.
use Prim.Native.Nat.{
  ℕ, zero, suc, ◌+◌, ◌-◌, ◌*◌, ◌/◌, ◌%◌, ◌≤◌, min, bit_and, digits, bit_and-bitwise,
}
use mathlib.Core.Path.{◌≡◌, refl, ◌∙◌}
use native.Mathlib.Omega.{arith}
use native.Mathlib.Decide.{dec_lt, ℕ_discrete}
use native.Mathlib.Nat.{div-add-mod}

abbrev overlap : ℕ → ℕ → ℕ → ℕ
overlap count x y = digits (λ _. zero) min count x y

zero-overlap : (count y : ℕ) → overlap count 0 y ≡ 0
zero-overlap zero y = refl
zero-overlap (suc count) y = refl

-- Spare digits change nothing.
overlap_spare : (spare count x y : ℕ) → x ≤ count → overlap (spare + count) x y ≡ overlap count x y
overlap_spare zero count x y small = let same : zero + count ≡ count = omega arith in rw same refl
overlap_spare (suc spare) zero x y small =
    let gone : x ≡ 0 = omega arith in rw gone (zero-overlap (suc spare + 0) y)
overlap_spare (suc spare) (suc count) zero y small = zero-overlap (suc spare + suc count) y
overlap_spare (suc spare) (suc count) (suc x) y small =
    let shorter : suc spare + suc count ≡ suc (suc spare + count) = omega arith in
    rw shorter (omega (arith, overlap_spare (suc spare) count (suc x / 2) (y / 2) (omega arith)))

overlap_native : (count x y : ℕ) → x ≤ count → overlap count x y ≡ bit_and x y
overlap_native count x y small =
    let split : count ≡ count - x + x = omega arith in
    let spare = overlap_spare (count - x) x x y (omega arith) in
    let native = bit_and-bitwise x y in grind arith

pub zero-bit_and : (y : ℕ) → bit_and 0 y ≡ 0
zero-bit_and y = bit_and-bitwise 0 y

-- The law of the lowest digit.
pub bit_and_step : (x y : ℕ) → bit_and x y ≡ bit_and (x / 2) (y / 2) * 2 + min (x % 2) (y % 2)
bit_and_step zero y = omega (arith, zero-bit_and y, zero-bit_and (y / 2))
bit_and_step (suc x) y =
    let whole = bit_and-bitwise (suc x) y in
    let rest = overlap_native x (suc x / 2) (y / 2) (omega arith) in omega arith

overlap-zero : (count x : ℕ) → overlap count x 0 ≡ 0
overlap-zero zero x = refl
overlap-zero (suc count) zero = refl
overlap-zero (suc count) (suc x) = omega (arith, overlap-zero count (suc x / 2))

pub bit_and-zero : (x : ℕ) → bit_and x 0 ≡ 0
bit_and-zero x = bit_and-bitwise x 0 ∙ overlap-zero x x

-- `pow2 k` is 2 ^ k, by doubling.
abbrev pub pow2 : ℕ → ℕ
pow2 zero = 1
pow2 (suc k) = pow2 k + pow2 k

pub pow2_pos : (k : ℕ) → 1 ≤ pow2 k
pow2_pos zero = omega arith
pow2_pos (suc k) = omega (arith, pow2_pos k)

half_mod : (a m : ℕ) → 1 ≤ m → (a % (m + m) ≡ (a / 2) % m * 2 + a % 2)
half_mod a m h = grind (arith, div-add-mod)

-- A mask of `k` ones keeps the remainder by 2 ^ k.
pub bit_and-mask : (k a : ℕ) → bit_and a (pow2 k - 1) ≡ a % pow2 k
bit_and-mask zero a = omega (arith, bit_and-zero a)
bit_and-mask (suc k) a =
    let m : (pow2 k + pow2 k - 1) / 2 ≡ pow2 k - 1 = omega (arith, pow2_pos k) in
    let o : (pow2 k + pow2 k - 1) % 2 ≡ 1 = omega (arith, pow2_pos k) in
    let s = bit_and_step a (pow2 k + pow2 k - 1) in
    let s' = rw (m, o) at s in
    omega (arith, s', bit_and-mask k (a / 2), half_mod a (pow2 k) (pow2_pos k))

bit_and_self_fuel : (n a : ℕ) → a ≤ n → bit_and a a ≡ a
bit_and_self_fuel zero a h = let e : a ≡ 0 = omega arith in rw e (zero-bit_and 0)
bit_and_self_fuel (suc n) zero h = zero-bit_and 0
bit_and_self_fuel (suc n) (suc a) h =
    omega (arith, bit_and_step (suc a) (suc a), bit_and_self_fuel n (suc a / 2) (omega arith))

-- Only a power of two has no bit in common with its predecessor.
pow2_fuel : (n c : ℕ) → c ≤ n → 1 ≤ c → bit_and c (c - 1) ≡ 0 → (k : ℕ) × (c ≡ pow2 k)
pow2_fuel zero c h p e = absurd (omega arith)
pow2_fuel (suc n) c h p e = elim (dec_lt 1 c) [
  | no one ↦ (0, omega arith)
  | yes more ↦ elim (ℕ_discrete (c % 2) 0) [
    | yes even ↦
        let d : (c - 1) / 2 ≡ c / 2 - 1 = omega arith in
        let s = rw d at (bit_and_step c (c - 1)) in
        let (k, q) = pow2_fuel n (c / 2) (omega arith) (omega arith) (omega arith) in
        (suc k, omega arith)
    | no odd ↦
        let d : (c - 1) / 2 ≡ c / 2 = omega arith in
        let s = rw d at (bit_and_step c (c - 1)) in
        absurd (omega (arith, bit_and_self_fuel (c / 2) (c / 2) (omega arith)))
  ]
]

pub pow2_of_bit_and : (c : ℕ) → 1 ≤ c → bit_and c (c - 1) ≡ 0 → (k : ℕ) × (c ≡ pow2 k)
pow2_of_bit_and c = pow2_fuel c c (omega arith)
