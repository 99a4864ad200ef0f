-- ===== src/Floating.antt =====
-- The floating-point numbers of the program, as a parameter: `float` and `double` share one type
-- of values (every `float` is a `double`), and `narrow` is `static_cast<float>`. The operations are
-- those of `double`; a `float` operation is `narrow` of it, which rounds to the same value.
pub mod Fixed
use boiled_egg.Base.{
  ℕ, ℤ, pos, Bool, true, false, ◌≡◌, ◌≤◌, ◌<◌, ◌^◌, not, ◌==◌, to_u64, if◌then◌else◌,
}

pub record Floating (W : Type 0) : Type 0 where
  pub lt : W → W → Bool
  pub le : W → W → Bool
  pub eq : W → W → Bool
  pub is_finite : W → Bool
  pub narrow : W → W
  pub add : W → W → W
  pub sub : W → W → W
  pub mul : W → W → W
  pub div : W → W → W
  pub neg : W → W
  pub abs : W → W
  pub sqrt : W → W
  pub cos : W → W
  pub sin : W → W
  pub log : W → W
  pub exp : W → W
  -- std::exp2, and std::pow with base 10
  pub exp2 : W → W
  pub exp10 : W → W
  pub atan2 : W → W → W
  pub hypot : W → W → W
  pub fmod : W → W → W
  pub remainder : W → W → W
  pub pow : W → W → W
  pub round : W → W
  -- minus infinity
  pub lowest : W
  -- an integer as a floating-point number
  pub nat : ℕ → W
  pub int : ℤ → W
  -- the literal n / d, as a double
  pub lit : ℕ → ℕ → W
  -- static_cast<uint64_t>, static_cast<int64_t>(std::floor(x)) and std::llround
  pub to_ℕ : W → ℕ
  pub floor : W → ℤ
  pub llround : W → ℤ
  -- std::bit_cast to and from the 32 bits of a float
  pub bits : W → ℕ
  pub of_bits : ℕ → W

module _ {W : Type 0} ⦃w : Floating W⦄ where
  -- A value that a variable of type `float` can hold.
  abbrev pub IsFloat : W → Type 0
  IsFloat x = w.narrow x ≡ x

  infix 50 ◌≼◌
  abbrev pub ◌≼◌ : W → W → Type 0
  x ≼ y = w.le x y ≡ true

  -- `a > b`, `a >= b` and `a != b`, which are false, false and true where one is NaN.
  abbrev pub gt : W → W → Bool
  gt a b = w.lt b a

  abbrev pub ge : W → W → Bool
  ge a b = w.le b a

  abbrev pub ne : W → W → Bool
  ne a b = not (w.eq a b)

  -- Literals of type `float`.
  abbrev pub flit : ℕ → ℕ → W
  flit n d = w.narrow (w.lit n d)

  -- Arithmetic of type `float`.
  abbrev pub fadd : W → W → W
  fadd a b = w.narrow (w.add a b)

  abbrev pub fsub : W → W → W
  fsub a b = w.narrow (w.sub a b)

  abbrev pub fmul : W → W → W
  fmul a b = w.narrow (w.mul a b)

  abbrev pub fdiv : W → W → W
  fdiv a b = w.narrow (w.div a b)

  -- `std::min`, `std::max` and `std::clamp`.
  abbrev pub min_of : W → W → W
  min_of a b = if w.lt b a then b else a

  abbrev pub max_of : W → W → W
  max_of a b = if w.lt a b then b else a

  abbrev pub clamp : W → W → W → W
  clamp v lo hi = if w.lt v lo then lo else if w.lt hi v then hi else v

-- A float kept in an `atomic<uint32_t>` comes back bit for bit.
pub record HasBits (W : Type 0) ⦃w : Floating W⦄ : Type 0 where
  pub of_bits-bits : (x : W) → w.narrow x ≡ x → w.of_bits (w.bits x) ≡ x
  pub bits-of_bits : (b : ℕ) → b < 2 ^ 32 → w.bits (w.of_bits b) ≡ b
  pub bits-lt : (x : W) → w.bits x < 2 ^ 32
  pub narrow-narrow : (x : W) → w.narrow (w.narrow x) ≡ w.narrow x

-- What IEEE 754 and the C library document of order, sums and conversions.
pub record IsOrdered (W : Type 0) ⦃w : Floating W⦄ : Type 0 where
  pub le_trans : (x y z : W) → x ≼ y → y ≼ z → x ≼ z
  pub zero-le-nat : (n : ℕ) → w.nat 0 ≼ w.nat n
  pub zero-le-mul :
      (x y : W)
      → w.is_finite x ≡ true
      → w.is_finite y ≡ true
      → w.nat 0 ≼ x
      → w.nat 0 ≼ y
      → w.nat 0 ≼ w.mul x y
  pub nat_finite : (n : ℕ) → w.is_finite (w.nat n) ≡ true
  pub le-add : (x y : W) → w.nat 0 ≼ x → w.nat 0 ≼ y → x ≼ w.add x y
  pub to_ℕ_mono :
      (x y : W) → w.lt y (w.nat (2 ^ 63)) ≡ true → w.nat 0 ≼ x → x ≼ y → w.to_ℕ x ≤ w.to_ℕ y
  pub to_ℕ-le-llround :
      (x : W) → w.nat 0 ≼ x → w.lt x (w.nat (2 ^ 63)) ≡ true → w.to_ℕ x ≤ to_u64 (w.llround x)
  pub one_finite : w.is_finite (w.narrow (w.lit 1 1)) ≡ true
  pub zero-le-one : w.nat 0 ≼ w.narrow (w.lit 1 1)
  pub quarter_finite : w.is_finite (w.narrow (w.lit 25 100)) ≡ true
  pub zero-le-quarter : w.nat 0 ≼ w.narrow (w.lit 25 100)
  pub le_of_not_lt :
      (x y : W) → w.is_finite x ≡ true → w.is_finite y ≡ true → w.lt x y ≡ false → y ≼ x
  pub lt_asymm : (x y : W) → w.lt x y ≡ true → w.lt y x ≡ false
  pub not-lt-le :
      (x y : W)
      → w.is_finite x ≡ true
      → w.is_finite y ≡ true
      → w.lt x y ≡ true
      → w.le y x ≡ true
      → ⊥

-- Whole numbers that a double holds exactly are their own floor.
pub record HasFloor (W : Type 0) ⦃w : Floating W⦄ : Type 0 where
  pub floor-nat : (n : ℕ) → n < 2 ^ 53 → w.floor (w.nat n) ≡ pos n

-- Whole numbers that a double holds exactly keep their value and their equality.
pub record HasWhole (W : Type 0) ⦃w : Floating W⦄ : Type 0 where
  pub to_ℕ-nat : (n : ℕ) → n < 2 ^ 53 → w.to_ℕ (w.nat n) ≡ n
  pub eq-nat : (m n : ℕ) → m < 2 ^ 53 → n < 2 ^ 53 → w.eq (w.nat m) (w.nat n) ≡ (m == n)
