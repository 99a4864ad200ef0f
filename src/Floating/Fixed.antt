-- ===== src/Floating/Fixed.antt =====
-- A floating-point arithmetic that is simple enough to compute with: multiples of 2^-20 and one
-- NaN. It shows that the laws of `Floating` can hold, and runs the tests.
use boiled_egg.Base.{
  ℕ, zero, suc, ◌+◌, ◌-◌, ◌*◌, ◌/◌, ◌%◌, ◌^◌, ◌≤◌, ◌<◌, ◌≡◌, refl, Bool, true, false, not, ◌&&◌,
  ltb, ◌==◌, if◌then◌else◌, ℤ, pos, negsuc, pos_part, neg_part, sub_ℕ, ltb_ℤ, arith, to_u64,
}
use boiled_egg.Floating.{Floating, HasBits, IsOrdered, HasFloor, HasWhole, ◌≼◌}

pub data Fixed : Type 0 where
  nan : Fixed
  fin : ℤ → Fixed

abbrev scale : ℕ
scale = 2 ^ 20

abbrev test : (ℤ → ℤ → Bool) → Fixed → Fixed → Bool
test f nan y = false
test f (fin a) nan = false
test f (fin a) (fin b) = f a b

abbrev lift : (ℤ → ℤ → Fixed) → Fixed → Fixed → Fixed
lift f nan y = nan
lift f (fin a) nan = nan
lift f (fin a) (fin b) = f a b

abbrev eq_ℤ : ℤ → ℤ → Bool
eq_ℤ a b = not (ltb_ℤ a b) && not (ltb_ℤ b a)

-- The product of the parts, rounded toward zero.
abbrev mul_ℤ : ℤ → ℤ → ℤ
mul_ℤ a b =
    sub_ℕ ((pos_part a * pos_part b + neg_part a * neg_part b) / scale)
      ((pos_part a * neg_part b + neg_part a * pos_part b) / scale)

abbrev div_ℤ : ℤ → ℤ → Fixed
div_ℤ a (pos zero) = nan
div_ℤ a (pos (suc n)) = fin (sub_ℕ (pos_part a * scale / suc n) (neg_part a * scale / suc n))
div_ℤ a (negsuc n) = fin (sub_ℕ (neg_part a * scale / suc n) (pos_part a * scale / suc n))

abbrev floor_ℤ : ℤ → ℤ
floor_ℤ (pos n) = pos (n / scale)
floor_ℤ (negsuc n) = negsuc (n / scale)

abbrev floor_fixed : Fixed → ℤ
floor_fixed nan = pos 0
floor_fixed (fin a) = floor_ℤ a

abbrev round_fixed : Fixed → ℤ
round_fixed nan = pos 0
round_fixed (fin (pos n)) = pos ((n + scale / 2) / scale)
round_fixed (fin (negsuc n)) = sub_ℕ 0 ((suc n + scale / 2) / scale)

abbrev to_ℕ_fixed : Fixed → ℕ
to_ℕ_fixed nan = 0
to_ℕ_fixed (fin a) = pos_part a / scale

-- NaN, then 0, -1, 1, -2, ... in units of 2^-20.
abbrev code : Fixed → ℕ
code nan = 2 ^ 32 - 1
code (fin (pos n)) = n * 2
code (fin (negsuc n)) = n * 2 + 1

abbrev decode : ℕ → Fixed
decode b =
    if b == 2 ^ 32 - 1 then nan else if b % 2 == 0 then fin (pos (b / 2)) else fin (negsuc (b / 2))

abbrev clip : Fixed → Fixed
clip x = if ltb (code x) (2 ^ 32 - 1) then x else nan

abbrev negate : Fixed → Fixed
negate nan = nan
negate (fin a) = fin (sub_ℕ (neg_part a) (pos_part a))

abbrev magnitude : Fixed → Fixed
magnitude nan = nan
magnitude (fin a) = fin (pos (pos_part a + neg_part a))

abbrev finite : Fixed → Bool
finite nan = false
finite (fin a) = true

abbrev whole : ℤ → Fixed
whole a = fin (sub_ℕ (pos_part a * scale) (neg_part a * scale))

-- The transcendental functions are not needed exactly: each is a fixed curve.
instance abbrev pub fixed_floating : Floating Fixed
fixed_floating = record {
  lt = test ltb_ℤ;
  le = test (λ a b. not (ltb_ℤ b a));
  eq = test eq_ℤ;
  is_finite = finite;
  narrow = clip;
  add = lift (λ a b. fin (sub_ℕ (pos_part a + pos_part b) (neg_part a + neg_part b)));
  sub = lift (λ a b. fin (sub_ℕ (pos_part a + neg_part b) (neg_part a + pos_part b)));
  mul = lift (λ a b. fin (mul_ℤ a b));
  div = lift div_ℤ;
  neg = negate;
  abs = magnitude;
  sqrt = λ x. x;
  cos = λ x. fin (pos scale);
  sin = λ x. x;
  log = λ x.
      lift (λ a b. fin (sub_ℕ (pos_part a + neg_part b) (neg_part a + pos_part b))) x
        (fin (pos scale));
  exp = λ x.
      lift (λ a b. fin (sub_ℕ (pos_part a + pos_part b) (neg_part a + neg_part b))) x
        (fin (pos scale));
  exp2 = λ x.
      lift (λ a b. fin (sub_ℕ (pos_part a + pos_part b) (neg_part a + neg_part b))) x
        (fin (pos scale));
  exp10 = λ x.
      lift (λ a b. fin (sub_ℕ (pos_part a + pos_part b) (neg_part a + neg_part b))) x
        (fin (pos scale));
  atan2 = λ y x. y;
  hypot = λ x y. magnitude x;
  fmod = λ x y. x;
  remainder = λ x y. x;
  pow = λ x y. x;
  round = λ x. whole (round_fixed x);
  lowest = fin (negsuc (2 ^ 80));
  nat = λ n. fin (pos (n * scale));
  int = whole;
  lit = λ n d. fin (pos (n * scale / d));
  to_ℕ = to_ℕ_fixed;
  floor = floor_fixed;
  llround = round_fixed;
  bits = λ x. code (clip x);
  of_bits = decode;
}

decode-code : (x : Fixed) → clip x ≡ x → decode (code (clip x)) ≡ x
decode-code nan h = refl
decode-code (fin (pos n)) h = ground arith
decode-code (fin (negsuc n)) h = ground arith

code_lt : (x : Fixed) → code (clip x) < 2 ^ 32
code_lt nan = omega arith
code_lt (fin (pos n)) = ground arith
code_lt (fin (negsuc n)) = ground arith

code-decode : (b : ℕ) → b < 2 ^ 32 → code (clip (decode b)) ≡ b
code-decode b h = ground arith

clip-clip : (x : Fixed) → clip (clip x) ≡ clip x
clip-clip nan = refl
clip-clip (fin (pos n)) = ground arith
clip-clip (fin (negsuc n)) = ground arith

pub fixed-HasBits : HasBits Fixed
fixed-HasBits = record {
  of_bits-bits = decode-code;
  bits-of_bits = code-decode;
  bits-lt = code_lt;
  narrow-narrow = clip-clip;
}

le_trans_fixed : (x y z : Fixed) → x ≼ y → y ≼ z → x ≼ z
le_trans_fixed nan y z p q = cc
le_trans_fixed (fin a) nan z p q = cc
le_trans_fixed (fin a) (fin b) nan p q = cc
le_trans_fixed (fin a) (fin b) (fin c) p q = ground arith

zero-le-mul_fixed :
    (x y : Fixed) → fin (pos 0) ≼ x → fin (pos 0) ≼ y → fin (pos 0) ≼ fixed_floating.mul x y
zero-le-mul_fixed nan y p q = cc
zero-le-mul_fixed (fin a) nan p q = cc
zero-le-mul_fixed (fin (pos a)) (fin (pos b)) p q = ground arith
zero-le-mul_fixed (fin (pos a)) (fin (negsuc b)) p q = ground arith
zero-le-mul_fixed (fin (negsuc a)) (fin b) p q = ground arith

le-add_fixed : (x y : Fixed) → fin (pos 0) ≼ x → fin (pos 0) ≼ y → x ≼ fixed_floating.add x y
le-add_fixed nan y p q = cc
le-add_fixed (fin a) nan p q = cc
le-add_fixed (fin a) (fin b) p q = ground arith

to_ℕ_mono_fixed : (x y : Fixed) → fin (pos 0) ≼ x → x ≼ y → to_ℕ_fixed x ≤ to_ℕ_fixed y
to_ℕ_mono_fixed nan y p q = cc
to_ℕ_mono_fixed (fin a) nan p q = cc
to_ℕ_mono_fixed (fin a) (fin b) p q = ground arith

to_ℕ-le-llround_fixed : (x : Fixed) → fin (pos 0) ≼ x → to_ℕ_fixed x ≤ to_u64 (round_fixed x)
to_ℕ-le-llround_fixed nan p = cc
to_ℕ-le-llround_fixed (fin (pos a)) p = omega arith
to_ℕ-le-llround_fixed (fin (negsuc a)) p = ground arith

lt_le_fixed : (x y : Fixed) → fixed_floating.lt x y ≡ true → fixed_floating.le y x ≡ true → ⊥
lt_le_fixed nan y p q = cc
lt_le_fixed (fin a) nan p q = cc
lt_le_fixed (fin a) (fin b) p q = ground arith

lt_asymm_fixed : (x y : Fixed) → fixed_floating.lt x y ≡ true → fixed_floating.lt y x ≡ false
lt_asymm_fixed nan y p = cc
lt_asymm_fixed (fin a) nan p = cc
lt_asymm_fixed (fin a) (fin b) p = ground arith

le_of_not_lt_fixed :
    (x y : Fixed)
    → finite x ≡ true
    → finite y ≡ true
    → fixed_floating.lt x y ≡ false
    → fixed_floating.le y x ≡ true
le_of_not_lt_fixed nan y p q r = cc
le_of_not_lt_fixed (fin a) nan p q r = cc
le_of_not_lt_fixed (fin a) (fin b) p q r = ground arith

pub fixed-IsOrdered : IsOrdered Fixed
fixed-IsOrdered = record {
  le_trans = le_trans_fixed;
  zero-le-nat = λ n. ground arith;
  zero-le-mul = λ x y _ _ p q. zero-le-mul_fixed x y p q;
  nat_finite = λ n. refl;
  le-add = le-add_fixed;
  to_ℕ_mono = λ x y _ p q. to_ℕ_mono_fixed x y p q;
  to_ℕ-le-llround = λ x p _. to_ℕ-le-llround_fixed x p;
  one_finite = refl;
  zero-le-one = refl;
  quarter_finite = refl;
  zero-le-quarter = refl;
  le_of_not_lt = le_of_not_lt_fixed;
  lt_asymm = lt_asymm_fixed;
  not-lt-le = λ x y _ _ p q. lt_le_fixed x y p q;
}

pub fixed-HasFloor : HasFloor Fixed
fixed-HasFloor = record { floor-nat = λ n small. ground arith }

pub fixed-HasWhole : HasWhole Fixed
fixed-HasWhole = record { to_ℕ-nat = λ n small. ground arith; eq-nat = λ m n _ _. ground arith }
