-- ===== src/Fft.antt =====
-- src/experimental/pv/fft.cpp: complex numbers of floats, and the immediate transform of `fft_plan`.
use boiled_egg.Base.{
  ℕ, zero, suc, ◌+◌, ◌*◌, ◌/◌, ◌%◌, ◌^◌, Bool, if◌then◌else◌, ltb, List, map, get_or, set,
}
use boiled_egg.Floating.{Floating, flit, fadd, fsub, fmul, fdiv}

-- `std::complex<float>`: the real and the imaginary part.
abbrev pub Complex : Type 0 → Type 0
Complex W = W × W

-- The loop over the bits of an index: `reversed = (reversed << 1) | (x & 1); x >>= 1`.
unfoldable pub reverse_bits : ℕ → ℕ → ℕ → ℕ
reverse_bits zero x reversed = reversed
reverse_bits (suc bits) x reversed = reverse_bits bits (x / 2) (reversed * 2 + x % 2)

-- `for (n = size; n > 1; n >>= 1) ++bits`
unfoldable pub count_bits : ℕ → ℕ → ℕ → ℕ
count_bits zero n bits = bits
count_bits (suc fuel) n bits =
    let rest = count_bits fuel (n / 2) (bits + 1) in if ltb 1 n then rest else bits

module _ {W : Type 0} ⦃w : Floating W⦄ where
  abbrev pub zero_complex : Complex W
  zero_complex = (w.nat 0, w.nat 0)

  abbrev pub real : W → Complex W
  real x = (x, w.nat 0)

  abbrev pub conj : Complex W → Complex W
  conj (x, y) = (x, w.neg y)

  abbrev pub cadd : Complex W → Complex W → Complex W
  cadd (a, b) (c, d) = (fadd a c, fadd b d)

  abbrev pub csub : Complex W → Complex W → Complex W
  csub (a, b) (c, d) = (fsub a c, fsub b d)

  abbrev pub cmul : Complex W → Complex W → Complex W
  cmul (a, b) (c, d) = (fsub (fmul a c) (fmul b d), fadd (fmul a d) (fmul b c))

  abbrev pub cscale : W → Complex W → Complex W
  cscale k (a, b) = (fmul a k, fmul b k)

  -- `std::polar`, `std::abs` and `std::arg`.
  abbrev pub polar : W → W → Complex W
  polar r angle = (fmul r (w.narrow (w.cos angle)), fmul r (w.narrow (w.sin angle)))

  abbrev pub cabs : Complex W → W
  cabs (a, b) = w.narrow (w.hypot a b)

  abbrev pub carg : Complex W → W
  carg (a, b) = w.narrow (w.atan2 b a)

  -- `roots_[k]`
  unfoldable pub root : ℕ → ℕ → Complex W
  root size k =
      let angle =
        fdiv (fmul (fmul (w.neg (flit 2 1)) (flit 3141592653589793 (10 ^ 15))) (w.narrow (w.nat k)))
          (w.narrow (w.nat size)) in
      (w.narrow (w.cos angle), w.narrow (w.sin angle))

  abbrev pub at : List (Complex W) → ℕ → Complex W
  at data_ i = get_or data_ i zero_complex

  -- The permutation, from index `i` on.
  unfoldable pub permute : ℕ → ℕ → ℕ → List (Complex W) → List (Complex W)
  permute zero i bits xs = xs
  permute (suc n) i bits xs =
      let j = reverse_bits bits i 0 in
      permute n (i + 1) bits (if ltb i j then set (set xs i (at xs j)) j (at xs i) else xs)

  -- One butterfly: the elements `even` and `even + half`.
  unfoldable pub butterfly : ℕ → ℕ → Complex W → List (Complex W) → List (Complex W)
  butterfly even half r xs =
      let a = at xs even in
      let b = cmul (at xs (even + half)) r in set (set xs even (cadd a b)) (even + half) (csub a b)

  -- The loops over the columns of a block, the blocks of a stage, and the stages: `half` is half the
  -- length.
  unfoldable pub columns : ℕ → ℕ → ℕ → ℕ → ℕ → Bool → List (Complex W) → List (Complex W)
  columns zero j base half size inverse xs = xs
  columns (suc n) j base half size inverse xs =
      let r = root size (j * (size / (half * 2))) in
      columns n (j + 1) base half size inverse
        (butterfly (base + j) half (if inverse then conj r else r) xs)

  unfoldable pub blocks : ℕ → ℕ → ℕ → ℕ → Bool → List (Complex W) → List (Complex W)
  blocks zero base half size inverse xs = xs
  blocks (suc n) base half size inverse xs =
      blocks n (base + half * 2) half size inverse (columns half 0 base half size inverse xs)

  unfoldable pub stages : ℕ → ℕ → ℕ → Bool → List (Complex W) → List (Complex W)
  stages zero half size inverse xs = xs
  stages (suc n) half size inverse xs =
      stages n (half * 2) size inverse (blocks (size / (half * 2)) 0 half size inverse xs)

  unfoldable pub transform : ℕ → Bool → List (Complex W) → List (Complex W)
  transform size inverse xs =
      let bits = count_bits 64 size 0 in
      let out = stages bits 1 size inverse (permute size 0 bits xs) in
      if inverse then map (cscale (fdiv (flit 1 1) (w.narrow (w.nat size)))) out else out
